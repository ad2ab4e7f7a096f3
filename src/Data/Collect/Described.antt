-- ===== src/Data/Collect/Described.antt =====
-- The manifest that a session writes, as the validation reads it.
use vn_robotics.Prelude.{
  ℕ, suc, ◌≡◌, refl, ◌∙◌, ap, true, false, not, List, [], ◌∷◌, ◌++◌, length, arith, number_eq,
  contains, same_refl, ◌||◌,
}
use vn_robotics.Py.Errors.{ok}
use vn_robotics.Py.Json.{
  Number, Json, null, str, obj, get_or, find, item, member, truthy, as_number, equals_one, update,
  put_field,
}
use vn_robotics.Data.Dataset.{Frame, insert_id, episodes}
use vn_robotics.Data.Dataset.Ids.{contains-insert_id}
use vn_robotics.Data.Manifest.{
  Problem, no_commit, no_frames, no_episodes, lacking_keys, when, problems_of, validate,
}
use vn_robotics.Data.Manifest.Build.{git_description, build}
use vn_robotics.Data.Collect.{Picture, Info}
use vn_robotics.Data.Collect.Session.{Args, Session, label_source, manifest_of}

length-contains : (e : ℕ) (is : List ℕ) → contains e is ≡ true → (k : ℕ) × (length is ≡ suc k)
length-contains e [] h = absurd (ground arith)
length-contains e (i ∷ is) h = (length is, refl)

length-insert_id : (e : ℕ) (is : List ℕ) → (k : ℕ) × (length (insert_id e is) ≡ suc k)
length-insert_id e is =
    length-contains e (insert_id e is)
      (contains-insert_id e e is ∙ ap (λ b. b || contains e is) (same_refl e))

-- What the code relies on of whole numbers.
pub record LawfulCounts {F : Type 0} (n : Number F) : Type 0 where
  pub one_same : n.eq (n.literal 1 0) (n.literal 1 0) ≡ true
  pub zero_le : n.le (n.literal 0 0) (n.literal 0 0) ≡ true
  pub positive : (k : ℕ) → n.le (n.literal (suc k) 0) (n.literal 0 0) ≡ false

module _ {F : Type 0} where
  -- A recording without a row has two problems.
  abbrev pub row_problems : List (Frame F) → List (Problem F)
  row_problems [] = no_frames ∷ no_episodes ∷ []
  row_problems (f ∷ fs) = []

module _ {F : Type 0} ⦃n : Number F⦄ (law : LawfulCounts n) (session : Session F)
    (args : Args) where
  source_read : get_or "source" null (obj (label_source {F = F})) ≡ ok (str "simulator")
  unfolding get_or find
  source_read = refl

  described_empty :
      (info : Info F) (msg : Picture) (commit : Json F)
      → get_or "commit" null (git_description session.checkout args.repo) ≡ ok commit
      → validate (manifest_of session args 0 [] info msg)
        ≡ ok (when (not (truthy commit)) no_commit ++ row_problems [])
  unfolding validate problems_of lacking_keys member item find as_number equals_one update put_field
      build manifest_of episodes
  described_empty info msg commit read = rw (law.one_same, read, source_read, law.zero_le) refl

  described_rows :
      (k m : ℕ) (f : Frame F) (fs : List (Frame F)) (info : Info F) (msg : Picture)
      (commit : Json F)
      → length (episodes (f ∷ fs)) ≡ suc m
      → get_or "commit" null (git_description session.checkout args.repo) ≡ ok commit
      → validate (manifest_of session args (suc k) (f ∷ fs) info msg)
        ≡ ok (when (not (truthy commit)) no_commit ++ row_problems (f ∷ fs))
  unfolding validate problems_of lacking_keys member item find as_number equals_one update put_field
      build manifest_of
  described_rows k m f fs info msg commit some_episode read =
      rw (some_episode, law.one_same, read, source_read, law.positive k, law.positive m) refl

  -- On the manifest of a session that kept as many frames as there are rows, the validation finds
  -- a missing commit, and that there are no frames and no episodes when there are no rows, and
  -- nothing else.
  pub manifest_of-validate :
      (rows : List (Frame F)) (info : Info F) (msg : Picture) (commit : Json F)
      → get_or "commit" null (git_description session.checkout args.repo) ≡ ok commit
      → validate (manifest_of session args (length rows) rows info msg)
        ≡ ok (when (not (truthy commit)) no_commit ++ row_problems rows)
  unfolding episodes
  manifest_of-validate [] info msg commit read = described_empty info msg commit read
  manifest_of-validate (f ∷ fs) info msg commit read =
      let (m, e) = length-insert_id f.episode (episodes fs) in
      described_rows (length fs) m f fs info msg commit e read
