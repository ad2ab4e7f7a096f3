-- ===== src/Ml/Train/Accepted.antt =====
-- The gates on an artifact that was trained.
use vn_robotics.Prelude.{
  ◌≡◌, ◌≢◌, refl, sym, ap, Bool, true, false, not, some, [], ◌∷◌, ◌++◌, arith, if◌then◌else◌,
  Bool-cases, inl, inr,
}
use mathlib.Core.Path.{subst}
use vn_robotics.Py.Errors.{ok, raise}
use vn_robotics.Py.Json.{
  Number, Json, null, bool, num, str, arr, obj, end, field, find, item, member, get_or, items,
  entries, truthy, as_number, equals_one, list_of, elements, empty_dict,
}
use vn_robotics.Data.Manifest.{is_positive, validate}
use vn_robotics.Data.Manifest.Usable.{Result-bind}
use vn_robotics.Data.Manifest.Build.{git_description}
use vn_robotics.Mlops.Gates.{
  Reason, no_commit, validates, feature_contract, selected_key, provenance,
}
use vn_robotics.Ml.Features.{feature_names}
use vn_robotics.Ml.Train.{Scores}
use vn_robotics.Ml.Train.Artifact.{
  Run, Trained, refused, trained, results, artifact_of, dataset_entry,
}

-- What the code relies on of one and zero.
pub record LawfulZero {F : Type 0} (n : Number F) : Type 0 where
  pub one_same : n.eq (n.literal 1 0) (n.literal 1 0) ≡ true
  pub zero_le : n.le (n.literal 0 0) (n.literal 0 0) ≡ true
  pub equal_le : (x : F) → n.eq x (n.literal 0 0) ≡ true → n.le x (n.literal 0 0) ≡ true

pub ok_inj : {A : Type 0} (a b : A) → ok a ≡ ok b → a ≡ b
ok_inj a b h = ap (λ r. elim r [ ok x ↦ x | raise e ↦ a ]) h

module _ {F : Type 0} ⦃n : Number F⦄ (law : LawfulZero n) where
  pub positive-truthy :
      (v : Json F) (x : F) → as_number v ≡ ok x → is_positive x ≡ true → truthy v ≡ true
  unfolding as_number truthy
  positive-truthy (bool true) x e p = refl
  positive-truthy (bool false) x e p =
      let same : n.literal 0 0 ≡ x = ok_inj (n.literal 0 0) x e in
      let p' = subst (λ y. is_positive y ≡ true) (sym same) p in
      absurd (ground (arith, p', law.zero_le))
  positive-truthy (num y) x e p =
      let p' = subst (λ y. is_positive y ≡ true) (sym (ok_inj y x e)) p in
      elim (Bool-cases (n.eq y (n.literal 0 0))) [
        | inl h ↦ absurd (ground (arith, p', law.equal_le y h))
        | inr h ↦ ap not h
      ]
  positive-truthy null x e p = absurd (ground (arith, e))
  positive-truthy (str s) x e p = absurd (ground (arith, e))
  positive-truthy (arr xs) x e p = absurd (ground (arith, e))
  positive-truthy (obj fs) x e p = absurd (ground (arith, e))

  pub artifact_of-validates :
      (ridge base stats split dataset code : Json F) (x y z : Scores F)
      → validates (artifact_of ridge base (results x y z) stats split dataset code) ≡ ok []
  unfolding validates artifact_of member find item items entries truthy equals_one
  artifact_of-validates ridge base stats split dataset code x y z = rw law.one_same refl

module _ {F : Type 0} ⦃n : Number F⦄ where
  pub artifact_of-feature_contract :
      (ridge base metrics stats split dataset code : Json F)
      → feature_contract (artifact_of ridge base metrics stats split dataset code) feature_names
        ≡ ok []
  unfolding feature_contract artifact_of find item list_of elements
  artifact_of-feature_contract ridge base metrics stats split dataset code = refl

  pub artifact_of-selected_key :
      (ridge base stats split dataset code : Json F) (x y z : Scores F)
      → selected_key (artifact_of ridge base (results x y z) stats split dataset code)
        ≡ ok (some (str "ridge + shape"))
  unfolding selected_key artifact_of find member get_or truthy
  artifact_of-selected_key ridge base stats split dataset code x y z = refl

  -- The entry of a dataset.
  abbrev pub entry_of : (world robot frames episodes created code labels : Json F) → Json F
  entry_of world robot frames episodes created code labels = obj (
      field "world" world (
        field "robot" robot (
          field "frames" frames (
            field "episodes" episodes
              (field "recorded" created (field "code" code (field "labels" labels end)))))))

  artifact_code :
      (ridge base metrics stats split dataset code : Json F)
      → get_or "code" empty_dict (artifact_of ridge base metrics stats split dataset code) ≡ ok code
  unfolding artifact_of get_or find
  artifact_code ridge base metrics stats split dataset code = refl

  artifact_dataset :
      (ridge base metrics stats split dataset code : Json F)
      → get_or "dataset" empty_dict (artifact_of ridge base metrics stats split dataset code)
        ≡ ok dataset
  unfolding artifact_of get_or find
  artifact_dataset ridge base metrics stats split dataset code = refl

  entry_reads :
      (w r f e c code labels : Json F)
      → let d = entry_of w r f e c code labels in
        (get_or "code" empty_dict d ≡ ok code)
        × (get_or "frames" null d ≡ ok f)
        × (get_or "labels" empty_dict d ≡ ok labels)
  unfolding get_or find
  entry_reads w r f e c code labels = (refl, refl, refl)

  lone : (b : Bool) (r : Reason F) → (if b then [] else r ∷ []) ++ [] ≡ (if b then [] else r ∷ [])
  lone true r = refl
  lone false r = refl

  pub artifact_of-provenance :
      (ridge base metrics stats split code : Json F)
      (w r f e c dataset_code labels commit dataset_commit source : Json F)
      → get_or "commit" null code ≡ ok commit
      → get_or "commit" null dataset_code ≡ ok dataset_commit
      → get_or "source" null labels ≡ ok source
      → truthy dataset_commit ≡ true
      → truthy f ≡ true
      → let d = entry_of w r f e c dataset_code labels in
        provenance (artifact_of ridge base metrics stats split d code)
        ≡ ok (if truthy commit then [] else no_commit ∷ [])
  unfolding provenance
  artifact_of-provenance ridge base metrics stats split code w r f e c dataset_code labels commit
        dataset_commit source h₁ h₂ h₃ h₄ h₅ =
      let d = entry_of w r f e c dataset_code labels in
      let (a, b, l) = entry_reads w r f e c dataset_code labels in
      rw
        (
          artifact_code ridge base metrics stats split d code,
          h₁,
          artifact_dataset ridge base metrics stats split d code,
          a,
          h₂,
          b,
          l,
          h₃,
          h₄,
          h₅,
        )
        (ap ok (lone (truthy commit) no_commit))

  -- An artifact that fails no gate that does not look at the scores, but for a commit that is
  -- missing.
  pub record IsAccepted (run : Run F) (artifact : Json F) : Type 0 where
    pub is_valid : validates artifact ≡ ok []
    pub has_features : feature_contract artifact feature_names ≡ ok []
    pub selects : selected_key artifact ≡ ok (some (str "ridge + shape"))
    pub commit : Json F
    pub commit_read : get_or "commit" null (git_description run.checkout "/ws") ≡ ok commit
    pub provenance_is : provenance artifact ≡ ok (if truthy commit then [] else no_commit ∷ [])

  abbrev pub Handled : Run F → Trained F → Type 0
  Handled run (refused ps) = (validate run.manifest ≡ ok ps) × (ps ≢ [])
  Handled run (trained artifact) = (validate run.manifest ≡ ok []) × IsAccepted run artifact

  -- A dataset's entry, from the items of the manifest.
  pub record Entered (doc d : Json F) : Type 0 where
    pub world : Json F
    pub robot : Json F
    pub frames : Json F
    pub episodes : Json F
    pub created : Json F
    pub code : Json F
    pub labels : Json F
    pub frames_read : item "frames" doc ≡ ok frames
    pub code_read : item "code" doc ≡ ok code
    pub labels_read : item "labels" doc ≡ ok labels
    pub entry : entry_of world robot frames episodes created code labels ≡ d

  pub dataset_entry-Entered : (doc d : Json F) → dataset_entry doc ≡ ok d → Entered doc d
  unfolding dataset_entry
  dataset_entry-Entered doc d h =
      let (world, e₁, h₁) = Result-bind (item "world" doc) _ d h in
      let (robot, e₂, h₂) = Result-bind (item "robot" doc) _ d h₁ in
      let (frames, e₃, h₃) = Result-bind (item "frames" doc) _ d h₂ in
      let (episodes, e₄, h₄) = Result-bind (item "episodes" doc) _ d h₃ in
      let (created, e₅, h₅) = Result-bind (item "created" doc) _ d h₄ in
      let (code, e₆, h₆) = Result-bind (item "code" doc) _ d h₅ in
      let (labels, e₇, h₇) = Result-bind (item "labels" doc) _ d h₆ in
      record {
        world = world;
        robot = robot;
        frames = frames;
        episodes = episodes;
        created = created;
        code = code;
        labels = labels;
        frames_read = e₃;
        code_read = e₆;
        labels_read = e₇;
        entry = ok_inj _ d h₇;
      }
