-- ===== src/Data/Dataset/Whole.antt =====
-- split_by_episode: every episode goes whole to one part, no frame is lost, and no part is empty.
use mathlib.Core.List.{Perm}
use vn_robotics.Prelude.{
  ℕ, ◌+◌, ◌≤◌, ◌<◌, ◌≡◌, refl, sym, ◌∙◌, ap, Bool, true, false, Option, none, some, List, [], ◌∷◌,
  ◌++◌, length, contains, keep, ltb, number_eq, arith,
}
use mathlib.Core.Path.{subst}
use mathlib.Core.List.{append-nil, append_assoc}
use vn_robotics.Py.Errors.{ok}
use vn_robotics.Data.Dataset.{
  Frame, Part, train, val, test, Split, episodes, train_size, val_size, part_at, empty_split,
  append_to, deal, assignment_of, split_by_episode,
}
use vn_robotics.Data.Dataset.Permuted.{IsShuffled, perm-IsShuffled}
use vn_robotics.Data.Dataset.Ids.{
  contains-insert_id, episodes-distinct, assigned-contains, assigned_at,
}
use vn_robotics.Prelude.{All}

abbrev pub is_part : Part → Part → Bool
is_part train train = true
is_part val val = true
is_part test test = true
is_part p q = false

abbrev pub or_test : Option Part → Part
or_test (some p) = p
or_test none = test

-- Each size leaves something to the parts after it.
sizes :
    (n a b : ℕ)
    → 3 ≤ n
    → (1 ≤ train_size n a)
      × (1 ≤ val_size n (train_size n a) b)
      × (train_size n a + val_size n (train_size n a) b + 1 ≤ n)
sizes n a b h = (omega arith, omega arith, omega arith)

-- The first positions of the parts.
positions :
    (a b : ℕ)
    → 1 ≤ a
    → 1 ≤ b
    → (part_at a b 0 ≡ train) × (part_at a b a ≡ val) × (part_at a b (a + b) ≡ test)
positions a b h k = (ground arith, ground arith, ground arith)

module _ {F : Type 0} where
  -- The frames whose episode goes to a part.
  abbrev pub frames_of : (ℕ → Part) → Part → List (Frame F) → List (Frame F)
  frames_of part_of part = keep (λ f. is_part (part_of f.episode) part)

  -- A split by episode: its parts are the frames of their episodes, in the order of the data set,
  -- and
  -- each has a frame.
  pub record IsWhole (frames : List (Frame F)) (s : Split F) : Type 0 where
    pub part_of : ℕ → Part
    pub train_whole : s.train_frames ≡ frames_of part_of train frames
    pub val_whole : s.val_frames ≡ frames_of part_of val frames
    pub test_whole : s.test_frames ≡ frames_of part_of test frames
    pub train_nonempty : s.train_frames ≡ [] → ⊥
    pub val_nonempty : s.val_frames ≡ [] → ⊥
    pub test_nonempty : s.test_frames ≡ [] → ⊥

  -- A split that got the frames of each part on top.
  abbrev joined : (ℕ → Part) → List (Frame F) → Split F → Split F
  joined part_of fs s = record {
    train_frames = s.train_frames ++ frames_of part_of train fs;
    val_frames = s.val_frames ++ frames_of part_of val fs;
    test_frames = s.test_frames ++ frames_of part_of test fs;
  }

  joined-append_to :
      (part_of : ℕ → Part) (p : Part) (f : Frame F) (fs : List (Frame F)) (s : Split F)
      → part_of f.episode ≡ p
      → joined part_of fs (append_to p f s) ≡ joined part_of (f ∷ fs) s
  joined-append_to part_of train f fs s e = rw e (
      ap (λ l. record (joined part_of fs s) { train_frames = l })
        (append_assoc s.train_frames (f ∷ []) (frames_of part_of train fs)))
  joined-append_to part_of val f fs s e = rw e (
      ap (λ l. record (joined part_of fs s) { val_frames = l })
        (append_assoc s.val_frames (f ∷ []) (frames_of part_of val fs)))
  joined-append_to part_of test f fs s e = rw e (
      ap (λ l. record (joined part_of fs s) { test_frames = l })
        (append_assoc s.test_frames (f ∷ []) (frames_of part_of test fs)))

  deal-append_to :
      (a : ℕ → Option Part) (p : Part) (f : Frame F) (fs : List (Frame F)) (s : Split F)
      → a f.episode ≡ some p
      → deal a (f ∷ fs) s ≡ deal a fs (append_to p f s)
  unfolding deal
  deal-append_to a p f fs s q = rw (deal, q) refl

  deal-joined :
      (a : ℕ → Option Part) (fs : List (Frame F)) (s : Split F)
      → All (λ f. (p : Part) × (a f.episode ≡ some p)) fs
      → deal a fs s ≡ ok (joined (λ e. or_test (a e)) fs s)
  unfolding deal
  deal-joined a [] s h =
      rw (append-nil s.train_frames, append-nil s.val_frames, append-nil s.test_frames) refl
  deal-joined a (f ∷ fs) s ((p, q), h) =
      deal-append_to a p f fs s q
      ∙ deal-joined a fs (append_to p f s) h
      ∙ ap ok (joined-append_to (λ e. or_test (a e)) p f fs s (ap or_test q))

  -- A part without a frame has no episode.
  frames_of-nil :
      (part_of : ℕ → Part) (part : Part) (fs : List (Frame F)) (e : ℕ)
      → frames_of part_of part fs ≡ []
      → contains e (episodes fs) ≡ true
      → is_part (part_of e) part ≡ false
  unfolding episodes
  frames_of-nil part_of part [] e h c = absurd (ground arith)
  frames_of-nil part_of part (f ∷ fs) e h c =
      ground (arith, contains-insert_id e f.episode (episodes fs), frames_of-nil part_of part fs e)

  episodes-All :
      (P : ℕ → Type 0) (fs : List (Frame F))
      → ((e : ℕ) → contains e (episodes fs) ≡ true → P e)
      → All (λ f. P f.episode) fs
  unfolding episodes
  episodes-All P [] h = tt
  episodes-All P (f ∷ fs) h = (
    h f.episode (ground (arith, contains-insert_id f.episode f.episode (episodes fs))),
    episodes-All P fs
        (λ e c. h e (ground (arith, contains-insert_id e f.episode (episodes fs), c))),
  )

  module _ (shuffle : List ℕ → List ℕ) (perm : (is : List ℕ) → Perm (shuffle is) is)
      (round_train round_val : ℕ → ℕ) (frames : List (Frame F)) where
    abbrev shuffled : List ℕ
    shuffled = shuffle (episodes frames)

    abbrev assignment : ℕ → Option Part
    assignment = assignment_of round_train round_val shuffled

    abbrev part_of_frames : ℕ → Part
    part_of_frames e = or_test (assignment e)

    shuffled-IsShuffled : IsShuffled shuffled (episodes frames)
    shuffled-IsShuffled = perm-IsShuffled (perm (episodes frames))

    abbrev n_train : ℕ
    n_train = train_size (length shuffled) (round_train (length shuffled))

    abbrev n_val : ℕ
    n_val = val_size (length shuffled) n_train (round_val (length shuffled))

    -- A part that a position gives is not empty.
    occupied :
        (j : ℕ) (part : Part)
        → j < length shuffled
        → part_at n_train n_val j ≡ part
        → is_part part part ≡ true
        → frames_of part_of_frames part frames ≡ []
        → ⊥
    occupied j part l at same h =
        let sh = shuffled-IsShuffled in
        let (e, c, q) =
          assigned_at (part_at n_train n_val) 0 j shuffled
            (sh.same_distinct ∙ episodes-distinct frames) l in
        let placed : assignment e ≡ some part =
          q ∙ ap (λ m. some (part_at n_train n_val m)) (omega arith) ∙ ap some at in
        let none_there =
          frames_of-nil part_of_frames part frames e h (sym (sh.same_members e) ∙ c) in
        let r : is_part part part ≡ false =
          subst (λ x. is_part (or_test x) part ≡ false) placed none_there in
        ground (arith, r, same)

    has_part : All (λ f. (p : Part) × (assignment f.episode ≡ some p)) frames
    has_part =
        episodes-All (λ e. (p : Part) × (assignment e ≡ some p)) frames
          (λ e c.
            assigned-contains (part_at n_train n_val) 0 shuffled e
              (shuffled-IsShuffled.same_members e ∙ c))

    whole : 3 ≤ length (episodes frames) → IsWhole frames (joined part_of_frames frames empty_split)
    whole h =
        let enough : 3 ≤ length shuffled =
          subst (λ n. 3 ≤ n) (sym shuffled-IsShuffled.same_length) h in
        let (t, v, rest) =
          sizes (length shuffled) (round_train (length shuffled)) (round_val (length shuffled))
            enough in
        record {
          part_of = part_of_frames;
          train_whole = refl;
          val_whole = refl;
          test_whole = refl;
          train_nonempty = occupied 0 train (omega arith) (positions n_train n_val t v).0 refl;
          val_nonempty = occupied n_train val (omega arith) (positions n_train n_val t v).1 refl;
          test_nonempty =
              occupied (n_train + n_val) test (omega arith) (positions n_train n_val t v).2 refl;
        }

  -- A data set of at least three episodes is split, whatever the seed and the ratios: each episode
  -- is in one part with all of its frames, in their order, every frame is in a part, and no part
  -- is empty.
  pub split_by_episode-IsWhole :
      (shuffle : List ℕ → List ℕ) (round_train round_val : ℕ → ℕ) (frames : List (Frame F))
      → ((is : List ℕ) → Perm (shuffle is) is)
      → 3 ≤ length (episodes frames)
      → (s : Split F) × (split_by_episode shuffle round_train round_val frames ≡ ok s)
        × IsWhole frames s
  unfolding split_by_episode
  split_by_episode-IsWhole shuffle round_train round_val frames perm h =
      let enough : ltb (length (episodes frames)) 3 ≡ false = ground arith in
      (
        joined (part_of_frames shuffle perm round_train round_val frames) frames empty_split,
        rw enough (
            deal-joined (assignment_of round_train round_val (shuffle (episodes frames))) frames
              empty_split (has_part shuffle perm round_train round_val frames)),
        whole shuffle perm round_train round_val frames h,
      )
