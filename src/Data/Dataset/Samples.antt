-- ===== src/Data/Dataset/Samples.antt =====
-- Four episodes of which one has two frames.
use mathlib.Core.List.{Perm}
use mathlib.Core.List.Perm
use vn_robotics.Prelude.{ℕ, ◌≤◌, ◌≡◌, refl, List, [], ◌∷◌, length, arith}
use vn_robotics.Py.Errors.{ok, raise, value_error}
use vn_robotics.Data.Dataset.{
  Frame, Split, episodes, split_by_episode, split_by_frame, deal, assigned,
}
use vn_robotics.Data.Dataset.Whole.{IsWhole, split_by_episode-IsWhole}

abbrev frame : ℕ → ℕ → Frame ℕ
frame episode index = record {
  image = "frame.png";
  episode = episode;
  index = index;
  label = [];
  stamp = 0;
}

abbrev recorded : List (Frame ℕ)
recorded = frame 7 0 ∷ frame 3 0 ∷ frame 7 1 ∷ frame 9 0 ∷ frame 4 0 ∷ []

-- A shuffle that swaps the first two.
abbrev swapped : List ℕ → List ℕ
swapped [] = []
swapped (i ∷ []) = i ∷ []
swapped (i ∷ j ∷ is) = j ∷ i ∷ is

swapped-perm : (is : List ℕ) → Perm (swapped is) is
swapped-perm [] = Perm.refl _
swapped-perm (i ∷ []) = Perm.refl _
swapped-perm (i ∷ j ∷ is) = Perm.swap i j is

in_order : episodes recorded ≡ 3 ∷ 4 ∷ 7 ∷ 9 ∷ []
unfolding episodes
in_order = refl

deals :
    split_by_episode swapped (λ n. 3) (λ n. 1) recorded
    ≡ ok (record {
      train_frames = frame 3 0 ∷ frame 4 0 ∷ [];
      val_frames = frame 7 0 ∷ frame 7 1 ∷ [];
      test_frames = frame 9 0 ∷ [];
    })
unfolding split_by_episode episodes deal assigned
deals = refl

too_few :
    split_by_episode swapped (λ n. 3) (λ n. 1) (frame 1 0 ∷ frame 2 0 ∷ frame 1 1 ∷ [])
    ≡ raise value_error
unfolding split_by_episode episodes
too_few = refl

four : 3 ≤ length (episodes recorded)
unfolding episodes
four = omega arith

split_by_episode-IsWhole_example :
    (s : Split ℕ) × (split_by_episode swapped (λ n. 3) (λ n. 1) recorded ≡ ok s)
    × IsWhole recorded s
split_by_episode-IsWhole_example =
    split_by_episode-IsWhole swapped (λ n. 3) (λ n. 1) recorded swapped-perm four

-- The two frames of episode 7 are dealt to different parts.
leaks : (split_by_frame (λ fs. fs) (λ n. 2) (λ n. 2) recorded) ≡ record {
  train_frames = frame 7 0 ∷ frame 3 0 ∷ [];
  val_frames = frame 7 1 ∷ frame 9 0 ∷ [];
  test_frames = frame 4 0 ∷ [];
}
unfolding split_by_frame
leaks = refl
