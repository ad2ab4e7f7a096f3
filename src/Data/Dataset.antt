-- ===== src/Data/Dataset.antt =====
-- src/threevn_data/threevn_data/dataset.py: frames, and how they are split into parts.
--
-- Episodes are numbers. `random.Random(seed).shuffle` and the products with the ratios, rounded,
-- are
-- arguments: a function on lists, and functions from a number of episodes or frames.
pub mod Permuted
pub mod Ids
pub mod Whole
pub mod Frames
pub mod Load
mod Samples
use vn_robotics.Prelude.{
  ℕ, zero, suc, ◌+◌, ◌-◌, min, max, ◌≡◌, Bool, true, false, String, Option, none, some, List, [],
  ◌∷◌, ◌++◌, length, take, drop, if◌then◌else◌, ltb, ◌==◌, number_eq,
}
use vn_robotics.Py.Errors.{Exn, Result, ok, raise, value_error, missing_number}

pub record Frame (F : Type 0) : Type 0 where
  pub image : String
  pub episode : ℕ
  pub index : ℕ
  pub label : List F
  pub stamp : F

pub data Part : Type 0 where
  train val test : Part

pub record Split (F : Type 0) : Type 0 where
  pub train_frames : List (Frame F)
  pub val_frames : List (Frame F)
  pub test_frames : List (Frame F)

abbrev pub insert_id : ℕ → List ℕ → List ℕ
insert_id e [] = e ∷ []
insert_id e (i ∷ is) =
    let rest = insert_id e is in if e == i then i ∷ is else if ltb e i then e ∷ i ∷ is else i ∷ rest

-- episodes: the ids that occur, each once, in order
unfoldable pub episodes : {F : Type 0} → List (Frame F) → List ℕ
episodes [] = []
episodes (f ∷ fs) = insert_id f.episode (episodes fs)

-- How many episodes go to train and to val, of n episodes and what the ratios come to.
abbrev pub train_size : (n rounded : ℕ) → ℕ
train_size n rounded = min (max 1 rounded) (n - 2)

abbrev pub val_size : (n n_train rounded : ℕ) → ℕ
val_size n n_train rounded = min (max 1 rounded) (n - n_train - 1)

abbrev pub part_at : (n_train n_val position : ℕ) → Part
part_at n_train n_val position =
    if ltb position n_train then train else if ltb position (n_train + n_val) then val else test

abbrev pub or_else : Option Part → Option Part → Option Part
or_else (some p) other = some p
or_else none other = other

-- assignment, a dict: the last position of an id counts
unfoldable pub assigned : (at : ℕ → Part) (position : ℕ) → List ℕ → ℕ → Option Part
assigned at position [] e = none
assigned at position (i ∷ is) e =
    or_else (assigned at (position + 1) is e) (if i == e then some (at position) else none)

-- The assignment of shuffled ids.
abbrev pub assignment_of : (ℕ → ℕ) → (ℕ → ℕ) → List ℕ → ℕ → Option Part
assignment_of round_train round_val shuffled =
    let n = length shuffled in
    let n_train = train_size n (round_train n) in
    let n_val = val_size n n_train (round_val n) in assigned (part_at n_train n_val) 0 shuffled

module _ {F : Type 0} where
  abbrev pub empty_split : Split F
  empty_split = record { train_frames = []; val_frames = []; test_frames = [] }

  abbrev pub append_to : Part → Frame F → Split F → Split F
  append_to train f s = record s { train_frames = s.train_frames ++ f ∷ [] }
  append_to val f s = record s { val_frames = s.val_frames ++ f ∷ [] }
  append_to test f s = record s { test_frames = s.test_frames ++ f ∷ [] }

  -- out[assignment[frame.episode]].append(frame)
  abbrev pub deal_one : Option Part → Frame F → Split F → Result (Split F)
  deal_one none f s = raise (missing_number f.episode)
  deal_one (some part) f s = ok (append_to part f s)

  unfoldable pub deal : (ℕ → Option Part) → List (Frame F) → Split F → Result (Split F)
  deal assignment [] s = ok s
  deal assignment (f ∷ fs) s = elim (deal_one (assignment f.episode) f s) [
    | raise e ↦ raise e
    | ok s' ↦ deal assignment fs s'
  ]

  unfoldable pub split_by_episode :
      (shuffle : List ℕ → List ℕ) (round_train round_val : ℕ → ℕ)
      → List (Frame F)
      → Result (Split F)
  split_by_episode shuffle round_train round_val frames =
      let ids = episodes frames in
      if ltb (length ids) 3
      then raise value_error
      else deal (assignment_of round_train round_val (shuffle ids)) frames empty_split

  unfoldable pub split_by_frame :
      (shuffle : List (Frame F) → List (Frame F)) (cut_train cut_val : ℕ → ℕ)
      → List (Frame F)
      → Split F
  split_by_frame shuffle cut_train cut_val frames =
      let shuffled = shuffle frames in
      let n_train = cut_train (length shuffled) in
      let n_val = cut_val (length shuffled) in
      record {
        train_frames = take n_train shuffled;
        val_frames = take n_val (drop n_train shuffled);
        test_frames = drop (n_train + n_val) shuffled;
      }
