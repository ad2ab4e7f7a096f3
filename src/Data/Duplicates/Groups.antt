-- ===== src/Data/Duplicates/Groups.antt =====
-- What the numbers of a duplicate report say of one another, and when there is one.
use vn_robotics.Prelude.{
  ℕ, ◌+◌, ◌≤◌, ◌≡◌, ◌↔◌, Bool, true, false, List, [], ◌∷◌, String, string_eq, lookup, is_some,
  if◌then◌else◌, ltb, ◌⊎◌,
}
use vn_robotics.Py.Errors.{Exn, Result, ok, raise}
use vn_robotics.Data.Dataset.{Frame}
use vn_robotics.Data.Duplicates.{DuplicateReport}

abbrev counted_in : List (String × ℕ) → ℕ
counted_in [] = 0
counted_in ((d, n) ∷ rest) = n + counted_in rest

abbrev positive : List (String × ℕ) → Bool
positive [] = true
positive ((d, n) ∷ rest) = if ltb 0 n then positive rest else false

-- What a report's numbers say of one another.
pub record IsConsistent (r : DuplicateReport) : Type 0 where
  pub bounded : r.unique + r.duplicate_groups ≤ r.files
  pub exact : (r.unique ≡ r.files) ↔ (r.duplicate_groups ≡ 0)
  pub largest : (r.duplicate_groups ≡ 0) ↔ (r.largest_group ≤ 1)

module _ {F : Type 0} (name : String → String) (digest : String → Result String) where
  -- Every image can be read.
  abbrev pub Readable : List (Frame F) → Type 0
  Readable [] = Unit
  Readable (f ∷ fs) = ((d : String) × (digest f.image ≡ ok d)) × Readable fs

  -- The first image that cannot be read raises the exception.
  abbrev pub Unreadable : List (Frame F) → Exn → Type 0
  Unreadable [] e = ⊥
  Unreadable (f ∷ fs) e =
      (digest f.image ≡ raise e) ⊎ (((d : String) × (digest f.image ≡ ok d)) × Unreadable fs e)

  -- Every frame's image has its digest.
  abbrev Digested : List (String × String) → List (Frame F) → Type 0
  Digested digests [] = Unit
  Digested digests (f ∷ fs) = (is_some (lookup (name f.image) digests) ≡ true) × Digested digests fs

  -- What a loop over the frames returns: all digests, and those there were, or an exception.
  data Read (fs : List (Frame F)) (digests : List (String × String))
      : Result (List (String × String)) → Type 0 where
    all_read :
        (after : List (String × String))
        → Readable fs
        → Digested after fs
        → ((k : String) → is_some (lookup k digests) ≡ true → is_some (lookup k after) ≡ true)
        → Read fs digests (ok after)
    stopped : (e : Exn) → Unreadable fs e → Read fs digests (raise e)

  -- What a report on the frames may be.
  pub data Reported (frames : List (Frame F)) : Result DuplicateReport → Type 0 where
    reported : (r : DuplicateReport) → Readable frames → IsConsistent r → Reported frames (ok r)
    unreadable : (e : Exn) → Unreadable frames e → Reported frames (raise e)
