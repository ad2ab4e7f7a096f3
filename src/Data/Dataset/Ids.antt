-- ===== src/Data/Dataset/Ids.antt =====
-- The ids of the episodes, which are distinct, and the dict that assigns them to parts.
use vn_robotics.Prelude.{
  ℕ, zero, suc, ◌+◌, ◌<◌, ◌≡◌, refl, ap, Bool, true, false, ◌&&◌, ◌||◌, none, some, List, [], ◌∷◌,
  length, contains, ltb, ◌==◌, number_eq, arith, Bool-cases, Option-cases, inl, inr,
}
use vn_robotics.Data.Dataset.{Frame, Part, insert_id, episodes, assigned}
use vn_robotics.Data.Dataset.Permuted.{distinct}

-- The ids that occur are distinct, and each frame has one of them.
pub contains-insert_id :
    (a e : ℕ) (is : List ℕ) → contains a (insert_id e is) ≡ ((e == a) || contains a is)
contains-insert_id a e [] = refl
contains-insert_id a e (i ∷ is) = ground (arith, contains-insert_id a e is)

-- Every id of the list is above e.
above : ℕ → List ℕ → Bool
above e [] = true
above e (i ∷ is) = ltb e i && above e is

-- The list rises.
rising : List ℕ → Bool
unfolding above
rising [] = true
rising (i ∷ is) = above i is && rising is

above_trans : (e i : ℕ) (is : List ℕ) → ltb e i ≡ true → above i is ≡ true → above e is ≡ true
unfolding above
above_trans e i [] h a = refl
above_trans e i (j ∷ js) h a = ground (arith, above_trans e i js)

above-insert_id :
    (e i : ℕ) (is : List ℕ) → above i is ≡ true → ltb i e ≡ true → above i (insert_id e is) ≡ true
unfolding above
above-insert_id e i [] a h = ground arith
above-insert_id e i (j ∷ js) a h = ground (arith, above-insert_id e i js)

rising-insert_id : (e : ℕ) (is : List ℕ) → rising is ≡ true → rising (insert_id e is) ≡ true
unfolding rising above
rising-insert_id e [] h = refl
rising-insert_id e (i ∷ is) h =
    ground (arith, rising-insert_id e is, above-insert_id e i is, above_trans e i is)

above-contains : (e : ℕ) (is : List ℕ) → above e is ≡ true → contains e is ≡ false
unfolding above
above-contains e [] h = refl
above-contains e (i ∷ is) h = ground (arith, above-contains e is)

rising-distinct : (is : List ℕ) → rising is ≡ true → distinct is ≡ true
unfolding rising
rising-distinct [] h = refl
rising-distinct (i ∷ is) h = ground (arith, rising-distinct is, above-contains i is)

module _ {F : Type 0} where
  episodes-rising : (fs : List (Frame F)) → rising (episodes fs) ≡ true
  unfolding episodes rising
  episodes-rising [] = refl
  episodes-rising (f ∷ fs) = rising-insert_id f.episode (episodes fs) (episodes-rising fs)

  pub episodes-distinct : (fs : List (Frame F)) → distinct (episodes fs) ≡ true
  episodes-distinct fs = rising-distinct (episodes fs) (episodes-rising fs)

-- The dict at a position: every id is assigned, and a distinct list assigns each position its part.
pub assigned-contains :
    (at : ℕ → Part) (k : ℕ) (is : List ℕ) (e : ℕ)
    → contains e is ≡ true
    → (p : Part) × (assigned at k is e ≡ some p)
unfolding assigned
assigned-contains at k [] e h = absurd (ground arith)
assigned-contains at k (i ∷ is) e h = elim (Option-cases (assigned at (k + 1) is e)) [
  | inr (p, q) ↦ (p, rw q refl)
  | inl q ↦ elim (Bool-cases (i == e)) [
    | inl b ↦ (at k, rw (q, b) refl)
    | inr b ↦
        let (p, r) = assigned-contains at (k + 1) is e (ground (arith, b)) in
        absurd (ground (arith, q, r))
  ]
]

assigned-absent :
    (at : ℕ → Part) (k : ℕ) (is : List ℕ) (e : ℕ)
    → contains e is ≡ false
    → assigned at k is e ≡ none
unfolding assigned
assigned-absent at k [] e h = refl
assigned-absent at k (i ∷ is) e h = ground (arith, assigned-absent at (k + 1) is e)

-- The id at a position of a distinct list gets the part of the position.
pub assigned_at :
    (at : ℕ → Part) (k j : ℕ) (is : List ℕ)
    → distinct is ≡ true
    → j < length is
    → (e : ℕ) × (contains e is ≡ true) × (assigned at k is e ≡ some (at (k + j)))
unfolding assigned
assigned_at at k j [] d h = absurd (ground arith)
assigned_at at k zero (i ∷ is) d h =
    (i, ground arith, rw (assigned-absent at (k + 1) is i (ground arith)) (ground arith))
assigned_at at k (suc j) (i ∷ is) d h =
    let (e, c, q) = assigned_at at (k + 1) j is (ground arith) (ground arith) in
    (e, ground (arith, c), rw q (ap (λ m. some (at m)) (omega arith)))
