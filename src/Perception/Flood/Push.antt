-- ===== src/Perception/Flood/Push.antt =====
-- What a round of pushes marks, and how much is left to mark.
use vn_robotics.Prelude.{
  ℕ, suc, ◌+◌, ◌≤◌, ◌≡◌, refl, Bool, true, false, not, ◌&&◌, ◌||◌, List, [], ◌∷◌, length, Equality,
  contains, if◌then◌else◌, arith, Bool-cases, inl, inr, same_refl,
}
use vn_robotics.Perception.Flood.{push_all}

module _ {P : Type 0} ⦃e : Equality P⦄ where
  -- How many entries of a list are not marked.
  abbrev pub unseen : List P → List P → ℕ
  unseen seen [] = 0
  unseen seen (u ∷ us) = if contains u seen then unseen seen us else suc (unseen seen us)

  unseen-le : (q : P) (seen us : List P) → unseen (q ∷ seen) us ≤ unseen seen us
  unseen-le q seen [] = omega arith
  unseen-le q seen (u ∷ us) = ground (arith, unseen-le q seen us)

  -- To mark one more lowers the count.
  pub unseen-lt :
      (q : P) (seen us : List P)
      → contains q us ≡ true
      → contains q seen ≡ false
      → unseen (q ∷ seen) us + 1 ≤ unseen seen us
  unseen-lt q seen [] h n = absurd (ground arith)
  unseen-lt q seen (u ∷ us) h n =
      ground (arith, e.same_iff u q, e.same_iff q u, unseen-le q seen us, unseen-lt q seen us)

  abbrev pub distinct : List P → Bool
  distinct [] = true
  distinct (x ∷ xs) = not (contains x xs) && distinct xs

module _ {P : Type 0} ⦃e : Equality P⦄ (is_open : P → Bool) where
  pub push_seen :
      (a : P) (qs seen stack : List P)
      → contains a (push_all is_open qs seen stack).0
        ≡ (contains a seen || (contains a qs && is_open a))
  unfolding push_all
  push_seen a [] seen stack = ground arith
  push_seen a (q ∷ qs) seen stack = elim (Bool-cases (is_open q && not (contains q seen))) [
    | inl b ↦ rw b (ground (arith, e.same_iff q a, push_seen a qs (q ∷ seen) (q ∷ stack)))
    | inr b ↦ rw b (ground (arith, e.same_iff q a, push_seen a qs seen stack))
  ]

  pub push_stack :
      (a : P) (qs seen stack : List P)
      → (contains a stack ≡ true → contains a seen ≡ true)
      → contains a (push_all is_open qs seen stack).1
        ≡ (contains a stack || (contains a qs && (is_open a && not (contains a seen))))
  unfolding push_all
  push_stack a [] seen stack h = ground arith
  push_stack a (q ∷ qs) seen stack h = elim (Bool-cases (is_open q && not (contains q seen))) [
    | inl b ↦ rw b (ground (arith, e.same_iff q a, push_stack a qs (q ∷ seen) (q ∷ stack)))
    | inr b ↦ rw b (ground (arith, e.same_iff q a, push_stack a qs seen stack h))
  ]

  pub push_distinct :
      (qs seen stack : List P)
      → ((a : P) → contains a stack ≡ true → contains a seen ≡ true)
      → distinct stack ≡ true
      → distinct (push_all is_open qs seen stack).1 ≡ true
  unfolding push_all
  push_distinct [] seen stack h d = d
  push_distinct (q ∷ qs) seen stack h d = elim (Bool-cases (is_open q && not (contains q seen))) [
    | inl b ↦ rw b (
        push_distinct qs (q ∷ seen) (q ∷ stack) (λ a. ground (arith, h a))
          (ground (arith, b, d, h q)))
    | inr b ↦ rw b (push_distinct qs seen stack h d)
  ]

  -- A pushed pixel is one less to mark.
  pub push_measure :
      (us qs seen stack : List P)
      → ((a : P) → is_open a ≡ true → contains a us ≡ true)
      → unseen (push_all is_open qs seen stack).0 us + length (push_all is_open qs seen stack).1
        ≤ unseen seen us + length stack
  unfolding push_all
  push_measure us [] seen stack h = omega arith
  push_measure us (q ∷ qs) seen stack h = elim (Bool-cases (is_open q && not (contains q seen))) [
    | inl b ↦ rw b (
        let less = unseen-lt q seen us (h q (ground (arith, b))) (ground (arith, b)) in
        omega (arith, push_measure us qs (q ∷ seen) (q ∷ stack) h, less))
    | inr b ↦ rw b (push_measure us qs seen stack h)
  ]

module _ {P : Type 0} ⦃e : Equality P⦄ where
  pub unseen-le-length : (seen us : List P) → unseen seen us ≤ length us
  unseen-le-length seen [] = omega arith
  unseen-le-length seen (u ∷ us) = ground (arith, unseen-le-length seen us)

  unseen-nil : (us : List P) → unseen [] us ≡ length us
  unseen-nil [] = refl
  unseen-nil (u ∷ us) = omega (arith, unseen-nil us)

  unseen-length :
      (xs ys : List P)
      → distinct xs ≡ true
      → ((a : P) → contains a xs ≡ true → contains a ys ≡ true)
      → unseen xs ys + length xs ≤ length ys
  unseen-length [] ys d h = omega (arith, unseen-nil ys)
  unseen-length (x ∷ xs) ys d h =
      let rest = unseen-length xs ys (ground arith) (λ a c. h a (ground arith)) in
      let less = unseen-lt x xs ys (h x (ground (arith, same_refl x))) (ground arith) in
      omega (arith, rest, less)

  -- Entries that differ and all stand in another list are no more than that list's.
  pub length-distinct :
      (xs ys : List P)
      → distinct xs ≡ true
      → ((a : P) → contains a xs ≡ true → contains a ys ≡ true)
      → length xs ≤ length ys
  length-distinct xs ys d h = omega (arith, unseen-length xs ys d h)
