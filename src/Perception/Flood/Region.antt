-- ===== src/Perception/Flood/Region.antt =====
-- What the `while` loop of `largest_blob` finds: the pixels that its start reaches, each once.
use vn_robotics.Prelude.{
  ℕ, zero, suc, ◌+◌, ◌≤◌, ◌≡◌, ◌↔◌, refl, Bool, true, false, ◌||◌, some, List, [], ◌∷◌, ◌++◌,
  length, Equality, same_refl, contains, arith, Bool-cases, inl, inr,
}
use mathlib.Core.Path.{subst}
use vn_robotics.Perception.Flood.{push_all, flood}
use vn_robotics.Perception.Flood.Push.{
  unseen, unseen-lt, unseen-le-length, distinct, push_seen, push_stack, push_distinct, push_measure,
}

module _ {P : Type 0} ⦃e : Equality P⦄ where
  pub contains-append :
      (a : P) (xs ys : List P) → contains a (xs ++ ys) ≡ (contains a xs || contains a ys)
  contains-append a [] ys = refl
  contains-append a (x ∷ xs) ys = ground (arith, contains-append a xs ys)

  distinct-snoc :
      (p : P) (xs : List P)
      → distinct xs ≡ true
      → contains p xs ≡ false
      → distinct (xs ++ p ∷ []) ≡ true
  distinct-snoc p [] d n = ground arith
  distinct-snoc p (x ∷ xs) d n =
      ground
        (arith, contains-append x xs (p ∷ []), distinct-snoc p xs, e.same_iff x p, e.same_iff p x)

module _ {P : Type 0} ⦃e : Equality P⦄ (is_open : P → Bool) (neighbours : P → List P) where
  -- The open pixels that one reaches from a pixel by steps to neighbours.
  pub data Reach (p : P) : P → Type 0 where
    here : Reach p p
    step : (q r : P) → Reach p q → contains r (neighbours q) ≡ true → is_open r ≡ true → Reach p r

  pub Reach-is_open : (p q : P) → is_open p ≡ true → Reach p q → is_open q ≡ true
  Reach-is_open p q o (here) = o
  Reach-is_open p r o (step q t w c h) = h

  -- An open neighbour of a member is a member.
  abbrev pub IsClosed : List P → Type 0
  IsClosed seen =
      (a b : P)
      → contains a seen ≡ true
      → contains b (neighbours a) ≡ true
      → is_open b ≡ true
      → contains b seen ≡ true

  -- The pixels are those that the start reaches, each once.
  pub record IsRegion (start : P) (pixels : List P) : Type 0 where
    pub once : distinct pixels ≡ true
    pub exact : (b : P) → (contains b pixels ≡ true) ↔ Reach start b

  -- The loop's invariant, where `before` is what earlier floods have marked.
  record IsUnderway (before : List P) (start : P) (seen stack pixels : List P) : Type 0 where
    marks :
        (a : P) → contains a seen ≡ (contains a before || (contains a pixels || contains a stack))
    fresh : (a : P) → (contains a pixels || contains a stack) ≡ true → contains a before ≡ false
    apart : (a : P) → contains a pixels ≡ true → contains a stack ≡ false
    pixels_distinct : distinct pixels ≡ true
    stack_distinct : distinct stack ≡ true
    reached : (a : P) → (contains a pixels || contains a stack) ≡ true → Reach start a
    expanded :
        (a b : P)
        → contains a pixels ≡ true
        → contains b (neighbours a) ≡ true
        → is_open b ≡ true
        → contains b seen ≡ true
    begun : (contains start pixels || contains start stack) ≡ true

  module _ (before : List P) (start : P) where
    IsUnderway-start :
        contains start before ≡ false → IsUnderway before start (start ∷ before) (start ∷ []) []
    IsUnderway-start n = record {
      marks = λ a. ground (arith, e.same_iff start a);
      fresh = λ a h. ground (arith, e.same_iff start a);
      apart = λ a h. ground arith;
      pixels_distinct = refl;
      stack_distinct = refl;
      reached = λ a h. subst (Reach start) ((e.same_iff start a).0 (ground arith)) here;
      expanded = λ a b h c o. ground arith;
      begun = ground (arith, same_refl start);
    }

    -- A round of the loop.
    module _ (p : P) (seen stack pixels : List P)
        (i : IsUnderway before start seen (p ∷ stack) pixels) where
      stacked : (a : P) → contains a stack ≡ true → contains a seen ≡ true
      stacked a h = ground (arith, i.marks a)

      next_marks :
          (a : P)
          → contains a (push_all is_open (neighbours p) seen stack).0 ≡ (
              contains a before
              || (contains a (pixels ++ p ∷ [])
                  || contains a (push_all is_open (neighbours p) seen stack).1))
      next_marks a = ground (
        arith,
        i.marks a,
        contains-append a pixels (p ∷ []),
        push_seen is_open a (neighbours p) seen stack,
        push_stack is_open a (neighbours p) seen stack (stacked a),
      )

      next_reached :
          (a : P)
          → (contains a (pixels ++ p ∷ [])
              || contains a (push_all is_open (neighbours p) seen stack).1)
            ≡ true
          → Reach start a
      next_reached a h = elim (Bool-cases (contains a pixels || contains a (p ∷ stack))) [
        | inl old ↦ i.reached a old
        | inr new ↦
            step p a (i.reached p (ground (arith, same_refl p)))
              (ground (
                arith,
                contains-append a pixels (p ∷ []),
                push_stack is_open a (neighbours p) seen stack (stacked a),
              ))
              (ground (
                arith,
                contains-append a pixels (p ∷ []),
                push_stack is_open a (neighbours p) seen stack (stacked a),
              ))
      ]

      next_expanded :
          (a b : P)
          → contains a (pixels ++ p ∷ []) ≡ true
          → contains b (neighbours a) ≡ true
          → is_open b ≡ true
          → contains b (push_all is_open (neighbours p) seen stack).0 ≡ true
      next_expanded a b h c o = ground (
        arith,
        contains-append a pixels (p ∷ []),
        e.same_iff p a,
        i.expanded a b,
        push_seen is_open b (neighbours p) seen stack,
      )

      IsUnderway-step :
          IsUnderway before start
            (push_all is_open (neighbours p) seen stack).0
            (push_all is_open (neighbours p) seen stack).1
            (pixels ++ p ∷ [])
      IsUnderway-step = record {
        marks = next_marks;
        fresh = λ a h. ground (
          arith,
          i.marks a,
          i.fresh a,
          contains-append a pixels (p ∷ []),
          push_stack is_open a (neighbours p) seen stack (stacked a),
        );
        apart = λ a h. ground (
          arith,
          i.marks a,
          i.apart a,
          contains-append a pixels (p ∷ []),
          e.same_iff p a,
          i.stack_distinct,
          push_stack is_open a (neighbours p) seen stack (stacked a),
        );
        pixels_distinct =
            distinct-snoc p pixels i.pixels_distinct (ground (arith, i.apart p, same_refl p));
        stack_distinct =
            push_distinct is_open (neighbours p) seen stack stacked
              (ground (arith, i.stack_distinct));
        reached = next_reached;
        expanded = next_expanded;
        begun = ground (
          arith,
          i.begun,
          i.marks start,
          contains-append start pixels (p ∷ []),
          e.same_iff p start,
          push_stack is_open start (neighbours p) seen stack (stacked start),
        );
      }

    -- The stack is empty: the pixels are the region, and what is marked is closed again.
    module _
        (symmetric : (a b : P)
          → contains b (neighbours a) ≡ true
          → contains a (neighbours b) ≡ true)
        (shut : IsClosed before) (open_start : is_open start ≡ true) (seen pixels : List P)
        (i : IsUnderway before start seen [] pixels) where
      complete : (b : P) → Reach start b → contains b pixels ≡ true
      complete b (here) = ground (arith, i.begun)
      complete b (step q t w c h) =
          let found = complete q w in
          let marked = i.expanded q b found c h in
          let back = λ (old : contains b before ≡ true).
            shut b q old (symmetric q b c) (Reach-is_open start q open_start w) in
          elim (Bool-cases (contains b before)) [
            | inl old ↦ absurd (ground (arith, back old, i.fresh q))
            | inr new ↦ ground (arith, i.marks b)
          ]

      IsUnderway-IsRegion : IsRegion start pixels
      IsUnderway-IsRegion = record {
        once = i.pixels_distinct;
        exact = λ b. (λ h. i.reached b (ground arith), complete b);
      }

      IsUnderway-marks : (a : P) → contains a seen ≡ (contains a before || contains a pixels)
      IsUnderway-marks a = ground (arith, i.marks a)

      IsUnderway-IsClosed : IsClosed seen
      IsUnderway-IsClosed a b h c o = elim (Bool-cases (contains a before)) [
        | inl old ↦ ground (arith, shut a b old c o, i.marks b)
        | inr new ↦ i.expanded a b (ground (arith, i.marks a)) c o
      ]

    -- What a flood gives: a region, and marks on what was marked before and on the region.
    pub record IsFilled (pixels seen : List P) : Type 0 where
      pub region : IsRegion start pixels
      pub closed : IsClosed seen
      pub marked : (a : P) → contains a seen ≡ (contains a before || contains a pixels)

    -- With fuel for what is stacked and what is not marked, the loop ends with an empty stack.
    flood-IsUnderway :
        (us : List P)
        → ((a : P) → is_open a ≡ true → contains a us ≡ true)
        → (fuel : ℕ) (stack seen pixels : List P) → unseen seen us + length stack ≤ fuel
        → IsUnderway before start seen stack pixels
        → (pixels' seen' : List P) × (flood is_open neighbours fuel stack seen pixels
            ≡ some (pixels', seen'))
          × IsUnderway before start seen' [] pixels'
    unfolding flood
    flood-IsUnderway us listed fuel [] seen pixels m i = (pixels, seen, refl, i)
    flood-IsUnderway us listed zero (p ∷ stack) seen pixels m i = absurd (omega arith)
    flood-IsUnderway us listed (suc fuel) (p ∷ stack) seen pixels m i =
        flood-IsUnderway us listed fuel (push_all is_open (neighbours p) seen stack).1
          (push_all is_open (neighbours p) seen stack).0 (pixels ++ p ∷ [])
          (omega (arith, push_measure is_open us (neighbours p) seen stack listed))
          (IsUnderway-step p seen stack pixels i)

    -- With fuel for each entry of a list that holds the open pixels, the loop ends. If the
    -- neighbours
    -- are symmetric, what was marked before is closed under open neighbours, and the start is open
    -- and
    -- not marked, then its pixels are those that the start reaches, each once, and it marks these,
    -- whereby what is marked stays closed.
    pub flood-IsFilled :
        (us : List P)
        → ((a : P) → is_open a ≡ true → contains a us ≡ true)
        → ((a b : P) → contains b (neighbours a) ≡ true → contains a (neighbours b) ≡ true)
        → IsClosed before
        → is_open start ≡ true
        → contains start before ≡ false
        → (pixels seen : List P) × (flood is_open neighbours
              (length us)
              (start ∷ [])
              (start ∷ before)
              []
            ≡ some (pixels, seen))
          × IsFilled pixels seen
    flood-IsFilled us listed symmetric shut o n =
        let enough : unseen (start ∷ before) us + 1 ≤ length us =
          omega (arith, unseen-lt start before us (listed start o) n, unseen-le-length before us) in
        let (pixels, seen, run, i) =
          flood-IsUnderway us listed (length us) (start ∷ []) (start ∷ before) [] enough
            (IsUnderway-start n) in
        (
          pixels,
          seen,
          run,
          record {
            region = IsUnderway-IsRegion symmetric shut o seen pixels i;
            closed = IsUnderway-IsClosed symmetric shut o seen pixels i;
            marked = IsUnderway-marks symmetric shut o seen pixels i;
          },
        )
