-- ===== src/Perception/Flood/Largest.antt =====
-- The outer loop of `largest_blob`: it finds the largest region, whatever floods come before.
use vn_robotics.Prelude.{
  ℕ, ◌≤◌, ◌≡◌, ◌↔◌, refl, Bool, true, false, ◌||◌, Option, none, some, List, [], ◌∷◌, length,
  Equality, List-cases, same_refl, contains, ltb, arith, Bool-cases, inl, inr,
}
use vn_robotics.Perception.Flood.{scan, better}
use vn_robotics.Perception.Flood.Push.{length-distinct}
use vn_robotics.Perception.Flood.Region.{
  Reach, here, step, Reach-is_open, IsClosed, IsRegion, IsFilled, flood-IsFilled,
}

module _ {P : Type 0} where
  abbrev size : Option (List P) → ℕ
  size none = 0
  size (some pixels) = length pixels

  size-better :
      (best : Option (List P)) (pixels : List P)
      → (size best ≤ size (better best pixels)) × (length pixels ≤ size (better best pixels))
  size-better none pixels = (omega arith, omega arith)
  size-better (some best) pixels = (ground arith, ground arith)

module _ {P : Type 0} ⦃e : Equality P⦄ (is_open : P → Bool) (neighbours : P → List P) where
  -- What the search promises: nothing if no pixel is open, else the largest region there is.
  unfoldable pub IsLargest : Option (List P) → Type 0
  IsLargest none = (a : P) → is_open a ≡ false
  IsLargest (some best) =
      ((s : P) × (is_open s ≡ true) × IsRegion is_open neighbours s best)
      × ((s : P) (r : List P)
          → is_open s ≡ true
          → IsRegion is_open neighbours s r
          → length r ≤ length best)

module _ {P : Type 0} ⦃e : Equality P⦄ (is_open : P → Bool) (neighbours : P → List P)
    (symmetric : (a b : P)
      → contains b (neighbours a) ≡ true
      → contains a (neighbours b) ≡ true) where
  Reach-trans :
      (p q r : P)
      → Reach is_open neighbours p q
      → Reach is_open neighbours q r
      → Reach is_open neighbours p r
  Reach-trans p q r u (here) = u
  Reach-trans p q r u (step s t w c h) = step s r (Reach-trans p q s u w) c h

  Reach-sym :
      (p q : P) → is_open p ≡ true → Reach is_open neighbours p q → Reach is_open neighbours q p
  Reach-sym p q o (here) = here
  Reach-sym p q o (step s t w c h) =
      Reach-trans q s p (step q s here (symmetric s q c) (Reach-is_open is_open neighbours p s o w))
        (Reach-sym p s o w)

  -- A region is the region of each of its pixels.
  IsRegion-turn :
      (s a : P) (pixels : List P)
      → is_open s ≡ true
      → IsRegion is_open neighbours s pixels
      → contains a pixels ≡ true
      → IsRegion is_open neighbours a pixels
  IsRegion-turn s a pixels o i c =
      let there = (i.exact a).0 c in
      record {
        once = i.once;
        exact = λ b. (
          λ h. Reach-trans a s b (Reach-sym s a o there) ((i.exact b).0 h),
          λ w. (i.exact b).1 (Reach-trans s a b there w),
        );
      }

  -- Two lists of one region have one length.
  length-IsRegion :
      (s : P) (xs ys : List P)
      → IsRegion is_open neighbours s xs
      → IsRegion is_open neighbours s ys
      → length xs ≤ length ys
  length-IsRegion s xs ys i j =
      length-distinct xs ys i.once (λ a h. (j.exact a).1 ((i.exact a).0 h))

  -- A pixel lies in a region that is no larger than the best one.
  abbrev Covers : Option (List P) → P → Type 0
  Covers best a = (r : List P) × IsRegion is_open neighbours a r × (length r ≤ size best)

  abbrev Kept : Option (List P) → Type 0
  Kept none = Unit
  Kept (some best) = (s : P) × (is_open s ≡ true) × IsRegion is_open neighbours s best

  Kept-better :
      (best : Option (List P)) (pixels : List P)
      → Kept best
      → Kept (some pixels)
      → Kept (better best pixels)
  Kept-better none pixels k n = n
  Kept-better (some best) pixels k n = elim (Bool-cases (ltb (length best) (length pixels))) [
    | inl b ↦ rw b n
    | inr b ↦ rw b k
  ]

  record IsScanned (seen : List P) (best : Option (List P)) : Type 0 where
    closed : IsClosed is_open neighbours seen
    kept : Kept best
    covered : (a : P) → contains a seen ≡ true → Covers best a

  Covers-better :
      (best : Option (List P)) (pixels : List P) (a : P)
      → Covers best a
      → Covers (better best pixels) a
  Covers-better best pixels a (r, i, m) = (r, i, omega (arith, (size-better best pixels).0))

  -- One flood more.
  IsScanned-better :
      (start : P) (seen pixels seen' : List P) (best : Option (List P))
      → is_open start ≡ true
      → IsScanned seen best
      → IsFilled is_open neighbours seen start pixels seen'
      → IsScanned seen' (better best pixels)
  IsScanned-better start seen pixels seen' best o s f = record {
    closed = f.closed;
    kept = Kept-better best pixels s.kept (start, o, f.region);
    covered = λ a h. elim (Bool-cases (contains a seen)) [
      | inl old ↦ Covers-better best pixels a (s.covered a old)
      | inr new ↦ (
        pixels,
        IsRegion-turn start a pixels o f.region (ground (arith, f.marked a)),
        (size-better best pixels).1,
      )
    ];
  }

  begun :
      (start : P) (seen pixels seen' : List P)
      → IsFilled is_open neighbours seen start pixels seen'
      → contains start seen' ≡ true
  begun start seen pixels seen' f =
      let c = (f.region.exact start).1 here in ground (arith, f.marked start)

  still :
      (seen pixels seen' : List P) (start : P)
      → IsFilled is_open neighbours seen start pixels seen'
      → (a : P) → contains a seen ≡ true
      → contains a seen' ≡ true
  still seen pixels seen' start f a h = ground (arith, f.marked a)

  carried :
      (a start : P) (starts seen marks : List P)
      → (contains a seen ≡ true → contains a marks ≡ true)
      → contains start marks ≡ true
      → (contains a seen || contains a (start ∷ starts)) ≡ true
      → (contains a marks || contains a starts) ≡ true
  carried a start starts seen marks h c m = ground (arith, h, e.same_iff start a)

  scan-IsScanned :
      (us starts seen : List P) (best : Option (List P))
      → ((a : P) → is_open a ≡ true → contains a us ≡ true)
      → ((a : P) → contains a starts ≡ true → is_open a ≡ true)
      → IsScanned seen best
      → (seen' : List P) × (best' : Option (List P)) × (scan is_open neighbours
            (length us)
            starts
            seen
            best
          ≡ some best')
        × IsScanned seen' best'
        × ((a : P) → (contains a seen || contains a starts) ≡ true → contains a seen' ≡ true)
  unfolding scan
  scan-IsScanned us [] seen best listed opens s = (seen, best, refl, s, λ a h. ground arith)
  scan-IsScanned us (start ∷ starts) seen best listed opens s =
      let rest = λ (a : P) (h : contains a starts ≡ true). opens a (ground arith) in
      elim (Bool-cases (contains start seen)) [
        | inl old ↦
            let (seen', best', run, s', all) = scan-IsScanned us starts seen best listed rest s in
            (seen', best', rw old run, s', λ a h. all a (ground (arith, e.same_iff start a)))
        | inr new ↦
            let o = opens start (ground (arith, same_refl start)) in
            let (pixels, marks, flooded, f) =
              flood-IsFilled is_open neighbours seen start us listed symmetric s.closed o new in
            let (seen', best', run, s', all) =
              scan-IsScanned us starts marks (better best pixels) listed rest
                (IsScanned-better start seen pixels marks best o s f) in
            (
              seen',
              best',
              rw new (rw flooded run),
              s',
              λ a h. all a (
                  carried a start starts seen marks (still seen pixels marks start f a)
                    (begun start seen pixels marks f) h),
            )
      ]

  IsScanned-IsLargest :
      (seen : List P) (best : Option (List P))
      → IsScanned seen best
      → ((a : P) → is_open a ≡ true → contains a seen ≡ true)
      → IsLargest is_open neighbours best
  unfolding IsLargest
  IsScanned-IsLargest seen none s all = λ a. elim (Bool-cases (is_open a)) [
    | inl o ↦
        let (r, i, m) = s.covered a (all a o) in
        absurd (ground (arith, m, List-cases r, (i.exact a).1 here))
    | inr o ↦ o
  ]
  IsScanned-IsLargest seen (some best) s all = (
    s.kept,
    λ a r o i. let (r', j, m) = s.covered a (all a o) in omega (arith, length-IsRegion a r r' i j),
  )

  -- With the open pixels in any order, and fuel for each of them, the search ends and keeps its
  -- promise.
  pub scan-IsLargest :
      (starts : List P)
      → ((a : P) → (contains a starts ≡ true) ↔ (is_open a ≡ true))
      → (best : Option (List P)) × (scan is_open neighbours (length starts) starts [] none
          ≡ some best)
        × IsLargest is_open neighbours best
  scan-IsLargest starts opens =
      let first : IsScanned [] none = record {
        closed = λ a b h c o. ground arith;
        kept = tt;
        covered = λ a h. absurd (ground arith);
      } in
      let (seen, best, run, s, all) =
        scan-IsScanned starts starts [] none (λ a o. (opens a).1 o) (λ a c. (opens a).0 c) first in
      (best, run, IsScanned-IsLargest seen best s (λ a o. all a (ground (arith, (opens a).1 o))))
