-- ===== src/Perception/Flood.antt =====
-- src/threevn_perception/threevn_perception/detector.py: the search of `largest_blob` for the
-- largest
-- connected region. Its pixels, their neighbours and the test of the mask are the section's
-- parameters; the stack has its top first. A flood takes fuel, one for each pixel that it pops.
pub mod Push
pub mod Region
pub mod Largest
use vn_robotics.Prelude.{
  ℕ, zero, suc, Bool, true, false, not, ◌&&◌, Option, none, some, List, [], ◌∷◌, ◌++◌, length,
  Equality, contains, if◌then◌else◌, ltb,
}

module _ {P : Type 0} where
  -- best is None or len(pixels) > len(best)
  abbrev pub better : Option (List P) → List P → Option (List P)
  better none pixels = some pixels
  better (some best) pixels = if ltb (length best) (length pixels) then some pixels else some best

  abbrev pub carry_on :
      Option (List P × List P)
      → Option (List P)
      → (List P → Option (List P) → Option (Option (List P)))
      → Option (Option (List P))
  carry_on none best rest = none
  carry_on (some (pixels, seen)) best rest = rest seen (better best pixels)

module _ {P : Type 0} ⦃e : Equality P⦄ (is_open : P → Bool) where
  -- The body of the inner `for`: the neighbours that are open and new are marked and pushed.
  unfoldable pub push_all : List P → (seen stack : List P) → List P × List P
  push_all [] seen stack = (seen, stack)
  push_all (q ∷ qs) seen stack =
      let rest = push_all qs in
      if is_open q && not (contains q seen) then rest (q ∷ seen) (q ∷ stack) else rest seen stack

module _ {P : Type 0} ⦃e : Equality P⦄ (is_open : P → Bool) (neighbours : P → List P) where
  -- The `while` loop: the pixels of a region, and what is seen after it. Out of fuel it gives none.
  unfoldable pub flood : ℕ → (stack seen pixels : List P) → Option (List P × List P)
  unfolding push_all
  flood fuel [] seen pixels = some (pixels, seen)
  flood zero (p ∷ stack) seen pixels = none
  flood (suc fuel) (p ∷ stack) seen pixels =
      let (seen', stack') = push_all is_open (neighbours p) seen stack in
      flood fuel stack' seen' (pixels ++ p ∷ [])

  -- The outer loop, over the open pixels in their order.
  unfoldable pub scan : ℕ → List P → (seen : List P) → Option (List P) → Option (Option (List P))
  unfolding flood
  scan fuel [] seen best = some best
  scan fuel (start ∷ starts) seen best =
      let rest = scan fuel starts in
      if contains start seen
      then rest seen best
      else carry_on (flood fuel (start ∷ []) (start ∷ seen) []) best rest
