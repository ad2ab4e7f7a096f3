-- ===== src/Perception/Detector/Grid.antt =====
-- The pixels of a mask: which of them `np.nonzero` lists, and whose neighbours they are.
use vn_robotics.Prelude.{
  ℕ, zero, suc, ◌+◌, ◌≡◌, Bool, true, false, ◌&&◌, ◌||◌, List, [], ◌∷◌, keep, any, Equality, nat_eq,
  number_eq, contains, ltb, leb, arith, Bool-cases, inl, inr,
}
use vn_robotics.Perception.Flood.Region.{contains-append}
use vn_robotics.Perception.Detector.{
  Pixel, pixel_eq, Mask, is_set, is_open, neighbours, cells_of, row_cells, cells, nonzero,
}

module _ {P : Type 0} ⦃e : Equality P⦄ where
  contains-keep :
      (p : P → Bool) (a : P) (xs : List P) → contains a (keep p xs) ≡ (contains a xs && p a)
  contains-keep p a [] = ground arith
  contains-keep p a (x ∷ xs) = elim (Bool-cases (p x)) [
    | inl b ↦ ground (arith, e.same_iff x a, contains-keep p a xs)
    | inr b ↦ ground (arith, e.same_iff x a, contains-keep p a xs)
  ]

  any-contains :
      (p : P → Bool) (a : P) (xs : List P) → any p xs ≡ false → contains a xs ≡ true → p a ≡ false
  any-contains p a [] h c = ground arith
  any-contains p a (x ∷ xs) h c = ground (arith, e.same_iff x a, any-contains p a xs)

contains-cells_of :
    (y x n v u : ℕ) → contains (v, u) (cells_of y x n) ≡ (nat_eq y v && (leb x u && ltb u (x + n)))
contains-cells_of y x zero v u = ground arith
contains-cells_of y x (suc n) v u = ground (arith, contains-cells_of y (suc x) n v u)

contains-row_cells :
    (w y n v u : ℕ) → contains (v, u) (row_cells w y n) ≡ (leb y v && (ltb v (y + n) && ltb u w))
contains-row_cells w y zero v u = ground arith
contains-row_cells w y (suc n) v u = ground (
  arith,
  contains-append (v, u) (cells_of y 0 w) (row_cells w (suc y) n),
  contains-cells_of y 0 w v u,
  contains-row_cells w (suc y) n v u,
)

-- np.nonzero lists the pixels that are set, and no others.
pub contains-nonzero : (m : Mask) (p : Pixel) → contains p (nonzero m) ≡ is_open m p
unfolding nonzero
contains-nonzero m (y, x) =
    ground
      (arith, contains-keep (is_set m) (y, x) (cells m), contains-row_cells m.width 0 m.height y x)

pub any-is_open : (m : Mask) (p : Pixel) → any (is_set m) (cells m) ≡ false → is_open m p ≡ false
any-is_open m (y, x) h =
    ground
      (arith, any-contains (is_set m) (y, x) (cells m) h, contains-row_cells m.width 0 m.height y x)

-- Side by side in a row or in a column.
beside : Pixel → Pixel → Bool
beside (y, x) (v, u) =
    (nat_eq y v && (nat_eq (x + 1) u || nat_eq x (u + 1)))
    || (nat_eq x u && (nat_eq (y + 1) v || nat_eq y (v + 1)))

neighbours-beside : (p q : Pixel) → contains q (neighbours p) ≡ beside p q
unfolding beside
neighbours-beside (zero, zero) (v, u) = ground arith
neighbours-beside (zero, suc x) (v, u) = ground arith
neighbours-beside (suc y, zero) (v, u) = ground arith
neighbours-beside (suc y, suc x) (v, u) = ground arith

beside_symmetric : (p q : Pixel) → beside p q ≡ true → beside q p ≡ true
unfolding beside
beside_symmetric (y, x) (v, u) h = ground arith

pub neighbours-symmetric :
    (p q : Pixel) → contains q (neighbours p) ≡ true → contains p (neighbours q) ≡ true
neighbours-symmetric p q h =
    cc (neighbours-beside q p, beside_symmetric p q (cc (neighbours-beside p q)))
