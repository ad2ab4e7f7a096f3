-- ===== src/Perception/Detector.antt =====
-- src/threevn_perception/threevn_perception/detector.py, `largest_blob`: the mask, its pixels in
-- the
-- order of `np.nonzero`, and the blob of the largest region. A pixel is a pair (y, x). The means
-- are
-- of whole numbers, which a float64 adds without error.
pub mod Grid
pub mod Spans
pub mod Correct
mod Samples
use vn_robotics.Prelude.{
  ℕ, zero, suc, ◌+◌, ◌-◌, ◌≡◌, ◌↔◌, refl, Bool, true, false, not, ◌&&◌, Option, none, some, List,
  [], ◌∷◌, ◌++◌, map, length, any, keep, Equality, nat_eq, number_eq, contains, if◌then◌else◌, ltb,
  min, max, arith,
}
use mathlib.Core.Option
use vn_robotics.Py.Json.{Number}
use vn_robotics.Py.Errors.{Result, ok, raise, value_error, ◌>>=◌}
use vn_robotics.Perception.Flood.{scan}

abbrev pub Pixel : Type 0
Pixel = ℕ × ℕ

abbrev pub same_pixel : Pixel → Pixel → Bool
same_pixel (y, x) (y', x') = nat_eq y y' && nat_eq x x'

pub same_pixel_iff : (p q : Pixel) → (same_pixel p q ≡ true) ↔ (p ≡ q)
same_pixel_iff (y, x) (y', x') = (λ h. ground arith, λ h. ground arith)

instance abbrev pub pixel_eq : Equality Pixel
pixel_eq = record { same = same_pixel; same_iff = same_pixel_iff }

-- A boolean array: its shape, and its entry at a row and a column.
pub record Mask : Type 0 where
  pub height : ℕ
  pub width : ℕ
  pub at : ℕ → ℕ → Bool

abbrev pub is_set : Mask → Pixel → Bool
is_set m (y, x) = m.at y x

-- 0 <= ny < height and 0 <= nx < width and mask[ny, nx]
abbrev pub is_open : Mask → Pixel → Bool
is_open m (y, x) = ltb y m.height && (ltb x m.width && m.at y x)

abbrev pixel_above : Pixel → List Pixel
pixel_above (zero, x) = []
pixel_above (suc y, x) = (y, x) ∷ []

abbrev pixel_left : Pixel → List Pixel
pixel_left (y, zero) = []
pixel_left (y, suc x) = (y, x) ∷ []

-- (1, 0), (-1, 0), (0, 1), (0, -1), without those before the first row or column
abbrev pub neighbours : Pixel → List Pixel
neighbours (y, x) = (suc y, x) ∷ (pixel_above (y, x) ++ ((y, suc x) ∷ pixel_left (y, x)))

-- n pixels of a row, from a column
abbrev pub cells_of : (y x n : ℕ) → List Pixel
cells_of y x zero = []
cells_of y x (suc n) = (y, x) ∷ cells_of y (suc x) n

abbrev pub row_cells : (width y n : ℕ) → List Pixel
row_cells width y zero = []
row_cells width y (suc n) = cells_of y 0 width ++ row_cells width (suc y) n

abbrev pub cells : Mask → List Pixel
cells m = row_cells m.width 0 m.height

-- zip(*np.nonzero(mask))
unfoldable pub nonzero : Mask → List Pixel
nonzero m = keep (is_set m) (cells m)

-- A blob; its centre is of floating-point numbers.
pub record Blob (F : Type 0) : Type 0 where
  pub u : F
  pub v : F
  pub width : ℕ
  pub height : ℕ
  pub area : ℕ

abbrev pub greatest : ℕ → List ℕ → ℕ
greatest a [] = a
greatest a (n ∷ ns) = greatest (max a n) ns

abbrev pub least : ℕ → List ℕ → ℕ
least a [] = a
least a (n ∷ ns) = least (min a n) ns

abbrev pub sum_of : List ℕ → ℕ
sum_of [] = 0
sum_of (n ∷ ns) = n + sum_of ns

-- int(xs.max() - xs.min()) + 1; the maximum of no numbers raises
unfoldable pub extent : List ℕ → Result ℕ
extent [] = raise value_error
extent (n ∷ ns) = ok (greatest n ns - least n ns + 1)

abbrev pub row_of : Pixel → ℕ
row_of (y, x) = y

abbrev pub column_of : Pixel → ℕ
column_of (y, x) = x

module _ {F : Type 0} ⦃n : Number F⦄ where
  abbrev pub average : List ℕ → F
  average ns = n.div (n.literal (sum_of ns) 0) (n.literal (length ns) 0)

  unfoldable pub blob_of : List Pixel → Result (Blob F)
  blob_of pixels = do
    across ← extent (map column_of pixels)
    down ← extent (map row_of pixels)
    ok (record {
      u = average (map column_of pixels);
      v = average (map row_of pixels);
      width = across;
      height = down;
      area = length pixels;
    })

  abbrev pub wide_enough : ℕ → Option (List Pixel) → Result (Option (Blob F))
  wide_enough min_area none = ok none
  wide_enough min_area (some best) =
      if ltb (length best) min_area then ok none else do blob ← blob_of best; ok (some blob)

  -- The search has fuel for each pixel of the mask that is set; out of fuel there is no result.
  unfoldable pub largest_blob : ℕ → Mask → Option (Result (Option (Blob F)))
  unfolding nonzero scan blob_of
  largest_blob min_area m =
      if not (any (is_set m) (cells m))
      then some (ok none)
      else Option.map (wide_enough min_area)
          (scan (is_open m) neighbours (length (nonzero m)) (nonzero m) [] none)
