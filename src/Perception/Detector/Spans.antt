-- ===== src/Perception/Detector/Spans.antt =====
-- The box of a blob: the least and the greatest coordinate of its pixels.
use vn_robotics.Prelude.{
  ℕ, ◌+◌, ◌-◌, ◌≤◌, ◌≡◌, refl, true, List, [], ◌∷◌, map, length, number_eq, contains, min, max,
  arith,
}
use vn_robotics.Py.Json.{Number}
use vn_robotics.Py.Errors.{ok}
use vn_robotics.Perception.Detector.{
  greatest, least, extent, Blob, blob_of, Pixel, row_of, column_of, average,
}

greatest-ge : (a : ℕ) (ns : List ℕ) (k : ℕ) → contains k (a ∷ ns) ≡ true → k ≤ greatest a ns
greatest-ge a [] k h = ground arith
greatest-ge a (n ∷ ns) k h =
    ground (arith, greatest-ge (max a n) ns k, greatest-ge (max a n) ns (max a n))

least-le : (a : ℕ) (ns : List ℕ) (k : ℕ) → contains k (a ∷ ns) ≡ true → least a ns ≤ k
least-le a [] k h = ground arith
least-le a (n ∷ ns) k h = ground (arith, least-le (min a n) ns k, least-le (min a n) ns (min a n))

greatest-contains : (a : ℕ) (ns : List ℕ) → contains (greatest a ns) (a ∷ ns) ≡ true
greatest-contains a [] = ground arith
greatest-contains a (n ∷ ns) = ground (arith, greatest-contains (max a n) ns)

least-contains : (a : ℕ) (ns : List ℕ) → contains (least a ns) (a ∷ ns) ≡ true
least-contains a [] = ground arith
least-contains a (n ∷ ns) = ground (arith, least-contains (min a n) ns)

-- The coordinates lie in a run of so many whole numbers, and reach both its ends.
pub record IsSpan (wide : ℕ) (ns : List ℕ) : Type 0 where
  pub first : ℕ
  pub last : ℕ
  pub begins : contains first ns ≡ true
  pub ends : contains last ns ≡ true
  pub within : (k : ℕ) → contains k ns ≡ true → (first ≤ k) × (k ≤ last)
  pub measured : wide ≡ last - first + 1
  pub ordered : first ≤ last

pub extent-IsSpan :
    (n : ℕ) (ns : List ℕ) → (wide : ℕ) × (extent (n ∷ ns) ≡ ok wide) × IsSpan wide (n ∷ ns)
unfolding extent
extent-IsSpan n ns = (
  greatest n ns - least n ns + 1,
  refl,
  record {
    first = least n ns;
    last = greatest n ns;
    begins = least-contains n ns;
    ends = greatest-contains n ns;
    within = λ k h. (least-le n ns k h, greatest-ge n ns k h);
    measured = refl;
    ordered = greatest-ge n ns (least n ns) (least-contains n ns);
  },
)

-- A blob that measures a list of pixels: their number, and the box around them.
pub record IsBlobOf {F : Type 0} (pixels : List Pixel) (blob : Blob F) : Type 0 where
  pub counted : blob.area ≡ length pixels
  pub across : IsSpan blob.width (map column_of pixels)
  pub down : IsSpan blob.height (map row_of pixels)

module _ {F : Type 0} ⦃n : Number F⦄ where
  pub blob_of-IsBlobOf :
      (p : Pixel) (ps : List Pixel)
      → (blob : Blob F) × (blob_of (p ∷ ps) ≡ ok blob) × IsBlobOf (p ∷ ps) blob
  unfolding blob_of
  blob_of-IsBlobOf p ps =
      let (across, a, i) = extent-IsSpan (column_of p) (map column_of ps) in
      let (down, b, j) = extent-IsSpan (row_of p) (map row_of ps) in
      let blob : Blob F = record {
        u = average (map column_of (p ∷ ps));
        v = average (map row_of (p ∷ ps));
        width = across;
        height = down;
        area = length (p ∷ ps);
      } in
      (blob, rw a (rw b refl), record { counted = refl; across = i; down = j })
