-- ===== src/Perception/Detector/Correct.antt =====
-- `largest_blob` as a whole: what it reports, and of which region of the mask.
use vn_robotics.Prelude.{
  ℕ, ◌≤◌, ◌<◌, ◌≡◌, refl, ap, sym, ◌∙◌, true, false, Option, none, some, List, [], ◌∷◌, length, any,
  ltb, ltb→lt, arith, Bool-cases, inl, inr,
}
use vn_robotics.Py.Json.{Number}
use vn_robotics.Py.Errors.{ok}
use vn_robotics.Perception.Flood.Region.{here, IsRegion}
use vn_robotics.Perception.Flood.Largest.{IsLargest, scan-IsLargest}
use vn_robotics.Perception.Detector.{
  Pixel, pixel_eq, Mask, is_set, is_open, neighbours, cells, nonzero, Blob, wide_enough,
  largest_blob,
}
use vn_robotics.Perception.Detector.Grid.{contains-nonzero, any-is_open, neighbours-symmetric}
use vn_robotics.Perception.Detector.Spans.{IsBlobOf, blob_of-IsBlobOf}

-- A list of the pixels connected with a pixel of the mask, each once.
abbrev pub IsPatch : Mask → List Pixel → Type 0
IsPatch m pixels = (s : Pixel) × (is_open m s ≡ true) × IsRegion (is_open m) neighbours s pixels

-- A mask with no pixel has no patch.
empty :
    (m : Mask)
    → ((p : Pixel) → is_open m p ≡ false)
    → (pixels : List Pixel) (k : ℕ) → IsPatch m pixels
    → length pixels < k
empty m closed pixels k (s, o, i) = absurd (ground (arith, closed s))

module _ {F : Type 0} where
  -- No patch of the mask has the area wanted, or the blob measures one that has and no patch is
  -- larger.
  abbrev pub IsReport : Mask → ℕ → Option (Blob F) → Type 0
  IsReport m min_area none = (pixels : List Pixel) → IsPatch m pixels → length pixels < min_area
  IsReport m min_area (some blob) =
      (best : List Pixel) × IsPatch m best
      × (min_area ≤ length best)
      × ((pixels : List Pixel) → IsPatch m pixels → length pixels ≤ length best)
      × IsBlobOf best blob

module _ {F : Type 0} ⦃n : Number F⦄ (m : Mask) (min_area : ℕ) where
  wide_enough-IsReport :
      (best : Option (List Pixel))
      → IsLargest (is_open m) neighbours best
      → (found : Option (Blob F)) × (wide_enough min_area best ≡ ok found)
        × IsReport m min_area found
  unfolding IsLargest
  wide_enough-IsReport none closed =
      (none, refl, λ pixels patch. empty m closed pixels min_area patch)
  wide_enough-IsReport (some []) ((s, o, i), most) = absurd (ground (arith, (i.exact s).1 here))
  wide_enough-IsReport (some (p ∷ ps)) (patch, most) =
      elim (Bool-cases (ltb (length (p ∷ ps)) min_area)) [
        | inl small ↦ (
          none,
          rw small refl,
          λ pixels (s, o, i).
              omega (arith, most s pixels o i, ltb→lt (length (p ∷ ps)) min_area small),
        )
        | inr large ↦
            let (blob, made, measured) = blob_of-IsBlobOf p ps in
            (
              some blob,
              rw large (rw made refl),
              (
                p ∷ ps,
                patch,
                ground (arith, large),
                λ pixels (s, o, i). most s pixels o i,
                measured,
              ),
            )
      ]

  -- For every mask and least area the search ends within its fuel and nothing raises. It finds no
  -- blob if each connected region of the mask has fewer pixels than the least area. Else the blob
  -- has
  -- the number of pixels, the width and the height of a region that has at least so many pixels
  -- and at least as many as every other region.
  pub largest_blob-IsReport :
      (found : Option (Blob F)) × (largest_blob min_area m ≡ some (ok found))
      × IsReport m min_area found
  unfolding largest_blob
  largest_blob-IsReport = elim (Bool-cases (any (is_set m) (cells m))) [
    | inl full ↦
        let (best, run, largest) =
          scan-IsLargest (is_open m) neighbours neighbours-symmetric (nonzero m)
            (λ p. (λ h. sym (contains-nonzero m p) ∙ h, λ h. contains-nonzero m p ∙ h)) in
        let (found, made, report) = wide_enough-IsReport best largest in
        (found, rw full (rw run (ap some made)), report)
    | inr bare ↦ (
      none,
      rw bare refl,
      λ pixels patch. empty m (λ p. any-is_open m p bare) pixels min_area patch,
    )
  ]
