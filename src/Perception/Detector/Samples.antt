-- ===== src/Perception/Detector/Samples.antt =====
-- A mask with a region of two pixels, one of three in a corner and one alone.
use vn_robotics.Prelude.{
  ℕ, zero, suc, ◌≡◌, refl, Bool, ◌||◌, Option, none, some, List, [], ◌∷◌, nat_eq, ltb, length, ◌∙◌,
  arith,
}
use vn_robotics.Mlops.Gates.Samples.{hundredths}
use vn_robotics.Py.Errors.{ok}
use vn_robotics.Perception.Flood.{push_all, flood, scan}
use vn_robotics.Perception.Detector.{
  Mask, Blob, Pixel, pixel_eq, is_open, neighbours, nonzero, extent, blob_of, largest_blob,
}
use vn_robotics.Perception.Flood.Region.{IsFilled, flood-IsFilled}
use vn_robotics.Perception.Detector.Grid.{contains-nonzero, neighbours-symmetric}
use vn_robotics.Perception.Detector.Correct.{IsReport, largest_blob-IsReport}

-- x x . .
-- . . x x
-- x . . x
abbrev picture : ℕ → ℕ → Bool
picture zero x = ltb x 2
picture (suc zero) x = ltb 1 x
picture (suc (suc y)) x = nat_eq x 0 || nat_eq x 3

abbrev corner : Mask
corner = record { height = 3; width = 4; at = picture }

abbrev corner_blob : Blob ℕ
corner_blob = record { u = 266; v = 133; width = 2; height = 2; area = 3 }

nonzero_test : nonzero corner ≡ (0, 0) ∷ (0, 1) ∷ (1, 2) ∷ (1, 3) ∷ (2, 0) ∷ (2, 3) ∷ []
unfolding nonzero
nonzero_test = refl

largest_blob_test : largest_blob {F = ℕ} 3 corner ≡ some (ok (some corner_blob))
unfolding largest_blob nonzero scan flood push_all blob_of extent
largest_blob_test = refl

too_small : largest_blob {F = ℕ} 4 corner ≡ some (ok none)
unfolding largest_blob nonzero scan flood push_all blob_of extent
too_small = refl

largest_blob-IsReport_example :
    (found : Option (Blob ℕ)) × (largest_blob 3 corner ≡ some (ok found)) × IsReport corner 3 found
largest_blob-IsReport_example = largest_blob-IsReport corner 3

flood-IsFilled_example :
    (pixels seen : List Pixel) × (flood
        (is_open corner)
        neighbours
        (length (nonzero corner))
        ((0, 1) ∷ [])
        ((0, 1) ∷ [])
        []
      ≡ some (pixels, seen))
    × IsFilled (is_open corner) neighbours [] (0, 1) pixels seen
flood-IsFilled_example =
    flood-IsFilled (is_open corner) neighbours [] (0, 1) (nonzero corner)
      (λ p h. contains-nonzero corner p ∙ h) neighbours-symmetric (λ a b h c o. ground arith) refl
      refl
