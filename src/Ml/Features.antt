-- ===== src/Ml/Features.antt =====
-- src/threevn_ml/threevn_ml/features.py, and the closed form of models.py, which is applied to one
-- vector of features at a time. A blob is at least one pixel wide, so that no division is by 0; the
-- square root is an argument.
pub mod Deprojection
mod Samples
use mathlib.Core.Option
use vn_robotics.Prelude.{ℕ, String, Option, none, some, List, [], ◌∷◌, ◌++◌, lookup, string_eq}
use vn_robotics.Py.Json.{Number, Json, item}
use vn_robotics.Py.Errors.{Result, ok, raise, key_error, value_error, or_raise, ◌>>=◌}
use vn_robotics.Perception.Detector.{Blob, Mask, largest_blob}
use vn_robotics.Perception.Image.{Intrinsics, Position, Image, MaskSettings, colour_mask}

abbrev pub geometric_features : List String
geometric_features = "(u-cx)/w" ∷ "(v-cy)/w" ∷ "1/w" ∷ []

abbrev pub shape_features : List String
shape_features = geometric_features ++ ("h/w" ∷ "sqrt(area)/w" ∷ "(h/w)/w" ∷ "sqrt(area)/w^2" ∷ [])

-- FEATURE_NAMES
abbrev pub feature_names : List String
feature_names = shape_features

module _ {F : Type 0} ⦃n : Number F⦄ where
  -- The dict of all features.
  abbrev pub all_features : (sqrt : F → F) → Blob F → Intrinsics F → List (String × F)
  all_features sqrt blob camera =
      let width = n.literal blob.width 0 in
      let height = n.literal blob.height 0 in
      let root_area = sqrt (n.literal blob.area 0) in
      ("(u-cx)/w", n.div (n.sub blob.u camera.cx) width)
      ∷ ("(v-cy)/w", n.div (n.sub blob.v camera.cy) width)
      ∷ ("1/w", n.div (n.literal 1 0) width)
      ∷ ("h/w", n.div height width)
      ∷ ("sqrt(area)/w", n.div root_area width)
      ∷ ("(h/w)/w", n.div height (n.mul width width))
      ∷ ("sqrt(area)/w^2", n.div root_area (n.mul width width))
      ∷ []

  -- [available[name] for name in names]
  unfoldable pub select : List (String × F) → List String → Result (List F)
  unfolding lookup
  select dict [] = ok []
  select dict (name ∷ names) = do
    value ← or_raise (key_error name) (lookup name dict)
    values ← select dict names
    ok (value ∷ values)

  unfoldable pub blob_features :
      (sqrt : F → F) → Blob F → Intrinsics F → List String → Result (List F)
  unfolding select
  blob_features sqrt blob camera names = select (all_features sqrt blob camera) names

  -- Geometric.predict; a vector of one is broadcast
  unfoldable pub predict : Intrinsics F → F → List F → Result (Position F)
  predict camera target_width (a ∷ []) = ok (record {
    x = n.mul a target_width;
    y = n.mul a target_width;
    z = n.mul a (n.mul camera.fx target_width);
  })
  predict camera target_width (a ∷ b ∷ c ∷ []) = ok (record {
    x = n.mul a target_width;
    y = n.mul b target_width;
    z = n.mul c (n.mul camera.fx target_width);
  })
  predict camera target_width features = raise value_error

  -- Features of an image, if a blob is found.
  abbrev pub features_of :
      (sqrt : F → F) → Intrinsics F → List String → Option (Blob F) → Result (Option (List F))
  features_of sqrt camera names none = ok none
  features_of sqrt camera names (some blob) = do
    features ← blob_features sqrt blob camera names
    ok (some features)

  abbrev pub features_in :
      (sqrt : F → F) → Intrinsics F → List String → Result Mask → Option (Result (Option (List F)))
  features_in sqrt camera names (ok mask) =
      Option.map (λ found. found >>= features_of sqrt camera names) (largest_blob 40 mask)
  features_in sqrt camera names (raise e) = some (raise e)

  unfoldable pub extract :
      (sqrt : F → F)
      → MaskSettings
      → Image
      → Intrinsics F
      → List String
      → Option (Result (Option (List F)))
  extract sqrt s rgb camera names = features_in sqrt camera names (colour_mask s rgb)

-- The values are what the manifest has, numbers or not.
unfoldable pub intrinsics_from_manifest : {F : Type 0} → Json F → Result (Intrinsics (Json F))
intrinsics_from_manifest manifest = do
  camera ← item "camera" manifest
  fx ← item "fx" camera
  fy ← item "fy" camera
  cx ← item "cx" camera
  cy ← item "cy" camera
  ok (record { fx = fx; fy = fy; cx = cx; cy = cy })
