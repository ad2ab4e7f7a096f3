-- ===== src/Perception/Image.antt =====
-- src/threevn_perception/threevn_perception/detector.py from the image buffer to the position: the
-- channels, the colour mask, the pinhole camera. A channel is a whole number below 256, so that the
-- differences that the source takes in int16 do not wrap; they are compared here without
-- subtracting.
pub mod Sighting
use vn_robotics.Prelude.{
  ℕ, zero, suc, ◌+◌, ◌-◌, ◌*◌, ◌≡◌, Bool, true, false, not, ◌&&◌, Option, none, some, List, [], ◌∷◌,
  length, String, ◌==◌, string_eq, number_eq, nat_eq, all, keep, if◌then◌else◌, ltb, leb,
}
use mathlib.Core.Option
use vn_robotics.Py.Json.{Number}
use vn_robotics.Py.Errors.{Result, ok, raise, value_error, index_error, zero_division, ◌>>=◌}
use vn_robotics.Perception.Detector.{Mask, Blob, largest_blob}

-- An array of height by width by depth whole numbers.
pub record Image : Type 0 where
  pub height : ℕ
  pub width : ℕ
  pub depth : ℕ
  pub at : ℕ → ℕ → ℕ → ℕ

abbrev pub byte_at : List ℕ → ℕ → ℕ
byte_at [] i = 0
byte_at (b ∷ bs) zero = b
byte_at (b ∷ bs) (suc i) = byte_at bs i

-- np.frombuffer(buffer).reshape(height, width, 3)
abbrev pub reshaped : List ℕ → (height width : ℕ) → Image
reshaped buffer height width = record {
  height = height;
  width = width;
  depth = 3;
  at = λ y x c. byte_at buffer ((y * width + x) * 3 + c);
}

-- array[:, :, ::-1]
abbrev pub reversed : Image → Image
reversed array = record array { at = λ y x c. array.at y x (array.depth - 1 - c) }

-- A reshape raises where the buffer's length does not fit.
unfoldable pub as_rgb : List ℕ → (height width : ℕ) → String → Result Image
as_rgb buffer height width encoding =
    if not (length buffer == height * width * 3)
    then raise value_error
    else if encoding == "rgb8"
    then ok (reshaped buffer height width)
    else if encoding == "bgr8"
    then ok (reversed (reshaped buffer height width))
    else raise value_error

-- The arguments of `colour_mask` after the image.
pub record MaskSettings : Type 0 where
  pub channel : ℕ
  pub minimum : ℕ
  pub dominance : ℕ

abbrev pub others : ℕ → List ℕ
others channel = keep (λ i. not (nat_eq i channel)) (0 ∷ 1 ∷ 2 ∷ [])

-- target > minimum, and target - other > dominance for the other channels
abbrev pub stands_out : MaskSettings → (ℕ → ℕ) → Bool
stands_out s pixel =
    let target = pixel s.channel in
    ltb s.minimum target && all (λ i. ltb (s.dominance + pixel i) target) (others s.channel)

unfoldable pub colour_mask : MaskSettings → Image → Result Mask
colour_mask s rgb =
    if not (rgb.depth == 3)
    then raise value_error
    else if leb 3 s.channel
    then raise index_error
    else ok
        (record { height = rgb.height; width = rgb.width; at = λ y x. stands_out s (rgb.at y x) })

-- Intrinsics
pub record Intrinsics (F : Type 0) : Type 0 where
  pub fx : F
  pub fy : F
  pub cx : F
  pub cy : F

-- The matrix of a CameraInfo message has nine entries.
abbrev pub intrinsics_from_camera_info : {F : Type 0} → (ℕ → F) → Intrinsics F
intrinsics_from_camera_info k = record { fx = k 0; fy = k 4; cx = k 2; cy = k 5 }

-- A point: to the right, down, forward.
pub record Position (F : Type 0) : Type 0 where
  pub x : F
  pub y : F
  pub z : F

module _ {F : Type 0} ⦃n : Number F⦄ where
  -- tan and radians of `math` are arguments.
  abbrev pub intrinsics_from_fov :
      (tan radians : F → F) → (width height hfov_deg : F) → Intrinsics F
  intrinsics_from_fov tan radians width height hfov_deg =
      let two = n.literal 2 0 in
      let fx = n.div (n.div width two) (tan (n.div (radians hfov_deg) two)) in
      record { fx = fx; fy = fx; cx = n.div width two; cy = n.div height two }

  -- For a width in whole pixels, as a blob has.
  unfoldable pub range_from_apparent_size : ℕ → (real_width fx : F) → Result F
  range_from_apparent_size pixel_width real_width fx =
      if leb pixel_width 0
      then raise value_error
      else ok (n.div (n.mul fx real_width) (n.literal pixel_width 0))

  -- a / b of Python's floats, and of numpy's, which give an infinity or a nan on 0.
  abbrev pub python_quotient : F → F → Result F
  python_quotient a b = if n.eq b (n.literal 0 0) then raise zero_division else ok (n.div a b)

  abbrev pub numpy_quotient : F → F → Result F
  numpy_quotient a b = ok (n.div a b)

module _ {F : Type 0} ⦃n : Number F⦄ (quotient : F → F → Result F) where
  -- A quotient by the focal lengths is that of their type.
  unfoldable pub position_in_optical_frame : Blob F → Intrinsics F → F → Result (Position F)
  unfolding range_from_apparent_size
  position_in_optical_frame blob camera real_width = do
    distance ← range_from_apparent_size blob.width real_width camera.fx
    x ← quotient (n.mul (n.sub blob.u camera.cx) distance) camera.fx
    y ← quotient (n.mul (n.sub blob.v camera.cy) distance) camera.fy
    ok (record { x = x; y = y; z = distance })

  -- The blob and its position, if a blob is found.
  abbrev pub located : Intrinsics F → F → Option (Blob F) → Result (Option (Blob F × Position F))
  located camera real_width none = ok none
  located camera real_width (some blob) = do
    position ← position_in_optical_frame blob camera real_width
    ok (some (blob, position))

  -- The least area is the default of `largest_blob`.
  abbrev pub searched :
      Intrinsics F → F → Result Mask → Option (Result (Option (Blob F × Position F)))
  searched camera real_width (ok mask) =
      Option.map (λ found. found >>= located camera real_width) (largest_blob 40 mask)
  searched camera real_width (raise e) = some (raise e)

  unfoldable pub detect :
      MaskSettings → Image → Intrinsics F → F → Option (Result (Option (Blob F × Position F)))
  detect s rgb camera real_width = searched camera real_width (colour_mask s rgb)
