-- ===== src/Perception/Image/Sighting.antt =====
-- `detect` as a whole, on an image of three channels.
use vn_robotics.Prelude.{
  ℕ, ◌*◌, ◌<◌, ◌≡◌, refl, ap, sym, Bool, true, false, ◌||◌, Option, none, some, List, length,
  String, ◌==◌, string_eq, number_eq, leb, arith, Bool-cases, inl, inr, ◌⊎◌,
}
use mathlib.Core.Path.{subst}
use vn_robotics.Py.Json.{Number}
use vn_robotics.Py.Errors.{Result, ok, raise, value_error, zero_division}
use vn_robotics.Perception.Detector.{Mask, Blob}
use vn_robotics.Perception.Detector.Correct.{IsReport, largest_blob-IsReport}
use vn_robotics.Perception.Image.{
  Image, as_rgb, reshaped, reversed, MaskSettings, stands_out, colour_mask, Intrinsics, Position,
  range_from_apparent_size, position_in_optical_frame, located, python_quotient, detect,
}

-- The mask of the pixels whose channel stands out.
abbrev pub mask_of : MaskSettings → Image → Mask
mask_of s rgb = record {
  height = rgb.height;
  width = rgb.width;
  at = λ y x. stands_out s (rgb.at y x);
}

pub colour_mask-ok :
    (s : MaskSettings) (rgb : Image)
    → rgb.depth ≡ 3
    → s.channel < 3
    → colour_mask s rgb ≡ ok (mask_of s rgb)
unfolding colour_mask
colour_mask-ok s rgb d c = ground arith

-- `as_rgb` raises nothing but ValueError, and what it accepts has three channels.
pub as_rgb-cases :
    (buffer : List ℕ) (h w : ℕ) (encoding : String)
    → (as_rgb buffer h w encoding ≡ raise value_error)
      ⊎ ((rgb : Image) × (as_rgb buffer h w encoding ≡ ok rgb) × (rgb.depth ≡ 3))
unfolding as_rgb
as_rgb-cases buffer h w encoding = elim (Bool-cases (length buffer == h * w * 3)) [
  | inr short ↦ inl (rw short refl)
  | inl fits ↦ elim (Bool-cases (encoding == "rgb8")) [
    | inl rgb ↦ inr (reshaped buffer h w, rw fits (rw rgb refl), refl)
    | inr other ↦ elim (Bool-cases (encoding == "bgr8")) [
      | inl bgr ↦ inr (reversed (reshaped buffer h w), rw fits (rw other (rw bgr refl)), refl)
      | inr unknown ↦ inl (rw fits (rw other (rw unknown refl)))
    ]
  ]
]

module _ {F : Type 0} ⦃n : Number F⦄ (quotient : F → F → Result F) (camera : Intrinsics F)
    (real_width : F) where
  -- A report on the mask, and the position that belongs to the blob.
  abbrev pub IsSighting : Mask → Option (Blob F × Position F) → Type 0
  IsSighting m none = IsReport {F = F} m 40 none
  IsSighting m (some (blob, position)) =
      IsReport m 40 (some blob)
      × (position_in_optical_frame quotient blob camera real_width ≡ ok position)
      × (position.z ≡ n.div (n.mul camera.fx real_width) (n.literal blob.width 0))

  -- A blob that measures something has a width, so that its range is defined.
  wide_blob : (m : Mask) (blob : Blob F) → IsReport m 40 (some blob) → leb blob.width 0 ≡ false
  wide_blob m blob (best, patch, large, most, measured) =
      let wide : 0 < blob.width = omega (arith, measured.across.measured) in ground arith

  -- Where the quotients by the focal lengths do not raise.
  module _ (across : (a : F) → quotient a camera.fx ≡ ok (n.div a camera.fx))
      (down : (a : F) → quotient a camera.fy ≡ ok (n.div a camera.fy)) where
    located-IsSighting :
        (m : Mask) (found : Option (Blob F))
        → IsReport m 40 found
        → (sighted : Option (Blob F × Position F)) × (located quotient camera real_width found
            ≡ ok sighted)
          × IsSighting m sighted
    unfolding position_in_optical_frame range_from_apparent_size
    located-IsSighting m none r = (none, refl, r)
    located-IsSighting m (some blob) r =
        let distance = n.div (n.mul camera.fx real_width) (n.literal blob.width 0) in
        let e = wide_blob m blob r in
        let ax = across (n.mul (n.sub blob.u camera.cx) distance) in
        let ay = down (n.mul (n.sub blob.v camera.cy) distance) in
        let position : Position F = record {
          x = n.div (n.mul (n.sub blob.u camera.cx) distance) camera.fx;
          y = n.div (n.mul (n.sub blob.v camera.cy) distance) camera.fy;
          z = distance;
        } in
        (some (blob, position), rw (e, ax, ay) refl, (r, rw (e, ax, ay) refl, refl))

    pub detect-ok :
        (s : MaskSettings) (rgb : Image)
        → rgb.depth ≡ 3
        → s.channel < 3
        → (sighted : Option (Blob F × Position F)) × (detect quotient s rgb camera real_width
            ≡ some (ok sighted))
          × IsSighting (mask_of s rgb) sighted
    unfolding detect
    detect-ok s rgb d c =
        let (found, run, report) = largest_blob-IsReport {F = F} (mask_of s rgb) 40 in
        let (sighted, placed, sight) = located-IsSighting (mask_of s rgb) found report in
        (sighted, rw (colour_mask-ok s rgb d c) (rw run (ap some placed)), sight)

module _ {F : Type 0} ⦃n : Number F⦄ (camera : Intrinsics F) (real_width : F) where
  abbrev pub is_flat : Bool
  is_flat = n.eq camera.fx (n.literal 0 0) || n.eq camera.fy (n.literal 0 0)

  -- What comes of a mask, with Python's quotient.
  pub data Sighted (m : Mask) : Option (Result (Option (Blob F × Position F))) → Type 0 where
    sighted :
        (found : Option (Blob F × Position F))
        → IsSighting python_quotient camera real_width m found
        → Sighted m (some (ok found))
    no_quotient :
        (blob : Blob F)
        → IsReport m 40 (some blob)
        → is_flat ≡ true
        → Sighted m (some (raise zero_division))

  python_quotient-ok :
      (b : F) → n.eq b (n.literal 0 0) ≡ false → (a : F) → python_quotient a b ≡ ok (n.div a b)
  python_quotient-ok b h a = rw h refl

  flat-raises :
      (m : Mask) (blob : Blob F)
      → IsReport m 40 (some blob)
      → is_flat ≡ true
      → located python_quotient camera real_width (some blob) ≡ raise zero_division
  unfolding position_in_optical_frame range_from_apparent_size
  flat-raises m blob r h =
      let e = wide_blob python_quotient camera real_width m blob r in
      elim (Bool-cases (n.eq camera.fx (n.literal 0 0))) [
        | inl x ↦ rw (e, x) refl
        | inr x ↦
            let y : n.eq camera.fy (n.literal 0 0) ≡ true = ground (arith, x, h) in
            rw (e, x, y) refl
      ]

  flat-Sighted :
      (m : Mask) (found : Option (Blob F))
      → IsReport m 40 found
      → is_flat ≡ true
      → Sighted m (some (located python_quotient camera real_width found))
  flat-Sighted m none r h = sighted none r
  flat-Sighted m (some blob) r h = rw (flat-raises m blob r h) (no_quotient blob r h)

  -- On an image of three channels, and for one of them, the detection ends. With focal lengths that
  -- are floats of Python it raises a ZeroDivisionError if one of them is zero and there is a
  -- connected region of at least 40 pixels that stand out, and else it does not raise. It finds
  -- nothing if each such region has fewer pixels. Else it gives the blob of a largest region and
  -- the
  -- blob's position, whose distance is the focal length times the real width over the blob's width.
  pub detect-IsSighting :
      (s : MaskSettings) (rgb : Image)
      → rgb.depth ≡ 3
      → s.channel < 3
      → Sighted (mask_of s rgb) (detect python_quotient s rgb camera real_width)
  unfolding detect
  detect-IsSighting s rgb d c = elim (Bool-cases is_flat) [
    | inl flat ↦
        let (found, run, report) = largest_blob-IsReport {F = F} (mask_of s rgb) 40 in
        rw (colour_mask-ok s rgb d c) (rw run (flat-Sighted (mask_of s rgb) found report flat))
    | inr round ↦
        let x : n.eq camera.fx (n.literal 0 0) ≡ false = ground (arith, round) in
        let y : n.eq camera.fy (n.literal 0 0) ≡ false = ground (arith, round) in
        let (found, run, sight) =
          detect-ok python_quotient camera real_width (python_quotient-ok camera.fx x)
            (python_quotient-ok camera.fy y) s rgb d c in
        subst (Sighted (mask_of s rgb)) (sym run) (sighted found sight)
  ]
