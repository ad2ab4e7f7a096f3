-- ===== src/Perception/Target/Samples.antt =====
-- A camera, an image of one pixel in each order of the channels, and a green image.
use vn_robotics.Prelude.{
  ℕ, ◌≡◌, refl, arith, true, none, some, List, [], ◌∷◌, ◌*◌, nat_eq, if◌then◌else◌,
}
use vn_robotics.Mlops.Gates.Samples.{hundredths}
use vn_robotics.Py.Errors.{ok, raise, zero_division}
use vn_robotics.Perception.Flood.{push_all, flood, scan}
use vn_robotics.Perception.Detector.{Blob, nonzero, extent, blob_of, largest_blob}
use vn_robotics.Perception.Image.{
  Image, MaskSettings, Intrinsics, as_rgb, colour_mask, range_from_apparent_size,
  position_in_optical_frame, python_quotient, detect,
}
use vn_robotics.Perception.Image.Sighting.{Sighted, mask_of, detect-IsSighting}
use vn_robotics.Perception.Target.{
  ImageMessage, TargetSettings, fresh_target, on_info, on_image, error_logged, intrinsics_logged,
}
use vn_robotics.Perception.Target.Orderly.{
  Heard, info, image, first_info, IsAfter, Ends, receive_all, receive_all-IsAfter,
}

abbrev green : MaskSettings
green = record { channel = 1; minimum = 60; dominance = 30 }

abbrev camera : Intrinsics ℕ
camera = record { fx = 50000; fy = 50000; cx = 300; cy = 200 }

abbrev green_pixel : ℕ → ℕ
green_pixel c = if nat_eq c 1 then 200 else 20

-- 7 by 6 pixels.
abbrev field_of_green : Image
field_of_green = record { height = 6; width = 7; depth = 3; at = λ y x. green_pixel }

abbrev green_blob : Blob ℕ
green_blob = record { u = 300; v = 250; width = 7; height = 6; area = 42 }

detect_test :
    detect python_quotient green field_of_green camera 5
    ≡ some (ok (some (green_blob, record { x = 0; y = 0; z = 357 })))
unfolding detect colour_mask largest_blob nonzero scan flood push_all blob_of extent
    position_in_optical_frame range_from_apparent_size
detect_test = refl

abbrev frame : ImageMessage
frame = record {
  header = "camera";
  height = 1;
  width = 1;
  encoding = "mono8";
  buffer = 7 ∷ 8 ∷ 9 ∷ [];
}

abbrev settings : TargetSettings ℕ
settings = record { target_width = 5; mask_kwargs = green; transform = λ p. none }

-- An image before the intrinsics, then two in an encoding that is not handled.
abbrev messages : List (Heard ℕ)
messages = image frame ∷ info (λ i. i * 100) ∷ image frame ∷ image frame ∷ info (λ i. i) ∷ []

spin_test :
    receive_all settings messages fresh_target
    ≡ some (
        ok (record {
          intrinsics = some (record { fx = 0; fy = 400; cx = 200; cy = 500 });
          warned = true;
          events = intrinsics_logged ∷ error_logged ∷ [];
        }))
unfolding receive_all on_info on_image as_rgb
spin_test = refl

detect-IsSighting_example :
    Sighted camera 5
      (mask_of green field_of_green)
      (detect python_quotient green field_of_green camera 5)
detect-IsSighting_example = detect-IsSighting camera 5 green field_of_green refl (omega arith)

-- A focal length of zero.
no_focus :
    detect python_quotient green field_of_green (record camera { fy = 0 }) 5
    ≡ some (raise zero_division)
unfolding detect colour_mask largest_blob nonzero scan flood push_all blob_of extent
    position_in_optical_frame range_from_apparent_size
no_focus = refl

receive_all-IsAfter_example :
    Ends
      (receive_all settings messages fresh_target)
      (IsAfter (first_info none messages) fresh_target)
receive_all-IsAfter_example = receive_all-IsAfter settings (omega arith) messages fresh_target refl
