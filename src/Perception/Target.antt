-- ===== src/Perception/Target.antt =====
-- src/threevn_perception/threevn_perception/find_target.py: the node that publishes where the
-- target
-- is. What it publishes and logs is a list of events, the latest last. The transform to the
-- reference
-- frame is an argument, which gives nothing where tf2 raises. The matrix of a CameraInfo is an
-- array of
-- numpy's numbers.
pub mod Orderly
mod Samples
use vn_robotics.Prelude.{
  ℕ, zero, suc, Bool, true, false, Option, none, some, List, [], ◌∷◌, ◌++◌, String, if◌then◌else◌,
}
use vn_robotics.Py.Json.{Number}
use vn_robotics.Py.Errors.{Exn, Result, ok, raise, value_error}
use vn_robotics.Perception.Detector.{Blob}
use vn_robotics.Perception.Image.{
  Image, as_rgb, MaskSettings, Intrinsics, intrinsics_from_camera_info, Position, numpy_quotient,
  detect,
}

-- A pose with no orientation, and the header of its image.
pub data TargetEvent (F : Type 0) : Type 0 where
  target_pose target_in_base : String → Position F → TargetEvent F
  error_logged intrinsics_logged transform_warned : TargetEvent F

-- An image with its header.
pub record ImageMessage : Type 0 where
  pub header : String
  pub height : ℕ
  pub width : ℕ
  pub encoding : String
  pub buffer : List ℕ

-- FindTarget
pub record FindTarget (F : Type 0) : Type 0 where
  pub intrinsics : Option (Intrinsics F)
  pub warned : Bool
  pub events : List (TargetEvent F)

-- The parameters that the node reads when it starts.
pub record TargetSettings (F : Type 0) : Type 0 where
  pub target_width : F
  pub mask_kwargs : MaskSettings
  pub transform : Position F → Option (Position F)

abbrev pub fresh_target : {F : Type 0} → FindTarget F
fresh_target = record { intrinsics = none; warned = false; events = [] }

module _ {F : Type 0} where
  abbrev pub emit : TargetEvent F → FindTarget F → FindTarget F
  emit e s = record s { events = s.events ++ (e ∷ []) }

  -- The first intrinsics are kept.
  abbrev pub latch : Option (Intrinsics F) → (ℕ → F) → FindTarget F → FindTarget F
  latch none k s =
      emit intrinsics_logged (record s { intrinsics = some (intrinsics_from_camera_info k) })
  latch (some camera) k s = s

  unfoldable pub on_info : (ℕ → F) → FindTarget F → FindTarget F
  on_info k s = latch s.intrinsics k s

  -- The error of an encoding or a size is logged once.
  abbrev pub warn_once : FindTarget F → FindTarget F
  warn_once s = if s.warned then s else emit error_logged (record s { warned = true })

  abbrev pub in_base : String → Option (Position F) → FindTarget F → FindTarget F
  in_base header none s = emit transform_warned s
  in_base header (some p) s = emit (target_in_base header p) s

  abbrev pub publish :
      (Position F → Option (Position F))
      → String
      → Option (Blob F × Position F)
      → FindTarget F
      → FindTarget F
  publish transform header none s = s
  publish transform header (some (blob, position)) s =
      in_base header (transform position) (emit (target_pose header position) s)

  -- An exception of `detect` leaves the callback.
  abbrev pub publish_all :
      (Position F → Option (Position F))
      → String
      → Option (Result (Option (Blob F × Position F)))
      → FindTarget F
      → Option (Result (FindTarget F))
  publish_all transform header none s = none
  publish_all transform header (some (raise e)) s = some (raise e)
  publish_all transform header (some (ok found)) s = some (ok (publish transform header found s))

module _ {F : Type 0} ⦃n : Number F⦄ (settings : TargetSettings F) where
  abbrev pub converted :
      Result Image → ImageMessage → Intrinsics F → FindTarget F → Option (Result (FindTarget F))
  converted (raise value_error) frame camera s = some (ok (warn_once s))
  converted (raise e) frame camera s = some (raise e)
  converted (ok rgb) frame camera s =
      publish_all settings.transform frame.header
        (detect numpy_quotient settings.mask_kwargs rgb camera settings.target_width) s

  abbrev pub seen_by :
      Option (Intrinsics F) → ImageMessage → FindTarget F → Option (Result (FindTarget F))
  seen_by none frame s = some (ok s)
  seen_by (some camera) frame s =
      converted (as_rgb frame.buffer frame.height frame.width frame.encoding) frame camera s

  unfoldable pub on_image : ImageMessage → FindTarget F → Option (Result (FindTarget F))
  unfolding detect as_rgb
  on_image frame s = seen_by s.intrinsics frame s
