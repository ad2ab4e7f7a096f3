-- ===== src/Mlops/Serve/Node.antt =====
-- src/threevn_mlops/threevn_mlops/serve.py: the callbacks of the serving node. What it publishes
-- and
-- logs is a list of events, the latest last, a throttled line at each call; the fitted model is an
-- argument, and square roots are. The gap in the report is not modelled.
mod Samples
use vn_robotics.Prelude.{
  ℕ, zero, suc, ◌%◌, Bool, true, false, not, ◌&&◌, String, Option, none, some, List, [], ◌∷◌, ◌++◌,
  ◌==◌, number_eq, if◌then◌else◌,
}
use vn_robotics.Py.Json.{Number}
use vn_robotics.Py.Errors.{Exn, Result, ok, raise, value_error, index_error}
use vn_robotics.Py.Exec.{Exec, pure, lift, gets, ◌>>=◌}
use vn_robotics.Mlops.Drift.{
  DriftMonitor, Verdict, Rates, FeatureStats, fresh_monitor, check, rates,
}
use vn_robotics.Perception.Detector.{Blob, Mask, largest_blob}
use vn_robotics.Perception.Image.{
  Image, as_rgb, MaskSettings, colour_mask, Intrinsics, intrinsics_from_camera_info, Position,
}
use vn_robotics.Perception.Target.{ImageMessage}
use vn_robotics.Ml.Train.{Ridge}
use vn_robotics.Ml.Ridge.{ridge_predict}
use vn_robotics.Ml.Features.{feature_names, geometric_features, blob_features, predict}

pub data ServeEvent (F : Type 0) : Type 0 where
  predicted geometric : (header : String) → Position F → ServeEvent F
  drift_warned : Option String → ServeEvent F
  image_refused : ServeEvent F
  summary_logged : Rates F → ServeEvent F

-- Serve, after its checks
pub record Serving (F : Type 0) : Type 0 where
  pub camera : Option (Intrinsics F)
  pub monitor : DriftMonitor F
  pub frames : ℕ
  pub events : List (ServeEvent F)

-- The model and the parameters that the node reads when it starts.
pub record ServeSettings (F : Type 0) : Type 0 where
  pub model : Ridge F
  pub width : F
  pub report_every : ℕ
  pub sqrt : F → F

-- The defaults of colour_mask.
abbrev pub default_mask : MaskSettings
default_mask = record { channel = 1; minimum = 60; dominance = 30 }

-- report_every and frames % report_every == 0
abbrev pub is_due : (report_every frames : ℕ) → Bool
is_due zero frames = false
is_due (suc k) frames = (frames % suc k) == 0

module _ {F : Type 0} where
  -- The next message, unless the callback has raised.
  abbrev pub and_then :
      Option (Result (Unit {0}) × Serving F)
      → (Serving F → Option (Result (Unit {0}) × Serving F))
      → Option (Result (Unit {0}) × Serving F)
  and_then none k = none
  and_then (some (ok done, s)) k = k s
  and_then (some (raise e, s)) k = some (raise e, s)

  abbrev pub say : ServeEvent F → Exec (Serving F) (Unit {0})
  say e s = (ok tt, record s { events = s.events ++ (e ∷ []) })

  -- A call of the monitor.
  abbrev pub watching : {A : Type 0} → Exec (DriftMonitor F) A → Exec (Serving F) A
  watching op s = let (result, monitor) = op s.monitor in (result, record s { monitor = monitor })

  abbrev pub warn_if : Bool → Option String → Exec (Serving F) (Unit {0})
  warn_if true worst = say (drift_warned worst)
  warn_if false worst = pure tt

  -- float(position[0]), and so on
  abbrev pub pose_position : List F → Result (Position F)
  pose_position (x ∷ y ∷ z ∷ rest) = ok (record { x = x; y = y; z = z })
  pose_position xs = raise index_error

  abbrev pub count_served : Serving F → Serving F
  count_served s = record s { frames = suc s.frames }

  -- _on_info: the first intrinsics are kept
  abbrev pub keep_camera : Option (Intrinsics F) → (ℕ → F) → Serving F → Serving F
  keep_camera none k s = record s { camera = some (intrinsics_from_camera_info k) }
  keep_camera (some c) k s = s

  unfoldable pub hear_info : (ℕ → F) → Serving F → Serving F
  hear_info k s = keep_camera s.camera k s

pub data ServeMessage (F : Type 0) : Type 0 where
  info_heard : (ℕ → F) → ServeMessage F
  image_heard : ImageMessage → ServeMessage F

-- The node after its checks: it has heard nothing.
abbrev pub fresh_serving : {F : Type 0} → List (FeatureStats F) → F → Serving F
fresh_serving stats z_threshold = record {
  camera = none;
  monitor = fresh_monitor stats z_threshold;
  frames = 0;
  events = [];
}

module _ {F : Type 0} ⦃n : Number F⦄ where
  abbrev pub report_if : Bool → Exec (Serving F) (Unit {0})
  report_if true s = say (summary_logged (rates s.monitor)) s
  report_if false s = (ok tt, s)

module _ {F : Type 0} ⦃n : Number F⦄ (settings : ServeSettings F) where
  open settings use {model, width, report_every, sqrt}

  abbrev pub finish_frame : Exec (Serving F) (Unit {0})
  finish_frame s = report_if (is_due report_every (suc s.frames)) (count_served s)

  abbrev pub compare_geometry :
      (header : String) → Blob F → Intrinsics F → Exec (Serving F) (Unit {0})
  compare_geometry header blob camera =
      lift (blob_features sqrt blob camera geometric_features) >>= λ vector.
      lift (predict camera width vector) >>= λ position.
      say (geometric header position) >>= λ _. finish_frame

  abbrev pub publish_prediction : (header : String) → List F → Exec (Serving F) (Unit {0})
  publish_prediction header vector = lift (ridge_predict model vector) >>= λ row.
      lift (pose_position row) >>= λ position. say (predicted header position)

  -- _on_image, once a blob is found
  unfoldable pub serve_blob :
      (header : String) → Blob F → Intrinsics F → Exec (Serving F) (Unit {0})
  unfolding check
  serve_blob header blob camera = lift (blob_features sqrt blob camera feature_names) >>= λ vector.
      watching (check vector) >>= λ verdict. warn_if verdict.drifting verdict.worst_feature >>= λ _.
      publish_prediction header vector >>= λ _. compare_geometry header blob camera

  -- Nothing, when the flood fill has not ended.
  abbrev pub serve_found :
      (header : String)
      → Intrinsics F
      → Serving F
      → Option (Result (Option (Blob F)))
      → Option (Result (Unit {0}) × Serving F)
  serve_found header camera s none = none
  serve_found header camera s (some (raise e)) = some (raise e, s)
  serve_found header camera s (some (ok none)) = some (ok tt, s)
  serve_found header camera s (some (ok (some blob))) = some (serve_blob header blob camera s)

  abbrev pub serve_mask :
      (header : String)
      → Intrinsics F
      → Serving F
      → Result Mask
      → Option (Result (Unit {0}) × Serving F)
  serve_mask header camera s (raise e) = some (raise e, s)
  serve_mask header camera s (ok mask) = serve_found header camera s (largest_blob 40 mask)

  abbrev pub serve_image :
      (header : String)
      → Intrinsics F
      → Serving F
      → Result Image
      → Option (Result (Unit {0}) × Serving F)
  serve_image header camera s (raise value_error) = some (say image_refused s)
  serve_image header camera s (raise e) = some (raise e, s)
  serve_image header camera s (ok rgb) = serve_mask header camera s (colour_mask default_mask rgb)

  abbrev pub serve_seen :
      Option (Intrinsics F) → ImageMessage → Serving F → Option (Result (Unit {0}) × Serving F)
  serve_seen none frame s = some (ok tt, s)
  serve_seen (some camera) frame s =
      serve_image frame.header camera s
        (as_rgb frame.buffer frame.height frame.width frame.encoding)

  unfoldable pub hear_image : ImageMessage → Serving F → Option (Result (Unit {0}) × Serving F)
  unfolding serve_blob
  hear_image frame s = serve_seen s.camera frame s

  unfoldable pub hear_message : ServeMessage F → Serving F → Option (Result (Unit {0}) × Serving F)
  unfolding hear_image hear_info
  hear_message (info_heard k) s = some (ok tt, hear_info k s)
  hear_message (image_heard frame) s = hear_image frame s

  -- One message after another, until a callback raises.
  unfoldable pub hear_messages :
      List (ServeMessage F) → Serving F → Option (Result (Unit {0}) × Serving F)
  hear_messages [] s = some (ok tt, s)
  hear_messages (m ∷ ms) s = and_then (hear_message m s) (hear_messages ms)
