-- ===== src/Mlops/Serve/Balanced.antt =====
-- The counts of the serving node: the monitor sees each served frame, and two poses are published.
use vn_robotics.Prelude.{
  ℕ, suc, ◌≡◌, refl, Option, none, some, List, [], ◌∷◌, length, String, number_eq, string_eq, arith,
  inl, inr,
}
use vn_robotics.Py.Json.{Number}
use vn_robotics.Py.Errors.{Result, ok, raise}
use vn_robotics.Py.Exec.{bind_rule}
use vn_robotics.Mlops.Drift.{FeatureStats, check}
use vn_robotics.Perception.Detector.{Blob}
use vn_robotics.Perception.Detector.Correct.{largest_blob-IsReport}
use vn_robotics.Perception.Image.{Intrinsics}
use vn_robotics.Perception.Image.Sighting.{as_rgb-cases, colour_mask-ok, mask_of}
use vn_robotics.Perception.Target.{ImageMessage}
use vn_robotics.Ml.Ridge.{HasShape, ridge_predict-Placeable}
use vn_robotics.Mlops.Serve.Node.{
  predicted, geometric, image_refused, Serving, ServeSettings, default_mask, say, watching, warn_if,
  is_due, count_served, keep_camera, ServeMessage, info_heard, image_heard, fresh_serving,
  hear_message, hear_messages, and_then, finish_frame, compare_geometry, publish_prediction,
  serve_blob, serve_found, serve_seen,
}
use vn_robotics.Mlops.Serve.Counts.{
  predictions, comparisons, IsAheadBy, IsBalanced, After, Returns, say-IsAheadBy, warn_if-After,
  report_if-After, seven_features, three_features, watching_check-After,
}

module _ {F : Type 0} ⦃n : Number F⦄ (settings : ServeSettings F) where
  open settings use {model, width, report_every, sqrt}

  finish_frame-After :
      (s : Serving F)
      → IsAheadBy 1 1 1 s
      → let (r, s') = finish_frame settings s in After 0 0 0 r s'
  finish_frame-After s h =
      report_if-After (is_due report_every (suc s.frames)) (count_served s) (record {
        seen = omega (arith, h.seen);
        predicted_all = omega (arith, h.predicted_all);
        compared_all = omega (arith, h.compared_all);
        seven = h.seven;
      })

  publish_prediction-After :
      (header : String) (v : List F) (s : Serving F)
      → HasShape model
      → length v ≡ 7
      → IsAheadBy 1 0 0 s
      → let (r, s') = publish_prediction settings header v s in After 1 1 0 r s'
  publish_prediction-After header v s shape l h =
      let (x, y, z, rest, run) = ridge_predict-Placeable model v shape l in
      rw run
        (say-IsAheadBy 1 0 0 1 0 (predicted header (record { x = x; y = y; z = z })) s refl refl h)

  compare_geometry-After :
      (header : String) (blob : Blob F) (camera : Intrinsics F) (s : Serving F)
      → IsAheadBy 1 1 0 s
      → let (r, s') = compare_geometry settings header blob camera s in After 0 0 0 r s'
  compare_geometry-After header blob camera s h =
      let (v, p, features, run) = three_features sqrt blob camera width in
      rw features (
        rw run (
          finish_frame-After (say (geometric header p) s).1
            (say-IsAheadBy 1 1 0 1 1 (geometric header p) s refl refl h)))

  serve_blob-After :
      (header : String) (blob : Blob F) (camera : Intrinsics F) (s : Serving F)
      → HasShape model
      → IsBalanced s
      → let (r, s') = serve_blob settings header blob camera s in After 0 0 0 r s'
  unfolding serve_blob
  serve_blob-After header blob camera s shape h =
      let (v, features, l) = seven_features sqrt blob camera in
      rw features (
        bind_rule (After 1 0 0) (After 0 0 0) (watching (check v)) _ s
          (watching_check-After v s l h)
          (λ verdict t p.
            bind_rule (After 1 0 0) (After 0 0 0) (warn_if verdict.drifting verdict.worst_feature) _
              t (warn_if-After verdict.drifting verdict.worst_feature t p)
              (λ _ t' p'.
                bind_rule (After 1 1 0) (After 0 0 0) (publish_prediction settings header v) _ t'
                  (publish_prediction-After header v t' shape l p')
                  (λ _ t'' q. compare_geometry-After header blob camera t'' q) (λ e t'' q. q))
              (λ e t' q. q))
          (λ e t q. q))

  serve_found-Returns :
      (header : String) (camera : Intrinsics F) (s : Serving F) (found : Option (Blob F))
      → HasShape model
      → IsBalanced s
      → Returns (serve_found settings header camera s (some (ok found)))
  serve_found-Returns header camera s none shape h = h
  serve_found-Returns header camera s (some blob) shape h =
      serve_blob-After header blob camera s shape h

  serve_image-Returns :
      (frame : ImageMessage) (camera : Intrinsics F) (s : Serving F)
      → HasShape model
      → IsBalanced s
      → Returns (serve_seen settings (some camera) frame s)
  serve_image-Returns frame camera s shape h =
      elim (as_rgb-cases frame.buffer frame.height frame.width frame.encoding) [
        | inl refused ↦ rw refused (say-IsAheadBy 0 0 0 0 0 image_refused s refl refl h)
        | inr (rgb, run, depth) ↦
            let (found, fill, report) =
              largest_blob-IsReport {F = F} (mask_of default_mask rgb) 40 in
            rw run (
              rw (colour_mask-ok default_mask rgb depth (omega arith))
                (rw fill (serve_found-Returns frame.header camera s found shape h)))
      ]

  serve_seen-Returns :
      (seen : Option (Intrinsics F)) (frame : ImageMessage) (s : Serving F)
      → HasShape model
      → IsBalanced s
      → Returns (serve_seen settings seen frame s)
  serve_seen-Returns none frame s shape h = h
  serve_seen-Returns (some camera) frame s shape h = serve_image-Returns frame camera s shape h

  returned-ok :
      (result : Option (Result (Unit {0}) × Serving F))
      → Returns result
      → (s : Serving F) × (result ≡ some (ok tt, s)) × IsBalanced s
  returned-ok none r = elim r [ ]
  returned-ok (some (raise e, s)) r = elim r [ ]
  returned-ok (some (ok tt, s)) r = (s, refl, r)

  and_then-Returns :
      (result : Option (Result (Unit {0}) × Serving F))
      (k : Serving F → Option (Result (Unit {0}) × Serving F))
      → Returns result
      → ((s : Serving F) → IsBalanced s → Returns (k s))
      → Returns (and_then result k)
  and_then-Returns none k r h = r
  and_then-Returns (some (raise e, s)) k r h = r
  and_then-Returns (some (ok tt, s)) k r h = h s r

  keep_camera-IsBalanced :
      (camera : Option (Intrinsics F)) (k : ℕ → F) (s : Serving F)
      → IsBalanced s
      → IsBalanced (keep_camera camera k s)
  keep_camera-IsBalanced none k s h = record {
    seen = h.seen;
    predicted_all = h.predicted_all;
    compared_all = h.compared_all;
    seven = h.seven;
  }
  keep_camera-IsBalanced (some c) k s h = h

  hear_message-Returns :
      (message : ServeMessage F) (s : Serving F)
      → HasShape model
      → IsBalanced s
      → Returns (hear_message settings message s)
  unfolding hear_message
  hear_message-Returns (info_heard k) s shape h = keep_camera-IsBalanced s.camera k s h
  hear_message-Returns (image_heard frame) s shape h = serve_seen-Returns s.camera frame s shape h

  hear_all_from :
      (messages : List (ServeMessage F)) (s : Serving F)
      → HasShape model
      → IsBalanced s
      → Returns (hear_messages settings messages s)
  unfolding hear_messages
  hear_all_from [] s shape h = h
  hear_all_from (m ∷ ms) s shape h =
      and_then-Returns (hear_message settings m s) (hear_messages settings ms)
        (hear_message-Returns m s shape h) (λ t kept. hear_all_from ms t shape kept)

  -- A serving node whose model has weights of seven features and three coordinates, and whose
  -- artifact has the statistics of seven features, handles every sequence of images and camera
  -- infos: no callback
  -- raises and every search for a target ends. At the end as many frames are counted as the drift
  -- monitor has seen, as predictions were published and as geometric poses were published.
  pub hear_messages-IsBalanced :
      (messages : List (ServeMessage F)) (stats : List (FeatureStats F)) (z_threshold : F)
      → HasShape model
      → length stats ≡ 7
      → (s : Serving F) × (hear_messages settings messages (fresh_serving stats z_threshold)
          ≡ some (ok tt, s))
        × (s.monitor.frames ≡ s.frames)
        × (predictions s.events ≡ s.frames)
        × (comparisons s.events ≡ s.frames)
  hear_messages-IsBalanced messages stats z_threshold shape seven =
      let fresh = fresh_serving stats z_threshold in
      let start : IsBalanced fresh = record {
        seen = refl;
        predicted_all = refl;
        compared_all = refl;
        seven = seven;
      } in
      let (s, run, h) =
        returned-ok (hear_messages settings messages fresh)
          (hear_all_from messages fresh shape start) in
      (s, run, omega (arith, h.seen), omega (arith, h.predicted_all), omega (arith, h.compared_all))
