-- ===== src/Mlops/Serve/Node/Samples.antt =====
-- The serving node on a green square of 49 pixels, after the camera is known.
use vn_robotics.Prelude.{ℕ, zero, suc, ◌≡◌, refl, Option, none, some, List, [], ◌∷◌, length, lookup}
use vn_robotics.Py.Errors.{Result, ok, raise, value_error}
use vn_robotics.Mlops.Gates.Samples.{hundredths}
use vn_robotics.Mlops.Drift.{
  FeatureStats, check, verdict_of, z_scores, outside, greatest_z, worst_from, rates,
}
use vn_robotics.Perception.Flood.{push_all, flood, scan}
use vn_robotics.Perception.Detector.{nonzero, extent, blob_of, largest_blob}
use vn_robotics.Perception.Image.{as_rgb, colour_mask}
use vn_robotics.Ml.Train.{Ridge}
use vn_robotics.Ml.Ridge.{HasShape, dot_rows, ridge_predict}
use vn_robotics.Ml.Features.{select, blob_features, predict}
use vn_robotics.Perception.Target.{ImageMessage}
use vn_robotics.Mlops.Serve.Node.{
  Serving, ServeSettings, ServeMessage, info_heard, image_heard, fresh_serving, hear_messages,
  hear_message, hear_image, hear_info, serve_blob,
}
use vn_robotics.Mlops.Serve.Counts.{predictions, comparisons}
use vn_robotics.Mlops.Serve.Balanced.{hear_messages-IsBalanced}

-- Every coordinate is half of the sum of the features, and a little more.
abbrev halves : Ridge ℕ
halves = record {
  alpha = 0;
  weights =
      (50 ∷ 50 ∷ 50 ∷ [])
      ∷ (50 ∷ 50 ∷ 50 ∷ [])
      ∷ (50 ∷ 50 ∷ 50 ∷ [])
      ∷ (50 ∷ 50 ∷ 50 ∷ [])
      ∷ (50 ∷ 50 ∷ 50 ∷ [])
      ∷ (50 ∷ 50 ∷ 50 ∷ [])
      ∷ (50 ∷ 50 ∷ 50 ∷ [])
      ∷ [];
  intercept = 10 ∷ 20 ∷ 30 ∷ [];
}

halves-HasShape : HasShape halves
halves-HasShape = record {
  seven_rows = refl;
  three_columns = (refl, (refl, (refl, (refl, (refl, (refl, (refl, tt)))))));
  three_intercepts = refl;
}

-- 1 + 2 + 3 + 4 + 5 + 6 + 7, halved; and a feature too few.
ridge_predict_test :
    ridge_predict halves (100 ∷ 200 ∷ 300 ∷ 400 ∷ 500 ∷ 600 ∷ 700 ∷ [])
    ≡ ok (1410 ∷ 1420 ∷ 1430 ∷ [])
unfolding ridge_predict dot_rows
ridge_predict_test = refl

too_few : ridge_predict halves (100 ∷ 200 ∷ 300 ∷ 400 ∷ 500 ∷ 600 ∷ []) ≡ raise value_error
unfolding ridge_predict dot_rows
too_few = refl

abbrev node_settings : ServeSettings ℕ
node_settings = record { model = halves; width = 5; report_every = 1; sqrt = λ x. x }

abbrev one_feature : FeatureStats ℕ
one_feature = record { name = "1/w"; mean = 100; std = 50; low = 0; high = 1000 }

abbrev seven_stats : List (FeatureStats ℕ)
seven_stats =
    one_feature ∷ one_feature ∷ one_feature ∷ one_feature ∷ one_feature ∷ one_feature ∷ one_feature
    ∷ []

abbrev green_pixels : ℕ → List ℕ
green_pixels zero = []
green_pixels (suc k) = 0 ∷ 200 ∷ 0 ∷ green_pixels k

abbrev green_square : ImageMessage
green_square = record {
  header = "camera";
  height = 7;
  width = 7;
  encoding = "rgb8";
  buffer = green_pixels 49;
}

-- An image before the camera is known, the camera, a target, and an image in an unknown encoding.
abbrev heard : List (ServeMessage ℕ)
heard =
    image_heard green_square
    ∷ info_heard (λ i. 500)
    ∷ image_heard green_square
    ∷ image_heard (record green_square { encoding = "mono8" })
    ∷ []

-- One frame is served, with a warning, two poses and a summary; the refused image leaves a line.
abbrev served_count : Option (Result (Unit {0}) × Serving ℕ) → List ℕ
served_count none = []
served_count (some (r, s)) =
    s.frames ∷ s.monitor.frames ∷ predictions s.events ∷ comparisons s.events ∷ length s.events ∷ []

hear_messages_test :
    served_count (hear_messages node_settings heard (fresh_serving seven_stats 400))
    ≡ 1 ∷ 1 ∷ 1 ∷ 1 ∷ 5 ∷ []
unfolding hear_messages hear_message hear_image hear_info serve_blob check verdict_of z_scores
    outside greatest_z worst_from ridge_predict blob_features select lookup predict largest_blob
    nonzero scan flood push_all blob_of extent as_rgb colour_mask rates
hear_messages_test = refl

hear_messages-IsBalanced_example :
    (s : Serving ℕ) × (hear_messages node_settings heard (fresh_serving seven_stats 400)
      ≡ some (ok tt, s))
    × (s.monitor.frames ≡ s.frames)
    × (predictions s.events ≡ s.frames)
    × (comparisons s.events ≡ s.frames)
hear_messages-IsBalanced_example =
    hear_messages-IsBalanced node_settings heard seven_stats 400 halves-HasShape refl
