-- ===== src/Ml/Train/Samples.antt =====
-- A run of the training on three episodes of one frame each, with numerics that return constants.
use vn_robotics.Prelude.{
  ℕ, ◌≡◌, refl, true, none, some, [], ◌∷◌, arith, ◌==◌, string_eq, if◌then◌else◌,
}
use vn_robotics.Py.Errors.{Result, ok}
use vn_robotics.Py.Json.{Json, member, find, item, get_or, truthy, as_number, equals_one}
use vn_robotics.Mlops.Gates.Samples.{hundredths}
use vn_robotics.Data.Dataset.{Frame, split_by_episode, episodes, deal, assigned}
use vn_robotics.Data.Manifest.{validate, lacking_keys, problems_of}
use vn_robotics.Data.Manifest.Samples.{good}
use vn_robotics.Data.Collect.Session.{element}
use vn_robotics.Ml.Features.{intrinsics_from_manifest, predict}
use vn_robotics.Ml.Train.{
  Numerics, ErrorSummary, load_features, parts_by_episode, rows_at, block, columns_of, score_all,
  fit_variant, predict_rows, numbers_of,
}
use vn_robotics.Ml.Train.Artifact.{Run, Trained, trained, main, train_on}
use vn_robotics.Ml.Train.Accepted.{LawfulZero, Handled}
use vn_robotics.Ml.Train.Gated.{main-Handled}

abbrev summary : ErrorSummary ℕ
summary = record {
  count = 1;
  median_mm = 1050;
  p95_mm = 0;
  max_mm = 0;
  mae_x_mm = 0;
  mae_y_mm = 0;
  mae_z_mm = 0;
  bias_z_mm = 0;
}

abbrev numerics : Numerics ℕ
numerics = record {
  solve = λ alpha x y. ok ((1 ∷ []) ∷ [], 2 ∷ []);
  apply = λ ridge x. ok x;
  measure = λ predicted actual. ok summary;
  mean = λ x. ok (1 ∷ []);
  std = λ x. ok (1 ∷ []);
  minimum = λ x. ok (1 ∷ []);
  maximum = λ x. ok (1 ∷ []);
}

abbrev frame : ℕ → Frame ℕ
frame e = record { image = "i"; episode = e; index = 0; label = 1 ∷ 2 ∷ 3 ∷ []; stamp = e }

abbrev run : Run ℕ
run = record {
  manifest = good;
  dataset_frames = frame 0 ∷ frame 1 ∷ frame 2 ∷ [];
  alpha = 1;
  target_width = 5;
  seed = 0;
  cache = true;
  file = none;
  numerics = numerics;
  featurise = λ f. ok (some (1 ∷ 2 ∷ 3 ∷ 4 ∷ 5 ∷ 6 ∷ 7 ∷ []));
  shuffle = λ ids. ids;
  round_train = λ k. 2;
  round_val = λ k. 1;
  checkout = record {
    environ = λ v. if v == "THREEVN_GIT_COMMIT" then some "a1b2" else none;
    git = λ words. none;
  };
}

lawful_zero : LawfulZero hundredths
lawful_zero = record { one_same = refl; zero_le = refl; equal_le = λ x h. ground arith }

-- The artifact that this run writes.
artifact_in : Result (Trained ℕ) → Json ℕ
artifact_in (ok (trained a)) = a
artifact_in r = good

abbrev artifact : Json ℕ
artifact = artifact_in (main run)

run_returns : main run ≡ ok (trained artifact)
unfolding main train_on artifact_in validate lacking_keys problems_of member find item get_or truthy
    as_number equals_one intrinsics_from_manifest numbers_of load_features parts_by_episode
    split_by_episode episodes deal assigned columns_of score_all fit_variant predict_rows predict
    block rows_at element
run_returns = refl

main-Handled_example : Handled run (trained artifact)
main-Handled_example = main-Handled lawful_zero run (trained artifact) run_returns
