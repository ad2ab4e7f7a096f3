-- ===== src/Ml/Train/Artifact.antt =====
-- src/threevn_ml/threevn_ml/train.py, `main`: the run, and the artifact that it writes.
use vn_robotics.Prelude.{ℕ, Bool, String, Option, List, [], ◌∷◌, length}
use vn_robotics.Py.Errors.{Result, ok, ◌>>=◌}
use vn_robotics.Py.Json.{Number, Json, Items, num, str, arr, obj, nil, cons, end, field, item}
use vn_robotics.Data.Dataset.{Frame}
use vn_robotics.Data.Manifest.{Problem, validate}
use vn_robotics.Data.Manifest.Build.{Checkout, git_description}
use vn_robotics.Data.Collect.Session.{json_list}
use vn_robotics.Perception.Image.{Intrinsics}
use vn_robotics.Ml.Features.{geometric_features, shape_features, intrinsics_from_manifest}
use vn_robotics.Ml.Train.{
  Matrix, ErrorSummary, Ridge, Numerics, Stored, Parts, Scores, load_features, parts_by_episode,
  block, columns_of, score_all, fit_variant, predict_rows, refuse_zero, numbers_of,
}

-- What a run is given: the manifest, the frames of the dataset, and what numpy, PIL, the random
-- generator and git do. The arguments come parsed.
pub record Run (F : Type 0) : Type 0 where
  pub manifest : Json F
  pub dataset_frames : List (Frame F)
  pub alpha : F
  pub target_width : F
  pub seed : ℕ
  pub cache : Bool
  pub file : Option (Stored F)
  pub numerics : Numerics F
  pub featurise : Frame F → Result (Option (List F))
  pub shuffle : List ℕ → List ℕ
  pub round_train : ℕ → ℕ
  pub round_val : ℕ → ℕ
  pub checkout : Checkout

pub data Trained (F : Type 0) : Type 0 where
  -- exit code 1
  refused : List (Problem F) → Trained F
  -- exit code 0, with the artifact that is written
  trained : Json F → Trained F

-- The statistics of the columns that the saved model uses, in the training part.
pub record Stats (F : Type 0) : Type 0 where
  pub means : List F
  pub stds : List F
  pub mins : List F
  pub maxs : List F

module _ {F : Type 0} where
  abbrev pub text_items : List String → Items F
  text_items [] = nil
  text_items (s ∷ ss) = cons (str s) (text_items ss)

  abbrev pub rows_json : Matrix F → Items F
  rows_json [] = nil
  rows_json (r ∷ rs) = cons (arr (json_list r)) (rows_json rs)

  -- Ridge.to_dict
  abbrev pub ridge_dict : Ridge F → Json F
  ridge_dict r = obj (
      field "kind" (str "ridge") (
        field "alpha" (num r.alpha) (
          field "weights" (arr (rows_json r.weights))
            (field "intercept" (arr (json_list r.intercept)) end))))

  -- Geometric.to_dict
  abbrev pub geometric_dict : F → Intrinsics (Json F) → Json F
  geometric_dict target_width camera = obj (
      field "kind" (str "geometric") (
        field "target_width" (num target_width) (
          field "fx" camera.fx
            (field "fy" camera.fy (field "cx" camera.cx (field "cy" camera.cy end))))))

  abbrev pub feature_stats : List String → Stats F → Json F
  feature_stats names s = obj (
      field "names" (arr (text_items names)) (
        field "mean" (arr (json_list s.means)) (
          field "std" (arr (json_list s.stds))
            (field "min" (arr (json_list s.mins)) (field "max" (arr (json_list s.maxs)) end)))))

module _ {F : Type 0} ⦃n : Number F⦄ where
  -- The dict that `errors` returns.
  abbrev pub summary_dict : ErrorSummary F → Json F
  summary_dict s = obj (
      field "n" (num (n.literal s.count 0)) (
        field "median_mm" (num s.median_mm) (
          field "p95_mm" (num s.p95_mm) (
            field "max_mm" (num s.max_mm) (
              field "mae_x_mm" (num s.mae_x_mm) (
                field "mae_y_mm" (num s.mae_y_mm) (
                  field "mae_z_mm" (num s.mae_z_mm) (field "bias_z_mm" (num s.bias_z_mm) end))))))))

  abbrev pub scores_dict : Scores F → Json F
  scores_dict s = obj (
      field "train" (summary_dict s.on_train)
        (field "val" (summary_dict s.on_val) (field "test" (summary_dict s.on_test) end)))

  -- results
  abbrev pub results : (baseline geometry shape : Scores F) → Json F
  results baseline geometry shape = obj (
      field "geometric" (scores_dict baseline) (
        field "ridge geometry" (scores_dict geometry)
          (field "ridge + shape" (scores_dict shape) end)))

  abbrev pub split_dict : ℕ → Parts → Json F
  split_dict seed parts = obj (
      field "kind" (str "episode") (
        field "seed" (num (n.literal seed 0)) (
          field "train" (num (n.literal (length parts.train_rows) 0)) (
            field "val" (num (n.literal (length parts.val_rows) 0))
              (field "test" (num (n.literal (length parts.test_rows) 0)) end)))))

  -- The entry that identifies the dataset, from its manifest.
  unfoldable pub dataset_entry : Json F → Result (Json F)
  dataset_entry doc = do
    world ← item "world" doc
    robot ← item "robot" doc
    frames ← item "frames" doc
    episodes ← item "episodes" doc
    created ← item "created" doc
    code ← item "code" doc
    labels ← item "labels" doc
    ok (
        obj (
          field "world" world (
            field "robot" robot (
              field "frames" frames (
                field "episodes" episodes
                  (field "recorded" created (field "code" code (field "labels" labels end))))))))

  unfoldable pub artifact_of :
      (ridge baseline_dict metrics stats split dataset code : Json F) → Json F
  artifact_of ridge baseline_dict metrics stats split dataset code = obj (
      field "schema_version" (num (n.literal 1 0)) (
        field "model" ridge (
          field "selected" (str "ridge + shape") (
            field "ablation"
              (obj (
                field "geometry" (arr (text_items geometric_features))
                  (field "+ shape" (arr (text_items shape_features)) end)))
              (field "baseline" baseline_dict (
                field "features" (arr (text_items shape_features)) (
                  field "metrics" metrics (
                    field "feature_stats" stats (
                      field "split" split (field "dataset" dataset (field "code" code end)))))))))))

  abbrev pub stats_of : Numerics F → Matrix F → Result (Stats F)
  stats_of numerics x = do
    means ← numerics.mean x
    stds ← numerics.std x
    mins ← numerics.minimum x
    maxs ← numerics.maximum x
    ok (record { means = means; stds = stds; mins = mins; maxs = maxs })

module _ {F : Type 0} ⦃n : Number F⦄ (run : Run F) where
  open run use {manifest, numerics, alpha, target_width}

  unfoldable pub train_on : Result (Json F)
  unfolding artifact_of dataset_entry
  train_on = do
    camera ← intrinsics_from_manifest manifest
    numbers ← numbers_of camera
    found ← load_features run.featurise run.cache run.file run.dataset_frames
    parts ← parts_by_episode run.shuffle run.round_train run.round_val found.frames
    columns ← columns_of geometric_features
    baseline ←
        score_all numerics (predict_rows numbers target_width) columns found.features found.labels
          parts
    geometry ← fit_variant numerics alpha geometric_features found.features found.labels parts
    shape ← fit_variant numerics alpha shape_features found.features found.labels parts
    tested ← refuse_zero baseline.on_test.median_mm
    compared ← refuse_zero geometry.scores.on_test.median_mm
    x ← block parts.train_rows shape.picked found.features
    stats ← stats_of numerics x
    dataset ← dataset_entry manifest
    ok (
        artifact_of (ridge_dict shape.ridge) (geometric_dict target_width camera)
          (results baseline geometry.scores shape.scores) (feature_stats shape_features stats)
          (split_dict run.seed parts) dataset (git_description run.checkout "/ws"))

  abbrev pub train_if : List (Problem F) → Result (Trained F)
  train_if (p ∷ ps) = ok (refused (p ∷ ps))
  train_if [] = do artifact ← train_on; ok (trained artifact)

  unfoldable pub main : Result (Trained F)
  unfolding train_on
  main = do problems ← validate manifest; train_if problems
