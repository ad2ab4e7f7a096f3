-- ===== src/Ml/Train/Gated.antt =====
-- A run of the training: it refuses, or its artifact passes the gates that do not look at scores.
use vn_robotics.Prelude.{◌≡◌, sym, ◌∙◌, ap, List, [], ◌∷◌, arith, if◌then◌else◌}
use mathlib.Core.Path.{subst}
use vn_robotics.Py.Errors.{ok}
use vn_robotics.Py.Json.{Number, Json, null, str, get_or, truthy, as_number}
use vn_robotics.Data.Manifest.{Problem, validate}
use vn_robotics.Data.Manifest.Usable.{IsUsable, validate-IsUsable, Result-bind}
use vn_robotics.Data.Manifest.Build.{git_description, git_description-HasCommit}
use vn_robotics.Mlops.Gates.{no_commit, provenance}
use vn_robotics.Ml.Features.{geometric_features, shape_features, intrinsics_from_manifest}
use vn_robotics.Ml.Train.{
  Scores, load_features, parts_by_episode, block, columns_of, score_all, fit_variant, predict_rows,
  refuse_zero, numbers_of,
}
use vn_robotics.Ml.Train.Artifact.{
  Run, Trained, refused, trained, results, artifact_of, dataset_entry, train_on, train_if, main,
  stats_of,
}
use vn_robotics.Ml.Train.Accepted.{
  LawfulZero, positive-truthy, ok_inj, artifact_of-validates, artifact_of-feature_contract,
  artifact_of-selected_key, artifact_of-provenance, IsAccepted, Handled, Entered,
  dataset_entry-Entered,
}

module _ {F : Type 0} ⦃n : Number F⦄ (law : LawfulZero n) (run : Run F) where
  -- The document, for a dataset that was described by a usable manifest.
  document-IsAccepted :
      (ridge base stats split d : Json F) (x y z : Scores F)
      → IsUsable run.manifest
      → Entered run.manifest d
      → IsAccepted run (
          artifact_of ridge base (results x y z) stats split d (git_description run.checkout "/ws"))
  document-IsAccepted ridge base stats split d x y z u s =
      let code = git_description run.checkout "/ws" in
      let metrics = results x y z in
      let (commit, read) = git_description-HasCommit run.checkout "/ws" in
      let same_code = ok_inj u.code s.code (sym u.code_read ∙ s.code_read) in
      let same_frames = ok_inj u.frames s.frames (sym u.frames_read ∙ s.frames_read) in
      let same_labels = ok_inj u.labels s.labels (sym u.labels_read ∙ s.labels_read) in
      let document = artifact_of ridge base metrics stats split d code in
      let accepted =
        artifact_of-provenance ridge base metrics stats split code s.world s.robot s.frames
          s.episodes s.created s.code s.labels commit u.commit (str u.source) read
          (subst (λ c. get_or "commit" null c ≡ ok u.commit) same_code u.commit_read)
          (subst (λ l. get_or "source" null l ≡ ok (str u.source)) same_labels u.source_read)
          u.commit_given
          (positive-truthy law s.frames u.frame_count
            (ap as_number (sym same_frames) ∙ u.frames_number) u.frames_positive) in
      record {
        is_valid = artifact_of-validates law ridge base stats split d code x y z;
        has_features = artifact_of-feature_contract ridge base metrics stats split d code;
        selects = artifact_of-selected_key ridge base stats split d code x y z;
        commit = commit;
        commit_read = read;
        provenance_is =
            subst
              (λ e.
                provenance (artifact_of ridge base metrics stats split e code)
                ≡ ok (if truthy commit then [] else no_commit ∷ []))
              s.entry accepted;
      }

  train_on-IsAccepted :
      (artifact : Json F)
      → IsUsable run.manifest
      → train_on run ≡ ok artifact
      → IsAccepted run artifact
  unfolding train_on
  train_on-IsAccepted a u h =
      let (camera, e₁, h₁) = Result-bind (intrinsics_from_manifest run.manifest) _ a h in
      let (numbers, e₂, h₂) = Result-bind (numbers_of camera) _ a h₁ in
      let (found, e₃, h₃) =
        Result-bind (load_features run.featurise run.cache run.file run.dataset_frames) _ a h₂ in
      let (parts, e₄, h₄) =
        Result-bind (parts_by_episode run.shuffle run.round_train run.round_val found.frames) _ a
          h₃ in
      let (columns, e₅, h₅) = Result-bind (columns_of geometric_features) _ a h₄ in
      let (baseline, e₆, h₆) =
        Result-bind
          (score_all run.numerics (predict_rows numbers run.target_width) columns found.features
            found.labels parts)
          _ a h₅ in
      let (geometry, e₇, h₇) =
        Result-bind
          (fit_variant run.numerics run.alpha geometric_features found.features found.labels parts)
          _ a h₆ in
      let (shape, e₈, h₈) =
        Result-bind
          (fit_variant run.numerics run.alpha shape_features found.features found.labels parts) _ a
          h₇ in
      let (tested, e₉, h₉) = Result-bind (refuse_zero baseline.on_test.median_mm) _ a h₈ in
      let (compared, f₁, k₁) = Result-bind (refuse_zero geometry.scores.on_test.median_mm) _ a h₉ in
      let (x, f₂, k₂) = Result-bind (block parts.train_rows shape.picked found.features) _ a k₁ in
      let (stats, f₃, k₃) = Result-bind (stats_of run.numerics x) _ a k₂ in
      let (d, f₄, k₄) = Result-bind (dataset_entry run.manifest) _ a k₃ in
      subst (IsAccepted run) (ok_inj _ a k₄) (
        document-IsAccepted _ _ _ _ d baseline geometry.scores shape.scores u
          (dataset_entry-Entered run.manifest d f₄))

  train_if-Handled :
      (problems : List (Problem F)) (o : Trained F)
      → validate run.manifest ≡ ok problems
      → train_if run problems ≡ ok o
      → Handled run o
  train_if-Handled (p ∷ ps) o v h =
      subst (Handled run) (ok_inj (refused (p ∷ ps)) o h) (v, λ e. ground (arith, e))
  train_if-Handled [] o v h =
      let (artifact, e, k) = Result-bind (train_on run) _ o h in
      subst (Handled run) (ok_inj (trained artifact) o k)
        (v, train_on-IsAccepted artifact (validate-IsUsable run.manifest v) e)

  -- A run of the training that returns has refused a manifest for the problems that the validation
  -- finds in it, or it found none, and the artifact that it writes passes the gates on structure
  -- and
  -- on the order of the features, names the model with the shape features as the selected one, and
  -- fails the gate on provenance only for a commit of the training that is missing. One equals
  -- itself, zero is at most zero, and so is what equals it.
  pub main-Handled : (o : Trained F) → main run ≡ ok o → Handled run o
  unfolding main
  main-Handled o h =
      let (problems, v, k) = Result-bind (validate run.manifest) _ o h in
      train_if-Handled problems o v k
