-- ===== src/Mlops/Serve/Admission.antt =====
-- What the promote command lets through, of what the training has written, does serve.
use vn_robotics.Prelude.{
  ℕ, ◌≡◌, refl, ap, sym, ◌∙◌, lookup, false, String, Option, none, some, List, [], ◌⊎◌, inl, inr,
}
use mathlib.Core.Path.{subst}
use vn_robotics.Py.Json.{Number, Json, num, arr, find, item, list_of, elements}
use vn_robotics.Py.Errors.{Result, ok, raise, file_not_found}
use vn_robotics.Data.Collect.Session.{json_list}
use vn_robotics.Ml.Train.{Matrix, Ridge, Scores}
use vn_robotics.Ml.Train.Artifact.{
  Stats, text_items, rows_json, ridge_dict, feature_stats, results, artifact_of,
}
use vn_robotics.Ml.Train.Accepted.{entry_of, artifact_of-selected_key}
use vn_robotics.Ml.Ridge.{IsWide}
use vn_robotics.Mlops.Gates.{feature_contract, item_at}
use vn_robotics.Mlops.Gates.Improvement.{check_all-nil}
use vn_robotics.Mlops.Registry.{Registry, artifact, production_version}
use vn_robotics.Mlops.Cli.{promote_command}
use vn_robotics.Mlops.Cli.Gated.{Admitted, promote_command-Admitted}
use vn_robotics.Mlops.Serve.{ServedModel, start_node, start_line, load_version, load_production}

module _ {F : Type 0} ⦃n : Number F⦄ where
  -- A document of the form that the training writes, with a weight for each feature and output.
  pub record IsWritten (document : Json F) : Type 0 where
    pub ridge : Ridge F
    pub outputs : ℕ
    pub rectangular : IsWide outputs ridge.weights
    pub baseline : Json F
    pub on_geometric : Scores F
    pub on_geometry : Scores F
    pub on_shape : Scores F
    pub names : List String
    pub stats : Stats F
    pub split : Json F
    pub world : Json F
    pub robot : Json F
    pub frames : Json F
    pub episodes : Json F
    pub created : Json F
    pub dataset_code : Json F
    pub labels : Json F
    pub code : Json F
    pub document_is :
        artifact_of
          (ridge_dict ridge)
          baseline
          (results on_geometric on_geometry on_shape)
          (feature_stats names stats)
          split
          (entry_of world robot frames episodes created dataset_code labels)
          code
        ≡ document

  start_line-ok :
      (ridge base stats split code w r f e c d l : Json F) (x y z : Scores F)
      → start_line
          (artifact_of ridge base (results x y z) stats split (entry_of w r f e c d l) code)
        ≡ ok tt
  unfolding start_line artifact_of item find item_at
  start_line-ok ridge base stats split code w r f e c d l x y z =
      rw (artifact_of-selected_key ridge base stats split (entry_of w r f e c d l) code x y z) refl

-- np.array takes a list of numbers, and a list of such lists that are equally long.
pub record TakesLists {F A : Type 0} ⦃n : Number F⦄ (array : Json F → Result A) : Type 0 where
  pub of_list : (xs : List F) → (a : A) × (array (arr (json_list xs)) ≡ ok a)
  pub of_matrix : (k : ℕ) (m : Matrix F) → IsWide k m → (a : A) × (array (arr (rows_json m)) ≡ ok a)

module _ {F A : Type 0} ⦃n : Number F⦄ (array : Json F → Result A) (takes : TakesLists array)
    (served : List String) where
  start_node-artifact :
      (version : String) (ridge : Ridge F) (k : ℕ) (base split code w r f e c d l : Json F)
      (x y z : Scores F) (names : List String) (stats : Stats F)
      → IsWide k ridge.weights
      → (loaded : ServedModel F A) × (start_node array version (
            artifact_of
              (ridge_dict ridge)
              base
              (results x y z)
              (feature_stats names stats)
              split
              (entry_of w r f e c d l)
              code)
          ≡ ok loaded)
        × (loaded.version ≡ version)
  unfolding start_node artifact_of item find list_of
  start_node-artifact version ridge k base split code w r f e c d l x y z names stats wide =
      let (weights, e₁) = takes.of_matrix k ridge.weights wide in
      let (intercept, e₂) = takes.of_list ridge.intercept in
      let (mean, e₃) = takes.of_list stats.means in
      let (std, e₄) = takes.of_list stats.stds in
      let (low, e₅) = takes.of_list stats.mins in
      let (high, e₆) = takes.of_list stats.maxs in
      let line =
        start_line-ok (ridge_dict ridge) base (feature_stats names stats) split code w r f e c d l x
          y z in
      (
        record {
          version = version;
          alpha = num ridge.alpha;
          weights = weights;
          intercept = intercept;
          names = elements (text_items names);
          mean = mean;
          std = std;
          low = low;
          high = high;
        },
        rw (e₁, e₂, e₃, e₄, e₅, e₆, line) refl,
        refl,
      )

  start_node-IsWritten :
      (version : String) (document : Json F)
      → IsWritten document
      → (loaded : ServedModel F A) × (start_node array version document ≡ ok loaded)
        × (loaded.version ≡ version)
  start_node-IsWritten version document w =
      subst
        (λ d.
          (loaded : ServedModel F A) × (start_node array version d ≡ ok loaded)
          × (loaded.version ≡ version))
        w.document_is
        (start_node-artifact version w.ridge w.outputs w.baseline w.split w.code w.world w.robot
          w.frames w.episodes w.created w.dataset_code w.labels w.on_geometric w.on_geometry
          w.on_shape w.names w.stats w.rectangular)

  load_version-ok :
      (r : Registry F) (version : String) (document : Json F)
      → artifact version r ≡ ok document
      → feature_contract document served ≡ ok []
      → load_version array served r (some version) ≡ start_node array version document
  load_version-ok r version document a f = rw (a, f) refl

  Admitted-load_production :
      (t : ℕ) (reason : String) (r s : Registry F)
      → ((version : String) (document : Json F)
          → artifact version r ≡ ok document
          → IsWritten document)
      → Admitted served t reason false r s
      → (loaded : ServedModel F A) × (load_production array served s ≡ ok loaded)
        × (production_version s ≡ some loaded.version)
  unfolding load_production artifact
  Admitted-load_production t reason r s written a =
      let (b, f, n) =
        check_all-nil a.candidate served a.incumbent none (a.checked ∙ ap ok (a.unforced refl)) in
      let same : artifact a.version s ≡ ok a.candidate =
        ap
          (λ models. elim (lookup a.version models) [
            | some m ↦ ok m
            | none ↦ raise (file_not_found a.version)
          ])
          a.same_models
        ∙ a.loaded in
      let (loaded, run, named) =
        start_node-IsWritten a.version a.candidate (written a.version a.candidate a.loaded) in
      (
        loaded,
        rw a.points (load_version-ok s a.version a.candidate same f ∙ run),
        a.points ∙ ap some (sym named),
      )

  -- Where the artifacts of the registry are documents as the training writes them, and np.array
  -- takes
  -- lists of numbers: without `force`, whatever the promote command returns or raises, it leaves
  -- the
  -- registry as it was, or a serving node of the same features gets through what it reads from the
  -- registry when it starts, and serves the version that is then in production.
  pub promote_command-load_production :
      (t : ℕ) (version : Option String) (reason : String) (r : Registry F)
      → ((v : String) (document : Json F) → artifact v r ≡ ok document → IsWritten document)
      → ((promote_command served t version reason false r).1 ≡ r)
        ⊎ ((loaded : ServedModel F A) × (load_production array served
                (promote_command served t version reason false r).1
              ≡ ok loaded)
            × (production_version (promote_command served t version reason false r).1
                ≡ some loaded.version))
  promote_command-load_production t version reason r written =
      elim (promote_command-Admitted served t version reason false r) [
        | inl same ↦ inl same
        | inr a ↦ inr (
            Admitted-load_production t reason r (promote_command served t version reason false r).1
              written a)
      ]
