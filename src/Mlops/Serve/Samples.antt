-- ===== src/Mlops/Serve/Samples.antt =====
-- Starting on a registry with two artifacts of the training, and on one in which nothing is
-- promoted.
use vn_robotics.Prelude.{
  ℕ, ◌≡◌, ◌⊎◌, refl, false, String, none, some, List, [], ◌∷◌, lookup, Bool-cases, inl, inr, ◌==◌,
  string_eq, arith, put, put_sorted,
}
use mathlib.Core.Path.{subst}
use vn_robotics.Py.Errors.{Result, ok, raise, type_error, file_not_found}
use vn_robotics.Py.Json.{
  Json, num, str, arr, obj, find, item, list_of, elements, empty_dict, get_or, member, truthy,
  field, end, keys, as_number, equals_one, items, entries,
}
use vn_robotics.Mlops.Gates.{
  check_all, validates, feature_contract, beats_baseline, no_regression, provenance, selected_key,
  score_at, item_at,
}
use vn_robotics.Mlops.Gates.Samples.{hundredths, names}
use vn_robotics.Mlops.Registry.{
  Registry, artifact, production_version, empty_registry, register, promote, production, summary,
}
use vn_robotics.Mlops.Registry.Runs.{registering, run, step}
use vn_robotics.Mlops.Cli.{promote_command, promote_chosen}
use vn_robotics.Ml.Features.{feature_names}
use vn_robotics.Ml.Train.{ErrorSummary, Scores, Ridge}
use vn_robotics.Ml.Train.Artifact.{Stats, ridge_dict, feature_stats, results, artifact_of}
use vn_robotics.Ml.Train.Accepted.{entry_of, ok_inj}
use vn_robotics.Mlops.Serve.{ServedModel, load_production, exit_code}
use vn_robotics.Mlops.Serve.Admission.{IsWritten, TakesLists, promote_command-load_production}

nothing_promoted :
    exit_code (load_production {A = Json ℕ} (λ v. ok v) names (empty_registry {F = ℕ})) ≡ ok 1
unfolding load_production exit_code
nothing_promoted = refl

-- A list is an array, whatever its items are.
abbrev array : Json ℕ → Result (Json ℕ)
array (arr xs) = ok (arr xs)
array v = raise type_error

takes_lists : TakesLists array
takes_lists = record { of_list = λ xs. (_, refl); of_matrix = λ k m wide. (_, refl) }

abbrev measured : ℕ → ErrorSummary ℕ
measured median = record {
  count = 1;
  median_mm = median;
  p95_mm = 2000;
  max_mm = 0;
  mae_x_mm = 0;
  mae_y_mm = 0;
  mae_z_mm = 0;
  bias_z_mm = 0;
}

abbrev scored : ℕ → Scores ℕ
scored median = record {
  on_train = measured median;
  on_val = measured median;
  on_test = measured median;
}

abbrev ridge : Ridge ℕ
ridge = record { alpha = 1; weights = (1 ∷ 2 ∷ []) ∷ (3 ∷ 4 ∷ []) ∷ []; intercept = 5 ∷ 6 ∷ [] }

abbrev stats : Stats ℕ
stats = record { means = 1 ∷ []; stds = 1 ∷ []; mins = 0 ∷ []; maxs = 2 ∷ [] }

abbrev code : Json ℕ
code = obj (field "commit" (str "a1b2") end)

abbrev document : Json ℕ
document =
    artifact_of (ridge_dict ridge) empty_dict (results (scored 4000) (scored 2000) (scored 1000))
      (feature_stats feature_names stats) empty_dict
      (entry_of (str "w") (str "r") (num 300) (num 100) (str "today") code
        (obj (field "source" (str "simulation_ground_truth") end)))
      code

document-IsWritten : IsWritten document
document-IsWritten = record {
  ridge = ridge;
  outputs = 2;
  rectangular = (refl, (refl, tt));
  baseline = empty_dict;
  on_geometric = scored 4000;
  on_geometry = scored 2000;
  on_shape = scored 1000;
  names = feature_names;
  stats = stats;
  split = empty_dict;
  world = str "w";
  robot = str "r";
  frames = num 300;
  episodes = num 100;
  created = str "today";
  dataset_code = code;
  labels = obj (field "source" (str "simulation_ground_truth") end);
  code = code;
  document_is = refl;
}

-- Registered, but not promoted.
abbrev state : Registry ℕ
state = run (λ d. "aaaa") (registering 1 2 "first" document ∷ []) empty_registry

abbrev after : Registry ℕ
after = (promote_command feature_names 3 (some "aaaa") "" false state).1

promoted_test : production_version after ≡ some "aaaa"
unfolding run step register promote_command promote_chosen promote check_all validates
    feature_contract beats_baseline no_regression provenance selected_key score_at item_at artifact
    production lookup put put_sorted find item keys elements get_or member truthy list_of as_number
    equals_one items entries artifact_of summary
promoted_test = refl

models_are : state.models ≡ ("aaaa", document) ∷ []
unfolding run step register lookup put_sorted put summary get_or artifact_of find selected_key
    truthy member item item_at
models_are = refl

-- What `artifact` reads of the model files.
abbrev model_in : String → List (String × Json ℕ) → Result (Json ℕ)
model_in v models = elim (lookup v models) [ some m ↦ ok m | none ↦ raise (file_not_found v) ]

only_document :
    (v : String) (d : Json ℕ) → model_in v (("aaaa", document) ∷ []) ≡ ok d → document ≡ d
unfolding lookup
only_document v d h = elim (Bool-cases ("aaaa" == v)) [
  | inl e ↦ ok_inj document d (rw (e, model_in) at h)
  | inr e ↦ absurd (ground (arith, e, h))
]

state-IsWritten : (v : String) (d : Json ℕ) → artifact v state ≡ ok d → IsWritten d
unfolding artifact
state-IsWritten v d h =
    subst IsWritten (only_document v d (subst (λ models. model_in v models ≡ ok d) models_are h))
      document-IsWritten

promote_command-load_production_example :
    (after ≡ state)
    ⊎ ((loaded : ServedModel ℕ (Json ℕ)) × (load_production array feature_names after ≡ ok loaded)
        × (production_version after ≡ some loaded.version))
promote_command-load_production_example =
    promote_command-load_production array takes_lists feature_names 3 (some "aaaa") "" state
      state-IsWritten
