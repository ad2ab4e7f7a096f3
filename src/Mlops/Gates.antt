-- ===== src/Mlops/Gates.antt =====
-- src/threevn_mlops/threevn_mlops/gates.py, over the values that `json.loads` makes.
--
-- A reason is a value in place of the sentence that the code builds. Two shapes that no trainer
-- writes are read as TypeError: a list as `metrics`, where a lookup or a `selected` of another kind
-- than text would search or index the list; and texts or lists as scores, which Python would
-- compare before the message fails to format.
pub mod Names
pub mod Improvement
pub mod Contract
pub mod Raising
pub mod Samples
use vn_robotics.Prelude.{
  ℕ, ◌≡◌, Bool, true, false, not, String, Option, none, some, List, [], ◌∷◌, ◌++◌, if◌then◌else◌,
  ◌==◌, string_eq, keep, map,
}
use vn_robotics.Py.Errors.{Result, ok, raise, ◌>>=◌, type_error, attribute_error, key_error}
use vn_robotics.Py.Json.{
  Number, Json, null, bool, num, str, arr, obj, member, item, get_or, items, truthy, as_number,
  equals_one, list_of, empty_dict, find,
}
use Names.{equals_names, sorts_agree}

pub data Split : Type 0 where
  train test : Split

abbrev pub split_name : Split → String
split_name train = "train"
split_name test = "test"

pub data Reason (F : Type 0) : Type 0 where
  missing_keys : List String → Reason F
  bad_schema no_features : Reason F
  no_split no_median : String → Split → Reason F
  no_selection no_baseline cannot_compare : Reason F
  not_better : (model baseline : F) → Reason F
  regressed : (new old : F) → Reason F
  order_differs feature_mismatch : Reason F
  no_commit no_dataset_commit no_frames : Reason F

abbrev pub required_keys : List String
required_keys =
    "schema_version" ∷ "model" ∷ "selected" ∷ "features" ∷ "metrics" ∷ "dataset" ∷ "code"
    ∷ "feature_stats" ∷ []

pub data Gate : Type 0 where
  gate_validates gate_provenance gate_feature_contract gate_beats_baseline gate_no_regression : Gate

module _ {F : Type 0} where
  -- [key for key in ks if key not in artifact]
  absent : Json F → List String → Result (List String)
  absent a [] = ok []
  absent a (k ∷ ks) = do here ← member k a; rest ← absent a ks; ok (if here then rest else k ∷ rest)

  -- The body of the inner loop of `validates`.
  entry_problems : Split → String × Json F → Result (List (Reason F))
  entry_problems split (name, metrics) = do
    recorded ← member (split_name split) metrics
    if not recorded then ok (no_split name split ∷ []) else (do
      part ← item (split_name split) metrics
      scored ← member "median_mm" part
      ok (if scored then [] else no_median name split ∷ []))

  split_problems : Split → List (String × Json F) → Result (List (Reason F))
  split_problems split [] = ok []
  split_problems split (e ∷ es) = do
    first ← entry_problems split e
    rest ← split_problems split es
    ok (first ++ rest)

  abbrev is_geometric : Json F → Bool
  is_geometric (str s) = s == "geometric"
  is_geometric _ = false

  abbrev sole : List (Json F) → Option (Json F)
  sole (k ∷ []) = some k
  sole _ = none

  -- The only key but 'geometric', if there is just one.
  only_key : Json F → Result (Option (Json F))
  only_key metrics = do ks ← list_of metrics; ok (sole (keep (λ k. not (is_geometric k)) ks))

  -- selected in metrics
  member_of : Json F → Json F → Result Bool
  member_of (str s) m = member s m
  member_of (arr xs) m = raise type_error
  member_of (obj fs) m = raise type_error
  member_of k (obj fs) = ok false
  member_of k m = raise type_error

  -- metrics[key]
  unfoldable pub item_at : Json F → Json F → Result (Json F)
  item_at (str k) m = item k m
  item_at k m = raise type_error

  -- artifact['metrics'][key]['test']['median_mm']
  unfoldable pub score_at : Json F → Json F → Result (Json F)
  unfolding item_at
  score_at artifact key = do
    metrics ← item "metrics" artifact
    entry ← item_at key metrics
    part ← item "test" entry
    item "median_mm" part

  unfoldable pub feature_contract : Json F → List String → Result (List (Reason F))
  unfolding equals_names sorts_agree
  feature_contract artifact served = do
    features ← item "features" artifact
    recorded ← list_of features
    if equals_names recorded served then ok [] else (do
      same ← sorts_agree recorded served
      ok ((if same then order_differs else feature_mismatch) ∷ []))

module _ {F : Type 0} ⦃n : Number F⦄ where
  selected_in : Json F → Json F → Result (Option (Json F))
  unfolding member_of only_key
  selected_in selected metrics =
      if truthy selected
      then (do
        found ← member_of selected metrics
        if found then ok (some selected) else only_key metrics)
      else only_key metrics

  -- The argument is the artifact, or its metrics.
  unfoldable pub selected_key : Json F → Result (Option (Json F))
  unfolding selected_in only_key
  selected_key (obj fs) = elim (find "metrics" fs) [
    | some metrics ↦ do selected ← get_or "selected" null (obj fs); selected_in selected metrics
    | none ↦ only_key (obj fs)
  ]
  selected_key v = only_key v

  unfoldable pub validates : Json F → Result (List (Reason F))
  unfolding absent split_problems entry_problems
  validates artifact = do
    missing ← absent artifact required_keys
    elim missing [
      | k ∷ ks ↦ ok (missing_keys (k ∷ ks) ∷ [])
      | [] ↦ do
        version ← item "schema_version" artifact
        metrics ← item "metrics" artifact
        es ← items metrics
        fitted ← split_problems train es
        tested ← split_problems test es
        features ← item "features" artifact
        ok (
            (if equals_one version then [] else bad_schema ∷ [])
            ++ (fitted ++ (tested ++ (if truthy features then [] else no_features ∷ []))))
    ]

  unfoldable pub beats_baseline : Json F → Result (List (Reason F))
  beats_baseline artifact = do
    metrics ← item "metrics" artifact
    key ← selected_key artifact
    elim key [
      | none ↦ ok (no_selection ∷ [])
      | some k ↦ do
        based ← member "geometric" metrics
        if not based then ok (no_baseline ∷ []) else (do
          model ← score_at artifact k
          baseline ← score_at artifact (str "geometric")
          m ← as_number model
          b ← as_number baseline
          ok (if n.le b m then not_better m b ∷ [] else []))
    ]

  unfoldable pub no_regression : Json F → Option (Json F) → F → Result (List (Reason F))
  no_regression artifact none tolerance = ok []
  no_regression artifact (some incumbent) tolerance = do
    new ← selected_key artifact
    old ← selected_key incumbent
    elim new [
      | none ↦ ok (cannot_compare ∷ [])
      | some k ↦ elim old [
        | none ↦ ok (cannot_compare ∷ [])
        | some j ↦ do
          new_score ← score_at artifact k
          old_score ← score_at incumbent j
          o ← as_number old_score
          w ← as_number new_score
          ok (if n.lt (n.mul o tolerance) w then regressed w o ∷ [] else [])
      ]
    ]

  unfoldable pub provenance : Json F → Result (List (Reason F))
  provenance artifact = do
    code ← get_or "code" empty_dict artifact
    commit ← get_or "commit" null code
    dataset ← get_or "dataset" empty_dict artifact
    dataset_code ← get_or "code" empty_dict dataset
    dataset_commit ← get_or "commit" null dataset_code
    frames ← get_or "frames" null dataset
    labels ← get_or "labels" empty_dict dataset
    source ← get_or "source" null labels
    ok (
        (if truthy commit then [] else no_commit ∷ [])
        ++ ((if truthy dataset_commit then [] else no_dataset_commit ∷ [])
            ++ (if truthy frames then [] else no_frames ∷ [])))

  abbrev pub regression_tolerance : F
  regression_tolerance = n.literal 105 2

  abbrev get_tolerance : Option F → F
  get_tolerance (some t) = t
  get_tolerance none = regression_tolerance

  abbrev failing : Gate → List (Reason F) → List (Gate × List (Reason F))
  failing gate [] = []
  failing gate reasons = (gate, reasons) ∷ []

  -- The failing gates with their reasons, in the order in which the gates stand in the code.
  unfoldable pub check_all :
      Json F → List String → Option (Json F) → Option F → Result (List (Gate × List (Reason F)))
  check_all artifact served incumbent tolerance = do
    v ← validates artifact
    p ← provenance artifact
    f ← feature_contract artifact served
    b ← beats_baseline artifact
    r ← no_regression artifact incumbent (get_tolerance tolerance)
    ok (
        failing gate_validates v
        ++ (failing gate_provenance p
            ++ (failing gate_feature_contract f
                ++ (failing gate_beats_baseline b ++ failing gate_no_regression r))))
