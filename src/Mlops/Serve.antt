-- ===== src/Mlops/Serve.antt =====
-- src/threevn_mlops/threevn_mlops/serve.py: what the serving node demands before it starts, and its
-- exit code. The names of the features are an argument, and so is
-- np.array(value, dtype=np.float64).
pub mod Admission
pub mod Node
pub mod Counts
pub mod Balanced
mod Samples
use vn_robotics.Prelude.{ℕ, String, Option, none, some, List, [], ◌∷◌}
use vn_robotics.Py.Json.{Number, Json, num, bool, str, obj, item, list_of}
use vn_robotics.Py.Errors.{
  Exn, Result, ok, raise, key_error, value_error, type_error, runtime_error, ◌>>=◌,
}
use vn_robotics.Mlops.Gates.{Reason, feature_contract, selected_key, item_at}
use vn_robotics.Mlops.Registry.{Registry, artifact, production_version}

-- What the node keeps of the artifact: the model and the statistics of its drift monitor. A stands
-- for the arrays of numpy.
pub record ServedModel (F A : Type 0) : Type 0 where
  pub version : String
  pub alpha : Json F
  pub weights : A
  pub intercept : A
  pub names : List (Json F)
  pub mean : A
  pub std : A
  pub low : A
  pub high : A

module _ {F : Type 0} where
  -- f'{value:.1f}'
  abbrev pub shown : Json F → Result (Unit {0})
  shown (num x) = ok tt
  shown (bool b) = ok tt
  shown (str s) = raise value_error
  shown v = raise type_error

  -- metrics[selected_key(artifact)], where the key may be None
  abbrev pub entry_at : Option (Json F) → Json F → Result (Json F)
  entry_at (some key) metrics = item_at key metrics
  entry_at none (obj fs) = raise (key_error "None")
  entry_at none metrics = raise type_error

module _ {F : Type 0} ⦃n : Number F⦄ where
  -- What the line in the log at the start reads of the artifact.
  unfoldable pub start_line : Json F → Result (Unit {0})
  start_line model = do
    metrics ← item "metrics" model
    key ← selected_key model
    entry ← entry_at key metrics
    test ← item "test" entry
    median ← item "median_mm" test
    shown_median ← shown median
    p95 ← item "p95_mm" test
    shown_p95 ← shown p95
    dataset ← item "dataset" model
    frames ← item "frames" dataset
    ok tt

module _ {F A : Type 0} ⦃n : Number F⦄ (array : Json F → Result A) where
  -- Ridge.from_dict, DriftMonitor and the line in the log.
  unfoldable pub start_node : String → Json F → Result (ServedModel F A)
  unfolding start_line
  start_node version model = do
    doc ← item "model" model
    alpha ← item "alpha" doc
    rows ← item "weights" doc
    weights ← array rows
    row ← item "intercept" doc
    intercept ← array row
    stats ← item "feature_stats" model
    texts ← item "names" stats
    names ← list_of texts
    means ← item "mean" stats
    mean ← array means
    stds ← item "std" stats
    std ← array stds
    mins ← item "min" stats
    low ← array mins
    maxs ← item "max" stats
    high ← array maxs
    line ← start_line model
    ok (record {
      version = version;
      alpha = alpha;
      weights = weights;
      intercept = intercept;
      names = names;
      mean = mean;
      std = std;
      low = low;
      high = high;
    })

-- if problems: raise RuntimeError
abbrev pub refuse_problems : {F : Type 0} → List (Reason F) → Result (Unit {0})
refuse_problems [] = ok tt
refuse_problems (p ∷ ps) = raise runtime_error

module _ {F A : Type 0} ⦃n : Number F⦄ (array : Json F → Result A) (served : List String) where
  abbrev pub load_version : Registry F → Option String → Result (ServedModel F A)
  load_version r none = raise runtime_error
  load_version r (some version) = do
    model ← artifact version r
    problems ← feature_contract model served
    passed ← refuse_problems problems
    start_node array version model

  -- Serve.__init__, of what it reads from the registry.
  unfoldable pub load_production : Registry F → Result (ServedModel F A)
  unfolding start_node
  load_production r = load_version r (production_version r)

-- 1 where the node refuses to serve, 0 after it has spun
unfoldable pub exit_code : {A : Type 0} → Result A → Result ℕ
exit_code (ok node) = ok 0
exit_code (raise runtime_error) = ok 1
exit_code (raise e) = raise e
