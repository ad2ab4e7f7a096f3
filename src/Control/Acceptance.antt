-- ===== src/Control/Acceptance.antt =====
-- src/threevn_control/threevn_control/acceptance.py and run_scenario.py: running scenarios in a
-- row,
-- the report on them, and the exit codes. The scenarios of the registry are a function from names.
pub mod Verdict
mod Samples
use vn_robotics.Prelude.{
  ℕ, zero, ◌+◌, ◌-◌, ◌≡◌, Bool, true, false, not, ◌&&◌, String, Option, none, some, List, [], ◌∷◌,
  ◌++◌, all, if◌then◌else◌, length, map, drop, ◌==◌, number_eq, string_eq, contains, keep,
}
use vn_robotics.Py.Errors.{Exn, Result, ok, raise}
use vn_robotics.Py.Exec.{Exec, pure, ◌>>=◌, ◌>>◌}
use vn_robotics.Py.Json.{Number, Json, truthy}
use vn_robotics.Control.Scenario.{ScenarioResult, passed}

-- SEQUENCE
abbrev pub sequence : List String
sequence =
    "home" ∷ "move_joint" ∷ "move_to_position" ∷ "gripper" ∷ "safety_limit" ∷ "pick_and_place" ∷ []

-- What the dashboard said: nothing, or its version and state where they were truthy.
pub data Telemetry (F : Type 0) : Type 0 where
  unavailable : Telemetry F
  available : (version state : Option (Json F)) → Telemetry F

abbrev if_truthy : {F : Type 0} ⦃n : Number F⦄ → Option (Json F) → Option (Json F)
if_truthy none = none
if_truthy (some v) = if truthy v then some v else none

-- collect_telemetry, from what the two fetches returned
unfoldable pub collect_telemetry :
    {F : Type 0} ⦃n : Number F⦄ → Option (Json F) → Option (Json F) → Telemetry F
collect_telemetry none none = unavailable
collect_telemetry version state = available (if_truthy version) (if_truthy state)

pub record Report (T : Type 0) : Type 0 where
  pub pass : Bool
  pub duration : ℕ
  pub requested : List String
  pub run : List String
  pub skipped : List String
  pub results : List ScenarioResult
  pub telemetry : T

abbrev pub all_passed : List ScenarioResult → Bool
all_passed = all passed

unfoldable pub build_report : {T : Type 0} → List ScenarioResult → T → List String → ℕ → Report T
build_report results telemetry requested duration = record {
  pass = all_passed results && length results == length requested;
  duration = duration;
  requested = requested;
  run = map (λ r. r.name) results;
  skipped = drop (length results) requested;
  results = results;
  telemetry = telemetry;
}

-- args.only or SEQUENCE
abbrev pub requested_of : List String → List String
requested_of [] = sequence
requested_of (n ∷ ns) = n ∷ ns

abbrev pub is_nil {ℓ} : {A : Type ℓ} → List A → Bool
is_nil [] = true
is_nil (x ∷ xs) = false

abbrev pub unknown_of : List String → List String → List String
unknown_of registry = keep (λ n. not (contains n registry))

abbrev pub caught : {W A : Type 0} → Result A × W → (W → Result ℕ × W) → Exec W ℕ → Result ℕ × W
caught (ok a, w) handler next = next w
caught (raise e, w) handler next = handler w

module _ {W : Type 0} (scenario : String → Exec W ScenarioResult) where
  -- A scenario that did not pass is the last one that runs.
  unfoldable pub run_sequence : List String → Exec W (List ScenarioResult)
  run_sequence [] = pure []
  run_sequence (name ∷ names) = do
    result ← scenario name
    let rest = run_sequence names
    if passed result then (do results ← rest; pure (result ∷ results)) else pure (result ∷ [])

  -- The loop of run_scenario.py, which goes on after a failure, with the failures counted.
  run_each : List String → Exec W ℕ
  run_each [] = pure 0
  run_each (name ∷ names) = do
    result ← scenario name
    failures ← run_each names
    pure (if passed result then failures else failures + 1)

  -- acceptance.main, with `only` for the scenarios that --only names.
  unfoldable pub main :
      {T : Type 0} (registry only : List String) (connect : Exec W (Unit {0})) (collect : Exec W T)
      (duration : ℕ)
      → Exec W ℕ
  main registry only connect collect duration w =
      let requested = requested_of only in
      if not (is_nil (unknown_of registry requested))
      then (ok 2, w)
      else caught (connect w) (λ v. (ok 3, v))
          (do
            results ← run_sequence requested
            telemetry ← collect
            pure (if (build_report results telemetry requested duration).pass then 0 else 1))

  -- run_scenario.main, behind its --list and its usage error; `names` is what it was asked to run.
  unfoldable pub run_named : (registry names : List String) (connect : Exec W (Unit {0})) → Exec W ℕ
  unfolding run_each
  run_named registry names connect w =
      if not (is_nil (unknown_of registry names))
      then (ok 2, w)
      else caught (connect w) (λ v. (ok 3, v))
          (do failures ← run_each names; pure (if failures == 0 then 0 else 1))
