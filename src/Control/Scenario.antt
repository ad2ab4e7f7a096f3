-- ===== src/Control/Scenario.antt =====
-- src/threevn_control/threevn_control/scenarios/base.py.
--
-- A step's action and check are methods of the world, which is the robot and all that it touches.
-- Spinning the node while the robot settles, and the clock, belong to rclpy and the system: they
-- are
-- the interface `Node`. Times are milliseconds.
pub mod Steps
mod Samples
use vn_robotics.Prelude.{
  ℕ, zero, ◌+◌, ◌-◌, ◌≡◌, Bool, true, false, not, ◌&&◌, String, Option, none, some, List, [], ◌∷◌,
  ◌++◌, all, if◌then◌else◌, length, map,
}
use vn_robotics.Py.Errors.{Exn, Result, ok, raise, scenario_failed}
use vn_robotics.Py.Exec.{Exec, pure, ◌>>=◌, ◌>>◌}

pub record Node (W : Type 0) : Type 0 where
  -- time.monotonic
  pub now : W → ℕ
  -- spin_once until so much time has passed
  pub settle : ℕ → Exec W Unit

-- Why a step failed.
pub data Detail : Type 0 where
  empty not_met : Detail
  failed : Exn → Detail

pub record StepResult : Type 0 where
  pub name : String
  pub passed : Bool
  pub detail : Detail
  pub seconds : ℕ

pub record ScenarioResult : Type 0 where
  pub name : String
  pub steps : List StepResult

-- ScenarioResult.passed
abbrev pub passed : ScenarioResult → Bool
passed r = all (λ s. s.passed) r.steps

abbrev total : List StepResult → ℕ
total [] = 0
total (s ∷ ss) = s.seconds + total ss

-- ScenarioResult.seconds
abbrev pub seconds : ScenarioResult → ℕ
seconds r = total r.steps

-- The scenario object and the world that it acts on.
pub record Stage (W : Type 0) : Type 0 where
  pub world : W
  pub result : ScenarioResult

abbrev pub passes : Result Bool → Bool
passes (ok b) = b
passes (raise e) = false

abbrev pub detail_of : Result Bool → Detail
detail_of (ok true) = empty
detail_of (ok false) = not_met
detail_of (raise e) = failed e

module _ {W : Type 0} (node : Node W) where
  open node use {now, settle}

  unfoldable pub settle_for : ℕ → Exec W Unit
  settle_for zero = pure tt
  settle_for time = settle time

  unfoldable pub check_of : Option (Exec W Bool) → Exec W Bool
  check_of none = pure true
  check_of (some check) = check

  -- The body of the `try`.
  unfoldable pub attempt_step : Exec W Unit → Option (Exec W Bool) → ℕ → Exec W Bool
  unfolding settle_for check_of
  attempt_step action check time = (action >>= λ _. settle_for time) >>= λ _. check_of check

  -- Scenario.step
  unfoldable pub step : String → Exec W Unit → Option (Exec W Bool) → ℕ → Exec (Stage W) Unit
  step name action check time s =
      let (outcome, world) = attempt_step action check time s.world in
      let entry : StepResult = record {
        name = name;
        passed = passes outcome;
        detail = detail_of outcome;
        seconds = now world - now s.world;
      } in
      (
        (if passes outcome then ok tt else raise scenario_failed),
        record {
          world = world;
          result = record (s.result) { steps = s.result.steps ++ entry ∷ [] };
        },
      )

-- Scenario.__init__ and execute: only ScenarioFailed is caught.
abbrev pub finish : {W : Type 0} → Result (Unit {0}) × Stage W → Result ScenarioResult × W
finish (ok u, s) = (ok s.result, s.world)
finish (raise scenario_failed, s) = (ok s.result, s.world)
finish (raise e, s) = (raise e, s.world)

unfoldable pub execute : {W : Type 0} → String → Exec (Stage W) (Unit {0}) → Exec W ScenarioResult
execute name run w =
    finish (run (record { world = w; result = record { name = name; steps = [] } }))
