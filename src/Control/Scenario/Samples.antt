-- ===== src/Control/Scenario/Samples.antt =====
-- Steps on a world that counts how often it was touched.
use vn_robotics.Prelude.{ℕ, ◌+◌, ◌≡◌, refl, Bool, true, false, none, some, List, [], ◌∷◌, ltb}
use vn_robotics.Py.Errors.{ok, raise, motion_failed}
use vn_robotics.Py.Exec.{Exec}
use vn_robotics.Control.Scenario.{
  Node, ScenarioResult, empty, not_met, passed, execute, step, attempt_step,
}
use vn_robotics.Control.Scenario.Steps.{Spec, Ran, run_steps, execute-Ran}

abbrev pub counting : Node ℕ
counting = record { now = λ w. w; settle = λ t w. (ok tt, w + t) }

abbrev touch : Exec ℕ (Unit {0})
touch w = (ok tt, w + 1)

abbrev below : ℕ → Exec ℕ Bool
below n w = (ok (ltb w n), w)

abbrev refuse : Exec ℕ (Unit {0})
refuse w = (raise motion_failed, w)

abbrev plan : List (Spec ℕ)
plan =
    record { name = "home"; action = touch; check = none; time = 30 }
    ∷ record { name = "reach"; action = touch; check = some (below 10); time = 0 }
    ∷ record { name = "close"; action = refuse; check = none; time = 0 }
    ∷ []

stops_at_the_second :
    (execute "pick" (run_steps counting plan) 0).0
    ≡ ok (record {
      name = "pick";
      steps =
          record { name = "home"; passed = true; detail = empty; seconds = 31 }
          ∷ record { name = "reach"; passed = false; detail = not_met; seconds = 1 }
          ∷ [];
    })
unfolding execute run_steps step attempt_step
stops_at_the_second = refl

execute-Ran_example :
    (r : ScenarioResult) × ((execute "pick" (run_steps counting plan) 0).0 ≡ ok r)
    × (r.name ≡ "pick")
    × Ran ℕ plan r.steps (passed r)
execute-Ran_example = execute-Ran counting "pick" plan 0
