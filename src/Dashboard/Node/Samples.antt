-- ===== src/Dashboard/Node/Samples.antt =====
-- A node on a bench, whose numbers are hundredths.
use vn_robotics.Prelude.{
  ℕ, ◌≡◌, refl, true, false, String, none, [], ◌∷◌, map, take, string_eq, lookup,
}
use vn_robotics.Py.Errors.{ok, raise, os_error}
use vn_robotics.Py.Json.{str, obj}
use vn_robotics.Py.Convert.{Reading}
use vn_robotics.Mlops.Gates.Samples.{hundredths}
use vn_robotics.Dashboard.RobotState.{
  Readings, Reason, is_ready, snapshot, readiness_detail, update_joints, update_controllers,
}
use vn_robotics.Dashboard.Version.{Environment, version_info}
use vn_robotics.Dashboard.Payload.{Report, build_report}
use vn_robotics.Dashboard.Metrics.{build_metrics}
use vn_robotics.Dashboard.Metrics.Present.{metrics_of, build_metrics-fleet_state}
use vn_robotics.Dashboard.Node.{
  Dashboard, launch, poll, on_joint_state, on_controllers, fleet_state, dict_of,
}
use vn_robotics.Dashboard.Node.Reported.{build_report-fleet_state}

abbrev whole_numbers : Reading ℕ
whole_numbers = record { float_text = λ s. none; int_text = λ s. none; truncate = λ x. ok x }

abbrev bench : Environment
bench name =
    lookup name (("THREEVN_FLEET_URL", " http://fleet ") ∷ ("THREEVN_FLEET_TOKEN", " ") ∷ [])

abbrev new_node : Dashboard ℕ
new_node = launch (λ s. none) bench 0

abbrev running : Dashboard ℕ
running =
    on_controllers (ok (("joint_state_broadcaster", "active") ∷ ("arm_controller", "active") ∷ []))
      900 (on_joint_state ("elbow_joint" ∷ []) (5 ∷ []) [] 950 new_node)

abbrev soon : Readings
soon = record { joint = 1000; controller = 1000; hardware = 1000; uptime = 1000 }

goes_down :
    (is_ready soon running.state ≡ true)
    × (is_ready soon (on_controllers (raise os_error) 990 running).state ≡ true)
    × (is_ready soon (poll false true 990 990 running).state ≡ false)
unfolding is_ready on_controllers on_joint_state poll launch update_joints update_controllers
goes_down = (refl, refl, refl)

abbrev say : Reason → String
say r = "reason"

build_report-fleet_state_example :
    (r : Report ℕ) × (build_report whole_numbers
        (fleet_state say soon soon running.state)
        (obj (dict_of (version_info bench "bench" "today")))
      ≡ ok r)
    × (r.ready ≡ is_ready soon running.state)
    × (r.uptime_seconds ≡ hundredths.literal (snapshot soon running.state).uptime 3)
    × (r.joint_messages ≡ hundredths.literal running.state.joint_messages 0)
    × (r.reasons ≡ take 8 (map str (map say (readiness_detail soon running.state).1)))
build_report-fleet_state_example =
    build_report-fleet_state whole_numbers say soon soon running.state bench "bench" "today"
      (λ k. refl)

build_metrics-fleet_state_example :
    build_metrics whole_numbers (fleet_state say soon soon running.state) 3 7
    ≡ ok (metrics_of (snapshot soon running.state) 3 7)
build_metrics-fleet_state_example =
    build_metrics-fleet_state whole_numbers say soon soon running.state 3 7 (λ k. refl)
