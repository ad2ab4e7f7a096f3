-- ===== src/Dashboard/RobotState/Samples.antt =====
-- A robot that reports, and one whose control stack has died.
use vn_robotics.Prelude.{ℕ, ◌≡◌, refl, true, false, ◌&&◌, String, none, List, [], ◌∷◌}
use vn_robotics.Dashboard.RobotState.{
  RobotState, Readings, no_joint_state, joints_stale, controllers_stale, not_active, initial,
  is_ready, readiness_detail, update_joints, update_controllers, update_hardware, round_tenth,
}
use vn_robotics.Dashboard.RobotState.Events.{
  Event, joint_message, controller_list, hardware_list, run, last_joints, last_controllers, recent,
  answered, run-ready,
}

abbrev at_time : ℕ → Readings
at_time now = record { joint = now; controller = now; hardware = now; uptime = now }

abbrev both_active : List (String × String)
both_active = ("joint_state_broadcaster", "active") ∷ ("arm_controller", "active") ∷ []

abbrev arrivals : List (Event ℕ)
arrivals =
    controller_list both_active 100
    ∷ joint_message ("elbow_joint" ∷ "wrist_joint" ∷ []) (5 ∷ 7 ∷ []) (1 ∷ []) 900
    ∷ hardware_list [] 950
    ∷ []

abbrev reporting : RobotState ℕ
reporting = run arrivals (initial 0)

ready_then_stale :
    (is_ready (at_time 1900) reporting ≡ true)
    × (readiness_detail (at_time 6101) reporting ≡ (
      false,
      joints_stale 5201
          ∷ controllers_stale 6000
          ∷ not_active "joint_state_broadcaster"
          ∷ not_active "arm_controller"
          ∷ [],
    ))
unfolding run is_ready readiness_detail update_joints update_controllers update_hardware
ready_then_stale = (refl, refl)

nothing_received : readiness_detail (at_time 50) (initial {P = ℕ} 0) ≡ (
  false,
  no_joint_state ∷ not_active "joint_state_broadcaster" ∷ not_active "arm_controller" ∷ [],
)
unfolding readiness_detail
nothing_received = refl

ties_to_even : (round_tenth 250 ≡ 200) × (round_tenth 350 ≡ 400) × (round_tenth 351 ≡ 400)
unfolding round_tenth
ties_to_even = (refl, refl, refl)

run-ready_example :
    (is_ready (at_time 1900) reporting ≡ (
      recent 1000 1900 (last_joints none arrivals)
      && answered 1900 (last_controllers none arrivals)))
    × (reporting.joint_messages ≡ 1)
run-ready_example = run-ready arrivals 0 (at_time 1900)
