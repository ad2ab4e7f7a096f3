-- ===== src/Control/Arm/Samples.antt =====
-- An arm that stands at its reference pose and whose shoulder is limited, in hundredths.
use vn_robotics.Prelude.{ℕ, ◌*◌, ◌≡◌, refl, true, none, some, [], ◌∷◌, ◌++◌, lookup, put}
use vn_robotics.Mlops.Gates.Samples.{hundredths}
use vn_robotics.Py.Errors.{ok, raise, robot_not_ready}
use vn_robotics.Control.Scenario.{
  Stage, ScenarioResult, empty, execute, step, attempt_step, settle_for, check_of,
}
use vn_robotics.Control.Scenario.Steps.{run_steps}
use vn_robotics.Control.Client.{
  joint_state, arm, arm_joints, receive, spin, get_joint_state, get_arm_pose, send, move_joints,
  move_joint, move_to_named, home, check_all_joints, check_within_limits, at_pose,
}
use vn_robotics.Control.Arm.{Bench, Surroundings, bench, home_steps}
use vn_robotics.Control.Arm.Joints.{expect_rejection, safety_limit_run, move_each, move_joint_run}
use vn_robotics.Control.Arm.Sent.{stage_goals, bench_goals}
use vn_robotics.Control.Arm.Passed.{home_row, goals_of, execute-goals_of}
use vn_robotics.Control.Arm.Refusal.{safety_limit_run-sent}

abbrev still : Surroundings ℕ
still = record {
  now = λ turn. turn * 100;
  arrivals = λ turn. joint_state arm_joints (0 ∷ 0 ∷ 0 ∷ 0 ∷ []) ∷ [];
  answer = λ turn. record { up = true; accepted = true; status = some 4; meanwhile = [] };
  transform = λ turn parent child. none;
}

abbrev idle : Bench ℕ
idle = record {
  client = record { state = none; limits = ("shoulder_pan_joint", (0, 157)) ∷ []; goals = [] };
  turn = 0;
}

abbrev opening_stage : Stage (Bench ℕ)
opening_stage = record { world = idle; result = record { name = "safety_limit"; steps = [] } }

abbrev at_home : ScenarioResult
at_home = record {
  name = "home";
  steps = record { name = "move to home"; passed = true; detail = empty; seconds = 300 } ∷ [];
}

runs_home : (execute "home" (run_steps (bench still) (home_steps still)) idle).0 ≡ ok at_home
unfolding execute run_steps step attempt_step settle_for check_of home move_to_named move_joints
    check_all_joints check_within_limits send spin receive get_arm_pose get_joint_state at_pose
    lookup put
runs_home = refl

ends : (safety_limit_run still opening_stage).0 ≡ ok tt
unfolding safety_limit_run expect_rejection step attempt_step settle_for check_of home move_to_named
    move_joints check_all_joints check_within_limits send spin receive get_arm_pose get_joint_state
    move_joint at_pose lookup put
ends = refl

-- With no joint state at hand, the reading after the first step raises out of the scenario.
unread :
    (execute "safety_limit" (safety_limit_run (record still { arrivals = λ turn. [] })) idle).0
    ≡ raise robot_not_ready
unfolding execute safety_limit_run expect_rejection step attempt_step settle_for check_of home
    move_to_named move_joints check_all_joints check_within_limits send spin receive get_arm_pose
    get_joint_state move_joint at_pose lookup put
unread = refl

abbrev stuck : Surroundings ℕ
stuck = record still { arrivals = λ turn. joint_state arm_joints (50 ∷ 50 ∷ 50 ∷ 50 ∷ []) ∷ [] }

-- The first joint does not go where it is sent.
stays :
    (move_joint_run stuck opening_stage).1.world.client.goals
    ≡ arm (0 ∷ 0 ∷ 0 ∷ 0 ∷ []) 250 ∷ arm (40 ∷ 50 ∷ 50 ∷ 50 ∷ []) 200 ∷ []
unfolding move_joint_run move_each step attempt_step settle_for check_of home move_to_named
    move_joints check_all_joints check_within_limits send spin receive get_arm_pose get_joint_state
    move_joint at_pose lookup put
stays = refl

execute-goals_of_example :
    bench_goals (execute "home" (run_steps (bench still) (home_steps still)) idle).1
    ≡ [] ++ goals_of home_row
execute-goals_of_example = execute-goals_of still home_row idle at_home runs_home refl

safety_limit_run-sent_example :
    stage_goals (safety_limit_run still opening_stage).1 ≡ [] ++ (arm (0 ∷ 0 ∷ 0 ∷ 0 ∷ []) 250 ∷ [])
safety_limit_run-sent_example = safety_limit_run-sent still opening_stage ends
