-- ===== src/Control/Client/Samples.antt =====
-- An arm whose joints move between 0 and 2 radians, in hundredths.
use vn_robotics.Prelude.{
  ℕ, ◌≡◌, refl, ◌⊎◌, true, false, String, none, some, List, [], ◌∷◌, lookup, put,
}
use vn_robotics.Py.Errors.{Exn, ok, raise, limit_violation, value_error}
use vn_robotics.Mlops.Gates.Samples.{hundredths}
use vn_robotics.Control.Client.{
  Client, arm, gripper, Message, joint_state, description, Element, absent, given, Answer, Poll,
  set_limits, receive, spin, get_joint_state, get_arm_pose, connect, move_joints, move_joint,
  move_to_named, send, check_all_joints, check_within_limits, set_gripper, home, open_gripper,
  close_gripper, at_pose,
}
use vn_robotics.Control.Client.Safety.{
  Acceptable, Guarded, joint, perform, move_joints-Acceptable, perform-Guarded,
}

abbrev bounded : String → Element ℕ
bounded name = record { name = some name; limit = some (given (some 0), given (some 200)) }

abbrev urdf : Message ℕ
urdf = description (
    some (
      record { name = some "base_joint"; limit = none }
      ∷ bounded "shoulder_pan_joint"
      ∷ record { name = some "tool_joint"; limit = some (absent, given (some 5)) }
      ∷ bounded "elbow_joint"
      ∷ []))

abbrev pose : Message ℕ
pose =
    joint_state ("elbow_joint" ∷ "wrist_joint" ∷ "shoulder_pan_joint" ∷ "shoulder_lift_joint" ∷ [])
      (10 ∷ 20 ∷ 30 ∷ 40 ∷ [])

abbrev willing : Answer ℕ
willing = record { up = true; accepted = true; status = some 4; meanwhile = [] }

abbrev unknown : Client ℕ
unknown = record { state = none; limits = []; goals = [] }

abbrev informed : Client ℕ
informed = record {
  state = none;
  limits = ("shoulder_pan_joint", (0, 200)) ∷ ("elbow_joint", (0, 200)) ∷ [];
  goals = [];
}

reads_limits : (spin (urdf ∷ []) unknown).1.limits ≡ informed.limits
unfolding spin receive set_limits lookup put
reads_limits = refl

-- The others stay where they are.
moves_one :
    (move_joint "wrist_joint" 99 200 (pose ∷ []) willing informed).1.goals
    ≡ arm (30 ∷ 40 ∷ 10 ∷ 99 ∷ []) 200 ∷ []
unfolding move_joint get_arm_pose get_joint_state spin receive move_joints check_all_joints
    check_within_limits send lookup put
moves_one = refl

refusals :
    ((move_joint "elbow_joint" 201 200 (pose ∷ []) willing informed).0
      ≡ raise (limit_violation "elbow_joint"))
    × ((move_joint "tail_joint" 1 200 (pose ∷ []) willing informed).0 ≡ raise value_error)
    × ((move_to_named "ready" 200 willing informed).0 ≡ ok tt)
    × ((home 250 willing informed).1.goals ≡ arm (0 ∷ 0 ∷ 0 ∷ 0 ∷ []) 250 ∷ [])
    × ((open_gripper willing informed).1.goals ≡ gripper 1 500 ∷ [])
    × ((close_gripper 300 willing informed).1.goals ≡ gripper 0 300 ∷ [])
    × ((at_pose (30 ∷ 40 ∷ 10 ∷ 21 ∷ []) 2 (pose ∷ []) informed).0 ≡ ok true)
unfolding move_joint get_arm_pose get_joint_state spin receive move_joints check_all_joints
    check_within_limits send move_to_named home open_gripper close_gripper set_gripper at_pose
    lookup put
refusals = (refl, refl, refl, refl, refl, refl, refl)

abbrev polls : List (Poll ℕ)
polls =
    record { delivered = []; arm_up = true; gripper_up = true }
    ∷ record { delivered = pose ∷ []; arm_up = true; gripper_up = false }
    ∷ record { delivered = []; arm_up = true; gripper_up = true }
    ∷ []

-- No description came, and the connection is made all the same.
connects : ((connect polls unknown).0 ≡ ok tt) × ((connect polls unknown).1.limits ≡ [])
unfolding connect spin receive lookup put
connects = (refl, refl)

abbrev far : List ℕ
far = 100 ∷ 300 ∷ 201 ∷ 0 ∷ []

move_joints-Acceptable_example :
    (Acceptable informed.limits far
      × (willing.up ≡ true → (move_joints far 200 willing informed).1.goals ≡ arm far 200 ∷ [])
      × (willing.up ≡ false → (move_joints far 200 willing informed).1 ≡ informed))
    ⊎ ((Acceptable informed.limits far → ⊥)
        × (e : Exn) × (move_joints far 200 willing informed ≡ (raise e, informed)))
move_joints-Acceptable_example = move_joints-Acceptable far 200 willing informed

perform-Guarded_example :
    Guarded
      (spin (pose ∷ []) informed).1.limits
      []
      (perform (joint "wrist_joint" 99 200 (pose ∷ []) willing) informed).goals
perform-Guarded_example = perform-Guarded (joint "wrist_joint" 99 200 (pose ∷ []) willing) informed
