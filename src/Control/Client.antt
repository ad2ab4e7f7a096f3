-- ===== src/Control/Client.antt =====
-- src/threevn_control/threevn_control/robot_client.py: the client that every scenario goes through.
--
-- What ROS brings in is an argument: the messages whose callbacks run while a method spins, and the
-- answer of an action server to a goal. The goals that were sent are kept in the client, in order.
pub mod Delivery
pub mod Safety
mod Samples
use vn_robotics.Prelude.{
  ℕ, zero, suc, ◌≡◌, Bool, true, false, not, ◌&&◌, String, Option, none, some, List, [], ◌∷◌, ◌++◌,
  if◌then◌else◌, length, ◌==◌, number_eq, string_eq, contains, lookup, put, all, is_some,
}
use vn_robotics.Py.Errors.{
  Exn, Result, ok, raise, key_error, value_error, limit_violation, motion_failed, robot_not_ready,
  or_raise,
}
use vn_robotics.Py.Exec.{Exec, pure, throw, lift, gets, modify, ◌>>=◌, ◌>>◌}
use vn_robotics.Py.Json.{Number}

-- ARM_JOINTS
abbrev pub arm_joints : List String
arm_joints = "shoulder_pan_joint" ∷ "shoulder_lift_joint" ∷ "elbow_joint" ∷ "wrist_joint" ∷ []

pub data Goal (F : Type 0) : Type 0 where
  arm : (positions : List F) (duration : F) → Goal F
  gripper : (position max_effort : F) → Goal F

-- An attribute of <limit>: absent, or the number that its text reads as, if it does.
pub data Attribute (F : Type 0) : Type 0 where
  absent : Attribute F
  given : Option F → Attribute F

-- A <joint> of the description, with its first <limit>.
pub record Element (F : Type 0) : Type 0 where
  pub name : Option String
  pub limit : Option (Attribute F × Attribute F)

pub data Message (F : Type 0) : Type 0 where
  joint_state : (names : List String) (positions : List F) → Message F
  -- none is text that does not parse
  description : Option (List (Element F)) → Message F

-- What the action server does with a goal: whether it is up, whether it accepts, the status of the
-- result if one comes in time, and the callbacks that run meanwhile.
pub record Answer (F : Type 0) : Type 0 where
  pub up : Bool
  pub accepted : Bool
  pub status : Option ℕ
  pub meanwhile : List (Message F)

pub record Client (F : Type 0) : Type 0 where
  pub state : Option (List String × List F)
  pub limits : List (String × (F × F))
  pub goals : List (Goal F)

-- STATUS_SUCCEEDED
abbrev succeeded : ℕ
succeeded = 4

-- The status of the result of an accepted goal.
abbrev pub conclude : Option ℕ → Result (Unit {0})
conclude none = raise motion_failed
conclude (some s) = if s == succeeded then ok tt else raise motion_failed

-- One turn of the loop in `connect`: what a spin delivers, and whether the servers are up then.
pub record Poll (F : Type 0) : Type 0 where
  pub delivered : List (Message F)
  pub arm_up : Bool
  pub gripper_up : Bool

module _ {F : Type 0} where
  abbrev pub set_bounds : String → Attribute F → Attribute F → Exec (Client F) Unit
  set_bounds name (given low) (given high) = do
    l ← lift (or_raise value_error low)
    h ← lift (or_raise value_error high)
    modify (λ c. record c { limits = put name (l, h) c.limits })
  set_bounds name _ _ = pure tt

  abbrev pub set_named : Option String → Option (Attribute F × Attribute F) → Exec (Client F) Unit
  set_named (some name) (some (lower, upper)) = set_bounds name lower upper
  set_named _ _ = pure tt

  abbrev pub set_limit : Element F → Exec (Client F) Unit
  set_limit e = set_named e.name e.limit

  unfoldable pub set_limits : List (Element F) → Exec (Client F) Unit
  set_limits [] = pure tt
  set_limits (e ∷ es) = set_limit e >>= λ _. set_limits es

  -- The callbacks. A limit that does not read as a number raises out of the callback.
  unfoldable pub receive : Message F → Exec (Client F) Unit
  unfolding set_limits
  receive (joint_state names positions) = modify (λ c. record c { state = some (names, positions) })
  receive (description none) = pure tt
  receive (description (some elements)) = set_limits elements

  -- spin
  unfoldable pub spin : List (Message F) → Exec (Client F) Unit
  unfolding receive
  spin [] = pure tt
  spin (m ∷ ms) = receive m >>= λ _. spin ms

  abbrev pub has_state : Client F → Bool
  has_state c = is_some c.state

  -- connect, until the deadline is over
  unfoldable pub connect : List (Poll F) → Exec (Client F) Unit
  connect [] = throw robot_not_ready
  connect (p ∷ ps) =
      let rest = connect ps in
      spin p.delivered >>= λ _.
      gets has_state >>= λ state. if state && p.arm_up && p.gripper_up then pure tt else rest

  abbrev zip_dict : List String → List F → List (String × F) → List (String × F)
  zip_dict (n ∷ ns) (p ∷ ps) d = zip_dict ns ps (put n p d)
  zip_dict _ _ d = d

  abbrev pub positions_of : Option (List String × List F) → Result (List (String × F))
  positions_of none = raise robot_not_ready
  positions_of (some (names, positions)) = ok (zip_dict names positions [])

  unfoldable pub get_joint_state : List (Message F) → Exec (Client F) (List (String × F))
  get_joint_state arrivals = spin arrivals >>= λ _. λ c. (positions_of c.state, c)

  abbrev pub pick : List String → List (String × F) → Result (List F)
  pick [] d = ok []
  pick (j ∷ js) d = elim (lookup j d) [
    | none ↦ raise (key_error j)
    | some p ↦ elim (pick js d) [ ok ps ↦ ok (p ∷ ps) | raise e ↦ raise e ]
  ]

  unfoldable pub get_arm_pose : List (Message F) → Exec (Client F) (List F)
  get_arm_pose arrivals = get_joint_state arrivals >>= λ d. lift (pick arm_joints d)

  -- target[names.index(name)] = position
  abbrev pub set_at : List String → String → F → List F → List F
  set_at (n ∷ ns) name position (p ∷ ps) =
      if n == name then position ∷ ps else p ∷ set_at ns name position ps
  set_at _ name position ps = ps

  -- _send
  unfoldable pub send : Goal F → Answer F → Exec (Client F) Unit
  send goal answer =
      if not answer.up
      then throw robot_not_ready
      else modify (λ c. record c { goals = c.goals ++ goal ∷ [] }) >>= λ _.
          spin answer.meanwhile >>= λ _.
          if not answer.accepted then throw motion_failed else lift (conclude answer.status)

module _ {F : Type 0} ⦃n : Number F⦄ where
  -- `lower <= position <= upper` for a joint whose limit is known
  abbrev pub within : Option (F × F) → F → Bool
  within none position = true
  within (some (lower, upper)) position = n.le lower position && n.le position upper

  unfoldable pub check_within_limits : List (String × (F × F)) → String → F → Result (Unit {0})
  check_within_limits limits joint position =
      if within (lookup joint limits) position then ok tt else raise (limit_violation joint)

  -- for joint, position in zip(ARM_JOINTS, positions)
  unfoldable pub check_all_joints :
      List (String × (F × F)) → List String → List F → Result (Unit {0})
  unfolding check_within_limits
  check_all_joints limits (j ∷ js) (p ∷ ps) = elim (check_within_limits limits j p) [
    | raise e ↦ raise e
    | ok u ↦ check_all_joints limits js ps
  ]
  check_all_joints limits _ _ = ok tt

  unfoldable pub move_joints : List F → F → Answer F → Exec (Client F) Unit
  move_joints positions duration answer =
      if not (length positions == length arm_joints)
      then throw value_error
      else gets (λ c. c.limits) >>= λ limits.
          lift (check_all_joints limits arm_joints positions) >>= λ _.
          send (arm positions duration) answer

  unfoldable pub move_joint : String → F → F → List (Message F) → Answer F → Exec (Client F) Unit
  move_joint name position duration arrivals answer =
      if not (contains name arm_joints)
      then throw value_error
      else get_arm_pose arrivals >>= λ pose.
          move_joints (set_at arm_joints name position pose) duration answer

  -- POSES; -0.4 is 0 - 0.4
  abbrev pub poses : List (String × List F)
  poses =
      let zero' = n.literal 0 0 in
      let minus : F → F = λ x. n.sub zero' x in
      ("home", zero' ∷ zero' ∷ zero' ∷ zero' ∷ [])
      ∷ ("ready", zero' ∷ n.literal 5 1 ∷ minus (n.literal 4 1) ∷ zero' ∷ [])
      ∷ ("pick", n.literal 6 1 ∷ n.literal 9 1 ∷ minus (n.literal 7 1) ∷ n.literal 2 1 ∷ [])
      ∷ (
        "place",
        minus (n.literal 6 1) ∷ n.literal 9 1 ∷ minus (n.literal 7 1) ∷ n.literal 2 1 ∷ [],
      )
      ∷ []

  unfoldable pub move_to_named : String → F → Answer F → Exec (Client F) Unit
  move_to_named pose duration answer = elim (lookup pose poses) [
    | none ↦ throw value_error
    | some positions ↦ move_joints positions duration answer
  ]

  unfoldable pub home : F → Answer F → Exec (Client F) Unit
  unfolding move_to_named
  home = move_to_named "home"

  unfoldable pub set_gripper : F → F → Answer F → Exec (Client F) Unit
  set_gripper position max_effort = send (gripper position max_effort)

  unfoldable pub open_gripper : Answer F → Exec (Client F) Unit
  unfolding set_gripper
  open_gripper = set_gripper (n.literal 18 3) (n.literal 5 0)

  unfoldable pub close_gripper : F → Answer F → Exec (Client F) Unit
  unfolding set_gripper
  close_gripper max_effort = set_gripper (n.literal 0 0) max_effort

  abbrev pub close_to : F → List F → List F → Bool
  close_to tolerance (a ∷ as') (b ∷ bs) =
      n.le (n.abs (n.sub a b)) tolerance && close_to tolerance as' bs
  close_to tolerance _ _ = true

  unfoldable pub at_pose : List F → F → List (Message F) → Exec (Client F) Bool
  at_pose target tolerance arrivals =
      get_arm_pose arrivals >>= λ pose. pure (close_to tolerance pose target)
