-- ===== src/Control/Arm.antt =====
-- src/threevn_control/threevn_control/scenarios/arm.py: the scenarios over the robot client. What
-- the
-- robot's surroundings do in each turn is an argument: the clock, the messages that arrive, the
-- answer
-- of an action server, and the transforms. Each use of the client takes a turn.
pub mod Joints
pub mod Sent
pub mod Goals
pub mod Passed
pub mod Raises
pub mod Refusal
mod Samples
use vn_robotics.Prelude.{
  ℕ, zero, suc, ◌≡◌, Bool, true, false, not, ◌&&◌, String, Option, none, some, List, [], ◌∷◌, ◌++◌,
  map, ◌==◌, string_eq, lookup, keep, if◌then◌else◌,
}
use vn_robotics.Py.Errors.{
  Exn, Result, ok, raise, key_error, limit_violation, assertion_error, robot_not_ready, or_raise,
}
use vn_robotics.Py.Exec.{Exec, pure, throw, lift, ◌>>=◌, ◌>>◌}
use vn_robotics.Py.Json.{Number}
use vn_robotics.Control.Scenario.{Node, Stage, step}
use vn_robotics.Control.Scenario.Steps.{Spec, run_steps}
use vn_robotics.Control.Client.{
  Client, Message, Answer, arm_joints, poses, spin, get_joint_state, home, move_joint,
  move_to_named, open_gripper, close_gripper, at_pose,
}

pub record Bench (F : Type 0) : Type 0 where
  pub client : Client F
  pub turn : ℕ

pub record Surroundings (F : Type 0) : Type 0 where
  pub now : ℕ → ℕ
  pub arrivals : ℕ → List (Message F)
  pub answer : ℕ → Answer F
  pub transform : ℕ → String → String → Option (F × F × F)

module _ {F : Type 0} where
  -- A use of the client, with what happens in its turn.
  abbrev pub take_turn : {A : Type 0} → (ℕ → Exec (Client F) A) → Exec (Bench F) A
  take_turn op b =
      let (result, client) = op b.turn b.client in
      (result, record { client = client; turn = suc b.turn })

  -- A reading between two steps.
  abbrev pub between : {A : Type 0} → Exec (Bench F) A → Exec (Stage (Bench F)) A
  between read s = let (result, world) = read s.world in (result, record s { world = world })

module _ {F : Type 0} (around : Surroundings F) where
  abbrev pub bench : Node (Bench F)
  bench = record {
    now = λ b. around.now b.turn;
    settle = λ time. take_turn (λ turn. spin (around.arrivals turn));
  }

  abbrev pub joint_state_now : Exec (Bench F) (List (String × F))
  joint_state_now = take_turn (λ turn. get_joint_state (around.arrivals turn))

  -- state[joint]
  abbrev pub joint_now : String → Exec (Bench F) F
  joint_now joint =
      joint_state_now >>= λ state. lift (or_raise (key_error joint) (lookup joint state))

  unfoldable pub get_translation : (parent child : String) → Exec (Bench F) (F × F × F)
  get_translation parent child = take_turn (λ turn. spin (around.arrivals turn) >>= λ _.
      lift (or_raise robot_not_ready (around.transform turn parent child)))

  abbrev pub self_step :
      String → Exec (Bench F) Unit → Option (Exec (Bench F) Bool) → ℕ → Exec (Stage (Bench F)) Unit
  self_step = step bench

module _ {F : Type 0} ⦃n : Number F⦄ (around : Surroundings F) where
  abbrev pub go_home : Exec (Bench F) Unit
  go_home = take_turn (λ turn. home (n.literal 25 1) (around.answer turn))

  abbrev pub go_to : String → F → Exec (Bench F) Unit
  go_to pose duration = take_turn (λ turn. move_to_named pose duration (around.answer turn))

  abbrev pub open_hand : Exec (Bench F) Unit
  open_hand = take_turn (λ turn. open_gripper (around.answer turn))

  abbrev pub close_hand : Exec (Bench F) Unit
  close_hand = take_turn (λ turn. close_gripper (n.literal 5 0) (around.answer turn))

  abbrev pub move_one : String → F → Exec (Bench F) Unit
  move_one joint target =
      take_turn (λ turn.
        move_joint joint target (n.literal 2 0) (around.arrivals turn) (around.answer turn))

  abbrev pub at_target : Option (List F) → String → Exec (Bench F) Bool
  at_target none pose = throw (key_error pose)
  at_target (some target) pose =
      take_turn (λ turn. at_pose target (n.literal 2 2) (around.arrivals turn))

  -- self.robot.at_pose(POSES[pose])
  abbrev pub is_at_pose : String → Exec (Bench F) Bool
  is_at_pose pose = at_target (lookup pose poses) pose

  -- Home.run
  abbrev pub home_steps : List (Spec (Bench F))
  home_steps =
      record {
        name = "move to home";
        action = go_home;
        check = some (is_at_pose "home");
        time = 300;
      }
      ∷ []

  abbrev pub visit : String → Spec (Bench F)
  visit pose = record {
    name = pose;
    action = go_to pose (n.literal 2 0);
    check = some (is_at_pose pose);
    time = 300;
  }

  -- MoveToPosition.run; a step is named by its pose
  abbrev pub move_to_position_steps : List (Spec (Bench F))
  move_to_position_steps = map visit ("home" ∷ "ready" ∷ "pick" ∷ "place" ∷ "home" ∷ [])

  -- Gripper._fingers_mirrored
  abbrev pub fingers_mirrored : Exec (Bench F) Bool
  fingers_mirrored =
      get_translation around "gripper_base_link" "gripper_left_finger_link" >>= λ left.
      get_translation around "gripper_base_link" "gripper_right_finger_link" >>= λ right.
      let small = n.literal 2 3 in
      pure (
        n.le (n.abs (n.add left.1 right.1)) small
        && (n.le (n.abs (n.sub (n.abs left.1) (n.abs right.1))) small && n.lt small (n.abs left.1)))

  abbrev pub finger_now : (F → Bool) → Exec (Bench F) Bool
  finger_now test = joint_now around "gripper_left_finger_joint" >>= λ p. pure (test p)

  -- Gripper.run
  abbrev pub gripper_steps : List (Spec (Bench F))
  gripper_steps =
      record { name = "home first"; action = go_home; check = none; time = 300 }
      ∷ record {
        name = "open gripper";
        action = open_hand;
        check = some (finger_now (λ p. n.le (n.abs (n.sub p (n.literal 18 3))) (n.literal 4 3)));
        time = 1000;
      }
      ∷ record {
        name = "both fingers moved together";
        action = pure tt;
        check = some fingers_mirrored;
        time = 200;
      }
      ∷ record {
        name = "close gripper";
        action = close_hand;
        check = some (finger_now (λ p. n.le p (n.literal 4 3)));
        time = 1000;
      }
      ∷ []

  -- PickAndPlace.run
  abbrev pub pick_and_place_steps : List (Spec (Bench F))
  pick_and_place_steps =
      record { name = "home"; action = go_home; check = some (is_at_pose "home"); time = 300 }
      ∷ record { name = "open gripper"; action = open_hand; check = none; time = 800 }
      ∷ record {
        name = "move to pick";
        action = go_to "pick" (n.literal 25 1);
        check = some (is_at_pose "pick");
        time = 300;
      }
      ∷ record { name = "close gripper"; action = close_hand; check = none; time = 1000 }
      ∷ record {
        name = "move to place";
        action = go_to "place" (n.literal 3 0);
        check = some (is_at_pose "place");
        time = 300;
      }
      ∷ record { name = "open gripper"; action = open_hand; check = none; time = 800 }
      ∷ record {
        name = "return home";
        action = go_home;
        check = some (is_at_pose "home");
        time = 300;
      }
      ∷ []
