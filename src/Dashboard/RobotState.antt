-- ===== src/Dashboard/RobotState.antt =====
-- src/threevn_dashboard/threevn_dashboard/robot_state.py.
--
-- Times are whole milliseconds, and a reading of the clock is an argument. The lock makes each
-- method one step. `round` is exact on decimals: a tie goes to the even tenth.
pub mod Readiness
pub mod Events
mod Samples
use vn_robotics.Prelude.{
  ℕ, zero, suc, ◌+◌, ◌-◌, ◌*◌, ◌/◌, ◌%◌, ◌≡◌, Bool, true, false, not, ◌&&◌, String, Option, none,
  some, List, [], ◌∷◌, ◌++◌, map, if◌then◌else◌, ◌==◌, string_eq, number_eq, leb, ltb, put, keep,
  contains,
}
use mathlib.Core.Option

-- STALE_AFTER_SECONDS
abbrev pub stale_after : ℕ
stale_after = 1000

-- CONTROLLER_STALE_AFTER_SECONDS
abbrev pub controller_stale_after : ℕ
controller_stale_after = 6000

-- REQUIRED_CONTROLLERS
abbrev pub required_controllers : List String
required_controllers = "joint_state_broadcaster" ∷ "arm_controller" ∷ []

pub record Joint (P : Type 0) : Type 0 where
  pub position : P
  pub velocity : Option P

pub record Component : Type 0 where
  pub name : String
  pub state : String

pub record RobotState (P : Type 0) : Type 0 where
  pub started : ℕ
  pub joints : List (String × Joint P)
  pub joint_stamp : Option ℕ
  pub controllers : List Component
  pub controller_stamp : Option ℕ
  pub hardware : List Component
  pub hardware_stamp : Option ℕ
  pub joint_messages : ℕ

-- What the clock reads at the four places of `snapshot` where it may be read.
pub record Readings : Type 0 where
  pub joint : ℕ
  pub controller : ℕ
  pub hardware : ℕ
  pub uptime : ℕ

pub record Snapshot (P : Type 0) : Type 0 where
  pub uptime : ℕ
  pub joints : List (String × Joint P)
  pub joint_age : Option ℕ
  pub joint_messages : ℕ
  pub joints_fresh : Bool
  pub controllers : List Component
  pub controllers_fresh : Bool
  pub controller_age : Option ℕ
  pub hardware : List Component
  pub hardware_fresh : Bool
  pub hardware_age : Option ℕ
  pub missing : List String
  pub ready : Bool

pub data Reason : Type 0 where
  no_joint_state : Reason
  joints_stale controllers_stale : (age : ℕ) → Reason
  not_active : (name : String) → Reason

-- round(x, 1), in milliseconds
unfoldable pub round_tenth : ℕ → ℕ
round_tenth x =
    let tenths = x / 100 in
    let rest = x % 100 in
    if ltb rest 50
    then tenths * 100
    else if ltb 50 rest
    then (tenths + 1) * 100
    else (tenths + tenths % 2) * 100

unfoldable pub fresh : ℕ → Option ℕ → Bool
fresh bound none = false
fresh bound (some age) = leb age bound

abbrev pub age_of : Option ℕ → ℕ → Option ℕ
age_of none now = none
age_of (some stamp) now = some (now - stamp)

abbrev pub is_active : Component → Bool
is_active c = c.state == "active"

abbrev pub active_names : List Component → List String
active_names cs = map (λ c. c.name) (keep is_active cs)

-- [c for c in REQUIRED_CONTROLLERS if c not in active]
abbrev pub missing_of : Bool → List Component → List String
missing_of controllers_fresh cs =
    keep (λ c. not (contains c (if controllers_fresh then active_names cs else [])))
      required_controllers

abbrev pub is_empty {ℓ} : {A : Type ℓ} → List A → Bool
is_empty [] = true
is_empty (x ∷ xs) = false

abbrev pub components : List (String × String) → List Component
components [] = []
components ((name, state) ∷ ps) = record { name = name; state = state } ∷ components ps

abbrev joint_reasons : Option ℕ → Bool → List Reason
joint_reasons none joints_fresh = no_joint_state ∷ []
joint_reasons (some age) joints_fresh = if joints_fresh then [] else joints_stale age ∷ []

abbrev controller_reasons : Option ℕ → Bool → List Reason
controller_reasons none controllers_fresh = []
controller_reasons (some age) controllers_fresh =
    if controllers_fresh then [] else controllers_stale age ∷ []

module _ {P : Type 0} where
  -- RobotState.__init__
  abbrev pub initial : ℕ → RobotState P
  initial now = record {
    started = now;
    joints = [];
    joint_stamp = none;
    controllers = [];
    controller_stamp = none;
    hardware = [];
    hardware_stamp = none;
    joint_messages = 0;
  }

  -- The dict comprehension over `enumerate(zip(names, positions))`: the velocities go along with
  -- the
  -- positions as far as they reach.
  joints_of : List String → List P → List P → List (String × Joint P) → List (String × Joint P)
  joints_of (n ∷ ns) (p ∷ ps) [] d =
      joints_of ns ps [] (put n (record { position = p; velocity = none }) d)
  joints_of (n ∷ ns) (p ∷ ps) (v ∷ vs) d =
      joints_of ns ps vs (put n (record { position = p; velocity = some v }) d)
  joints_of _ _ _ d = d

  unfoldable pub update_joints : List String → List P → List P → ℕ → RobotState P → RobotState P
  unfolding joints_of
  update_joints names positions velocities now s = record s {
    joints = joints_of names positions velocities [];
    joint_stamp = some now;
    joint_messages = s.joint_messages + 1;
  }

  unfoldable pub update_controllers : List (String × String) → ℕ → RobotState P → RobotState P
  update_controllers cs now s = record s {
    controllers = components cs;
    controller_stamp = some now;
  }

  unfoldable pub update_hardware : List (String × String) → ℕ → RobotState P → RobotState P
  update_hardware cs now s = record s { hardware = components cs; hardware_stamp = some now }

  unfoldable pub snapshot : Readings → RobotState P → Snapshot P
  unfolding fresh round_tenth
  snapshot at s =
      let joint_age = age_of s.joint_stamp at.joint in
      let controller_age = age_of s.controller_stamp at.controller in
      let controllers_fresh = fresh controller_stale_after controller_age in
      let hardware_age = age_of s.hardware_stamp at.hardware in
      let missing = missing_of controllers_fresh s.controllers in
      let joints_fresh = fresh stale_after joint_age in
      record {
        uptime = round_tenth (at.uptime - s.started);
        joints = s.joints;
        joint_age = joint_age;
        joint_messages = s.joint_messages;
        joints_fresh = joints_fresh;
        controllers = s.controllers;
        controllers_fresh = controllers_fresh;
        controller_age = Option.map round_tenth controller_age;
        hardware = s.hardware;
        hardware_fresh = fresh controller_stale_after hardware_age;
        hardware_age = Option.map round_tenth hardware_age;
        missing = missing;
        ready = joints_fresh && is_empty missing;
      }

  unfoldable pub is_ready : Readings → RobotState P → Bool
  unfolding snapshot
  is_ready at s = (snapshot at s).ready

  -- The pair of readiness and the reasons against it, in their order.
  unfoldable pub readiness_detail : Readings → RobotState P → Bool × List Reason
  unfolding snapshot
  readiness_detail at s =
      let snap = snapshot at s in
      (
        snap.ready,
        joint_reasons snap.joint_age snap.joints_fresh
            ++ (controller_reasons snap.controller_age snap.controllers_fresh
                ++ map not_active snap.missing),
      )
