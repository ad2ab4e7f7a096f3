-- ===== src/Dashboard/RobotState/Events.antt =====
-- Readiness as a function of what has been received: the last joint message and the last answer of
-- the controller manager.
use vn_robotics.Prelude.{
  ℕ, ◌+◌, ◌<◌, ◌≡◌, refl, Bool, false, ◌&&◌, String, Option, none, some, List, [], ◌∷◌, arith,
  contains, leb, all, string_eq, All,
}
use vn_robotics.Dashboard.RobotState.{
  RobotState, Readings, Component, initial, update_joints, update_controllers, update_hardware,
  is_ready, components, required_controllers, active_names,
}

-- A callback of the executor, with the reading of the clock that it makes.
pub data Event (P : Type 0) : Type 0 where
  joint_message : (names : List String) (positions velocities : List P) (now : ℕ) → Event P
  controller_list hardware_list : (answer : List (String × String)) (now : ℕ) → Event P

abbrev stamp_of : Option (ℕ × List (String × String)) → Option ℕ
stamp_of none = none
stamp_of (some (now, answer)) = some now

abbrev listed : Option (ℕ × List (String × String)) → List Component
listed none = []
listed (some (now, answer)) = components answer

-- The required controllers are active in an answer.
abbrev pub all_active : List (String × String) → Bool
all_active answer = all (λ c. contains c (active_names (components answer))) required_controllers

abbrev pub recent : ℕ → ℕ → Option ℕ → Bool
recent bound now none = false
recent bound now (some t) = leb now (t + bound)

abbrev pub answered : ℕ → Option (ℕ × List (String × String)) → Bool
answered now none = false
answered now (some (t, answer)) = leb now (t + 6000) && all_active answer

module _ {P : Type 0} where
  pub handle : Event P → RobotState P → RobotState P
  handle (joint_message names positions velocities now) s =
      update_joints names positions velocities now s
  handle (controller_list answer now) s = update_controllers answer now s
  handle (hardware_list answer now) s = update_hardware answer now s

  unfoldable pub run : List (Event P) → RobotState P → RobotState P
  unfolding handle
  run [] s = s
  run (e ∷ es) s = run es (handle e s)

  -- The stamp of the last joint message, from an earlier one.
  abbrev pub last_joints : Option ℕ → List (Event P) → Option ℕ
  last_joints t [] = t
  last_joints t (joint_message _ _ _ now ∷ es) = last_joints (some now) es
  last_joints t (controller_list _ _ ∷ es) = last_joints t es
  last_joints t (hardware_list _ _ ∷ es) = last_joints t es

  -- The last answer with the controllers, and its stamp.
  abbrev pub last_controllers :
      Option (ℕ × List (String × String)) → List (Event P) → Option (ℕ × List (String × String))
  last_controllers a [] = a
  last_controllers a (joint_message _ _ _ _ ∷ es) = last_controllers a es
  last_controllers a (controller_list answer now ∷ es) = last_controllers (some (now, answer)) es
  last_controllers a (hardware_list _ _ ∷ es) = last_controllers a es

  abbrev pub count_joints : List (Event P) → ℕ
  count_joints [] = 0
  count_joints (joint_message _ _ _ _ ∷ es) = count_joints es + 1
  count_joints (controller_list _ _ ∷ es) = count_joints es
  count_joints (hardware_list _ _ ∷ es) = count_joints es

  -- A joint message that is more than a second old; nothing of another event.
  abbrev pub IsOld : ℕ → Event P → Type 0
  IsOld now (joint_message _ _ _ t) = t + 1000 < now
  IsOld now (controller_list _ _) = Unit
  IsOld now (hardware_list _ _) = Unit

  last_joints-old :
      (now : ℕ) (j : Option ℕ) (es : List (Event P))
      → recent 1000 now j ≡ false
      → All (λ e. IsOld now e) es
      → recent 1000 now (last_joints j es) ≡ false
  last_joints-old now j [] h old = h
  last_joints-old now j (joint_message _ _ _ t ∷ es) h old =
      last_joints-old now (some t) es (ground (arith, old.0)) old.1
  last_joints-old now j (controller_list _ _ ∷ es) h old = last_joints-old now j es h old.1
  last_joints-old now j (hardware_list _ _ ∷ es) h old = last_joints-old now j es h old.1

  -- What the state holds after the events, for any state to begin with.
  record Follows (es : List (Event P)) (a : Option (ℕ × List (String × String)))
      (s s' : RobotState P) : Type 0 where
    joint_stamp : s'.joint_stamp ≡ last_joints s.joint_stamp es
    controller_stamp : s'.controller_stamp ≡ stamp_of (last_controllers a es)
    controllers : s'.controllers ≡ listed (last_controllers a es)
    joint_messages : s'.joint_messages ≡ s.joint_messages + count_joints es

  run-Follows :
      (es : List (Event P)) (a : Option (ℕ × List (String × String))) (s : RobotState P)
      → s.controller_stamp ≡ stamp_of a
      → s.controllers ≡ listed a
      → Follows es a s (run es s)
  unfolding run update_joints update_controllers update_hardware
  run-Follows [] a s h k = record {
    joint_stamp = refl;
    controller_stamp = h;
    controllers = k;
    joint_messages = omega arith;
  }
  run-Follows (joint_message names positions velocities now ∷ es) a s h k =
      let s' = update_joints names positions velocities now s in
      let f = run-Follows es a s' h k in
      record {
        joint_stamp = f.joint_stamp;
        controller_stamp = f.controller_stamp;
        controllers = f.controllers;
        joint_messages = omega (arith, f.joint_messages);
      }
  run-Follows (controller_list answer now ∷ es) a s h k =
      let s' = update_controllers answer now s in
      let f = run-Follows es (some (now, answer)) s' refl refl in
      record {
        joint_stamp = f.joint_stamp;
        controller_stamp = f.controller_stamp;
        controllers = f.controllers;
        joint_messages = f.joint_messages;
      }
  run-Follows (hardware_list answer now ∷ es) a s h k =
      let s' = update_hardware answer now s in
      let f = run-Follows es a s' h k in
      record {
        joint_stamp = f.joint_stamp;
        controller_stamp = f.controller_stamp;
        controllers = f.controllers;
        joint_messages = f.joint_messages;
      }

  ready_by_parts :
      (at : Readings) (s : RobotState P) (j : Option ℕ) (a : Option (ℕ × List (String × String)))
      → s.joint_stamp ≡ j
      → s.controller_stamp ≡ stamp_of a
      → s.controllers ≡ listed a
      → is_ready at s ≡ (recent 1000 at.joint j && answered at.controller a)
  unfolding is_ready
  ready_by_parts at s none a p q r = ground arith
  ready_by_parts at s (some t) none p q r = ground arith
  ready_by_parts at s (some t) (some (u, answer)) p q r = ground arith

  -- After any events, the robot counts as ready exactly if the last joint message is at most a
  -- second old and the last controller list is at most six seconds old and has every required
  -- controller active; and the message counter counts the joint messages.
  pub run-ready :
      (es : List (Event P)) (started : ℕ) (at : Readings)
      → let s = run es (initial started) in
        (is_ready at s ≡ (
          recent 1000 at.joint (last_joints none es)
          && answered at.controller (last_controllers none es)))
        × (s.joint_messages ≡ count_joints es)
  run-ready es started at =
      let f = run-Follows es none (initial started) refl refl in
      (
        ready_by_parts at (run es (initial started)) (last_joints none es)
            (last_controllers none es) f.joint_stamp f.controller_stamp f.controllers,
        omega (arith, f.joint_messages),
      )

  -- If no joint message came in within the last second, the robot does not count as ready,
  -- whatever else came in.
  pub silent_not_ready :
      (es : List (Event P)) (started : ℕ) (at : Readings)
      → All (λ e. IsOld at.joint e) es
      → is_ready at (run es (initial started)) ≡ false
  silent_not_ready es started at old =
      ground (arith, (run-ready es started at).0, last_joints-old at.joint none es refl old)
