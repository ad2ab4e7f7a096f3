-- ===== src/Control/Arm/Joints.antt =====
-- The scenarios of arm.py that read the joints between their steps: SafetyLimit and MoveJoint.
use vn_robotics.Prelude.{
  Bool, true, false, not, String, none, some, List, [], ◌∷◌, ◌==◌, string_eq, lookup, keep,
  if◌then◌else◌,
}
use vn_robotics.Py.Errors.{Result, ok, raise, key_error, limit_violation, assertion_error, or_raise}
use vn_robotics.Py.Exec.{Exec, pure, lift, ◌>>=◌}
use vn_robotics.Py.Json.{Number}
use vn_robotics.Control.Scenario.{Stage}
use vn_robotics.Control.Client.{arm_joints}
use vn_robotics.Control.Arm.{
  Bench, Surroundings, joint_state_now, joint_now, self_step, between, go_home, move_one,
}

-- Only LimitViolation is caught.
abbrev pub must_refuse : {S : Type 0} → Result (Unit {0}) × S → Result (Unit {0}) × S
must_refuse (raise (limit_violation joint), s) = (ok tt, s)
must_refuse (raise e, s) = (raise e, s)
must_refuse (ok u, s) = (raise assertion_error, s)

module _ {F : Type 0} ⦃n : Number F⦄ where
  abbrev pub overshoot : F
  overshoot = n.literal 314159 5

module _ {F : Type 0} ⦃n : Number F⦄ (around : Surroundings F) where
  -- SafetyLimit._expect_rejection
  unfoldable pub expect_rejection : Exec (Bench F) Unit
  expect_rejection b = must_refuse (move_one around "shoulder_pan_joint" overshoot b)

  abbrev pub pan_now : (F → Bool) → Exec (Bench F) Bool
  pan_now test = joint_now around "shoulder_pan_joint" >>= λ p. pure (test p)

  -- SafetyLimit.run
  unfoldable pub safety_limit_run : Exec (Stage (Bench F)) Unit
  safety_limit_run = self_step around "home first" (go_home around) none 300 >>= λ _.
      between (joint_now around "shoulder_pan_joint") >>= λ before.
      self_step around "out-of-limit command is rejected" expect_rejection none 500 >>= λ _.
      self_step around "joint did not move" (pure tt)
        (some (pan_now (λ p. n.le (n.abs (n.sub p before)) (n.literal 2 2)))) 500
      >>= λ _.
          self_step around "joint is still inside its limit" (pure tt)
            (some (pan_now (λ p. n.le (n.abs p) (n.add (n.literal 15708 4) (n.literal 2 2))))) 200

  -- all(abs(state[o] - expected[o]) <= 0.05 for o in rest)
  abbrev pub held : List String → (state expected : List (String × F)) → Result Bool
  held [] state expected = ok true
  held (o ∷ os) state expected = elim (or_raise (key_error o) (lookup o state)) [
    | raise e ↦ raise e
    | ok p ↦ elim (or_raise (key_error o) (lookup o expected)) [
      | raise e ↦ raise e
      | ok q ↦
          let rest = held os state expected in
          if n.le (n.abs (n.sub p q)) (n.literal 5 2) then rest else ok false
    ]
  ]

  -- The check of a step of MoveJoint.
  abbrev pub arrived : String → F → List (String × F) → Exec (Bench F) Bool
  arrived joint target expected = joint_state_now around >>= λ state.
      lift (or_raise (key_error joint) (lookup joint state)) >>= λ p.
      if n.lt (n.literal 2 2) (n.abs (n.sub p target))
      then pure false
      else lift (held (keep (λ j. not (j == joint)) arm_joints) state expected)

  -- MoveJoint.run from a joint on; a step is named by its joint
  unfoldable pub move_each : List (String × F) → Exec (Stage (Bench F)) Unit
  move_each [] = pure tt
  move_each ((joint, target) ∷ rest) = between (joint_state_now around) >>= λ expected.
      self_step around joint (move_one around joint target) (some (arrived joint target expected))
        300
      >>= λ _. move_each rest

  abbrev pub joint_targets : List (String × F)
  joint_targets =
      ("shoulder_pan_joint", n.literal 4 1)
      ∷ ("shoulder_lift_joint", n.literal 5 1)
      ∷ ("elbow_joint", n.sub (n.literal 0 0) (n.literal 4 1))
      ∷ ("wrist_joint", n.literal 3 1)
      ∷ []

  -- MoveJoint.run
  unfoldable pub move_joint_run : Exec (Stage (Bench F)) Unit
  unfolding move_each
  move_joint_run =
      self_step around "home first" (go_home around) none 300 >>= λ _. move_each joint_targets
