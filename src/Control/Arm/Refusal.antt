-- ===== src/Control/Arm/Refusal.antt =====
-- SafetyLimit of arm.py: the command past the limit leaves nothing at the robot.
use vn_robotics.Prelude.{
  ◌≡◌, refl, sym, ap, ◌∙◌, Bool, none, some, List, [], ◌∷◌, ◌++◌, number_eq, lookup, string_eq,
}
use mathlib.Core.List.{append-nil}
use vn_robotics.Py.Errors.{ok}
use vn_robotics.Py.Exec.{pure}
use vn_robotics.Py.Json.{Number}
use vn_robotics.Control.Scenario.{Stage}
use vn_robotics.Control.Client.{arm, poses}
use vn_robotics.Control.Arm.{Bench, Surroundings, between, go_home, joint_now, move_one, self_step}
use vn_robotics.Control.Arm.Joints.{expect_rejection, overshoot, pan_now, safety_limit_run}
use vn_robotics.Control.Arm.Sent.{
  Sends, Sends-pure, Sends-then, bench_goals, stage_goals, between-Sends, step-Sends,
}
use vn_robotics.Control.Arm.Goals.{go_home-Sends, joint_now-Sends}
use vn_robotics.Control.Arm.Raises.{Refuses, must_refuse-ok, move_joint-Refuses}

module _ {F : Type 0} ⦃n : Number F⦄ (around : Surroundings F) where
  expect_rejection-Sends : Sends bench_goals [] (expect_rejection around)
  unfolding Sends expect_rejection Refuses
  expect_rejection-Sends b u h =
      let tried = move_one around "shoulder_pan_joint" overshoot b in
      let ((joint, e), same) = must_refuse-ok tried.0 tried.1 u h in
      ap bench_goals same
      ∙ (move_joint-Refuses "shoulder_pan_joint" overshoot (n.literal 2 0) (around.arrivals b.turn)
            (around.answer b.turn) b.client joint e
          ∙ sym (append-nil b.client.goals))

  pan_now-Sends : (test : F → Bool) → Sends bench_goals [] (pan_now around test)
  pan_now-Sends test =
      Sends-then bench_goals [] [] (joint_now around "shoulder_pan_joint") _
        (joint_now-Sends around "shoulder_pan_joint") (λ p. Sends-pure bench_goals (test p))

  safety_limit_run-Sends :
      (ps : List F)
      → lookup "home" poses ≡ some ps
      → Sends stage_goals (arm ps (n.literal 25 1) ∷ []) (safety_limit_run around)
  unfolding safety_limit_run
  safety_limit_run-Sends ps e =
      Sends-then stage_goals (arm ps (n.literal 25 1) ∷ []) []
        (self_step around "home first" (go_home around) none 300) _
        (step-Sends around (arm ps (n.literal 25 1) ∷ []) (go_home around) none 300 "home first"
          (go_home-Sends around ps e) tt)
        (λ u.
          Sends-then stage_goals [] [] (between (joint_now around "shoulder_pan_joint")) _
            (between-Sends [] (joint_now around "shoulder_pan_joint")
              (joint_now-Sends around "shoulder_pan_joint"))
            (λ before.
              Sends-then stage_goals [] []
                (self_step around "out-of-limit command is rejected" (expect_rejection around) none
                  500)
                _
                (step-Sends around [] (expect_rejection around) none 500
                  "out-of-limit command is rejected" expect_rejection-Sends tt)
                (λ v.
                  Sends-then stage_goals [] []
                    (self_step around "joint did not move" (pure tt) _ 500) _
                    (step-Sends around [] (pure tt) _ 500 "joint did not move"
                      (Sends-pure bench_goals tt) (pan_now-Sends _))
                    (λ w.
                      step-Sends around [] (pure tt) _ 200 "joint is still inside its limit"
                        (Sends-pure bench_goals tt) (pan_now-Sends _)))))

  -- In any surroundings, a run of SafetyLimit that gets to its end without an exception has sent
  -- the goal of the
  -- pose home and no other: the command past the limit did not reach the robot.
  pub safety_limit_run-sent :
      (s : Stage (Bench F))
      → (safety_limit_run around s).0 ≡ ok tt
      → stage_goals (safety_limit_run around s).1
        ≡ stage_goals s
          ++ arm
              (n.literal 0 0 ∷ n.literal 0 0 ∷ n.literal 0 0 ∷ n.literal 0 0 ∷ [])
              (n.literal 25 1)
            ∷ []
  unfolding Sends lookup
  safety_limit_run-sent s h = safety_limit_run-Sends _ refl s tt h
