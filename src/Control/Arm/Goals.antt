-- ===== src/Control/Arm/Goals.antt =====
-- What the scenarios of arm.py that are rows of steps send to the robot.
use vn_robotics.Prelude.{
  ◌≡◌, refl, sym, Bool, String, Option, none, some, List, [], ◌∷◌, ◌++◌, length, ◌==◌, number_eq,
  Bool-cases, inl, inr, lookup, string_eq,
}
use mathlib.Core.Path.{subst}
use vn_robotics.Py.Errors.{key_error, value_error, or_raise}
use vn_robotics.Py.Exec.{lift, gets}
use vn_robotics.Py.Json.{Number}
use vn_robotics.Control.Scenario.Steps.{Spec, run_steps}
use vn_robotics.Control.Client.{
  Goal, arm, gripper, Client, Answer, Message, spin, get_joint_state, get_arm_pose, at_pose,
  move_joints, move_to_named, home, poses, check_all_joints, arm_joints, set_gripper, open_gripper,
  close_gripper, positions_of, close_to,
}
use vn_robotics.Control.Client.Delivery.{Keeps, Keeps-then, spin-Keeps, get_arm_pose-Keeps}
use vn_robotics.Control.Arm.{
  Bench, Surroundings, bench, self_step, go_home, go_to, open_hand, close_hand, at_target,
  finger_now, joint_now, joint_state_now,
}
use vn_robotics.Control.Arm.Sent.{
  Sends, Sends-pure, Sends-lift, Sends-gets, Sends-throw, Sends-then, client_goals, bench_goals,
  stage_goals, Keeps-Sends, take_turn-Sends, send-Sends, Quiet, step-Sends,
}

module _ {F : Type 0} ⦃n : Number F⦄ where
  pub move_joints-Sends :
      (ps : List F) (d : F) (answer : Answer F)
      → Sends client_goals (arm ps d ∷ []) (move_joints ps d answer)
  unfolding move_joints
  move_joints-Sends ps d answer = elim (Bool-cases (length ps == length arm_joints)) [
    | inr bad ↦ rw bad (Sends-throw client_goals Unit (arm ps d ∷ []) value_error)
    | inl good ↦ rw good (
        Sends-then client_goals [] (arm ps d ∷ []) (gets (λ (c : Client F). c.limits)) _
          (Sends-gets client_goals (λ (c : Client F). c.limits))
          (λ limits.
            Sends-then client_goals [] (arm ps d ∷ [])
              (lift (check_all_joints limits arm_joints ps)) _
              (Sends-lift client_goals (check_all_joints limits arm_joints ps))
              (λ u. send-Sends (arm ps d) answer)))
  ]

  pub move_to_named-Sends :
      (pose : String) (ps : List F) (d : F) (answer : Answer F)
      → lookup pose poses ≡ some ps
      → Sends client_goals (arm ps d ∷ []) (move_to_named pose d answer)
  unfolding move_to_named
  move_to_named-Sends pose ps d answer e = rw (move_to_named, e) (move_joints-Sends ps d answer)

  pub at_pose-Sends :
      (target : List F) (tolerance : F) (ms : List (Message F))
      → Sends client_goals [] (at_pose target tolerance ms)
  unfolding at_pose
  at_pose-Sends target tolerance ms =
      Sends-then client_goals [] [] (get_arm_pose ms) _
        (Keeps-Sends (get_arm_pose ms) (get_arm_pose-Keeps ms))
        (λ pose. Sends-pure client_goals (close_to tolerance pose target))

  get_joint_state-Keeps : (ms : List (Message F)) → Keeps (get_joint_state ms)
  unfolding Keeps get_joint_state
  get_joint_state-Keeps ms =
      Keeps-then (spin ms) (λ _ c. (positions_of c.state, c)) (spin-Keeps ms) (λ u c. refl)

  module _ (around : Surroundings F) where
    pub go_home-Sends :
        (ps : List F)
        → lookup "home" poses ≡ some ps
        → Sends bench_goals (arm ps (n.literal 25 1) ∷ []) (go_home around)
    unfolding home
    go_home-Sends ps e =
        take_turn-Sends (arm ps (n.literal 25 1) ∷ [])
          (λ turn. home (n.literal 25 1) (around.answer turn))
          (λ turn. move_to_named-Sends "home" ps (n.literal 25 1) (around.answer turn) e)

    pub go_to-Sends :
        (pose : String) (ps : List F) (d : F)
        → lookup pose poses ≡ some ps
        → Sends bench_goals (arm ps d ∷ []) (go_to around pose d)
    go_to-Sends pose ps d e =
        take_turn-Sends (arm ps d ∷ []) (λ turn. move_to_named pose d (around.answer turn))
          (λ turn. move_to_named-Sends pose ps d (around.answer turn) e)

    pub open_hand-Sends :
        Sends bench_goals (gripper (n.literal 18 3) (n.literal 5 0) ∷ []) (open_hand around)
    unfolding open_gripper set_gripper
    open_hand-Sends =
        take_turn-Sends _ (λ turn. open_gripper (around.answer turn))
          (λ turn. send-Sends (gripper (n.literal 18 3) (n.literal 5 0)) (around.answer turn))

    pub close_hand-Sends :
        Sends bench_goals (gripper (n.literal 0 0) (n.literal 5 0) ∷ []) (close_hand around)
    unfolding close_gripper set_gripper
    close_hand-Sends =
        take_turn-Sends _ (λ turn. close_gripper (n.literal 5 0) (around.answer turn))
          (λ turn. send-Sends (gripper (n.literal 0 0) (n.literal 5 0)) (around.answer turn))

    pub at_target-Sends :
        (target : Option (List F)) (pose : String)
        → Sends bench_goals [] (at_target around target pose)
    at_target-Sends none pose = Sends-throw bench_goals Bool [] (key_error pose)
    at_target-Sends (some target) pose =
        take_turn-Sends [] (λ turn. at_pose target (n.literal 2 2) (around.arrivals turn))
          (λ turn. at_pose-Sends target (n.literal 2 2) (around.arrivals turn))

    pub joint_now-Sends : (joint : String) → Sends bench_goals [] (joint_now around joint)
    joint_now-Sends joint =
        Sends-then bench_goals [] [] (joint_state_now around) _
          (take_turn-Sends [] (λ turn. get_joint_state (around.arrivals turn))
            (λ turn.
              Keeps-Sends (get_joint_state (around.arrivals turn))
                (get_joint_state-Keeps (around.arrivals turn))))
          (λ state. Sends-lift bench_goals (or_raise (key_error joint) (lookup joint state)))

    pub finger_now-Sends : (test : F → Bool) → Sends bench_goals [] (finger_now around test)
    finger_now-Sends test =
        Sends-then bench_goals [] [] (joint_now around "gripper_left_finger_joint") _
          (joint_now-Sends "gripper_left_finger_joint") (λ p. Sends-pure bench_goals (test p))

    -- Rows of steps and the goals that each sends.
    abbrev pub Rows : List (Spec (Bench F)) → List (Goal F) → Type 0
    Rows [] gs = gs ≡ []
    Rows (s ∷ ss) gs =
        (own : List (Goal F)) × (rest : List (Goal F)) × Sends bench_goals own s.action
        × Quiet around s.check
        × (own ++ rest ≡ gs)
        × Rows ss rest

    pub run_steps-Sends :
        (ss : List (Spec (Bench F))) (gs : List (Goal F))
        → Rows ss gs
        → Sends stage_goals gs (run_steps (bench around) ss)
    unfolding run_steps
    run_steps-Sends [] gs e =
        subst (λ l. Sends stage_goals l (run_steps (bench around) [])) (sym e)
          (Sends-pure stage_goals tt)
    run_steps-Sends (s ∷ ss) gs (own, rest, sent, quiet, e, rows) =
        subst (λ l. Sends stage_goals l (run_steps (bench around) (s ∷ ss))) e
          (Sends-then stage_goals own rest (self_step around s.name s.action s.check s.time)
            (λ u. run_steps (bench around) ss)
            (step-Sends around own s.action s.check s.time s.name sent quiet)
            (λ u. run_steps-Sends ss rest rows))
