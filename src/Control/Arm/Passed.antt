-- ===== src/Control/Arm/Passed.antt =====
-- A scenario of arm.py that is a row of steps and that passed has sent its goals, in their order.
use vn_robotics.Prelude.{
  ◌≡◌, refl, sym, ap, ◌∙◌, true, String, none, some, List, [], ◌∷◌, ◌++◌, all, lookup, string_eq,
}
use vn_robotics.Py.Errors.{ok, or_raise, robot_not_ready}
use vn_robotics.Py.Json.{Number}
use vn_robotics.Control.Scenario.{Stage, ScenarioResult, passed, execute}
use vn_robotics.Control.Scenario.Steps.{
  Spec, run_steps, run_steps-After, Ran-all, finish-ok, outcome,
}
use vn_robotics.Control.Client.{Goal, arm, gripper, poses, spin}
use vn_robotics.Control.Client.Delivery.{spin-Keeps}
use vn_robotics.Control.Arm.{
  Bench, Surroundings, bench, is_at_pose, home_steps, move_to_position_steps, gripper_steps,
  pick_and_place_steps, fingers_mirrored, get_translation,
}
use vn_robotics.Control.Arm.Sent.{
  Sends, Sends-pure, Sends-lift, Sends-then, client_goals, bench_goals, Keeps-Sends,
  take_turn-Sends,
}
use vn_robotics.Control.Arm.Goals.{
  Rows, run_steps-Sends, go_home-Sends, go_to-Sends, open_hand-Sends, close_hand-Sends,
  at_target-Sends, finger_now-Sends,
}

-- The scenarios that are rows of steps.
pub data RowScenario : Type 0 where
  home_row move_to_position_row gripper_row pick_and_place_row : RowScenario

abbrev pub name_of : RowScenario → String
name_of home_row = "home"
name_of move_to_position_row = "move_to_position"
name_of gripper_row = "gripper"
name_of pick_and_place_row = "pick_and_place"

module _ {F : Type 0} ⦃n : Number F⦄ where
  abbrev pub pose_of : String → List F
  pose_of pose = elim (lookup pose poses) [ none ↦ [] | some ps ↦ ps ]

  abbrev home_goal : Goal F
  home_goal = arm (pose_of "home") (n.literal 25 1)

  abbrev goal_to : String → F → Goal F
  goal_to pose duration = arm (pose_of pose) duration

  abbrev opening : Goal F
  opening = gripper (n.literal 18 3) (n.literal 5 0)

  abbrev closing : Goal F
  closing = gripper (n.literal 0 0) (n.literal 5 0)

  -- What each scenario is to send.
  abbrev pub goals_of : RowScenario → List (Goal F)
  goals_of home_row = home_goal ∷ []
  goals_of move_to_position_row =
      let two = n.literal 2 0 in
      goal_to "home" two
      ∷ goal_to "ready" two
      ∷ goal_to "pick" two
      ∷ goal_to "place" two
      ∷ goal_to "home" two
      ∷ []
  goals_of gripper_row = home_goal ∷ opening ∷ closing ∷ []
  goals_of pick_and_place_row =
      home_goal
      ∷ opening
      ∷ goal_to "pick" (n.literal 25 1)
      ∷ closing
      ∷ goal_to "place" (n.literal 3 0)
      ∷ opening
      ∷ home_goal
      ∷ []

  module _ (around : Surroundings F) where
    abbrev pub steps_of : RowScenario → List (Spec (Bench F))
    steps_of home_row = home_steps around
    steps_of move_to_position_row = move_to_position_steps around
    steps_of gripper_row = gripper_steps around
    steps_of pick_and_place_row = pick_and_place_steps around

    translation-Sends :
        (parent child : String) → Sends bench_goals [] (get_translation around parent child)
    unfolding get_translation
    translation-Sends parent child = take_turn-Sends [] _ (λ turn.
        Sends-then client_goals [] [] (spin (around.arrivals turn)) _
          (Keeps-Sends (spin (around.arrivals turn)) (spin-Keeps (around.arrivals turn)))
          (λ u.
            Sends-lift client_goals
              (or_raise robot_not_ready (around.transform turn parent child))))

    fingers-Sends : Sends bench_goals [] (fingers_mirrored around)
    fingers-Sends =
        Sends-then bench_goals [] []
          (get_translation around "gripper_base_link" "gripper_left_finger_link") _
          (translation-Sends "gripper_base_link" "gripper_left_finger_link")
          (λ left.
            Sends-then bench_goals [] []
              (get_translation around "gripper_base_link" "gripper_right_finger_link") _
              (translation-Sends "gripper_base_link" "gripper_right_finger_link")
              (λ right. Sends-pure bench_goals _))

    is_at_pose-Sends : (pose : String) → Sends bench_goals [] (is_at_pose around pose)
    is_at_pose-Sends pose = at_target-Sends around (lookup pose poses) pose

    rows : (k : RowScenario) → Rows around (steps_of k) (goals_of k)
    unfolding lookup
    rows home_row = (_, _, go_home-Sends around _ refl, is_at_pose-Sends "home", refl, refl)
    rows move_to_position_row = (
      _,
      _,
      go_to-Sends around "home" _ _ refl,
      is_at_pose-Sends "home",
      refl,
      (
        _,
        _,
        go_to-Sends around "ready" _ _ refl,
        is_at_pose-Sends "ready",
        refl,
        (
          _,
          _,
          go_to-Sends around "pick" _ _ refl,
          is_at_pose-Sends "pick",
          refl,
          (
            _,
            _,
            go_to-Sends around "place" _ _ refl,
            is_at_pose-Sends "place",
            refl,
            (_, _, go_to-Sends around "home" _ _ refl, is_at_pose-Sends "home", refl, refl),
          ),
        ),
      ),
    )
    rows gripper_row = (
      _,
      _,
      go_home-Sends around _ refl,
      tt,
      refl,
      (
        _,
        _,
        open_hand-Sends around,
        finger_now-Sends around _,
        refl,
        (
          [],
          _,
          Sends-pure bench_goals tt,
          fingers-Sends,
          refl,
          (_, _, close_hand-Sends around, finger_now-Sends around _, refl, refl),
        ),
      ),
    )
    rows pick_and_place_row = (
      _,
      _,
      go_home-Sends around _ refl,
      is_at_pose-Sends "home",
      refl,
      (
        _,
        _,
        open_hand-Sends around,
        tt,
        refl,
        (
          _,
          _,
          go_to-Sends around "pick" _ _ refl,
          is_at_pose-Sends "pick",
          refl,
          (
            _,
            _,
            close_hand-Sends around,
            tt,
            refl,
            (
              _,
              _,
              go_to-Sends around "place" _ _ refl,
              is_at_pose-Sends "place",
              refl,
              (
                _,
                _,
                open_hand-Sends around,
                tt,
                refl,
                (_, _, go_home-Sends around _ refl, is_at_pose-Sends "home", refl, refl),
              ),
            ),
          ),
        ),
      ),
    )

    -- In any surroundings: a scenario among Home, MoveToPosition, Gripper and PickAndPlace whose
    -- execution
    -- gives a result that passed has sent the goals of its name in their order, each arm goal with
    -- the positions
    -- of its pose, and no other goal.
    pub execute-goals_of :
        (k : RowScenario) (b : Bench F) (r : ScenarioResult)
        → (execute (name_of k) (run_steps (bench around) (steps_of k)) b).0 ≡ ok r
        → passed r ≡ true
        → bench_goals (execute (name_of k) (run_steps (bench around) (steps_of k)) b).1
          ≡ bench_goals b ++ goals_of k
    unfolding execute Sends
    execute-goals_of k b r h good =
        let start : Stage (Bench F) = record {
          world = b;
          result = record { name = name_of k; steps = [] };
        } in
        let after = run_steps-After (bench around) (steps_of k) start in
        let ended = run_steps (bench around) (steps_of k) start in
        let whole = finish-ok (bench around) ended after.done after.returned in
        let given : ok ended.1.result ≡ ok r = sym (ap (λ p. p.0) whole) ∙ h in
        let same : ended.1.result ≡ r = cc (given) in
        let all_done : after.done ≡ true =
          sym (Ran-all after.ran)
          ∙ (ap (λ l. all (λ t. t.passed) l) (sym after.recorded) ∙ (ap passed same ∙ good)) in
        ap (λ p. bench_goals p.1) whole
        ∙ run_steps-Sends around (steps_of k) (goals_of k) (rows k) start tt
            (after.returned ∙ ap outcome all_done)
