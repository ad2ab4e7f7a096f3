-- ===== src/Control/Client/Delivery.antt =====
-- What the client of robot_client.py receives sends nothing; a goal is sent if the server is up.
use vn_robotics.Prelude.{
  ◌≡◌, refl, ◌∙◌, true, false, ◌&&◌, String, Option, none, some, List, [], ◌∷◌, ◌++◌, arith, any,
  number_eq, string_eq, Bool-cases, inl, inr,
}
use vn_robotics.Py.Errors.{ok, Result-cases}
use vn_robotics.Py.Exec.{Exec, ◌>>=◌}
use vn_robotics.Control.Client.{
  Attribute, absent, given, set_named, set_bounds, Goal, Element, Message, joint_state, description,
  Answer, Client, set_limit, set_limits, receive, spin, get_joint_state, get_arm_pose, positions_of,
  Poll, connect, has_state, send,
}

module _ {F : Type 0} where
  unfoldable pub Keeps : {A : Type 0} → Exec (Client F) A → Type 0
  Keeps m = (c : Client F) → (m c).1.goals ≡ c.goals

  pub Keeps-then :
      {A B : Type 0} (m : Exec (Client F) A) (f : A → Exec (Client F) B)
      → Keeps m
      → ((a : A) → Keeps (f a))
      → Keeps (m >>= f)
  unfolding Keeps
  Keeps-then m f h k c = elim (Result-cases (m c).0) [
    | inl (e, r) ↦ rw r (h c)
    | inr (a, r) ↦ rw r (k a (m c).1 ∙ h c)
  ]

  set_bounds-Keeps : (name : String) (a b : Attribute F) → Keeps (set_bounds name a b)
  unfolding Keeps
  set_bounds-Keeps name (given (some l)) (given (some h)) c = refl
  set_bounds-Keeps name (given (some l)) (given none) c = refl
  set_bounds-Keeps name (given none) (given h) c = refl
  set_bounds-Keeps name (given l) absent c = refl
  set_bounds-Keeps name absent b c = refl

  set_named-Keeps :
      (name : Option String) (limit : Option (Attribute F × Attribute F))
      → Keeps (set_named name limit)
  unfolding Keeps
  set_named-Keeps none l c = refl
  set_named-Keeps (some n) none c = refl
  set_named-Keeps (some n) (some (a, b)) c = set_bounds-Keeps n a b c

  set_limits-Keeps : (es : List (Element F)) → Keeps (set_limits es)
  unfolding Keeps set_limits
  set_limits-Keeps [] c = refl
  set_limits-Keeps (e ∷ es) c =
      Keeps-then (set_limit e) _ (set_named-Keeps e.name e.limit) (λ u. set_limits-Keeps es) c

  receive-Keeps : (m : Message F) → Keeps (receive m)
  unfolding Keeps receive
  receive-Keeps (joint_state ns ps) c = refl
  receive-Keeps (description none) c = refl
  receive-Keeps (description (some es)) c = set_limits-Keeps es c

  pub spin-Keeps : (ms : List (Message F)) → Keeps (spin ms)
  unfolding Keeps spin
  spin-Keeps [] c = refl
  spin-Keeps (m ∷ ms) c = Keeps-then (receive m) _ (receive-Keeps m) (λ u. spin-Keeps ms) c

  pub get_arm_pose-Keeps : (ms : List (Message F)) → Keeps (get_arm_pose ms)
  unfolding Keeps get_arm_pose get_joint_state
  get_arm_pose-Keeps ms =
      Keeps-then (get_joint_state ms) _
        (Keeps-then (spin ms) (λ _ c. (positions_of c.state, c)) (spin-Keeps ms) (λ u c. refl))
        (λ d c. refl)

  -- A method after a reading of the pose works on the client that the spin left.
  pub get_arm_pose-client :
      (ms : List (Message F)) (c : Client F) → (get_arm_pose ms c).1 ≡ (spin ms c).1
  unfolding get_arm_pose get_joint_state
  get_arm_pose-client ms c = elim (Result-cases (spin ms c).0) [
    | inl (e, r) ↦ rw r refl
    | inr (a, r) ↦ elim (Result-cases (positions_of (spin ms c).1.state)) [
      | inl (e, q) ↦ rw (r, q) refl
      | inr (d, q) ↦ rw (r, q) refl
    ]
  ]

  pub send-up :
      (goal : Goal F) (a : Answer F) (c : Client F)
      → a.up ≡ true
      → (send goal a c).1.goals ≡ c.goals ++ goal ∷ []
  unfolding send Keeps
  send-up goal a c h =
      let c' = record c { goals = c.goals ++ goal ∷ [] } in
      elim (Result-cases (spin a.meanwhile c').0) [
        | inl (e, r) ↦ rw (h, r) (spin-Keeps a.meanwhile c')
        | inr (u, r) ↦ elim (Bool-cases a.accepted) [
          | inl p ↦ rw (h, r, p) (spin-Keeps a.meanwhile c')
          | inr p ↦ rw (h, r, p) (spin-Keeps a.meanwhile c')
        ]
      ]

  pub send-down :
      (goal : Goal F) (a : Answer F) (c : Client F) → a.up ≡ false → (send goal a c).1 ≡ c
  unfolding send
  send-down goal a c h = rw h refl

  -- A connection that is made sent no goal, it ends with a joint state at hand, and both action
  -- servers were up at one of its turns.
  pub connect-has_state :
      (ps : List (Poll F)) (c : Client F)
      → (connect ps c).0 ≡ ok tt
      → (has_state (connect ps c).1 ≡ true)
        × (any (λ p. p.arm_up && p.gripper_up) ps ≡ true)
        × ((connect ps c).1.goals ≡ c.goals)
  unfolding connect Keeps
  connect-has_state [] c = λ h. absurd (ground arith)
  connect-has_state (p ∷ ps) c =
      let after = (spin p.delivered c).1 in
      elim (Result-cases (spin p.delivered c).0) [
        | inl (e, r) ↦ rw r λ h. absurd (ground arith)
        | inr (u, r) ↦ elim (Bool-cases (has_state after && p.arm_up && p.gripper_up)) [
          | inl b ↦ rw (r, b) λ h. (ground arith, ground arith, spin-Keeps p.delivered c)
          | inr b ↦
              rw (r, b)
                λ h.
                  let (state, up, kept) = connect-has_state ps after h in
                  (state, ground (arith, up), kept ∙ spin-Keeps p.delivered c)
        ]
      ]
