-- ===== src/Control/Client/Safety.antt =====
-- Which goals leave the client of robot_client.py.
use vn_robotics.Prelude.{
  ◌≡◌, refl, sym, true, false, String, List, [], ◌∷◌, ◌++◌, arith, length, ◌==◌, number_eq,
  string_eq, contains, lookup, Bool-cases, Option-cases, inl, inr, ◌⊎◌,
}
use mathlib.Core.Path.{subst}
use vn_robotics.Py.Errors.{Exn, ok, raise, value_error, limit_violation, Result-cases}
use vn_robotics.Py.Exec.{◌>>=◌}
use vn_robotics.Py.Json.{Number}
use vn_robotics.Control.Client.{
  arm_joints, Goal, arm, gripper, Message, Answer, Client, spin, get_arm_pose, set_at, within,
  check_within_limits, check_all_joints, move_joints, move_joint, move_to_named, poses, set_gripper,
  at_pose,
}
use vn_robotics.Control.Client.Delivery.{
  Keeps, get_arm_pose-Keeps, get_arm_pose-client, spin-Keeps, send-up, send-down,
}

-- A call of the client.
pub data Call (F : Type 0) : Type 0 where
  joints : (positions : List F) (duration : F) (answer : Answer F) → Call F
  joint :
      (name : String) (position duration : F) (arrivals : List (Message F)) (answer : Answer F)
      → Call F
  named : (pose : String) (duration : F) (answer : Answer F) → Call F
  grip : (position max_effort : F) (answer : Answer F) → Call F
  look : (target : List F) (tolerance : F) (arrivals : List (Message F)) → Call F

module _ {F : Type 0} ⦃n : Number F⦄ where
  -- Each joint's position lies within its limit, where the limit is known.
  unfoldable pub InLimits : List (String × (F × F)) → List String → List F → Type 0
  InLimits limits (j ∷ js) (p ∷ ps) = (within (lookup j limits) p ≡ true) × InLimits limits js ps
  InLimits limits _ _ = Unit

  check_all_joints-InLimits :
      (limits : List (String × (F × F))) (js : List String) (ps : List F)
      → InLimits limits js ps
        ⊎ ((e : Exn) × (check_all_joints limits js ps ≡ raise e) × (InLimits limits js ps → ⊥))
  unfolding InLimits check_all_joints check_within_limits
  check_all_joints-InLimits limits [] ps = inl tt
  check_all_joints-InLimits limits (j ∷ js) [] = inl tt
  check_all_joints-InLimits limits (j ∷ js) (p ∷ ps) =
      elim (Bool-cases (within (lookup j limits) p)) [
        | inr b ↦
            inr (limit_violation j, rw (check_all_joints, b) refl, λ h. ground (arith, b, h.0))
        | inl b ↦ elim (check_all_joints-InLimits limits js ps) [
          | inl h ↦ inl (b, h)
          | inr (e, r, bad) ↦ inr (e, rw (check_all_joints, b) r, λ h. bad h.1)
        ]
      ]

  InLimits-ok :
      (limits : List (String × (F × F))) (js : List String) (ps : List F)
      → InLimits limits js ps
      → check_all_joints limits js ps ≡ ok tt
  unfolding InLimits check_all_joints check_within_limits
  InLimits-ok limits [] ps h = refl
  InLimits-ok limits (j ∷ js) [] h = refl
  InLimits-ok limits (j ∷ js) (p ∷ ps) (b, h) =
      rw (check_all_joints, b) (InLimits-ok limits js ps h)

  -- The positions that move_joints accepts.
  abbrev pub Acceptable : List (String × (F × F)) → List F → Type 0
  Acceptable limits ps = (length ps ≡ 4) × InLimits limits arm_joints ps

  -- Positions that are four in number and within the known limits go to the action server if it is
  -- up, as the last goal; any others are refused with an exception and the client stays as it was.
  pub move_joints-Acceptable :
      (ps : List F) (d : F) (a : Answer F) (c : Client F)
      → (Acceptable c.limits ps
          × (a.up ≡ true → (move_joints ps d a c).1.goals ≡ c.goals ++ arm ps d ∷ [])
          × (a.up ≡ false → (move_joints ps d a c).1 ≡ c))
        ⊎ ((Acceptable c.limits ps → ⊥) × (e : Exn) × (move_joints ps d a c ≡ (raise e, c)))
  unfolding move_joints
  move_joints-Acceptable ps d a c = elim (Bool-cases (length ps == 4)) [
    | inr l ↦ inr (λ h. ground (arith, l, h.0), value_error, rw l refl)
    | inl l ↦ elim (check_all_joints-InLimits c.limits arm_joints ps) [
      | inr (e, r, bad) ↦ inr (λ h. bad h.1, e, rw (l, r) refl)
      | inl h ↦ inl (
        (ground arith, h),
        (λ up. rw (l, InLimits-ok c.limits arm_joints ps h) (send-up (arm ps d) a c up)),
        (λ down. rw (l, InLimits-ok c.limits arm_joints ps h) (send-down (arm ps d) a c down)),
      )
    ]
  ]

  -- What one call may do to the goals that were sent.
  pub data Guarded (limits : List (String × (F × F))) (before : List (Goal F))
      : List (Goal F) → Type 0 where
    unsent : Guarded limits before before
    moved :
        (ps : List F) (d : F)
        → Acceptable limits ps
        → Guarded limits before (before ++ arm ps d ∷ [])
    gripped : (p e : F) → Guarded limits before (before ++ gripper p e ∷ [])

  -- What arrives before the call decides.
  abbrev pub arrivals_of : Call F → List (Message F)
  arrivals_of (joint name position duration arrivals answer) = arrivals
  arrivals_of (look target tolerance arrivals) = arrivals
  arrivals_of _ = []

  unfoldable pub perform : Call F → Client F → Client F
  perform (joints ps d a) c = (move_joints ps d a c).1
  perform (joint name p d ms a) c = (move_joint name p d ms a c).1
  perform (named pose d a) c = (move_to_named pose d a c).1
  perform (grip p e a) c = (set_gripper p e a c).1
  perform (look target t ms) c = (at_pose target t ms c).1

  move_joints-Guarded :
      (ps : List F) (d : F) (a : Answer F) (c : Client F)
      → Guarded c.limits c.goals (move_joints ps d a c).1.goals
  move_joints-Guarded ps d a c = elim (move_joints-Acceptable ps d a c) [
    | inr (x, e, r) ↦ rw r unsent
    | inl (h, up, down) ↦ elim (Bool-cases a.up) [
      | inl u ↦ subst (Guarded c.limits c.goals) (sym (up u)) (moved ps d h)
      | inr u ↦ rw (down u) unsent
    ]
  ]

  pose-Guarded :
      (f : List F → List F) (d : F) (ms : List (Message F)) (a : Answer F) (c : Client F)
      → Guarded
          (spin ms c).1.limits
          c.goals
          ((get_arm_pose ms >>= λ pose. move_joints (f pose) d a) c).1.goals
  unfolding Keeps
  pose-Guarded f d ms a c = elim (Result-cases (get_arm_pose ms c).0) [
    | inl (e, r) ↦ rw (r, get_arm_pose-Keeps ms c) unsent
    | inr (pose, r) ↦
        let mid = (spin ms c).1 in
        rw (r, get_arm_pose-client ms c)
          (subst (λ g. Guarded mid.limits g (move_joints (f pose) d a mid).1.goals)
            (spin-Keeps ms c) (move_joints-Guarded (f pose) d a mid))
  ]

  move_joint-Guarded :
      (name : String) (p d : F) (ms : List (Message F)) (a : Answer F) (c : Client F)
      → Guarded (spin ms c).1.limits c.goals (move_joint name p d ms a c).1.goals
  unfolding move_joint
  move_joint-Guarded name p d ms a c = elim (Bool-cases (contains name arm_joints)) [
    | inr x ↦ rw x unsent
    | inl x ↦ rw x (pose-Guarded (set_at arm_joints name p) d ms a c)
  ]

  move_to_named-Guarded :
      (pose : String) (d : F) (a : Answer F) (c : Client F)
      → Guarded c.limits c.goals (move_to_named pose d a c).1.goals
  unfolding move_to_named
  move_to_named-Guarded pose d a c = elim (Option-cases (lookup pose (poses {F = F} ⦃n = n⦄))) [
    | inl x ↦ rw (move_to_named, x) unsent
    | inr (ps, x) ↦ rw (move_to_named, x) (move_joints-Guarded ps d a c)
  ]

  set_gripper-Guarded :
      (p e : F) (a : Answer F) (c : Client F)
      → Guarded c.limits c.goals (set_gripper p e a c).1.goals
  unfolding set_gripper
  set_gripper-Guarded p e a c = elim (Bool-cases a.up) [
    | inl u ↦ rw (send-up (gripper p e) a c u) (gripped p e)
    | inr u ↦ rw (send-down (gripper p e) a c u) unsent
  ]

  at_pose-Guarded :
      (target : List F) (t : F) (ms : List (Message F)) (c : Client F)
      → Guarded (spin ms c).1.limits c.goals (at_pose target t ms c).1.goals
  unfolding at_pose Keeps
  at_pose-Guarded target t ms c = elim (Result-cases (get_arm_pose ms c).0) [
    | inl (e, r) ↦ rw (r, get_arm_pose-Keeps ms c) unsent
    | inr (pose, r) ↦ rw (r, get_arm_pose-Keeps ms c) unsent
  ]

  -- No call of the client sends more than one goal, it takes none back, and an arm goal that it
  -- sends has four positions, each within its limit if the limit is known when the call has read
  -- its messages.
  pub perform-Guarded :
      (k : Call F) (c : Client F)
      → Guarded (spin (arrivals_of k) c).1.limits c.goals (perform k c).goals
  unfolding perform spin
  perform-Guarded (joints ps d a) c = move_joints-Guarded ps d a c
  perform-Guarded (joint name p d ms a) c = move_joint-Guarded name p d ms a c
  perform-Guarded (named pose d a) c = move_to_named-Guarded pose d a c
  perform-Guarded (grip p e a) c = set_gripper-Guarded p e a c
  perform-Guarded (look target t ms) c = at_pose-Guarded target t ms c
