-- ===== src/Control/Arm/Raises.antt =====
-- A command of the client that is refused for its limit has sent nothing.
use vn_robotics.Prelude.{
  ℕ, ◌≡◌, ◌≢◌, refl, sym, ap, ◌∙◌, Bool, true, false, not, String, Option, none, some, List, [],
  ◌∷◌, ◌++◌, length, ◌==◌, number_eq, if◌then◌else◌, arith, Bool-cases, inl, inr, string_eq,
  contains,
}
use mathlib.Core.Path.{subst}
use vn_robotics.Py.Errors.{
  Exn, Result, ok, raise, key_error, missing_number, type_error, attribute_error, index_error,
  runtime_error, not_implemented, file_not_found, os_error, url_error, http_error, http_exception,
  scenario_failed, value_error, limit_violation, robot_not_ready, motion_failed, assertion_error,
  zero_division, cv_error, Result-cases,
}
use vn_robotics.Py.Exec.{Exec, throw, lift, gets, modify, continue, ◌>>=◌}
use vn_robotics.Py.Json.{Number}
use vn_robotics.Control.Client.{
  Goal, arm, Client, Answer, Message, joint_state, description, Element, Attribute, absent, given,
  set_bounds, set_named, set_limit, set_limits, receive, spin, send, conclude, get_arm_pose,
  move_joints, move_joint, check_all_joints, arm_joints, set_at,
}
use vn_robotics.Control.Client.Delivery.{Keeps, get_arm_pose-Keeps}
use vn_robotics.Control.Arm.Joints.{must_refuse}

-- An exception of a first part is that of the whole.
carried :
    {S A B : Type 0} (d e : Exn) (f : A → Exec S B) (r : Result A) (s : S)
    → r ≡ raise d
    → (continue r f s).0 ≡ raise e
    → d ≡ e
carried d e f (ok a) s p h = absurd (ground arith)
carried d e f (raise x) s p h = cc

module _ {F : Type 0} where
  -- What a callback raises is a ValueError.
  set_bounds_raises :
      (name : String) (low high : Attribute F) (c : Client F) (e : Exn)
      → (set_bounds name low high c).0 ≡ raise e
      → e ≡ value_error
  set_bounds_raises name absent high c e h = absurd (ground arith)
  set_bounds_raises name (given low) absent c e h = absurd (ground arith)
  set_bounds_raises name (given none) (given high) c e h = ground arith
  set_bounds_raises name (given (some l)) (given none) c e h = ground arith
  set_bounds_raises name (given (some l)) (given (some u)) c e h = absurd (ground arith)

  set_named_raises :
      (name : Option String) (limit : Option (Attribute F × Attribute F)) (c : Client F) (e : Exn)
      → (set_named name limit c).0 ≡ raise e
      → e ≡ value_error
  set_named_raises none limit c e h = absurd (ground arith)
  set_named_raises (some name) none c e h = absurd (ground arith)
  set_named_raises (some name) (some (low, high)) c e h = set_bounds_raises name low high c e h

  set_limits_raises :
      (es : List (Element F)) (c : Client F) (e : Exn)
      → (set_limits es c).0 ≡ raise e
      → e ≡ value_error
  unfolding set_limits
  set_limits_raises [] c e h = absurd (ground arith)
  set_limits_raises (x ∷ xs) c e h = elim (Result-cases (set_limit x c).0) [
    | inl (d, r) ↦
        sym (carried d e (λ v. set_limits xs) (set_limit x c).0 (set_limit x c).1 r h)
        ∙ set_named_raises x.name x.limit c d r
    | inr (u, r) ↦
        set_limits_raises xs (set_limit x c).1 e
          (subst (λ y. (continue y (λ v. set_limits xs) (set_limit x c).1).0 ≡ raise e) r h)
  ]

  receive_raises :
      (m : Message F) (c : Client F) (e : Exn) → (receive m c).0 ≡ raise e → e ≡ value_error
  unfolding receive
  receive_raises (joint_state names positions) c e h = absurd (ground arith)
  receive_raises (description none) c e h = absurd (ground arith)
  receive_raises (description (some elements)) c e h = set_limits_raises elements c e h

  spin_raises :
      (ms : List (Message F)) (c : Client F) (e : Exn) → (spin ms c).0 ≡ raise e → e ≡ value_error
  unfolding spin
  spin_raises [] c e h = absurd (ground arith)
  spin_raises (m ∷ ms) c e h = elim (Result-cases (receive m c).0) [
    | inl (d, r) ↦
        sym (carried d e (λ v. spin ms) (receive m c).0 (receive m c).1 r h)
        ∙ receive_raises m c d r
    | inr (u, r) ↦
        spin_raises ms (receive m c).1 e
          (subst (λ y. (continue y (λ v. spin ms) (receive m c).1).0 ≡ raise e) r h)
  ]

-- If the method raises LimitViolation, no goal was sent.
unfoldable pub Refuses : {F A : Type 0} → Exec (Client F) A → Type 0
Refuses {F} m =
    (c : Client F) (joint : String)
    → (m c).0 ≡ raise (limit_violation joint)
    → (m c).1.goals ≡ c.goals

module _ {F : Type 0} where
  Keeps-Refuses : {A : Type 0} (m : Exec (Client F) A) → Keeps m → Refuses m
  unfolding Keeps Refuses
  Keeps-Refuses m k c joint h = k c

  Refuses-then :
      {A B : Type 0} (m : Exec (Client F) A) (f : A → Exec (Client F) B)
      → Keeps m
      → ((a : A) → Refuses (f a))
      → Refuses (m >>= f)
  unfolding Keeps Refuses
  Refuses-then m f k j c joint h = elim (Result-cases (m c).0) [
    | inl (e, r) ↦ rw r (k c)
    | inr (a, r) ↦ rw r (
        j a (m c).1 joint
          (subst (λ y. (continue y f (m c).1).0 ≡ raise (limit_violation joint)) r h)
        ∙ k c)
  ]

-- The method does not raise LimitViolation.
unfoldable Never : {F A : Type 0} → Exec (Client F) A → Type 0
Never {F} m = (c : Client F) (joint : String) → (m c).0 ≢ raise (limit_violation joint)

conclude_raises :
    (status : Option ℕ) (joint : String) → conclude status ≢ raise (limit_violation joint)
conclude_raises none joint h = absurd (ground arith)
conclude_raises (some status) joint h = absurd (ground arith)

answered-Never :
    (F : Type 0) (accepted : Bool) (status : Option ℕ)
    → Never {F = F} (if not accepted then throw motion_failed else lift (conclude status))
unfolding Never
answered-Never F true status c joint h = conclude_raises status joint h
answered-Never F false status c joint h = absurd (ground arith)

module _ {F : Type 0} where
  Never-then :
      {A B : Type 0} (m : Exec (Client F) A) (f : A → Exec (Client F) B)
      → Never m
      → ((a : A) → Never (f a))
      → Never (m >>= f)
  unfolding Never
  Never-then m f k j c joint h = elim (Result-cases (m c).0) [
    | inl (e, r) ↦
        k c joint (r ∙ ap raise (carried e (limit_violation joint) f (m c).0 (m c).1 r h))
    | inr (a, r) ↦
        j a (m c).1 joint
          (subst (λ y. (continue y f (m c).1).0 ≡ raise (limit_violation joint)) r h)
  ]

  spin-Never : (ms : List (Message F)) → Never (spin ms)
  unfolding Never
  spin-Never ms c joint h =
      let e = spin_raises ms c (limit_violation joint) h in absurd (ground arith)

  Never-Refuses : {A : Type 0} (m : Exec (Client F) A) → Never m → Refuses m
  unfolding Never Refuses
  Never-Refuses m k c joint h = absurd (k c joint h)

  send-Refuses : (goal : Goal F) (answer : Answer F) → Refuses (send goal answer)
  unfolding send
  send-Refuses goal answer = elim (Bool-cases answer.up) [
    | inr down ↦ rw down (Keeps-Refuses (throw robot_not_ready) (unfold Keeps in λ c. refl))
    | inl up ↦ rw up (
        Never-Refuses _ (
          Never-then (modify (λ c. record c { goals = c.goals ++ goal ∷ [] })) _
            (unfold Never in λ c joint h. absurd (ground arith))
            (λ u.
              Never-then (spin answer.meanwhile) _ (spin-Never answer.meanwhile)
                (λ v. answered-Never F answer.accepted answer.status))))
  ]

module _ {F : Type 0} ⦃n : Number F⦄ where
  move_joints-Refuses :
      (ps : List F) (d : F) (answer : Answer F) → Refuses (move_joints ps d answer)
  unfolding move_joints
  move_joints-Refuses ps d answer = elim (Bool-cases (length ps == length arm_joints)) [
    | inr bad ↦ rw bad (Keeps-Refuses (throw value_error) (unfold Keeps in λ c. refl))
    | inl good ↦ rw good (
        Refuses-then (gets (λ (c : Client F). c.limits)) _ (unfold Keeps in λ c. refl) (λ limits.
          Refuses-then (lift (check_all_joints limits arm_joints ps)) _ (unfold Keeps in λ c. refl)
            (λ u. send-Refuses (arm ps d) answer)))
  ]

  pub move_joint-Refuses :
      (name : String) (position d : F) (ms : List (Message F)) (answer : Answer F)
      → Refuses (move_joint name position d ms answer)
  unfolding move_joint
  move_joint-Refuses name position d ms answer = elim (Bool-cases (contains name arm_joints)) [
    | inr bad ↦ rw bad (Keeps-Refuses (throw value_error) (unfold Keeps in λ c. refl))
    | inl good ↦ rw good (
        Refuses-then (get_arm_pose ms) _ (get_arm_pose-Keeps ms)
          (λ pose. move_joints-Refuses (set_at arm_joints name position pose) d answer))
  ]

pub must_refuse-ok :
    {S : Type 0} (r : Result (Unit {0})) (s : S) (u : Unit {0})
    → (must_refuse (r, s)).0 ≡ ok u
    → ((joint : String) × (r ≡ raise (limit_violation joint))) × ((must_refuse (r, s)).1 ≡ s)
must_refuse-ok (raise (limit_violation joint)) s u h = ((joint, refl), refl)
must_refuse-ok (raise (key_error k)) s u h = absurd (ground arith)
must_refuse-ok (raise (missing_number k)) s u h = absurd (ground arith)
must_refuse-ok (raise type_error) s u h = absurd (ground arith)
must_refuse-ok (raise attribute_error) s u h = absurd (ground arith)
must_refuse-ok (raise value_error) s u h = absurd (ground arith)
must_refuse-ok (raise index_error) s u h = absurd (ground arith)
must_refuse-ok (raise runtime_error) s u h = absurd (ground arith)
must_refuse-ok (raise assertion_error) s u h = absurd (ground arith)
must_refuse-ok (raise not_implemented) s u h = absurd (ground arith)
must_refuse-ok (raise (file_not_found f)) s u h = absurd (ground arith)
must_refuse-ok (raise os_error) s u h = absurd (ground arith)
must_refuse-ok (raise url_error) s u h = absurd (ground arith)
must_refuse-ok (raise http_error) s u h = absurd (ground arith)
must_refuse-ok (raise http_exception) s u h = absurd (ground arith)
must_refuse-ok (raise scenario_failed) s u h = absurd (ground arith)
must_refuse-ok (raise motion_failed) s u h = absurd (ground arith)
must_refuse-ok (raise robot_not_ready) s u h = absurd (ground arith)
must_refuse-ok (raise zero_division) s u h = absurd (ground arith)
must_refuse-ok (raise cv_error) s u h = absurd (ground arith)
must_refuse-ok (ok v) s u h = absurd (ground arith)
