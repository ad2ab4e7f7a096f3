-- ===== src/Control/Arm/Sent.antt =====
-- The goals that a method sends if it returns, for the client, for its surroundings and for a
-- scenario.
use vn_robotics.Prelude.{
  ℕ, zero, suc, ◌≡◌, refl, sym, ap, ◌∙◌, Bool, true, false, String, Option, none, some, List, [],
  ◌∷◌, ◌++◌, number_eq, arith, Bool-cases, inl, inr, string_eq,
}
use mathlib.Core.Path.{subst}
use mathlib.Core.List.{append-nil, append_assoc}
use vn_robotics.Py.Errors.{Exn, Result, ok, raise, robot_not_ready, Result-cases}
use vn_robotics.Py.Exec.{Exec, pure, throw, lift, gets, continue, ◌>>=◌}
use vn_robotics.Control.Scenario.{Stage, step, attempt_step, settle_for, check_of, passes}
use vn_robotics.Control.Client.{Goal, Client, Answer, spin, send}
use vn_robotics.Control.Client.Delivery.{Keeps, send-up, spin-Keeps}
use vn_robotics.Control.Arm.{Bench, Surroundings, take_turn, bench, between, self_step}

-- If the method returns, the goals that were sent are those from before and then these.
unfoldable pub Sends : {F W A : Type 0} → (W → List (Goal F)) → List (Goal F) → Exec W A → Type 0
Sends {A = A} goals gs m = (s : _) (a : A) → (m s).0 ≡ ok a → goals (m s).1 ≡ goals s ++ gs

module _ {F W : Type 0} (goals : W → List (Goal F)) where
  pub Sends-pure : {A : Type 0} (a : A) → Sends goals [] (pure a)
  unfolding Sends
  Sends-pure a s b h = sym (append-nil (goals s))

  pub Sends-lift : {A : Type 0} (r : Result A) → Sends goals [] (lift r)
  unfolding Sends
  Sends-lift r s b h = sym (append-nil (goals s))

  pub Sends-gets : {A : Type 0} (f : W → A) → Sends goals [] (gets f)
  unfolding Sends
  Sends-gets f s b h = sym (append-nil (goals s))

  pub Sends-throw : (A : Type 0) (gs : List (Goal F)) (e : Exn) → Sends {A = A} goals gs (throw e)
  unfolding Sends
  Sends-throw A gs e s a h = absurd (ground arith)

  pub Sends-then :
      {A B : Type 0} (gs hs : List (Goal F)) (m : Exec W A) (f : A → Exec W B)
      → Sends goals gs m
      → ((a : A) → Sends goals hs (f a))
      → Sends goals (gs ++ hs) (m >>= f)
  unfolding Sends
  Sends-then gs hs m f i j s b h = elim (Result-cases (m s).0) [
    | inl (e, r) ↦ absurd (ground (arith, r, h))
    | inr (a, r) ↦ rw r (
        j a (m s).1 b (subst (λ x. (continue x f (m s).1).0 ≡ ok b) r h)
        ∙ (ap (λ l. l ++ hs) (i s a r) ∙ append_assoc (goals s) gs hs))
  ]

attempt-ok : (r : Result Bool) → passes r ≡ true → r ≡ ok true
attempt-ok (ok true) h = refl
attempt-ok (ok false) h = absurd (ground arith)
attempt-ok (raise e) h = absurd (ground arith)

-- The goals of the client, of its surroundings, of a scenario.
abbrev pub client_goals : {F : Type 0} → Client F → List (Goal F)
client_goals c = c.goals

abbrev pub bench_goals : {F : Type 0} → Bench F → List (Goal F)
bench_goals b = b.client.goals

abbrev pub stage_goals : {F : Type 0} → Stage (Bench F) → List (Goal F)
stage_goals s = s.world.client.goals

module _ {F : Type 0} where
  pub Keeps-Sends : {A : Type 0} (m : Exec (Client F) A) → Keeps m → Sends client_goals [] m
  unfolding Sends Keeps
  Keeps-Sends m k c a h = k c ∙ sym (append-nil c.goals)

  pub take_turn-Sends :
      {A : Type 0} (gs : List (Goal F)) (op : ℕ → Exec (Client F) A)
      → ((turn : ℕ) → Sends client_goals gs (op turn))
      → Sends bench_goals gs (take_turn op)
  unfolding Sends
  take_turn-Sends gs op k b a h = k b.turn b.client a h

  pub between-Sends :
      {A : Type 0} (gs : List (Goal F)) (m : Exec (Bench F) A)
      → Sends bench_goals gs m
      → Sends stage_goals gs (between m)
  unfolding Sends
  between-Sends gs m k s a h = k s.world a h

  send_refused :
      (g : Goal F) (answer : Answer F) (c : Client F)
      → answer.up ≡ false
      → (send g answer c).0 ≡ raise robot_not_ready
  unfolding send
  send_refused g answer c down = rw down refl

  -- A goal is sent if the call returns.
  pub send-Sends : (g : Goal F) (answer : Answer F) → Sends client_goals (g ∷ []) (send g answer)
  unfolding Sends
  send-Sends g answer c u h = elim (Bool-cases answer.up) [
    | inl up ↦ send-up g answer c up
    | inr down ↦ absurd (ground (arith, send_refused g answer c down, h))
  ]

  -- A step sends what its action sends, if its check sends nothing.
  module _ (around : Surroundings F) where
    settle-Sends : (time : ℕ) → Sends bench_goals [] ((bench around).settle time)
    settle-Sends time =
        take_turn-Sends [] (λ turn. spin (around.arrivals turn))
          (λ turn.
            Keeps-Sends (spin (around.arrivals turn))
              (unfold Keeps in spin-Keeps (around.arrivals turn)))

    -- What a step checks, or nothing.
    abbrev pub Quiet : Option (Exec (Bench F) Bool) → Type 0
    Quiet none = Unit
    Quiet (some check) = Sends bench_goals [] check

    settle_for-Sends : (time : ℕ) → Sends bench_goals [] (settle_for (bench around) time)
    unfolding settle_for
    settle_for-Sends zero = Sends-pure bench_goals tt
    settle_for-Sends (suc time) = settle-Sends (suc time)

    check_of-Sends :
        (check : Option (Exec (Bench F) Bool))
        → Quiet check
        → Sends bench_goals [] (check_of (bench around) check)
    unfolding check_of
    check_of-Sends none q = Sends-pure bench_goals true
    check_of-Sends (some check) q = q

    module _ (gs : List (Goal F)) (action : Exec (Bench F) (Unit {0}))
        (check : Option (Exec (Bench F) Bool)) (time : ℕ) where
      attempt_step-Sends :
          Sends bench_goals gs action
          → Quiet check
          → Sends bench_goals gs (attempt_step (bench around) action check time)
      unfolding attempt_step
      attempt_step-Sends k q =
          let settled =
            Sends-then bench_goals gs [] action (λ u. settle_for (bench around) time) k
              (λ u. settle_for-Sends time) in
          let both =
            Sends-then bench_goals (gs ++ []) [] (action >>= λ u. settle_for (bench around) time)
              (λ u. check_of (bench around) check) settled (λ u. check_of-Sends check q) in
          subst
            (λ l. Sends bench_goals l (
              (action >>= λ u. settle_for (bench around) time) >>= λ u.
              check_of (bench around) check))
            (append-nil (gs ++ []) ∙ append-nil gs) both

      pub step-Sends :
          (name : String)
          → Sends bench_goals gs action
          → Quiet check
          → Sends stage_goals gs (self_step around name action check time)
      unfolding Sends step
      step-Sends name k q s u h =
          elim (Bool-cases (passes (attempt_step (bench around) action check time s.world).0)) [
            | inl good ↦ attempt_step-Sends k q s.world true (attempt-ok _ good)
            | inr bad ↦ absurd (ground (arith, bad, h))
          ]
