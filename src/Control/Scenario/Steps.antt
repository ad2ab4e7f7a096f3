-- ===== src/Control/Scenario/Steps.antt =====
-- Scenarios that are a row of steps: what is recorded, and that the first failure ends them.
use vn_robotics.Prelude.{
  ℕ, ◌-◌, ◌≡◌, refl, sym, ◌∙◌, ap, Bool, true, false, String, Option, List, [], ◌∷◌, ◌++◌, all,
  Bool-cases, inl, inr,
}
use mathlib.Core.Path.{subst}
use mathlib.Core.List.{append-nil, append_assoc}
use vn_robotics.Py.Errors.{Result, ok, raise, scenario_failed}
use vn_robotics.Py.Exec.{Exec, pure, ◌>>=◌}
use vn_robotics.Control.Scenario.{
  Node, StepResult, ScenarioResult, Stage, passed, passes, step, attempt_step, execute, finish,
  detail_of,
}

-- One call of `self.step`.
pub record Spec (W : Type 0) : Type 0 where
  pub name : String
  pub action : Exec W Unit
  pub check : Option (Exec W Bool)
  pub time : ℕ

-- What a row of steps records: a result for each step up to the first that fails, and whether all
-- passed.
pub data Ran (W : Type 0) : List (Spec W) → List StepResult → Bool → Type 0 where
  complete : Ran W [] [] true
  failing :
      (s : Spec W) (ss : List (Spec W)) (r : StepResult)
      → r.name ≡ s.name
      → r.passed ≡ false
      → Ran W (s ∷ ss) (r ∷ []) false
  passing :
      (s : Spec W) (ss : List (Spec W)) (r : StepResult) (rs : List StepResult) (done : Bool)
      → r.name ≡ s.name
      → r.passed ≡ true
      → Ran W ss rs done
      → Ran W (s ∷ ss) (r ∷ rs) done

pub Ran-all :
    {W : Type 0} {ss : List (Spec W)} {rs : List StepResult} {done : Bool}
    → Ran W ss rs done
    → all (λ r. r.passed) rs ≡ done
Ran-all complete = refl
Ran-all (failing s ss r n p) = rw p
Ran-all (passing s ss r rs done n p h) = rw p (Ran-all h)

abbrev pub outcome : Bool → Result (Unit {0})
outcome true = ok tt
outcome false = raise scenario_failed

module _ {W : Type 0} (node : Node W) where
  abbrev pub call : Spec W → Exec (Stage W) Unit
  call s = step node s.name s.action s.check s.time

  -- A scenario's `run` that makes the calls one after the other.
  unfoldable pub run_steps : List (Spec W) → Exec (Stage W) Unit
  run_steps [] = pure tt
  run_steps (s ∷ ss) = call s >>= λ _. run_steps ss

  -- What a stage holds after a row of steps.
  pub record After (ss : List (Spec W)) (before : Stage W) (after : Result (Unit {0}) × Stage W)
      : Type 0 where
    pub results : List StepResult
    pub done : Bool
    pub ran : Ran W ss results done
    pub named : after.1.result.name ≡ before.result.name
    pub recorded : after.1.result.steps ≡ before.result.steps ++ results
    pub returned : after.0 ≡ outcome done

  called :
      (c : Spec W) (s : Stage W)
      → passes (attempt_step node c.action c.check c.time s.world).0 ≡ true
      → (call c s).0 ≡ ok tt
  unfolding step
  called c s e = rw e

  pub run_steps-After : (ss : List (Spec W)) (s : Stage W) → After ss s (run_steps ss s)
  unfolding run_steps step
  run_steps-After [] s = record {
    results = [];
    done = true;
    ran = complete;
    named = refl;
    recorded = sym (append-nil _);
    returned = refl;
  }
  run_steps-After (c ∷ ss) s =
      elim (Bool-cases (passes (attempt_step node c.action c.check c.time s.world).0)) [
        | inr e ↦ record {
          results = entry ∷ [];
          done = false;
          ran = failing c ss entry refl e;
          named = rw e refl;
          recorded = rw e refl;
          returned = rw e refl;
        }
        | inl e ↦
            let rest = run_steps-After ss (call c s).1 in
            let same : run_steps (c ∷ ss) s ≡ run_steps ss (call c s).1 = rw (called c s e) in
            record {
              results = entry ∷ rest.results;
              done = rest.done;
              ran = passing c ss entry rest.results rest.done refl e rest.ran;
              named = rw same (rest.named ∙ refl);
              recorded =
                  rw same (rest.recorded ∙ append_assoc s.result.steps (entry ∷ []) rest.results);
              returned = rw same rest.returned;
            }
      ]
    where
      entry : StepResult
      entry =
          let (result, world) = attempt_step node c.action c.check c.time s.world in
          record {
            name = c.name;
            passed = passes result;
            detail = detail_of result;
            seconds = node.now world - node.now s.world;
          }

  finish-outcome : (done : Bool) (s : Stage W) → finish (outcome done, s) ≡ (ok s.result, s.world)
  finish-outcome true s = refl
  finish-outcome false s = refl

  pub finish-ok :
      (p : Result (Unit {0}) × Stage W) (done : Bool)
      → p.0 ≡ outcome done
      → finish p ≡ (ok p.1.result, p.1.world)
  finish-ok (r, s) done e =
      subst (λ x. finish (x, s) ≡ (ok s.result, s.world)) (sym e) (finish-outcome done s)

  -- The execution of a row of steps never raises; it records a result for each step in its order
  -- up to the first that fails, and the scenario passed exactly if all of them ran and passed.
  pub execute-Ran :
      (name : String) (ss : List (Spec W)) (w : W)
      → (r : ScenarioResult) × ((execute name (run_steps ss) w).0 ≡ ok r)
        × (r.name ≡ name)
        × Ran W ss r.steps (passed r)
  unfolding execute
  execute-Ran name ss w =
      let start : Stage W = record { world = w; result = record { name = name; steps = [] } } in
      let h = run_steps-After ss start in
      let r = (run_steps ss start).1.result in
      (
        r,
        ap (λ p. p.0) (finish-ok (run_steps ss start) h.done h.returned),
        h.named,
        subst (λ l. Ran W ss l (all (λ s. s.passed) l)) (sym h.recorded)
            (subst (λ b. Ran W ss h.results b) (sym (Ran-all h.ran)) h.ran),
      )
