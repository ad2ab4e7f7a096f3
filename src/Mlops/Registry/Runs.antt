-- ===== src/Mlops/Registry/Runs.antt =====
-- Any sequence of calls on one registry: the invariant, the log that only grows, the models that do
-- not change.
use mathlib.Core.List.{append-nil, append_assoc}
use vn_robotics.Prelude.{
  ℕ, ◌≡◌, refl, sym, ◌∙◌, ap, Bool, true, false, String, some, List, [], ◌∷◌, ◌++◌, arith, lookup,
  lookup-put, lookup-put_sorted, eq_iff, same_refl, ◌==◌, string_eq, if◌then◌else◌, Bool-cases, inl,
  inr,
}
use vn_robotics.Py.Errors.{ok, Result-cases}
use vn_robotics.Py.Json.{Number, Json}
use vn_robotics.Mlops.Registry.{
  Row, Registry, index_of, is_registered, is_at, promote, rollback, register, history, summary,
  empty_registry,
}
use vn_robotics.Mlops.Registry.Validity.{
  IsValid, promote-IsValid, register-IsValid, empty_registry-IsValid,
}
use vn_robotics.Mlops.Registry.Rollback.{or_rollback, rollback-IsValid, rollback_promotes}

-- A call, with the readings of the clock that it makes.
pub data Op (F : Type 0) : Type 0 where
  registering : (summary_stamp log_stamp : ℕ) (note : String) → Json F → Op F
  promoting : (stamp : ℕ) (version reason : String) (forced : Bool) → Op F
  rolling_back : (stamp : ℕ) (reason : String) → Op F

-- What any call keeps: the registered versions with their model files, and the lines of the log.
pub record Grows {F : Type 0} (r s : Registry F) : Type 0 where
  pub versions : (v : String) → is_registered v r ≡ true → is_registered v s ≡ true
  pub models : (v : String) → is_registered v r ≡ true → lookup v s.models ≡ lookup v r.models
  pub log : (more : List Row) × (history s ≡ history r ++ more)

module _ {F : Type 0} where
  Grows-refl : (r : Registry F) → Grows r r
  Grows-refl r = record {
    versions = λ v k. k;
    models = λ v k. refl;
    log = ([], sym (append-nil (history r)));
  }

  Grows-trans : {r s t : Registry F} → Grows r s → Grows s t → Grows r t
  Grows-trans {r} g h = record {
    versions = λ v k. h.versions v (g.versions v k);
    models = λ v k. h.models v (g.versions v k) ∙ g.models v k;
    log = (
      g.log.0 ++ h.log.0,
      h.log.1 ∙ ap (λ l. l ++ h.log.0) g.log.1 ∙ append_assoc (history r) g.log.0 h.log.0,
    );
  }

  promote-Grows :
      (t : ℕ) (v reason : String) (f : Bool) (r : Registry F) → Grows r (promote t v reason f r).1
  unfolding promote
  promote-Grows t v reason f r = elim (Bool-cases (is_registered v r)) [
    | inr e ↦ rw e (Grows-refl r)
    | inl e ↦ elim (Bool-cases (is_at (index_of r).production v)) [
      | inl d ↦ rw (e, d) (Grows-refl r)
      | inr d ↦ rw (e, d) (record { versions = λ w k. k; models = λ w k. refl; log = (_, refl) })
    ]
  ]

  rollback-Grows : (t : ℕ) (reason : String) (r : Registry F) → Grows r (rollback t reason r).1
  rollback-Grows t reason r = elim (rollback_promotes t reason r) [
    | inl e ↦ rw e (Grows-refl r)
    | inr (s, e) ↦ rw e (promote-Grows t s (or_rollback reason) false r)
  ]

module _ {F : Type 0} ⦃n : Number F⦄ (version_of : Json F → String) where
  register-Grows :
      (s t : ℕ) (note : String) (a : Json F) (r : Registry F)
      → Grows r (register version_of s t note a r).1
  unfolding register
  register-Grows s t note a r = elim (Bool-cases (is_registered (version_of a) r)) [
    | inl e ↦ rw e (Grows-refl r)
    | inr e ↦ elim (Result-cases (summary s note (version_of a) a)) [
      | inl (x, d) ↦
          rw (e, d)
            (record {
              versions = λ w k. k;
              models = λ w k. rw lookup-put (other w e k);
              log = ([], sym (append-nil (history r)));
            })
      | inr (row, d) ↦
          rw (e, d)
            (record {
              versions = λ w k. rw lookup-put_sorted (ground arith);
              models = λ w k. rw lookup-put (other w e k);
              log = (_, refl);
            })
    ]
  ]
    where
      other :
          (w : String)
          → is_registered (version_of a) r ≡ false
          → is_registered w r ≡ true
          → (if version_of a == w then some a else lookup w r.models) ≡ lookup w r.models
      other w e k = ground (arith, eq_iff (version_of a) w)

  register_known :
      (s t : ℕ) (note : String) (a : Json F) (r : Registry F)
      → is_registered (version_of a) r ≡ true
      → register version_of s t note a r ≡ (ok (version_of a), r)
  unfolding register
  register_known s t note a r h = rw h

  register_ok :
      (s t : ℕ) (note : String) (a : Json F) (r : Registry F) (v : String)
      → (register version_of s t note a r).0 ≡ ok v
      → (v ≡ version_of a)
        × (is_registered (version_of a) (register version_of s t note a r).1 ≡ true)
  unfolding register
  register_ok s t note a r v = elim (Bool-cases (is_registered (version_of a) r)) [
    | inl e ↦ rw e λ h. (cc, e)
    | inr e ↦ elim (Result-cases (summary s note (version_of a) a)) [
      | inl (x, d) ↦ rw (e, d) λ h. cc
      | inr (row, d) ↦
          rw (e, d) λ h. (cc, rw lookup-put_sorted (ground (arith, same_refl (version_of a))))
    ]
  ]

  unfoldable pub step : Op F → Registry F → Registry F
  step (registering s t note a) r = (register version_of s t note a r).1
  step (promoting t v reason f) r = (promote t v reason f r).1
  step (rolling_back t reason) r = (rollback t reason r).1

  unfoldable pub run : List (Op F) → Registry F → Registry F
  run [] r = r
  run (op ∷ ops) r = run ops (step op r)

  step-IsValid : (op : Op F) (r : Registry F) → IsValid r → IsValid (step op r)
  unfolding step
  step-IsValid (registering s t note a) r h = register-IsValid version_of s t note a r h
  step-IsValid (promoting t v reason f) r h = promote-IsValid t v reason f r h
  step-IsValid (rolling_back t reason) r h = rollback-IsValid t reason r h

  step-Grows : (op : Op F) (r : Registry F) → Grows r (step op r)
  unfolding step
  step-Grows (registering s t note a) r = register-Grows s t note a r
  step-Grows (promoting t v reason f) r = promote-Grows t v reason f r
  step-Grows (rolling_back t reason) r = rollback-Grows t reason r

  run-IsValid_from : (ops : List (Op F)) (r : Registry F) → IsValid r → IsValid (run ops r)
  unfolding run
  run-IsValid_from [] r h = h
  run-IsValid_from (op ∷ ops) r h = run-IsValid_from ops (step op r) (step-IsValid op r h)

  -- After any calls on a new registry, failing ones included, the pointer is the version that the
  -- log last promoted, every promotion of the log names what ran before it and changes it, every
  -- version in the log is registered, and every registered version has its model file.
  pub run-IsValid : (ops : List (Op F)) → IsValid (run ops empty_registry)
  run-IsValid ops = run-IsValid_from ops empty_registry empty_registry-IsValid

  -- No call, failing or not, unregisters a version, changes the model file of a registered
  -- version, or changes or drops a line of the log.
  pub run-Grows : (ops : List (Op F)) (r : Registry F) → Grows r (run ops r)
  unfolding run
  run-Grows [] r = Grows-refl r
  run-Grows (op ∷ ops) r = Grows-trans (step-Grows op r) (run-Grows ops (step op r))

  -- A registration that succeeds returns the digest, under which the version is then registered;
  -- registering the artifact again returns the same version and changes nothing.
  pub register_twice :
      (s t u w : ℕ) (note other : String) (a : Json F) (r : Registry F) (v : String)
      → (register version_of s t note a r).0 ≡ ok v
      → let r' = (register version_of s t note a r).1 in
        (v ≡ version_of a)
        × (is_registered v r' ≡ true)
        × (register version_of u w other a r' ≡ (ok v, r'))
  register_twice s t u w note other a r v h =
      let (named, there) = register_ok s t note a r v h in
      (
        named,
        rw named there,
        rw named (register_known u w other a (register version_of s t note a r).1 there),
      )
