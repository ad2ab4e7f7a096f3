-- ===== src/Mlops/Cli/Gated.antt =====
-- What the promote command lets into production.
use vn_robotics.Prelude.{
  ℕ, ◌≡◌, refl, ap, ◌∙◌, Bool, false, not, String, Option, none, some, List, [], ◌∷◌, ◌++◌, arith,
  ◌⊎◌, inl, inr, Bool-cases, Option-cases, ◌&&◌,
}
use vn_robotics.Py.Errors.{Result, ok, raise, Result-cases}
use vn_robotics.Py.Exec.{pure, continue}
use vn_robotics.Py.Json.{Number, Json}
use vn_robotics.Mlops.Gates.{Gate, Reason, check_all}
use vn_robotics.Mlops.Registry.{
  Registry, promoted, artifact, production, production_version, history, promote, index_of,
  is_registered, is_at,
}
use vn_robotics.Mlops.Cli.{chosen, fails, promote_chosen, promote_command}

continue-state : {S A : Type 0} (m : Result A) (k : ℕ) (s : S) → (continue m (λ _. pure k) s).1 ≡ s
continue-state (ok a) k s = refl
continue-state (raise e) k s = refl

module _ {F : Type 0} ⦃n : Number F⦄ (served : List String) where
  -- A promotion that went through the gates, with the failures that they gave.
  pub record Admitted (stamp : ℕ) (reason : String) (force : Bool) (r s : Registry F) : Type 0 where
    pub version : String
    pub candidate : Json F
    pub incumbent : Option (Json F)
    pub failures : List (Gate × List (Reason F))
    pub loaded : artifact version r ≡ ok candidate
    pub serving : production r ≡ ok incumbent
    pub checked : check_all candidate served incumbent none ≡ ok failures
    pub unforced : force ≡ false → failures ≡ []
    pub points : production_version s ≡ some version
    pub same_models : s.models ≡ r.models
    pub logged :
        history s
        ≡ history r ++ promoted stamp version (production_version r) reason (fails failures) ∷ []

  unfailing :
      (fs : List (Gate × List (Reason F))) (force : Bool)
      → (fails fs && not force) ≡ false
      → force ≡ false
      → fs ≡ []
  unfailing [] force d e = refl
  unfailing (f ∷ fs) force d e = ground arith

  -- `promote` changes nothing, or points at the version and logs it.
  promote-cases :
      (t : ℕ) (v reason : String) (f : Bool) (r : Registry F)
      → ((promote t v reason f r).1 ≡ r)
        ⊎ ((production_version (promote t v reason f r).1 ≡ some v)
            × (history (promote t v reason f r).1
                ≡ history r ++ promoted t v (production_version r) reason f ∷ [])
            × ((promote t v reason f r).1.models ≡ r.models))
  unfolding promote
  promote-cases t v reason f r = elim (Bool-cases (is_registered v r)) [
    | inr e ↦ inl (rw e refl)
    | inl e ↦ elim (Bool-cases (is_at (index_of r).production v)) [
      | inl d ↦ inl (rw (e, d) refl)
      | inr d ↦ inr (rw (e, d) (refl, refl, refl))
    ]
  ]

  through :
      (t : ℕ) (v reason : String) (force : Bool) (r : Registry F) (a : Json F) (i : Option (Json F))
      (fs : List (Gate × List (Reason F)))
      → artifact v r ≡ ok a
      → production r ≡ ok i
      → check_all a served i none ≡ ok fs
      → (fails fs && not force) ≡ false
      → (promote_chosen served t (some v) reason force r).1 ≡ (promote t v reason (fails fs) r).1
  unfolding promote_chosen
  through t v reason force r a i fs p q c d =
      let (result, after) = promote t v reason (fails fs) r in
      rw (p, q, c, d) (continue-state result 0 after)

  promote_chosen-Admitted :
      (t : ℕ) (v reason : String) (force : Bool) (r : Registry F)
      → ((promote_chosen served t (some v) reason force r).1 ≡ r)
        ⊎ Admitted t reason force r (promote_chosen served t (some v) reason force r).1
  unfolding promote_chosen
  promote_chosen-Admitted t v reason force r = elim (Result-cases (artifact v r)) [
    | inl (e, p) ↦ inl (rw p refl)
    | inr (a, p) ↦ elim (Result-cases (production r)) [
      | inl (e, q) ↦ inl (rw (p, q) refl)
      | inr (i, q) ↦ elim (Result-cases (check_all a served i none)) [
        | inl (e, c) ↦ inl (rw (p, q, c) refl)
        | inr (fs, c) ↦ elim (Bool-cases (fails fs && not force)) [
          | inl d ↦ inl (rw (p, q, c, d) refl)
          | inr d ↦ elim (promote-cases t v reason (fails fs) r) [
            | inl u ↦ inl (through t v reason force r a i fs p q c d ∙ u)
            | inr w ↦ inr (record {
              version = v;
              candidate = a;
              incumbent = i;
              failures = fs;
              loaded = p;
              serving = q;
              checked = c;
              unforced = λ e. unfailing fs force d e;
              points = ap production_version (through t v reason force r a i fs p q c d) ∙ w.0;
              logged = ap history (through t v reason force r a i fs p q c d) ∙ w.1;
              same_models =
                  ap (λ (s : Registry F). s.models) (through t v reason force r a i fs p q c d)
                  ∙ w.2;
            })
          ]
        ]
      ]
    ]
  ]

  -- Whatever the promote command returns or raises, it leaves the registry as it was, or the
  -- registry points at a version whose artifact went through the gates against the artifact then
  -- in production; without `force` no gate failed, the one new line of the log says whether one
  -- did, and the model files are as they were.
  pub promote_command-Admitted :
      (t : ℕ) (version : Option String) (reason : String) (force : Bool) (r : Registry F)
      → ((promote_command served t version reason force r).1 ≡ r)
        ⊎ Admitted t reason force r (promote_command served t version reason force r).1
  unfolding promote_command
  promote_command-Admitted t version reason force r = elim (Option-cases (chosen version r)) [
    | inl e ↦ inl (rw e (unfold promote_chosen in refl))
    | inr (v, e) ↦ rw e (promote_chosen-Admitted t v reason force r)
  ]
