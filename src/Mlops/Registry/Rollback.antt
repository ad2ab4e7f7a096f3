-- ===== src/Mlops/Registry/Rollback.antt =====
-- Promotion and rollback as one operation: what each leaves, and when a rollback is refused.
use vn_robotics.Prelude.{
  ℕ, ◌≤◌, ◌≡◌, ◌≢◌, refl, sym, ◌∙◌, ap, Bool, true, false, String, none, some, List, [], ◌∷◌, ◌++◌,
  arith, keep, last?, eq_iff, ◌==◌, string_eq, if◌then◌else◌, Option-cases, inl, inr, ◌⊎◌, leb,
  length, last?-cons,
}
use vn_robotics.Py.Errors.{ok, is_ok}
use vn_robotics.Mlops.Registry.{
  Row, Registry, promoted, production_version, is_registered, is_at, is_promotion, source_of,
  promote, rollback, write_index, history,
}
use vn_robotics.Mlops.Registry.Log.{
  last_promotion, last_promotion-snoc, last_promotion-IsLinked, last_promotion-Names,
  last_promotion-sourced,
}
use vn_robotics.Mlops.Registry.Validity.{IsValid, promoted_index, promote-IsValid}

is_at-ne : (p v : String) → p ≢ v → is_at (some p) v ≡ false
is_at-ne p v n = ground (arith, eq_iff p v)

abbrev pub or_rollback : String → String
or_rollback reason = if reason == "" then "rollback" else reason

no_promotions : (rows : List Row) → last? rows ≡ none → ¬ (2 ≤ length rows)
no_promotions [] e h = absurd (omega arith)
no_promotions (x ∷ rows) e h = ground (arith, last?-cons x rows)

module _ {F : Type 0} where
  -- A promotion to another registered version returns the old pointer and writes the new index.
  promote_new :
      (t : ℕ) (v reason : String) (f : Bool) (r : Registry F)
      → is_registered v r ≡ true
      → is_at (production_version r) v ≡ false
      → promote t v reason f r
        ≡ (ok (production_version r), write_index (promoted_index t v reason f r) r)
  unfolding promote
  promote_new t v reason f r k n = rw (k, n)

  rollback_new :
      (t : ℕ) (reason : String) (r : Registry F) (row : Row) (s : String)
      → IsValid r
      → last_promotion (history r) ≡ some row
      → source_of row ≡ some s
      → (is_at (production_version r) s ≡ false)
        × (rollback t reason r ≡ (
          ok (production_version r),
          write_index (promoted_index t s (or_rollback reason) false r) r,
        ))
  rollback_new t reason r row s h e q =
      let (v, runs, other) = last_promotion-IsLinked none (history r) row h.linked e in
      let k = last_promotion-Names (λ w. is_registered w r ≡ true) (history r) row s h.known e q in
      let at : production_version r ≡ some v = h.points ∙ runs in
      let n : is_at (production_version r) s ≡ false =
        rw at (is_at-ne v s (λ d. other (q ∙ ap some (sym d)))) in
      (n, unfold rollback in rw (e, q) (promote_new t s (or_rollback reason) false r k n))

  -- A rollback raises and changes nothing, or there is a last promotion with a source.
  rollback-cases :
      (t : ℕ) (reason : String) (r : Registry F)
      → IsValid r
      → ((is_ok (rollback t reason r).0 ≡ false) × ((rollback t reason r).1 ≡ r))
        ⊎ ((row : Row) × (s : String) × (last_promotion (history r) ≡ some row)
            × (source_of row ≡ some s))
  rollback-cases t reason r h = elim (Option-cases (last_promotion (history r))) [
    | inl e ↦ inl (unfold rollback in rw e (refl, refl))
    | inr (row, e) ↦ elim (Option-cases (source_of row)) [
      | inl q ↦ inl (unfold rollback in rw (e, q) (refl, refl))
      | inr (s, q) ↦ inr (row, s, e, q)
    ]
  ]

  -- A rollback changes nothing, or promotes.
  pub rollback_promotes :
      (t : ℕ) (reason : String) (r : Registry F)
      → ((rollback t reason r).1 ≡ r)
        ⊎ ((s : String) × (rollback t reason r ≡ promote t s (or_rollback reason) false r))
  rollback_promotes t reason r = elim (Option-cases (last_promotion (history r))) [
    | inl e ↦ inl (unfold rollback in rw e refl)
    | inr (row, e) ↦ elim (Option-cases (source_of row)) [
      | inl q ↦ inl (unfold rollback in rw (e, q) refl)
      | inr (s, q) ↦ inr (s, unfold rollback in rw (e, q) refl)
    ]
  ]

  pub rollback-IsValid :
      (t : ℕ) (reason : String) (r : Registry F) → IsValid r → IsValid (rollback t reason r).1
  rollback-IsValid t reason r h = elim (rollback_promotes t reason r) [
    | inl e ↦ rw e h
    | inr (s, e) ↦ rw e (promote-IsValid t s (or_rollback reason) false r h)
  ]

  -- In a valid registry, after a promotion away from p to another registered version v, a rollback
  -- returns v, puts p back, and adds one line to the log that says so.
  pub rollback-promote :
      (t u : ℕ) (v p reason why : String) (f : Bool) (r : Registry F)
      → IsValid r
      → production_version r ≡ some p
      → is_registered v r ≡ true
      → p ≢ v
      → let r' = (promote t v reason f r).1 in
        ((rollback u why r').0 ≡ ok (some v))
        × (production_version (rollback u why r').1 ≡ some p)
        × (history (rollback u why r').1
            ≡ history r' ++ promoted u p (some v) (or_rollback why) false ∷ [])
  rollback-promote t u v p reason why f r h at k n =
      let off : is_at (production_version r) v ≡ false = rw at (is_at-ne p v n) in
      let step = promote_new t v reason f r k off in
      let row = promoted t v (production_version r) reason f in
      let back =
        rollback_new u why (promote t v reason f r).1 row p (promote-IsValid t v reason f r h)
          (rw step (last_promotion-snoc (history r) row refl)) at in
      rw (back.1, step) (refl, refl, refl)

  -- In a valid registry a rollback that succeeds moves production to another version, and one more
  -- rollback moves it back.
  pub rollback_twice :
      (t u : ℕ) (reason why : String) (r : Registry F)
      → IsValid r
      → is_ok (rollback t reason r).0 ≡ true
      → let r' = (rollback t reason r).1 in
        (production_version r' ≢ production_version r)
        × (is_ok (rollback u why r').0 ≡ true)
        × (production_version (rollback u why r').1 ≡ production_version r)
  rollback_twice t u reason why r h k = elim (rollback-cases t reason r h) [
    | inl (raised, kept) ↦ cc
    | inr (row, s, e, q) ↦
        let (v, runs, other) = last_promotion-IsLinked none (history r) row h.linked e in
        let at : production_version r ≡ some v = h.points ∙ runs in
        let (n, step) = rollback_new t reason r row s h e q in
        let new = promoted t s (production_version r) (or_rollback reason) false in
        let (m, back) =
          rollback_new u why (rollback t reason r).1 new v (rollback-IsValid t reason r h)
            (rw step (last_promotion-snoc (history r) new refl)) at in
        (rw (step, at) (λ d. other (q ∙ d)), rw back refl, rw back (sym at))
  ]

  -- In a valid registry a rollback succeeds exactly if the log holds at least two promotions, and
  -- one that raises leaves the registry as it was.
  pub rollback_iff :
      (t : ℕ) (reason : String) (r : Registry F)
      → IsValid r
      → (is_ok (rollback t reason r).0 ≡ true → 2 ≤ length (keep is_promotion (history r)))
        × (2 ≤ length (keep is_promotion (history r)) → is_ok (rollback t reason r).0 ≡ true)
        × (is_ok (rollback t reason r).0 ≡ false → (rollback t reason r).1 ≡ r)
  rollback_iff t reason r h = elim (Option-cases (last_promotion (history r))) [
    | inl e ↦
        unfold rollback in
        rw e (λ k. cc, λ k. absurd (no_promotions (keep is_promotion (history r)) e k), λ k. refl)
    | inr (row, e) ↦
        let count = last_promotion-sourced (history r) row h.linked e in
        elim (Option-cases (source_of row)) [
          | inl q ↦
              let few : leb 2 (length (keep is_promotion (history r))) ≡ false = sym count ∙ rw q in
              unfold rollback in rw (e, q) (λ k. cc, λ k. absurd (ground arith), λ k. refl)
          | inr (s, q) ↦
              let many : leb 2 (length (keep is_promotion (history r))) ≡ true = sym count ∙ rw q in
              rw (rollback_new t reason r row s h e q).1 (λ k. ground arith, λ k. refl, λ k. cc)
        ]
  ]
