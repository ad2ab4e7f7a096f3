-- ===== src/Control/Acceptance/Verdict.antt =====
-- What the report and the exit code of an acceptance run say.
use mathlib.Core.Path.{subst}
use mathlib.Core.List.{append-nil}
use vn_robotics.Prelude.{
  ℕ, ◌≡◌, refl, sym, ◌∙◌, ap, true, false, ◌&&◌, String, List, [], ◌∷◌, ◌++◌, arith, length, map,
  drop, Bool-cases, inl, inr, ◌==◌, number_eq,
}
use vn_robotics.Py.Errors.{Exn, ok, raise, Result-cases}
use vn_robotics.Py.Exec.{Exec}
use vn_robotics.Control.Scenario.{ScenarioResult, passed}
use vn_robotics.Control.Acceptance.{
  all_passed, build_report, run_sequence, main, requested_of, unknown_of, is_nil,
}

-- The results of scenarios that were run in order, up to the first that did not pass.
pub data Sequence : List String → List ScenarioResult → Type 0 where
  finished : Sequence [] []
  stopped :
      (n : String) (ns : List String) (r : ScenarioResult)
      → r.name ≡ n
      → passed r ≡ false
      → Sequence (n ∷ ns) (r ∷ [])
  going :
      (n : String) (ns : List String) (r : ScenarioResult) (rs : List ScenarioResult)
      → r.name ≡ n
      → passed r ≡ true
      → Sequence ns rs
      → Sequence (n ∷ ns) (r ∷ rs)

pub names_of : List ScenarioResult → List String
names_of rs = map (λ r. r.name) rs

Sequence-names :
    {ns : List String} {rs : List ScenarioResult}
    → Sequence ns rs
    → names_of rs ++ drop (length rs) ns ≡ ns
unfolding names_of
Sequence-names finished = refl
Sequence-names (stopped n ns r e p) = ap (λ m. m ∷ ns) e
Sequence-names (going n ns r rs e p h) =
    ap (λ m. m ∷ (names_of rs ++ drop (length rs) ns)) e ∙ ap (λ l. n ∷ l) (Sequence-names h)

Sequence-pass :
    {ns : List String} {rs : List ScenarioResult}
    → Sequence ns rs
    → (all_passed rs && (length rs == length ns)) ≡ all_passed rs
Sequence-pass finished = refl
Sequence-pass (stopped n ns r e p) = rw p
Sequence-pass (going n ns r rs e p h) = rw p (ground (arith, Sequence-pass h))

drop-length : (ns : List String) → drop (length ns) ns ≡ []
drop-length [] = refl
drop-length (n ∷ ns) = drop-length ns

Sequence-skipped :
    {ns : List String} {rs : List ScenarioResult}
    → Sequence ns rs
    → all_passed rs ≡ true
    → drop (length rs) ns ≡ []
Sequence-skipped finished h = refl
Sequence-skipped (stopped n ns r e p) h = ground arith
Sequence-skipped (going n ns r rs e p s) h = Sequence-skipped s (ground arith)

Sequence-complete :
    {ns : List String} {rs : List ScenarioResult}
    → Sequence ns rs
    → all_passed rs ≡ true
    → names_of rs ≡ ns
Sequence-complete {ns} {rs} s h =
    sym (append-nil _) ∙ ap (λ l. names_of rs ++ l) (sym (Sequence-skipped s h)) ∙ Sequence-names s

module _ {W : Type 0} (scenario : String → Exec W ScenarioResult)
    (named : (n : String) (w : W) (r : ScenarioResult) → (scenario n w).0 ≡ ok r → r.name ≡ n) where
  run_sequence-Sequence :
      (ns : List String) (w : W) (rs : List ScenarioResult)
      → (run_sequence scenario ns w).0 ≡ ok rs
      → Sequence ns rs
  unfolding run_sequence
  run_sequence-Sequence [] w rs = λ h. subst (Sequence []) (ground arith) finished
  run_sequence-Sequence (n ∷ ns) w rs = elim (Result-cases (scenario n w).0) [
    | inl (x, e) ↦ rw e λ h. absurd (ground arith)
    | inr (r, e) ↦ elim (Bool-cases (passed r)) [
      | inr p ↦
          rw (e, p) λ h. subst (Sequence (n ∷ ns)) (ground arith) (stopped n ns r (named n w r e) p)
      | inl p ↦ elim (Result-cases (run_sequence scenario ns (scenario n w).1).0) [
        | inl (x, q) ↦ rw (e, p, q) λ h. absurd (ground arith)
        | inr (more, q) ↦
            rw (e, p, q)
              λ h. subst (Sequence (n ∷ ns)) (ground arith) (
                going n ns r more (named n w r e) p
                  (run_sequence-Sequence ns (scenario n w).1 more q))
      ]
    ]
  ]

  -- If an acceptance run returns results, the scenarios that ran and those that the report calls
  -- skipped are together the requested ones in their order, the verdict is PASS exactly if every
  -- result passed, and with PASS nothing was skipped.
  pub build_report-run_sequence :
      {T : Type 0} (ns : List String) (w : W) (rs : List ScenarioResult) (telemetry : T)
      (duration : ℕ)
      → (run_sequence scenario ns w).0 ≡ ok rs
      → let report = build_report rs telemetry ns duration in
        (report.run ++ report.skipped ≡ ns)
        × (report.pass ≡ all_passed rs)
        × (report.pass ≡ true → report.skipped ≡ [])
  unfolding build_report names_of
  build_report-run_sequence ns w rs telemetry duration h =
      let s = run_sequence-Sequence ns w rs h in
      (Sequence-names s, Sequence-pass s, λ p. Sequence-skipped s (sym (Sequence-pass s) ∙ p))

  module _ {T : Type 0} (registry only : List String) (connect : Exec W (Unit {0}))
      (collect : Exec W T) (duration : ℕ) (w : W) where
    abbrev ExitsZero : Type 0
    ExitsZero = (main scenario registry only connect collect duration w).0 ≡ ok 0

    abbrev asked : List String
    asked = requested_of only

    main_unknown : is_nil (unknown_of registry asked) ≡ false → ExitsZero → ⊥
    unfolding main
    main_unknown u = rw u λ h. ground arith

    main_unreached :
        (x : Exn)
        → is_nil (unknown_of registry asked) ≡ true
        → (connect w).0 ≡ raise x
        → ExitsZero
        → ⊥
    unfolding main
    main_unreached x u c = rw (u, c) λ h. ground arith

    main_raised :
        (x : Exn)
        → is_nil (unknown_of registry asked) ≡ true
        → (connect w).0 ≡ ok tt
        → (run_sequence scenario asked (connect w).1).0 ≡ raise x
        → ExitsZero
        → ⊥
    unfolding main
    main_raised x u c q = rw (u, c, q) λ h. ground arith

    main_passed :
        (rs : List ScenarioResult)
        → is_nil (unknown_of registry asked) ≡ true
        → (connect w).0 ≡ ok tt
        → (run_sequence scenario asked (connect w).1).0 ≡ ok rs
        → ExitsZero
        → (all_passed rs && (length rs == length asked)) ≡ true
    unfolding main build_report
    main_passed rs u c q =
        let after = (run_sequence scenario asked (connect w).1).1 in
        elim (Result-cases (collect after).0) [
          | inl (x, k) ↦ rw (u, c, q, k) λ h. absurd (ground arith)
          | inr (t, k) ↦ rw (u, c, q, k) λ h. ground arith
        ]

  -- An acceptance run exits with 0 only if every requested scenario is registered, the robot was
  -- reached, and the scenarios then ran in the requested order and every one of them passed.
  pub main-zero :
      {T : Type 0} (registry only : List String) (connect : Exec W (Unit {0})) (collect : Exec W T)
      (duration : ℕ) (w : W)
      → (main scenario registry only connect collect duration w).0 ≡ ok 0
      → (rs : List ScenarioResult) × (is_nil (unknown_of registry (requested_of only)) ≡ true)
        × ((connect w).0 ≡ ok tt)
        × ((run_sequence scenario (requested_of only) (connect w).1).0 ≡ ok rs)
        × (names_of rs ≡ requested_of only)
        × (all_passed rs ≡ true)
  main-zero registry only connect collect duration w h =
      let ns = requested_of only in
      elim (Bool-cases (is_nil (unknown_of registry ns))) [
        | inr u ↦ absurd (main_unknown registry only connect collect duration w u h)
        | inl u ↦ elim (Result-cases (connect w).0) [
          | inl (x, c) ↦ absurd (main_unreached registry only connect collect duration w x u c h)
          | inr (t, c) ↦ elim (Result-cases (run_sequence scenario ns (connect w).1).0) [
            | inl (x, q) ↦ absurd (main_raised registry only connect collect duration w x u c q h)
            | inr (rs, q) ↦
                let pass = main_passed registry only connect collect duration w rs u c q h in
                let s = run_sequence-Sequence ns (connect w).1 rs q in
                let all : all_passed rs ≡ true = sym (Sequence-pass s) ∙ pass in
                (rs, u, c, q, Sequence-complete s all, all)
          ]
        ]
      ]
