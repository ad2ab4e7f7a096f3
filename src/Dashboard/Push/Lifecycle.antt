-- ===== src/Dashboard/Push/Lifecycle.antt =====
-- The log of a pusher, and what starting it again does.
use vn_robotics.Prelude.{
  ℕ, suc, ◌+◌, ◌*◌, ◌%◌, ◌≤◌, ◌≡◌, refl, Bool, true, false, ◌&&◌, Option, List, [], ◌∷◌, ◌++◌,
  if◌then◌else◌, ◌==◌, number_eq, arith, Bool-cases, inl, inr,
}
use vn_robotics.Py.Errors.{Exn, Result, ok, raise}
use vn_robotics.Dashboard.Push.{
  Pusher, Line, started, failing, Turn, accepted, is_caught, note_failure, push_once, run, wait,
  resume, start, stop,
}

-- The lines about failures.
abbrev pub warnings : List Line → ℕ
warnings [] = 0
warnings (started ∷ ls) = warnings ls
warnings (failing n e ∷ ls) = suc (warnings ls)

warnings-append : (xs ys : List Line) → warnings (xs ++ ys) ≡ warnings xs + warnings ys
warnings-append [] ys = ground arith
warnings-append (started ∷ xs) ys = warnings-append xs ys
warnings-append (failing n e ∷ xs) ys = ground (arith, warnings-append xs ys)

module _ (every slack : ℕ) (logger : Bool)
    (scale : (w f : ℕ)
      → w * every ≤ f + slack
      → ((f + 1) % every == 1) ≡ true
      → (w + 1) * every ≤ f + 1 + slack) where
  abbrev IsQuiet : Pusher → Type 0
  IsQuiet p = warnings p.log * every ≤ p.failed + slack

  note_failure-IsQuiet :
      (e : Exn) (p : Pusher) → IsQuiet p → IsQuiet (note_failure every logger e p)
  unfolding note_failure
  note_failure-IsQuiet e p q = elim (Bool-cases (logger && (p.failed + 1) % every == 1)) [
    | inr b ↦ rw b (ground (arith, q))
    | inl b ↦
        rw (b, warnings-append p.log (failing (p.failed + 1) e ∷ []))
          (scale (warnings p.log) p.failed q (ground (arith, b)))
  ]

  push_once-IsQuiet :
      (answer : Result (Option ℕ)) (p : Pusher)
      → IsQuiet p
      → IsQuiet (push_once every logger answer p).1
  unfolding push_once
  push_once-IsQuiet (ok status) p q = elim (Bool-cases (accepted status)) [
    | inl b ↦ rw b q
    | inr b ↦ rw b (ground (arith, q))
  ]
  push_once-IsQuiet (raise e) p q = elim (Bool-cases (is_caught e)) [
    | inl b ↦ rw b (note_failure-IsQuiet e p q)
    | inr b ↦ rw b q
  ]

  resume-IsQuiet :
      (x : Result Bool × Pusher) (rest : Pusher → Result (Unit {0}) × Pusher)
      → IsQuiet x.1
      → ((q : Pusher) → IsQuiet q → IsQuiet (rest q).1)
      → IsQuiet (resume x rest).1
  resume-IsQuiet (ok b, p) rest q h = h p q
  resume-IsQuiet (raise e, p) rest q h = q

  choose-IsQuiet :
      (b : Bool) (p : Pusher) (r : Result (Unit {0}) × Pusher)
      → IsQuiet p
      → IsQuiet r.1
      → IsQuiet (if b then (ok tt, p) else r).1
  choose-IsQuiet true p r q h = q
  choose-IsQuiet false p r q h = h

  run-IsQuiet : (ts : List Turn) (p : Pusher) → IsQuiet p → IsQuiet (run every logger ts p).1
  unfolding run
  run-IsQuiet [] p q = q
  run-IsQuiet (t ∷ ts) p q = choose-IsQuiet p.stopped p _ q (
      resume-IsQuiet (push_once every logger t.answer p) _ (push_once-IsQuiet t.answer p q)
        (λ r h. run-IsQuiet ts (wait t.stop_after r) h))

scale-thirty : (w f : ℕ) → w * 30 ≤ f + 29 → ((f + 1) % 30 == 1) ≡ true → (w + 1) * 30 ≤ f + 1 + 29
scale-thirty w f h e = ground arith

scale-twenty : (w f : ℕ) → w * 20 ≤ f + 19 → ((f + 1) % 20 == 1) ≡ true → (w + 1) * 20 ≤ f + 1 + 19
scale-twenty w f h e = ground arith

-- Of a log without warnings, however long the thread runs, the reporter writes at most one warning
-- for every thirty failures begun, and the exporter at most one for every twenty.
pub run-throttled :
    (logger : Bool) (ts : List Turn) (p : Pusher)
    → warnings p.log ≡ 0
    → (warnings (run 30 logger ts p).1.log * 30 ≤ (run 30 logger ts p).1.failed + 29)
      × (warnings (run 20 logger ts p).1.log * 20 ≤ (run 20 logger ts p).1.failed + 19)
run-throttled logger ts p z = (
  run-IsQuiet 30 29 logger scale-thirty ts p (ground arith),
  run-IsQuiet 20 19 logger scale-twenty ts p (ground arith),
)

-- A pusher that was stopped and is started again has a thread, but the thread makes no attempt.
pub run-start-stop :
    (every : ℕ) (logger : Bool) (t : Turn) (ts : List Turn) (p : Pusher)
    → ((start logger (stop p)).thread ≡ true)
      × (run every logger (t ∷ ts) (start logger (stop p)) ≡ (ok tt, start logger (stop p)))
unfolding run start stop
run-start-stop every logger t ts p = (refl, refl)
