-- ===== src/Dashboard/Push/Counts.antt =====
-- What the counters and the log of a pusher come to.
use vn_robotics.Prelude.{
  ℕ, suc, ◌+◌, ◌≡◌, refl, Bool, true, false, ◌||◌, Option, List, [], ◌∷◌, if◌then◌else◌, number_eq,
  arith, Bool-cases, inl, inr,
}
use mathlib.Core.Path.{subst}
use vn_robotics.Py.Errors.{Result, ok, raise, is_ok}
use vn_robotics.Dashboard.Push.{
  Pusher, Turn, accepted, is_caught, note_failure, note_status, push_once, run, wait, resume,
}

-- How an answer ends: a success, a failure that is counted, or an exception that leaves the method.
pub data Ending : Type 0 where
  delivered lost escaped : Ending

abbrev pub ending : Result (Option ℕ) → Ending
ending (ok status) = if accepted status then delivered else lost
ending (raise e) = if is_caught e then lost else escaped

abbrev pub after : Ending → List Ending → List Ending
after escaped rest = escaped ∷ []
after delivered rest = delivered ∷ rest
after lost rest = lost ∷ rest

-- The attempts of a thread: none once it is stopped, and none after an exception that escaped.
pub endings : Bool → List Turn → List Ending
endings stopped [] = []
endings true (t ∷ ts) = []
endings false (t ∷ ts) = after (ending t.answer) (endings t.stop_after ts)

abbrev pub deliveries : List Ending → ℕ
deliveries [] = 0
deliveries (delivered ∷ es) = suc (deliveries es)
deliveries (e ∷ es) = deliveries es

abbrev pub losses : List Ending → ℕ
losses [] = 0
losses (lost ∷ es) = suc (losses es)
losses (e ∷ es) = losses es

abbrev pub harmless : List Ending → Bool
harmless [] = true
harmless (escaped ∷ es) = false
harmless (e ∷ es) = harmless es

-- What a pusher tells after a run.
pub record Tally (p : Pusher) (es : List Ending) (r : Result (Unit {0}) × Pusher) : Type 0 where
  pub sent : r.1.sent ≡ p.sent + deliveries es
  pub failed : r.1.failed ≡ p.failed + losses es
  pub alive : is_ok r.0 ≡ harmless es

-- The tally of an attempt and of the run after it.
Tally-after :
    (e : Ending) (es : List Ending) (p q : Pusher) (r : Result (Unit {0}) × Pusher)
    → (q.sent ≡ p.sent + deliveries (e ∷ []))
    → (q.failed ≡ p.failed + losses (e ∷ []))
    → (harmless (e ∷ []) ≡ true)
    → Tally q es r
    → Tally p (after e es) r
Tally-after delivered es p q r s f h t = record {
  sent = ground (arith, t.sent);
  failed = ground (arith, t.failed);
  alive = t.alive;
}
Tally-after lost es p q r s f h t = record {
  sent = ground (arith, t.sent);
  failed = ground (arith, t.failed);
  alive = t.alive;
}
Tally-after escaped es p q r s f h t = absurd (ground arith)

-- A turn of a thread that may be stopped already.
Tally-turn :
    (t : Turn) (ts : List Turn) (p : Pusher) (r : Result (Unit {0}) × Pusher) (b : Bool)
    → (b ≡ false → Tally p (after (ending t.answer) (endings t.stop_after ts)) r)
    → Tally p (endings b (t ∷ ts)) (if b then (ok tt, p) else r)
unfolding endings
Tally-turn t ts p r true h = record { sent = ground arith; failed = ground arith; alive = refl }
Tally-turn t ts p r false h = h refl

module _ (every : ℕ) (logger : Bool) where
  Tallies : List Turn → Type 0
  Tallies ts = (p : Pusher) → Tally p (endings p.stopped ts) (run every logger ts p)

  Tallies-wait :
      (ts : List Turn) (flag : Bool) (q : Pusher)
      → Tallies ts
      → q.stopped ≡ false
      → Tally (wait flag q) (endings flag ts) (run every logger ts (wait flag q))
  unfolding Tallies
  Tallies-wait ts flag q h s =
      subst (λ b. Tally (wait flag q) (endings (b || flag) ts) (run every logger ts (wait flag q)))
        s (h (wait flag q))

  resume-Tally :
      (ts : List Turn) (answer : Result (Option ℕ)) (flag : Bool) (p : Pusher)
      → Tallies ts
      → p.stopped ≡ false
      → Tally p
          (after (ending answer) (endings flag ts))
          (resume (push_once every logger answer p) (λ q. run every logger ts (wait flag q)))
  unfolding push_once note_failure
  resume-Tally ts (ok status) flag p h s = elim (Bool-cases (accepted status)) [
    | inl b ↦ rw b (
        Tally-after delivered _ p _ _ refl (ground arith) refl
          (Tallies-wait ts flag (note_status true p).1 h s))
    | inr b ↦ rw b (
        Tally-after lost _ p _ _ (ground arith) refl refl
          (Tallies-wait ts flag (note_status false p).1 h s))
  ]
  resume-Tally ts (raise e) flag p h s = elim (Bool-cases (is_caught e)) [
    | inl b ↦ rw b (
        Tally-after lost _ p _ _ (ground arith) refl refl
          (Tallies-wait ts flag (note_failure every logger e p) h s))
    | inr b ↦ rw b (record { sent = ground arith; failed = ground arith; alive = refl })
  ]

  -- Over any turns of the thread, `sent` grows by the number of answers that were a success and
  -- `failed` by the number of the others up to an exception that escapes, and the thread ends by
  -- an exception exactly if one of its attempts met one that is not caught.
  pub run-Tally :
      (ts : List Turn) (p : Pusher) → Tally p (endings p.stopped ts) (run every logger ts p)
  unfolding run Tallies endings
  run-Tally [] p = record { sent = ground arith; failed = ground arith; alive = refl }
  run-Tally (t ∷ ts) p =
      Tally-turn t ts p _ p.stopped
        (λ s. resume-Tally ts t.answer t.stop_after p (λ q. run-Tally ts q) s)
