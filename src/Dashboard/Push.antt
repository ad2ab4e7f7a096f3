-- ===== src/Dashboard/Push.antt =====
-- src/threevn_dashboard/threevn_dashboard/fleet_reporter.py and otlp_metrics.py: the threads that
-- push
-- reports and metrics. The two classes differ in their payload and in how seldom they log.
--
-- The answer of `urlopen` to a request is an argument: an exception, or the `status` of the
-- response
-- if it has one. The lines that the logger was given are kept, in order.
pub mod Counts
pub mod Lifecycle
mod Samples
use vn_robotics.Prelude.{
  ℕ, zero, suc, ◌+◌, ◌%◌, ◌≡◌, Bool, true, false, not, ◌&&◌, ◌||◌, String, Option, none, some, List,
  [], ◌∷◌, ◌++◌, if◌then◌else◌, ltb, leb, ◌==◌, number_eq,
}
use vn_robotics.Py.Errors.{
  Exn, Result, ok, raise, url_error, http_error, os_error, file_not_found, value_error,
  limit_violation, type_error, ◌>>=◌,
}
use vn_robotics.Py.Exec.{Exec}

-- What `last_error` tells.
pub data Failure : Type 0 where
  raised : Exn → Failure
  rejected : Failure

pub data Line : Type 0 where
  started : Line
  failing : (failed : ℕ) → Exn → Line

pub record Pusher : Type 0 where
  pub stopped : Bool
  pub thread : Bool
  pub sent : ℕ
  pub failed : ℕ
  pub last_error : Option Failure
  pub log : List Line

-- __init__
abbrev pub fresh_pusher : Pusher
fresh_pusher = record {
  stopped = false;
  thread = false;
  sent = 0;
  failed = 0;
  last_error = none;
  log = [];
}

-- The classes that the `except` names, and those below them.
abbrev pub is_caught : Exn → Bool
is_caught url_error = true
is_caught http_error = true
is_caught os_error = true
is_caught (file_not_found path) = true
is_caught value_error = true
is_caught (limit_violation joint) = true
is_caught type_error = true
is_caught _ = false

-- 200 <= getattr(response, 'status', 200) < 300
abbrev pub accepted : Option ℕ → Bool
accepted none = true
accepted (some status) = leb 200 status && ltb status 300

-- The `except` clause; `every` is 30 for reports and 20 for metrics.
unfoldable pub note_failure : ℕ → Bool → Exn → Pusher → Pusher
note_failure every logger e p = record p {
  failed = p.failed + 1;
  last_error = some (raised e);
  log =
      if logger && (p.failed + 1) % every == 1
      then p.log ++ failing (p.failed + 1) e ∷ []
      else p.log;
}

abbrev pub note_status : Bool → Exec Pusher Bool
note_status true p = (ok true, record p { sent = p.sent + 1 })
note_status false p = (ok false, record p { failed = p.failed + 1; last_error = some rejected })

-- One attempt, from what the `with` statement gives.
unfoldable pub push_once : ℕ → Bool → Result (Option ℕ) → Exec Pusher Bool
unfolding note_failure
push_once every logger (ok status) p = note_status (accepted status) p
push_once every logger (raise e) p =
    if is_caught e then (ok false, note_failure every logger e p) else (raise e, p)

-- FleetReporter.send_once, with the report that build_report made, or why it could not
unfoldable pub send_once :
    {R : Type 0} → Bool → Result R → (R → Result (Option ℕ)) → Exec Pusher Bool
unfolding push_once
send_once logger report opener = push_once 30 logger (report >>= opener)

-- OtlpMetricsExporter.export_once
unfoldable pub export_once :
    {R : Type 0} → Bool → Result R → (R → Result (Option ℕ)) → Exec Pusher Bool
unfolding push_once
export_once logger payload opener = push_once 20 logger (payload >>= opener)

-- What one turn of the thread meets: the answer, and whether stop() was called before the next
-- turn.
pub record Turn : Type 0 where
  pub answer : Result (Option ℕ)
  pub stop_after : Bool

-- What stop() leaves in the flag that the loop tests after the wait.
abbrev pub wait : Bool → Pusher → Pusher
wait flag p = record p { stopped = p.stopped || flag }

-- An exception ends the thread.
abbrev pub resume :
    Result Bool × Pusher → (Pusher → Result (Unit {0}) × Pusher) → Result (Unit {0}) × Pusher
resume (ok b, p) rest = rest p
resume (raise e, p) rest = (raise e, p)

-- _run, over the turns that there is time for
unfoldable pub run : ℕ → Bool → List Turn → Pusher → Result (Unit {0}) × Pusher
run every logger [] p = (ok tt, p)
run every logger (t ∷ ts) p =
    let rest = run every logger ts in
    if p.stopped
    then (ok tt, p)
    else resume (push_once every logger t.answer p) (λ q. rest (wait t.stop_after q))

-- start
unfoldable pub start : Bool → Pusher → Pusher
start logger p =
    if p.thread
    then p
    else record p { thread = true; log = if logger then p.log ++ started ∷ [] else p.log }

-- stop
unfoldable pub stop : Pusher → Pusher
stop p = record p { stopped = true; thread = false }
