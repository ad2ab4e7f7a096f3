-- ===== src/Dashboard/Push/Samples.antt =====
-- A server that is down, comes back, refuses a report, and then answers with no HTTP at all.
use vn_robotics.Prelude.{
  ℕ, ◌+◌, ◌*◌, ◌≤◌, ◌≡◌, refl, true, false, Option, none, some, List, [], ◌∷◌,
}
use vn_robotics.Py.Errors.{Result, ok, raise, url_error, http_exception, type_error}
use vn_robotics.Dashboard.Push.{
  started, failing, rejected, Turn, fresh_pusher, run, push_once, note_failure, start, send_once,
  export_once,
}
use vn_robotics.Dashboard.Push.Counts.{Tally, endings, run-Tally}
use vn_robotics.Dashboard.Push.Lifecycle.{warnings, run-throttled}

abbrev turn : Result (Option ℕ) → Turn
turn answer = record { answer = answer; stop_after = false }

abbrev turns : List Turn
turns =
    turn (raise url_error)
    ∷ turn (raise url_error)
    ∷ turn (ok (some 204))
    ∷ turn (ok (some 302))
    ∷ turn (raise http_exception)
    ∷ turn (ok none)
    ∷ []

-- The last turn is never made.
counted : run 30 true turns (start true fresh_pusher) ≡ (
  raise http_exception,
  record {
    stopped = false;
    thread = true;
    sent = 1;
    failed = 3;
    last_error = some rejected;
    log = started ∷ failing 1 url_error ∷ [];
  },
)
unfolding run push_once note_failure start
counted = refl

stops_in_time :
    (run 20 false
      (turn (ok none) ∷ record { answer = ok none; stop_after = true } ∷ turn (ok none) ∷ [])
      fresh_pusher).1.sent
    ≡ 2
unfolding run push_once
stops_in_time = refl

-- A report that cannot be made is a failure, or not, by its exception.
unmade :
    ((send_once {R = ℕ} true (raise type_error) (λ r. ok none) fresh_pusher).0 ≡ ok false)
    × ((export_once {R = ℕ} true (ok 5) (λ r. raise http_exception) fresh_pusher).0
        ≡ raise http_exception)
unfolding send_once export_once push_once
unmade = (refl, refl)

run-Tally_example : Tally fresh_pusher (endings false turns) (run 30 true turns fresh_pusher)
run-Tally_example = run-Tally 30 true turns fresh_pusher

run-throttled_example :
    (warnings (run 30 true turns fresh_pusher).1.log * 30
      ≤ (run 30 true turns fresh_pusher).1.failed + 29)
    × (warnings (run 20 true turns fresh_pusher).1.log * 20
        ≤ (run 20 true turns fresh_pusher).1.failed + 19)
run-throttled_example = run-throttled true turns fresh_pusher refl
