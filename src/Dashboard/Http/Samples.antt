-- ===== src/Dashboard/Http/Samples.antt =====
-- Requests to the dashboard of a robot of which nothing is known.
use vn_robotics.Prelude.{ℕ, ◌≡◌, refl, true, false, String, some, [], ◌∷◌}
use vn_robotics.Dashboard.RobotState.{
  RobotState, Readings, Reason, no_joint_state, not_active, Snapshot, initial, readiness_detail,
  snapshot,
}
use vn_robotics.Dashboard.Http.{
  Reply, Resolved, sent, file, not_found, readiness, version, route_of, do_get,
}

abbrev installed : String → Resolved
installed name = record { within = true; is_file = true; guessed = some "text/html" }

abbrev at_once : Readings
at_once = record { joint = 5; controller = 5; hardware = 5; uptime = 5 }

abbrev new_robot : RobotState ℕ
new_robot = initial 0

abbrev ask : String → Reply String (Snapshot ℕ) Reason
ask path =
    do_get installed (readiness_detail at_once new_robot) "v1" (snapshot at_once new_robot) path

routes :
    (route_of "/readyz/?verbose=1" ≡ "/readyz")
    × (route_of "///" ≡ "/")
    × (route_of "/healthz" ≡ "/healthz")
unfolding route_of
routes = (refl, refl, refl)

replies :
    (ask "/" ≡ sent 200 (file "index.html" "text/html"))
    × (ask "/api/version/" ≡ sent 200 (version "v1"))
    × (ask "/readyz"
        ≡ sent 503 (
            readiness false (
              no_joint_state
              ∷ not_active "joint_state_broadcaster"
              ∷ not_active "arm_controller"
              ∷ [])))
    × (ask "/metrics?x" ≡ sent 404 (not_found (some "/metrics")))
unfolding do_get route_of readiness_detail
replies = (refl, refl, refl, refl)
