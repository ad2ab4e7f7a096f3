-- ===== src/Dashboard/Http/Status.antt =====
-- The readiness route and the state of the robot.
use vn_robotics.Prelude.{◌≡◌, refl, sym, ◌∙◌, ap, true, String, List, [], if◌then◌else◌, string_eq}
use vn_robotics.Dashboard.RobotState.{
  RobotState, Readings, Reason, Snapshot, is_ready, readiness_detail, snapshot,
}
use vn_robotics.Dashboard.RobotState.Readiness.{readiness_detail_iff}
use vn_robotics.Dashboard.Http.{Reply, Resolved, sent, readiness, liveness, route_of, do_get}

module _ {F V : Type 0} (resolve : String → Resolved) (at : Readings) (s : RobotState F)
    (version : V) where
  -- What the dashboard answers to a path.
  abbrev answer : String → Reply V (Snapshot F) Reason
  answer path = do_get resolve (readiness_detail at s) version (snapshot at s) path

  answer_readyz :
      (path : String)
      → route_of path ≡ "/readyz"
      → answer path
        ≡ sent
            (if (readiness_detail at s).0 then 200 else 503)
            (readiness (readiness_detail at s).0 (readiness_detail at s).1)
  unfolding do_get
  answer_readyz path e = rw e refl

  -- A request whose route is /readyz, with or without a query and slashes at its end, gets the
  -- status 200 if the robot is ready and 503 if it is not, with no reasons exactly in the first
  -- case; one whose route is /healthz gets 200 in both.
  pub do_get-is_ready :
      (path other : String)
      → route_of path ≡ "/readyz"
      → route_of other ≡ "/healthz"
      → (reasons : List Reason) × (answer path
          ≡ sent (if is_ready at s then 200 else 503) (readiness (is_ready at s) reasons))
        × (reasons ≡ [] → is_ready at s ≡ true)
        × (is_ready at s ≡ true → reasons ≡ [])
        × (answer other ≡ sent 200 liveness)
  unfolding do_get
  do_get-is_ready path other e h =
      let (same, empty, full) = readiness_detail_iff at s in
      (
        (readiness_detail at s).1,
        answer_readyz path e
            ∙ ap (λ b. sent (if b then 200 else 503) (readiness b (readiness_detail at s).1)) same,
        (λ none. sym same ∙ empty none),
        (λ ready. full (same ∙ ready)),
        rw h refl,
      )
