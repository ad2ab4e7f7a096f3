-- ===== src/Dashboard/Node/Polled.antt =====
-- A node whose controller manager is gone, and which pushers it starts.
use vn_robotics.Prelude.{
  ℕ, ◌≡◌, refl, Bool, true, false, not, ◌&&◌, String, Option, [], ◌==◌, string_eq, is_some,
  Bool-cases, inl, inr,
}
use vn_robotics.Py.Json.{Number}
use vn_robotics.Dashboard.RobotState.{
  Readings, is_empty, missing_of, is_ready, snapshot, update_controllers, update_hardware,
}
use vn_robotics.Dashboard.Version.{Environment, stripped}
use vn_robotics.Dashboard.Payload.{reporter_from_env, exporter_from_env}
use vn_robotics.Dashboard.Node.{Dashboard, poll, launch, started_pusher}

-- Without a controller the required ones are missing.
none_active :
    (fresh_joints fresh_list : Bool) → (fresh_joints && is_empty (missing_of fresh_list [])) ≡ false
none_active true true = refl
none_active true false = refl
none_active false b = refl

module _ {F : Type 0} where
  -- A poll that finds the controller service down makes the robot not ready, whenever it is asked
  -- and whatever was known before.
  pub poll_down :
      (hardware : Bool) (first second : ℕ) (at : Readings) (d : Dashboard F)
      → is_ready at (poll false hardware first second d).state ≡ false
  unfolding poll is_ready snapshot update_controllers update_hardware
  poll_down true first second at d = none_active _ _
  poll_down false first second at d = none_active _ _

module _ {F : Type 0} ⦃n : Number F⦄ where
  -- A node starts a fleet reporter exactly if the environment names a URL and a token, and a
  -- metrics exporter exactly if it names an endpoint; blanks name nothing.
  pub launch-started_pusher :
      (float_text : String → Option F) (environ : Environment) (now : ℕ)
      → let d = launch float_text environ now in
        (is_some d.reporter ≡ (
          not (stripped environ "THREEVN_FLEET_URL" == "")
          && not (stripped environ "THREEVN_FLEET_TOKEN" == "")))
        × (is_some d.metrics ≡ not (stripped environ "THREEVN_OTLP_ENDPOINT" == ""))
  unfolding launch reporter_from_env exporter_from_env
  launch-started_pusher float_text environ now = (reporter, metrics)
    where
      reporter : is_some (started_pusher (reporter_from_env float_text environ)) ≡ (
          not (stripped environ "THREEVN_FLEET_URL" == "")
          && not (stripped environ "THREEVN_FLEET_TOKEN" == ""))
      reporter = elim (Bool-cases (stripped environ "THREEVN_FLEET_URL" == "")) [
        | inl a ↦ rw a refl
        | inr a ↦ elim (Bool-cases (stripped environ "THREEVN_FLEET_TOKEN" == "")) [
          | inl b ↦ rw (a, b) refl
          | inr b ↦ rw (a, b) refl
        ]
      ]

      metrics :
          is_some (started_pusher (exporter_from_env float_text environ))
          ≡ not (stripped environ "THREEVN_OTLP_ENDPOINT" == "")
      metrics = elim (Bool-cases (stripped environ "THREEVN_OTLP_ENDPOINT" == "")) [
        | inl a ↦ rw a refl
        | inr a ↦ rw a refl
      ]
