-- ===== src/Dashboard/Node.antt =====
-- src/threevn_dashboard/threevn_dashboard/dashboard_node.py: the callbacks that keep the robot
-- state,
-- what the pushers are given, and shutdown. The answers of services and readings of the clock are
-- arguments; the sentence of a reason is the argument `sentence`.
pub mod Reported
pub mod Polled
mod Samples
use vn_robotics.Prelude.{
  ℕ, zero, suc, ◌+◌, Bool, true, false, String, Option, none, some, List, [], ◌∷◌, ◌++◌,
  if◌then◌else◌, map,
}
use vn_robotics.Py.Errors.{Exn, Result, ok, raise}
use vn_robotics.Py.Json.{
  Number, Json, null, bool, num, str, arr, nil, cons, obj, field, end, Items, Fields,
}
use vn_robotics.Dashboard.RobotState.{
  RobotState, Snapshot, Readings, Joint, Component, Reason, update_joints, update_controllers,
  update_hardware, snapshot, readiness_detail, initial,
}
use vn_robotics.Dashboard.Push.{Pusher, fresh_pusher, start, stop}
use vn_robotics.Dashboard.Version.{Environment}
use vn_robotics.Dashboard.Payload.{
  Started, off, refused, configured, reporter_from_env, exporter_from_env,
}

module _ {F : Type 0} where
  unfoldable pub array_of : List (Json F) → Items F
  array_of [] = nil
  array_of (x ∷ xs) = cons x (array_of xs)

  abbrev pub texts : List String → Json F
  texts ss = arr (array_of (map str ss))

  -- {'name': name, 'state': state}
  abbrev pub component_dict : Component → Json F
  component_dict c = obj (field "name" (str c.name) (field "state" (str c.state) end))

  abbrev pub or_null : Option (Json F) → Json F
  or_null none = null
  or_null (some v) = v

  abbrev velocity_of : Option F → Json F
  velocity_of none = null
  velocity_of (some v) = num v

  unfoldable pub joints_dict : List (String × Joint F) → Fields F
  joints_dict [] = end
  joints_dict ((name, j) ∷ js) =
      field name
        (obj (field "position" (num j.position) (field "velocity" (velocity_of j.velocity) end)))
        (joints_dict js)

module _ {F : Type 0} ⦃n : Number F⦄ where
  -- A number of milliseconds, in seconds.
  abbrev pub seconds : ℕ → Json F
  seconds ms = num (n.literal ms 3)

  abbrev pub age : Option ℕ → Json F
  age none = null
  age (some ms) = seconds ms

  -- The dict that RobotState.snapshot returns.
  unfoldable pub snapshot_dict : Snapshot F → Fields F → Fields F
  unfolding array_of joints_dict
  snapshot_dict s rest = field "uptime_seconds" (seconds s.uptime) (
      field "joints" (obj (joints_dict s.joints)) (
        field "joint_state_age_seconds" (age s.joint_age) (
          field "joint_messages" (num (n.literal s.joint_messages 0)) (
            field "joints_fresh" (bool s.joints_fresh) (
              field "controllers" (arr (array_of (map component_dict s.controllers))) (
                field "controllers_fresh" (bool s.controllers_fresh) (
                  field "controller_state_age_seconds" (age s.controller_age) (
                    field "hardware" (arr (array_of (map component_dict s.hardware))) (
                      field "hardware_fresh" (bool s.hardware_fresh) (
                        field "hardware_state_age_seconds" (age s.hardware_age) (
                          field "missing_controllers" (texts s.missing)
                            (field "ready" (bool s.ready) rest))))))))))))

  -- _fleet_state: the clock is read by `snapshot`, and again by `readiness_detail`.
  unfoldable pub fleet_state : (Reason → String) → (first second : Readings) → RobotState F → Json F
  unfolding snapshot_dict
  fleet_state sentence first second s =
      let reasons = (readiness_detail second s).1 in
      obj (snapshot_dict (snapshot first s) (field "reasons" (texts (map sentence reasons)) end))

-- What version_info returns, as a dict.
unfoldable pub dict_of : {F : Type 0} → List (String × String) → Fields F
dict_of [] = end
dict_of ((k, v) ∷ ps) = field k (str v) (dict_of ps)

-- The node, as far as it changes.
pub record Dashboard (F : Type 0) : Type 0 where
  pub state : RobotState F
  pub reporter : Option Pusher
  pub metrics : Option Pusher
  pub serving : Bool
  -- How often the lists of controllers and of hardware were asked for.
  pub controller_calls : ℕ
  pub hardware_calls : ℕ

abbrev pub started_pusher : {F : Type 0} → Started F → Option Pusher
started_pusher off = none
started_pusher refused = none
started_pusher (configured settings) = some (start true fresh_pusher)

abbrev pub stopped_pusher : Option Pusher → Option Pusher
stopped_pusher none = none
stopped_pusher (some p) = some (stop p)

module _ {F : Type 0} where
  -- DashboardNode.__init__
  unfoldable pub launch : ⦃n : Number F⦄ → (String → Option F) → Environment → ℕ → Dashboard F
  launch float_text environ now = record {
    state = initial now;
    reporter = started_pusher (reporter_from_env float_text environ);
    metrics = started_pusher (exporter_from_env float_text environ);
    serving = true;
    controller_calls = 0;
    hardware_calls = 0;
  }

  unfoldable pub on_joint_state : List String → List F → List F → ℕ → Dashboard F → Dashboard F
  on_joint_state names positions velocities now d = record d {
    state = update_joints names positions velocities now d.state;
  }

  abbrev pub poll_controllers : Bool → ℕ → Dashboard F → Dashboard F
  poll_controllers true now d = record d { controller_calls = d.controller_calls + 1 }
  poll_controllers false now d = record d { state = update_controllers [] now d.state }

  abbrev pub poll_hardware : Bool → ℕ → Dashboard F → Dashboard F
  poll_hardware true now d = record d { hardware_calls = d.hardware_calls + 1 }
  poll_hardware false now d = record d { state = update_hardware [] now d.state }

  -- _poll, by whether the two services are ready, with two readings of the clock
  unfoldable pub poll :
      (controllers hardware : Bool) → (first second : ℕ) → Dashboard F → Dashboard F
  poll controllers hardware first second d =
      poll_hardware hardware second (poll_controllers controllers first d)

  unfoldable pub on_controllers : Result (List (String × String)) → ℕ → Dashboard F → Dashboard F
  on_controllers (raise e) now d = d
  on_controllers (ok cs) now d = record d { state = update_controllers cs now d.state }

  unfoldable pub on_hardware : Result (List (String × String)) → ℕ → Dashboard F → Dashboard F
  on_hardware (raise e) now d = d
  on_hardware (ok cs) now d = record d { state = update_hardware cs now d.state }

  unfoldable pub shutdown : Dashboard F → Dashboard F
  shutdown d = record d {
    reporter = stopped_pusher d.reporter;
    metrics = stopped_pusher d.metrics;
    serving = false;
  }
