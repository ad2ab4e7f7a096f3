-- ===== src/Dashboard/Payload.antt =====
-- src/threevn_dashboard/threevn_dashboard/fleet_reporter.py: the report, and the reporter that the
-- environment asks for. What `state_fn` and `version_fn` return are arguments.
use vn_robotics.Prelude.{
  Bool, false, String, Option, none, some, List, if◌then◌else◌, ◌==◌, string_eq, take,
}
use vn_robotics.Py.Errors.{Result, ok, ◌>>=◌}
use vn_robotics.Py.Json.{
  Number, Json, num, str, bool, arr, nil, get_or, truthy, list_of, empty_dict,
}
use vn_robotics.Py.Convert.{Reading, to_float, to_int}
use vn_robotics.Dashboard.Version.{Environment, stripped}

pub record Report (F : Type 0) : Type 0 where
  pub robot_id : Json F
  pub software_version : Json F
  pub firmware_version : Json F
  pub git_commit : Json F
  pub robot_model : Json F
  pub hardware_target : Json F
  pub ready : Bool
  pub uptime_seconds : F
  pub joint_messages : F
  pub reasons : List (Json F)

module _ {F : Type 0} ⦃n : Number F⦄ where
  -- value or {}
  abbrev pub or_dict : Json F → Json F
  or_dict v = if truthy v then v else empty_dict

  abbrev pub version_field : String → Json F → Result (Json F)
  version_field key version = get_or key (str "unknown") version

  unfoldable pub build_report : Reading F → (state version : Json F) → Result (Report F)
  unfolding to_float to_int
  build_report reading state_given version_given = do
    let state = or_dict state_given
    let version = or_dict version_given
    robot_id ← version_field "robot_id" version
    software ← version_field "software_version" version
    firmware ← version_field "firmware_version" version
    commit ← version_field "git_commit" version
    model ← version_field "robot_model" version
    target ← version_field "hardware_target" version
    ready ← get_or "ready" (bool false) state
    uptime ← get_or "uptime_seconds" (num (n.literal 0 0)) state
    seconds ← to_float reading uptime
    messages ← get_or "joint_messages" (num (n.literal 0 0)) state
    count ← to_int reading messages
    reasons ← get_or "reasons" (arr nil) state
    listed ← list_of reasons
    ok (record {
      robot_id = robot_id;
      software_version = software;
      firmware_version = firmware;
      git_commit = commit;
      robot_model = model;
      hardware_target = target;
      ready = truthy ready;
      uptime_seconds = seconds;
      joint_messages = count;
      reasons = take 8 listed;
    })

-- What from_env makes of the environment.
pub record Settings (F : Type 0) : Type 0 where
  pub url : String
  pub token : String
  pub interval : F

pub data Started (F : Type 0) : Type 0 where
  off : Started F
  refused : Started F
  configured : Settings F → Started F

-- float(os.environ.get(name, default)), and the default if it does not read
abbrev pub interval_of : {F : Type 0} → (String → Option F) → Option String → F → F
interval_of float_text none default = default
interval_of float_text (some text) default = elim (float_text text) [ some x ↦ x | none ↦ default ]

-- FleetReporter.from_env: `refused` is none with a warning.
unfoldable pub reporter_from_env :
    {F : Type 0} ⦃n : Number F⦄ → (String → Option F) → Environment → Started F
reporter_from_env ⦃n⦄ float_text environ =
    let url = stripped environ "THREEVN_FLEET_URL" in
    let token = stripped environ "THREEVN_FLEET_TOKEN" in
    if url == ""
    then off
    else if token == ""
    then refused
    else configured (record {
      url = url;
      token = token;
      interval = interval_of float_text (environ "THREEVN_FLEET_INTERVAL") (n.literal 10 0);
    })

-- OtlpMetricsExporter.from_env: an empty token is sent as no header.
unfoldable pub exporter_from_env :
    {F : Type 0} ⦃n : Number F⦄ → (String → Option F) → Environment → Started F
exporter_from_env ⦃n⦄ float_text environ =
    let url = stripped environ "THREEVN_OTLP_ENDPOINT" in
    if url == ""
    then off
    else configured (record {
      url = url;
      token = stripped environ "THREEVN_OTLP_TOKEN";
      interval = interval_of float_text (environ "THREEVN_OTLP_INTERVAL") (n.literal 15 0);
    })
