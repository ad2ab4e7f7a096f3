-- ===== src/Dashboard/Metrics.antt =====
-- src/threevn_dashboard/threevn_dashboard/otlp_metrics.py: the metrics. The time stamps that a
-- point
-- gets from the clock, and the descriptions, are left out.
pub mod Present
use vn_robotics.Prelude.{
  ℕ, zero, suc, ◌+◌, Bool, true, false, String, Option, none, some, List, [], ◌∷◌, ◌++◌,
  if◌then◌else◌, ◌==◌, string_eq, map,
}
use vn_robotics.Py.Errors.{Result, ok, raise, ◌>>=◌, attribute_error}
use vn_robotics.Py.Json.{
  Number, Json, null, bool, num, str, arr, nil, obj, get_or, item, member, truthy, list_of,
  empty_dict, elements,
}
use vn_robotics.Py.Convert.{Reading, to_float, to_int}
use vn_robotics.Dashboard.Payload.{or_dict, version_field}

-- A data point: of a gauge, or of a counter since its start.
pub data Point (F : Type 0) : Type 0 where
  as_double : F → Point F
  as_int : (value start_ns : F) → Point F

pub record Metric (F : Type 0) : Type 0 where
  pub name : String
  pub unit : String
  pub point : Point F

-- The typed value of an OTLP attribute.
pub data Attribute (F : Type 0) : Type 0 where
  bool_value : Bool → Attribute F
  number_value : F → Attribute F
  string_value : (shown : Json F) → Attribute F

-- resourceMetrics: who sends, and what
pub record Payload (F : Type 0) : Type 0 where
  pub attributes : List (String × Attribute F)
  pub metrics : List (Metric F)

module _ {F : Type 0} where
  -- _attr, where whole numbers are numbers like any other
  abbrev pub attr : String × Json F → String × Attribute F
  attr (key, bool b) = (key, bool_value b)
  attr (key, num x) = (key, number_value x)
  attr (key, v) = (key, string_value v)

  unfoldable pub build_payload : List (String × Json F) → List (Metric F) → Payload F
  build_payload resource metrics = record { attributes = map attr resource; metrics = metrics }

  abbrev pub is_text : String → Json F → Bool
  is_text s (str t) = t == s
  is_text s v = false

  -- sum(1 for c in cs if c.get('state') == 'active')
  unfoldable pub count_active : List (Json F) → Result ℕ
  count_active [] = ok 0
  count_active (c ∷ cs) = do
    state ← get_or "state" null c
    rest ← count_active cs
    ok (if is_text "active" state then rest + 1 else rest)

  -- value or []
  abbrev pub or_list : ⦃n : Number F⦄ → Json F → Json F
  or_list v = if truthy v then v else arr nil

module _ {F : Type 0} ⦃n : Number F⦄ (reading : Reading F) where
  unfoldable pub gauge : String → String → Json F → Result (Metric F)
  unfolding to_float
  gauge name unit value = do
    x ← to_float reading value
    ok (record { name = name; unit = unit; point = as_double x })

  unfoldable pub counter : String → Json F → F → Result (Metric F)
  unfolding to_int
  counter name value start_ns = do
    x ← to_int reading value
    ok (record { name = name; unit = "1"; point = as_int x start_ns })

  abbrev pub flag : Bool → Json F
  flag b = num (if b then n.literal 1 0 else n.literal 0 0)

  -- The gauge of the age, if there is an age.
  unfoldable pub age_metric : Json F → Result (List (Metric F))
  unfolding gauge
  age_metric null = ok []
  age_metric age = do g ← gauge "threevn.joint_states.age" "s" age; ok (g ∷ [])

  -- The gauge of a flag, if the state has it.
  unfoldable pub fresh_metric : Json F → String × String → Result (List (Metric F))
  unfolding gauge
  fresh_metric state (key, name) = do
    present ← member key state
    value ← if present then item key state else ok null
    g ← gauge name "1" (flag (truthy value))
    ok (if present then g ∷ [] else [])

  abbrev pub flags : List (String × String)
  flags =
      ("joints_fresh", "threevn.joint_states.fresh")
      ∷ ("controllers_fresh", "threevn.controllers.fresh")
      ∷ ("hardware_fresh", "threevn.hardware.fresh")
      ∷ []

  unfoldable pub fresh_metrics : Json F → List (String × String) → Result (List (Metric F))
  unfolding fresh_metric
  fresh_metrics state [] = ok []
  fresh_metrics state (f ∷ fs) = do
    g ← fresh_metric state f
    gs ← fresh_metrics state fs
    ok (g ++ gs)

  unfoldable pub build_metrics :
      (state : Json F) (failed : ℕ) (start_ns : F) → Result (List (Metric F))
  unfolding gauge counter count_active age_metric fresh_metrics
  build_metrics state_given failed start_ns = do
    let state = or_dict state_given
    controllers ← get_or "controllers" null state
    controller_list ← list_of (or_list controllers)
    active ← count_active controller_list
    hardware ← get_or "hardware" null state
    hardware_list ← list_of (or_list hardware)
    hardware_active ← count_active hardware_list
    age ← get_or "joint_state_age_seconds" null state
    ready ← get_or "ready" null state
    is_ready ← gauge "threevn.robot.ready" "1" (flag (truthy ready))
    uptime_given ← get_or "uptime_seconds" (num (n.literal 0 0)) state
    uptime ← gauge "threevn.robot.uptime" "s" uptime_given
    controllers_active ←
        gauge "threevn.controllers.active" "{controller}" (num (n.literal active 0))
    components_active ←
        gauge "threevn.hardware.active" "{component}" (num (n.literal hardware_active 0))
    messages ← get_or "joint_messages" (num (n.literal 0 0)) state
    received ← counter "threevn.joint_states.received" messages start_ns
    aged ← age_metric age
    fresh ← fresh_metrics state flags
    failures ← counter "threevn.otlp.export.failures" (num (n.literal failed 0)) start_ns
    ok (
        is_ready
        ∷ uptime
        ∷ controllers_active
        ∷ components_active
        ∷ received
        ∷ (aged ++ (fresh ++ failures ∷ [])))

  -- resource_attributes
  unfoldable pub resource_attributes : (version : Json F) → Result (List (String × Json F))
  resource_attributes version_given = do
    let version = or_dict version_given
    software ← version_field "software_version" version
    robot ← version_field "robot_id" version
    model ← version_field "robot_model" version
    target ← version_field "hardware_target" version
    firmware ← version_field "firmware_version" version
    commit ← version_field "git_commit" version
    ok (
        ("service.name", str "threevn_robot")
        ∷ ("service.version", software)
        ∷ ("robot.id", robot)
        ∷ ("robot.model", model)
        ∷ ("robot.hardware_target", target)
        ∷ ("robot.firmware_version", firmware)
        ∷ ("git.commit", commit)
        ∷ [])
