-- ===== src/Dashboard/Metrics/Present.antt =====
-- The metrics of a robot state, as the node hands it over.
use vn_robotics.Prelude.{
  ℕ, ◌≡◌, refl, ap, Bool, String, Option, none, some, List, [], ◌∷◌, ◌++◌, map, keep, length,
  if◌then◌else◌, ◌==◌, string_eq, arith, Bool-cases, inl, inr,
}
use vn_robotics.Py.Errors.{ok}
use vn_robotics.Py.Json.{Number, Json, arr, find, get_or, item, member, truthy, list_of, elements}
use vn_robotics.Py.Convert.{Reading, to_float, to_int}
use vn_robotics.Dashboard.RobotState.{
  RobotState, Snapshot, Readings, Component, Reason, is_active, snapshot,
}
use vn_robotics.Dashboard.Metrics.{
  Metric, Point, as_double, as_int, count_active, or_list, age_metric, build_metrics,
}
use vn_robotics.Dashboard.Node.{array_of, component_dict, fleet_state, snapshot_dict, age}

count_active-component_dict :
    (F : Type 0) (cs : List Component)
    → count_active {F = F} (map component_dict cs) ≡ ok (length (keep is_active cs))
unfolding count_active get_or find
count_active-component_dict F [] = refl
count_active-component_dict F (c ∷ cs) = elim (Bool-cases (c.state == "active")) [
  | inl e ↦ rw (e, count_active-component_dict F cs) (ap ok (omega arith))
  | inr e ↦ rw (e, count_active-component_dict F cs) refl
]

module _ {F : Type 0} ⦃n : Number F⦄ where
  list_of-or_list : (xs : List (Json F)) → list_of (or_list (arr (array_of xs))) ≡ ok xs
  unfolding list_of truthy elements array_of
  list_of-or_list [] = refl
  list_of-or_list (x ∷ xs) = ap (λ l. ok (x ∷ l)) (rest xs)
    where
      rest : (ys : List (Json F)) → elements (array_of ys) ≡ ys
      rest [] = refl
      rest (y ∷ ys) = ap (λ l. y ∷ l) (rest ys)

  abbrev pub one_if : Bool → F
  one_if b = if b then n.literal 1 0 else n.literal 0 0

  abbrev pub metric : String → String → Point F → Metric F
  metric name unit point = record { name = name; unit = unit; point = point }

  abbrev pub aged : Option ℕ → List (Metric F)
  aged none = []
  aged (some ms) = metric "threevn.joint_states.age" "s" (as_double (n.literal ms 3)) ∷ []

  -- The metrics that a snapshot stands for.
  pub metrics_of : Snapshot F → ℕ → F → List (Metric F)
  metrics_of s failed start_ns =
      metric "threevn.robot.ready" "1" (as_double (one_if s.ready))
      ∷ metric "threevn.robot.uptime" "s" (as_double (n.literal s.uptime 3))
      ∷ metric "threevn.controllers.active" "{controller}"
          (as_double (n.literal (length (keep is_active s.controllers)) 0))
      ∷ metric "threevn.hardware.active" "{component}"
          (as_double (n.literal (length (keep is_active s.hardware)) 0))
      ∷ metric "threevn.joint_states.received" "1" (as_int (n.literal s.joint_messages 0) start_ns)
      ∷ (aged s.joint_age
          ++ (metric "threevn.joint_states.fresh" "1" (as_double (one_if s.joints_fresh))
              ∷ metric "threevn.controllers.fresh" "1" (as_double (one_if s.controllers_fresh))
              ∷ metric "threevn.hardware.fresh" "1" (as_double (one_if s.hardware_fresh))
              ∷ metric "threevn.otlp.export.failures" "1" (as_int (n.literal failed 0) start_ns)
              ∷ []))

  age_metric-aged : (reading : Reading F) (a : Option ℕ) → age_metric reading (age a) ≡ ok (aged a)
  unfolding age_metric to_float
  age_metric-aged reading none = refl
  age_metric-aged reading (some ms) = refl

  -- As whole numbers are left alone by `int`, the metrics of the node are those of its state: each
  -- gauge and counter has the number of the snapshot, the active parts are counted, and the age is
  -- left out exactly if no joint state came.
  pub build_metrics-fleet_state :
      (reading : Reading F) (sentence : Reason → String) (first second : Readings)
      (s : RobotState F) (failed : ℕ) (start_ns : F)
      → ((k : ℕ) → reading.truncate (n.literal k 0) ≡ ok (n.literal k 0))
      → build_metrics reading (fleet_state sentence first second s) failed start_ns
        ≡ ok (metrics_of (snapshot first s) failed start_ns)
  unfolding build_metrics fleet_state snapshot_dict find get_or truthy to_float to_int member item
      metrics_of snapshot
  build_metrics-fleet_state reading sentence first second s failed start_ns whole =
      let snap = snapshot first s in
      rw
        (
          list_of-or_list (map component_dict snap.controllers),
          count_active-component_dict F snap.controllers,
          list_of-or_list (map component_dict snap.hardware),
          count_active-component_dict F snap.hardware,
          whole s.joint_messages,
          whole failed,
          age_metric-aged reading snap.joint_age,
        )
        refl
