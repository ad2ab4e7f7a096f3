-- ===== src/Dashboard/Node/Reported.antt =====
-- What the pushers say of the robot state.
use vn_robotics.Prelude.{ℕ, ◌≡◌, refl, ap, String, List, [], ◌∷◌, map, take, string_eq}
use vn_robotics.Py.Errors.{ok}
use vn_robotics.Py.Json.{Number, Json, str, obj, find, get_or, truthy, list_of, elements}
use vn_robotics.Py.Convert.{Reading, to_float, to_int}
use vn_robotics.Dashboard.RobotState.{
  RobotState, Snapshot, Readings, Reason, snapshot, readiness_detail, is_ready,
}
use vn_robotics.Dashboard.Version.{Environment, env, unknown, software_version, version_info}
use vn_robotics.Dashboard.Payload.{Report, build_report}
use vn_robotics.Dashboard.Node.{array_of, fleet_state, snapshot_dict, dict_of}

module _ {F : Type 0} where
  elements-array_of : (xs : List (Json F)) → elements (array_of xs) ≡ xs
  unfolding elements array_of
  elements-array_of [] = refl
  elements-array_of (x ∷ xs) = ap (λ l. x ∷ l) (elements-array_of xs)

module _ {F : Type 0} ⦃n : Number F⦄ (reading : Reading F) where
  -- The report that an environment and a snapshot make.
  reported : Environment → String → Snapshot F → List String → Report F
  reported environ host s reasons = record {
    robot_id = str (env environ "THREEVN_ROBOT_ID" host);
    software_version = str software_version;
    firmware_version = str (env environ "THREEVN_FIRMWARE_VERSION" unknown);
    git_commit = str (env environ "THREEVN_GIT_COMMIT" unknown);
    robot_model = str (env environ "THREEVN_ROBOT_MODEL" "threevn_arm_v1");
    hardware_target = str (env environ "THREEVN_TARGET" unknown);
    ready = s.ready;
    uptime_seconds = n.literal s.uptime 3;
    joint_messages = n.literal s.joint_messages 0;
    reasons = take 8 (map str reasons);
  }

  -- As whole numbers are left alone by `int`, a report of the node can be made at any time, and it
  -- says of the robot what its state says: whether it is ready, and the first eight reasons why
  -- not.
  pub build_report-fleet_state :
      (sentence : Reason → String) (first second : Readings) (s : RobotState F)
      (environ : Environment) (host now : String)
      → ((k : ℕ) → reading.truncate (n.literal k 0) ≡ ok (n.literal k 0))
      → (r : Report F) × (build_report reading
            (fleet_state sentence first second s)
            (obj (dict_of (version_info environ host now)))
          ≡ ok r)
        × (r.ready ≡ is_ready first s)
        × (r.uptime_seconds ≡ n.literal (snapshot first s).uptime 3)
        × (r.joint_messages ≡ n.literal s.joint_messages 0)
        × (r.reasons ≡ take 8 (map str (map sentence (readiness_detail second s).1)))
  unfolding build_report fleet_state dict_of version_info snapshot_dict find get_or list_of truthy
      to_float to_int is_ready snapshot reported
  build_report-fleet_state sentence first second s environ host now whole =
      let reasons = map sentence (readiness_detail second s).1 in
      (
        reported environ host (snapshot first s) reasons,
        rw (whole s.joint_messages, elements-array_of {F = F} (map str reasons)) refl,
        refl,
        refl,
        refl,
        refl,
      )
