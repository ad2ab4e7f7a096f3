-- ===== src/Dashboard/Version.antt =====
-- src/threevn_dashboard/threevn_dashboard/version.py. The environment is a function from the names
-- of
-- variables; the name of the host and the time are arguments.
pub mod Missing
mod Samples
use text.Mathlib.Text.{is_lt}
use Prim.Native.String.{compare}
use vn_robotics.Prelude.{
  Bool, true, false, String, Option, none, some, List, [], ◌∷◌, if◌then◌else◌, ◌==◌, string_eq, map,
  keep,
}
use vn_robotics.Py.Text.{strip, text_or}

abbrev pub Environment : Type 0
Environment = String → Option String

-- SOFTWARE_VERSION
abbrev pub software_version : String
software_version = "0.20.0"

-- UNKNOWN
abbrev pub unknown : String
unknown = "unknown"

abbrev or_empty : Option String → String
or_empty none = ""
or_empty (some s) = s

-- os.environ.get(name, '').strip()
unfoldable pub stripped : Environment → String → String
unfolding strip
stripped environ name = strip (or_empty (environ name))

-- _env
unfoldable pub env : Environment → String → String → String
unfolding stripped
env environ name default = text_or (stripped environ name) default

unfoldable pub version_info : Environment → (host now : String) → List (String × String)
unfolding env
version_info environ host now =
    ("robot_id", env environ "THREEVN_ROBOT_ID" host)
    ∷ ("software_version", software_version)
    ∷ ("git_commit", env environ "THREEVN_GIT_COMMIT" unknown)
    ∷ ("git_branch", env environ "THREEVN_GIT_BRANCH" unknown)
    ∷ ("firmware_version", env environ "THREEVN_FIRMWARE_VERSION" unknown)
    ∷ ("robot_model", env environ "THREEVN_ROBOT_MODEL" "threevn_arm_v1")
    ∷ ("config_profile", env environ "THREEVN_PROFILE" "threevn_arm_v1")
    ∷ ("hardware_target", env environ "THREEVN_TARGET" unknown)
    ∷ ("deployed_at", env environ "THREEVN_DEPLOYED_AT" unknown)
    ∷ ("reported_at", now)
    ∷ []

abbrev pub is_unknown : String × String → Bool
is_unknown (k, v) = v == unknown

abbrev pub insert_key : String → List String → List String
insert_key s [] = s ∷ []
insert_key s (t ∷ ts) =
    let rest = insert_key s ts in if is_lt (compare t s) then t ∷ rest else s ∷ t ∷ ts

abbrev pub sorted_keys : List String → List String
sorted_keys [] = []
sorted_keys (s ∷ ss) = insert_key s (sorted_keys ss)

unfoldable pub missing_fields : Environment → (host now : String) → List String
unfolding version_info
missing_fields environ host now =
    sorted_keys (map (λ p. p.0) (keep is_unknown (version_info environ host now)))
