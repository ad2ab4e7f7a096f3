-- ===== src/Dashboard/Version/Samples.antt =====
-- A robot that knows its commit, with blanks around it, and an empty profile.
use vn_robotics.Prelude.{◌≡◌, refl, [], ◌∷◌, lookup, string_eq}
use vn_robotics.Dashboard.Version.{Environment, missing_fields}

abbrev deployed : Environment
deployed name =
    lookup name (
      ("THREEVN_GIT_COMMIT", " a1b2 ")
      ∷ ("THREEVN_PROFILE", "  ")
      ∷ ("THREEVN_TARGET", "mock")
      ∷ [])

missing :
    missing_fields deployed "bench" "today" ≡ "deployed_at" ∷ "firmware_version" ∷ "git_branch" ∷ []
unfolding missing_fields lookup
missing = refl
