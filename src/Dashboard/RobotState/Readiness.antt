-- ===== src/Dashboard/RobotState/Readiness.antt =====
-- When the robot counts as ready, and that the reasons say why it does not.
use mathlib.Core.Option
use vn_robotics.Prelude.{
  ℕ, ◌+◌, ◌≤◌, ◌≡◌, refl, ◌≢◌, Bool, true, false, ◌&&◌, String, Option, none, some, List, [], ◌∷◌,
  ◌++◌, map, arith, contains, Option-cases, inl, inr, string_eq,
}
use vn_robotics.Dashboard.RobotState.{
  RobotState, Readings, Component, is_ready, readiness_detail, fresh, age_of, stale_after,
  controller_stale_after, active_names, missing_of, is_empty, joint_reasons, controller_reasons,
  not_active, round_tenth,
}

all_missing : (cf : Bool) (cs : List Component) → cf ≡ false → missing_of cf cs ≢ []
all_missing cf cs e m = ground arith

reasons_iff :
    (ja ca : Option ℕ) (jf cf : Bool) (missing : List String)
    → (ja ≡ none → jf ≡ false)
    → (cf ≡ false → missing ≢ [])
    → let reasons = joint_reasons ja jf ++ (controller_reasons ca cf ++ map not_active missing) in
      (reasons ≡ [] → (jf && is_empty missing) ≡ true)
      × ((jf && is_empty missing) ≡ true → reasons ≡ [])
reasons_iff ja ca jf cf [] u v = ground arith
reasons_iff ja ca jf cf (m ∷ ms) u v = ground arith

module _ {P : Type 0} where
  -- Joint state came in within the last second, and a controller list within the last six, which
  -- has every required controller active.
  pub record IsUsable (at : Readings) (s : RobotState P) : Type 0 where
    pub joint_stamp : ℕ
    pub controller_stamp : ℕ
    pub joints_seen : s.joint_stamp ≡ some joint_stamp
    pub joints_recent : at.joint ≤ joint_stamp + 1000
    pub controllers_seen : s.controller_stamp ≡ some controller_stamp
    pub controllers_recent : at.controller ≤ controller_stamp + 6000
    pub broadcaster : contains "joint_state_broadcaster" (active_names s.controllers) ≡ true
    pub arm : contains "arm_controller" (active_names s.controllers) ≡ true

  -- If the robot counts as ready, it is usable.
  is_ready→IsUsable : (at : Readings) (s : RobotState P) → is_ready at s ≡ true → IsUsable at s
  unfolding is_ready
  is_ready→IsUsable at s h = elim (Option-cases s.joint_stamp) [
    | inl e ↦ absurd (ground arith)
    | inr (t, e) ↦ elim (Option-cases s.controller_stamp) [
      | inl d ↦ absurd (ground arith)
      | inr (u, d) ↦ record {
        joint_stamp = t;
        controller_stamp = u;
        joints_seen = e;
        joints_recent = ground arith;
        controllers_seen = d;
        controllers_recent = ground arith;
        broadcaster = ground arith;
        arm = ground arith;
      }
    ]
  ]

  IsUsable→is_ready : (at : Readings) (s : RobotState P) → IsUsable at s → is_ready at s ≡ true
  unfolding is_ready
  IsUsable→is_ready at s u = ground arith

  -- The robot counts as ready exactly if it is usable.
  pub is_ready_iff :
      (at : Readings) (s : RobotState P)
      → (is_ready at s ≡ true → IsUsable at s) × (IsUsable at s → is_ready at s ≡ true)
  is_ready_iff at s = (is_ready→IsUsable at s, IsUsable→is_ready at s)

  -- `readiness_detail` gives the same answer as `is_ready`, and gives no reason exactly if that
  -- answer is yes.
  pub readiness_detail_iff :
      (at : Readings) (s : RobotState P)
      → let (ready, reasons) = readiness_detail at s in
        (ready ≡ is_ready at s) × (reasons ≡ [] → ready ≡ true) × (ready ≡ true → reasons ≡ [])
  unfolding readiness_detail is_ready
  readiness_detail_iff at s =
      let ja = age_of s.joint_stamp at.joint in
      let ca = age_of s.controller_stamp at.controller in
      let jf = fresh stale_after ja in
      let cf = fresh controller_stale_after ca in
      let (empty, full) =
        reasons_iff ja (Option.map round_tenth ca) jf cf (missing_of cf s.controllers)
          (λ e. rw e refl) (λ e. all_missing cf s.controllers e) in
      (refl, empty, full)
