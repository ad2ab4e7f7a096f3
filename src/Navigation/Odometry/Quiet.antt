-- ===== src/Navigation/Odometry/Quiet.antt =====
-- What the odometry node publishes and log_count over any messages.
use vn_robotics.Prelude.{
  ℕ, suc, ◌+◌, ◌≡◌, refl, Bool, true, false, not, ◌&&◌, List, [], ◌∷◌, ◌++◌, if◌then◌else◌, arith,
  Bool-cases, inl, inr,
}
use vn_robotics.Py.Json.{Number}
use vn_robotics.Navigation.Fusion.{
  YawFuser, Reading, FusedPose, calibrated, is_still, learn, observe, advance,
}
use vn_robotics.Navigation.Odometry.{
  OdomEvent, odometry, odom_transform, calibrating, FusedOdom, OdomSettings, Motion, wheels, imu,
  fresh_pose, fresh_odom, on_odom, warn_unless, respond, publish_pose, reported, on_imu, hear,
  hear_all,
}

module _ {F : Type 0} where
  abbrev pub log_count : List (OdomEvent F) → ℕ
  log_count [] = 0
  log_count (calibrating ∷ es) = suc (log_count es)
  log_count (odometry p r ∷ es) = log_count es
  log_count (odom_transform p ∷ es) = log_count es

  abbrev pub odometry_count : List (OdomEvent F) → ℕ
  odometry_count [] = 0
  odometry_count (odometry p r ∷ es) = suc (odometry_count es)
  odometry_count (calibrating ∷ es) = odometry_count es
  odometry_count (odom_transform p ∷ es) = odometry_count es

  abbrev pub transform_count : List (OdomEvent F) → ℕ
  transform_count [] = 0
  transform_count (odom_transform p ∷ es) = suc (transform_count es)
  transform_count (odometry p r ∷ es) = transform_count es
  transform_count (calibrating ∷ es) = transform_count es

  counts-append :
      (xs ys : List (OdomEvent F))
      → (log_count (xs ++ ys) ≡ log_count xs + log_count ys)
        × (odometry_count (xs ++ ys) ≡ odometry_count xs + odometry_count ys)
        × (transform_count (xs ++ ys) ≡ transform_count xs + transform_count ys)
  counts-append [] ys = (omega arith, omega arith, omega arith)
  counts-append (calibrating ∷ xs) ys =
      let (a, b, c) = counts-append xs ys in (omega (arith, a), omega (arith, b), omega (arith, c))
  counts-append (odometry p r ∷ xs) ys =
      let (a, b, c) = counts-append xs ys in (omega (arith, a), omega (arith, b), omega (arith, c))
  counts-append (odom_transform p ∷ xs) ys =
      let (a, b, c) = counts-append xs ys in (omega (arith, a), omega (arith, b), omega (arith, c))

module _ {F : Type 0} ⦃n : Number F⦄ (settings : OdomSettings F) where
  -- How the events and the pose stand to the fuser.
  pub record IsOrderly (s : FusedOdom F) : Type 0 where
    pub logged : log_count s.events ≡ (if s.warned_calibrating then 1 else 0)
    pub sent :
        transform_count s.events ≡ (if settings.publish_tf then odometry_count s.events else 0)
    pub silent : calibrated s.fuser ≡ false → (odometry_count s.events ≡ 0) × (s.pose ≡ fresh_pose)

  -- A reading takes no calibration back.
  calibrated-observe :
      (r : Reading F) (y : YawFuser F)
      → calibrated (observe settings.circle r y) ≡ false
      → calibrated y ≡ false
  unfolding observe learn
  calibrated-observe r y h = elim (Bool-cases (is_still y.still_rate r && not (calibrated y))) [
    | inl b ↦ ground (arith, b)
    | inr b ↦ ground (arith, b, h)
  ]

  warn_unless-IsOrderly :
      (warned : Bool) (s : FusedOdom F)
      → s.warned_calibrating ≡ warned
      → IsOrderly s
      → IsOrderly (warn_unless settings warned s)
  warn_unless-IsOrderly true s w i = i
  warn_unless-IsOrderly false s w i =
      let (l, p, t) = counts-append s.events (calibrating ∷ []) in
      record {
        logged = ground (arith, i.logged, w, l);
        sent = ground (arith, i.sent, p, t);
        silent = λ h. (ground (arith, (i.silent h).0, p), (i.silent h).1);
      }

  reported-counts :
      (rate yaw : F) (pose : FusedPose F)
      → (log_count (reported settings rate yaw pose) ≡ 0)
        × (odometry_count (reported settings rate yaw pose) ≡ 1)
        × (transform_count (reported settings rate yaw pose)
            ≡ (if settings.publish_tf then 1 else 0))
  reported-counts rate yaw pose = elim (Bool-cases settings.publish_tf) [
    | inl b ↦ rw b (refl, refl, refl)
    | inr b ↦ rw b (refl, refl, refl)
  ]

  publish_pose-IsOrderly :
      (rate : F) (s : FusedOdom F)
      → calibrated s.fuser ≡ true
      → IsOrderly s
      → IsOrderly (publish_pose settings rate s)
  publish_pose-IsOrderly rate s c i =
      let pose = advance settings.circle s.wheel_distance s.fuser.yaw s.pose in
      let news = reported settings (n.sub rate s.fuser.bias) s.fuser.yaw pose in
      let (l, p, t) = counts-append s.events news in
      let (no_log, one, sends) = reported-counts (n.sub rate s.fuser.bias) s.fuser.yaw pose in
      record {
        logged = ground (arith, i.logged, l, no_log);
        sent = ground (arith, i.sent, p, t, one, sends);
        silent = λ h. absurd (ground (arith, c, h));
      }

  respond-IsOrderly :
      (known : Bool) (rate : F) (s : FusedOdom F)
      → calibrated s.fuser ≡ known
      → IsOrderly s
      → IsOrderly (respond settings known rate s)
  respond-IsOrderly false rate s c i = warn_unless-IsOrderly s.warned_calibrating s refl i
  respond-IsOrderly true rate s c i = publish_pose-IsOrderly rate s c i

  hear-IsOrderly : (m : Motion F) (s : FusedOdom F) → IsOrderly s → IsOrderly (hear settings m s)
  unfolding on_odom on_imu
  hear-IsOrderly (wheels point linear angular) s i = record {
    logged = i.logged;
    sent = i.sent;
    silent = i.silent;
  }
  hear-IsOrderly (imu rate stamp) s i =
      let reading : Reading F = record { rate = rate; stamp = stamp; moving = s.moving } in
      let fuser = observe settings.circle reading s.fuser in
      respond-IsOrderly (calibrated fuser) rate (record s { fuser = fuser }) refl
        (record {
          logged = i.logged;
          sent = i.sent;
          silent = λ h. i.silent (calibrated-observe reading s.fuser h);
        })

  hear_all-from :
      (ms : List (Motion F)) (s : FusedOdom F) → IsOrderly s → IsOrderly (hear_all settings ms s)
  unfolding hear_all
  hear_all-from [] s i = i
  hear_all-from (m ∷ ms) s i = hear_all-from ms (hear settings m s) (hear-IsOrderly m s i)

  -- Whatever messages a fresh node hears, in whatever order: while its bias is not calibrated it
  -- has published no
  -- odometry and its pose is where it started. It has logged that it calibrates once or not at
  -- all, as its flag
  -- says, and it has sent a transform for each odometry if it publishes transforms, and else none.
  pub hear_all-IsOrderly :
      (ms : List (Motion F)) (fuser : YawFuser F)
      → IsOrderly (hear_all settings ms (fresh_odom fuser))
  hear_all-IsOrderly ms fuser =
      hear_all-from ms (fresh_odom fuser)
        (record { logged = refl; sent = ground arith; silent = λ h. (refl, refl) })
