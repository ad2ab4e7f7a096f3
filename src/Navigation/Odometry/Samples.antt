-- ===== src/Navigation/Odometry/Samples.antt =====
-- A node whose bias wants one reading at rest, in hundredths that stop at 0.
use vn_robotics.Prelude.{ℕ, ◌+◌, ◌-◌, ◌%◌, ◌≡◌, refl, true, List, [], ◌∷◌}
use vn_robotics.Mlops.Gates.Samples.{hundredths}
use vn_robotics.Navigation.Fusion.{fresh_fuser, learn, observe, advance}
use vn_robotics.Navigation.Odometry.{
  OdomSettings, Motion, wheels, imu, fresh_odom, on_odom, on_imu, hear_all, odometry,
  odom_transform, calibrating,
}
use vn_robotics.Navigation.Odometry.Quiet.{IsOrderly, hear_all-IsOrderly}

abbrev settings : OdomSettings ℕ
settings = record {
  publish_tf = true;
  moving_threshold = 1;
  circle = record { pi = 314; cos = λ a. 100; sin = λ a. 0; modulo = λ a b. a % b };
  dist = λ p q. (p.0 - q.0) + (p.1 - q.1);
}

-- Turning, at rest, then half a metre on.
abbrev messages : List (Motion ℕ)
messages =
    wheels (0, 0) 20 0
    ∷ imu 90 100
    ∷ wheels (0, 0) 0 0
    ∷ imu 10 200
    ∷ wheels (50, 0) 30 0
    ∷ imu 10 210
    ∷ []

hears :
    (hear_all settings messages (fresh_odom (fresh_fuser 1 20))).events
    ≡ calibrating
      ∷ odometry (record { x = 0; y = 0; rotation_z = 0; rotation_w = 100 }) 0
      ∷ odom_transform (record { x = 0; y = 0; rotation_z = 0; rotation_w = 100 })
      ∷ odometry (record { x = 50; y = 0; rotation_z = 0; rotation_w = 100 }) 0
      ∷ odom_transform (record { x = 50; y = 0; rotation_z = 0; rotation_w = 100 })
      ∷ []
unfolding hear_all on_odom on_imu observe learn advance
hears = refl

hear_all-IsOrderly_example :
    IsOrderly settings (hear_all settings messages (fresh_odom (fresh_fuser 1 20)))
hear_all-IsOrderly_example = hear_all-IsOrderly settings messages (fresh_fuser 1 20)
