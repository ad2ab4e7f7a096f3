-- ===== src/Navigation/Odometry.antt =====
-- src/threevn_navigation/threevn_navigation/fused_odom.py: the node that combines the distance of
-- the
-- wheels with the heading of the fuser. What it publishes, sends and logs is a list of events, the
-- latest last. `math.dist` is an argument.
pub mod Quiet
mod Samples
use vn_robotics.Prelude.{
  ℕ, zero, suc, Bool, true, false, not, Option, none, some, List, [], ◌∷◌, ◌++◌, if◌then◌else◌,
}
use vn_robotics.Py.Json.{Number}
use vn_robotics.Navigation.Fusion.{
  Circle, YawFuser, Reading, FusedPose, calibrated, observe, advance, wrap, fresh_fuser,
}

-- The parts of an Odometry message that are filled in, or of a transform.
pub record Planar (F : Type 0) : Type 0 where
  pub x : F
  pub y : F
  pub rotation_z : F
  pub rotation_w : F

pub data OdomEvent (F : Type 0) : Type 0 where
  odometry : Planar F → (turn_rate : F) → OdomEvent F
  odom_transform : Planar F → OdomEvent F
  calibrating : OdomEvent F

-- FusedOdom
pub record FusedOdom (F : Type 0) : Type 0 where
  pub fuser : YawFuser F
  pub pose : FusedPose F
  pub wheel_distance : F
  pub moving : Bool
  pub last_wheel : Option (F × F)
  pub warned_calibrating : Bool
  pub events : List (OdomEvent F)

-- The parameters, and the functions of `math`.
pub record OdomSettings (F : Type 0) : Type 0 where
  pub publish_tf : Bool
  pub moving_threshold : F
  pub circle : Circle F
  pub dist : (from_point to_point : F × F) → F

-- A message of the wheels, or of the gyroscope.
pub data Motion (F : Type 0) : Type 0 where
  wheels : (point : F × F) (linear angular : F) → Motion F
  imu : (rate stamp : F) → Motion F

module _ {F : Type 0} ⦃n : Number F⦄ where
  abbrev pub fresh_pose : FusedPose F
  fresh_pose = record { x = n.literal 0 0; y = n.literal 0 0; last_distance = none }

  abbrev pub fresh_odom : YawFuser F → FusedOdom F
  fresh_odom fuser = record {
    fuser = fuser;
    pose = fresh_pose;
    wheel_distance = n.literal 0 0;
    moving = false;
    last_wheel = none;
    warned_calibrating = false;
    events = [];
  }

module _ {F : Type 0} ⦃n : Number F⦄ (settings : OdomSettings F) where
  open settings use {publish_tf, moving_threshold, circle, dist}

  abbrev pub travelled : Option (F × F) → F × F → F → F
  travelled none current distance = distance
  travelled (some last) current distance = n.add distance (dist current last)

  unfoldable pub on_odom : F × F → (linear angular : F) → FusedOdom F → FusedOdom F
  on_odom current linear angular s = record s {
    wheel_distance = travelled s.last_wheel current s.wheel_distance;
    last_wheel = some current;
    moving = n.lt moving_threshold (n.add (n.abs linear) (n.abs angular));
  }

  -- if not self._warned_calibrating
  abbrev pub warn_unless : Bool → FusedOdom F → FusedOdom F
  warn_unless true s = s
  warn_unless false s = record s {
    warned_calibrating = true;
    events = s.events ++ (calibrating ∷ []);
  }

  abbrev pub planar : F → FusedPose F → Planar F
  planar yaw pose =
      let half = n.div yaw (n.literal 2 0) in
      record { x = pose.x; y = pose.y; rotation_z = circle.sin half; rotation_w = circle.cos half }

  -- out, and the transform if there is a broadcaster
  abbrev pub reported : F → F → FusedPose F → List (OdomEvent F)
  reported turn_rate yaw pose =
      let out = planar yaw pose in
      odometry out turn_rate ∷ (if publish_tf then odom_transform out ∷ [] else [])

  abbrev pub publish_pose : F → FusedOdom F → FusedOdom F
  publish_pose rate s =
      let pose = advance circle s.wheel_distance s.fuser.yaw s.pose in
      record s {
        pose = pose;
        events = s.events ++ reported (n.sub rate s.fuser.bias) s.fuser.yaw pose;
      }

  -- After the heading is observed: a log while the bias is estimated, else a pose.
  abbrev pub respond : Bool → F → FusedOdom F → FusedOdom F
  respond false rate s = warn_unless s.warned_calibrating s
  respond true rate s = publish_pose rate s

  unfoldable pub on_imu : (rate stamp : F) → FusedOdom F → FusedOdom F
  unfolding observe advance
  on_imu rate stamp s =
      let reading : Reading F = record { rate = rate; stamp = stamp; moving = s.moving } in
      let fuser = observe circle reading s.fuser in
      respond (calibrated fuser) rate (record s { fuser = fuser })

  abbrev pub hear : Motion F → FusedOdom F → FusedOdom F
  hear (wheels point linear angular) s = on_odom point linear angular s
  hear (imu rate stamp) s = on_imu rate stamp s

  -- Messages in the order in which they come.
  unfoldable pub hear_all : List (Motion F) → FusedOdom F → FusedOdom F
  unfolding on_odom on_imu
  hear_all [] s = s
  hear_all (m ∷ ms) s = hear_all ms (hear m s)

  -- heading_degrees, with `math.degrees`
  abbrev pub heading_degrees : (degrees : F → F) → FusedOdom F → F
  heading_degrees degrees s = degrees (wrap circle s.fuser.yaw)
