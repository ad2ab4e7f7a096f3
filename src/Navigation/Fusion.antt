-- ===== src/Navigation/Fusion.antt =====
-- src/threevn_navigation/threevn_navigation/fusion.py: the heading from the gyroscope and the
-- position
-- from the wheels. What Python and `math` do with floating-point numbers is an argument.
pub mod Bias
mod Samples
use vn_robotics.Prelude.{
  ℕ, zero, suc, ◌≡◌, Bool, true, false, not, ◌&&◌, Option, none, some, List, [], ◌∷◌, if◌then◌else◌,
  leb,
}
use vn_robotics.Py.Json.{Number}

-- pi, cos and sin of `math`, and the operator %
pub record Circle (F : Type 0) : Type 0 where
  pub pi : F
  pub cos : F → F
  pub sin : F → F
  pub modulo : F → F → F

-- YawFuser
pub record YawFuser (F : Type 0) : Type 0 where
  pub yaw : F
  pub bias : F
  pub still_rate : F
  pub bias_samples : ℕ
  pub bias_total : F
  pub bias_count : ℕ
  pub last_stamp : Option F

-- One call of observe.
pub record Reading (F : Type 0) : Type 0 where
  pub rate : F
  pub stamp : F
  pub moving : Bool

-- FusedPose
pub record FusedPose (F : Type 0) : Type 0 where
  pub x : F
  pub y : F
  pub last_distance : Option F

-- calibrated
abbrev pub calibrated : {F : Type 0} → YawFuser F → Bool
calibrated s = leb s.bias_samples s.bias_count

module _ {F : Type 0} ⦃n : Number F⦄ where
  abbrev pub fresh_fuser : ℕ → F → YawFuser F
  fresh_fuser bias_samples still_rate = record {
    yaw = n.literal 0 0;
    bias = n.literal 0 0;
    still_rate = still_rate;
    bias_samples = bias_samples;
    bias_total = n.literal 0 0;
    bias_count = 0;
    last_stamp = none;
  }

  abbrev pub is_still : F → Reading F → Bool
  is_still still_rate r = not r.moving && n.lt (n.abs r.rate) still_rate

  -- The first part of observe.
  unfoldable pub learn : Reading F → YawFuser F → YawFuser F
  learn r s =
      let total = n.add s.bias_total r.rate in
      if is_still s.still_rate r && not (calibrated s)
      then record s {
        bias_total = total;
        bias_count = suc s.bias_count;
        bias = n.div total (n.literal (suc s.bias_count) 0);
      }
      else s

module _ {F : Type 0} ⦃n : Number F⦄ (circle : Circle F) where
  open circle use {pi, cos, sin, modulo}

  abbrev pub wrap : F → F
  wrap angle = n.sub (modulo (n.add angle pi) (n.mul (n.literal 2 0) pi)) pi

  -- The heading after the time since the last stamp.
  abbrev pub turned : Option F → Reading F → YawFuser F → F
  turned none r s = s.yaw
  turned (some last) r s =
      let dt = n.sub r.stamp last in
      if n.lt (n.literal 0 0) dt && n.lt dt (n.literal 5 1)
      then wrap (n.add s.yaw (n.mul (n.sub r.rate s.bias) dt))
      else s.yaw

  unfoldable pub observe : Reading F → YawFuser F → YawFuser F
  unfolding learn
  observe r s =
      let s' = learn r s in record s' { yaw = turned s'.last_stamp r s'; last_stamp = some r.stamp }

  unfoldable pub reset : F → YawFuser F → YawFuser F
  reset yaw s = record s { yaw = wrap yaw; last_stamp = none }

  abbrev pub moved : Option F → F → F → FusedPose F → FusedPose F
  moved none distance yaw s = s
  moved (some last) distance yaw s =
      let step = n.sub distance last in
      record s { x = n.add s.x (n.mul step (cos yaw)); y = n.add s.y (n.mul step (sin yaw)) }

  -- FusedPose.advance
  unfoldable pub advance : F → F → FusedPose F → FusedPose F
  advance distance yaw s = record (moved s.last_distance distance yaw s) {
    last_distance = some distance;
  }

  -- Readings one after the other.
  unfoldable pub observe_all : List (Reading F) → YawFuser F → YawFuser F
  observe_all [] s = s
  observe_all (r ∷ rs) s = observe_all rs (observe r s)
