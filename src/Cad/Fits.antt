-- ===== src/Cad/Fits.antt =====
-- cad/threevn_cad/fits.py: the radii at which two parts meet.
mod Samples
use vn_robotics.Prelude.{Bool, true, false, String, Option, none, some, List, [], ◌∷◌}
use vn_robotics.Py.Errors.{Result, ok, raise, key_error, ◌>>=◌}
use vn_robotics.Py.Json.{Number, Json}
use vn_robotics.Py.Convert.{Reading}
use vn_robotics.Cad.Profile.{Shape, box, cylinder, fabrication, number_at, link_mm}

module _ {F : Type 0} where
  -- turret['radius']
  abbrev pub radius_of : Shape F → Result F
  radius_of (cylinder radius length) = ok radius
  radius_of (box x y z) = raise (key_error "radius")

module _ {F : Type 0} ⦃n : Number F⦄ where
  abbrev two : F
  two = n.literal 2 0

  unfoldable pub screw_bore_radius : Json F → Result F
  screw_bore_radius cfg = do
    fab ← fabrication cfg
    hole ← number_at "m3_hole_mm" fab
    clearance ← number_at "hole_clearance_mm" fab
    ok (n.div (n.add hole clearance) two)

  unfoldable pub bushing_inner_radius : Json F → Result F
  bushing_inner_radius cfg = screw_bore_radius cfg

  unfoldable pub bushing_outer_radius : Json F → Result F
  bushing_outer_radius cfg = do
    fab ← fabrication cfg
    inner ← bushing_inner_radius cfg
    wall ← number_at "min_wall_mm" fab
    ok (n.add inner wall)

  unfoldable pub bushing_flange_radius : Json F → Result F
  bushing_flange_radius cfg = do
    fab ← fabrication cfg
    outer ← bushing_outer_radius cfg
    wall ← number_at "min_wall_mm" fab
    ok (n.add outer wall)

  -- A hole that admits a plug.
  abbrev pub around : (Json F → Result F) → Json F → Result F
  around plug cfg = do
    fab ← fabrication cfg
    outer ← plug cfg
    clearance ← number_at "hole_clearance_mm" fab
    ok (n.add outer clearance)

  unfoldable pub pivot_bore_radius : Json F → (bushed : Bool) → Result F
  pivot_bore_radius cfg false = screw_bore_radius cfg
  pivot_bore_radius cfg true = around bushing_outer_radius cfg

module _ {F : Type 0} ⦃n : Number F⦄ (reading : Reading F) where
  unfoldable pub bearing_seat_outer_radius : Json F → Result F
  bearing_seat_outer_radius cfg = do
    fab ← fabrication cfg
    turret ← link_mm reading cfg "shoulder_link"
    radius ← radius_of turret
    wall ← number_at "min_wall_mm" fab
    ok (n.add radius (n.mul (n.literal 2 0) wall))

  unfoldable pub bearing_seat_inner_radius : Json F → Result F
  bearing_seat_inner_radius cfg = do
    fab ← fabrication cfg
    turret ← link_mm reading cfg "shoulder_link"
    radius ← radius_of turret
    clearance ← number_at "hole_clearance_mm" fab
    ok (n.add radius clearance)

  unfoldable pub turret_bore_radius : Json F → Result F
  turret_bore_radius cfg = around bearing_seat_outer_radius cfg

  unfoldable pub washer_bore_radius : Json F → Result F
  washer_bore_radius cfg = around bearing_seat_outer_radius cfg

  unfoldable pub washer_outer_radius : Json F → Result F
  washer_outer_radius cfg = do
    fab ← fabrication cfg
    bore ← turret_bore_radius cfg
    wall ← number_at "min_wall_mm" fab
    ok (n.add bore (n.mul (n.literal 2 0) wall))

-- A hole with what enters it; a screw is no part.
pub record Pair (F : Type 0) : Type 0 where
  pub hole : Json F → Result F
  pub plug : Option (Json F → Result F)
  pub name : String

module _ {F : Type 0} ⦃n : Number F⦄ (reading : Reading F) where
  -- MATING_PAIRS
  abbrev pub mating_pairs : List (Pair F)
  mating_pairs =
      record {
        hole = λ cfg. pivot_bore_radius cfg true;
        plug = some bushing_outer_radius;
        name = "bushing in a pivot bore";
      }
      ∷ record {
        hole = turret_bore_radius reading;
        plug = some (bearing_seat_outer_radius reading);
        name = "turret over the bearing seat";
      }
      ∷ record {
        hole = washer_bore_radius reading;
        plug = some (bearing_seat_outer_radius reading);
        name = "thrust washer over the bearing seat";
      }
      ∷ record { hole = bushing_inner_radius; plug = none; name = "M3 screw through a bushing" }
      ∷ []
