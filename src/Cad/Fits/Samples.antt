-- ===== src/Cad/Fits/Samples.antt =====
-- A profile with the printer's constants and the turret, over numbers counted in hundredths.
use vn_robotics.Prelude.{ℕ, ◌≡◌, refl, true, none}
use vn_robotics.Py.Errors.{ok}
use vn_robotics.Py.Json.{Json, num, str, obj, end, field, member, find, item, as_number}
use vn_robotics.Py.Convert.{Reading, to_float}
use vn_robotics.Mlops.Gates.Samples.{hundredths}
use vn_robotics.Cad.Profile.{fabrication, link_mm}
use vn_robotics.Cad.Fits.{
  screw_bore_radius, bushing_inner_radius, bushing_outer_radius, pivot_bore_radius,
  bearing_seat_outer_radius, turret_bore_radius, washer_outer_radius,
}

abbrev reading : Reading ℕ
reading = record { float_text = λ s. none; int_text = λ s. none; truncate = λ x. ok x }

abbrev cfg : Json ℕ
cfg = obj (
    field "fabrication"
      (obj (
        field "m3_hole_mm" (num 300)
          (field "hole_clearance_mm" (num 40) (field "min_wall_mm" (num 120) end))))
      (field "links"
        (obj (
          field "shoulder_link"
            (obj (
              field "geometry"
                (obj (
                  field "type" (str "cylinder")
                    (field "radius" (num 4) (field "length" (num 5) end))))
                end))
            end))
        end))

pivot : pivot_bore_radius cfg true ≡ ok 330
unfolding pivot_bore_radius bushing_outer_radius bushing_inner_radius screw_bore_radius fabrication
    member find item as_number
pivot = refl

turret :
    (bearing_seat_outer_radius reading cfg ≡ ok 4240)
    × (turret_bore_radius reading cfg ≡ ok 4280)
    × (washer_outer_radius reading cfg ≡ ok 4520)
unfolding bearing_seat_outer_radius turret_bore_radius washer_outer_radius link_mm fabrication
    member find item as_number to_float
turret = (refl, refl, refl)
