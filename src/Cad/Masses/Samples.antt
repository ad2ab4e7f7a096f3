-- ===== src/Cad/Masses/Samples.antt =====
-- An arm of two joints, over numbers counted in hundredths.
use vn_robotics.Prelude.{
  ℕ, ◌≡◌, refl, none, some, [], ◌∷◌, String, lookup, ◌==◌, string_eq, if◌then◌else◌,
}
use vn_robotics.Py.Errors.{ok}
use vn_robotics.Py.Json.{
  Json, num, str, obj, end, field, member, find, item, items, entries, as_number,
}
use vn_robotics.Mlops.Gates.Samples.{hundredths}
use vn_robotics.Cad.Masses.{
  Available, riding, servo_riders, ride_all, compute, add_servos, masses_of, add_rider,
}
use vn_robotics.Cad.Masses.Riding.{occurrences, driven, servo_riders-driven}

abbrev joint : String → String → Json ℕ
joint parent servo = obj (field "parent" (str parent) (field "servo" (str servo) end))

abbrev joints : Json ℕ
joints = obj (
    field "pan" (joint "base_link" "mg996r") (
      field "fixed" (obj (field "parent" (str "base_link") end))
        (field "lift" (joint "base_link" "mg996r") end)))

abbrev cfg : Json ℕ
cfg = obj (
    field "joints" joints (
      field "servos" (obj (field "mg996r" (obj (field "mass_kg" (num 6) end)) end))
        (field "links" (obj (field "base_link" (obj end) end)) end)))

abbrev available : Available ℕ
available part = if part == "base_plate" then some (ok 10000000) else none

riders_read : servo_riders cfg ≡ ok (("base_link", "mg996r" ∷ "mg996r" ∷ []) ∷ [])
unfolding servo_riders ride_all item items entries member find add_rider
riders_read = refl

-- 124 g of structure and two servos of 60 g each
base_weighs : compute (λ x. x) available cfg ≡ ok (("base_link", 24) ∷ [])
unfolding compute servo_riders ride_all masses_of add_servos item items entries member find
    as_number lookup add_rider
base_weighs = refl

joints_read :
    (item "joints" cfg ≡ ok joints)
    × (items joints
        ≡ ok (
            ("pan", joint "base_link" "mg996r")
            ∷ ("fixed", obj (field "parent" (str "base_link") end))
            ∷ ("lift", joint "base_link" "mg996r")
            ∷ []))
unfolding item items entries find
joints_read = (refl, refl)

servo_riders-driven_example :
    occurrences "mg996r"
      (riding (lookup "base_link" (("base_link", "mg996r" ∷ "mg996r" ∷ []) ∷ [])))
    ≡ driven {F = ℕ} "base_link" "mg996r" (
        ("pan", joint "base_link" "mg996r")
        ∷ ("fixed", obj (field "parent" (str "base_link") end))
        ∷ ("lift", joint "base_link" "mg996r")
        ∷ [])
servo_riders-driven_example =
    servo_riders-driven cfg joints
      (("pan", joint "base_link" "mg996r")
        ∷ ("fixed", obj (field "parent" (str "base_link") end))
        ∷ ("lift", joint "base_link" "mg996r")
        ∷ [])
      (("base_link", "mg996r" ∷ "mg996r" ∷ []) ∷ []) "base_link" "mg996r" joints_read.0
      joints_read.1 riders_read
