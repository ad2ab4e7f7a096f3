-- ===== src/Cad/Profile.antt =====
-- cad/threevn_cad/profile.py: what the profile of the robot says, in millimetres.
use vn_robotics.Prelude.{Bool, true, false, String, ◌==◌, string_eq, if◌then◌else◌}
use vn_robotics.Py.Errors.{Result, ok, raise, key_error, value_error, type_error, ◌>>=◌}
use vn_robotics.Py.Json.{Number, Json, str, obj, item, member, as_number}
use vn_robotics.Py.Convert.{Reading, to_float}

-- What link_mm returns.
pub data Shape (F : Type 0) : Type 0 where
  box : (x y z : F) → Shape F
  cylinder : (radius length : F) → Shape F

module _ {F : Type 0} where
  -- dict(v), for a dict
  abbrev pub as_dict : Json F → Result (Json F)
  as_dict (obj fs) = ok (obj fs)
  as_dict v = raise type_error

  abbrev pub present_or : String → Bool → Json F → Result (Json F)
  present_or key true v = item key v
  present_or key false v = raise (key_error key)

  unfoldable pub servo : Json F → (name : String) → Result (Json F)
  servo cfg name = do
    servos ← item "servos" cfg
    spec ← item name servos
    here ← member "body" spec
    body ← present_or "body" here spec
    as_dict body

  unfoldable pub fabrication : Json F → Result (Json F)
  fabrication cfg = do
    here ← member "fabrication" cfg
    block ← present_or "fabrication" here cfg
    as_dict block

  unfoldable pub joint_servo : Json F → (joint : String) → Result (Json F)
  joint_servo cfg joint = do
    joints ← item "joints" cfg
    spec ← item joint joints
    here ← member "servo" spec
    present_or "servo" here spec

module _ {F : Type 0} ⦃n : Number F⦄ where
  -- The number at a key, in a sum or a product.
  abbrev pub number_at : String → Json F → Result F
  number_at key v = do x ← item key v; as_number x

module _ {F : Type 0} ⦃n : Number F⦄ (reading : Reading F) where
  -- MM_PER_M and mm
  unfoldable pub mm : Json F → Result F
  mm metres = do x ← to_float reading metres; ok (n.mul x (n.literal 1000 0))

  abbrev mm_at : String → Json F → Result F
  mm_at key geometry = do v ← item key geometry; mm v

  abbrev pub box_of : Json F → Result (Shape F)
  box_of geometry = do
    x ← mm_at "x" geometry
    y ← mm_at "y" geometry
    z ← mm_at "z" geometry
    ok (box x y z)

  abbrev pub cylinder_of : Json F → Result (Shape F)
  cylinder_of geometry = do
    radius ← mm_at "radius" geometry
    length ← mm_at "length" geometry
    ok (cylinder radius length)

  abbrev pub shape_of : Json F → Json F → Result (Shape F)
  shape_of geometry (str kind) =
      if kind == "box"
      then box_of geometry
      else if kind == "cylinder"
      then cylinder_of geometry
      else raise value_error
  shape_of geometry kind = raise value_error

  unfoldable pub link_mm : Json F → (name : String) → Result (Shape F)
  unfolding mm
  link_mm cfg name = do
    links ← item "links" cfg
    link ← item name links
    geometry ← item "geometry" link
    kind ← item "type" geometry
    shape_of geometry kind
