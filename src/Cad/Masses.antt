-- ===== src/Cad/Masses.antt =====
-- cad/threevn_cad/masses.py: what each link weighs. The volume of a printed part is an argument,
-- and
-- so is rounding to four places. Names of links and of servos are texts.
pub mod Riding
mod Samples
use Prim.Native.String.{◌++◌ as ◌<>◌}
use vn_robotics.Prelude.{
  ℕ, suc, Bool, true, false, not, ◌&&◌, String, Option, none, some, List, [], ◌∷◌, ◌++◌, ◌==◌,
  string_eq, if◌then◌else◌, lookup,
}
use vn_robotics.Py.Errors.{Result, ok, raise, key_error, type_error, or_raise, ◌>>=◌}
use vn_robotics.Py.Json.{Number, Json, str, item, items, member, as_number}

-- A dict of lists.
abbrev pub Riders : Type 0
Riders = List (String × List String)

-- STRUCTURE
abbrev pub structure : List (String × String)
structure =
    ("base_link", "base_plate")
    ∷ ("shoulder_link", "shoulder_turret")
    ∷ ("upper_arm_link", "upper_arm_link")
    ∷ ("forearm_link", "forearm_link")
    ∷ ("wrist_link", "wrist_bracket")
    ∷ ("gripper_base_link", "gripper_base")
    ∷ ("gripper_left_finger_link", "gripper_finger")
    ∷ ("gripper_right_finger_link", "gripper_finger")
    ∷ []

-- riders.setdefault(link, []).append(servo)
unfoldable pub add_rider : (link servo : String) → Riders → Riders
add_rider link servo [] = (link, servo ∷ []) ∷ []
add_rider link servo ((l, servos) ∷ rest) =
    let others = add_rider link servo rest in
    if l == link then (l, servos ++ servo ∷ []) ∷ rest else (l, servos) ∷ others

-- riders.get(link, [])
abbrev pub riding : Option (List String) → List String
riding none = []
riding (some servos) = servos

module _ {F : Type 0} where
  abbrev pub text_of : Json F → Result String
  text_of (str s) = ok s
  text_of v = raise type_error

  abbrev pub ride_if : Bool → Json F → Riders → Result Riders
  ride_if false joint riders = ok riders
  ride_if true joint riders = do
    parent ← item "parent" joint
    link ← text_of parent
    driven ← item "servo" joint
    servo ← text_of driven
    ok (add_rider link servo riders)

  -- The loop over the joints.
  unfoldable pub ride_all : List (String × Json F) → Riders → Result Riders
  ride_all [] riders = ok riders
  ride_all ((name, joint) ∷ joints) riders = do
    here ← member "servo" joint
    riders' ← ride_if here joint riders
    ride_all joints riders'

  unfoldable pub servo_riders : Json F → Result Riders
  unfolding ride_all
  servo_riders cfg = do joints ← item "joints" cfg; entries ← items joints; ride_all entries []

-- The parts that can be made, by name: what the solid that a builder returns measures, in mm3.
abbrev pub Available : Type 0 → Type 0
Available F = String → Option (Result F)

module _ {F : Type 0} ⦃n : Number F⦄ where
  -- _grams, of a volume
  abbrev pub grams_of : F → F
  grams_of volume = n.mul (n.div volume (n.literal 1000 0)) (n.literal 124 2)

  -- {name: spec['mass_kg'] * 1000.0}
  unfoldable pub masses_of : List (String × Json F) → Result (List (String × F))
  masses_of [] = ok []
  masses_of ((name, spec) ∷ rest) = do
    mass ← item "mass_kg" spec
    kg ← as_number mass
    others ← masses_of rest
    ok ((name, n.mul kg (n.literal 1000 0)) ∷ others)

  abbrev pub add_adapter : Option (Result F) → F → Result F
  add_adapter none grams = ok grams
  add_adapter (some volume) grams = do v ← volume; ok (n.add grams (grams_of v))

  unfoldable pub add_servos : Available F → List (String × F) → List String → (grams : F) → Result F
  add_servos available masses [] grams = ok grams
  add_servos available masses (servo ∷ servos) grams = do
    mass ← or_raise (key_error servo) (lookup servo masses)
    heavier ← add_adapter (available ("horn_adapter_" <> servo)) (n.add grams mass)
    add_servos available masses servos heavier

module _ {F : Type 0} ⦃n : Number F⦄ (round4 : F → F) (available : Available F) where
  abbrev pub weigh_known :
      List (String × F)
      → Riders
      → (link : String) → Result F
      → (known : Bool) → Result (List (String × F))
  weigh_known masses riders link volume false = ok []
  weigh_known masses riders link volume true = do
    v ← volume
    grams ← add_servos available masses (riding (lookup link riders)) (grams_of v)
    ok ((link, round4 (n.div grams (n.literal 1000 0))) ∷ [])

  abbrev pub weigh_part :
      (cfg : Json F)
      → List (String × F)
      → Riders
      → (link : String) → Option (Result F)
      → Result (List (String × F))
  weigh_part cfg masses riders link none = ok []
  weigh_part cfg masses riders link (some volume) = do
    links ← item "links" cfg
    known ← member link links
    weigh_known masses riders link volume known

  -- The loop over the links, which differ.
  unfoldable pub weigh_all :
      (cfg : Json F)
      → List (String × F)
      → Riders
      → List (String × String)
      → Result (List (String × F))
  weigh_all cfg masses riders [] = ok []
  weigh_all cfg masses riders ((link, part) ∷ rest) = do
    weighed ← weigh_part cfg masses riders link (available part)
    others ← weigh_all cfg masses riders rest
    ok (weighed ++ others)

  unfoldable pub compute : Json F → Result (List (String × F))
  unfolding servo_riders masses_of weigh_all add_servos
  compute cfg = do
    riders ← servo_riders cfg
    servos ← item "servos" cfg
    specs ← items servos
    masses ← masses_of specs
    weigh_all cfg masses riders structure
