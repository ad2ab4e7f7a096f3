-- ===== src/Data/Poses.antt =====
-- src/threevn_data/threevn_data/collect.py, `_read_pose`: the pose of a model in the text that
-- `gz topic` prints. The text, how a text reads as a number, and atan2 are arguments.
use Prim.Native.String.{◌++◌ as ◌<>◌}
use text.Mathlib.Text.{starts_with}
use vn_robotics.Prelude.{
  Bool, true, false, not, ◌&&◌, String, Option, none, some, List, [], ◌∷◌, if◌then◌else◌,
}
use vn_robotics.Py.Errors.{Result, ok, value_error, or_raise, ◌>>=◌}
use vn_robotics.Py.Json.{Number}
use vn_robotics.Py.Text.{strip, after, splitlines, mentions}

pub record Pose (F : Type 0) : Type 0 where
  pub x : F
  pub y : F
  pub z : F
  pub yaw : F

-- The lines after the first header that names the model, up to the next header, and whether there
-- is such a header.
unfoldable pub block_of : (quoted : String) → List String → (seen : Bool) → Bool × List String
block_of quoted [] seen = (seen, [])
block_of quoted (l ∷ ls) seen =
    let header = mentions "name:" l in
    let rest = block_of quoted ls (if header && not seen then mentions quoted l else seen) in
    if header
    then if seen then (true, []) else rest
    else if seen
    then (rest.0, l ∷ rest.1)
    else rest

-- What the code takes from `float` and from `math`.
pub record Angles (F : Type 0) : Type 0 where
  pub float_text : String → Option F
  pub cos : F → F
  pub sin : F → F
  pub atan2 : F → F → F

module _ {F : Type 0} ⦃n : Number F⦄ (angles : Angles F) where
  open angles use {float_text, atan2}

  -- field(section, key), from a line on
  unfoldable pub field_from : (section key : String) → List String → (inside : Bool) → Result F
  field_from section key [] inside = ok (n.literal 0 0)
  field_from section key (l ∷ ls) inside =
      let stripped = strip l in
      let opens = starts_with stripped section in
      let closes = starts_with stripped "}" in
      let rest = field_from section key ls (if opens then true else inside && not closes) in
      if not opens && (inside && (not closes && starts_with stripped (key <> ":")))
      then or_raise value_error (float_text (after 58 stripped))
      else rest

  -- value or 1.0
  abbrev or_one : F → F
  or_one w = if n.eq w (n.literal 0 0) then n.literal 1 0 else w

  unfoldable pub pose_in : List String → Result (Option (Pose F))
  pose_in block = do
    qz ← field_from "orientation" "z" block false
    read_w ← field_from "orientation" "w" block false
    x ← field_from "position" "x" block false
    y ← field_from "position" "y" block false
    z ← field_from "position" "z" block false
    let qw = or_one read_w
    let two = n.literal 2 0
    ok (
        some (record {
          x = x;
          y = y;
          z = z;
          yaw = atan2 (n.mul (n.mul two qw) qz) (n.sub (n.literal 1 0) (n.mul (n.mul two qz) qz));
        }))

  abbrev pub pose_if_seen : Bool × List String → Result (Option (Pose F))
  pose_if_seen (true, block) = pose_in block
  pose_if_seen (false, block) = ok none

  -- What was printed, unless the program failed.
  unfoldable pub read_pose : Option String → (model : String) → Result (Option (Pose F))
  unfolding pose_in block_of splitlines
  read_pose none model = ok none
  read_pose (some out) model =
      pose_if_seen (block_of ("\"" <> (model <> "\"")) (splitlines out) false)
