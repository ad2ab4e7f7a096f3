-- ===== src/Data/Dataset/Load.antt =====
-- src/threevn_data/threevn_data/dataset.py, `load`: the rows of labels.jsonl, whose text and
-- `json.loads` are arguments. The values of a row keep the types they have in the file, and a path
-- is
-- its text.
use Prim.Native.String.{◌++◌ as ◌<>◌}
use text.Mathlib.Text.{starts_with}
use vn_robotics.Prelude.{String, Option, none, some, List, [], ◌∷◌, ◌==◌, string_eq, if◌then◌else◌}
use vn_robotics.Py.Errors.{Result, ok, raise, type_error, file_not_found, ◌>>=◌}
use vn_robotics.Py.Json.{Json, str, item, list_of}
use vn_robotics.Py.Text.{strip, splitlines}

pub record Loaded (F : Type 0) : Type 0 where
  pub image_path : String
  pub episode : Json F
  pub index : Json F
  pub label : List (Json F)
  pub stamp : Json F

-- directory / name
abbrev pub join : (directory name : String) → String
join directory name = if starts_with name "/" then name else directory <> ("/" <> name)

module _ {F : Type 0} where
  abbrev pub join_json : (directory : String) → Json F → Result String
  join_json directory (str name) = ok (join directory name)
  join_json directory v = raise type_error

  unfoldable pub load_row : (directory : String) → Json F → Result (Loaded F)
  load_row directory row = do
    name ← item "image" row
    path ← join_json directory name
    episode ← item "episode" row
    index ← item "index" row
    values ← item "label" row
    label ← list_of values
    stamp ← item "stamp" row
    ok (record {
      image_path = path;
      episode = episode;
      index = index;
      label = label;
      stamp = stamp;
    })

module _ {F : Type 0} (loads : String → Result (Json F)) (directory : String) where
  unfoldable pub load_lines : List String → Result (List (Loaded F))
  load_lines [] = ok []
  load_lines (line ∷ lines) =
      let rest = load_lines lines in
      if strip line == ""
      then rest
      else do row ← loads line; frame ← load_row directory row; frames ← rest; ok (frame ∷ frames)

  unfoldable pub load : (labels : Option String) → Result (List (Loaded F))
  unfolding load_lines
  load none = raise (file_not_found (join directory "labels.jsonl"))
  load (some text) = load_lines (splitlines text)
