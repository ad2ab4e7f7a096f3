-- ===== src/Data/Collect/Loading.antt =====
-- What a session writes, `load` reads.
use Prim.Native.Char.{code}
use Prim.Native.String.append
use Prim.Native.String.{◌++◌ as ◌<>◌}
use vn_robotics.Prelude.{
  ◌≡◌, refl, ap, Bool, false, ◌||◌, String, some, List, [], ◌∷◌, map, All, ◌==◌, string_eq, arith,
}
use vn_robotics.Py.Errors.{Result, ok}
use vn_robotics.Py.Json.{Number, Json, num, item, find, list_of, elements}
use vn_robotics.Py.Text.{is_break, strip, splitlines}
use vn_robotics.Data.Dataset.{Frame}
use vn_robotics.Data.Dataset.Load.{Loaded, join, load_row, load_lines, load}
use vn_robotics.Data.Collect.Session.{Session, json_list, row_json, labels_text}

-- Some character ends a line.
unfoldable pub breaks : String → Bool
breaks String.[] = false
breaks (String.◌∷◌ c s) = is_break (code c) || breaks s

both_false : (a b : Bool) → (a || b) ≡ false → (a ≡ false) × (b ≡ false)
both_false a b h = ground arith

splitlines-append :
    (line rest : String)
    → breaks line ≡ false
    → splitlines (line <> ("\n" <> rest)) ≡ line ∷ splitlines rest
unfolding breaks splitlines
splitlines-append String.[] rest h =
    rw (append.nil ("\n" <> rest), append.cons _ "" rest, append.nil rest) refl
splitlines-append (String.◌∷◌ c s) rest h =
    let (a, b) = both_false (is_break (code c)) (breaks s) h in
    rw (append.cons c s ("\n" <> rest), a, splitlines-append s rest b) refl

elements-json_list : {F : Type 0} (xs : List F) → elements (json_list xs) ≡ map num xs
unfolding elements json_list
elements-json_list [] = refl
elements-json_list (x ∷ xs) = ap (λ l. num x ∷ l) (elements-json_list xs)

module _ {F : Type 0} ⦃n : Number F⦄ (dumps : Json F → String)
    (loads : String → Result (Json F)) where
  -- What the code relies on of `json` for a row: its text is one line that is not blank and is read
  -- back.
  pub record IsReadBack (f : Frame F) : Type 0 where
    pub read_back : loads (dumps (row_json f)) ≡ ok (row_json f)
    pub one_line : breaks (dumps (row_json f)) ≡ false
    pub not_blank : (strip (dumps (row_json f)) == "") ≡ false

module _ {F : Type 0} ⦃n : Number F⦄ where
  -- A row as it is read from the file.
  abbrev pub loaded : (directory : String) → Frame F → Loaded F
  loaded directory f = record {
    image_path = join directory f.image;
    episode = num (n.literal f.episode 0);
    index = num (n.literal f.index 0);
    label = map num f.label;
    stamp = num f.stamp;
  }

  load_row-row_json :
      (directory : String) (f : Frame F) → load_row directory (row_json f) ≡ ok (loaded directory f)
  unfolding load_row item find list_of
  load_row-row_json directory f = rw (elements-json_list f.label) refl

module _ {F : Type 0} ⦃n : Number F⦄ (session : Session F) (loads : String → Result (Json F)) where
  load_lines-labels_text :
      (directory : String) (rows : List (Frame F))
      → All (IsReadBack session.dumps loads) rows
      → load_lines loads directory (splitlines (labels_text session rows))
        ≡ ok (map (loaded directory) rows)
  unfolding labels_text load_lines splitlines
  load_lines-labels_text directory [] h = refl
  load_lines-labels_text directory (f ∷ fs) (h, hs) =
      rw
        (
          splitlines-append (session.dumps (row_json f)) (labels_text session fs) h.one_line,
          h.not_blank,
          h.read_back,
          load_row-row_json directory f,
          load_lines-labels_text directory fs hs,
        )
        refl

  -- The text that a session writes for its rows is loaded as these rows, in their order, when the
  -- text of each row is one line that is not blank and `json` reads it back.
  pub load-labels_text :
      (directory : String) (rows : List (Frame F))
      → All (IsReadBack session.dumps loads) rows
      → load loads directory (some (labels_text session rows)) ≡ ok (map (loaded directory) rows)
  unfolding load
  load-labels_text directory rows h = load_lines-labels_text directory rows h
