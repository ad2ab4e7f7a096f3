-- ===== src/Mlops/Gates/Names.antt =====
-- Lists of feature names: equality and the comparison of their sorts.
use text.Mathlib.Text.{is_lt}
use Prim.Native.String.{compare}
use vn_robotics.Prelude.{
  Bool, true, false, String, Option, none, some, List, [], ◌∷◌, if◌then◌else◌, ◌==◌, string_eq,
  ◌&&◌, all, leb, length,
}
use vn_robotics.Py.Errors.{Result, ok, raise, type_error}
use vn_robotics.Py.Json.{Json, bool, num, str}

unfoldable pub insert_text : String → List String → List String
insert_text s [] = s ∷ []
insert_text s (t ∷ ts) =
    let rest = insert_text s ts in if is_lt (compare t s) then t ∷ rest else s ∷ t ∷ ts

-- sorted(names)
unfoldable pub sorted : List String → List String
unfolding insert_text
sorted [] = []
sorted (s ∷ ss) = insert_text s (sorted ss)

unfoldable pub same_texts : List String → List String → Bool
same_texts [] [] = true
same_texts (s ∷ ss) (t ∷ ts) = s == t && same_texts ss ts
same_texts _ _ = false

module _ {F : Type 0} where
  -- The texts of a list that holds nothing else.
  unfoldable pub as_texts : List (Json F) → Option (List String)
  as_texts [] = some []
  as_texts (str s ∷ xs) = elim (as_texts xs) [ some ts ↦ some (s ∷ ts) | none ↦ none ]
  as_texts (x ∷ xs) = none

  unfoldable pub is_numeric : Json F → Bool
  is_numeric (num x) = true
  is_numeric (bool b) = true
  is_numeric _ = false

  -- recorded == served
  unfoldable pub equals_names : List (Json F) → List String → Bool
  unfolding as_texts same_texts
  equals_names xs names = elim (as_texts xs) [ some ts ↦ same_texts ts names | none ↦ false ]

  -- sorted(recorded) == sorted(served). A list that is not all texts sorts only if nothing is
  -- compared or all is numeric, and equals no list of texts.
  unfoldable pub sorts_agree : List (Json F) → List String → Result Bool
  unfolding as_texts same_texts sorted is_numeric
  sorts_agree xs names = elim (as_texts xs) [
    | some ts ↦ ok (same_texts (sorted ts) (sorted names))
    | none ↦
        if leb (length xs) 1
        then ok false
        else if all is_numeric xs
        then ok false
        else raise type_error
  ]
