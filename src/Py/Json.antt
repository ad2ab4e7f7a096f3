-- ===== src/Py/Json.antt =====
-- The values that `json.loads` makes, over any type of numbers, and the operations on them that the
-- code uses, with the exceptions that they raise on a value of another kind.
use text.Mathlib.Text.{find?}
use vn_robotics.Prelude.{
  ℕ, Bool, true, false, String, Option, none, some, List, [], ◌∷◌, if◌then◌else◌, ◌==◌, string_eq,
  not, ◌||◌, is_some,
}
use vn_robotics.Py.Errors.{Result, ok, raise, key_error, type_error, attribute_error, or_raise}

-- What the code does with a number: it compares, scales and tests for zero. Laws are hypotheses of
-- the theorems that need them.
pub record Number (F : Type 0) : Type 0 where
  -- The number that the literal n / 10 ^ k of the source denotes.
  pub literal : (n k : ℕ) → F
  pub eq : F → F → Bool
  pub lt : F → F → Bool
  pub le : F → F → Bool
  pub add : F → F → F
  pub sub : F → F → F
  pub mul : F → F → F
  pub div : F → F → F
  pub abs : F → F

mutual
  pub data Json (F : Type 0) : Type 0 where
    null : Json F
    bool : Bool → Json F
    num : F → Json F
    str : String → Json F
    arr : Items F → Json F
    obj : Fields F → Json F

  pub data Items (F : Type 0) : Type 0 where
    nil : Items F
    cons : Json F → Items F → Items F

  -- The items of a dict, in its order; the keys are distinct.
  pub data Fields (F : Type 0) : Type 0 where
    end : Fields F
    field : String → Json F → Fields F → Fields F

module _ {F : Type 0} where
  unfoldable pub elements : Items F → List (Json F)
  elements nil = []
  elements (cons x xs) = x ∷ elements xs

  unfoldable pub find : String → Fields F → Option (Json F)
  find k end = none
  find k (field j v fs) = if j == k then some v else find k fs

  unfoldable pub keys : Fields F → List String
  keys end = []
  keys (field k v fs) = k ∷ keys fs

  unfoldable pub entries : Fields F → List (String × Json F)
  entries end = []
  entries (field k v fs) = (k, v) ∷ entries fs

  -- d[k] = v
  unfoldable pub put_field : String → Json F → Fields F → Fields F
  put_field k v end = field k v end
  put_field k v (field j w fs) = if j == k then field k v fs else field j w (put_field k v fs)

  -- d.update(extra)
  unfoldable pub update : Fields F → Fields F → Fields F
  unfolding put_field
  update fs end = fs
  update fs (field k v extra) = update (put_field k v fs) extra

  has_str : String → Items F → Bool
  has_str k nil = false
  has_str k (cons (str s) xs) = s == k || has_str k xs
  has_str k (cons x xs) = has_str k xs

  -- k in v
  unfoldable pub member : String → Json F → Result Bool
  unfolding has_str
  member k (obj fs) = ok (is_some (find k fs))
  member k (arr xs) = ok (has_str k xs)
  member k (str s) = ok (is_some (find? s k))
  member k v = raise type_error

  -- v[k]
  unfoldable pub item : String → Json F → Result (Json F)
  item k (obj fs) = or_raise (key_error k) (find k fs)
  item k v = raise type_error

  -- v.get(k, default)
  unfoldable pub get_or : String → Json F → Json F → Result (Json F)
  get_or k d (obj fs) = elim (find k fs) [ some v ↦ ok v | none ↦ ok d ]
  get_or k d v = raise attribute_error

  -- v.items()
  unfoldable pub items : Json F → Result (List (String × Json F))
  items (obj fs) = ok (entries fs)
  items v = raise attribute_error

  -- bool(v)
  unfoldable pub truthy : ⦃n : Number F⦄ → Json F → Bool
  truthy null = false
  truthy (bool b) = b
  truthy ⦃n⦄ (num x) = not (n.eq x (n.literal 0 0))
  truthy (str s) = not (s == "")
  truthy (arr nil) = false
  truthy (arr (cons x xs)) = true
  truthy (obj end) = false
  truthy (obj (field k v fs)) = true

  -- The number that an operator reads: `True` is 1 and `False` is 0.
  unfoldable pub as_number : ⦃n : Number F⦄ → Json F → Result F
  as_number ⦃n⦄ (bool b) = ok (if b then n.literal 1 0 else n.literal 0 0)
  as_number (num x) = ok x
  as_number v = raise type_error

  -- v == 1
  unfoldable pub equals_one : ⦃n : Number F⦄ → Json F → Bool
  equals_one ⦃n⦄ (num x) = n.eq x (n.literal 1 0)
  equals_one (bool b) = b
  equals_one v = false

  chars : String → List (Json F)
  chars String.[] = []
  chars (String.◌∷◌ c s) = str (String.◌∷◌ c String.[]) ∷ chars s

  key_texts : List String → List (Json F)
  key_texts [] = []
  key_texts (k ∷ ks) = str k ∷ key_texts ks

  -- list(v)
  unfoldable pub list_of : Json F → Result (List (Json F))
  unfolding elements keys chars key_texts
  list_of (arr xs) = ok (elements xs)
  list_of (str s) = ok (chars s)
  list_of (obj fs) = ok (key_texts (keys fs))
  list_of v = raise type_error

abbrev pub empty_dict : {F : Type 0} → Json F
empty_dict = obj end
