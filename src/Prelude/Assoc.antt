-- ===== src/Prelude/Assoc.antt =====
-- Python's dict with text keys, as the list of its items.
use Prim.Native.String.{String}
use mathlib.Core.Path.{◌≡◌, refl}
use mathlib.Core.Bool.{Bool, true, false}
use mathlib.Core.Option.{Option, none, some}
use mathlib.Core.List.{List, [], ◌∷◌}
use native.Mathlib.Omega.{arith}
use text.Mathlib.TextEquality.{eq_iff}
use text.Mathlib.Text.{is_lt}
use Prim.Native.String.{compare}
use vn_robotics.Prelude.Tests.{◌==◌, string_eq, if◌then◌else◌}

abbrev pub is_some {ℓ} : {A : Type ℓ} → Option A → Bool
is_some none = false
is_some (some a) = true

module _ {ℓ} {V : Type ℓ} where
  -- d.get(k)
  unfoldable pub lookup : String → List (String × V) → Option V
  lookup k [] = none
  lookup k ((j, v) ∷ m) = if j == k then some v else lookup k m

  -- d[k] = v, at the end of the dict if the key is new
  unfoldable pub put : String → V → List (String × V) → List (String × V)
  put k v [] = (k, v) ∷ []
  put k v ((j, w) ∷ m) = if j == k then (k, v) ∷ m else (j, w) ∷ put k v m

  -- d[k] = v in a dict that is written with `sort_keys=True` and read back: a new key takes its
  -- place in the order of the keys.
  unfoldable pub put_sorted : String → V → List (String × V) → List (String × V)
  put_sorted k v [] = (k, v) ∷ []
  put_sorted k v ((j, w) ∷ m) =
      let rest = put_sorted k v m in
      if j == k
      then (k, v) ∷ m
      else if is_lt (compare k j)
      then (k, v) ∷ (j, w) ∷ m
      else (j, w) ∷ rest

  pub lookup-put :
      (k j : String) (v : V) (m : List (String × V))
      → lookup j (put k v m) ≡ (if k == j then some v else lookup j m)
  unfolding lookup put
  lookup-put k j v [] = refl
  lookup-put k j v ((i, w) ∷ m) =
      ground (arith, eq_iff k j, eq_iff i k, eq_iff i j, lookup-put k j v m)

  pub lookup-put_sorted :
      (k j : String) (v : V) (m : List (String × V))
      → lookup j (put_sorted k v m) ≡ (if k == j then some v else lookup j m)
  unfolding lookup put_sorted
  lookup-put_sorted k j v [] = refl
  lookup-put_sorted k j v ((i, w) ∷ m) =
      ground (arith, eq_iff k j, eq_iff i k, eq_iff i j, lookup-put_sorted k j v m)

pub ruleset dict_laws = (lookup-put, lookup-put_sorted)
