-- ===== src/Mlops/Registry/Samples.antt =====
-- A registry with two models, promoted in turn and rolled back.
use vn_robotics.Prelude.{
  ℕ, ◌≡◌, ◌≢◌, ◌≤◌, refl, true, false, String, none, some, List, [], ◌∷◌, ◌++◌, arith, eq_iff,
  lookup, put, put_sorted, keep, length, string_eq,
}
use vn_robotics.Py.Errors.{ok, raise, is_ok, key_error}
use vn_robotics.Py.Json.{
  Json, obj, str, field, find, item, keys, elements, get_or, member, truthy, list_of,
}
use vn_robotics.Mlops.Gates.{selected_key, item_at}
use vn_robotics.Mlops.Gates.Samples.{hundredths, trained, names}
use vn_robotics.Mlops.Registry.{
  Registry, registered, promoted, artifact, production_version, is_promotion, history, promote,
  rollback, register, summary, empty_registry,
}
use vn_robotics.Mlops.Registry.Rollback.{or_rollback, rollback-promote, rollback_iff}
use vn_robotics.Mlops.Registry.Validity.{IsValid}
use vn_robotics.Mlops.Registry.Runs.{
  Op, registering, promoting, run, step, Grows, run-IsValid, run-Grows,
}

-- The note tells the sample's artifacts apart in place of a digest.
abbrev pub tagged : String → ℕ → Json ℕ
tagged tag median = obj (field "tag" (str tag) (trained median names))

abbrev pub tag_of : Json ℕ → String
tag_of (obj (field k (str s) fs)) = s
tag_of _ = "none"

abbrev pub two_models : List (Op ℕ)
two_models =
    registering 1 2 "first" (tagged "aaaa" 1050)
    ∷ registering 3 4 "second" (tagged "bbbb" 1030)
    ∷ promoting 5 "aaaa" "" false
    ∷ []

-- Names what a run of the operations computes with.
abbrev pub state : Registry ℕ
state = run tag_of two_models empty_registry

opened : Registry ℕ
unfolding run step register summary promote rollback lookup put put_sorted selected_key item_at find
    item keys elements get_or member truthy list_of artifact
opened = state

state-runs :
    (production_version state ≡ some "aaaa")
    × (history state
        ≡ registered 2 "aaaa" "first"
          ∷ registered 4 "bbbb" "second"
          ∷ promoted 5 "aaaa" none "" false
          ∷ [])
unfolding opened
state-runs = (refl, refl)

unknown_version : (promote 6 "cccc" "" false state).0 ≡ raise (key_error "cccc")
unfolding opened
unknown_version = refl

first_has_no_undo : is_ok (rollback 6 "" state).0 ≡ false
unfolding opened
first_has_no_undo = refl

run-IsValid_example : IsValid state
run-IsValid_example = run-IsValid tag_of two_models

run-Grows_example : Grows empty_registry state
run-Grows_example = run-Grows tag_of two_models empty_registry

a_not_b : ◌≢◌ {A = String} "aaaa" "bbbb"
a_not_b e = ground (arith, eq_iff "aaaa" "bbbb", e)

abbrev after : Registry ℕ
after = (promote 6 "bbbb" "better" false state).1

rollback-promote_example :
    ((rollback 7 "drift" after).0 ≡ ok (some "bbbb"))
    × (production_version (rollback 7 "drift" after).1 ≡ some "aaaa")
    × (history (rollback 7 "drift" after).1
        ≡ history after ++ promoted 7 "aaaa" (some "bbbb") (or_rollback "drift") false ∷ [])
unfolding opened
rollback-promote_example =
    rollback-promote 6 7 "bbbb" "aaaa" "better" "drift" false state run-IsValid_example refl refl
      a_not_b

abbrev both : List (Op ℕ)
both = two_models ++ promoting 6 "bbbb" "better" false ∷ []

abbrev second : Registry ℕ
second = run tag_of both empty_registry

rollback_iff_example :
    (is_ok (rollback 7 "drift" second).0 ≡ true → 2 ≤ length (keep is_promotion (history second)))
    × (2 ≤ length (keep is_promotion (history second)) → is_ok (rollback 7 "drift" second).0 ≡ true)
    × (is_ok (rollback 7 "drift" second).0 ≡ false → (rollback 7 "drift" second).1 ≡ second)
rollback_iff_example = rollback_iff 7 "drift" second (run-IsValid tag_of both)

abbrev once : Registry ℕ
once = (register tag_of 1 2 "first" (tagged "aaaa" 1050) empty_registry).1
