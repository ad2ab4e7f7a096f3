-- ===== src/Mlops/Gates/Samples.antt =====
-- Artifacts to run the gates on, over numbers counted in hundredths.
use Prim.Native.Nat.{◌^◌}
use vn_robotics.Prelude.{
  ℕ, ◌+◌, ◌-◌, ◌*◌, ◌/◌, ◌≡◌, refl, false, String, Option, none, some, List, [], ◌∷◌, ltb, leb,
  nat_eq, map, inl,
}
use vn_robotics.Py.Errors.{Result, ok, is_ok}
use vn_robotics.Py.Json.{
  Number, Json, Items, Fields, num, str, arr, obj, nil, cons, end, field, find, item, keys,
  elements, entries, member, get_or, items, truthy, as_number, equals_one, list_of,
}
use vn_robotics.Mlops.Gates.{
  Reason, Gate, required_keys, missing_keys, order_differs, not_better, gate_beats_baseline,
  check_all, validates, provenance, feature_contract, beats_baseline, no_regression, selected_key,
  score_at, regression_tolerance,
}
use vn_robotics.Mlops.Gates.Improvement.{IsImprovement, IsNoWorse, check_all-IsImprovement}
use vn_robotics.Mlops.Gates.Contract.{recorded}
use vn_robotics.Mlops.Gates.Raising.{check_all_raises, lacking}

instance abbrev pub hundredths : Number ℕ
hundredths = record {
  literal = λ n k. n * 100 / 10 ^ k;
  eq = nat_eq;
  lt = ltb;
  le = leb;
  add = λ a b. a + b;
  sub = λ a b. a - b;
  mul = λ a b. a * b / 100;
  div = λ a b. a * 100 / b;
  abs = λ a. a;
}

abbrev pub result : ℕ → Json ℕ
result median = obj (
    field "train" (obj (field "median_mm" (num median) end))
      (field "test" (obj (field "median_mm" (num median) end)) end))

abbrev pub names : List String
names = "(u-cx)/w" ∷ "(v-cy)/w" ∷ "1/w" ∷ []

abbrev pub text_items : List String → Items ℕ
text_items [] = nil
text_items (s ∷ ss) = cons (str s) (text_items ss)

abbrev pub metrics_of : ℕ → Fields ℕ
metrics_of median = field "geometric" (result 4650) (field "ridge + shape" (result median) end)

-- An artifact with its model's median, in hundredths of a millimetre, and its feature names.
abbrev pub trained : ℕ → List String → Fields ℕ
trained median features = field "schema_version" (num 100) (
    field "model" (obj end) (
      field "selected" (str "ridge + shape") (
        field "features" (arr (text_items features)) (
          field "metrics" (obj (metrics_of median)) (
            field "dataset"
              (obj (
                field "code" (obj (field "commit" (str "a1b2") end))
                  (field "frames" (num 48000) end)))
              (field "code" (obj (field "commit" (str "c3d4") end))
                (field "feature_stats" (obj end) end)))))))

-- Names what a run of the gates computes with.
run : Json ℕ → Option (Json ℕ) → Result (List (Gate × List (Reason ℕ)))
unfolding check_all validates provenance feature_contract beats_baseline no_regression selected_key
    score_at find item keys elements entries member get_or items truthy as_number equals_one list_of
run a i = check_all a names i none

good_passes :
    check_all (obj (trained 1050 names)) names (some (obj (trained 1040 names))) none ≡ ok []
unfolding run
good_passes = refl

worse_fails :
    check_all (obj (trained 4650 names)) names none none
    ≡ ok ((gate_beats_baseline, not_better 4650 4650 ∷ []) ∷ [])
unfolding run
worse_fails = refl

abbrev swapped : List String
swapped = "(v-cy)/w" ∷ "(u-cx)/w" ∷ "1/w" ∷ []

swapped_fails : feature_contract (obj (trained 1050 swapped)) names ≡ ok (order_differs ∷ [])
unfolding run
swapped_fails = refl

check_all-IsImprovement_example :
    (recorded (obj (trained 1050 names)) ≡ ok (map str names))
    × IsImprovement (obj (trained 1050 names))
    × IsNoWorse (obj (trained 1050 names)) (obj (trained 1040 names)) regression_tolerance
check_all-IsImprovement_example =
    check_all-IsImprovement (obj (trained 1050 names)) (obj (trained 1040 names)) names none
      good_passes

abbrev bare : Fields ℕ
bare = field "schema_version" (num 100) (field "selected" (str "ridge + shape") end)

check_all_raises_example :
    (validates (obj bare) ≡ ok (missing_keys (lacking bare required_keys) ∷ []))
    × (is_ok (check_all (obj bare) names none none) ≡ false)
unfolding run
check_all_raises_example = check_all_raises bare names none none (inl refl)
