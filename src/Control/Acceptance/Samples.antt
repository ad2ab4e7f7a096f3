-- ===== src/Control/Acceptance/Samples.antt =====
-- An acceptance run over scenarios that pass while the world is small.
use vn_robotics.Prelude.{ℕ, ◌+◌, ◌≡◌, refl, Bool, true, false, String, List, [], ◌∷◌, arith, ltb}
use vn_robotics.Py.Errors.{ok, raise, robot_not_ready}
use vn_robotics.Py.Exec.{Exec}
use vn_robotics.Control.Scenario.{ScenarioResult, empty}
use vn_robotics.Control.Acceptance.{
  build_report, run_sequence, main, run_named, unknown_of, is_nil, all_passed, sequence,
}
use vn_robotics.Control.Acceptance.Verdict.{main-zero, names_of}

abbrev result : String → Bool → ScenarioResult
result name good = record {
  name = name;
  steps = record { name = "only"; passed = good; detail = empty; seconds = 1 } ∷ [];
}

-- Each scenario adds one to the world, and fails from the fourth on.
abbrev tiring : String → Exec ℕ ScenarioResult
tiring name w = (ok (result name (ltb w 3)), w + 1)

tiring-named : (n : String) (w : ℕ) (r : ScenarioResult) → (tiring n w).0 ≡ ok r → r.name ≡ n
tiring-named n w r h = ground arith

abbrev reach : Exec ℕ (Unit {0})
reach w = (ok tt, w)

abbrev nothing : Exec ℕ (Unit {0})
nothing w = (ok tt, w)

abbrev short : List String
short = "home" ∷ "gripper" ∷ []

short_passes : (main tiring sequence short reach nothing 5 0).0 ≡ ok 0
unfolding main run_sequence build_report
short_passes = refl

long_stops :
    (run_sequence tiring sequence 1).0
    ≡ ok (result "home" true ∷ result "move_joint" true ∷ result "move_to_position" false ∷ [])
unfolding run_sequence
long_stops = refl

codes :
    ((main tiring sequence ("dance" ∷ []) reach nothing 5 0).0 ≡ ok 2)
    × ((main tiring sequence [] (λ w. (raise robot_not_ready, w)) nothing 5 0).0 ≡ ok 3)
    × ((main tiring sequence [] reach nothing 5 0).0 ≡ ok 1)
    × ((run_named tiring sequence sequence reach 0).0 ≡ ok 1)
unfolding main run_sequence build_report run_named
codes = (refl, refl, refl, refl)

main-zero_example :
    (rs : List ScenarioResult) × (is_nil (unknown_of sequence short) ≡ true)
    × ((reach 0).0 ≡ ok tt)
    × ((run_sequence tiring short 0).0 ≡ ok rs)
    × (names_of rs ≡ short)
    × (all_passed rs ≡ true)
main-zero_example = main-zero tiring tiring-named sequence short reach nothing 5 0 short_passes
