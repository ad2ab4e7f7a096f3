-- ===== src/Data/Duplicates/Samples.antt =====
-- Five images of two episodes, three of which are alike.
use vn_robotics.Prelude.{
  ℕ, ◌≡◌, refl, String, List, [], ◌∷◌, lookup, put, ◌==◌, string_eq, if◌then◌else◌,
}
use vn_robotics.Py.Errors.{Result, ok, raise, file_not_found}
use vn_robotics.Data.Dataset.{Frame}
use vn_robotics.Data.Duplicates.{
  duplicate_report, digests_of, group_by_episode, add_to_episode, count_digests, tally_one,
}

abbrev shot : String → ℕ → Frame ℕ
shot image episode = record { image = image; episode = episode; index = 0; label = []; stamp = 0 }

abbrev shots : List (Frame ℕ)
shots = shot "a" 2 ∷ shot "b" 2 ∷ shot "c" 1 ∷ shot "d" 2 ∷ shot "e" 1 ∷ []

-- The first, the second and the last show the same.
abbrev picture : String → Result String
picture image = ok (if image == "b" then "a" else if image == "e" then "a" else image)

report_test :
    duplicate_report (λ path. path) picture shots
    ≡ ok (record {
      files = 5;
      unique = 3;
      duplicate_groups = 1;
      largest_group = 3;
      unique_per_episode = (1, 2) ∷ (2, 2) ∷ [];
    })
unfolding duplicate_report digests_of group_by_episode add_to_episode count_digests tally_one lookup
    put
report_test = refl

-- The third image is gone.
abbrev one_gone : String → Result String
one_gone image = if image == "c" then raise (file_not_found "c") else ok image

gone_test : duplicate_report (λ path. path) one_gone shots ≡ raise (file_not_found "c")
unfolding duplicate_report digests_of
gone_test = refl
