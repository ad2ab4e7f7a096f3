-- ===== src/Mlops/Drift/Samples.antt =====
-- Two features, one of which never varied in training, over hundredths that stop at 0.
use vn_robotics.Prelude.{ℕ, ◌≡◌, refl, arith, true, some, List, [], ◌∷◌}
use vn_robotics.Mlops.Gates.Samples.{hundredths}
use vn_robotics.Py.Errors.{ok}
use vn_robotics.Mlops.Drift.{
  FeatureStats, fresh_monitor, check, rates, verdict_of, z_scores, outside, greatest_z, worst_from,
}
use vn_robotics.Mlops.Drift.Counts.{watch, IsCounted, watch-IsCounted}

abbrev stats : List (FeatureStats ℕ)
stats =
    record { name = "1/w"; mean = 1000; std = 200; low = 500; high = 1500 }
    ∷ record { name = "h/w"; mean = 100; std = 0; low = 100; high = 100 }
    ∷ []

-- Usual, far out, one entry short, out of the range of the second.
abbrev vectors : List (List ℕ)
vectors = (1100 ∷ 100 ∷ []) ∷ (2000 ∷ 100 ∷ []) ∷ (1000 ∷ []) ∷ (900 ∷ 140 ∷ []) ∷ []

watch_test : watch vectors (fresh_monitor stats 400) ≡ record {
  stats = stats;
  z_threshold = 400;
  frames = 3;
  out_of_range = 2;
  beyond_threshold = 1;
}
unfolding check verdict_of z_scores outside greatest_z worst_from
watch_test = refl

far_out :
    (check (2000 ∷ 100 ∷ []) (fresh_monitor stats 400)).0
    ≡ ok (record {
      drifting = true;
      max_z = 500;
      worst_feature = some "1/w";
      outside_training_range = "1/w" ∷ [];
    })
unfolding check verdict_of z_scores outside greatest_z worst_from
far_out = refl

rates_test :
    rates (watch vectors (fresh_monitor stats 400))
    ≡ record { frames = 3; fraction_drifting = 33; fraction_outside_range = 66 }
unfolding rates check verdict_of z_scores outside greatest_z worst_from
rates_test = refl

watch-IsCounted_example :
    IsCounted 400 stats (fresh_monitor stats 400) vectors (watch vectors (fresh_monitor stats 400))
watch-IsCounted_example =
    watch-IsCounted 400 (λ a b c h g. ground arith) (λ a b c h g. ground arith) refl stats vectors
      (fresh_monitor stats 400) refl refl
