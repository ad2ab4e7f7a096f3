-- ===== src/Navigation/Fusion/Samples.antt =====
-- A fuser that wants two readings at rest, on hundredths that stop at 0.
use vn_robotics.Prelude.{ℕ, ◌%◌, ◌≡◌, refl, Bool, true, false, none, some, List, [], ◌∷◌}
use vn_robotics.Mlops.Gates.Samples.{hundredths}
use vn_robotics.Navigation.Fusion.{
  Circle, Reading, fresh_fuser, learn, observe, observe_all, advance,
}
use vn_robotics.Navigation.Fusion.Bias.{Learned, observe_all-Learned}

-- An angle's cosine is one and its sine nothing.
abbrev straight : Circle ℕ
straight = record { pi = 314; cos = λ a. 100; sin = λ a. 0; modulo = λ a b. a % b }

abbrev reading : ℕ → ℕ → Bool → Reading ℕ
reading rate stamp moving = record { rate = rate; stamp = stamp; moving = moving }

-- At rest, at rest with a gap before it, turning, at rest when enough is known.
abbrev readings : List (Reading ℕ)
readings =
    reading 10 1000 false
    ∷ reading 14 1100 false
    ∷ reading 112 1120 true
    ∷ reading 16 1130 false
    ∷ []

learns : observe_all straight readings (fresh_fuser 2 20) ≡ record {
  yaw = 20;
  bias = 12;
  still_rate = 20;
  bias_samples = 2;
  bias_total = 24;
  bias_count = 2;
  last_stamp = some 1130;
}
unfolding observe_all observe learn
learns = refl

advances :
    advance straight 250 0 (advance straight 200 0 (record { x = 0; y = 0; last_distance = none }))
    ≡ record { x = 50; y = 0; last_distance = some 250 }
unfolding advance
advances = refl

observe_all-Learned_example :
    Learned 20 2 0 0 0 readings (observe_all straight readings (fresh_fuser 2 20))
observe_all-Learned_example = observe_all-Learned straight readings (fresh_fuser 2 20)
