-- ===== src/Mlops/Drift/Counts.antt =====
-- What the counters of a drift monitor count.
use vn_robotics.Prelude.{
  ℕ, suc, ◌+◌, ◌≡◌, refl, ap, sym, ◌∙◌, Bool, true, false, not, ◌&&◌, ◌||◌, List, [], ◌∷◌, length,
  any, ◌==◌, number_eq, if◌then◌else◌, arith, Bool-cases, inl, inr,
}
use vn_robotics.Py.Json.{Number}
use vn_robotics.Mlops.Drift.{
  FeatureStats, DriftMonitor, judgeable, is_outside, z_scores, outside, greatest_z, is_drifting,
  no_texts, verdict_of, note_verdict, check,
}

abbrev pub count : {A : Type 0} → (A → Bool) → List A → ℕ
count p [] = 0
count p (x ∷ xs) = if p x then suc (count p xs) else count p xs

module _ {F : Type 0} ⦃n : Number F⦄ where
  -- One entry for each feature.
  abbrev pub fits : List (FeatureStats F) → List F → Bool
  fits fs xs = length xs == length fs

  -- A feature lies outside of the range it had in training.
  abbrev pub strays : List (FeatureStats F) → List F → Bool
  strays [] xs = false
  strays (f ∷ fs) [] = false
  strays (f ∷ fs) (x ∷ xs) = is_outside f x || strays fs xs

  -- A feature that can be judged lies farther from its mean than so many of its deviations.
  abbrev pub differs : F → List (FeatureStats F) → List F → Bool
  differs k [] xs = false
  differs k (f ∷ fs) [] = false
  differs k (f ∷ fs) (x ∷ xs) =
      (judgeable f && n.lt k (n.abs (n.div (n.sub x f.mean) f.std))) || differs k fs xs

  -- Vectors one after the other; one that raises leaves the monitor as it was.
  abbrev pub watch : List (List F) → DriftMonitor F → DriftMonitor F
  watch [] d = d
  watch (v ∷ vs) d = watch vs (check v d).1

  outside-strays :
      (fs : List (FeatureStats F)) (xs : List F) → no_texts (outside fs xs) ≡ not (strays fs xs)
  unfolding outside
  outside-strays [] xs = refl
  outside-strays (f ∷ fs) [] = refl
  outside-strays (f ∷ fs) (x ∷ xs) = elim (Bool-cases (is_outside f x)) [
    | inl b ↦ rw b refl
    | inr b ↦ rw b (outside-strays fs xs)
  ]

  -- The counters after some vectors.
  pub record IsCounted (k : F) (fs : List (FeatureStats F)) (d : DriftMonitor F)
      (vs : List (List F)) (d' : DriftMonitor F) : Type 0 where
    pub same_stats : d'.stats ≡ fs
    pub same_threshold : d'.z_threshold ≡ k
    pub frames_counted : d'.frames ≡ d.frames + count (fits fs) vs
    pub strays_counted : d'.out_of_range ≡ d.out_of_range + count (λ v. fits fs v && strays fs v) vs
    pub drifts_counted :
        d'.beyond_threshold ≡ d.beyond_threshold + count (λ v. fits fs v && differs k fs v) vs

  -- The order of the numbers, and a threshold that is not negative.
  module _ (k : F) (lt_trans : (a b c : F) → n.lt a b ≡ true → n.lt b c ≡ true → n.lt a c ≡ true)
      (lt_split : (a b c : F) → n.lt a c ≡ true → n.lt b c ≡ false → n.lt a b ≡ true)
      (threshold : n.lt k (n.literal 0 0) ≡ false) where
    greatest_z-any :
        (best : F) (zs : List F)
        → n.lt k (greatest_z best zs) ≡ (n.lt k best || any (λ z. n.lt k z) zs)
    unfolding greatest_z
    greatest_z-any best [] = ground arith
    greatest_z-any best (z ∷ zs) = elim (Bool-cases (n.lt best z)) [
      | inl b ↦ rw b (ground (arith, greatest_z-any z zs, lt_trans k best z))
      | inr b ↦ rw b (ground (arith, greatest_z-any best zs, lt_split k best z))
    ]

    z_scores-differs :
        (fs : List (FeatureStats F)) (xs : List F)
        → any (λ z. n.lt k z) (z_scores fs xs) ≡ differs k fs xs
    unfolding z_scores
    z_scores-differs [] xs = refl
    z_scores-differs (f ∷ fs) [] = refl
    z_scores-differs (f ∷ fs) (x ∷ xs) = elim (Bool-cases (judgeable f)) [
      | inl b ↦ rw b (ground (arith, z_scores-differs fs xs))
      | inr b ↦ rw b (ground (arith, threshold, z_scores-differs fs xs))
    ]

    is_drifting-any : (zs : List F) → is_drifting k zs ≡ any (λ z. n.lt k z) zs
    is_drifting-any [] = refl
    is_drifting-any (z ∷ zs) = greatest_z-any z zs

    module _ (fs : List (FeatureStats F)) where
      step_strays :
          (d : DriftMonitor F) (v : List F)
          → d.stats ≡ fs
          → (note_verdict (verdict_of d v) d).out_of_range
            ≡ (if strays fs v then suc d.out_of_range else d.out_of_range)
      unfolding verdict_of
      step_strays d v e = ground (arith, outside-strays fs v, ap (λ s. no_texts (outside s v)) e)

      step_drifts :
          (d : DriftMonitor F) (v : List F)
          → d.stats ≡ fs
          → d.z_threshold ≡ k
          → (note_verdict (verdict_of d v) d).beyond_threshold
            ≡ (if differs k fs v then suc d.beyond_threshold else d.beyond_threshold)
      unfolding verdict_of
      step_drifts d v e t = ground (
        arith,
        is_drifting-any (z_scores fs v),
        z_scores-differs fs v,
        ap (λ s. is_drifting d.z_threshold (z_scores s v)) e,
        ap (λ t. is_drifting t (z_scores fs v)) t,
      )

      -- If the numbers are ordered and the threshold is not negative: whatever vectors come, in
      -- whatever order,
      -- a monitor has note_verdict those with an entry per feature, of these those with an entry
      -- outside of its range
      -- in training, and of these those with an entry that can be judged and lies farther from its
      -- mean than the
      -- threshold allows.
      pub watch-IsCounted :
          (vs : List (List F)) (d : DriftMonitor F)
          → d.stats ≡ fs
          → d.z_threshold ≡ k
          → IsCounted k fs d vs (watch vs d)
      unfolding check
      watch-IsCounted [] d e t = record {
        same_stats = e;
        same_threshold = t;
        frames_counted = omega arith;
        strays_counted = omega arith;
        drifts_counted = omega arith;
      }
      watch-IsCounted (v ∷ vs) d e t = elim (Bool-cases (fits d.stats v)) [
        | inr bad ↦
            let i = watch-IsCounted vs d e t in
            let off : fits fs v ≡ false = sym (ap (λ s. fits s v) e) ∙ bad in
            rw bad (record {
              same_stats = i.same_stats;
              same_threshold = i.same_threshold;
              frames_counted = ground (arith, i.frames_counted, off);
              strays_counted = ground (arith, i.strays_counted, off);
              drifts_counted = ground (arith, i.drifts_counted, off);
            })
        | inl good ↦
            let i = watch-IsCounted vs (note_verdict (verdict_of d v) d) e t in
            let on : fits fs v ≡ true = sym (ap (λ s. fits s v) e) ∙ good in
            rw good (record {
              same_stats = i.same_stats;
              same_threshold = i.same_threshold;
              frames_counted = ground (arith, i.frames_counted, on);
              strays_counted = ground (arith, i.strays_counted, on, step_strays d v e);
              drifts_counted = ground (arith, i.drifts_counted, on, step_drifts d v e t);
            })
      ]
