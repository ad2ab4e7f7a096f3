-- ===== src/Navigation/Fusion/Bias.antt =====
-- What the fuser learns of the bias, and what a reset does to it.
use vn_robotics.Prelude.{
  ℕ, zero, suc, ◌+◌, ◌-◌, ◌≡◌, refl, sym, ◌∙◌, ap, Bool, if◌then◌else◌, true, false, not, ◌&&◌,
  List, [], ◌∷◌, leb, length, take, keep, arith, Bool-cases, inl, inr,
}
use vn_robotics.Py.Json.{Number}
use vn_robotics.Navigation.Fusion.{
  Circle, YawFuser, Reading, calibrated, is_still, learn, observe, observe_all, reset, wrap,
}

module _ {F : Type 0} ⦃n : Number F⦄ where
  abbrev pub sum_from : F → List (Reading F) → F
  sum_from total [] = total
  sum_from total (r ∷ rs) = sum_from (n.add total r.rate) rs

  abbrev pub mean_of : F → ℕ → F
  mean_of total zero = n.literal 0 0
  mean_of total (suc k) = n.div total (n.literal (suc k) 0)

  -- The base is not moving, and the gyro is below the rate of a base at rest.
  abbrev pub at_rest : F → Reading F → Bool
  at_rest still_rate r = if r.moving then false else n.lt (n.abs r.rate) still_rate

  is_still-at_rest : (still_rate : F) (r : Reading F) → is_still still_rate r ≡ at_rest still_rate r
  is_still-at_rest still_rate r = ground arith

  -- The readings at rest that count for the bias, when so many are still wanted.
  abbrev pub counted : F → ℕ → List (Reading F) → List (Reading F)
  counted still_rate wanted rs = take wanted (keep (at_rest still_rate) rs)

  -- What was learned from readings, of which so many at rest were wanted and so many counted
  -- before.
  pub record Learned (still_rate : F) (wanted before : ℕ) (total bias : F) (rs : List (Reading F))
      (after : YawFuser F) : Type 0 where
    pub sum : after.bias_total ≡ sum_from total (counted still_rate wanted rs)
    pub count : after.bias_count ≡ before + length (counted still_rate wanted rs)
    pub mean : bias ≡ mean_of total before → after.bias ≡ mean_of after.bias_total after.bias_count

  take-none : (k : ℕ) → take {A = Reading F} k [] ≡ []
  take-none zero = refl
  take-none (suc k) = refl

  Learned-nil :
      (s : YawFuser F) (wanted : ℕ)
      → Learned s.still_rate wanted s.bias_count s.bias_total s.bias [] s
  Learned-nil s wanted = record {
    sum = rw (take-none wanted) refl;
    count = rw (take-none wanted) (ground arith);
    mean = λ h. h;
  }

  counted-still :
      (still_rate : F) (samples before : ℕ) (r : Reading F) (rs : List (Reading F))
      → (is_still still_rate r && not (leb samples before)) ≡ true
      → counted still_rate (samples - before) (r ∷ rs)
        ≡ r ∷ counted still_rate (samples - suc before) rs
  counted-still still_rate samples before r rs b =
      let still : at_rest still_rate r ≡ true =
        sym (is_still-at_rest still_rate r) ∙ ground (arith, b) in
      let low : leb samples before ≡ false = ground (arith, b) in
      let more : samples - before ≡ suc (samples - suc before) = ground (arith, low) in
      rw (still, more) refl

  counted_skips :
      (still_rate : F) (samples before : ℕ) (r : Reading F) (rs : List (Reading F))
      → (is_still still_rate r && not (leb samples before)) ≡ false
      → counted still_rate (samples - before) (r ∷ rs) ≡ counted still_rate (samples - before) rs
  counted_skips still_rate samples before r rs b = elim (Bool-cases (at_rest still_rate r)) [
    | inr still ↦ rw still refl
    | inl still ↦
        let rest : is_still still_rate r ≡ true = is_still-at_rest still_rate r ∙ still in
        let full : samples - before ≡ 0 = ground (arith, b, rest) in rw full refl
  ]

  Learned-still :
      (still_rate total bias : F) (samples before : ℕ) (r : Reading F) (rs : List (Reading F))
      (after : YawFuser F)
      → (is_still still_rate r && not (leb samples before)) ≡ true
      → Learned still_rate
          (samples - suc before)
          (suc before)
          (n.add total r.rate)
          (n.div (n.add total r.rate) (n.literal (suc before) 0))
          rs
          after
      → Learned still_rate (samples - before) before total bias (r ∷ rs) after
  Learned-still still_rate total bias samples before r rs after b l = record {
    sum = l.sum ∙ ap (sum_from total) (sym (counted-still still_rate samples before r rs b));
    count = rw (counted-still still_rate samples before r rs b) (ground (arith, l.count));
    mean = λ h. l.mean refl;
  }

  Learned-cons :
      (still_rate total bias : F) (samples before : ℕ) (r : Reading F) (rs : List (Reading F))
      (after : YawFuser F)
      → (is_still still_rate r && not (leb samples before)) ≡ false
      → Learned still_rate (samples - before) before total bias rs after
      → Learned still_rate (samples - before) before total bias (r ∷ rs) after
  Learned-cons still_rate total bias samples before r rs after b l = record {
    sum = l.sum ∙ ap (sum_from total) (sym (counted_skips still_rate samples before r rs b));
    count = rw (counted_skips still_rate samples before r rs b) l.count;
    mean = l.mean;
  }

module _ {F : Type 0} ⦃n : Number F⦄ (circle : Circle F) where
  -- Over any readings, the fuser adds up and counts the rates of the first readings at rest until
  -- it has as many as it wants, and none after them; its bias stays their mean.
  pub observe_all-Learned :
      (rs : List (Reading F)) (s : YawFuser F)
      → Learned s.still_rate
          (s.bias_samples - s.bias_count)
          s.bias_count
          s.bias_total
          s.bias
          rs
          (observe_all circle rs s)
  unfolding observe_all observe learn
  observe_all-Learned [] s = Learned-nil s (s.bias_samples - s.bias_count)
  observe_all-Learned (r ∷ rs) s =
      elim (Bool-cases (is_still s.still_rate r && not (calibrated s))) [
        | inl b ↦ rw b (
            Learned-still s.still_rate s.bias_total s.bias s.bias_samples s.bias_count r rs _ b
              (observe_all-Learned rs _))
        | inr b ↦ rw b (
            Learned-cons s.still_rate s.bias_total s.bias s.bias_samples s.bias_count r rs _ b
              (observe_all-Learned rs _))
      ]

  -- The first reading after a reset leaves the heading at the wrapped angle of the reset, whatever
  -- its stamp, and the bias is what it would be without the reset.
  pub observe-reset :
      (r : Reading F) (yaw : F) (s : YawFuser F)
      → ((observe circle r (reset circle yaw s)).yaw ≡ wrap circle yaw)
        × ((observe circle r (reset circle yaw s)).bias ≡ (learn r s).bias)
  unfolding observe learn reset
  observe-reset r yaw s = elim (Bool-cases (is_still s.still_rate r && not (calibrated s))) [
    | inl b ↦ rw b (refl, refl)
    | inr b ↦ rw b (refl, refl)
  ]
