-- ===== src/Mlops/Serve/Counts.antt =====
-- The counts that the serving node keeps, and what its single calls do to them.
use vn_robotics.Prelude.{
  ℕ, suc, ◌+◌, ◌≡◌, refl, Bool, true, false, Option, none, some, List, [], ◌∷◌, ◌++◌, length,
  String, ◌==◌, number_eq, lookup, string_eq, arith,
}
use vn_robotics.Py.Json.{Number}
use vn_robotics.Py.Errors.{Result, ok, raise}
use vn_robotics.Mlops.Drift.{check, rates}
use vn_robotics.Perception.Detector.{Blob}
use vn_robotics.Perception.Image.{Intrinsics, Position}
use vn_robotics.Ml.Features.{feature_names, geometric_features, select, blob_features, predict}
use vn_robotics.Mlops.Serve.Node.{
  ServeEvent, predicted, geometric, drift_warned, image_refused, summary_logged, Serving, say,
  watching, warn_if, report_if,
}

module _ {F : Type 0} where
  abbrev pub predictions : List (ServeEvent F) → ℕ
  predictions [] = 0
  predictions (predicted h p ∷ es) = suc (predictions es)
  predictions (e ∷ es) = predictions es

  abbrev pub comparisons : List (ServeEvent F) → ℕ
  comparisons [] = 0
  comparisons (geometric h p ∷ es) = suc (comparisons es)
  comparisons (e ∷ es) = comparisons es

  predictions-append :
      (xs ys : List (ServeEvent F)) → predictions (xs ++ ys) ≡ predictions xs + predictions ys
  predictions-append [] ys = omega arith
  predictions-append (predicted h p ∷ xs) ys = omega (arith, predictions-append xs ys)
  predictions-append (geometric h p ∷ xs) ys = predictions-append xs ys
  predictions-append (drift_warned w ∷ xs) ys = predictions-append xs ys
  predictions-append (image_refused ∷ xs) ys = predictions-append xs ys
  predictions-append (summary_logged r ∷ xs) ys = predictions-append xs ys

  comparisons-append :
      (xs ys : List (ServeEvent F)) → comparisons (xs ++ ys) ≡ comparisons xs + comparisons ys
  comparisons-append [] ys = omega arith
  comparisons-append (geometric h p ∷ xs) ys = omega (arith, comparisons-append xs ys)
  comparisons-append (predicted h p ∷ xs) ys = comparisons-append xs ys
  comparisons-append (drift_warned w ∷ xs) ys = comparisons-append xs ys
  comparisons-append (image_refused ∷ xs) ys = comparisons-append xs ys
  comparisons-append (summary_logged r ∷ xs) ys = comparisons-append xs ys

  -- The monitor has seen a frames more than were counted, and there are b more predictions and c
  -- more comparisons.
  pub record IsAheadBy (a b c : ℕ) (s : Serving F) : Type 0 where
    pub seen : s.monitor.frames ≡ s.frames + a
    pub predicted_all : predictions s.events ≡ s.frames + b
    pub compared_all : comparisons s.events ≡ s.frames + c
    pub seven : length s.monitor.stats ≡ 7

  -- As many frames were counted as the monitor has seen, as there are predictions and as there are
  -- comparisons with the geometry.
  abbrev pub IsBalanced : Serving F → Type 0
  IsBalanced = IsAheadBy 0 0 0

  -- The call returned.
  abbrev pub After : {A : Type 0} → (a b c : ℕ) → Result A → Serving F → Type 0
  After a b c (ok x) s = IsAheadBy a b c s
  After a b c (raise e) s = ⊥

  pub say-IsAheadBy :
      (a b c b' c' : ℕ) (e : ServeEvent F) (s : Serving F)
      → predictions (e ∷ []) + b ≡ b'
      → comparisons (e ∷ []) + c ≡ c'
      → IsAheadBy a b c s
      → IsAheadBy a b' c' (say e s).1
  say-IsAheadBy a b c b' c' e s p q h = record {
    seen = h.seen;
    predicted_all = omega (arith, predictions-append s.events (e ∷ []), h.predicted_all, p);
    compared_all = omega (arith, comparisons-append s.events (e ∷ []), h.compared_all, q);
    seven = h.seven;
  }

  pub warn_if-After :
      (b : Bool) (worst : Option String) (s : Serving F)
      → IsAheadBy 1 0 0 s
      → let (r, s') = warn_if b worst s in After 1 0 0 r s'
  warn_if-After true worst s h = say-IsAheadBy 1 0 0 0 0 (drift_warned worst) s refl refl h
  warn_if-After false worst s h = h

  -- The same, of a callback that may not have ended.
  abbrev pub Returns : Option (Result (Unit {0}) × Serving F) → Type 0
  Returns none = ⊥
  Returns (some (r, s)) = After 0 0 0 r s

module _ {F : Type 0} ⦃n : Number F⦄ where
  pub report_if-After :
      (b : Bool) (s : Serving F) → IsBalanced s → let (r, s') = report_if b s in After 0 0 0 r s'
  report_if-After true s h =
      say-IsAheadBy 0 0 0 0 0 (summary_logged (rates s.monitor)) s refl refl h
  report_if-After false s h = h

  pub seven_features :
      (sqrt : F → F) (blob : Blob F) (camera : Intrinsics F)
      → (v : List F) × (blob_features sqrt blob camera feature_names ≡ ok v) × (length v ≡ 7)
  unfolding blob_features select lookup
  seven_features sqrt blob camera = (_, refl, refl)

  pub three_features :
      (sqrt : F → F) (blob : Blob F) (camera : Intrinsics F) (width : F)
      → (v : List F) × (p : Position F) × (blob_features sqrt blob camera geometric_features ≡ ok v)
        × (predict camera width v ≡ ok p)
  unfolding blob_features select lookup predict
  three_features sqrt blob camera width = (_, _, refl, refl)

  pub watching_check-After :
      (v : List F) (s : Serving F)
      → length v ≡ 7
      → IsBalanced s
      → let (r, s') = watching (check v) s in After 1 0 0 r s'
  unfolding check
  watching_check-After v s l h =
      let e : (length v == length s.monitor.stats) ≡ true = rw l (rw h.seven refl) in
      rw e (record {
        seen = omega (arith, h.seen);
        predicted_all = h.predicted_all;
        compared_all = h.compared_all;
        seven = h.seven;
      })
