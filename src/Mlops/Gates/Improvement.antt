-- ===== src/Mlops/Gates/Improvement.antt =====
-- What an artifact that passes every gate has: the feature order of the serving code, a score
-- below the closed form's, and a score within the tolerance of the incumbent's.
use vn_robotics.Prelude.{◌≡◌, false, String, Option, none, some, List, [], arith, inl, inr, map}
use vn_robotics.Py.Errors.{Result, ok, ◌>>=◌, Result-cases}
use vn_robotics.Py.Json.{Number, Json, str, as_number}
use vn_robotics.Mlops.Gates.Contract.{recorded, feature_contract-nil_iff}
use vn_robotics.Mlops.Gates.{
  feature_contract, beats_baseline, no_regression, check_all, selected_key, score_at, get_tolerance,
}

module _ {F : Type 0} ⦃n : Number F⦄ where
  abbrev pub score_of : Json F → Json F → Result F
  score_of artifact key = score_at artifact key >>= as_number

  -- The selected model and the closed form have scores, and the model's is the lower.
  abbrev pub IsImprovement : Json F → Type 0
  IsImprovement artifact =
      (key : Json F) × (m : F) × (b : F) × (selected_key artifact ≡ ok (some key))
      × (score_of artifact key ≡ ok m)
      × (score_of artifact (str "geometric") ≡ ok b)
      × (n.le b m ≡ false)

  -- Both models have scores, and the new one is not above the old one times the tolerance.
  abbrev pub IsNoWorse : Json F → Json F → F → Type 0
  IsNoWorse artifact incumbent tolerance =
      (new : Json F) × (old : Json F) × (w : F) × (o : F) × (selected_key artifact ≡ ok (some new))
      × (selected_key incumbent ≡ ok (some old))
      × (score_of artifact new ≡ ok w)
      × (score_of incumbent old ≡ ok o)
      × (n.lt (n.mul o tolerance) w ≡ false)

  beats_baseline-IsImprovement : (a : Json F) → beats_baseline a ≡ ok [] → IsImprovement a
  unfolding beats_baseline
  beats_baseline-IsImprovement a h = elim (Result-cases (selected_key a)) [
    | inl (e, p) ↦ absurd (ground arith)
    | inr (none, p) ↦ absurd (ground arith)
    | inr (some key, p) ↦ elim (Result-cases (score_of a key)) [
      | inl (e, q) ↦ absurd (ground arith)
      | inr (m, q) ↦ elim (Result-cases (score_of a (str "geometric"))) [
        | inl (e, r) ↦ absurd (ground arith)
        | inr (b, r) ↦ (key, m, b, p, q, r, ground arith)
      ]
    ]
  ]

  no_regression-IsNoWorse :
      (a i : Json F) (t : F) → no_regression a (some i) t ≡ ok [] → IsNoWorse a i t
  unfolding no_regression
  no_regression-IsNoWorse a i t h = elim (Result-cases (selected_key a)) [
    | inl (e, p) ↦ absurd (ground arith)
    | inr (none, p) ↦ absurd (ground arith)
    | inr (some new, p) ↦ elim (Result-cases (selected_key i)) [
      | inl (e, q) ↦ absurd (ground arith)
      | inr (none, q) ↦ absurd (ground arith)
      | inr (some old, q) ↦ elim (Result-cases (score_of a new)) [
        | inl (e, r) ↦ absurd (ground arith)
        | inr (w, r) ↦ elim (Result-cases (score_of i old)) [
          | inl (e, s) ↦ absurd (ground arith)
          | inr (o, s) ↦ (new, old, w, o, p, q, r, s, ground arith)
        ]
      ]
    ]
  ]

  pub check_all-nil :
      (a : Json F) (served : List String) (i : Option (Json F)) (t : Option F)
      → check_all a served i t ≡ ok []
      → (beats_baseline a ≡ ok [])
        × (feature_contract a served ≡ ok [])
        × (no_regression a i (get_tolerance t) ≡ ok [])
  unfolding check_all
  check_all-nil a served i t h = ground arith

  -- If every gate passes, with an incumbent, the artifact records the served features in the
  -- served order, its selected model has a test median that is not at or above the closed form's,
  -- and that median is not above the incumbent's times the tolerance.
  pub check_all-IsImprovement :
      (a i : Json F) (served : List String) (t : Option F)
      → check_all a served (some i) t ≡ ok []
      → (recorded a ≡ ok (map str served)) × IsImprovement a × IsNoWorse a i (get_tolerance t)
  check_all-IsImprovement a i served t h =
      let (b, f, r) = check_all-nil a served (some i) t h in
      (
        (feature_contract-nil_iff a served).0 f,
        beats_baseline-IsImprovement a b,
        no_regression-IsNoWorse a i (get_tolerance t) r,
      )
