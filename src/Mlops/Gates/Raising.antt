-- ===== src/Mlops/Gates/Raising.antt =====
-- Where the gates raise in place of giving reasons, and what the selected key names.
use vn_robotics.Prelude.{
  ◌≡◌, ◌≢◌, refl, true, false, String, Option, none, some, List, [], ◌∷◌, arith, ◌⊎◌, inl, inr,
  is_some, List-cases, keep, keep-nil, not, eq_iff, string_eq,
}
use vn_robotics.Py.Errors.{ok, is_ok, Result-cases}
use vn_robotics.Py.Json.{Number, Json, Fields, str, obj, item, find, member, truthy, get_or}
use vn_robotics.Mlops.Gates.{
  missing_keys, absent, validates, provenance, feature_contract, beats_baseline, check_all,
  selected_key, selected_in, required_keys,
}

module _ {F : Type 0} ⦃n : Number F⦄ where
  -- The required keys that a dict lacks.
  abbrev pub lacking : Fields F → List String → List String
  lacking fs = keep (λ k. not (is_some (find k fs)))

  absent-lacking : (fs : Fields F) (ks : List String) → absent (obj fs) ks ≡ ok (lacking fs ks)
  unfolding absent member
  absent-lacking fs [] = refl
  absent-lacking fs (k ∷ ks) = ground (arith, absent-lacking fs ks)

  lacking-ne-nil :
      (fs : Fields F)
      → (find "features" fs ≡ none) ⊎ (find "metrics" fs ≡ none)
      → lacking fs required_keys ≢ []
  lacking-ne-nil fs (inl h) e =
      ground (arith, keep-nil (λ k. not (is_some (find k fs))) "features" required_keys e refl)
  lacking-ne-nil fs (inr h) e =
      ground (arith, keep-nil (λ k. not (is_some (find k fs))) "metrics" required_keys e refl)

  validates-missing :
      (fs : Fields F)
      → (find "features" fs ≡ none) ⊎ (find "metrics" fs ≡ none)
      → validates (obj fs) ≡ ok (missing_keys (lacking fs required_keys) ∷ [])
  validates-missing fs h = elim (List-cases (lacking fs required_keys)) [
    | inl e ↦ absurd (lacking-ne-nil fs h e)
    | inr (k, ks, e) ↦ rw e (unfold validates in rw (absent-lacking fs required_keys, e))
  ]

  -- For a dict without `features` or without `metrics` the gate `validates` gives the required
  -- keys that are missing as its one reason, and `check_all` raises, so that nothing is reported.
  pub check_all_raises :
      (fs : Fields F) (served : List String) (i : Option (Json F)) (t : Option F)
      → (find "features" fs ≡ none) ⊎ (find "metrics" fs ≡ none)
      → (validates (obj fs) ≡ ok (missing_keys (lacking fs required_keys) ∷ []))
        × (is_ok (check_all (obj fs) served i t) ≡ false)
  unfolding check_all feature_contract beats_baseline item
  check_all_raises fs served i t h = (
    validates-missing fs h,
    elim (Result-cases (validates (obj fs))) [
      | inl (e, p) ↦ ground arith
      | inr (v, p) ↦ elim (Result-cases (provenance (obj fs))) [
        | inl (e, q) ↦ ground arith
        | inr (r, q) ↦ ground arith
      ]
    ],
  )

  -- A `selected` text that is not empty and names an entry of `metrics` is the key that is used,
  -- whatever the other entries are.
  pub selected_key-named :
      (fs ms : Fields F) (s : String)
      → find "selected" fs ≡ some (str s)
      → find "metrics" fs ≡ some (obj ms)
      → s ≢ ""
      → is_some (find s ms) ≡ true
      → selected_key (obj fs) ≡ ok (some (str s))
  unfolding selected_key get_or truthy member selected_in
  selected_key-named fs ms s h m e k = ground (arith, eq_iff s "")
