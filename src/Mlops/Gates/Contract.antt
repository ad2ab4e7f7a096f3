-- ===== src/Mlops/Gates/Contract.antt =====
-- The feature contract: no reason means the same names in the same order, and the reason for a
-- changed order means the same names in another order.
use mathlib.Core.List.{Perm}
use mathlib.Core.List.Perm
use vn_robotics.Prelude.{
  ◌≡◌, ◌≢◌, refl, ap, ◌∙◌, true, String, some, List, [], ◌∷◌, arith, inl, inr, map, string_eq,
  eq_iff, Bool-cases, Option-cases, same_refl,
}
use vn_robotics.Py.Errors.{Result, ok, ◌>>=◌, Result-cases}
use vn_robotics.Py.Json.{Json, null, bool, num, str, arr, obj, item, list_of}
use vn_robotics.Mlops.Gates.{order_differs, feature_contract}
use vn_robotics.Mlops.Gates.Names.{insert_text, sorted, same_texts, as_texts}
use text.Mathlib.Text.{is_lt}
use Prim.Native.String.{compare}

same_texts→≡ : (ss ts : List String) → same_texts ss ts ≡ true → ss ≡ ts
unfolding same_texts
same_texts→≡ [] [] h = refl
same_texts→≡ [] (t ∷ ts) h = cc
same_texts→≡ (s ∷ ss) [] h = cc
same_texts→≡ (s ∷ ss) (t ∷ ts) h = ground (arith, eq_iff s t, same_texts→≡ ss ts)

same_texts_refl : (ss : List String) → same_texts ss ss ≡ true
unfolding same_texts
same_texts_refl [] = refl
same_texts_refl (s ∷ ss) = ground (arith, same_refl s, same_texts_refl ss)

insert_text-perm : (s : String) (ts : List String) → Perm (insert_text s ts) (s ∷ ts)
unfolding insert_text
insert_text-perm s [] = Perm.refl _
insert_text-perm s (t ∷ ts) = elim (Bool-cases (is_lt (compare t s))) [
  | inl e ↦ rw e (Perm.trans (Perm.cons t (insert_text-perm s ts)) (Perm.swap s t ts))
  | inr e ↦ rw e (Perm.refl _)
]

sorted-perm : (ts : List String) → Perm (sorted ts) ts
unfolding sorted
sorted-perm [] = Perm.refl _
sorted-perm (t ∷ ts) = Perm.trans (insert_text-perm t (sorted ts)) (Perm.cons t (sorted-perm ts))

as_texts-map : (F : Type 0) (ts : List String) → as_texts (map {B = Json F} str ts) ≡ some ts
unfolding as_texts
as_texts-map F [] = refl
as_texts-map F (t ∷ ts) = ground (arith, as_texts-map F ts)

module _ {F : Type 0} where
  as_texts→map : (xs : List (Json F)) (ts : List String) → as_texts xs ≡ some ts → xs ≡ map str ts
  unfolding as_texts
  as_texts→map [] ts h = ground arith
  as_texts→map (str s ∷ xs) ts h = elim (Option-cases (as_texts xs)) [
    | inl e ↦ absurd (ground arith)
    | inr (us, e) ↦
        let this : s ∷ us ≡ ts = ground arith in
        rw (← this) (ap (λ l. str s ∷ l) (as_texts→map xs us e))
  ]
  as_texts→map (null ∷ xs) ts h = cc
  as_texts→map (bool b ∷ xs) ts h = cc
  as_texts→map (num x ∷ xs) ts h = cc
  as_texts→map (arr ys ∷ xs) ts h = cc
  as_texts→map (obj fs ∷ xs) ts h = cc

  -- What the artifact records as its features.
  abbrev pub recorded : Json F → Result (List (Json F))
  recorded a = item "features" a >>= list_of

  nil→same :
      (a : Json F) (served : List String)
      → feature_contract a served ≡ ok []
      → recorded a ≡ ok (map str served)
  unfolding feature_contract
  nil→same a served h = elim (Result-cases (recorded a)) [
    | inl (e, p) ↦ absurd (ground arith)
    | inr (xs, p) ↦ elim (Option-cases (as_texts xs)) [
      | inl q ↦ absurd (ground arith)
      | inr (ts, q) ↦
          let agree : same_texts ts served ≡ true = ground arith in
          rw p (ap ok (as_texts→map xs ts q ∙ ap (map str) (same_texts→≡ ts served agree)))
    ]
  ]

  same→nil :
      (a : Json F) (served : List String)
      → recorded a ≡ ok (map str served)
      → feature_contract a served ≡ ok []
  unfolding feature_contract
  same→nil a served h = ground (arith, as_texts-map F served, same_texts_refl served)

  -- The gate gives no reason exactly if the artifact records the served names in the served order.
  pub feature_contract-nil_iff :
      (a : Json F) (served : List String)
      → (feature_contract a served ≡ ok [] → recorded a ≡ ok (map str served))
        × (recorded a ≡ ok (map str served) → feature_contract a served ≡ ok [])
  feature_contract-nil_iff a served = (nil→same a served, same→nil a served)

  -- If the gate says that only the order differs, the artifact records a permutation of the served
  -- names that is not the served order.
  pub order_differs-perm :
      (a : Json F) (served : List String)
      → feature_contract a served ≡ ok (order_differs ∷ [])
      → (names : List String) × (recorded a ≡ ok (map str names))
        × Perm names served
        × (names ≢ served)
  unfolding feature_contract
  order_differs-perm a served h = elim (Result-cases (recorded a)) [
    | inl (e, p) ↦ absurd (ground arith)
    | inr (xs, p) ↦ elim (Option-cases (as_texts xs)) [
      | inl q ↦ absurd (ground arith)
      | inr (ts, q) ↦
          let agree : same_texts (sorted ts) (sorted served) ≡ true = ground arith in
          let same : sorted ts ≡ sorted served = same_texts→≡ _ _ agree in
          (
            ts,
            rw p (ap ok (as_texts→map xs ts q)),
            Perm.trans (Perm.symm (sorted-perm ts)) (rw same (sorted-perm served)),
            λ e. ground (arith, same_texts_refl ts),
          )
    ]
  ]
