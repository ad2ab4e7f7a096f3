-- ===== src/Mlops/Registry/Validity.antt =====
-- The invariant of the registry, and that the operations keep it.
use vn_robotics.Prelude.{
  ℕ, ◌≡◌, ◌≢◌, refl, sym, ◌∙◌, Bool, true, false, String, Option, none, some, List, [], ◌∷◌, ◌++◌,
  arith, is_some, All, All-append, All-map, lookup, put, put_sorted, lookup-put, lookup-put_sorted,
  eq_iff, ◌==◌, string_eq, if◌then◌else◌, Bool-cases, inl, inr,
}
use mathlib.Core.Option.{some-injective}
use mathlib.Core.Path.{subst}
use vn_robotics.Py.Errors.{Result-cases}
use vn_robotics.Py.Json.{Number, Json}
use vn_robotics.Mlops.Registry.{
  Row, Registry, Index, registered, promoted, index_of, empty_registry, is_registered, is_at,
  promote, register, write_index, write_model, summary, Summary,
}
use vn_robotics.Mlops.Registry.Log.{running, IsLinked, Names, running-append, IsLinked-append}

pub is_at-some : (p : Option String) (v : String) → is_at p v ≡ false → p ≢ some v
is_at-some none v h e = cc
is_at-some (some p) v h e = ground (arith, eq_iff p v)

Names-source :
    (K : String → Type 0) (t : ℕ) (v : String) (s : Option String) (re : String) (f : Bool)
    → K v
    → ((p : String) → s ≡ some p → K p)
    → Names K (promoted t v s re f)
Names-source K t v none re f h k = h
Names-source K t v (some p) re f h k = (h, k p refl)

pub running-Names :
    (K : String → Type 0) (p : Option String) (rows : List Row)
    → ((q : String) → p ≡ some q → K q)
    → All (Names K) rows
    → (q : String) → running p rows ≡ some q
    → K q
running-Names K p [] k h q e = k q e
running-Names K p (registered _ _ _ ∷ rows) k h q e = running-Names K p rows k h.1 q e
running-Names K p (promoted _ v none _ _ ∷ rows) k h q e =
    running-Names K (some v) rows (λ w d. subst K (some-injective _ _ d) h.0) h.1 q e
running-Names K p (promoted _ v (some s) _ _ ∷ rows) k h q e =
    running-Names K (some v) rows (λ w d. subst K (some-injective _ _ d) h.0.0) h.1 q e

Names-mono :
    {K L : String → Type 0} → ((v : String) → K v → L v) → (row : Row) → Names K row → Names L row
Names-mono f (registered _ _ _) h = tt
Names-mono f (promoted _ v none _ _) h = f v h
Names-mono f (promoted _ v (some s) _ _) h = (f v h.0, f s h.1)

running-registered :
    (p : Option String) (rows : List Row) (t : ℕ) (v note : String)
    → running p (rows ++ registered t v note ∷ []) ≡ running p rows
running-registered p rows t v note = running-append p rows (registered t v note ∷ [])

module _ {F : Type 0} where
  pub record IsValid (r : Registry F) : Type 0 where
    -- The pointer is what the log says runs.
    pub points : (index_of r).production ≡ running none (index_of r).history
    -- Every promotion names what ran before it, and changes it.
    pub linked : IsLinked none (index_of r).history
    -- Only registered versions were ever promoted.
    pub known : All (Names (λ v. is_registered v r ≡ true)) (index_of r).history
    -- Every registered version has its file.
    pub stored : (v : String) → is_registered v r ≡ true → is_some (lookup v r.models) ≡ true

  pub empty_registry-IsValid : IsValid (empty_registry {F = F})
  unfolding lookup
  empty_registry-IsValid = record { points = refl; linked = tt; known = tt; stored = λ v h. cc }

  -- `promote` either leaves the registry, or writes one index.
  abbrev pub promoted_index : ℕ → String → String → Bool → Registry F → Index F
  promoted_index stamp v reason forced r = record (index_of r) {
    production = some v;
    history = (index_of r).history ++ promoted stamp v (index_of r).production reason forced ∷ [];
  }

  -- What a promotion to another registered version writes is valid.
  promoted_index-IsValid :
      (stamp : ℕ) (v reason : String) (forced : Bool) (r : Registry F)
      → is_registered v r ≡ true
      → is_at (index_of r).production v ≡ false
      → IsValid r
      → IsValid (write_index (promoted_index stamp v reason forced r) r)
  promoted_index-IsValid stamp v reason forced r k n h =
      let rows = (index_of r).history in
      let last = promoted stamp v (index_of r).production reason forced in
      let K : String → Type 0 = λ w. is_registered w r ≡ true in
      record {
        points = rw (running-append none rows (last ∷ []));
        linked =
            IsLinked-append none rows (last ∷ []) h.linked
              (h.points, λ e. is_at-some _ v n (h.points ∙ e), tt);
        known = All-append (Names K) rows (last ∷ []) h.known (
          Names-source K stamp v _ reason forced k
              (λ p e. running-Names K none rows (λ q d. cc) h.known p (sym h.points ∙ e)),
          tt,
        );
        stored = h.stored;
      }

  pub promote-IsValid :
      (stamp : ℕ) (v reason : String) (forced : Bool) (r : Registry F)
      → IsValid r
      → IsValid (promote stamp v reason forced r).1
  unfolding promote
  promote-IsValid stamp v reason forced r h = elim (Bool-cases (is_registered v r)) [
    | inr e ↦ rw e h
    | inl e ↦ elim (Bool-cases (is_at (index_of r).production v)) [
      | inl d ↦ rw (e, d) h
      | inr d ↦ rw (e, d) (promoted_index-IsValid stamp v reason forced r e d h)
    ]
  ]

  stored_put :
      (v w : String) (a : Json F) (m : List (String × Json F))
      → is_some (lookup w m) ≡ true
      → is_some (lookup w (put v a m)) ≡ true
  stored_put v w a m h = rw lookup-put (ground (arith, eq_iff v w))

  write_model-IsValid :
      (v : String) (a : Json F) (r : Registry F) → IsValid r → IsValid (write_model v a r)
  write_model-IsValid v a r h = record {
    points = h.points;
    linked = h.linked;
    known = h.known;
    stored = λ w k. stored_put v w a r.models (h.stored w k);
  }

module _ {F : Type 0} ⦃n : Number F⦄ where
  -- What a registration writes, once the summary is made.
  abbrev pub registered_index : ℕ → String → String → Summary F → Registry F → Index F
  registered_index stamp v note row r = record (index_of r) {
    versions = put_sorted v row (index_of r).versions;
    history = (index_of r).history ++ registered stamp v note ∷ [];
  }

  is_registered-put :
      (v w : String) (stamp : ℕ) (note : String) (row : Summary F) (a : Json F) (r : Registry F)
      → is_registered w (write_index (registered_index stamp v note row r) (write_model v a r))
        ≡ (if v == w then true else is_registered w r)
  is_registered-put v w stamp note row a r = rw lookup-put_sorted (ground arith)

  registered_index-IsValid :
      (stamp : ℕ) (v note : String) (row : Summary F) (a : Json F) (r : Registry F)
      → IsValid r
      → IsValid (write_index (registered_index stamp v note row r) (write_model v a r))
  registered_index-IsValid stamp v note row a r h =
      let rows = (index_of r).history in
      let new = write_index (registered_index stamp v note row r) (write_model v a r) in
      let grows : (w : String) → is_registered w r ≡ true → is_registered w new ≡ true =
        λ w k. rw (is_registered-put v w stamp note row a r, k) (ground arith) in
      record {
        points = rw (running-registered none rows stamp v note) h.points;
        linked = IsLinked-append none rows _ h.linked tt;
        known = All-append _ rows _ (All-map (Names-mono grows) rows h.known) (tt, tt);
        stored = λ w k. rw lookup-put (stored_new w k);
      }
    where
      stored_new :
          (w : String)
          → is_registered w (write_index (registered_index stamp v note row r) (write_model v a r))
            ≡ true
          → is_some (if v == w then some a else lookup w r.models) ≡ true
      stored_new w k = ground (arith, is_registered-put v w stamp note row a r, h.stored w)

  pub register-IsValid :
      (version_of : Json F → String) (s t : ℕ) (note : String) (a : Json F) (r : Registry F)
      → IsValid r
      → IsValid (register version_of s t note a r).1
  unfolding register
  register-IsValid version_of s t note a r h = elim (Bool-cases (is_registered (version_of a) r)) [
    | inl e ↦ rw e h
    | inr e ↦ elim (Result-cases (summary s note (version_of a) a)) [
      | inl (x, d) ↦ rw (e, d) (write_model-IsValid (version_of a) a r h)
      | inr (row, d) ↦ rw (e, d) (registered_index-IsValid t (version_of a) note row a r h)
    ]
  ]
