-- ===== src/Cad/Printability/Best.antt =====
-- The placement that is recommended needs the least support.
use vn_robotics.Prelude.{
  ◌≡◌, refl, sym, ap, Bool, true, false, not, ◌&&◌, ◌⊎◌, inl, inr, String, List, [], ◌∷◌, map, All,
  All-map, ◌==◌, string_eq, arith, Bool-cases,
}
use mathlib.Core.Path.{subst}
use vn_robotics.Py.Json.{Number}
use vn_robotics.Cad.Printability.{
  Vector, Face, Functions, as_modelled, one_up, orientations, other_orientations, overhanging_area,
  scored, before_row, insert_row, sort_rows, first_row, best_orientation,
}

-- What the code relies on of the comparisons.
pub record LawfulOrder {F : Type 0} (n : Number F) : Type 0 where
  pub trans : (a b c : F) → n.le a b ≡ true → n.le b c ≡ true → n.le a c ≡ true
  pub total : (a b : F) → n.le a b ≡ false → n.le b a ≡ true
  pub lt_not : (a b : F) → n.lt a b ≡ not (n.le b a)
  pub eq_both : (a b : F) → n.eq a b ≡ (n.le a b && n.le b a)

-- An element of the list.
abbrev pub Among : {A : Type 0} → A → List A → Type 0
Among a [] = ⊥
Among a (x ∷ xs) = (a ≡ x) ⊎ Among a xs

Among-map :
    {A B : Type 0} (f : A → B) (b : B) (xs : List A)
    → Among b (map f xs)
    → (a : A) × Among a xs × (b ≡ f a)
Among-map f b [] m = absurd m
Among-map f b (x ∷ xs) (inl e) = (x, inl refl, e)
Among-map f b (x ∷ xs) (inr m) = let (a, listed, e) = Among-map f b xs m in (a, inr listed, e)

All-of_map :
    {A B : Type 0} (P : B → Type 0) (f : A → B) (xs : List A)
    → All P (map f xs)
    → All (λ a. P (f a)) xs
All-of_map P f [] h = tt
All-of_map P f (x ∷ xs) (p, ps) = (p, All-of_map P f xs ps)

module _ {F : Type 0} ⦃n : Number F⦄ where
  -- Not after in the order of the sort: of less area, or of the same area and, if the other is the
  -- part as modelled, this too.
  pub record IsNotAfter (r t : F × String) : Type 0 where
    pub no_more : n.le r.0 t.0 ≡ true
    pub tie : n.eq r.0 t.0 ≡ true → (t.1 == as_modelled) ≡ true → (r.1 == as_modelled) ≡ true

module _ {F : Type 0} ⦃n : Number F⦄ (law : LawfulOrder n) where
  le_refl : (a : F) → n.le a a ≡ true
  le_refl a = elim (Bool-cases (n.le a a)) [ inl h ↦ h | inr h ↦ law.total a a h ]

  -- Neither is more than the other.
  eq_le : (a b : F) → n.eq a b ≡ true → (n.le a b ≡ true) × (n.le b a ≡ true)
  eq_le a b h = ground (arith, h, law.eq_both a b)

  le_eq : (a b : F) → n.le a b ≡ true → n.le b a ≡ true → n.eq a b ≡ true
  le_eq a b p q = ground (arith, p, q, law.eq_both a b)

  IsNotAfter-refl : (r : F × String) → IsNotAfter r r
  IsNotAfter-refl r = record { no_more = le_refl r.0; tie = λ e m. m }

  IsNotAfter-trans : (r t u : F × String) → IsNotAfter r t → IsNotAfter t u → IsNotAfter r u
  IsNotAfter-trans r t u a b = record {
    no_more = law.trans r.0 t.0 u.0 a.no_more b.no_more;
    tie = λ e m.
        let back = (eq_le r.0 u.0 e).1 in
        let tr = law.trans t.0 u.0 r.0 b.no_more back in
        let ut = law.trans u.0 r.0 t.0 back a.no_more in
        a.tie (le_eq r.0 t.0 a.no_more tr) (b.tie (le_eq t.0 u.0 b.no_more ut) m);
  }

  tie_not_before : (t r : Bool) → (t && not r) ≡ false → t ≡ true → r ≡ true
  tie_not_before true true h m = refl
  tie_not_before true false h m = absurd (ground (arith, h))
  tie_not_before false r h m = absurd (ground (arith, m))

  not_before-IsNotAfter : (t r : F × String) → before_row t r ≡ false → IsNotAfter r t
  not_before-IsNotAfter (a, s) (b, u) h = elim (Bool-cases (n.eq a b)) [
    | inl e ↦ record {
      no_more = (eq_le a b e).1;
      tie = λ e' m. tie_not_before (s == as_modelled) (u == as_modelled) (ground (arith, e, h)) m;
    }
    | inr e ↦
        let back : n.le b a ≡ true = ground (arith, e, h, law.lt_not a b) in
        record {
          no_more = back;
          tie = λ e' m. absurd (ground (arith, e, le_eq a b (eq_le b a e').1 back));
        }
  ]

  before-IsNotAfter : (t r : F × String) → before_row t r ≡ true → IsNotAfter t r
  before-IsNotAfter (a, s) (b, u) h = elim (Bool-cases (n.eq a b)) [
    | inl e ↦ record { no_more = (eq_le a b e).0; tie = λ e' m. ground (arith, e, h) }
    | inr e ↦
        let more : n.le b a ≡ false = ground (arith, e, h, law.lt_not a b) in
        record { no_more = law.total b a more; tie = λ e' m. absurd (ground (arith, e, e')) }
  ]

  record Firsts (r : F × String) (rs : List (F × String)) : Type 0 where
    first : F × String
    others : List (F × String)
    sorted_is : sort_rows (r ∷ rs) ≡ first ∷ others
    listed : Among first (r ∷ rs)
    not_after : All (IsNotAfter first) (r ∷ rs)

  sort_rows-Firsts : (r : F × String) (rs : List (F × String)) → Firsts r rs
  unfolding sort_rows
  sort_rows-Firsts r [] = record {
    first = r;
    others = [];
    sorted_is = refl;
    listed = inl refl;
    not_after = (IsNotAfter-refl r, tt);
  }
  sort_rows-Firsts r (t ∷ ts) =
      let s = sort_rows-Firsts t ts in
      elim (Bool-cases (before_row s.first r)) [
        | inl h ↦ record {
          first = s.first;
          others = insert_row r s.others;
          sorted_is = rw (s.sorted_is, h) refl;
          listed = inr s.listed;
          not_after = (before-IsNotAfter s.first r h, s.not_after);
        }
        | inr h ↦
            let a = not_before-IsNotAfter s.first r h in
            record {
              first = r;
              others = s.first ∷ s.others;
              sorted_is = rw (s.sorted_is, h) refl;
              listed = inl refl;
              not_after = (
                IsNotAfter-refl r,
                All-map (λ u b. IsNotAfter-trans r s.first u a b) (t ∷ ts) s.not_after,
              );
            }
      ]

module _ {F : Type 0} ⦃n : Number F⦄ (functions : Functions F) where
  abbrev area_for : List (Face F) → (limit_deg bridge_mm : F) → Vector F → F
  area_for faces limit_deg bridge_mm direction =
      overhanging_area functions faces direction limit_deg bridge_mm

  -- One of the directions, with its area, which no direction undercuts; on a tie with the part as
  -- modelled, this one.
  pub record IsBest (faces : List (Face F)) (limit_deg bridge_mm : F) (label : String) (area : F)
      : Type 0 where
    pub direction : Vector F
    pub listed : Among (label, direction) orientations
    pub area_is : area ≡ area_for faces limit_deg bridge_mm direction
    pub least : All (λ o. n.le area (area_for faces limit_deg bridge_mm o.1) ≡ true) orientations
    pub tie :
        n.eq area (area_for faces limit_deg bridge_mm one_up) ≡ true → (label == as_modelled) ≡ true

module _ {F : Type 0} ⦃n : Number F⦄ (law : LawfulOrder n) (functions : Functions F) where
  -- When the comparisons are a total order, the recommended placement is one of the six, with the
  -- area that needs support in it, none of the six needs less, and it is the part as modelled if
  -- that needs no more.
  pub best_orientation-IsBest :
      (faces : List (Face F)) (limit_deg bridge_mm : F)
      → let (label, area) = best_orientation functions faces limit_deg bridge_mm in
        IsBest functions faces limit_deg bridge_mm label area
  unfolding best_orientation
  best_orientation-IsBest faces limit_deg bridge_mm =
      let score = scored functions faces limit_deg bridge_mm in
      let s = sort_rows-Firsts law (score (as_modelled, one_up)) (map score other_orientations) in
      let ((label, direction), listed, e) = Among-map score s.first orientations s.listed in
      let after = All-of_map (IsNotAfter s.first) score orientations s.not_after in
      let P = λ (l : List (F × String)).
        IsBest functions faces limit_deg bridge_mm (first_row l).0 (first_row l).1 in
      let chosen : P (s.first ∷ s.others) = record {
        direction = direction;
        listed =
            subst (λ l. Among (l, direction) (orientations {F = F})) (sym (ap (λ r. r.1) e)) listed;
        area_is = ap (λ r. r.0) e;
        least =
            All-map {P = λ o. IsNotAfter s.first (score o)} (λ o a. a.no_more) orientations after;
        tie = λ same. after.0.tie same refl;
      } in
      subst P (sym s.sorted_is) chosen
