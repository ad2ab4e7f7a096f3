-- ===== src/Mlops/Registry/Log.antt =====
-- What the log says of production: the version that runs after its lines, and that each promotion
-- names the version that ran before it.
use vn_robotics.Prelude.{
  leb, length, ◌≡◌, ◌≢◌, refl, sym, ◌∙◌, true, String, Option, none, some, List, [], ◌∷◌, ◌++◌,
  arith, keep, last?, is_some, All, keep-append, last?-snoc, last_or, last?-cons,
}
use mathlib.Core.Option.{some-injective}
use mathlib.Core.Path.{subst}
use vn_robotics.Mlops.Registry.{Row, registered, promoted, is_promotion, source_of}

-- The version that runs after the lines, from one that ran before them.
abbrev pub running : Option String → List Row → Option String
running p [] = p
running p (registered _ _ _ ∷ rows) = running p rows
running p (promoted _ v _ _ _ ∷ rows) = running (some v) rows

-- Every promotion names what ran before it as its source, and is to another version.
abbrev pub IsLinked : Option String → List Row → Type 0
IsLinked p [] = Unit
IsLinked p (registered _ _ _ ∷ rows) = IsLinked p rows
IsLinked p (promoted _ v s _ _ ∷ rows) = (s ≡ p) × (p ≢ some v) × IsLinked (some v) rows

-- Every version that the log promotes, or names as a source, satisfies `K`.
abbrev pub Names : (String → Type 0) → Row → Type 0
Names K (registered _ _ _) = Unit
Names K (promoted _ v none _ _) = K v
Names K (promoted _ v (some s) _ _) = K v × K s

pub running-append :
    (p : Option String) (xs ys : List Row) → running p (xs ++ ys) ≡ running (running p xs) ys
running-append p [] ys = refl
running-append p (registered _ _ _ ∷ xs) ys = running-append p xs ys
running-append p (promoted _ v _ _ _ ∷ xs) ys = running-append (some v) xs ys

pub IsLinked-append :
    (p : Option String) (xs ys : List Row)
    → IsLinked p xs
    → IsLinked (running p xs) ys
    → IsLinked p (xs ++ ys)
IsLinked-append p [] ys h k = k
IsLinked-append p (registered _ _ _ ∷ xs) ys h k = IsLinked-append p xs ys h k
IsLinked-append p (promoted _ v _ _ _ ∷ xs) ys h k =
    (h.0, h.1, IsLinked-append (some v) xs ys h.2 k)

abbrev pub last_promotion : List Row → Option Row
last_promotion rows = last? (keep is_promotion rows)

pub last_promotion-snoc :
    (rows : List Row) (r : Row) → is_promotion r ≡ true → last_promotion (rows ++ r ∷ []) ≡ some r
last_promotion-snoc rows r h =
    rw (keep-append is_promotion rows (r ∷ []), h) (last?-snoc (keep is_promotion rows) r)

last_or-IsLinked :
    (v : String) (q : Row) (rows : List Row)
    → source_of q ≢ some v
    → IsLinked (some v) rows
    → (w : String) × (running (some v) rows ≡ some w)
      × (source_of (last_or q (keep is_promotion rows)) ≢ some w)
last_or-IsLinked v q [] n h = (v, refl, n)
last_or-IsLinked v q (registered _ _ _ ∷ rows) n h = last_or-IsLinked v q rows n h
last_or-IsLinked v q (promoted t w s re f ∷ rows) n h =
    last_or-IsLinked w (promoted t w s re f) rows (λ e. h.1 (sym h.0 ∙ e)) h.2

-- The last promotion of a linked log is to the version that runs, from another one.
pub last_promotion-IsLinked :
    (p : Option String) (rows : List Row) (r : Row)
    → IsLinked p rows
    → last_promotion rows ≡ some r
    → (v : String) × (running p rows ≡ some v) × (source_of r ≢ some v)
last_promotion-IsLinked p [] r h e = cc
last_promotion-IsLinked p (registered _ _ _ ∷ rows) r h e = last_promotion-IsLinked p rows r h e
last_promotion-IsLinked p (promoted t v s re f ∷ rows) r h e =
    let (w, runs, other) =
      last_or-IsLinked v (promoted t v s re f) rows (λ q. h.1 (sym h.0 ∙ q)) h.2 in
    let same : last_or (promoted t v s re f) (keep is_promotion rows) ≡ r =
      some-injective _ _ (sym (last?-cons (promoted t v s re f) (keep is_promotion rows)) ∙ e) in
    (w, runs, rw same at other)

All-last? : (P : Row → Type 0) (rows : List Row) (r : Row) → All P rows → last? rows ≡ some r → P r
All-last? P [] r h e = cc
All-last? P (x ∷ []) r h e = subst P (some-injective _ _ e) h.0
All-last? P (x ∷ y ∷ rows) r h e = All-last? P (y ∷ rows) r h.1 e

All-keep : (P : Row → Type 0) (rows : List Row) → All P rows → All P (keep is_promotion rows)
All-keep P [] h = tt
All-keep P (registered _ _ _ ∷ rows) h = All-keep P rows h.1
All-keep P (promoted _ _ _ _ _ ∷ rows) h = (h.0, All-keep P rows h.1)

names_source : (K : String → Type 0) (r : Row) (s : String) → Names K r → source_of r ≡ some s → K s
names_source K (registered _ _ _) s h e = cc
names_source K (promoted _ v none _ _) s h e = cc
names_source K (promoted _ v (some p) _ _) s h e = subst K (some-injective _ _ e) h.1

-- The source of the last promotion is among the names of the log.
pub last_promotion-Names :
    (K : String → Type 0) (rows : List Row) (r : Row) (s : String)
    → All (Names K) rows
    → last_promotion rows ≡ some r
    → source_of r ≡ some s
    → K s
last_promotion-Names K rows r s h e q =
    names_source K r s (All-last? (Names K) _ r (All-keep (Names K) rows h) e) q

sourced_tail :
    (v : String) (q : Row) (rows : List Row)
    → IsLinked (some v) rows
    → is_some (source_of q) ≡ true
    → is_some (source_of (last_or q (keep is_promotion rows))) ≡ true
sourced_tail v q [] h e = e
sourced_tail v q (registered _ _ _ ∷ rows) h e = sourced_tail v q rows h e
sourced_tail v q (promoted t w s re f ∷ rows) h e =
    sourced_tail w (promoted t w s re f) rows h.2 (rw h.0)

sourced_first :
    (v : String) (q : Row) (rows : List Row)
    → IsLinked (some v) rows
    → source_of q ≡ none
    → is_some (source_of (last_or q (keep is_promotion rows)))
      ≡ leb 1 (length (keep is_promotion rows))
sourced_first v q [] h e = rw e
sourced_first v q (registered _ _ _ ∷ rows) h e = sourced_first v q rows h e
sourced_first v q (promoted t w s re f ∷ rows) h e =
    sourced_tail w (promoted t w s re f) rows h.2 (rw h.0) ∙ ground arith

-- The last promotion of a log has a source exactly if it is not the first one.
pub last_promotion-sourced :
    (rows : List Row) (r : Row)
    → IsLinked none rows
    → last_promotion rows ≡ some r
    → is_some (source_of r) ≡ leb 2 (length (keep is_promotion rows))
last_promotion-sourced [] r h e = cc
last_promotion-sourced (registered _ _ _ ∷ rows) r h e = last_promotion-sourced rows r h e
last_promotion-sourced (promoted t v s re f ∷ rows) r h e =
    let same : last_or (promoted t v s re f) (keep is_promotion rows) ≡ r =
      some-injective _ _ (sym (last?-cons (promoted t v s re f) (keep is_promotion rows)) ∙ e) in
    rw (← same) (sourced_first v (promoted t v s re f) rows h.2 h.0 ∙ ground arith)
