-- ===== src/Cad/Masses/Riding.antt =====
-- Which servos ride on a link.
use vn_robotics.Prelude.{
  ℕ, ◌+◌, ◌≡◌, refl, sym, ◌∙◌, ap, Bool, true, false, ◌&&◌, String, List, [], ◌∷◌, ◌++◌, ◌==◌,
  string_eq, eq_iff, if◌then◌else◌, lookup, arith, inl, inr, Bool-cases, Option-cases,
}
use mathlib.Core.Path.{subst}
use vn_robotics.Py.Errors.{Result, ok, raise}
use vn_robotics.Py.Json.{Json, null, bool, num, str, arr, obj, item, items, member, find}
use vn_robotics.Data.Manifest.Usable.{Result-bind}
use vn_robotics.Ml.Train.Accepted.{ok_inj}
use vn_robotics.Cad.Masses.{Riders, add_rider, riding, text_of, ride_if, ride_all, servo_riders}

abbrev pub number_of : Bool → ℕ
number_of true = 1
number_of false = 0

and_false : (b : Bool) → (b && false) ≡ false
and_false true = refl
and_false false = refl

-- How often a text occurs.
abbrev pub occurrences : String → List String → ℕ
occurrences s [] = 0
occurrences s (t ∷ ts) = number_of (t == s) + occurrences s ts

occurrences-append :
    (s : String) (ts us : List String)
    → occurrences s (ts ++ us) ≡ occurrences s ts + occurrences s us
occurrences-append s [] us = omega arith
occurrences-append s (t ∷ ts) us = omega (arith, occurrences-append s ts us)

lookup-add_rider :
    (j l s : String) (m : Riders)
    → riding (lookup j (add_rider l s m))
      ≡ (if l == j then riding (lookup j m) ++ s ∷ [] else riding (lookup j m))
unfolding lookup add_rider
lookup-add_rider j l s [] = ground arith
lookup-add_rider j l s ((i, ss) ∷ m) =
    ground (arith, eq_iff i l, eq_iff i j, eq_iff l j, lookup-add_rider j l s m)

-- A servo more on a link.
rides :
    (j t l s : String) (m : Riders)
    → occurrences t (riding (lookup j (add_rider l s m)))
      ≡ occurrences t (riding (lookup j m)) + number_of ((l == j) && (s == t))
rides j t l s m = elim (Bool-cases (l == j)) [
  | inl e ↦
      ap (occurrences t) (lookup-add_rider j l s m)
      ∙ rw e (occurrences-append t (riding (lookup j m)) (s ∷ []) ∙ omega arith)
  | inr e ↦ ap (occurrences t) (lookup-add_rider j l s m) ∙ rw e (omega arith)
]

module _ {F : Type 0} where
  -- The item is this text.
  abbrev pub same_text : String → Json F → Bool
  same_text t (str s) = s == t
  same_text t v = false

  abbrev pub says : String → Result (Json F) → Bool
  says t (ok v) = same_text t v
  says t (raise e) = false

  -- The joint is driven by a servo, and its parent is a link.
  abbrev pub drives : (link servo : String) → Json F → Bool
  drives link servo joint = says link (item "parent" joint) && says servo (item "servo" joint)

  abbrev pub driven : (link servo : String) → List (String × Json F) → ℕ
  driven link servo [] = 0
  driven link servo ((name, joint) ∷ joints) =
      number_of (drives link servo joint) + driven link servo joints

  text_of-says : (t s : String) (v : Json F) → text_of v ≡ ok s → same_text t v ≡ (s == t)
  text_of-says t s (str u) h = ap (λ w. w == t) (ok_inj u s h)
  text_of-says t s null h = absurd (ground (arith, h))
  text_of-says t s (bool b) h = absurd (ground (arith, h))
  text_of-says t s (num x) h = absurd (ground (arith, h))
  text_of-says t s (arr xs) h = absurd (ground (arith, h))
  text_of-says t s (obj fs) h = absurd (ground (arith, h))

  -- A key that is missing has no text.
  lacks : (k t : String) (v : Json F) → member k v ≡ ok false → says t (item k v) ≡ false
  unfolding member item
  lacks k t (obj fs) h = elim (Option-cases (find k fs)) [
    | inl e ↦ rw e refl
    | inr (v, e) ↦ absurd (ground (arith, h, e))
  ]
  lacks k t null h = refl
  lacks k t (bool b) h = refl
  lacks k t (num x) h = refl
  lacks k t (str s) h = refl
  lacks k t (arr xs) h = refl

  -- What a joint adds.
  ride_if-drives :
      (j t : String) (here : Bool) (joint : Json F) (m m' : Riders)
      → member "servo" joint ≡ ok here
      → ride_if here joint m ≡ ok m'
      → occurrences t (riding (lookup j m'))
        ≡ occurrences t (riding (lookup j m)) + number_of (drives j t joint)
  ride_if-drives j t false joint m m' e h =
      let silent : drives j t joint ≡ false =
        ap (λ b. says j (item "parent" joint) && b) (lacks "servo" t joint e) ∙ and_false _ in
      rw silent (
        subst (λ r. occurrences t (riding (lookup j r)) ≡ occurrences t (riding (lookup j m)) + 0)
          (ok_inj m m' h) (omega arith))
  ride_if-drives j t true joint m m' e h =
      let (parent, e₁, h₁) = Result-bind (item "parent" joint) _ m' h in
      let (link, e₂, h₂) = Result-bind (text_of parent) _ m' h₁ in
      let (driven_by, e₃, h₃) = Result-bind (item "servo" joint) _ m' h₂ in
      let (servo, e₄, h₄) = Result-bind (text_of driven_by) _ m' h₃ in
      let named : drives j t joint ≡ ((link == j) && (servo == t)) =
        rw (e₁, e₃, text_of-says j link parent e₂, text_of-says t servo driven_by e₄) refl in
      rw named (
        subst
          (λ r.
            occurrences t (riding (lookup j r))
            ≡ occurrences t (riding (lookup j m)) + number_of ((link == j) && (servo == t)))
          (ok_inj (add_rider link servo m) m' h₄) (rides j t link servo m))

  ride_all-driven :
      (j t : String) (joints : List (String × Json F)) (m m' : Riders)
      → ride_all joints m ≡ ok m'
      → occurrences t (riding (lookup j m'))
        ≡ occurrences t (riding (lookup j m)) + driven j t joints
  unfolding ride_all
  ride_all-driven j t [] m m' h =
      subst (λ r. occurrences t (riding (lookup j r)) ≡ occurrences t (riding (lookup j m)) + 0)
        (ok_inj m m' h) (omega arith)
  ride_all-driven j t ((name, joint) ∷ joints) m m' h =
      let (here, e₁, h₁) = Result-bind (member "servo" joint) _ m' h in
      let (n, e₂, h₂) = Result-bind (ride_if here joint m) _ m' h₁ in
      omega (arith, ride_if-drives j t here joint m n e₁ e₂, ride_all-driven j t joints n m' h₂)

  ride_all_first :
      (j t : String) (joints : List (String × Json F)) (m' : Riders)
      → ride_all joints [] ≡ ok m'
      → occurrences t (riding (lookup j m')) ≡ driven j t joints
  unfolding lookup
  ride_all_first j t joints m' h = omega (arith, ride_all-driven j t joints [] m' h)

  -- When the riders of a profile can be read, a servo rides on a link as often as there are joints
  -- that it drives and whose parent the link is.
  pub servo_riders-driven :
      (cfg joints : Json F) (entries : List (String × Json F)) (riders : Riders)
      (link servo : String)
      → item "joints" cfg ≡ ok joints
      → items joints ≡ ok entries
      → servo_riders cfg ≡ ok riders
      → occurrences servo (riding (lookup link riders)) ≡ driven link servo entries
  unfolding servo_riders
  servo_riders-driven cfg joints entries riders link servo a b h =
      let (js, e₁, h₁) = Result-bind (item "joints" cfg) _ riders h in
      let (es, e₂, h₂) = Result-bind (items js) _ riders h₁ in
      let same_joints = ok_inj js joints (sym e₁ ∙ a) in
      let same = ok_inj es entries (sym e₂ ∙ ap items same_joints ∙ b) in
      subst (λ xs. occurrences servo (riding (lookup link riders)) ≡ driven link servo xs) same
        (ride_all_first link servo es riders h₂)
