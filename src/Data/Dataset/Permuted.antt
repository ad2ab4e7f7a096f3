-- ===== src/Data/Dataset/Permuted.antt =====
-- What a permutation keeps of a list of ids: its length, what it holds, and that no id comes twice.
use mathlib.Core.List.{Perm}
use mathlib.Core.List.{Permᴰ}
use mathlib.Core.Logic.{∥∥₁_elim}
use vn_robotics.Prelude.{
  ℕ, suc, ◌≡◌, refl, ◌∙◌, ap, Bool, true, not, ◌&&◌, List, [], ◌∷◌, length, contains, number_eq,
  arith,
}

-- No id comes twice.
abbrev pub distinct : List ℕ → Bool
distinct [] = true
distinct (x ∷ xs) = not (contains x xs) && distinct xs

contains-Permᴰ : {xs ys : List ℕ} → Permᴰ xs ys → (a : ℕ) → contains a xs ≡ contains a ys
contains-Permᴰ Permᴰ.nil a = refl
contains-Permᴰ (Permᴰ.cons e p) a = ground (arith, e, contains-Permᴰ p a)
contains-Permᴰ (Permᴰ.swap e f) a = ground (arith, e, f)
contains-Permᴰ (Permᴰ.trans p q) a = contains-Permᴰ p a ∙ contains-Permᴰ q a

distinct-Permᴰ : {xs ys : List ℕ} → Permᴰ xs ys → distinct xs ≡ distinct ys
distinct-Permᴰ Permᴰ.nil = refl
distinct-Permᴰ (Permᴰ.cons {a} e p) = ground (arith, e, contains-Permᴰ p a, distinct-Permᴰ p)
distinct-Permᴰ (Permᴰ.swap e f) = ground (arith, e, f)
distinct-Permᴰ (Permᴰ.trans p q) = distinct-Permᴰ p ∙ distinct-Permᴰ q

length-Permᴰ : {xs ys : List ℕ} → Permᴰ xs ys → length xs ≡ length ys
length-Permᴰ Permᴰ.nil = refl
length-Permᴰ (Permᴰ.cons e p) = ap suc (length-Permᴰ p)
length-Permᴰ (Permᴰ.swap e f) = refl
length-Permᴰ (Permᴰ.trans p q) = length-Permᴰ p ∙ length-Permᴰ q

-- A shuffled list has the same length, the same members, and repeats none if the list repeats none.
pub record IsShuffled (xs ys : List ℕ) : Type 0 where
  pub same_length : length xs ≡ length ys
  pub same_members : (a : ℕ) → contains a xs ≡ contains a ys
  pub same_distinct : distinct xs ≡ distinct ys

pub perm-IsShuffled : {xs ys : List ℕ} → Perm xs ys → IsShuffled xs ys
perm-IsShuffled {xs} {ys} p = record {
  same_length = ∥∥₁_elim p (hlevel) length-Permᴰ;
  same_members = λ a. ∥∥₁_elim p (hlevel) (λ d. contains-Permᴰ d a);
  same_distinct = ∥∥₁_elim p (hlevel) distinct-Permᴰ;
}
