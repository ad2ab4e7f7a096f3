-- ===== src/Py/Exec.antt =====
-- Methods of an object. What was written before a raise stays written, so the object comes back
-- beside the exception too.
use vn_robotics.Py.Errors.{Exn, Result, ok, raise}

abbrev pub Exec {ℓ} : Type ℓ → Type ℓ → Type ℓ
Exec S A = S → Result A × S

module _ {ℓ} {S A : Type ℓ} where
  abbrev pub pure : A → Exec S A
  pure a s = (ok a, s)

  abbrev pub throw : Exn → Exec S A
  throw e s = (raise e, s)

  abbrev pub lift : Result A → Exec S A
  lift r s = (r, s)

  abbrev pub gets : (S → A) → Exec S A
  gets f s = (ok (f s), s)

  -- A reading of the object that may raise.
  abbrev pub attempt : (S → Result A) → Exec S A
  attempt f s = (f s, s)

abbrev pub modify : {S : Type 0} → (S → S) → Exec S Unit
modify f s = (ok tt, f s)

module _ {ℓ} {S A B : Type ℓ} where
  abbrev pub continue : Result A → (A → Exec S B) → Exec S B
  continue (ok a) f s = f a s
  continue (raise e) f s = (raise e, s)

  infixl 10 ◌>>◌ ◌>>=◌
  abbrev pub ◌>>=◌ : Exec S A → (A → Exec S B) → Exec S B
  ◌>>=◌ m f s = let (r, s') = m s in continue r f s'

  abbrev pub ◌>>◌ : Exec S A → Exec S B → Exec S B
  m >> n = m >>= λ _. n

module _ {ℓ} {S A B : Type ℓ} (P : Result A → S → Type ℓ) (Q : Result B → S → Type ℓ) where
  continue_rule :
      (r : Result A) (f : A → Exec S B) (s : S)
      → P r s
      → ((a : A) (s' : S) → P (ok a) s' → Q (f a s').0 (f a s').1)
      → ((e : Exn) (s' : S) → P (raise e) s' → Q (raise e) s')
      → Q (continue r f s).0 (continue r f s).1
  continue_rule (ok a) f s p h k = h a s p
  continue_rule (raise e) f s p h k = k e s p

  -- To show what holds after two calls, from what holds after the first.
  pub bind_rule :
      (m : Exec S A) (f : A → Exec S B) (s : S)
      → P (m s).0 (m s).1
      → ((a : A) (s' : S) → P (ok a) s' → Q (f a s').0 (f a s').1)
      → ((e : Exn) (s' : S) → P (raise e) s' → Q (raise e) s')
      → Q ((m >>= f) s).0 ((m >>= f) s).1
  bind_rule m f s = continue_rule (m s).0 f (m s).1
