-- ===== src/Py/Errors.antt =====
-- Exceptions as values. The messages are not modelled, their keys and paths are.
use vn_robotics.Prelude.{ℕ, ◌≡◌, refl, String, Bool, true, false, Option, none, some, ◌⊎◌, inl, inr}

pub data Exn : Type 0 where
  key_error : String → Exn
  missing_number : ℕ → Exn
  type_error attribute_error value_error index_error runtime_error assertion_error not_implemented :
      Exn
  file_not_found : String → Exn
  os_error url_error http_error http_exception : Exn
  scenario_failed : Exn
  limit_violation : String → Exn
  motion_failed robot_not_ready zero_division cv_error : Exn

pub data Result {ℓ} (A : Type ℓ) : Type ℓ where
  ok : A → Result A
  raise : Exn → Result A

infixl 5 ◌>>=◌
-- What follows a call, unless the call raised.
abbrev pub ◌>>=◌ {ℓ κ} : {A : Type ℓ} {B : Type κ} → Result A → (A → Result B) → Result B
raise x >>= next = raise x
ok value >>= next = next value

-- d[k], where a missing key raises
abbrev pub or_raise {ℓ} : {A : Type ℓ} → Exn → Option A → Result A
or_raise e (some a) = ok a
or_raise e none = raise e

abbrev pub is_ok {ℓ} : {A : Type ℓ} → Result A → Bool
is_ok (ok a) = true
is_ok (raise e) = false

-- To split on a computed result and keep the equation.
pub Result-cases {ℓ} :
    {A : Type ℓ} (r : Result A) → ((e : Exn) × (r ≡ raise e)) ⊎ ((a : A) × (r ≡ ok a))
Result-cases (ok a) = inr (a, refl)
Result-cases (raise e) = inl (e, refl)
