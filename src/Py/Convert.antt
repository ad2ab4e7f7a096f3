-- ===== src/Py/Convert.antt =====
-- `float` and `int` of a JSON value. How a text reads as a number, and what truncation gives, are
-- arguments, as the numbers themselves are.
use vn_robotics.Prelude.{String, Option, Bool, if◌then◌else◌}
use vn_robotics.Py.Errors.{Result, ok, raise, value_error, type_error, or_raise}
use vn_robotics.Py.Json.{Number, Json, bool, num, str}

pub record Reading (F : Type 0) : Type 0 where
  pub float_text : String → Option F
  pub int_text : String → Option F
  pub truncate : F → Result F

module _ {F : Type 0} ⦃n : Number F⦄ (reading : Reading F) where
  open reading use {float_text, int_text, truncate}

  abbrev of_bool : Bool → F
  of_bool b = if b then n.literal 1 0 else n.literal 0 0

  -- float(v)
  unfoldable pub to_float : Json F → Result F
  to_float (num x) = ok x
  to_float (bool b) = ok (of_bool b)
  to_float (str s) = or_raise value_error (float_text s)
  to_float v = raise type_error

  -- int(v)
  unfoldable pub to_int : Json F → Result F
  to_int (num x) = truncate x
  to_int (bool b) = ok (of_bool b)
  to_int (str s) = or_raise value_error (int_text s)
  to_int v = raise type_error
