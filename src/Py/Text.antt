-- ===== src/Py/Text.antt =====
-- Methods of `str` that the code uses.
use Prim.Native.Char.{Char, code}
use Prim.Native.String.{◌++◌ as ◌<>◌}
use text.Mathlib.Text.{find?, starts_with}
use vn_robotics.Prelude.{
  ℕ, zero, suc, ◌-◌, ◌/◌, ◌%◌, ltb, Bool, false, ◌&&◌, ◌||◌, String, ◌==◌, number_eq, string_eq,
  if◌then◌else◌, leb, List, [], ◌∷◌, is_some,
}

-- c.isspace(), for a code point
abbrev pub is_space : ℕ → Bool
is_space c =
    (leb 9 c && leb c 13)
    || ((leb 28 c && leb c 32)
        || (c == 133
            || (c == 160
                || (c == 5760
                    || ((leb 8192 c && leb c 8202)
                        || (c == 8232
                            || (c == 8233 || (c == 8239 || (c == 8287 || c == 12288)))))))))

unfoldable pub lstrip : String → String
lstrip String.[] = ""
lstrip (String.◌∷◌ c s) = let rest = lstrip s in if is_space (code c) then rest else String.◌∷◌ c s

-- Without the characters at the end that a test takes.
unfoldable pub rstrip_by : (ℕ → Bool) → String → String
rstrip_by p String.[] = ""
rstrip_by p (String.◌∷◌ c s) =
    let rest = rstrip_by p s in if (rest == "") && p (code c) then "" else String.◌∷◌ c rest

-- s.strip()
unfoldable pub strip : String → String
unfolding lstrip rstrip_by
strip s = lstrip (rstrip_by is_space s)

-- s.split(c, 1)[0], for a character given by its code point
unfoldable pub before : ℕ → String → String
before k String.[] = ""
before k (String.◌∷◌ c s) = let rest = before k s in if code c == k then "" else String.◌∷◌ c rest

-- text or default
abbrev pub text_or : String → String → String
text_or s default = if s == "" then default else s

-- s.split(c, 1)[1], of a text that has the character
unfoldable pub after : ℕ → String → String
after k String.[] = ""
after k (String.◌∷◌ c s) = let rest = after k s in if code c == k then s else rest

-- The line breaks of str.splitlines.
abbrev pub is_break : ℕ → Bool
is_break c =
    (leb 10 c && leb c 13) || ((leb 28 c && leb c 30) || (c == 133 || (c == 8232 || c == 8233)))

abbrev push_char : Char → List String → List String
push_char c [] = String.◌∷◌ c "" ∷ []
push_char c (l ∷ ls) = String.◌∷◌ c l ∷ ls

-- s.splitlines(), where "\r\n" is one break
unfoldable pub splitlines : String → List String
splitlines String.[] = []
splitlines (String.◌∷◌ c s) =
    let rest = splitlines s in
    if is_break (code c)
    then if (code c == 13) && starts_with s "\n" then rest else "" ∷ rest
    else push_char c rest

-- part in s
abbrev pub mentions : String → String → Bool
mentions part s = is_some (find? s part)

-- s.lower().startswith(...), for a character in both cases
abbrev either : (upper lower : ℕ) → Char → Bool
either upper lower c = (code c == upper) || (code c == lower)

abbrev true_here : String → Bool
true_here (String.◌∷◌ t (String.◌∷◌ r (String.◌∷◌ u (String.◌∷◌ e s)))) =
    either 84 116 t && (either 82 114 r && (either 85 117 u && either 69 101 e))
true_here s = false

-- 'true' in s.lower(): no other character has one of these letters as its lower case
unfoldable pub says_true : String → Bool
says_true String.[] = false
says_true (String.◌∷◌ c s) = true_here (String.◌∷◌ c s) || says_true s

digit_at : ℕ → String → String
digit_at k String.[] = ""
digit_at zero (String.◌∷◌ c s) = String.◌∷◌ c ""
digit_at (suc k) (String.◌∷◌ c s) = digit_at k s

abbrev digit : ℕ → String
digit k = digit_at k "0123456789"

-- The digits of a number before a text; a number has fewer digits than fuel `suc k` allows.
digits_before : (fuel k : ℕ) → String → String
digits_before zero k s = s
digits_before (suc fuel) k s =
    let t = digit (k % 10) <> s in
    let rest = digits_before fuel (k / 10) t in if ltb k 10 then t else rest

-- str(k)
unfoldable pub decimal : ℕ → String
unfolding digits_before digit_at
decimal k = digits_before (suc k) k ""

abbrev pub zeros : ℕ → String
zeros zero = ""
zeros (suc k) = "0" <> zeros k

abbrev pub char_count : String → ℕ
char_count String.[] = 0
char_count (String.◌∷◌ c s) = suc (char_count s)

-- f'{k:0wd}'
unfoldable pub padded : (w k : ℕ) → String
unfolding decimal
padded w k = zeros (w - char_count (decimal k)) <> decimal k
