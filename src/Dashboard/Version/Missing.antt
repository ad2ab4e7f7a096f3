-- ===== src/Dashboard/Version/Missing.antt =====
-- Which fields of the version block are reported as missing.
use text.Mathlib.Text.{is_lt}
use Prim.Native.String.{compare}
use vn_robotics.Prelude.{
  Bool, ◌&&◌, ◌||◌, String, List, [], ◌∷◌, ◌==◌, string_eq, map, keep, any, contains, ◌≡◌, refl,
  arith, Bool-cases, inl, inr,
}
use vn_robotics.Dashboard.Version.{
  Environment, unknown, is_unknown, insert_key, sorted_keys, version_info, missing_fields,
}

contains-insert_key :
    (k s : String) (ts : List String) → contains k (insert_key s ts) ≡ (s == k || contains k ts)
contains-insert_key k s [] = refl
contains-insert_key k s (t ∷ ts) = elim (Bool-cases (is_lt (compare t s))) [
  | inl e ↦ rw e (ground (arith, contains-insert_key k s ts))
  | inr e ↦ rw e refl
]

contains-sorted_keys : (k : String) (ts : List String) → contains k (sorted_keys ts) ≡ contains k ts
contains-sorted_keys k [] = refl
contains-sorted_keys k (t ∷ ts) =
    ground (arith, contains-insert_key k t (sorted_keys ts), contains-sorted_keys k ts)

-- A field of the list has this name and no known value.
abbrev pub is_missing : String → String × String → Bool
is_missing k (j, v) = j == k && is_unknown (j, v)

contains-keep :
    (k : String) (ps : List (String × String))
    → contains k (map (λ p. p.0) (keep is_unknown ps)) ≡ any (is_missing k) ps
contains-keep k [] = refl
contains-keep k ((j, v) ∷ ps) = elim (Bool-cases (v == unknown)) [
  | inl e ↦ rw e (ground (arith, contains-keep k ps))
  | inr e ↦ rw e (ground (arith, contains-keep k ps))
]

-- A name is among the missing fields exactly if the version block has a field of that name whose
-- value is unknown.
pub contains-missing_fields :
    (k : String) (environ : Environment) (host now : String)
    → contains k (missing_fields environ host now)
      ≡ any (is_missing k) (version_info environ host now)
unfolding missing_fields
contains-missing_fields k environ host now =
    rw (contains-sorted_keys k (map (λ p. p.0) (keep is_unknown (version_info environ host now))))
      (contains-keep k (version_info environ host now))
