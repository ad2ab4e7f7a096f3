-- ===== src/Data/Duplicates.antt =====
-- src/threevn_data/threevn_data/dataset.py, `duplicate_report`: how many of the images differ. The
-- name of an image's path is an argument, and so is the digest of its file, or what its reading
-- raises.
pub mod Groups
mod Samples
use vn_robotics.Prelude.{
  ℕ, zero, suc, max, ◌≡◌, Bool, true, false, not, Option, none, some, List, [], ◌∷◌, map, keep,
  length, String, ◌==◌, string_eq, number_eq, contains, lookup, put, if◌then◌else◌, ltb,
}
use vn_robotics.Py.Errors.{Result, ok, raise, key_error, or_raise, ◌>>=◌}
use vn_robotics.Data.Dataset.{Frame}

-- The dict that `duplicate_report` returns.
pub record DuplicateReport : Type 0 where
  pub files : ℕ
  pub unique : ℕ
  pub duplicate_groups : ℕ
  pub largest_group : ℕ
  pub unique_per_episode : List (ℕ × ℕ)

-- collections.Counter, one item more
unfoldable pub tally_one : String → List (String × ℕ) → List (String × ℕ)
tally_one d [] = (d, 1) ∷ []
tally_one d ((k, n) ∷ rest) =
    let others = tally_one d rest in if k == d then (k, suc n) ∷ rest else (k, n) ∷ others

unfoldable pub count_digests : List String → List (String × ℕ) → List (String × ℕ)
unfolding tally_one
count_digests [] counts = counts
count_digests (d ∷ ds) counts = count_digests ds (tally_one d counts)

abbrev pub second : {A : Type 0} → String × A → A
second (k, a) = a

-- n > 1
abbrev pub is_repeated : String × ℕ → Bool
is_repeated (digest, n) = ltb 1 n

-- max(counts.values()) if counts else 0
abbrev pub largest_count : List (String × ℕ) → ℕ
largest_count [] = 0
largest_count ((digest, n) ∷ rest) = max n (largest_count rest)

-- A set, one item more.
abbrev pub add_text : String → List String → List String
add_text d ds = if contains d ds then ds else d ∷ ds

-- per_episode[episode].add(digest), in a dict that is read in the order of its keys
unfoldable pub add_to_episode : ℕ → String → List (ℕ × List String) → List (ℕ × List String)
add_to_episode e d [] = (e, d ∷ []) ∷ []
add_to_episode e d ((i, ds) ∷ rest) =
    let others = add_to_episode e d rest in
    if e == i
    then (i, add_text d ds) ∷ rest
    else if ltb e i
    then (e, d ∷ []) ∷ (i, ds) ∷ rest
    else (i, ds) ∷ others

abbrev pub sizes : List (ℕ × List String) → List (ℕ × ℕ)
sizes [] = []
sizes ((e, ds) ∷ rest) = (e, length ds) ∷ sizes rest

abbrev pub report_of : List (String × String) → List (ℕ × List String) → DuplicateReport
report_of digests grouped =
    let counts = count_digests (map second digests) [] in
    record {
      files = length digests;
      unique = length counts;
      duplicate_groups = length (keep is_repeated counts);
      largest_group = largest_count counts;
      unique_per_episode = sizes grouped;
    }

module _ {F : Type 0} (name : String → String) (digest : String → Result String) where
  unfoldable pub digests_of :
      List (Frame F) → List (String × String) → Result (List (String × String))
  unfolding put
  digests_of [] digests = ok digests
  digests_of (f ∷ fs) digests = digest f.image >>= λ d. digests_of fs (put (name f.image) d digests)

  unfoldable pub group_by_episode :
      List (String × String)
      → List (Frame F)
      → List (ℕ × List String)
      → Result (List (ℕ × List String))
  unfolding lookup add_to_episode
  group_by_episode digests [] grouped = ok grouped
  group_by_episode digests (f ∷ fs) grouped =
      or_raise (key_error (name f.image)) (lookup (name f.image) digests) >>= λ d.
      group_by_episode digests fs (add_to_episode f.episode d grouped)

  unfoldable pub duplicate_report : List (Frame F) → Result DuplicateReport
  unfolding digests_of group_by_episode count_digests
  duplicate_report frames = digests_of frames [] >>= λ digests.
      group_by_episode digests frames [] >>= λ grouped. ok (report_of digests grouped)
