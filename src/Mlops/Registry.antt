-- ===== src/Mlops/Registry.antt =====
-- src/threevn_mlops/threevn_mlops/registry.py: the directory of models, the index file and its log.
--
-- The directory is the index file, absent at first, and the model files by version. Clock readings
-- are arguments, in microseconds; the digest of an artifact's text is the parameter `version_of`.
-- A file holds the value that was written, since JSON text reads back as what was dumped.
pub mod Log
pub mod Validity
pub mod Rollback
pub mod Runs
pub mod Samples
use Prim.Native.String.{◌++◌ as text_append}
use vn_robotics.Prelude.{
  ℕ, ◌≡◌, Bool, true, false, not, String, Option, none, some, List, [], ◌∷◌, ◌++◌, if◌then◌else◌,
  ◌==◌, string_eq, ◌&&◌, is_some, lookup, put, put_sorted, keep, last?, leb, ltb,
}
use vn_robotics.Py.Errors.{Exn, Result, ok, raise, key_error, runtime_error, file_not_found}
use vn_robotics.Py.Errors
use vn_robotics.Py.Exec.{Exec, pure, throw, lift, gets, modify, ◌>>=◌, ◌>>◌}
use vn_robotics.Py.Json.{Number, Json, null, obj, str, item, get_or, empty_dict}
use vn_robotics.Mlops.Gates.{selected_key, item_at}

-- A line of the log.
pub data Row : Type 0 where
  registered : (stamp : ℕ) (version note : String) → Row
  promoted :
      (stamp : ℕ) (version : String) (source : Option String) (reason : String) (forced : Bool)
      → Row

pub record Summary (F : Type 0) : Type 0 where
  pub stamp : ℕ
  pub note : String
  pub file : String
  pub test_median : Json F
  pub baseline_median : Json F
  pub frames : Json F
  pub commit : Json F

pub record Index (F : Type 0) : Type 0 where
  pub production : Option String
  pub versions : List (String × Summary F)
  pub history : List Row

-- `index_file` is none while the file does not exist.
pub record Registry (F : Type 0) : Type 0 where
  pub index_file : Option (Index F)
  pub models : List (String × Json F)

-- MODELS and the name of a version's file
abbrev pub model_file : String → String
model_file version = text_append "models/" (text_append version ".json")

abbrev pub is_promotion : Row → Bool
is_promotion (promoted _ _ _ _ _) = true
is_promotion (registered _ _ _) = false

abbrev pub source_of : Row → Option String
source_of (promoted _ _ source _ _) = source
source_of (registered _ _ _) = none

-- Whether production points at a version.
abbrev pub is_at : Option String → String → Bool
is_at none v = false
is_at (some p) v = p == v

module _ {F : Type 0} where
  abbrev empty_index : Index F
  empty_index = record { production = none; versions = []; history = [] }

  abbrev pub empty_registry : Registry F
  empty_registry = record { index_file = none; models = [] }

  -- _read_index
  abbrev pub index_of : Registry F → Index F
  index_of r = elim r.index_file [ none ↦ empty_index | some i ↦ i ]

  -- _write_index
  abbrev pub write_index : Index F → Registry F → Registry F
  write_index i r = record r { index_file = some i }

  abbrev pub write_model : String → Json F → Registry F → Registry F
  write_model v a r = record r { models = put v a r.models }

  abbrev pub is_registered : String → Registry F → Bool
  is_registered v r = is_some (lookup v (index_of r).versions)

  -- Reading

  unfoldable pub artifact : String → Registry F → Result (Json F)
  artifact v r = elim (lookup v r.models) [ some a ↦ ok a | none ↦ raise (file_not_found v) ]

  abbrev pub production_version : Registry F → Option String
  production_version r = (index_of r).production

  unfoldable pub production : Registry F → Result (Option (Json F))
  production r = elim (production_version r) [
    | none ↦ ok none
    | some v ↦ if v == "" then ok none else Errors.◌>>=◌ (artifact v r) (λ a. ok (some a))
  ]

  abbrev pub history : Registry F → List Row
  history r = (index_of r).history

  -- The place of an item among items sorted newest first. Equal stamps keep their order.
  insert_newest : String × Summary F → List (String × Summary F) → List (String × Summary F)
  insert_newest e [] = e ∷ []
  insert_newest e (d ∷ ds) =
      let rest = insert_newest e ds in if ltb e.1.stamp d.1.stamp then d ∷ rest else e ∷ d ∷ ds

  sort_newest : List (String × Summary F) → List (String × Summary F)
  unfolding insert_newest
  sort_newest [] = []
  sort_newest (e ∷ es) = insert_newest e (sort_newest es)

  unfoldable pub versions : Registry F → List (String × Summary F)
  unfolding sort_newest
  versions r = sort_newest (index_of r).versions

  -- Promoting

  unfoldable pub promote :
      (stamp : ℕ) (version reason : String) (forced : Bool) → Exec (Registry F) (Option String)
  promote stamp version reason forced = do
    index ← gets index_of
    if not (is_some (lookup version index.versions))
        then throw (key_error version)
        else (let previous = index.production in
            if is_at previous version then pure previous else (do
              modify (
                  write_index (record index {
                    production = some version;
                    history = index.history ++ promoted stamp version previous reason forced ∷ [];
                  }))
              pure previous))

  -- `target = promotions[-1]['from']`, and what follows
  restore : ℕ → String → Option String → Exec (Registry F) (Option String)
  restore stamp reason none = throw runtime_error
  restore stamp reason (some target) =
      promote stamp target (if reason == "" then "rollback" else reason) false

  undo : ℕ → String → Option Row → Exec (Registry F) (Option String)
  undo stamp reason none = throw runtime_error
  undo stamp reason (some row) = restore stamp reason (source_of row)

  unfoldable pub rollback : (stamp : ℕ) (reason : String) → Exec (Registry F) (Option String)
  unfolding restore undo
  rollback stamp reason = do
    index ← gets index_of
    undo stamp reason (last? (keep is_promotion index.history))

module _ {F : Type 0} ⦃n : Number F⦄ where
  -- _score
  score : Json F → Result (Json F)
  score a = Errors.◌>>=◌ (selected_key a) λ key. elim key [
    | none ↦ ok null
    | some k ↦ Errors.◌>>=◌ (item "metrics" a) λ metrics.
        Errors.◌>>=◌ (item_at k metrics) λ entry.
          Errors.◌>>=◌ (get_or "test" empty_dict entry) λ part. get_or "median_mm" null part
  ]

  -- _baseline
  baseline : Json F → Result (Json F)
  baseline metrics =
      Errors.◌>>=◌ (get_or "geometric" empty_dict metrics)
        λ entry. Errors.◌>>=◌ (get_or "test" empty_dict entry) λ part. get_or "median_mm" null part

  nested : String → String → Json F → Result (Json F)
  nested outer inner a = Errors.◌>>=◌ (get_or outer empty_dict a) λ part. get_or inner null part

  unfoldable pub summary : ℕ → String → String → Json F → Result (Summary F)
  unfolding score baseline nested
  summary stamp note version a = Errors.◌>>=◌ (get_or "metrics" empty_dict a) λ metrics.
      Errors.◌>>=◌ (score a) λ test_median. Errors.◌>>=◌ (baseline metrics) λ baseline_median.
        Errors.◌>>=◌ (nested "dataset" "frames" a) λ frames.
          Errors.◌>>=◌ (nested "code" "commit" a) λ commit. ok (record {
            stamp = stamp;
            note = note;
            file = model_file version;
            test_median = test_median;
            baseline_median = baseline_median;
            frames = frames;
            commit = commit;
          })

  -- The two readings of the clock stand for `_now()` in the summary and in the log.
  unfoldable pub register :
      (version_of : Json F → String) (summary_stamp log_stamp : ℕ) (note : String)
      → Json F
      → Exec (Registry F) String
  register version_of summary_stamp log_stamp note a = do
    let version = version_of a
    index ← gets index_of
    if is_some (lookup version index.versions) then pure version else (do
      modify (write_model version a)
      row ← lift (summary summary_stamp note version a)
      modify (
          write_index (record index {
            versions = put_sorted version row index.versions;
            history = index.history ++ registered log_stamp version note ∷ [];
          }))
      pure version)
