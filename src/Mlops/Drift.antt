-- ===== src/Mlops/Drift.antt =====
-- src/threevn_mlops/threevn_mlops/drift.py: how unlike the training data a vector of features is.
-- The arrays of the statistics are the columns of one list, with an entry per feature.
pub mod Counts
mod Samples
use vn_robotics.Prelude.{
  ℕ, zero, suc, ◌+◌, Bool, true, false, not, ◌&&◌, ◌||◌, Option, none, some, List, [], ◌∷◌, map,
  length, any, String, ◌==◌, number_eq, if◌then◌else◌, max,
}
use vn_robotics.Py.Json.{Number}
use vn_robotics.Py.Errors.{Result, ok, raise, value_error}
use vn_robotics.Py.Exec.{Exec}

pub record FeatureStats (F : Type 0) : Type 0 where
  pub name : String
  pub mean : F
  pub std : F
  pub low : F
  pub high : F

-- DriftMonitor
pub record DriftMonitor (F : Type 0) : Type 0 where
  pub stats : List (FeatureStats F)
  pub z_threshold : F
  pub frames : ℕ
  pub out_of_range : ℕ
  pub beyond_threshold : ℕ

-- The dict that `check` returns.
pub record Verdict (F : Type 0) : Type 0 where
  pub drifting : Bool
  pub max_z : F
  pub worst_feature : Option String
  pub outside_training_range : List String

-- The dict that `summary` returns.
pub record Rates (F : Type 0) : Type 0 where
  pub frames : ℕ
  pub fraction_drifting : F
  pub fraction_outside_range : F

abbrev pub fresh_monitor : {F : Type 0} → List (FeatureStats F) → F → DriftMonitor F
fresh_monitor stats z_threshold = record {
  stats = stats;
  z_threshold = z_threshold;
  frames = 0;
  out_of_range = 0;
  beyond_threshold = 0;
}

-- not outside.any(), by the names that are listed
abbrev pub no_texts : List String → Bool
no_texts [] = true
no_texts (s ∷ ss) = false

module _ {F : Type 0} ⦃n : Number F⦄ where
  -- std > 1e-12
  abbrev pub judgeable : FeatureStats F → Bool
  judgeable f = n.lt (n.literal 1 12) f.std

  abbrev pub z_score : FeatureStats F → F → F
  z_score f x = if judgeable f then n.abs (n.div (n.sub x f.mean) f.std) else n.literal 0 0

  abbrev pub is_outside : FeatureStats F → F → Bool
  is_outside f x = n.lt x f.low || n.lt f.high x

  unfoldable pub z_scores : List (FeatureStats F) → List F → List F
  z_scores [] xs = []
  z_scores (f ∷ fs) [] = []
  z_scores (f ∷ fs) (x ∷ xs) = z_score f x ∷ z_scores fs xs

  unfoldable pub outside : List (FeatureStats F) → List F → List String
  outside [] xs = []
  outside (f ∷ fs) [] = []
  outside (f ∷ fs) (x ∷ xs) =
      let rest = outside fs xs in if is_outside f x then f.name ∷ rest else rest

  -- z.max()
  unfoldable pub greatest_z : F → List F → F
  greatest_z best [] = best
  greatest_z best (z ∷ zs) = greatest_z (if n.lt best z then z else best) zs

  abbrev pub max_of : List F → F
  max_of [] = n.literal 0 0
  max_of (z ∷ zs) = greatest_z z zs

  -- np.argmax: the name of the first that no other exceeds
  unfoldable pub worst_from : String → F → List (FeatureStats F) → List F → String
  worst_from name best [] zs = name
  worst_from name best (f ∷ fs) [] = name
  worst_from name best (f ∷ fs) (z ∷ zs) =
      worst_from (if n.lt best z then f.name else name) (if n.lt best z then z else best) fs zs

  abbrev pub worst_of : List (FeatureStats F) → List F → Option String
  worst_of [] zs = none
  worst_of (f ∷ fs) [] = some f.name
  worst_of (f ∷ fs) (z ∷ zs) = some (worst_from f.name z fs zs)

  abbrev pub is_drifting : F → List F → Bool
  is_drifting z_threshold [] = false
  is_drifting z_threshold (z ∷ zs) = n.lt z_threshold (max_of (z ∷ zs))

  unfoldable pub verdict_of : DriftMonitor F → List F → Verdict F
  unfolding z_scores outside greatest_z worst_from
  verdict_of d features =
      let z = z_scores d.stats features in
      record {
        drifting = is_drifting d.z_threshold z;
        max_z = max_of z;
        worst_feature = worst_of d.stats z;
        outside_training_range = outside d.stats features;
      }

  abbrev pub note_verdict : Verdict F → DriftMonitor F → DriftMonitor F
  note_verdict v d = record d {
    frames = suc d.frames;
    out_of_range = if no_texts v.outside_training_range then d.out_of_range else suc d.out_of_range;
    beyond_threshold = if v.drifting then suc d.beyond_threshold else d.beyond_threshold;
  }

  unfoldable pub check : List F → Exec (DriftMonitor F) (Verdict F)
  unfolding verdict_of
  check features d =
      let verdict = verdict_of d features in
      if not (length features == length d.stats)
      then (raise value_error, d)
      else (ok verdict, note_verdict verdict d)

  unfoldable pub rates : DriftMonitor F → Rates F
  rates d =
      let shown = n.literal (max d.frames 1) 0 in
      record {
        frames = d.frames;
        fraction_drifting = n.div (n.literal d.beyond_threshold 0) shown;
        fraction_outside_range = n.div (n.literal d.out_of_range 0) shown;
      }
