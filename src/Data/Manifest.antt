-- ===== src/Data/Manifest.antt =====
-- src/threevn_data/threevn_data/manifest.py: what is wrong with the manifest of a dataset. The
-- manifest is any value that `json.loads` may make, and the sentences are values.
pub mod Usable
pub mod Build
pub mod Samples
use vn_robotics.Prelude.{
  ℕ, ◌≡◌, Bool, true, false, not, String, Option, none, some, List, [], ◌∷◌, ◌++◌, map,
  if◌then◌else◌, contains, string_eq,
}
use vn_robotics.Py.Errors.{Result, ok, raise, ◌>>=◌}
use vn_robotics.Py.Json.{
  Number, Json, null, str, member, item, get_or, truthy, as_number, equals_one,
}
use vn_robotics.Mlops.Gates.Names.{sorted}

-- REQUIRED
abbrev pub required : List String
required =
    "schema_version" ∷ "created" ∷ "code" ∷ "world" ∷ "robot" ∷ "camera" ∷ "labels" ∷ "episodes"
    ∷ "frames" ∷ []

abbrev pub camera_keys : List String
camera_keys = "fx" ∷ "fy" ∷ "cx" ∷ "cy" ∷ "width" ∷ "height" ∷ []

abbrev pub sources : List String
sources = "simulator" ∷ "human" ∷ "derived" ∷ []

pub data Problem (F : Type 0) : Type 0 where
  missing_fields : List String → Problem F
  schema_differs : Json F → Problem F
  no_commit no_frames no_episodes : Problem F
  camera_lacks : String → Problem F
  source_unknown : Json F → Problem F

module _ {F : Type 0} where
  -- [key for key in keys if key not in value]
  unfoldable pub lacking_keys : List String → Json F → Result (List String)
  lacking_keys [] value = ok []
  lacking_keys (k ∷ ks) value = do
    here ← member k value
    rest ← lacking_keys ks value
    ok (if here then rest else k ∷ rest)

  abbrev pub when : Bool → Problem F → List (Problem F)
  when true p = p ∷ []
  when false p = []

  -- source in ('simulator', 'human', 'derived')
  abbrev pub is_known : Json F → Bool
  is_known (str s) = contains s sources
  is_known v = false

module _ {F : Type 0} ⦃n : Number F⦄ where
  abbrev pub is_positive : F → Bool
  is_positive x = not (n.le x (n.literal 0 0))

  -- validate, behind its early return
  unfoldable pub problems_of : Json F → Result (List (Problem F))
  problems_of manifest = do
    version ← item "schema_version" manifest
    code ← item "code" manifest
    commit ← get_or "commit" null code
    camera ← item "camera" manifest
    lacking ← lacking_keys camera_keys camera
    labels ← item "labels" manifest
    source ← get_or "source" null labels
    frames ← item "frames" manifest
    frame_count ← as_number frames
    episodes ← item "episodes" manifest
    episode_count ← as_number episodes
    ok (
        when (not (equals_one version)) (schema_differs version)
        ++ (when (not (truthy commit)) no_commit
            ++ (map camera_lacks lacking
                ++ (when (not (is_known source)) (source_unknown source)
                    ++ (when (not (is_positive frame_count)) no_frames
                        ++ when (not (is_positive episode_count)) no_episodes)))))

  abbrev pub early : List String → Result (List (Problem F)) → Result (List (Problem F))
  early [] rest = rest
  early (k ∷ ks) rest = ok (missing_fields (sorted (k ∷ ks)) ∷ [])

  unfoldable pub validate : Json F → Result (List (Problem F))
  unfolding problems_of
  validate manifest = do
    missing ← lacking_keys required manifest
    early missing (problems_of manifest)
