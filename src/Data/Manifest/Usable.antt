-- ===== src/Data/Manifest/Usable.antt =====
-- What a manifest without problems says, and manifests on which the validation raises.
use vn_robotics.Prelude.{
  ◌≡◌, refl, ◌∙◌, ap, Bool, true, false, not, String, List, [], ◌∷◌, ◌++◌, map, contains, string_eq,
  arith, All, if◌then◌else◌, Bool-cases, inl, inr,
}
use vn_robotics.Py.Errors.{Result, ok, raise, attribute_error, ◌>>=◌}
use vn_robotics.Py.Json.{
  Number, Json, null, bool, num, str, arr, obj, member, item, get_or, truthy, as_number, equals_one,
}
use vn_robotics.Data.Manifest.{
  required, camera_keys, sources, Problem, camera_lacks, lacking_keys, when, is_known, is_positive,
  problems_of, early, validate,
}

-- What a chain of calls returned, it got from each of them.
pub Result-bind {ℓ κ} :
    {A : Type ℓ} {B : Type κ} (r : Result A) (f : A → Result B) (b : B)
    → (r >>= f) ≡ ok b
    → (a : A) × (r ≡ ok a) × (f a ≡ ok b)
Result-bind (ok a) f b h = (a, refl, h)
Result-bind (raise e) f b h = absurd (ground (arith, h))

append-nil_both {ℓ} : {A : Type ℓ} (xs ys : List A) → xs ++ ys ≡ [] → (xs ≡ []) × (ys ≡ [])
append-nil_both [] ys h = (refl, h)
append-nil_both (x ∷ xs) ys h = absurd (ground (arith, h))

-- The list of a result.
abbrev list_in {ℓ} : {A : Type ℓ} → Result (List A) → List A
list_in (ok xs) = xs
list_in (raise e) = []

ok-nil {ℓ} : {A : Type ℓ} (xs : List A) → ok xs ≡ ok [] → xs ≡ []
ok-nil xs h = ap list_in h

shorter :
    (here : Bool) (k : String) (rest : List String)
    → here ≡ true
    → (if here then rest else k ∷ rest) ≡ []
    → rest ≡ []
shorter true k rest b h = h
shorter false k rest b h = absurd (ground (arith, b))

longer :
    (here : Bool) (k : String) (rest : List String)
    → here ≡ false
    → (if here then rest else k ∷ rest) ≡ []
    → ⊥
longer true k rest b h = ground (arith, b)
longer false k rest b h = ground (arith, h)

map-nil {ℓ κ} : {A : Type ℓ} {B : Type κ} (f : A → B) (xs : List A) → map f xs ≡ [] → xs ≡ []
map-nil f [] h = refl
map-nil f (x ∷ xs) h = absurd (ground (arith, h))

module _ {F : Type 0} where
  when-nil : (b : Bool) (p : Problem F) → when (not b) p ≡ [] → b ≡ true
  when-nil true p h = refl
  when-nil false p h = absurd (ground (arith, h))

  unfoldable pub Has : Json F → String → Type 0
  Has value k = member k value ≡ ok true

  lacking_keys-nil :
      (ks : List String) (value : Json F) → lacking_keys ks value ≡ ok [] → All (Has value) ks
  unfolding lacking_keys Has
  lacking_keys-nil [] value h = tt
  lacking_keys-nil (k ∷ ks) value h =
      let (here, m, h₁) = Result-bind (member k value) _ [] h in
      let (rest, r, h₂) = Result-bind (lacking_keys ks value) _ [] h₁ in
      elim (Bool-cases here) [
        | inl b ↦ (
          m ∙ ap ok b,
          lacking_keys-nil ks value (r ∙ ap ok (shorter here k rest b (ok-nil _ h₂))),
        )
        | inr b ↦ absurd (longer here k rest b (ok-nil _ h₂))
      ]

  is_known-str :
      (v : Json F) → is_known v ≡ true → (s : String) × (v ≡ str s) × (contains s sources ≡ true)
  is_known-str (str s) h = (s, refl, h)
  is_known-str null h = absurd (ground arith)
  is_known-str (bool b) h = absurd (ground arith)
  is_known-str (num x) h = absurd (ground arith)
  is_known-str (arr xs) h = absurd (ground arith)
  is_known-str (obj fs) h = absurd (ground arith)

module _ {F : Type 0} ⦃n : Number F⦄ where
  -- A manifest that says where the data came from.
  pub record IsUsable (manifest : Json F) : Type 0 where
    pub has_required : All (Has manifest) required
    pub version : Json F
    pub version_read : item "schema_version" manifest ≡ ok version
    pub version_one : equals_one version ≡ true
    pub code : Json F
    pub commit : Json F
    pub code_read : item "code" manifest ≡ ok code
    pub commit_read : get_or "commit" null code ≡ ok commit
    pub commit_given : truthy commit ≡ true
    pub camera : Json F
    pub camera_read : item "camera" manifest ≡ ok camera
    pub has_intrinsics : All (Has camera) camera_keys
    pub labels : Json F
    pub source : String
    pub labels_read : item "labels" manifest ≡ ok labels
    pub source_read : get_or "source" null labels ≡ ok (str source)
    pub source_known : contains source sources ≡ true
    pub frames : Json F
    pub episodes : Json F
    pub frame_count : F
    pub episode_count : F
    pub frames_read : item "frames" manifest ≡ ok frames
    pub frames_number : as_number frames ≡ ok frame_count
    pub frames_positive : is_positive frame_count ≡ true
    pub episodes_read : item "episodes" manifest ≡ ok episodes
    pub episodes_number : as_number episodes ≡ ok episode_count
    pub episodes_positive : is_positive episode_count ≡ true

  problems_of-nil : (m : Json F) → All (Has m) required → problems_of m ≡ ok [] → IsUsable m
  unfolding problems_of
  problems_of-nil m has h =
      let (version, e₁, h₁) = Result-bind (item "schema_version" m) _ [] h in
      let (code, e₂, h₂) = Result-bind (item "code" m) _ [] h₁ in
      let (commit, e₃, h₃) = Result-bind (get_or "commit" null code) _ [] h₂ in
      let (camera, e₄, h₄) = Result-bind (item "camera" m) _ [] h₃ in
      let (lacking, e₅, h₅) = Result-bind (lacking_keys camera_keys camera) _ [] h₄ in
      let (labels, e₆, h₆) = Result-bind (item "labels" m) _ [] h₅ in
      let (source, e₇, h₇) = Result-bind (get_or "source" null labels) _ [] h₆ in
      let (frames, e₈, h₈) = Result-bind (item "frames" m) _ [] h₇ in
      let (frame_count, e₉, h₉) = Result-bind (as_number frames) _ [] h₈ in
      let (episodes, f₁, k₁) = Result-bind (item "episodes" m) _ [] h₉ in
      let (episode_count, f₂, k₂) = Result-bind (as_number episodes) _ [] k₁ in
      let (p₁, r₁) = append-nil_both _ _ (ok-nil _ k₂) in
      let (p₂, r₂) = append-nil_both _ _ r₁ in
      let (p₃, r₃) = append-nil_both _ _ r₂ in
      let (p₄, r₄) = append-nil_both _ _ r₃ in
      let (p₅, p₆) = append-nil_both _ _ r₄ in
      let (name, is_text, known) = is_known-str source (when-nil _ _ p₄) in
      record {
        has_required = has;
        version = version;
        version_read = e₁;
        version_one = when-nil _ _ p₁;
        code = code;
        commit = commit;
        code_read = e₂;
        commit_read = e₃;
        commit_given = when-nil _ _ p₂;
        camera = camera;
        camera_read = e₄;
        has_intrinsics =
            lacking_keys-nil camera_keys camera (e₅ ∙ ap ok (map-nil camera_lacks lacking p₃));
        labels = labels;
        source = name;
        labels_read = e₆;
        source_read = e₇ ∙ ap ok is_text;
        source_known = known;
        frames = frames;
        episodes = episodes;
        frame_count = frame_count;
        episode_count = episode_count;
        frames_read = e₈;
        frames_number = e₉;
        frames_positive = when-nil _ _ p₅;
        episodes_read = f₁;
        episodes_number = f₂;
        episodes_positive = when-nil _ _ p₆;
      }

  early-nil :
      (missing : List String) (rest : Result (List (Problem F)))
      → early missing rest ≡ ok []
      → (missing ≡ []) × (rest ≡ ok [])
  early-nil [] rest h = (refl, h)
  early-nil (k ∷ ks) rest h = absurd (ground (arith, ok-nil _ h))

  -- A manifest with which the validation finds no problem has every required field, the schema
  -- version 1, a commit, the six intrinsics of its camera, a known source of its labels, and more
  -- than no frames and no episodes.
  pub validate-IsUsable : (manifest : Json F) → validate manifest ≡ ok [] → IsUsable manifest
  unfolding validate
  validate-IsUsable m h =
      let (missing, e, rest) = Result-bind (lacking_keys required m) _ [] h in
      let (none_missing, found) = early-nil missing (problems_of m) rest in
      problems_of-nil m (lacking_keys-nil required m (e ∙ ap ok none_missing)) found

  -- On a manifest with every required field whose code is a text, the validation raises.
  pub validate_raises :
      (manifest version : Json F) (commit : String)
      → lacking_keys required manifest ≡ ok []
      → item "schema_version" manifest ≡ ok version
      → item "code" manifest ≡ ok (str commit)
      → validate manifest ≡ raise attribute_error
  unfolding validate problems_of get_or
  validate_raises m version commit none_missing v c = rw (none_missing, v, c) refl
