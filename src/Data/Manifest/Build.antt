-- ===== src/Data/Manifest/Build.antt =====
-- src/threevn_data/threevn_data/manifest.py: the manifest that is written. The environment and the
-- output of git are arguments; a git that fails has none.
use vn_robotics.Prelude.{
  ℕ, ◌≡◌, refl, Bool, true, false, not, String, Option, none, some, List, [], ◌∷◌, ◌==◌, string_eq,
  if◌then◌else◌,
}
use vn_robotics.Py.Json.{
  Number, Json, Fields, null, bool, num, str, obj, end, field, update, get_or, find,
}
use vn_robotics.Py.Errors.{ok}
use vn_robotics.Py.Text.{strip}

pub record Checkout : Type 0 where
  pub environ : String → Option String
  pub git : (arguments : List String) → Option String

-- os.environ.get(...) == '1'
abbrev is_one : Option String → Bool
is_one none = false
is_one (some t) = t == "1"

module _ {F : Type 0} where
  abbrev described : (commit dirty : Json F) → Json F
  described commit dirty = obj (field "commit" commit (field "dirty" dirty end))

  abbrev of_outputs : (sha status : Option String) → Json F
  of_outputs (some sha) (some status) =
      described (str (strip sha)) (bool (not (strip status == "")))
  of_outputs sha status = described null null

module _ {F : Type 0} (from : Checkout) where
  abbrev from_git : (repo : String) → Json F
  from_git repo =
      of_outputs (from.git ("-C" ∷ repo ∷ "rev-parse" ∷ "HEAD" ∷ []))
        (from.git ("-C" ∷ repo ∷ "status" ∷ "--porcelain" ∷ []))

  abbrev from_variable : (repo : String) → Option String → Json F
  from_variable repo none = from_git repo
  from_variable repo (some commit) =
      if commit == ""
      then from_git repo
      else described (str commit) (bool (is_one (from.environ "THREEVN_GIT_DIRTY")))

  unfoldable pub git_description : (repo : String) → Json F
  git_description repo = from_variable repo (from.environ "THREEVN_GIT_COMMIT")

module _ {F : Type 0} ⦃n : Number F⦄ where
  -- The dict, once the code is described.
  unfoldable pub build :
      (created : String) (code : Json F) (world robot_profile : String)
      (camera label_source : Fields F) (episodes frames : ℕ) (extra : Fields F)
      → Json F
  unfolding update
  build created code world robot_profile camera label_source episodes frames extra = obj (
      update
        (field "schema_version" (num (n.literal 1 0)) (
          field "created" (str created) (
            field "code" code (
              field "world" (str world) (
                field "robot" (str robot_profile) (
                  field "camera" (obj camera) (
                    field "labels" (obj label_source) (
                      field "episodes" (num (n.literal episodes 0))
                        (field "frames" (num (n.literal frames 0)) end)))))))))
        extra)

module _ {F : Type 0} (from : Checkout) (repo : String) where
  -- The description has a commit, which may be null.
  abbrev HasCommit : Json F → Type 0
  HasCommit d = (commit : Json F) × (get_or "commit" null d ≡ ok commit)

  described-HasCommit : (commit dirty : Json F) → HasCommit (described commit dirty)
  unfolding get_or find
  described-HasCommit commit dirty = (commit, refl)

  of_outputs-HasCommit : (sha status : Option String) → HasCommit (of_outputs sha status)
  of_outputs-HasCommit none status = described-HasCommit null null
  of_outputs-HasCommit (some sha) none = described-HasCommit null null
  of_outputs-HasCommit (some sha) (some status) = described-HasCommit _ _

  from_git-HasCommit : HasCommit (from_git from repo)
  from_git-HasCommit = of_outputs-HasCommit _ _

  from_text-HasCommit :
      (b : Bool) (d : Json F) → HasCommit d → HasCommit (if b then from_git from repo else d)
  from_text-HasCommit true d h = from_git-HasCommit
  from_text-HasCommit false d h = h

  from_variable-HasCommit : (v : Option String) → HasCommit (from_variable from repo v)
  from_variable-HasCommit none = from_git-HasCommit
  from_variable-HasCommit (some commit) =
      from_text-HasCommit (commit == "") _ (described-HasCommit _ _)

  pub git_description-HasCommit : HasCommit (git_description from repo)
  unfolding git_description
  git_description-HasCommit = from_variable-HasCommit (from.environ "THREEVN_GIT_COMMIT")
