-- ===== src/Mlops/Cli.antt =====
-- src/threevn_mlops/threevn_mlops/cli.py: the commands over the registry, with their exit codes.
-- What is printed is not modelled, nor is the parsing of the arguments.
pub mod Gated
mod Samples
use vn_robotics.Prelude.{
  ℕ, ◌≡◌, Bool, true, false, not, String, Option, none, some, List, [], ◌∷◌, if◌then◌else◌, ◌==◌,
  string_eq, ◌&&◌,
}
use vn_robotics.Py.Errors.{Exn, Result, ok, raise, runtime_error}
use vn_robotics.Py.Exec.{Exec, pure, throw, lift, attempt, ◌>>=◌, ◌>>◌}
use vn_robotics.Py.Json.{Number, Json}
use vn_robotics.Mlops.Gates.{Gate, Reason, check_all}
use vn_robotics.Mlops.Registry.{
  Registry, Summary, artifact, production, promote, rollback, register, versions,
}

-- argparse's `Namespace`, one constructor for each command. `loaded` is the value of the file that
-- --model names, and the stamps are what the clock reads.
pub data Command (F : Type 0) : Type 0 where
  status : Command F
  register_model : (summary_stamp log_stamp : ℕ) (loaded : Json F) (note : String) → Command F
  promote_version :
      (stamp : ℕ) (version : Option String) (reason : String) (force : Bool) → Command F
  rollback_last : (stamp : ℕ) (reason : String) → Command F

-- except RuntimeError
abbrev caught : Result (Option String) → Result ℕ
caught (ok previous) = ok 0
caught (raise runtime_error) = ok 1
caught (raise e) = raise e

module _ {F : Type 0} where
  -- args.version or next(iter(registry.versions()), None)
  abbrev first_version : List (String × Summary F) → Option String
  first_version [] = none
  first_version (e ∷ es) = some e.0

  abbrev pub chosen : Option String → Registry F → Option String
  chosen none r = first_version (versions r)
  chosen (some v) r = if v == "" then first_version (versions r) else some v

  abbrev pub fails : List (Gate × List (Reason F)) → Bool
  fails [] = false
  fails (f ∷ fs) = true

  rollback_command : ℕ → String → Exec (Registry F) ℕ
  rollback_command stamp reason r =
      (caught (rollback stamp reason r).0, (rollback stamp reason r).1)

module _ {F : Type 0} ⦃n : Number F⦄ (served : List String) where
  -- From the chosen version on.
  unfoldable pub promote_chosen : ℕ → Option String → String → Bool → Exec (Registry F) ℕ
  promote_chosen stamp none reason force = pure 1
  promote_chosen stamp (some version) reason force = do
    a ← attempt (artifact version)
    incumbent ← attempt production
    failures ← lift (check_all a served incumbent none)
    if fails failures && not force
        then pure 1
        else (promote stamp version reason (fails failures) >>= λ _. pure 0)

  unfoldable pub promote_command : ℕ → Option String → String → Bool → Exec (Registry F) ℕ
  promote_command stamp version reason force r =
      promote_chosen stamp (chosen version r) reason force r

  unfoldable pub main : (version_of : Json F → String) → Command F → Exec (Registry F) ℕ
  unfolding rollback_command
  main version_of status = pure 0
  main version_of (register_model s t loaded note) =
      register version_of s t note loaded >>= λ _. pure 0
  main version_of (promote_version stamp version reason force) =
      promote_command stamp version reason force
  main version_of (rollback_last stamp reason) = rollback_command stamp reason
