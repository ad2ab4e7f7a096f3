-- ===== src/Data/Collect/Written.antt =====
-- `main`: what a session leaves behind.
use vn_robotics.Prelude.{
  ℕ, ◌+◌, ◌*◌, ◌≤◌, ◌≡◌, refl, sym, ap, ◌⊎◌, inl, inr, Bool, true, false, not, Option, none, some,
  List, [], ◌++◌, length, arith, is_some, &&_iff,
}
use mathlib.Core.Path.{subst}
use vn_robotics.Py.Errors.{Result, ok, raise}
use vn_robotics.Py.Exec.{bind_rule, continue}
use vn_robotics.Py.Json.{Number, Json, null, truthy, get_or}
use vn_robotics.Data.Manifest.{Problem, no_commit, when, validate}
use vn_robotics.Data.Manifest.Build.{git_description, git_description-HasCommit}
use vn_robotics.Data.Collect.{
  Picture, Info, Collector, Simulation, fresh_collector, camera_ready, wait_ready,
}
use vn_robotics.Data.Collect.Frames.{total, IsSound, CaptureError, Same-Onward}
use vn_robotics.Data.Collect.Tally.{Counted}
use vn_robotics.Data.Collect.Session.{
  Args, Session, Outcome, target_offsets, labels_text, manifest_of, write_up, main_if, main,
}
use vn_robotics.Data.Collect.Described.{LawfulCounts, row_problems, manifest_of-validate}
use vn_robotics.Data.Collect.Placed.{length-target_offsets, Waited, wait_ready-Waited}
use vn_robotics.Data.Collect.Episodes.{Ran, record_all-Ran}

is_some-some : {A : Type 0} (o : Option A) → is_some o ≡ true → (a : A) × (o ≡ some a)
is_some-some none h = absurd (ground (arith, h))
is_some-some (some a) h = (a, refl)

module _ {F : Type 0} ⦃n : Number F⦄ (session : Session F) (args : Args) where
  -- Nothing was recorded and nothing was written.
  pub record IsUnstarted (o : Outcome F) (s : Collector F) : Type 0 where
    pub code_one : o.code ≡ 1
    pub no_rows : s.rows ≡ []
    pub no_labels : s.labels_file ≡ none
    pub no_manifest : s.manifest_file ≡ none

  -- The rows were written, and a manifest whose only problems are a commit that is missing and a
  -- recording without rows. Each episode that was begun tried all its frames.
  pub record IsFinished (o : Outcome F) (s : Collector F) : Type 0 where
    pub code_zero : o.code ≡ 0
    pub labels_written : s.labels_file ≡ some (labels_text session s.rows)
    pub doc : Json F
    pub manifest_written : s.manifest_file ≡ some doc
    pub validated : validate doc ≡ ok o.problems
    pub commit : Json F
    pub commit_read : get_or "commit" null (git_description session.checkout args.repo) ≡ ok commit
    pub problems_are : o.problems ≡ when (not (truthy commit)) no_commit ++ row_problems s.rows
    pub begun : ℕ
    pub begun_below : begun ≤ args.episode_count
    pub tally : total s.rejected + length s.rows ≡ begun * args.frame_count

  abbrev pub Ended : Result (Outcome F) → Collector F → Type 0
  Ended (ok o) s = IsSound s × (IsUnstarted o s ⊎ IsFinished o s)
  Ended (raise e) s = IsSound s × CaptureError e

module _ {F : Type 0} ⦃n : Number F⦄ (law : LawfulCounts n) (sim : Simulation F)
    (session : Session F) (args : Args) where
  write_up_returns :
      (kept : ℕ) (s : Collector F) (info : Info F) (msg : Picture) (problems : List (Problem F))
      → s.camera_info ≡ some info
      → s.picture ≡ some msg
      → validate (manifest_of session args kept s.rows info msg) ≡ ok problems
      → write_up sim session args kept s ≡ (
        ok (record { code = 0; problems = problems }),
        record s {
          labels_file = some (labels_text session s.rows);
          manifest_file = some (manifest_of session args kept s.rows info msg);
        },
      )
  unfolding write_up
  write_up_returns kept s info msg problems c p v = rw (c, p, v) refl

  write_up-Ended :
      (kept begun : ℕ) (s : Collector F)
      → IsSound s
      → camera_ready s ≡ true
      → kept ≡ length s.rows
      → begun ≤ args.episode_count
      → total s.rejected + length s.rows ≡ begun * args.frame_count
      → let (r, s') = write_up sim session args kept s in Ended session args r s'
  write_up-Ended kept begun s sound ready e below tally =
      let (p, c) = (&&_iff (is_some s.picture) (is_some s.camera_info)).0 ready in
      let (msg, has_msg) = is_some-some s.picture p in
      let (info, has_info) = is_some-some s.camera_info c in
      let (commit, read) = git_description-HasCommit session.checkout args.repo in
      let v = manifest_of-validate law session args s.rows info msg commit read in
      let problems = when (not (truthy commit)) no_commit ++ row_problems s.rows in
      let v' =
        subst (λ k. validate (manifest_of session args k s.rows info msg) ≡ ok problems) (sym e)
          v in
      subst (λ q. Ended session args q.0 q.1)
        (sym (write_up_returns kept s info msg _ has_info has_msg v'))
        (
          record { ahead = sound.ahead; drawn = sound.drawn; stopped = sound.stopped },
          inr (record {
            code_zero = refl;
            labels_written = refl;
            doc = manifest_of session args kept s.rows info msg;
            manifest_written = refl;
            validated = v';
            commit = commit;
            commit_read = read;
            problems_are = refl;
            begun = begun;
            begun_below = below;
            tally = tally;
          }),
        )

  -- The rows of a session that ran are those it kept.
  Ran-Ended :
      (s u : Collector F) (r : Result ℕ)
      → IsSound s
      → camera_ready s ≡ true
      → s.rows ≡ []
      → s.rejected ≡ []
      → Ran args.frame_count args.episode_count 0 s r u
      → let (r', s') = continue r (write_up sim session args) u in Ended session args r' s'
  unfolding Counted
  Ran-Ended s u (raise e) sound ready rows rejected (on, failed) = (on.sound sound, failed)
  Ran-Ended s u (ok kept) sound ready rows rejected (begun, below, on, (c, d)) =
      write_up-Ended kept begun u (on.sound sound) (on.ready ready)
        (omega (arith, c, ap length rows)) below
        (omega (arith, c, d, ap total rejected, ap length rows))

  -- A session, from a node that has just started, either raises a ValueError, or the error of cv2
  -- on
  -- an image that it cannot write, or returns an exit code. With the code 1 it has neither rows
  -- nor files. With the code 0 it has written its rows,
  -- and a manifest in which the validation finds a commit that is missing and a recording without
  -- rows, and nothing else; the frames that were kept and those that were counted as dropped are
  -- together the frames of the episodes that were begun. In every case each row is a point in front
  -- of the camera, `cv2.imwrite` has returned once for each row with the row's file, whether it
  -- wrote
  -- the file or not, and the last command stops the base. Numbers are such
  -- that
  -- one equals itself, zero is at most zero and no other whole number is.
  pub main-Ended : let (r, s') = main sim session args fresh_collector in Ended session args r s'
  unfolding main
  main-Ended =
      bind_rule (Waited fresh_collector) (Ended session args) (wait_ready sim args.world)
        (main_if sim session args) fresh_collector
        (wait_ready-Waited sim args.world fresh_collector) after_wait (λ e t h. absurd h)
    where
      fresh-IsSound : IsSound (fresh_collector {F = F})
      fresh-IsSound = record {
        ahead = tt;
        drawn = refl;
        stopped = λ c h. absurd (ground (arith, h));
      }

      after_wait :
          (b : Bool) (t : Collector F)
          → Waited fresh_collector (ok b) t
          → let (r, s') = main_if sim session args b t in Ended session args r s'
      after_wait false t (a, h) = (
        (Same-Onward fresh_collector t a).sound fresh-IsSound,
        inl (record {
          code_one = refl;
          no_rows = a.kept.rows_same;
          no_labels = a.kept.labels_same;
          no_manifest = a.kept.manifest_same;
        }),
      )
      after_wait true t (a, h) =
          Ran-Ended t _ _ ((Same-Onward fresh_collector t a).sound fresh-IsSound) (h refl)
            a.kept.rows_same a.kept.rejected_same
            (record_all-Ran sim args (target_offsets session args.episode_count args.seed) 0
              args.episode_count 0 t
              (omega (arith, length-target_offsets session args.episode_count args.seed)))
