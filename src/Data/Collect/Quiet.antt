-- ===== src/Data/Collect/Quiet.antt =====
-- What a reading, a wait and a drive leave of the recorder.
use vn_robotics.Prelude.{
  ℕ, zero, suc, ◌≡◌, refl, ◌∙◌, Bool, true, false, String, Option, none, some, List, [], ◌∷◌, ◌++◌,
  last?, last?-snoc, arith, if◌then◌else◌,
}
use Prim.Native.String.{◌++◌ as ◌<>◌}
use vn_robotics.Py.Errors.{Result, ok, raise, value_error, or_raise, ◌>>=◌ as ◌>>>◌}
use vn_robotics.Py.Exec.{Exec, bind_rule, ◌>>=◌}
use vn_robotics.Py.Json.{Number}
use vn_robotics.Py.Text.{strip, after, splitlines}
use vn_robotics.Data.Poses.{Pose, Angles, field_from, pose_in, pose_if_seen, read_pose, block_of}
use vn_robotics.Data.Collect.{
  Arrival, image_arrived, info_arrived, Collector, Simulation, receive, receive_all, camera_ready,
  spin, publish_times, drive, robot_pose, target_pose, locate, label_now,
}

-- The only exception is a ValueError.
abbrev pub OnlyValueError {ℓ} : {A : Type ℓ} → Result A → Type 0
OnlyValueError (ok a) = Unit
OnlyValueError (raise e) = e ≡ value_error

-- There is no exception.
abbrev pub Returns {ℓ} : {A : Type ℓ} → Result A → Type 0
Returns (ok a) = Unit
Returns (raise e) = ⊥

module _ {A B : Type 0} where
  pub OnlyValueError-bind :
      (r : Result A) (f : A → Result B)
      → OnlyValueError r
      → ((a : A) → OnlyValueError (f a))
      → OnlyValueError (r >>> f)
  OnlyValueError-bind (ok a) f p h = h a
  OnlyValueError-bind (raise e) f p h = p

OnlyValueError-or_raise : {A : Type 0} (o : Option A) → OnlyValueError (or_raise value_error o)
OnlyValueError-or_raise none = refl
OnlyValueError-or_raise (some a) = tt

OnlyValueError-if :
    {A : Type 0} (b : Bool) (r t : Result A)
    → OnlyValueError r
    → OnlyValueError t
    → OnlyValueError (if b then r else t)
OnlyValueError-if true r t p q = p
OnlyValueError-if false r t p q = q

module _ {F : Type 0} ⦃n : Number F⦄ (angles : Angles F) where
  field_from-OnlyValueError :
      (section key : String) (lines : List String) (inside : Bool)
      → OnlyValueError (field_from angles section key lines inside)
  unfolding field_from
  field_from-OnlyValueError section key [] inside = tt
  field_from-OnlyValueError section key (l ∷ ls) inside =
      OnlyValueError-if _ _ _ (OnlyValueError-or_raise (angles.float_text (after 58 (strip l))))
        (field_from-OnlyValueError section key ls _)

  pose_in-OnlyValueError : (block : List String) → OnlyValueError (pose_in angles block)
  unfolding pose_in
  pose_in-OnlyValueError block = OnlyValueError-bind _ _ (reads "orientation" "z") λ qz.
      OnlyValueError-bind _ _ (reads "orientation" "w") λ qw.
        OnlyValueError-bind _ _ (reads "position" "x") λ x.
          OnlyValueError-bind _ _ (reads "position" "y")
            λ y. OnlyValueError-bind _ _ (reads "position" "z") λ z. tt
    where
      reads : (section key : String) → OnlyValueError (field_from angles section key block false)
      reads section key = field_from-OnlyValueError section key block false

  pose_if_seen-OnlyValueError :
      (found : Bool × List String) → OnlyValueError (pose_if_seen angles found)
  pose_if_seen-OnlyValueError (true, block) = pose_in-OnlyValueError block
  pose_if_seen-OnlyValueError (false, block) = tt

  pub read_pose-OnlyValueError :
      (out : Option String) (model : String) → OnlyValueError (read_pose angles out model)
  unfolding read_pose
  read_pose-OnlyValueError none model = tt
  read_pose-OnlyValueError (some out) model =
      pose_if_seen-OnlyValueError (block_of ("\"" <> (model <> "\"")) (splitlines out) false)

module _ {F : Type 0} ⦃n : Number F⦄ where
  abbrev pub halt : F × F
  halt = (n.literal 0 0, n.literal 0 0)

  -- The last command, if there is one, stops the base.
  abbrev pub IsStopped : List (F × F) → Type 0
  IsStopped cs = (c : F × F) → last? cs ≡ some c → c ≡ halt

  -- The same recording, and what is ready stays ready.
  pub record Kept (s s' : Collector F) : Type 0 where
    pub rows_same : s'.rows ≡ s.rows
    pub rejected_same : s'.rejected ≡ s.rejected
    pub drawings_same : s'.drawings ≡ s.drawings
    pub labels_same : s'.labels_file ≡ s.labels_file
    pub manifest_same : s'.manifest_file ≡ s.manifest_file
    pub still_ready : camera_ready s ≡ true → camera_ready s' ≡ true

  -- The same recording, and a base that stood still stands still.
  pub record Same (s s' : Collector F) : Type 0 where
    pub kept : Kept s s'
    pub still_stopped : IsStopped s.commands → IsStopped s'.commands

  pub Kept-refl : (s : Collector F) → Kept s s
  Kept-refl s = record {
    rows_same = refl;
    rejected_same = refl;
    drawings_same = refl;
    labels_same = refl;
    manifest_same = refl;
    still_ready = λ h. h;
  }

  pub Kept-trans : (s t u : Collector F) → Kept s t → Kept t u → Kept s u
  Kept-trans s t u a b = record {
    rows_same = b.rows_same ∙ a.rows_same;
    rejected_same = b.rejected_same ∙ a.rejected_same;
    drawings_same = b.drawings_same ∙ a.drawings_same;
    labels_same = b.labels_same ∙ a.labels_same;
    manifest_same = b.manifest_same ∙ a.manifest_same;
    still_ready = λ h. b.still_ready (a.still_ready h);
  }

  pub Same-trans : (s t u : Collector F) → Same s t → Same t u → Same s u
  Same-trans s t u a b = record {
    kept = Kept-trans s t u a.kept b.kept;
    still_stopped = λ h. b.still_stopped (a.still_stopped h);
  }

  pub Same-refl : (s : Collector F) → Same s s
  Same-refl s = record { kept = Kept-refl s; still_stopped = λ h. h }

  receive-Same : (a : Arrival F) (s : Collector F) → Same s (receive a s)
  receive-Same (image_arrived m) s = record {
    kept = record {
      rows_same = refl;
      rejected_same = refl;
      drawings_same = refl;
      labels_same = refl;
      manifest_same = refl;
      still_ready = λ h. ground (arith, h);
    };
    still_stopped = λ h. h;
  }
  receive-Same (info_arrived i) s = record {
    kept = record {
      rows_same = refl;
      rejected_same = refl;
      drawings_same = refl;
      labels_same = refl;
      manifest_same = refl;
      still_ready = λ h. ground (arith, h);
    };
    still_stopped = λ h. h;
  }

  receive_all-Same : (xs : List (Arrival F)) (s : Collector F) → Same s (receive_all xs s)
  unfolding receive_all
  receive_all-Same [] s = Same-refl s
  receive_all-Same (a ∷ xs) s =
      Same-trans s (receive a s) _ (receive-Same a s) (receive_all-Same xs (receive a s))

  -- The turn is no part of the recording.
  pub Same-turn : (s t : Collector F) (k : ℕ) → Same s t → Same s (record t { turn = k })
  Same-turn s t k a = record {
    kept = record {
      rows_same = a.kept.rows_same;
      rejected_same = a.kept.rejected_same;
      drawings_same = a.kept.drawings_same;
      labels_same = a.kept.labels_same;
      manifest_same = a.kept.manifest_same;
      still_ready = a.kept.still_ready;
    };
    still_stopped = a.still_stopped;
  }

  -- A call that leaves the recording alone and raises no other exception than a ValueError.
  abbrev pub Quiet : {A : Type 0} → Collector F → Result A → Collector F → Type 0
  Quiet s r s' = Same s s' × OnlyValueError r

module _ {F : Type 0} ⦃n : Number F⦄ (sim : Simulation F) (world : String) where
  pub spin-Same : (s : Collector F) → Same s (spin sim world s).1
  unfolding spin
  spin-Same s = Same-turn s _ _ (receive_all-Same (sim.arrivals s.turn) s)

  pub turn-Same : (s : Collector F) → Same s (record s { turn = suc s.turn })
  turn-Same s = Same-turn s s _ (Same-refl s)

  publish_times-Kept :
      (k : ℕ) (c : F × F) (s : Collector F) → Kept s (publish_times sim world k c s).1
  unfolding publish_times
  publish_times-Kept zero c s = Kept-refl s
  publish_times-Kept (suc k) c s =
      let t = record s { commands = s.commands ++ c ∷ [] } in
      let first : Kept s t = record {
        rows_same = refl;
        rejected_same = refl;
        drawings_same = refl;
        labels_same = refl;
        manifest_same = refl;
        still_ready = λ h. h;
      } in
      Kept-trans s t _ first
        (Kept-trans t (spin sim world t).1 _ (spin-Same t).kept (publish_times-Kept k c _))

  snoc-IsStopped : (cs : List (F × F)) → IsStopped (cs ++ halt ∷ [])
  snoc-IsStopped cs c h = ground (arith, last?-snoc cs halt)

  publish_times-IsStopped :
      (k : ℕ) (s : Collector F) → IsStopped (publish_times sim world (suc k) halt s).1.commands
  unfolding publish_times
  publish_times-IsStopped zero s = (spin-Same _).still_stopped (snoc-IsStopped s.commands)
  publish_times-IsStopped (suc k) s = publish_times-IsStopped k _

  publish_times-Returns :
      (k : ℕ) (c : F × F) (s : Collector F) → Returns (publish_times sim world k c s).0
  unfolding publish_times
  publish_times-Returns zero c s = tt
  publish_times-Returns (suc k) c s = publish_times-Returns k c _

  abbrev KeptOn : Collector F → Result {0} Unit → Collector F → Type 0
  KeptOn s r t = Kept s t × Returns r

  abbrev StoppedOn : Collector F → Result {0} Unit → Collector F → Type 0
  StoppedOn s r t = (Kept s t × IsStopped t.commands) × Returns r

  -- A drive ends with the base stopped.
  pub drive-Quiet :
      (linear angular : F) (s : Collector F)
      → let (r, s') = drive sim world linear angular s in Quiet s r s'
  unfolding drive spin
  drive-Quiet linear angular s =
      bind_rule (KeptOn s) (Quiet s) (publish_times sim world (sim.rounds s.turn) (linear, angular))
        _ s (publish_times-Kept _ _ s, publish_times-Returns _ _ s)
        (λ u t k.
          bind_rule (StoppedOn s) (Quiet s) (publish_times sim world 10 halt) _ t
            (
              (Kept-trans s t _ k.0 (publish_times-Kept 10 halt t), publish_times-IsStopped 9 t),
              publish_times-Returns 10 halt t,
            )
            (λ v w q. (
              record {
                kept = Kept-trans s w _ q.0.0 (spin-Same w).kept;
                still_stopped = λ h. (spin-Same w).still_stopped q.0.1;
              },
              tt,
            ))
            (λ e w q. absurd q.1))
        (λ e t k. absurd k.1)

  pub robot_pose-Quiet : (s : Collector F) → let (r, s') = robot_pose sim world s in Quiet s r s'
  unfolding robot_pose
  robot_pose-Quiet s = (turn-Same s, read_pose-OnlyValueError sim.angles _ _)

  target_pose-Quiet : (s : Collector F) → let (r, s') = target_pose sim world s in Quiet s r s'
  unfolding target_pose
  target_pose-Quiet s = (turn-Same s, read_pose-OnlyValueError sim.angles _ _)

  locate-Quiet :
      (frame : String) (robot target : Option (Pose F)) (s : Collector F)
      → let (r, s') = locate sim world frame robot target s in Quiet s r s'
  locate-Quiet frame none target s = (Same-refl s, tt)
  locate-Quiet frame (some robot) none s = (Same-refl s, tt)
  locate-Quiet frame (some robot) (some target) s = (turn-Same s, tt)

  -- Two calls that leave the recording alone, one after the other.
  pub bind-Quiet :
      {A B : Type 0} (m : Exec (Collector F) A) (f : A → Exec (Collector F) B) (s : Collector F)
      → Quiet s (m s).0 (m s).1
      → ((a : A) (t : Collector F) → Quiet t (f a t).0 (f a t).1)
      → Quiet s ((m >>= f) s).0 ((m >>= f) s).1
  bind-Quiet m f s p h =
      bind_rule (Quiet s) (Quiet s) m f s p (λ a t q. (Same-trans s t _ q.0 (h a t).0, (h a t).1))
        (λ e t q. q)

  pub label_now-Quiet :
      (frame : String) (s : Collector F) → let (r, s') = label_now sim world frame s in Quiet s r s'
  unfolding label_now
  label_now-Quiet frame s = bind-Quiet (robot_pose sim world) _ s (robot_pose-Quiet s) λ robot t.
      bind-Quiet (target_pose sim world) _ t (target_pose-Quiet t)
        λ target u. locate-Quiet frame robot target u
