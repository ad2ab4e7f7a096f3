-- ===== src/Data/Collect/Frames.antt =====
-- What an episode adds to the recording.
use vn_robotics.Prelude.{
  ℕ, suc, ◌+◌, ◌*◌, ◌≡◌, refl, sym, ◌∙◌, ap, Bool, true, false, String, Option, none, some, List,
  [], ◌∷◌, ◌++◌, map, length, All, All-append, ◌==◌, string_eq, number_eq, arith, if◌then◌else◌,
  Bool-cases, ◌⊎◌, inl, inr,
}
use mathlib.Core.Path.{subst}
use vn_robotics.Py.Errors.{Exn, Result, ok, raise, value_error, cv_error}
use vn_robotics.Py.Exec.{lift, bind_rule, ◌>>=◌}
use vn_robotics.Py.Json.{Number}
use vn_robotics.Data.Dataset.{Frame}
use vn_robotics.Data.Duplicates.{tally_one}
use vn_robotics.Data.Collect.{
  Picture, Drawing, Collector, Simulation, refuse, camera_ready, as_array, label_now, row_for,
  drawing_for, keep_written, keep_frame, keep_label, capture_from, capture,
}
use vn_robotics.Data.Collect.Quiet.{
  OnlyValueError, IsStopped, Same, Quiet, Same-refl, Same-trans, label_now-Quiet,
}

-- The sum of the counts.
abbrev pub total : List (String × ℕ) → ℕ
total [] = 0
total ((reason, k) ∷ rest) = k + total rest

pub total-tally_one :
    (reason : String) (counts : List (String × ℕ))
    → total (tally_one reason counts) ≡ suc (total counts)
unfolding tally_one
total-tally_one reason [] = refl
total-tally_one reason ((k, m) ∷ rest) = ground (arith, total-tally_one reason rest)

abbrev pub path_of : Drawing × Bool → String
path_of (d, written) = d.path

-- A ValueError, or the error of cv2 on an image that it cannot write.
abbrev pub CaptureError : Exn → Type 0
CaptureError e = (e ≡ value_error) ⊎ (e ≡ cv_error)

map-snoc {ℓ κ} :
    {A : Type ℓ} {B : Type κ} (f : A → B) (xs : List A) (a : A)
    → map f (xs ++ a ∷ []) ≡ map f xs ++ f a ∷ []
map-snoc f [] a = refl
map-snoc f (x ∷ xs) a = ap (λ l. f x ∷ l) (map-snoc f xs a)

as_array-OnlyValueError : (msg : Picture) → OnlyValueError (as_array msg)
as_array-OnlyValueError msg = elim (Bool-cases (length msg.bytes == msg.height * msg.width * 3)) [
  | inl h ↦ rw h tt
  | inr h ↦ rw h refl
]

module _ {F : Type 0} ⦃n : Number F⦄ where
  abbrev pub image_of : Frame F → String
  image_of f = f.image

  -- The label is a point in front of the camera.
  pub record IsAhead (f : Frame F) : Type 0 where
    pub x : F
    pub y : F
    pub z : F
    pub label_is : f.label ≡ x ∷ y ∷ z ∷ []
    pub in_front : n.le z (n.literal 0 0) ≡ false

  -- Every row is a point in front of the camera, `cv2.imwrite` has returned once for each row, in
  -- their order and with the row's file, and the base stands still.
  pub record IsSound (s : Collector F) : Type 0 where
    pub ahead : All IsAhead s.rows
    pub drawn : map path_of s.drawings ≡ map image_of s.rows
    pub stopped : IsStopped s.commands

  -- What was sound stays sound, and what is ready stays ready.
  pub record Onward (s s' : Collector F) : Type 0 where
    pub sound : IsSound s → IsSound s'
    pub ready : camera_ready s ≡ true → camera_ready s' ≡ true

  pub Onward-trans : (s t u : Collector F) → Onward s t → Onward t u → Onward s u
  Onward-trans s t u a b = record {
    sound = λ h. b.sound (a.sound h);
    ready = λ h. b.ready (a.ready h);
  }

  pub Same-Onward : (s s' : Collector F) → Same s s' → Onward s s'
  Same-Onward s s' a = record {
    sound = λ h. record {
      ahead = subst (All IsAhead) (sym a.kept.rows_same) h.ahead;
      drawn =
          ap (map path_of) a.kept.drawings_same
          ∙ h.drawn
          ∙ ap (map image_of) (sym a.kept.rows_same);
      stopped = a.still_stopped h.stopped;
    };
    ready = a.kept.still_ready;
  }

  -- One frame more, or none.
  pub data Captured (s : Collector F) : Result Bool → Collector F → Type 0 where
    taken :
        (s' : Collector F) (f : Frame F)
        → s'.rows ≡ s.rows ++ f ∷ []
        → s'.rejected ≡ s.rejected
        → Onward s s'
        → Captured s (ok true) s'
    not_taken : (s' : Collector F) → Same s s' → Captured s (ok false) s'
    failed : (s' : Collector F) (e : Exn) → Same s s' → CaptureError e → Captured s (raise e) s'

  -- What follows the call of `cv2.imwrite`.
  keep_written-Captured :
      (e i turn : ℕ) (msg : Picture) (x y z : F) (array : List ℕ) (written : Option Bool)
      (s : Collector F)
      → n.le z (n.literal 0 0) ≡ false
      → let (r, s') =
          keep_written e i msg
            (x, y, z)
            (drawing_for e i msg array)
            written
            (record s { turn = turn }) in
        Captured s r s'
  keep_written-Captured e i turn msg x y z array none s front =
      failed _ cv_error
        (record {
          kept = record {
            rows_same = refl;
            rejected_same = refl;
            drawings_same = refl;
            labels_same = refl;
            manifest_same = refl;
            still_ready = λ h. h;
          };
          still_stopped = λ h. h;
        })
        (inr refl)
  keep_written-Captured e i turn msg x y z array (some written) s front =
      let row = row_for e i msg (x, y, z) in
      let row_ahead : IsAhead row = record {
        x = x;
        y = y;
        z = z;
        label_is = refl;
        in_front = front;
      } in
      taken _ row refl refl (record {
        sound = λ h. record {
          ahead = All-append IsAhead s.rows (row ∷ []) h.ahead (row_ahead, tt);
          drawn =
              map-snoc path_of s.drawings _
              ∙ ap (λ l. l ++ row.image ∷ []) h.drawn
              ∙ sym (map-snoc image_of s.rows row);
          stopped = h.stopped;
        };
        ready = λ h. h;
      })

  keep_array-Captured :
      (write : ℕ → Drawing → Option Bool) (e i : ℕ) (msg : Picture) (x y z : F) (s : Collector F)
      (r : Result (List ℕ))
      → n.le z (n.literal 0 0) ≡ false
      → OnlyValueError r
      → let (r', s') = (lift r >>= keep_frame write e i msg (x, y, z)) s in Captured s r' s'
  keep_array-Captured write e i msg x y z s (ok array) front h =
      keep_written-Captured e i (suc s.turn) msg x y z array
        (write s.turn (drawing_for e i msg array)) s front
  keep_array-Captured write e i msg x y z s (raise d) front h = failed s d (Same-refl s) (inl h)

  refuse-Captured :
      (reason : String) (s : Collector F) → let (r, s') = refuse reason s in Captured s r s'
  refuse-Captured reason s = not_taken _ (record {
    kept = record {
      rows_same = refl;
      rejected_same = refl;
      drawings_same = refl;
      labels_same = refl;
      manifest_same = refl;
      still_ready = λ h. h;
    };
    still_stopped = λ h. h;
  })

  choose-Captured :
      (write : ℕ → Drawing → Option Bool) (b : Bool) (e i : ℕ) (msg : Picture) (x y z : F)
      (s : Collector F)
      → n.le z (n.literal 0 0) ≡ b
      → let (r, s') =
          (if b
              then refuse "target behind the camera"
              else lift (as_array msg) >>= keep_frame write e i msg (x, y, z))
            s in
        Captured s r s'
  choose-Captured write true e i msg x y z s h = refuse-Captured _ s
  choose-Captured write false e i msg x y z s h =
      keep_array-Captured write e i msg x y z s (as_array msg) h (as_array-OnlyValueError msg)

  keep_label-Captured :
      (write : ℕ → Drawing → Option Bool) (e i : ℕ) (msg : Picture) (label : Option (F × F × F))
      (s : Collector F)
      → let (r, s') = keep_label write e i msg label s in Captured s r s'
  keep_label-Captured write e i msg none s = refuse-Captured _ s
  keep_label-Captured write e i msg (some (x, y, z)) s =
      choose-Captured write _ e i msg x y z s refl

  -- What follows a quiet call.
  pub Captured-after :
      (s t u : Collector F) (r : Result Bool) → Same s t → Captured t r u → Captured s r u
  Captured-after s t _ _ a (taken u f rows rejected on) =
      taken u f (rows ∙ ap (λ l. l ++ f ∷ []) a.kept.rows_same) (rejected ∙ a.kept.rejected_same)
        (Onward-trans s t u (Same-Onward s t a) on)
  Captured-after s t _ _ a (not_taken u b) = not_taken u (Same-trans s t u a b)
  Captured-after s t _ _ a (failed u e b c) = failed u e (Same-trans s t u a b) c

module _ {F : Type 0} ⦃n : Number F⦄ (sim : Simulation F) (world : String) where
  capture_from-Captured :
      (e i : ℕ) (picture : Option Picture) (s : Collector F)
      → let (r, s') = capture_from sim world e i picture s in Captured s r s'
  capture_from-Captured e i none s = refuse-Captured _ s
  capture_from-Captured e i (some msg) s =
      bind_rule (Quiet s) (Captured s) (label_now sim world msg.frame_id)
        (keep_label sim.imwrite e i msg) s (label_now-Quiet sim world msg.frame_id s)
        (λ label t q. Captured-after s t _ _ q.0 (keep_label-Captured sim.imwrite e i msg label t))
        (λ d t q. failed t d q.0 (inl q.1))

  pub capture-Captured :
      (e i : ℕ) (s : Collector F) → let (r, s') = capture sim world e i s in Captured s r s'
  unfolding capture
  capture-Captured e i s = capture_from-Captured e i s.picture s
