-- ===== src/Data/Collect/Tally.antt =====
-- `record_episode`: what was kept and what was dropped.
use vn_robotics.Prelude.{
  ℕ, zero, suc, ◌+◌, ◌≡◌, refl, ◌∙◌, ap, Bool, true, false, [], ◌∷◌, length, length-append, arith,
  String, inl,
}
use vn_robotics.Py.Errors.{Exn, Result, ok, raise}
use vn_robotics.Py.Exec.{bind_rule}
use vn_robotics.Py.Json.{Number}
use vn_robotics.Data.Collect.{
  Collector, Simulation, note_rejected, count_frame, spin, capture, move_on, shoot, record_episode,
}
use vn_robotics.Data.Collect.Quiet.{Same, Quiet, Same-refl, spin-Same, drive-Quiet}
use vn_robotics.Data.Collect.Frames.{
  total, total-tally_one, Onward, Onward-trans, Same-Onward, Captured, taken, not_taken, failed,
  Captured-after, CaptureError, capture-Captured,
}

module _ {F : Type 0} ⦃n : Number F⦄ where
  -- From s, a number of frames was tried: those kept are rows, and the others are counted.
  unfoldable pub Counted : (frames kept kept' : ℕ) (s s' : Collector F) → Type 0
  Counted frames kept kept' s s' =
      (length s'.rows + kept ≡ length s.rows + kept')
      × (total s'.rejected + kept' ≡ total s.rejected + kept + frames)

  abbrev pub Shot : (frames kept : ℕ) (s : Collector F) → Result ℕ → Collector F → Type 0
  Shot frames kept s (ok kept') s' = Onward s s' × Counted frames kept kept' s s'
  Shot frames kept s (raise e) s' = Onward s s' × CaptureError e

  pub Counted-refl : (kept : ℕ) (s : Collector F) → Counted 0 kept kept s s
  unfolding Counted
  Counted-refl kept s = (refl, omega arith)

  Counted-trans :
      (h i j k l m : ℕ) (s t u : Collector F)
      → h ≡ i + j
      → Counted i k l s t
      → Counted j l m t u
      → Counted h k m s u
  unfolding Counted
  Counted-trans h i j k l m s t u e (a, b) (c, d) = (omega (arith, a, c), omega (arith, b, d, e))

  Same-Counted : (kept : ℕ) (s t : Collector F) → Same s t → Counted 0 kept kept s t
  unfolding Counted
  Same-Counted kept s t a = (
    ap (λ rows. length rows + kept) a.kept.rows_same,
    ap (λ counts. total counts + kept) a.kept.rejected_same ∙ omega arith,
  )

  note_rejected-Onward : (s : Collector F) → Onward s (note_rejected s)
  note_rejected-Onward s = record {
    sound = λ h. record { ahead = h.ahead; drawn = h.drawn; stopped = h.stopped };
    ready = λ h. h;
  }

  -- A frame and its count.
  count_frame-Shot :
      (kept : ℕ) (s t : Collector F) (b : Bool)
      → Captured s (ok b) t
      → let (r, s') = count_frame kept b t in Shot 1 kept s r s'
  unfolding Counted
  count_frame-Shot kept s t true (taken _ f rows rejected on) = (
    on,
    (
      ap (λ l. length l + kept) rows ∙ omega (arith, length-append s.rows (f ∷ [])),
      ap (λ c. total c + suc kept) rejected ∙ omega arith,
    ),
  )
  count_frame-Shot kept s t false (not_taken _ a) = (
    Onward-trans s t _ (Same-Onward s t a) (note_rejected-Onward t),
    (
      ap (λ l. length l + kept) a.kept.rows_same,
      omega (arith, total-tally_one t.reject_reason t.rejected, ap total a.kept.rejected_same),
    ),
  )

  pub Shot-trans :
      (h i j k l : ℕ) (s t u : Collector F) (r : Result ℕ)
      → h ≡ i + j
      → Shot i k s (ok l) t
      → Shot j l t r u
      → Shot h k s r u
  Shot-trans h i j k l s t u (ok m) e (a, b) (c, d) =
      (Onward-trans s t u a c, Counted-trans h i j k l m s t u e b d)
  Shot-trans h i j k l s t u (raise x) e (a, b) (c, d) = (Onward-trans s t u a c, d)

  pub Shot-after :
      (frames kept : ℕ) (s t u : Collector F) (r : Result ℕ)
      → Same s t
      → Shot frames kept t r u
      → Shot frames kept s r u
  Shot-after frames kept s t u r a h =
      Shot-trans frames 0 frames kept kept s t u r (omega arith)
        (Same-Onward s t a, Same-Counted kept s t a) h

module _ {F : Type 0} ⦃n : Number F⦄ (sim : Simulation F) (world : String) where
  move_on-Quiet :
      (index : ℕ) (linear angular : F) (s : Collector F)
      → let (r, s') = move_on sim world index linear angular s in Quiet s r s'
  move_on-Quiet zero linear angular s = (Same-refl s, tt)
  move_on-Quiet (suc index) linear angular s = drive-Quiet sim world linear angular s

  Captured-Shot :
      (frames kept : ℕ) (s t : Collector F) (e : Exn)
      → Captured s (raise e) t
      → Shot frames kept s (raise e) t
  Captured-Shot frames kept s t e (failed _ _ a c) = (Same-Onward s t a, c)

  shoot-Shot :
      (episode : ℕ) (linear angular : F) (index left kept : ℕ) (s : Collector F)
      → let (r, s') = shoot sim world episode linear angular index left kept s in
        Shot left kept s r s'
  unfolding shoot
  shoot-Shot episode linear angular index zero kept s =
      (Same-Onward s s (Same-refl s), Counted-refl kept s)
  shoot-Shot episode linear angular index (suc left) kept s =
      bind_rule (Quiet s) (Shot (suc left) kept s) (move_on sim world index linear angular) _ s
        (move_on-Quiet index linear angular s)
        (λ u t q.
          bind_rule (Captured t) (Shot (suc left) kept s) (capture sim world episode index) _ t
            (capture-Captured sim world episode index t)
            (λ b v c.
              bind_rule (Shot 1 kept s) (Shot (suc left) kept s) (count_frame kept b) _ v
                (count_frame-Shot kept s v b (Captured-after s t v _ q.0 c))
                (λ kept' w h.
                  Shot-trans (suc left) 1 left kept kept' s w _ _ (omega arith) h
                    (shoot-Shot episode linear angular (suc index) left kept' w))
                (λ e w h. h))
            (λ e v c. Captured-Shot (suc left) kept s v e (Captured-after s t v _ q.0 c)))
        (λ e t q. (Same-Onward s t q.0, inl q.1))

  -- From any state, an episode of a number of frames either raises a ValueError or cv2's error, or
  -- returns how
  -- many
  -- frames it kept: that many rows are new, and the counts of the reasons grew by all the others.
  -- Either way, if before it every row was a point in front of the camera, `cv2.imwrite` had
  -- returned for each and the base stood still, so it is after it.
  pub record_episode-Shot :
      (episode : ℕ) (linear angular : F) (frames : ℕ) (s : Collector F)
      → let (r, s') = record_episode sim world episode linear angular frames s in
        Shot frames 0 s r s'
  unfolding record_episode spin
  record_episode-Shot episode linear angular frames s =
      let t = (spin sim world s).1 in
      let waited = spin-Same sim world s in
      let shot = shoot-Shot episode linear angular 0 frames 0 t in
      Shot-after frames 0 s t _ _ waited shot
