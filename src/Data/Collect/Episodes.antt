-- ===== src/Data/Collect/Episodes.antt =====
-- The loop of `main` over the episodes.
use vn_robotics.Prelude.{
  ℕ, zero, suc, ◌+◌, ◌*◌, ◌≤◌, ◌<◌, ◌%◌, ◌≡◌, sym, Bool, true, false, List, length, arith, inl,
}
use mathlib.Core.Path.{subst}
use native.Mathlib.Nat.{suc-mul, zero-mul}
use vn_robotics.Py.Errors.{Result, ok, raise}
use vn_robotics.Py.Exec.{bind_rule}
use vn_robotics.Py.Json.{Number}
use vn_robotics.Data.Collect.{Collector, Simulation, place_target_ahead, record_episode}
use vn_robotics.Data.Collect.Quiet.{Quiet, Same-refl}
use vn_robotics.Data.Collect.Frames.{Onward, Same-Onward, Onward-trans, CaptureError}
use vn_robotics.Data.Collect.Tally.{
  Counted, Counted-refl, Shot, Shot-after, Shot-trans, record_episode-Shot,
}
use vn_robotics.Data.Collect.Session.{Args, moves, record_if, record_all}
use vn_robotics.Data.Collect.Placed.{lift_rule, element_below, place_target_ahead-Quiet}

mod_below : (k : ℕ) → k % 8 < 8
mod_below k = omega arith

suc_times : (p k : ℕ) → suc p * k ≡ k + p * k
suc_times p k = omega (arith, suc-mul p k)

-- The frames that are tried when the target was placed, or was not.
abbrev tries : Bool → ℕ → ℕ
tries true frames = frames
tries false frames = 0

module _ {F : Type 0} ⦃n : Number F⦄ where
  -- So many episodes were begun, and each tried all its frames.
  abbrev pub Ran : (frames left kept : ℕ) (s : Collector F) → Result ℕ → Collector F → Type 0
  Ran frames left kept s (ok kept') s' =
      (begun : ℕ) × (begun ≤ left) × Onward s s' × Counted (begun * frames) kept kept' s s'
  Ran frames left kept s (raise e) s' = Onward s s' × CaptureError e

  Ran-after :
      (frames left kept kept' : ℕ) (b : Bool) (s t u : Collector F) (r : Result ℕ)
      → Shot (tries b frames) kept s (ok kept') t
      → Ran frames left kept' t r u
      → Ran frames (suc left) kept s r u
  Ran-after frames left kept kept' true s t u (ok m) a (p, below, on, c) =
      let (on', c') =
        Shot-trans (suc p * frames) frames (p * frames) kept kept' s t u (ok m) (suc_times p frames)
          a (on, c) in
      (suc p, omega (arith, below), on', c')
  Ran-after frames left kept kept' false s t u (ok m) a (p, below, on, c) =
      let (on', c') =
        Shot-trans (p * frames) 0 (p * frames) kept kept' s t u (ok m) (omega arith) a (on, c) in
      (p, omega (arith, below), on', c')
  Ran-after frames left kept kept' b s t u (raise e) a (on, c) = (Onward-trans s t u a.0 on, c)

  Shot-shift :
      (frames kept more : ℕ) (s t : Collector F)
      → Shot frames 0 s (ok more) t
      → Shot frames kept s (ok (kept + more)) t
  unfolding Counted
  Shot-shift frames kept more s t (on, c) = (on, (omega (arith, c.0), omega (arith, c.1)))

module _ {F : Type 0} ⦃n : Number F⦄ (sim : Simulation F) (args : Args) where
  record_if-Shot :
      (b : Bool) (episode kept : ℕ) (s : Collector F)
      → let (r, s') = record_if sim args b episode kept s in
        Shot (tries b args.frame_count) kept s r s'
  record_if-Shot false episode kept s = (Same-Onward s s (Same-refl s), Counted-refl kept s)
  record_if-Shot true episode kept s =
      let (move, found) = element_below (episode % 8) moves (mod_below episode) in
      lift_rule (Shot args.frame_count kept s) _ _ s move found (
        bind_rule (Shot args.frame_count 0 s) (Shot args.frame_count kept s)
          (record_episode sim args.world episode move.0 move.1 args.frame_count) _ s
          (record_episode-Shot sim args.world episode move.0 move.1 args.frame_count s)
          (λ more t h. Shot-shift args.frame_count kept more s t h) (λ e t h. h))

  pub record_all-Ran :
      (offsets : List (F × F)) (episode left kept : ℕ) (s : Collector F)
      → episode + left ≡ length offsets
      → let (r, s') = record_all sim args offsets episode left kept s in
        Ran args.frame_count left kept s r s'
  unfolding record_all
  record_all-Ran offsets episode zero kept s e = (
    0,
    omega arith,
    Same-Onward s s (Same-refl s),
    subst (λ k. Counted k kept kept s s) (sym (zero-mul args.frame_count)) (Counted-refl kept s),
  )
  record_all-Ran offsets episode (suc left) kept s e =
      let P = Ran args.frame_count (suc left) kept s in
      let (offset, found) = element_below episode offsets (omega (arith, e)) in
      lift_rule P _ _ s offset found (
        bind_rule (Quiet s) P (place_target_ahead sim args.world offset.0 offset.1) _ s
          (place_target_ahead-Quiet sim args.world offset.0 offset.1 s)
          (λ b t q.
            bind_rule (Shot (tries b args.frame_count) kept t) P (record_if sim args b episode kept)
              _ t (record_if-Shot b episode kept t)
              (λ kept' u h.
                Ran-after args.frame_count left kept kept' b s u _ _
                  (Shot-after (tries b args.frame_count) kept s t u (ok kept') q.0 h)
                  (record_all-Ran offsets (suc episode) left kept' u (omega (arith, e))))
              (λ x u h. (Onward-trans s t u (Same-Onward s t q.0) h.0, h.1)))
          (λ x t q. (Same-Onward s t q.0, inl q.1)))
