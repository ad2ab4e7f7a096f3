-- ===== src/Data/Collect/Placed.antt =====
-- Placing the target, waiting for the camera, and reading from a list leave the recording alone.
use vn_robotics.Prelude.{
  ℕ, zero, suc, ◌<◌, ◌≡◌, refl, sym, ap, inl, inr, Bool, true, false, String, Option, none, some,
  List, [], ◌∷◌, length, arith, Bool-cases,
}
use mathlib.Core.Path.{subst}
use vn_robotics.Py.Errors.{Result, ok, raise}
use vn_robotics.Py.Exec.{Exec, lift, continue, ◌>>=◌}
use vn_robotics.Py.Json.{Number}
use vn_robotics.Data.Poses.{Pose}
use vn_robotics.Data.Collect.{
  Collector, Simulation, camera_ready, spin, wait_rounds, wait_ready, robot_pose, place_target,
  place_from, settle_if, place_target_ahead,
}
use vn_robotics.Data.Collect.Quiet.{
  Same, Quiet, Same-refl, Same-trans, turn-Same, spin-Same, bind-Quiet, robot_pose-Quiet,
}
use vn_robotics.Data.Collect.Session.{Session, element, offsets_from, target_offsets}

module _ {S A B : Type 0} (Q : Result B → S → Type 0) where
  -- A reading that is known to return.
  pub lift_rule :
      (r : Result A) (f : A → Exec S B) (s : S) (a : A)
      → r ≡ ok a
      → Q (f a s).0 (f a s).1
      → Q ((lift r >>= f) s).0 ((lift r >>= f) s).1
  lift_rule r f s a e q = subst (λ r. Q (continue r f s).0 (continue r f s).1) (sym e) q

pub element_below {ℓ} :
    {A : Type ℓ} (i : ℕ) (xs : List A) → i < length xs → (a : A) × (element i xs ≡ ok a)
unfolding element
element_below i [] h = absurd (omega (arith, h))
element_below zero (x ∷ xs) h = (x, refl)
element_below (suc i) (x ∷ xs) h = element_below i xs (omega (arith, h))

module _ {F : Type 0} ⦃n : Number F⦄ (session : Session F) where
  length-offsets_from : (seed index left : ℕ) → length (offsets_from session seed index left) ≡ left
  unfolding offsets_from
  length-offsets_from seed index zero = refl
  length-offsets_from seed index (suc left) = ap suc (length-offsets_from seed (suc index) left)

  pub length-target_offsets : (count seed : ℕ) → length (target_offsets session count seed) ≡ count
  unfolding target_offsets
  length-target_offsets count seed = length-offsets_from seed 0 count

module _ {F : Type 0} ⦃n : Number F⦄ where
  -- The wait ends with a camera that is ready, or with none.
  abbrev pub Waited : Collector F → Result Bool → Collector F → Type 0
  Waited s (ok b) t = Same s t × (b ≡ true → camera_ready t ≡ true)
  Waited s (raise e) t = ⊥

  Waited-after : (s t u : Collector F) (r : Result Bool) → Same s t → Waited t r u → Waited s r u
  Waited-after s t u (ok b) a (c, d) = (Same-trans s t u a c, d)
  Waited-after s t u (raise e) a h = h

module _ {F : Type 0} ⦃n : Number F⦄ (sim : Simulation F) (world : String) where
  settle_if-Quiet :
      (b : Bool) (s : Collector F) → let (r, s') = settle_if sim world b s in Quiet s r s'
  unfolding spin
  settle_if-Quiet false s = (Same-refl s, tt)
  settle_if-Quiet true s = (spin-Same sim world s, tt)

  place_from-Quiet :
      (forward lateral : F) (robot : Option (Pose F)) (s : Collector F)
      → let (r, s') = place_from sim world forward lateral robot s in Quiet s r s'
  unfolding place_target
  place_from-Quiet forward lateral none s = (Same-refl s, tt)
  place_from-Quiet forward lateral (some robot) s =
      let t = record s { turn = suc s.turn } in
      let settled = settle_if-Quiet _ t in
      (Same-trans s t _ (turn-Same sim world s) settled.0, settled.1)

  pub place_target_ahead-Quiet :
      (forward lateral : F) (s : Collector F)
      → let (r, s') = place_target_ahead sim world forward lateral s in Quiet s r s'
  unfolding place_target_ahead
  place_target_ahead-Quiet forward lateral s =
      bind-Quiet sim world (robot_pose sim world) _ s (robot_pose-Quiet sim world s)
        (place_from-Quiet forward lateral)

  wait_rounds-Waited :
      (k : ℕ) (s : Collector F) → let (r, s') = wait_rounds sim world k s in Waited s r s'
  unfolding wait_rounds
  wait_rounds-Waited zero s = (Same-refl s, λ h. absurd (ground (arith, h)))
  wait_rounds-Waited (suc k) s =
      let t = (spin sim world s).1 in
      let rest = Waited-after s t _ _ (spin-Same sim world s) (wait_rounds-Waited k t) in
      elim (Bool-cases (camera_ready t)) [
        | inl h ↦ rw h (spin-Same sim world s, λ b. h)
        | inr h ↦ rw h rest
      ]

  pub wait_ready-Waited : (s : Collector F) → let (r, s') = wait_ready sim world s in Waited s r s'
  unfolding wait_ready
  wait_ready-Waited s = wait_rounds-Waited (sim.rounds s.turn) s
