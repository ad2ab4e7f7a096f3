-- ===== src/Perception/Target/Orderly.antt =====
-- The node over any sequence of messages: it does not stop, it waits for the camera's intrinsics
-- and
-- keeps the first, and it logs one error at most.
use vn_robotics.Prelude.{
  ℕ, suc, ◌+◌, ◌<◌, ◌≡◌, refl, sym, ap, ◌∙◌, Option, none, some, List, [], ◌∷◌, ◌++◌, String,
  if◌then◌else◌, arith, Bool-cases, inl, inr, ◌≢◌,
}
use vn_robotics.Py.Json.{Number}
use vn_robotics.Py.Errors.{Result, ok, raise}
use vn_robotics.Perception.Detector.{Blob}
use vn_robotics.Perception.Image.{
  as_rgb, Intrinsics, intrinsics_from_camera_info, Position, numpy_quotient,
}
use vn_robotics.Perception.Image.Sighting.{as_rgb-cases, detect-ok}
use vn_robotics.Perception.Target.{
  TargetEvent, target_pose, target_in_base, error_logged, intrinsics_logged, transform_warned,
  ImageMessage, FindTarget, TargetSettings, emit, latch, on_info, warn_once, in_base, publish,
  converted, seen_by, on_image,
}

-- A message of one of the two topics that the node hears.
pub data Heard (F : Type 0) : Type 0 where
  info : (ℕ → F) → Heard F
  image : ImageMessage → Heard F

module _ {F : Type 0} where
  abbrev pub errors : List (TargetEvent F) → ℕ
  errors [] = 0
  errors (error_logged ∷ es) = suc (errors es)
  errors (e ∷ es) = errors es

  errors-append : (xs ys : List (TargetEvent F)) → errors (xs ++ ys) ≡ errors xs + errors ys
  errors-append [] ys = omega arith
  errors-append (error_logged ∷ xs) ys = omega (arith, errors-append xs ys)
  errors-append (target_pose h p ∷ xs) ys = omega (arith, errors-append xs ys)
  errors-append (target_in_base h p ∷ xs) ys = omega (arith, errors-append xs ys)
  errors-append (intrinsics_logged ∷ xs) ys = omega (arith, errors-append xs ys)
  errors-append (transform_warned ∷ xs) ys = omega (arith, errors-append xs ys)

  -- The first intrinsics among the messages.
  abbrev pub first_info : Option (Intrinsics F) → List (Heard F) → Option (Intrinsics F)
  first_info (some camera) messages = some camera
  first_info none [] = none
  first_info none (info k ∷ messages) = some (intrinsics_from_camera_info k)
  first_info none (image frame ∷ messages) = first_info none messages

  -- An error is logged when the flag is set, and once.
  abbrev pub IsWarned : FindTarget F → Type 0
  IsWarned s = errors s.events ≡ (if s.warned then 1 else 0)

  warn_once-IsWarned : (s : FindTarget F) → IsWarned s → IsWarned (warn_once s)
  warn_once-IsWarned s i = elim (Bool-cases s.warned) [
    | inl b ↦ ground (arith, b, i)
    | inr b ↦ ground (arith, b, i, errors-append s.events (error_logged ∷ []))
  ]

  in_base-IsWarned :
      (h : String) (o : Option (Position F)) (s : FindTarget F)
      → IsWarned s
      → IsWarned (in_base h o s)
  in_base-IsWarned h none s i = ground (arith, i, errors-append s.events (transform_warned ∷ []))
  in_base-IsWarned h (some p) s i =
      ground (arith, i, errors-append s.events (target_in_base h p ∷ []))

  in_base-intrinsics :
      (h : String) (o : Option (Position F)) (s : FindTarget F)
      → (in_base h o s).intrinsics ≡ s.intrinsics
  in_base-intrinsics h none s = refl
  in_base-intrinsics h (some p) s = refl

  warn_once-intrinsics : (s : FindTarget F) → (warn_once s).intrinsics ≡ s.intrinsics
  warn_once-intrinsics s = ground arith

  publish-IsWarned :
      (t : Position F → Option (Position F)) (h : String) (found : Option (Blob F × Position F))
      (s : FindTarget F)
      → IsWarned s
      → IsWarned (publish t h found s) × ((publish t h found s).intrinsics ≡ s.intrinsics)
  publish-IsWarned t h none s i = (i, refl)
  publish-IsWarned t h (some (blob, p)) s i = (
    in_base-IsWarned h (t p) (emit (target_pose h p) s)
        (ground (arith, i, errors-append s.events (target_pose h p ∷ []))),
    in_base-intrinsics h (t p) (emit (target_pose h p) s),
  )

  latch-IsWarned :
      (o : Option (Intrinsics F)) (k : ℕ → F) (s : FindTarget F)
      → IsWarned s
      → IsWarned (latch o k s)
  latch-IsWarned none k s i = ground (arith, i, errors-append s.events (intrinsics_logged ∷ []))
  latch-IsWarned (some camera) k s i = i

-- The callback ends without an exception in this state.
abbrev pub Ends : {F : Type 0} → Option (Result (FindTarget F)) → (FindTarget F → Type 0) → Type 0
Ends {F} result Post = (s : FindTarget F) × (result ≡ some (ok s)) × Post s

module _ {F : Type 0} where
  on_info-IsAfter :
      (o : Option (Intrinsics F)) (k : ℕ → F) (ms : List (Heard F)) (s : FindTarget F)
      → IsWarned s
      → s.intrinsics ≡ o
      → (latch o k s).intrinsics ≡ first_info o (info k ∷ ms)
  on_info-IsAfter none k ms s i l = refl
  on_info-IsAfter (some camera) k ms s i l = l

  first_info-nil : (o : Option (Intrinsics F)) → first_info o [] ≡ o
  first_info-nil none = refl
  first_info-nil (some camera) = refl

  first_info-info :
      (o : Option (Intrinsics F)) (k : ℕ → F) (ms : List (Heard F))
      → first_info o (info k ∷ ms) ≢ none
  first_info-info none k ms = λ h. absurd (ground arith)
  first_info-info (some camera) k ms = λ h. absurd (ground arith)

  first_info-again :
      (o : Option (Intrinsics F)) (k : ℕ → F) (ms : List (Heard F))
      → first_info (first_info o (info k ∷ ms)) ms ≡ first_info o (info k ∷ ms)
  first_info-again none k ms = refl
  first_info-again (some camera) k ms = refl

  first_info-image :
      (o : Option (Intrinsics F)) (f : ImageMessage) (ms : List (Heard F))
      → first_info o (image f ∷ ms) ≡ first_info o ms
  first_info-image none f ms = refl
  first_info-image (some camera) f ms = refl

  first_info-none :
      (o : Option (Intrinsics F)) (ms : List (Heard F)) → first_info o ms ≡ none → o ≡ none
  first_info-none none ms h = refl
  first_info-none (some camera) ms h = absurd (ground arith)

-- What a message does to what the node has: one error at most, the first intrinsics, and nothing
-- before there are intrinsics.
pub record IsAfter {F : Type 0} (camera : Option (Intrinsics F)) (s s' : FindTarget F)
    : Type 0 where
  pub warned_once : IsWarned s'
  pub latched : s'.intrinsics ≡ camera
  pub silent : camera ≡ none → s'.events ≡ s.events

module _ {F : Type 0} ⦃n : Number F⦄ (settings : TargetSettings F) where
  -- The callback of a message.
  abbrev pub handle : Heard F → FindTarget F → Option (Result (FindTarget F))
  handle (info k) s = some (ok (on_info k s))
  handle (image frame) s = on_image settings frame s

  abbrev pub settle :
      Option (Result (FindTarget F))
      → (FindTarget F → Option (Result (FindTarget F)))
      → Option (Result (FindTarget F))
  settle (some (ok s)) next = next s
  settle (some (raise e)) next = some (raise e)
  settle none next = none

  -- Messages in the order in which they come.
  unfoldable pub receive_all : List (Heard F) → FindTarget F → Option (Result (FindTarget F))
  unfolding on_image on_info
  receive_all [] s = some (ok s)
  receive_all (m ∷ ms) s = settle (handle m s) (receive_all ms)

module _ {F : Type 0} ⦃n : Number F⦄ (settings : TargetSettings F)
    (c : settings.mask_kwargs.channel < 3) where
  converted-After :
      (frame : ImageMessage) (camera : Intrinsics F) (s : FindTarget F)
      → IsWarned s
      → s.intrinsics ≡ some camera
      → Ends
          (converted settings
            (as_rgb frame.buffer frame.height frame.width frame.encoding)
            frame
            camera
            s)
          (IsAfter (some camera) s)
  converted-After frame camera s i l =
      elim (as_rgb-cases frame.buffer frame.height frame.width frame.encoding) [
        | inl bad ↦ (
          warn_once s,
          rw bad refl,
          record {
            warned_once = warn_once-IsWarned s i;
            latched = warn_once-intrinsics s ∙ l;
            silent = λ h. absurd (ground arith);
          },
        )
        | inr (rgb, good, depth) ↦
            let (found, run, sight) =
              detect-ok numpy_quotient camera settings.target_width (λ a. refl) (λ a. refl)
                settings.mask_kwargs rgb depth c in
            let (warned, kept) = publish-IsWarned settings.transform frame.header found s i in
            (
              publish settings.transform frame.header found s,
              rw good (rw run refl),
              record {
                warned_once = warned;
                latched = kept ∙ l;
                silent = λ h. absurd (ground arith);
              },
            )
      ]

  seen_by-After :
      (o : Option (Intrinsics F)) (frame : ImageMessage) (s : FindTarget F)
      → IsWarned s
      → s.intrinsics ≡ o
      → Ends (seen_by settings o frame s) (IsAfter o s)
  seen_by-After none frame s i l =
      (s, refl, record { warned_once = i; latched = l; silent = λ h. refl })
  seen_by-After (some camera) frame s i l = converted-After frame camera s i l

  -- For a channel of three, and a node that has logged its error as often as its flag says: no
  -- sequence of messages stops the node with an exception. After it the flag still says how often
  -- the
  -- error was logged, once or never, the intrinsics are the first that it had or was sent, and if
  -- there
  -- were none then it has published and logged nothing.
  pub receive_all-IsAfter :
      (ms : List (Heard F)) (s : FindTarget F)
      → IsWarned s
      → Ends (receive_all settings ms s) (IsAfter (first_info s.intrinsics ms) s)
  unfolding receive_all on_info on_image
  receive_all-IsAfter [] s i = (
    s,
    refl,
    record { warned_once = i; latched = sym (first_info-nil s.intrinsics); silent = λ h. refl },
  )
  receive_all-IsAfter (info k ∷ ms) s i =
      let held = on_info-IsAfter s.intrinsics k ms s i refl in
      let (s', run, after) =
        receive_all-IsAfter ms (latch s.intrinsics k s) (latch-IsWarned s.intrinsics k s i) in
      let same : first_info (latch s.intrinsics k s).intrinsics ms
          ≡ first_info s.intrinsics (info k ∷ ms) =
        ap (λ o. first_info o ms) held ∙ first_info-again s.intrinsics k ms in
      (
        s',
        run,
        record {
          warned_once = after.warned_once;
          latched = after.latched ∙ same;
          silent = λ h. absurd (first_info-info s.intrinsics k ms h);
        },
      )
  receive_all-IsAfter (image frame ∷ ms) s i =
      let (mid, ran, first) = seen_by-After s.intrinsics frame s i refl in
      let (s', run, after) = receive_all-IsAfter ms mid first.warned_once in
      let same : first_info mid.intrinsics ms ≡ first_info s.intrinsics (image frame ∷ ms) =
        ap (λ o. first_info o ms) first.latched ∙ sym (first_info-image s.intrinsics frame ms) in
      (
        s',
        rw ran run,
        record {
          warned_once = after.warned_once;
          latched = after.latched ∙ same;
          silent = λ h.
              after.silent (same ∙ h)
              ∙ first.silent (
                  first_info-none s.intrinsics ms
                    (sym (first_info-image s.intrinsics frame ms) ∙ h));
        },
      )
