-- ===== src/Data/Collect/Session.antt =====
-- src/threevn_data/threevn_data/collect.py, `main`: a session of episodes, and what it writes. The
-- arguments come parsed; the draws of the random generator, `% 1.0`, `round(_, 4)`, `json.dumps`
-- and
-- the time are arguments.
use Prim.Native.String.{◌++◌ as ◌<>◌}
use vn_robotics.Prelude.{
  ℕ, zero, suc, ◌+◌, ◌%◌, Bool, true, false, String, some, List, [], ◌∷◌, length,
}
use vn_robotics.Py.Errors.{Result, ok, raise, index_error, attribute_error, or_raise}
use vn_robotics.Py.Exec.{Exec, pure, lift, gets, ◌>>=◌}
use vn_robotics.Py.Json.{
  Number, Json, Items, Fields, bool, num, str, arr, obj, nil, cons, end, field,
}
use vn_robotics.Data.Dataset.{Frame, episodes}
use vn_robotics.Data.Manifest.{Problem, validate}
use vn_robotics.Data.Manifest.Build.{Checkout, git_description, build}
use vn_robotics.Data.Collect.{
  Picture, Info, Collector, Simulation, wait_ready, place_target_ahead, record_episode,
}

pub record Args : Type 0 where
  pub episode_count : ℕ
  pub frame_count : ℕ
  pub world : String
  pub repo : String
  pub seed : ℕ

-- What the session takes from the standard library and from the machine.
pub record Session (F : Type 0) : Type 0 where
  pub fraction : F → F
  pub round4 : F → F
  pub jitter : (seed index : ℕ) → F × F
  pub dumps : Json F → String
  pub created : String
  pub checkout : Checkout

pub record Outcome (F : Type 0) : Type 0 where
  pub code : ℕ
  pub problems : List (Problem F)

-- xs[i]
unfoldable pub element {ℓ} : {A : Type ℓ} → ℕ → List A → Result A
element i [] = raise index_error
element zero (x ∷ xs) = ok x
element (suc i) (x ∷ xs) = element i xs

module _ {F : Type 0} where
  unfoldable pub json_list : List F → Items F
  json_list [] = nil
  json_list (x ∷ xs) = cons (num x) (json_list xs)

module _ {F : Type 0} ⦃n : Number F⦄ where
  abbrev minus : ℕ → ℕ → F
  minus a k = n.sub (n.literal 0 0) (n.literal a k)

  -- moves
  abbrev pub moves : List (F × F)
  moves =
      (n.literal 5 2, n.literal 6 2)
      ∷ (minus 5 2, n.literal 6 2)
      ∷ (n.literal 4 2, minus 7 2)
      ∷ (minus 4 2, minus 7 2)
      ∷ (n.literal 6 2, n.literal 2 2)
      ∷ (minus 6 2, n.literal 2 2)
      ∷ (n.literal 3 2, n.literal 9 2)
      ∷ (minus 3 2, minus 9 2)
      ∷ []

  -- The dict of a row.
  abbrev pub row_json : Frame F → Json F
  row_json f = obj (
      field "image" (str f.image) (
        field "episode" (num (n.literal f.episode 0)) (
          field "index" (num (n.literal f.index 0))
            (field "label" (arr (json_list f.label)) (field "stamp" (num f.stamp) end)))))

  abbrev pub camera_dict : Info F → Picture → Fields F
  camera_dict info msg = field "fx" (num (info.k 0)) (
      field "fy" (num (info.k 4)) (
        field "cx" (num (info.k 2)) (
          field "cy" (num (info.k 5)) (
            field "width" (num (n.literal info.info_width 0)) (
              field "height" (num (n.literal info.info_height 0))
                (field "frame_id" (str msg.frame_id) end))))))

  abbrev pub label_source : Fields F
  label_source = field "source" (str "simulator") (
      field "quantity" (str "target position in the camera optical frame")
        (field "units" (str "metres") (field "target_repositioned_per_episode" (bool true) end)))

module _ {F : Type 0} ⦃n : Number F⦄ (session : Session F) where
  open session use {fraction, round4, jitter, dumps, created, checkout}

  abbrev pub offset_at : (seed index : ℕ) → F × F
  offset_at seed index =
      let forward =
        n.add (n.literal 28 2) (
          n.mul (n.literal 34 2)
            (fraction (n.mul (n.literal index 0) (n.literal 6180339887 10)))) in
      let lateral =
        n.add (minus 13 2) (
          n.mul (n.literal 26 2)
            (fraction (n.mul (n.literal index 0) (n.literal 3819660113 10)))) in
      let (a, b) = jitter seed index in (round4 (n.add forward a), round4 (n.add lateral b))

  unfoldable pub offsets_from : (seed index left : ℕ) → List (F × F)
  offsets_from seed index zero = []
  offsets_from seed index (suc left) = offset_at seed index ∷ offsets_from seed (suc index) left

  unfoldable pub target_offsets : (count seed : ℕ) → List (F × F)
  unfolding offsets_from
  target_offsets count seed = offsets_from seed 0 count

  -- The text of labels.jsonl.
  unfoldable pub labels_text : List (Frame F) → String
  labels_text [] = ""
  labels_text (f ∷ fs) = dumps (row_json f) <> ("\n" <> labels_text fs)

module _ {F : Type 0} ⦃n : Number F⦄ (session : Session F) (args : Args) where
  unfoldable pub manifest_of : (kept : ℕ) → List (Frame F) → Info F → Picture → Json F
  unfolding build
  manifest_of kept rows info msg =
      build session.created (git_description session.checkout args.repo) args.world "threevn_mm_v1"
        (camera_dict info msg) label_source (length (episodes rows)) kept
        (field "seed" (num (n.literal args.seed 0)) end)

module _ {F : Type 0} ⦃n : Number F⦄ (sim : Simulation F) (args : Args) where
  abbrev pub record_if : Bool → (episode kept : ℕ) → Exec (Collector F) ℕ
  record_if false episode kept = pure kept
  record_if true episode kept = lift (element (episode % 8) moves) >>= λ move.
      record_episode sim args.world episode move.0 move.1 args.frame_count >>= λ more.
      pure (kept + more)

  -- The loop over the episodes, from one on.
  unfoldable pub record_all :
      (offsets : List (F × F)) (episode left kept : ℕ) → Exec (Collector F) ℕ
  record_all offsets episode zero kept = pure kept
  record_all offsets episode (suc left) kept = lift (element episode offsets) >>= λ offset.
      place_target_ahead sim args.world offset.0 offset.1 >>= λ placed.
      record_if placed episode kept >>= λ kept'. record_all offsets (suc episode) left kept'

module _ {F : Type 0} ⦃n : Number F⦄ (sim : Simulation F) (session : Session F) (args : Args) where
  abbrev write_labels : Exec (Collector F) Unit
  write_labels s = (ok tt, record s { labels_file = some (labels_text session s.rows) })

  abbrev write_manifest : Json F → Exec (Collector F) Unit
  write_manifest doc s = (ok tt, record s { manifest_file = some doc })

  unfoldable pub write_up : (kept : ℕ) → Exec (Collector F) (Outcome F)
  unfolding manifest_of labels_text
  write_up kept = write_labels >>= λ _. gets (λ s. s) >>= λ s.
      lift (or_raise attribute_error s.camera_info) >>= λ info.
      lift (or_raise attribute_error s.picture) >>= λ msg.
      let doc = manifest_of session args kept s.rows info msg in
      write_manifest doc >>= λ _.
      lift (validate doc) >>= λ problems. pure (record { code = 0; problems = problems })

  abbrev pub main_if : Bool → Exec (Collector F) (Outcome F)
  main_if false = pure (record { code = 1; problems = [] })
  main_if true =
      record_all sim args (target_offsets session args.episode_count args.seed) 0 args.episode_count
        0
      >>= write_up

  unfoldable pub main : Exec (Collector F) (Outcome F)
  unfolding wait_ready record_all write_up target_offsets
  main = wait_ready sim args.world >>= main_if
