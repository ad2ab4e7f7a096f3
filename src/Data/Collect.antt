-- ===== src/Data/Collect.antt =====
-- src/threevn_data/threevn_data/collect.py: the recorder of labelled frames, up to its `main`. What
-- the simulator and ROS do in each turn is an argument; each use of them takes a turn.
pub mod Quiet
pub mod Frames
pub mod Tally
pub mod Session
pub mod Described
pub mod Placed
pub mod Episodes
pub mod Written
pub mod Loading
mod Samples
use Prim.Native.String.{◌++◌ as ◌<>◌}
use vn_robotics.Prelude.{
  ℕ, zero, suc, ◌*◌, ◌/◌, ◌%◌, ◌≡◌, Bool, true, false, ◌&&◌, String, Option, none, some, List, [],
  ◌∷◌, ◌++◌, length, if◌then◌else◌, ◌==◌, number_eq, ltb, is_some,
}
use vn_robotics.Py.Errors.{Result, ok, raise, value_error, cv_error}
use vn_robotics.Py.Exec.{Exec, pure, lift, gets, modify, ◌>>=◌}
use vn_robotics.Py.Json.{Number, Json}
use vn_robotics.Py.Text.{says_true, decimal, padded}
use vn_robotics.Data.Poses.{Pose, Angles, read_pose}
use vn_robotics.Data.Dataset.{Frame}
use vn_robotics.Data.Duplicates.{tally_one}

-- sensor_msgs/Image, without what the code does not read.
pub record Picture : Type 0 where
  pub height : ℕ
  pub width : ℕ
  pub bytes : List ℕ
  pub frame_id : String
  pub sec : ℕ
  pub nanosec : ℕ

-- sensor_msgs/CameraInfo: the matrix k has nine numbers.
pub record Info (F : Type 0) : Type 0 where
  pub k : ℕ → F
  pub info_width : ℕ
  pub info_height : ℕ

pub data Arrival (F : Type 0) : Type 0 where
  image_arrived : Picture → Arrival F
  info_arrived : Info F → Arrival F

-- What `cv2.imwrite` is given.
pub record Drawing : Type 0 where
  pub path : String
  pub rows_of : ℕ
  pub columns : ℕ
  pub pixels : List ℕ

pub record Collector (F : Type 0) : Type 0 where
  pub picture : Option Picture
  pub camera_info : Option (Info F)
  pub rows : List (Frame F)
  pub rejected : List (String × ℕ)
  pub reject_reason : String
  pub commands : List (F × F)
  -- The calls of `cv2.imwrite` that returned, with what they returned.
  pub drawings : List (Drawing × Bool)
  pub labels_file : Option String
  pub manifest_file : Option (Json F)
  pub turn : ℕ

pub record Simulation (F : Type 0) : Type 0 where
  pub angles : Angles F
  pub arrivals : ℕ → List (Arrival F)
  pub topic_text : ℕ → (topic : String) → Option String
  pub set_pose_text : ℕ → (service : String) → (x y z : F) → Option String
  pub transform : ℕ → (point : F × F × F) → (frame : String) → Option (F × F × F)
  -- Whether the file was written; nothing where it raises cv2.error, as on an empty image.
  pub imwrite : ℕ → Drawing → Option Bool
  pub rounds : ℕ → ℕ

-- DYNAMIC_TOPIC, STATIC_TOPIC and SET_POSE
abbrev pub dynamic_topic : String → String
dynamic_topic world = "/world/" <> (world <> "/dynamic_pose/info")

abbrev pub static_topic : String → String
static_topic world = "/world/" <> (world <> "/pose/info")

abbrev pub set_pose_service : String → String
set_pose_service world = "/world/" <> (world <> "/set_pose")

-- rgb[:, :, ::-1]
unfoldable pub bgr : List ℕ → List ℕ
bgr (r ∷ g ∷ b ∷ rest) = b ∷ g ∷ r ∷ bgr rest
bgr rest = rest

-- f'ep{episode:03d}_{index:04d}.png'
abbrev pub image_name : (episode index : ℕ) → String
image_name episode index = "ep" <> (padded 3 episode <> ("_" <> (padded 4 index <> ".png")))

-- np.frombuffer(msg.data).reshape(msg.height, msg.width, 3), which raises on another length
abbrev pub as_array : Picture → Result (List ℕ)
as_array msg =
    if length msg.bytes == msg.height * msg.width * 3 then ok msg.bytes else raise value_error

abbrev pub drawing_for : (episode index : ℕ) → Picture → List ℕ → Drawing
drawing_for episode index msg array = record {
  path = "images/" <> image_name episode index;
  rows_of = msg.height;
  columns = msg.width;
  pixels = bgr array;
}

module _ {F : Type 0} where
  abbrev pub receive : Arrival F → Collector F → Collector F
  receive (image_arrived m) s = record s { picture = some m }
  receive (info_arrived i) s = record s { camera_info = some i }

  unfoldable pub receive_all : List (Arrival F) → Collector F → Collector F
  receive_all [] s = s
  receive_all (a ∷ rest) s = receive_all rest (receive a s)

  -- A use of the surroundings, in its turn.
  abbrev pub ask : {A : Type 0} → (ℕ → A) → Exec (Collector F) A
  ask f s = (ok (f s.turn), record s { turn = suc s.turn })

  abbrev pub fresh_collector : Collector F
  fresh_collector = record {
    picture = none;
    camera_info = none;
    rows = [];
    rejected = [];
    reject_reason = "unknown";
    commands = [];
    drawings = [];
    labels_file = none;
    manifest_file = none;
    turn = 0;
  }

  abbrev pub refuse : String → Exec (Collector F) Bool
  refuse reason s = (ok false, record s { reject_reason = reason })

  abbrev pub camera_ready : Collector F → Bool
  camera_ready s = is_some s.picture && is_some s.camera_info

  -- self.rejected[self._reject_reason] += 1
  abbrev pub note_rejected : Collector F → Collector F
  note_rejected s = record s { rejected = tally_one s.reject_reason s.rejected }

  -- kept, after a frame
  abbrev pub count_frame : (kept : ℕ) → Bool → Exec (Collector F) ℕ
  count_frame kept true s = (ok (suc kept), s)
  count_frame kept false s = (ok kept, note_rejected s)

-- place_target, of an answer
abbrev pub accepted : Option String → Bool
accepted none = false
accepted (some out) = says_true out

module _ {F : Type 0} ⦃n : Number F⦄ where
  abbrev pub stamp_of : Picture → F
  stamp_of msg = n.add (n.literal msg.sec 0) (n.mul (n.literal msg.nanosec 0) (n.literal 1 9))

  abbrev pub row_for : (episode index : ℕ) → Picture → F × F × F → Frame F
  row_for episode index msg (x, y, z) = record {
    image = "images/" <> image_name episode index;
    episode = episode;
    index = index;
    label = x ∷ y ∷ z ∷ [];
    stamp = stamp_of msg;
  }

  -- The row is added whatever `cv2.imwrite` has returned, unless it has raised.
  abbrev pub keep_written :
      (episode index : ℕ) → Picture → F × F × F → Drawing → Option Bool → Exec (Collector F) Bool
  keep_written episode index msg label drawing none s = (raise cv_error, s)
  keep_written episode index msg label drawing (some written) s = (
    ok true,
    record s {
      drawings = s.drawings ++ (drawing, written) ∷ [];
      rows = s.rows ++ row_for episode index msg label ∷ [];
    },
  )

  abbrev pub keep_frame :
      (write : ℕ → Drawing → Option Bool) (episode index : ℕ)
      → Picture
      → F × F × F
      → List ℕ
      → Exec (Collector F) Bool
  keep_frame write episode index msg label array =
      let drawing = drawing_for episode index msg array in
      ask (λ turn. write turn drawing) >>= keep_written episode index msg label drawing

  abbrev pub keep_label :
      (write : ℕ → Drawing → Option Bool) (episode index : ℕ)
      → Picture
      → Option (F × F × F)
      → Exec (Collector F) Bool
  keep_label write episode index msg none = refuse "no ground truth or TF"
  keep_label write episode index msg (some label) =
      if n.le label.2 (n.literal 0 0)
      then refuse "target behind the camera"
      else lift (as_array msg) >>= keep_frame write episode index msg label

module _ {F : Type 0} ⦃n : Number F⦄ (sim : Simulation F) (world : String) where
  open sim use {angles, arrivals, topic_text, set_pose_text, transform, imwrite, rounds}

  -- What arrives while the node spins.
  unfoldable pub spin : Exec (Collector F) Unit
  unfolding receive_all
  spin s = (ok tt, record (receive_all (arrivals s.turn) s) { turn = suc s.turn })

  -- The loop of wait_ready, whose rounds the clock gives.
  unfoldable pub wait_rounds : ℕ → Exec (Collector F) Bool
  unfolding spin
  wait_rounds zero s = (ok false, s)
  wait_rounds (suc k) s =
      let s' = (spin s).1 in
      let rest = wait_rounds k s' in if camera_ready s' then (ok true, s') else rest

  unfoldable pub wait_ready : Exec (Collector F) Bool
  wait_ready s = wait_rounds (rounds s.turn) s

  -- self.cmd.publish(msg) and a spin, a number of times
  unfoldable pub publish_times : ℕ → F × F → Exec (Collector F) Unit
  publish_times zero command s = (ok tt, s)
  publish_times (suc k) command s =
      publish_times k command (spin (record s { commands = s.commands ++ command ∷ [] })).1

  unfoldable pub drive : (linear angular : F) → Exec (Collector F) Unit
  drive linear angular = gets (λ s. rounds s.turn) >>= λ k.
      publish_times k (linear, angular) >>= λ _.
      publish_times 10 (n.literal 0 0, n.literal 0 0) >>= λ _. spin

  unfoldable pub robot_pose : Exec (Collector F) (Option (Pose F))
  robot_pose = ask (λ turn. topic_text turn (dynamic_topic world)) >>= λ out.
      lift (read_pose angles out "threevn_mm")

  unfoldable pub target_pose : Exec (Collector F) (Option (Pose F))
  target_pose = ask (λ turn. topic_text turn (static_topic world)) >>= λ out.
      lift (read_pose angles out "target_cube")

  -- -a
  abbrev negate : F → F
  negate a = n.sub (n.literal 0 0) a

  -- The target in the frame of the robot's base.
  abbrev pub in_base : (robot target : Pose F) → F × F × F
  in_base robot target =
      let dx = n.sub target.x robot.x in
      let dy = n.sub target.y robot.y in
      let c = angles.cos (negate robot.yaw) in
      let s = angles.sin (negate robot.yaw) in
      (n.sub (n.mul dx c) (n.mul dy s), n.add (n.mul dx s) (n.mul dy c), target.z)

  abbrev pub locate :
      (frame : String) → Option (Pose F) → Option (Pose F) → Exec (Collector F) (Option (F × F × F))
  locate frame (some robot) (some target) =
      ask (λ turn. transform turn (in_base robot target) frame)
  locate frame _ _ = pure none

  unfoldable pub label_now : (frame : String) → Exec (Collector F) (Option (F × F × F))
  label_now frame = robot_pose >>= λ robot. target_pose >>= λ target. locate frame robot target

  abbrev pub capture_from : (episode index : ℕ) → Option Picture → Exec (Collector F) Bool
  capture_from episode index none = refuse "no image"
  capture_from episode index (some msg) =
      label_now msg.frame_id >>= keep_label imwrite episode index msg

  unfoldable pub capture : (episode index : ℕ) → Exec (Collector F) Bool
  unfolding label_now bgr
  capture episode index = gets (λ s. s.picture) >>= capture_from episode index

  -- if index: self.drive(...)
  abbrev pub move_on : ℕ → (linear angular : F) → Exec (Collector F) Unit
  move_on zero linear angular = pure tt
  move_on (suc index) linear angular = drive linear angular

  -- The loop of record_episode, from an index on.
  unfoldable pub shoot :
      (episode : ℕ) (linear angular : F) (index left kept : ℕ) → Exec (Collector F) ℕ
  shoot episode linear angular index zero kept = pure kept
  shoot episode linear angular index (suc left) kept = move_on index linear angular >>= λ _.
      capture episode index >>= λ taken.
      count_frame kept taken >>= λ kept'. shoot episode linear angular (suc index) left kept'

  unfoldable pub record_episode :
      (episode : ℕ) (linear angular : F) (frames : ℕ) → Exec (Collector F) ℕ
  record_episode episode linear angular frames =
      spin >>= λ _. shoot episode linear angular 0 frames 0

  abbrev pub settle_if : Bool → Exec (Collector F) Bool
  settle_if false = pure false
  settle_if true = spin >>= λ _. pure true

  unfoldable pub place_target : (x y : F) → Exec (Collector F) Bool
  place_target x y =
      ask (λ turn. set_pose_text turn (set_pose_service world) x y (n.literal 25 3)) >>= λ out.
      pure (accepted out)

  abbrev pub place_from : (forward lateral : F) → Option (Pose F) → Exec (Collector F) Bool
  place_from forward lateral none = pure false
  place_from forward lateral (some robot) =
      let c = angles.cos robot.yaw in
      let s = angles.sin robot.yaw in
      place_target (n.sub (n.add robot.x (n.mul forward c)) (n.mul lateral s))
        (n.add (n.add robot.y (n.mul forward s)) (n.mul lateral c))
      >>= settle_if

  unfoldable pub place_target_ahead : (forward lateral : F) → Exec (Collector F) Bool
  place_target_ahead forward lateral = robot_pose >>= place_from forward lateral
