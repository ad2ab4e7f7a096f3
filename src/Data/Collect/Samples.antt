-- ===== src/Data/Collect/Samples.antt =====
-- A session of one episode and two frames, in which the target is behind the camera at the second.
use vn_robotics.Prelude.{
  ℕ, ◌≡◌, refl, false, String, Option, none, some, [], ◌∷◌, ◌==◌, number_eq, string_eq,
  if◌then◌else◌, ltb, arith,
}
use vn_robotics.Py.Errors.{ok}
use vn_robotics.Py.Json.{update, member, find, item, get_or, truthy, as_number, equals_one}
use vn_robotics.Mlops.Gates.Samples.{hundredths}
use vn_robotics.Data.Dataset.{Frame, episodes}
use vn_robotics.Data.Poses.{Angles, read_pose, block_of, field_from, pose_in}
use vn_robotics.Data.Collect.{
  Picture, Info, image_arrived, info_arrived, Simulation, fresh_collector, image_name, bgr,
  record_episode, wait_ready, wait_rounds, spin, receive_all, place_target_ahead, robot_pose,
  place_target, shoot, drive, publish_times, capture, label_now, target_pose,
}
use vn_robotics.Data.Collect.Tally.{Shot, record_episode-Shot}
use vn_robotics.Data.Collect.Session.{
  Args, Session, main, labels_text, row_json, record_all, write_up, manifest_of, element,
  target_offsets,
}
use vn_robotics.Data.Manifest.{validate, lacking_keys, problems_of}
use vn_robotics.Data.Manifest.Build.{build, git_description}
use vn_robotics.Data.Duplicates.{tally_one}
use vn_robotics.Data.Collect.Described.{LawfulCounts}
use vn_robotics.Data.Collect.Written.{Ended, main-Ended}
use vn_robotics.Data.Collect.Loading.{breaks, loaded, load-labels_text}
use vn_robotics.Data.Dataset.Load.{load}
use vn_robotics.Py.Text.{padded, strip, after, says_true, splitlines}

abbrev angles : Angles ℕ
angles = record {
  float_text = λ t. if t == " 1.5" then some 150 else if t == " 2" then some 200 else none;
  cos = λ a. 100;
  sin = λ a. 0;
  atan2 = λ a b. 0;
}

abbrev robot_text : String
robot_text =
    "pose {\n  name: \"floor\"\n}\npose {\n  name: \"threevn_mm\"\n  position {\n    x: 1.5\n  }\n}\n"

abbrev target_text : String
target_text =
    "pose {\n  name: \"target_cube\"\n  position {\n    x: 2\n    z: 1.5\n  }\n}\npose {\n  name: \"x\"\n}\n"

abbrev pose_text : String → Option String
pose_text topic = if topic == "/world/w/pose/info" then some target_text else some robot_text

read_pose_first :
    read_pose angles (some target_text) "target_cube"
    ≡ ok (some (record { x = 200; y = 0; z = 150; yaw = 0 }))
unfolding read_pose field_from strip after
read_pose_first = refl

read_pose_other : read_pose angles (some target_text) "cube" ≡ ok none
unfolding read_pose
read_pose_other = refl

image_name_padded : image_name 7 123 ≡ "ep007_0123.png"
unfolding padded
image_name_padded = refl

bgr_pixels : bgr (1 ∷ 2 ∷ 3 ∷ 4 ∷ 5 ∷ 6 ∷ []) ≡ 3 ∷ 2 ∷ 1 ∷ 6 ∷ 5 ∷ 4 ∷ []
unfolding bgr
bgr_pixels = refl

abbrev picture : Picture
picture = record {
  height = 1;
  width = 1;
  bytes = 10 ∷ 20 ∷ 30 ∷ [];
  frame_id = "camera";
  sec = 2;
  nanosec = 0;
}

abbrev info : Info ℕ
info = record { k = λ i. 100; info_width = 1; info_height = 1 }

abbrev simulation : Simulation ℕ
simulation = record {
  angles = angles;
  arrivals = λ turn. image_arrived picture ∷ info_arrived info ∷ [];
  topic_text = λ turn topic. pose_text topic;
  set_pose_text = λ turn service x y z. some "data: true";
  transform = λ turn point frame. some (10, 20, if ltb turn 9 then 30 else 0);
  imwrite = λ turn drawing. some false;
  rounds = λ turn. 2;
}

abbrev row : Frame ℕ
row = record {
  image = "images/ep000_0000.png";
  episode = 0;
  index = 0;
  label = 10 ∷ 20 ∷ 30 ∷ [];
  stamp = 200;
}

abbrev session : Session ℕ
session = record {
  fraction = λ a. 0;
  round4 = λ a. a;
  jitter = λ seed i. (0, 0);
  dumps = λ v. "{row}";
  created = "2026-10-01";
  checkout = record {
    environ = λ v. if v == "THREEVN_GIT_COMMIT" then some "a1b2" else none;
    git = λ words. none;
  };
}

abbrev args : Args
args = record { episode_count = 1; frame_count = 2; world = "w"; repo = "/ws"; seed = 0 }

lawful : LawfulCounts hundredths
lawful = record { one_same = refl; zero_le = refl; positive = λ k. ground arith }

record_episode-Shot_example :
    let (r, s') = record_episode simulation "w" 0 5 6 2 fresh_collector in
    Shot 2 0 fresh_collector r s'
record_episode-Shot_example = record_episode-Shot simulation "w" 0 5 6 2 fresh_collector

main-Ended_example :
    let (r, s') = main simulation session args fresh_collector in Ended session args r s'
main-Ended_example = main-Ended lawful simulation session args

-- One frame is kept, although its image was not written; the other is counted as dropped.
main_run :
    let (r, s') = main simulation session args fresh_collector in
    (r ≡ ok (record { code = 0; problems = [] }))
    × (s'.rows ≡ row ∷ [])
    × (s'.rejected ≡ ("target behind the camera", 1) ∷ [])
    × (s'.labels_file ≡ some "{row}\n")
unfolding main wait_ready wait_rounds spin receive_all record_all place_target_ahead robot_pose
    place_target record_episode shoot drive publish_times capture label_now target_pose read_pose
    field_from pose_in block_of splitlines strip after write_up manifest_of build update labels_text
    validate git_description tally_one element target_offsets episodes says_true padded bgr
    lacking_keys problems_of member find item get_or truthy as_number equals_one
main_run = (refl, refl, refl, refl)

one_line : breaks "{row}" ≡ false
unfolding breaks
one_line = refl

not_blank : (strip "{row}" == "") ≡ false
unfolding strip
not_blank = refl

load-labels_text_example :
    load (λ t. ok (row_json row)) "d" (some (labels_text session (row ∷ [])))
    ≡ ok (loaded "d" row ∷ [])
load-labels_text_example =
    load-labels_text session (λ t. ok (row_json row)) "d" (row ∷ [])
      (record { read_back = refl; one_line = one_line; not_blank = not_blank }, tt)
