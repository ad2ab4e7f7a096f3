-- ===== src/Data/Manifest/Samples.antt =====
-- A manifest as the recorder writes it, and one whose code is a text.
use vn_robotics.Prelude.{ℕ, ◌≡◌, refl, [], ◌∷◌}
use vn_robotics.Py.Errors.{ok}
use vn_robotics.Py.Json.{
  Json, Fields, null, num, str, obj, end, field, find, item, member, get_or, truthy, as_number,
  equals_one,
}
use vn_robotics.Mlops.Gates.Samples.{hundredths}
use vn_robotics.Data.Manifest.{
  no_commit, no_frames, source_unknown, camera_lacks, required, lacking_keys, problems_of, validate,
}
use vn_robotics.Data.Manifest.Usable.{IsUsable, validate-IsUsable}

abbrev intrinsics : Fields ℕ → Fields ℕ
intrinsics rest = field "fx" (num 55400) (
    field "fy" (num 55400)
      (field "cx" (num 32000) (field "cy" (num 24000) (field "width" (num 64000) rest))))

-- A manifest with this code, rest of the camera, source of labels and number of frames.
abbrev manifest : Json ℕ → Fields ℕ → Json ℕ → ℕ → Json ℕ
manifest code camera source frames = obj (
    field "schema_version" (num 100) (
      field "created" (str "2026-10-01") (
        field "code" code (
          field "world" (str "field.sdf") (
            field "robot" (str "threevn_arm_v1") (
              field "camera" (obj (intrinsics camera)) (
                field "labels" (obj (field "source" source end))
                  (field "episodes" (num 4000) (field "frames" (num frames) end)))))))))

abbrev pub good : Json ℕ
good =
    manifest (obj (field "commit" (str "a1b2") end)) (field "height" (num 48000) end)
      (str "simulator") 48000

no_problems : validate good ≡ ok []
unfolding validate lacking_keys problems_of member find item get_or truthy as_number equals_one
no_problems = refl

many_problems :
    validate (manifest (obj (field "commit" null end)) end (str "guess") 0)
    ≡ ok (no_commit ∷ camera_lacks "height" ∷ source_unknown (str "guess") ∷ no_frames ∷ [])
unfolding validate lacking_keys problems_of member find item get_or truthy as_number equals_one
many_problems = refl

validate-IsUsable_example : IsUsable good
validate-IsUsable_example = validate-IsUsable good no_problems

abbrev bad : Json ℕ
bad = manifest (str "a1b2") (field "height" (num 48000) end) (str "simulator") 48000

has_all :
    (lacking_keys required bad ≡ ok [])
    × (item "schema_version" bad ≡ ok (num 100))
    × (item "code" bad ≡ ok (str "a1b2"))
unfolding lacking_keys member find item
has_all = (refl, refl, refl)
