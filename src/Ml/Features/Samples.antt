-- ===== src/Ml/Features/Samples.antt =====
-- Features in hundredths, and the closed form over the field of two elements.
use vn_robotics.Prelude.{
  ℕ, ◌%◌, ◌≡◌, refl, arith, Bool, true, false, not, ◌&&◌, ◌||◌, [], ◌∷◌, nat_eq, lookup, string_eq,
}
use vn_robotics.Mlops.Gates.Samples.{hundredths}
use vn_robotics.Py.Json.{Number}
use vn_robotics.Py.Errors.{ok, raise, key_error, ◌>>=◌}
use vn_robotics.Perception.Detector.{Blob}
use vn_robotics.Perception.Image.{Intrinsics, python_quotient, position_in_optical_frame}
use vn_robotics.Ml.Features.{geometric_features, feature_names, select, blob_features, predict}
use vn_robotics.Ml.Features.Deprojection.{blob_features-predict}

abbrev blob : Blob ℕ
blob = record { u = 3000; v = 2000; width = 4; height = 2; area = 8 }

abbrev camera : Intrinsics ℕ
camera = record { fx = 5000; fy = 5000; cx = 1000; cy = 1000 }

-- The root is taken to be 2.
features_test :
    blob_features (λ a. 200) blob camera feature_names
    ≡ ok (500 ∷ 250 ∷ 25 ∷ 50 ∷ 50 ∷ 12 ∷ 12 ∷ [])
unfolding blob_features select lookup
features_test = refl

unknown_name : blob_features (λ a. 200) blob camera ("1/w" ∷ "w" ∷ []) ≡ raise (key_error "w")
unfolding blob_features select lookup
unknown_name = refl

predict_test :
    (blob_features (λ a. 200) blob camera geometric_features >>= predict camera 100)
    ≡ ok (record { x = 500; y = 250; z = 1250 })
unfolding blob_features select lookup predict
predict_test = refl

instance abbrev two_elements : Number Bool
two_elements = record {
  literal = λ n k. nat_eq (n % 2) 1;
  eq = λ a b. (a && b) || not (a || b);
  lt = λ a b. not a && b;
  le = λ a b. not a || b;
  add = λ a b. (a && not b) || (not a && b);
  sub = λ a b. (a && not b) || (not a && b);
  mul = λ a b. a && b;
  div = λ a b. a && b;
  abs = λ a. a;
}

abbrev odd_blob : Blob Bool
odd_blob = record { u = true; v = false; width = 3; height = 3; area = 5 }

abbrev odd_camera : Intrinsics Bool
odd_camera = record { fx = true; fy = true; cx = false; cy = true }

blob_features-predict_example :
    (blob_features (λ a. a) odd_blob odd_camera geometric_features >>= predict odd_camera true)
    ≡ position_in_optical_frame python_quotient odd_blob odd_camera true
blob_features-predict_example =
    blob_features-predict (λ a b. ground arith) (λ a b c. ground arith) (λ a. ground arith)
      (λ a b c. ground arith) odd_camera (λ a. ground arith) (λ a. a) python_quotient odd_blob true
      refl (λ a. refl) (omega arith)
