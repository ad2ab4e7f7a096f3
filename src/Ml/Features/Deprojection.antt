-- ===== src/Ml/Features/Deprojection.antt =====
-- The closed form as a predictor, against the detector's own position.
use vn_robotics.Prelude.{
  ◌<◌, ◌≡◌, refl, sym, ap, ◌∙◌, false, [], ◌∷◌, lookup, arith, leb, string_eq,
}
use vn_robotics.Py.Json.{Number}
use vn_robotics.Py.Errors.{Result, ok, ◌>>=◌}
use vn_robotics.Perception.Detector.{Blob}
use vn_robotics.Perception.Image.{
  Intrinsics, Position, range_from_apparent_size, position_in_optical_frame,
}
use vn_robotics.Ml.Features.{geometric_features, select, blob_features, predict}

module _ {F : Type 0} ⦃n : Number F⦄ where
  -- The three features of the closed form are there, in their order.
  blob_features-geometric :
      (sqrt : F → F) (blob : Blob F) (camera : Intrinsics F)
      → blob_features sqrt blob camera geometric_features
        ≡ ok (
            n.div (n.sub blob.u camera.cx) (n.literal blob.width 0)
            ∷ n.div (n.sub blob.v camera.cy) (n.literal blob.width 0)
            ∷ n.div (n.literal 1 0) (n.literal blob.width 0)
            ∷ [])
  unfolding blob_features select lookup
  blob_features-geometric sqrt blob camera = refl

  module _ (mul_comm : (a b : F) → n.mul a b ≡ n.mul b a)
      (mul_assoc : (a b c : F) → n.mul (n.mul a b) c ≡ n.mul a (n.mul b c))
      (one_mul : (a : F) → n.mul (n.literal 1 0) a ≡ a)
      (div_mul : (a b c : F) → n.mul (n.div a b) c ≡ n.div (n.mul a c) b) (camera : Intrinsics F)
      (mul-div : (a : F) → n.div (n.mul camera.fx a) camera.fx ≡ a) where
    -- An offset scaled by the distance and taken over the focal length.
    scaled :
        (a w width : F)
        → n.mul (n.div a w) width ≡ n.div (n.mul a (n.div (n.mul camera.fx width) w)) camera.fx
    scaled a w width =
        div_mul a w width
        ∙ (sym (mul-div (n.div (n.mul a width) w))
            ∙ ap (λ x. n.div x camera.fx)
                (mul_comm camera.fx (n.div (n.mul a width) w)
                  ∙ (div_mul (n.mul a width) w camera.fx
                      ∙ (ap (λ x. n.div x w)
                            (mul_assoc a width camera.fx
                              ∙ (mul_comm a (n.mul width camera.fx)
                                  ∙ ap (λ x. n.mul x a) (mul_comm width camera.fx)))
                          ∙ (sym (div_mul (n.mul camera.fx width) w a)
                              ∙ mul_comm (n.div (n.mul camera.fx width) w) a)))))

    ahead :
        (w width : F)
        → n.mul (n.div (n.literal 1 0) w) (n.mul camera.fx width) ≡ n.div (n.mul camera.fx width) w
    ahead w width =
        div_mul (n.literal 1 0) w (n.mul camera.fx width)
        ∙ ap (λ x. n.div x w) (one_mul (n.mul camera.fx width))

    position_run :
        (quotient : F → F → Result F) (blob : Blob F) (width : F)
        → camera.fy ≡ camera.fx
        → ((a : F) → quotient a camera.fx ≡ ok (n.div a camera.fx))
        → 0 < blob.width
        → (let distance = n.div (n.mul camera.fx width) (n.literal blob.width 0) in
            position_in_optical_frame quotient blob camera width
            ≡ ok (record {
              x = n.div (n.mul (n.sub blob.u camera.cx) distance) camera.fx;
              y = n.div (n.mul (n.sub blob.v camera.cy) distance) camera.fy;
              z = distance;
            }))
    unfolding position_in_optical_frame range_from_apparent_size
    position_run quotient blob width square q h =
        let e : leb blob.width 0 ≡ false = ground arith in
        let distance = n.div (n.mul camera.fx width) (n.literal blob.width 0) in
        let y = n.mul (n.sub blob.v camera.cy) distance in
        let down : quotient y camera.fy ≡ ok (n.div y camera.fy) =
          ap (quotient y) square ∙ (q y ∙ ap (λ f. ok (n.div y f)) (sym square)) in
        rw (e, q (n.mul (n.sub blob.u camera.cx) distance), down) refl

    -- Where products, quotients and one obey their laws and the focal length can be cancelled, and
    -- both focal
    -- lengths are one, a quotient by which does not raise: on a blob that is at least a pixel
    -- wide, the closed form on its features
    -- predicts the
    -- position that the detector gives.
    pub blob_features-predict :
        (sqrt : F → F) (quotient : F → F → Result F) (blob : Blob F) (width : F)
        → camera.fy ≡ camera.fx
        → ((a : F) → quotient a camera.fx ≡ ok (n.div a camera.fx))
        → 0 < blob.width
        → (blob_features sqrt blob camera geometric_features >>= predict camera width)
          ≡ position_in_optical_frame quotient blob camera width
    unfolding predict
    blob_features-predict sqrt quotient blob width square q h =
        let w = n.literal blob.width 0 in
        let across = scaled (n.sub blob.u camera.cx) w width in
        let down =
          scaled (n.sub blob.v camera.cy) w width
          ∙ ap (λ f. n.div (n.mul (n.sub blob.v camera.cy) (n.div (n.mul camera.fx width) w)) f)
              (sym square) in
        let forward = ahead w width in
        let same : Path (Result (Position F))
            (ok (record {
              x = n.mul (n.div (n.sub blob.u camera.cx) w) width;
              y = n.mul (n.div (n.sub blob.v camera.cy) w) width;
              z = n.mul (n.div (n.literal 1 0) w) (n.mul camera.fx width);
            }))
            (ok (record {
              x =
                  n.div (n.mul (n.sub blob.u camera.cx) (n.div (n.mul camera.fx width) w))
                    camera.fx;
              y =
                  n.div (n.mul (n.sub blob.v camera.cy) (n.div (n.mul camera.fx width) w))
                    camera.fy;
              z = n.div (n.mul camera.fx width) w;
            })) =
          λ i. ok (record { x = across i; y = down i; z = forward i }) in
        rw (blob_features-geometric sqrt blob camera)
          (same ∙ sym (position_run quotient blob width square q h))
