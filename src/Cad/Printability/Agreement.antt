-- ===== src/Cad/Printability/Agreement.antt =====
-- The two screenings of a part agree: a worst angle within the limit leaves no area to support.
use vn_robotics.Prelude.{
  ◌≡◌, refl, ◌∙◌, ap, Bool, true, false, inl, inr, Option, none, some, List, [], ◌∷◌, arith,
  if◌then◌else◌, Bool-cases,
}
use mathlib.Core.Path.{subst}
use vn_robotics.Py.Json.{Number}
use vn_robotics.Cad.Printability.{
  Vector, Face, FacePoint, Functions, dot, least_of, plate_from, unit_of, both_of, point_row,
  face_points, hanging, needs_support, face_total, area_from, worse, steepest_from, area_over,
  worst_over, overhanging_area, worst_overhang,
}
use vn_robotics.Cad.Printability.Best.{LawfulOrder}

module _ {F : Type 0} ⦃n : Number F⦄ (law : LawfulOrder n) where
  least_of-le : (a b c : F) → n.le c (least_of a b) ≡ true → (n.le c a ≡ true) × (n.le c b ≡ true)
  least_of-le a b c h = elim (Bool-cases (n.le a b)) [
    | inl e ↦
        let here : n.le c a ≡ true = ground (arith, e, h, law.lt_not b a) in
        (here, law.trans c a b here e)
    | inr e ↦
        let here : n.le c b ≡ true = ground (arith, e, h, law.lt_not b a) in
        (law.trans c b a here (law.total a b e), here)
  ]

module _ {F : Type 0} ⦃n : Number F⦄ (law : LawfulOrder n) (functions : Functions F) (up : Vector F)
    (plate limit bridge : F) where
  -- The worst angle bounds that of each face.
  worse-le :
      (worst : F) (o : Option F)
      → n.le limit (worse functions up plate worst o) ≡ true
      → n.le limit worst ≡ true
  worse-le worst none h = h
  worse-le worst (some angle) h = (least_of-le law worst angle limit h).0

  steepest_from-le :
      (rows : List (FacePoint F)) (worst : F)
      → n.le limit (steepest_from functions up plate rows worst) ≡ true
      → n.le limit worst ≡ true
  unfolding steepest_from
  steepest_from-le [] worst h = h
  steepest_from-le (r ∷ rs) worst h = worse-le worst _ (steepest_from-le rs _ h)

  supported :
      (f : Face F) (worst : F) (o : Option F)
      → n.le limit (worse functions up plate worst o) ≡ true
      → needs_support functions up plate limit bridge f o ≡ false
  supported f worst none h = refl
  supported f worst (some angle) h = ground (arith, (least_of-le law worst angle limit h).1)

  kept_step :
      (planar : Bool) (f : Face F) (points : Option (Vector F × Vector F))
      (rest : List (FacePoint F)) (worst total : F)
      → n.le limit (
          steepest_from functions up plate
            (if planar then point_row up points f.area rest else rest)
            worst)
        ≡ true
      → (worst' : F) × (n.le limit (steepest_from functions up plate rest worst') ≡ true)
        × ((if planar then face_total functions up plate limit bridge f points total else total)
            ≡ total)
  unfolding steepest_from
  kept_step false f points rest worst total h = (worst, h, refl)
  kept_step true f none rest worst total h = (worst, h, refl)
  kept_step true f (some (normal, centre)) rest worst total h =
      let o = hanging functions up plate normal (dot centre up) in
      let none_needed = supported f worst o (steepest_from-le rest _ h) in
      (worse functions up plate worst o, h, rw none_needed refl)

  pub area_from-kept :
      (faces : List (Face F)) (worst total : F)
      → n.le limit (steepest_from functions up plate (face_points up faces) worst) ≡ true
      → area_from functions up plate limit bridge faces total ≡ total
  unfolding area_from face_points steepest_from
  area_from-kept [] worst total h = refl
  area_from-kept (f ∷ fs) worst total h =
      let (worst', bound, same) =
        kept_step f.planar f (both_of f.normal f.centre) (face_points up fs) worst total h in
      ap (area_from functions up plate limit bridge fs) same ∙ area_from-kept fs worst' total bound

module _ {F : Type 0} ⦃n : Number F⦄ (law : LawfulOrder n) (functions : Functions F) where
  over_kept :
      (up : Vector F) (limit bridge : F) (faces : List (Face F)) (rows : List (FacePoint F))
      → rows ≡ face_points up faces
      → n.le limit (worst_over functions up rows) ≡ true
      → area_over functions limit bridge up faces rows ≡ n.literal 0 0
  over_kept up limit bridge faces [] e h = refl
  over_kept up limit bridge faces (r ∷ rs) e h =
      area_from-kept law functions up (plate_from r.height rs) limit bridge faces (n.literal 90 0) _
        (subst
          (λ rows.
            n.le limit (steepest_from functions up (plate_from r.height rs) rows (n.literal 90 0))
            ≡ true)
          e h)

  -- When the comparisons are a total order, a part whose worst overhang in some direction is at
  -- least the limit has no area that needs support in this direction, whatever is bridged.
  pub overhanging_area-worst_overhang :
      (faces : List (Face F)) (build_dir : Vector F) (limit_deg bridge_mm : F)
      → n.le limit_deg (worst_overhang functions faces build_dir) ≡ true
      → overhanging_area functions faces build_dir limit_deg bridge_mm ≡ n.literal 0 0
  unfolding worst_overhang overhanging_area
  overhanging_area-worst_overhang faces build_dir limit_deg bridge_mm h =
      let up = unit_of functions build_dir in
      over_kept up limit_deg bridge_mm faces (face_points up faces) refl h
