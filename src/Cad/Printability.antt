-- ===== src/Cad/Printability.antt =====
-- cad/threevn_cad/printability.py: which faces of a part need support, and how to place it on the
-- bed. What the geometry kernel says of a face, sqrt, acos and degrees are arguments.
pub mod Best
pub mod Agreement
mod Samples
use vn_robotics.Prelude.{
  ℕ, Bool, true, false, not, ◌&&◌, ◌||◌, String, Option, none, some, List, [], ◌∷◌, map, ◌==◌,
  string_eq, if◌then◌else◌,
}
use vn_robotics.Py.Json.{Number}

abbrev pub Vector : Type 0 → Type 0
Vector F = F × F × F

-- A face. The normal and the centre are missing when the kernel raises for them.
pub record Face (F : Type 0) : Type 0 where
  pub planar : Bool
  pub normal : Option (Vector F)
  pub centre : Option (Vector F)
  pub area : F
  pub box : Vector F

pub record FacePoint (F : Type 0) : Type 0 where
  pub row_normal : Vector F
  pub row_area : F
  pub height : F

pub record Functions (F : Type 0) : Type 0 where
  pub sqrt : F → F
  pub acos : F → F
  pub degrees : F → F

-- The dict that `report` returns.
pub record PrintReport (F : Type 0) : Type 0 where
  pub unsupported_as_modelled : F
  pub best_label : String
  pub unsupported_best : F
  pub worst_face : F

abbrev pub as_modelled : String
as_modelled = "+Z up (as modelled)"

module _ {F : Type 0} where
  abbrev pub both_of : Option (Vector F) → Option (Vector F) → Option (Vector F × Vector F)
  both_of (some a) (some b) = some (a, b)
  both_of a b = none

  abbrev pub normal_and_area : Option (Vector F) → F → List (Vector F × F) → List (Vector F × F)
  normal_and_area none area rest = rest
  normal_and_area (some v) area rest = (v, area) ∷ rest

  -- _face_normals_and_areas
  unfoldable pub face_normals_and_areas : List (Face F) → List (Vector F × F)
  face_normals_and_areas [] = []
  face_normals_and_areas (f ∷ fs) =
      let rest = face_normals_and_areas fs in
      if f.planar then normal_and_area f.normal f.area rest else rest

module _ {F : Type 0} ⦃n : Number F⦄ where
  abbrev pub dot : Vector F → Vector F → F
  dot (a, b, c) (x, y, z) = n.add (n.add (n.mul a x) (n.mul b y)) (n.mul c z)

  abbrev zero_number : F
  zero_number = n.literal 0 0

  abbrev pub one_up : Vector F
  one_up = (zero_number, zero_number, n.literal 1 0)

  abbrev minus_one : F
  minus_one = n.sub (n.literal 0 0) (n.literal 1 0)

  abbrev pub other_orientations : List (String × Vector F)
  other_orientations =
      ("-Z up (flipped)", (zero_number, zero_number, minus_one))
      ∷ ("+X up", (n.literal 1 0, zero_number, zero_number))
      ∷ ("-X up", (minus_one, zero_number, zero_number))
      ∷ ("+Y up", (zero_number, n.literal 1 0, zero_number))
      ∷ ("-Y up", (zero_number, minus_one, zero_number))
      ∷ []

  -- ORIENTATIONS
  abbrev pub orientations : List (String × Vector F)
  orientations = (as_modelled, one_up) ∷ other_orientations

  -- min(a, b)
  abbrev pub least_of : F → F → F
  least_of a b = if n.lt b a then b else a

  abbrev pub plate_from : F → List (FacePoint F) → F
  plate_from lowest [] = lowest
  plate_from lowest (r ∷ rs) = plate_from (least_of lowest r.height) rs

  -- sorted(...)[1] of three sizes
  abbrev pub middle : Vector F → F
  middle (a, b, c) =
      let low = least_of a b in
      let high = if n.lt b a then a else b in
      if n.lt c low then low else if n.lt c high then c else high

  -- _span
  abbrev pub face_span : Face F → F
  face_span f = middle f.box

module _ {F : Type 0} ⦃n : Number F⦄ (functions : Functions F) where
  -- up / norm(up)
  abbrev pub unit_of : Vector F → Vector F
  unit_of (a, b, c) =
      let norm = functions.sqrt (dot (a, b, c) (a, b, c)) in
      (n.div a norm, n.div b norm, n.div c norm)

  abbrev pub angle_down : (component : F) → F
  angle_down component =
      functions.degrees
        (functions.acos (least_of (n.literal 1 0) (n.sub (n.literal 0 0) component)))

  abbrev pub overhang_angle : (normal up : Vector F) → Option F
  overhang_angle normal up =
      let component = dot normal up in
      if n.le (n.sub (n.literal 0 0) (n.literal 1 9)) component
      then none
      else some (angle_down component)

module _ {F : Type 0} ⦃n : Number F⦄ (up : Vector F) where
  abbrev pub point_row : Option (Vector F × Vector F) → F → List (FacePoint F) → List (FacePoint F)
  point_row none area rest = rest
  point_row (some (normal, centre)) area rest =
      record { row_normal = normal; row_area = area; height = dot centre up } ∷ rest

  -- _face_points, for a direction of length one
  unfoldable pub face_points : List (Face F) → List (FacePoint F)
  face_points [] = []
  face_points (f ∷ fs) =
      let rest = face_points fs in
      if f.planar then point_row (both_of f.normal f.centre) f.area rest else rest

module _ {F : Type 0} ⦃n : Number F⦄ (functions : Functions F) (up : Vector F) (plate : F) where
  abbrev pub on_plate : F → Bool
  on_plate height = n.lt (n.abs (n.sub height plate)) (n.literal 1 6)

  -- The angle of a face that points downward and does not rest on the plate.
  abbrev pub hanging : (normal : Vector F) (height : F) → Option F
  hanging normal height = if on_plate height then none else overhang_angle functions normal up

  abbrev pub needs_support : (limit bridge : F) → Face F → Option F → Bool
  needs_support limit bridge f none = false
  needs_support limit bridge f (some angle) =
      not (n.le limit angle) && not (not (n.eq bridge (n.literal 0 0)) && n.le (face_span f) bridge)

  abbrev pub face_total :
      (limit bridge : F) → Face F → Option (Vector F × Vector F) → (total : F) → F
  face_total limit bridge f none total = total
  face_total limit bridge f (some (normal, centre)) total =
      if needs_support limit bridge f (hanging normal (dot centre up))
      then n.add total f.area
      else total

  -- The loop of overhanging_area.
  unfoldable pub area_from : (limit bridge : F) → List (Face F) → (total : F) → F
  area_from limit bridge [] total = total
  area_from limit bridge (f ∷ fs) total =
      area_from limit bridge fs
        (if f.planar then face_total limit bridge f (both_of f.normal f.centre) total else total)

  abbrev pub worse : F → Option F → F
  worse worst none = worst
  worse worst (some angle) = least_of worst angle

  -- The loop of worst_overhang.
  unfoldable pub steepest_from : List (FacePoint F) → (worst : F) → F
  steepest_from [] worst = worst
  steepest_from (r ∷ rs) worst = steepest_from rs (worse worst (hanging r.row_normal r.height))

module _ {F : Type 0} ⦃n : Number F⦄ (functions : Functions F) where
  abbrev pub area_over : (limit bridge : F) (up : Vector F) → List (Face F) → List (FacePoint F) → F
  area_over limit bridge up faces [] = n.literal 0 0
  area_over limit bridge up faces (r ∷ rs) =
      area_from functions up (plate_from r.height rs) limit bridge faces (n.literal 0 0)

  unfoldable pub overhanging_area :
      List (Face F) → (build_dir : Vector F) → (limit_deg bridge_mm : F) → F
  unfolding area_from face_points
  overhanging_area faces build_dir limit_deg bridge_mm =
      let up = unit_of functions build_dir in
      area_over limit_deg bridge_mm up faces (face_points up faces)

  abbrev pub worst_over : (up : Vector F) → List (FacePoint F) → F
  worst_over up [] = n.literal 90 0
  worst_over up (r ∷ rs) =
      steepest_from functions up (plate_from r.height rs) (r ∷ rs) (n.literal 90 0)

  unfoldable pub worst_overhang : List (Face F) → (build_dir : Vector F) → F
  unfolding steepest_from face_points
  worst_overhang faces build_dir =
      let up = unit_of functions build_dir in worst_over up (face_points up faces)

  abbrev pub scored : List (Face F) → (limit_deg bridge_mm : F) → String × Vector F → F × String
  scored faces limit_deg bridge_mm (label, direction) =
      (overhanging_area faces direction limit_deg bridge_mm, label)

module _ {F : Type 0} ⦃n : Number F⦄ where
  -- The order of the keys (area, label != as_modelled).
  abbrev pub before_row : F × String → F × String → Bool
  before_row (a, s) (b, t) =
      if n.eq a b then (s == as_modelled) && not (t == as_modelled) else n.lt a b

  abbrev pub insert_row : F × String → List (F × String) → List (F × String)
  insert_row r [] = r ∷ []
  insert_row r (t ∷ ts) =
      let rest = insert_row r ts in if before_row t r then t ∷ rest else r ∷ t ∷ ts

  -- scored.sort(key=...), which is stable
  unfoldable pub sort_rows : List (F × String) → List (F × String)
  sort_rows [] = []
  sort_rows (r ∷ rs) = insert_row r (sort_rows rs)

  -- scored[0], where the six directions are never none
  abbrev pub first_row : List (F × String) → String × F
  first_row [] = (as_modelled, n.literal 0 0)
  first_row ((area, label) ∷ rest) = (label, area)

module _ {F : Type 0} ⦃n : Number F⦄ (functions : Functions F) where
  unfoldable pub best_orientation : List (Face F) → (limit_deg bridge_mm : F) → String × F
  unfolding sort_rows overhanging_area
  best_orientation faces limit_deg bridge_mm =
      first_row (sort_rows (map (scored functions faces limit_deg bridge_mm) orientations))

  unfoldable pub report : List (Face F) → (limit_deg bridge_mm : F) → PrintReport F
  unfolding best_orientation worst_overhang
  report faces limit_deg bridge_mm =
      let (label, area) = best_orientation faces limit_deg bridge_mm in
      record {
        unsupported_as_modelled = overhanging_area functions faces one_up limit_deg bridge_mm;
        best_label = label;
        unsupported_best = area;
        worst_face = worst_overhang functions faces one_up;
      }
