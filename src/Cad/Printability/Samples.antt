-- ===== src/Cad/Printability/Samples.antt =====
-- A floor and a ceiling above it. Numbers are counted in millionths from `origin`, so that there
-- are
-- negative ones.
use Prim.Native.Nat.{◌^◌}
use vn_robotics.Prelude.{
  ℕ, ◌+◌, ◌-◌, ◌*◌, ◌/◌, ◌≡◌, refl, true, some, List, [], ◌∷◌, ltb, leb, nat_eq, arith,
  if◌then◌else◌, string_eq,
}
use vn_robotics.Py.Json.{Number}
use vn_robotics.Cad.Printability.{
  Face, Functions, as_modelled, one_up, overhanging_area, worst_overhang, best_orientation,
}
use vn_robotics.Cad.Printability.Best.{LawfulOrder, IsBest, best_orientation-IsBest}
use vn_robotics.Cad.Printability.Agreement.{overhanging_area-worst_overhang}

abbrev origin : ℕ
origin = 1000000000000

-- The distance from the origin.
abbrev distance : ℕ → ℕ
distance a = if ltb a origin then origin - a else a - origin

abbrev product : (ℕ → ℕ → ℕ) → ℕ → ℕ → ℕ
product op a b =
    let c = op (distance a) (distance b) in
    if ltb a origin
    then if ltb b origin then origin + c else origin - c
    else if ltb b origin
    then origin - c
    else origin + c

instance abbrev signed_millionths : Number ℕ
signed_millionths = record {
  literal = λ n k. origin + n * 1000000 / 10 ^ k;
  eq = nat_eq;
  lt = ltb;
  le = leb;
  add = λ a b. a + b - origin;
  sub = λ a b. a + origin - b;
  mul = product (λ a b. a * b / 1000000);
  div = product (λ a b. a * 1000000 / b);
  abs = λ a. origin + distance a;
}

lawful_order : LawfulOrder signed_millionths
lawful_order = record {
  trans = λ a b c p q. ground arith;
  total = λ a b h. ground arith;
  lt_not = λ a b. ground arith;
  eq_both = λ a b. ground arith;
}

abbrev whole : ℕ → ℕ
whole k = origin + 1000000 * k

abbrev functions : Functions ℕ
functions = record {
  sqrt = λ a. a;
  acos = λ c. if leb (whole 1) c then whole 0 else whole 90;
  degrees = λ a. a;
}

abbrev looking_down : (height area : ℕ) → Face ℕ
looking_down height area = record {
  planar = true;
  normal = some (whole 0, whole 0, origin - 1000000);
  centre = some (whole 0, whole 0, whole height);
  area = whole area;
  box = (whole 20, whole 30, whole 0);
}

abbrev faces : List (Face ℕ)
faces = looking_down 0 40 ∷ looking_down 10 30 ∷ []

-- The ceiling needs support, unless it is bridged, and nothing does upside down.
support :
    (overhanging_area functions faces one_up (whole 45) (whole 0) ≡ whole 30)
    × (overhanging_area functions faces one_up (whole 45) (whole 20) ≡ whole 0)
    × (best_orientation functions faces (whole 45) (whole 0) ≡ ("-Z up (flipped)", whole 0))
    × (best_orientation functions faces (whole 45) (whole 20) ≡ (as_modelled, whole 0))
unfolding overhanging_area best_orientation
support = (refl, refl, refl, refl)

best_orientation-IsBest_example :
    let (label, area) = best_orientation functions faces (whole 45) (whole 0) in
    IsBest functions faces (whole 45) (whole 0) label area
best_orientation-IsBest_example =
    best_orientation-IsBest lawful_order functions faces (whole 45) (whole 0)

-- A face above the bed that looks down at a slant, within the limit.
abbrev leaning : Face ℕ
leaning = record (looking_down 10 30) { normal = some (whole 0, whole 0, origin - 500000) }

abbrev wedge : List (Face ℕ)
wedge = looking_down 0 40 ∷ leaning ∷ []

leans : worst_overhang functions wedge one_up ≡ whole 90
unfolding worst_overhang
leans = refl

within_limit : signed_millionths.le (whole 45) (worst_overhang functions wedge one_up) ≡ true
unfolding worst_overhang
within_limit = refl

overhanging_area-worst_overhang_example :
    overhanging_area functions wedge one_up (whole 45) (whole 0) ≡ whole 0
overhanging_area-worst_overhang_example =
    overhanging_area-worst_overhang lawful_order functions wedge one_up (whole 45) (whole 0)
      within_limit
