-- ===== src/Ml/Ridge.antt =====
-- src/threevn_ml/threevn_ml/models.py: Ridge.predict on one vector of features, which is what the
-- serving node gives it. The model is fitted, so that the weights are there: a rectangular matrix,
-- a
-- row per feature. Sums run over the rows from the first; the source leaves the order to numpy.
use vn_robotics.Prelude.{
  ℕ, suc, ◌≡◌, refl, sym, ◌∙◌, ap, List, [], ◌∷◌, map, length, ◌==◌, number_eq, if◌then◌else◌,
  arith,
}
use vn_robotics.Py.Json.{Number}
use vn_robotics.Py.Errors.{Result, ok, raise, value_error, ◌>>=◌}
use vn_robotics.Ml.Train.{Ridge, Matrix}

module _ {F : Type 0} ⦃n : Number F⦄ where
  abbrev pub add_each : List F → List F → List F
  add_each [] ys = []
  add_each (x ∷ xs) [] = []
  add_each (x ∷ xs) (y ∷ ys) = n.add x y ∷ add_each xs ys

  -- vector @ weights
  unfoldable pub dot_rows : List F → Matrix F → Result (List F)
  dot_rows (x ∷ []) (row ∷ []) = ok (map (n.mul x) row)
  dot_rows (x ∷ y ∷ xs) (row ∷ next ∷ rows) = do
    rest ← dot_rows (y ∷ xs) (next ∷ rows)
    ok (add_each (map (n.mul x) row) rest)
  dot_rows xs rows = raise value_error

  -- The sum of two vectors; one number is broadcast.
  abbrev pub add_vectors : List F → List F → Result (List F)
  add_vectors (x ∷ []) ys = ok (map (λ y. n.add x y) ys)
  add_vectors xs (y ∷ []) = ok (map (λ x. n.add x y) xs)
  add_vectors xs ys = if length xs == length ys then ok (add_each xs ys) else raise value_error

  unfoldable pub ridge_predict : Ridge F → List F → Result (List F)
  unfolding dot_rows
  ridge_predict model features = do
    row ← dot_rows features model.weights
    add_vectors row model.intercept

  length-map : (f : F → F) (xs : List F) → length (map f xs) ≡ length xs
  length-map f [] = refl
  length-map f (x ∷ xs) = ap suc (length-map f xs)

  length-add_each : (xs ys : List F) → length xs ≡ length ys → length (add_each xs ys) ≡ length xs
  length-add_each [] ys h = refl
  length-add_each (x ∷ xs) [] h = absurd (omega (arith, h))
  length-add_each (x ∷ xs) (y ∷ ys) h = ap suc (length-add_each xs ys (omega (arith, h)))

  -- Every row has as many numbers as there are outputs.
  abbrev pub IsWide : ℕ → Matrix F → Type 0
  IsWide k [] = Unit {0}
  IsWide k (row ∷ rows) = (length row ≡ k) × IsWide k rows

  dot_rows-length :
      (k : ℕ) (x : F) (xs : List F) (row : List F) (rows : Matrix F)
      → length xs ≡ length rows
      → IsWide k (row ∷ rows)
      → (out : List F) × (dot_rows (x ∷ xs) (row ∷ rows) ≡ ok out) × (length out ≡ k)
  unfolding dot_rows
  dot_rows-length k x [] row [] l (w, ws) = (map (n.mul x) row, refl, length-map (n.mul x) row ∙ w)
  dot_rows-length k x [] row (next ∷ rows) l ws = absurd (omega (arith, l))
  dot_rows-length k x (y ∷ ys) row [] l ws = absurd (omega (arith, l))
  dot_rows-length k x (y ∷ ys) row (next ∷ rows) l (w, ws) =
      let (out, run, long) = dot_rows-length k y ys next rows (omega (arith, l)) ws in
      let wide = length-map (n.mul x) row ∙ w in
      (
        add_each (map (n.mul x) row) out,
        rw run refl,
        length-add_each (map (n.mul x) row) out (wide ∙ sym long) ∙ wide,
      )

  -- The weights of seven features and three coordinates, as Ridge.fit makes them.
  pub record HasShape (model : Ridge F) : Type 0 where
    pub seven_rows : length model.weights ≡ 7
    pub three_columns : IsWide 3 model.weights
    pub three_intercepts : length model.intercept ≡ 3

  -- Three numbers or more.
  abbrev pub Placeable : Result (List F) → Type 0
  Placeable result = (x y z : F) × (rest : List F) × (result ≡ ok (x ∷ y ∷ z ∷ rest))

  three_of : (xs : List F) → length xs ≡ 3 → (a b c : F) × (xs ≡ a ∷ b ∷ c ∷ [])
  three_of (a ∷ b ∷ c ∷ []) h = (a, b, c, refl)
  three_of [] h = absurd (omega (arith, h))
  three_of (a ∷ []) h = absurd (omega (arith, h))
  three_of (a ∷ b ∷ []) h = absurd (omega (arith, h))
  three_of (a ∷ b ∷ c ∷ d ∷ xs) h = absurd (omega (arith, h))

  add_vectors-Placeable :
      (xs ys : List F) → length xs ≡ 3 → length ys ≡ 3 → Placeable (add_vectors xs ys)
  add_vectors-Placeable xs ys h k =
      let (a, b, c, e) = three_of xs h in
      let (a', b', c', e') = three_of ys k in
      rw e (rw e' (n.add a a', n.add b b', n.add c c', [], refl))

  dot_rows-ok :
      (xs : List F) (rows : Matrix F)
      → length xs ≡ 7
      → length rows ≡ 7
      → IsWide 3 rows
      → (out : List F) × (dot_rows xs rows ≡ ok out) × (length out ≡ 3)
  dot_rows-ok [] rows h k w = absurd (omega (arith, h))
  dot_rows-ok (x ∷ xs) [] h k w = absurd (omega (arith, k))
  dot_rows-ok (x ∷ xs) (row ∷ rows) h k w = dot_rows-length 3 x xs row rows (omega (arith, h, k)) w

  pub ridge_predict-Placeable :
      (model : Ridge F) (features : List F)
      → HasShape model
      → length features ≡ 7
      → Placeable (ridge_predict model features)
  unfolding ridge_predict
  ridge_predict-Placeable model features shape l =
      let (out, run, three) =
        dot_rows-ok features model.weights l shape.seven_rows shape.three_columns in
      rw run (add_vectors-Placeable out model.intercept three shape.three_intercepts)
