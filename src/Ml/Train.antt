-- ===== src/Ml/Train.antt =====
-- src/threevn_ml/threevn_ml/train.py: what is trained on, and the artifact that is written. numpy's
-- computations, the opened images with their features, and the cached arrays are arguments. The
-- intrinsics in the manifest are read as numbers, and the ids of episodes are numbers.
pub mod Artifact
pub mod Accepted
pub mod Gated
mod Samples
use vn_robotics.Prelude.{
  ℕ, zero, suc, ◌≡◌, Bool, true, false, ◌&&◌, String, Option, none, some, List, [], ◌∷◌, ◌++◌, map,
  length, ◌==◌, number_eq, string_eq, if◌then◌else◌,
}
use vn_robotics.Py.Errors.{
  Result, ok, raise, index_error, value_error, key_error, zero_division, ◌>>=◌,
}
use vn_robotics.Py.Json.{Number, Json, as_number}
use vn_robotics.Mlops.Gates.Names.{same_texts}
use vn_robotics.Data.Dataset.{Frame, Split, split_by_episode}
use vn_robotics.Data.Collect.Session.{element}
use vn_robotics.Perception.Image.{Intrinsics, Position}
use vn_robotics.Ml.Features.{geometric_features, shape_features, predict, intrinsics_from_manifest}

abbrev pub Matrix : Type 0 → Type 0
Matrix F = List (List F)

-- The dict that `errors` returns.
pub record ErrorSummary (F : Type 0) : Type 0 where
  pub count : ℕ
  pub median_mm : F
  pub p95_mm : F
  pub max_mm : F
  pub mae_x_mm : F
  pub mae_y_mm : F
  pub mae_z_mm : F
  pub bias_z_mm : F

pub record Ridge (F : Type 0) : Type 0 where
  pub alpha : F
  pub weights : Matrix F
  pub intercept : List F

pub record Numerics (F : Type 0) : Type 0 where
  pub solve : (alpha : F) → (features targets : Matrix F) → Result (Matrix F × List F)
  pub apply : Ridge F → Matrix F → Result (Matrix F)
  pub measure : (predicted actual : Matrix F) → Result (ErrorSummary F)
  pub mean : Matrix F → Result (List F)
  pub std : Matrix F → Result (List F)
  pub minimum : Matrix F → Result (List F)
  pub maximum : Matrix F → Result (List F)

-- features.npz
pub record Stored (F : Type 0) : Type 0 where
  pub names : List String
  pub stored_features : Matrix F
  pub stored_labels : Matrix F

-- What load_features returns, and the file that it writes.
pub record Featured (F : Type 0) : Type 0 where
  pub features : Matrix F
  pub labels : Matrix F
  pub frames : List (Frame F)
  pub cached : Option (Stored F)

-- The rows of each part.
pub record Parts : Type 0 where
  pub train_rows : List ℕ
  pub val_rows : List ℕ
  pub test_rows : List ℕ

pub record Scores (F : Type 0) : Type 0 where
  pub on_train : ErrorSummary F
  pub on_val : ErrorSummary F
  pub on_test : ErrorSummary F

-- A fitted variant.
pub record Fitted (F : Type 0) : Type 0 where
  pub ridge : Ridge F
  pub picked : List ℕ
  pub scores : Scores F

abbrev position_of : Frame ℕ → ℕ
position_of f = f.stamp

abbrev parts_of : Split ℕ → Parts
parts_of s = record {
  train_rows = map position_of s.train_frames;
  val_rows = map position_of s.val_frames;
  test_rows = map position_of s.test_frames;
}

module _ {F : Type 0} where
  abbrev pub add_row : Frame F → Option (List F) → Featured F → Featured F
  add_row f none rest = rest
  add_row f (some vector) rest = record rest {
    features = vector ∷ rest.features;
    labels = f.label ∷ rest.labels;
    frames = f ∷ rest.frames;
  }

  -- The loop over the frames.
  unfoldable pub featurise_all :
      (featurise : Frame F → Result (Option (List F))) → List (Frame F) → Result (Featured F)
  featurise_all featurise [] =
      ok (record { features = []; labels = []; frames = []; cached = none })
  featurise_all featurise (f ∷ fs) = do
    vector ← featurise f
    rest ← featurise_all featurise fs
    ok (add_row f vector rest)

  -- np.savez, if every frame was kept and the cache is wanted
  abbrev pub with_cache : (cache : Bool) (count : ℕ) → Featured F → Featured F
  with_cache cache count found =
      if cache && (length found.frames == count)
      then record found {
        cached = some (record {
          names = shape_features;
          stored_features = found.features;
          stored_labels = found.labels;
        });
      }
      else found

  abbrev pub is_reusable : Stored F → List (Frame F) → Bool
  is_reusable stored frames =
      same_texts stored.names shape_features && (length stored.stored_features == length frames)

  abbrev pub extract_all :
      (featurise : Frame F → Result (Option (List F))) (cache : Bool)
      → List (Frame F)
      → Result (Featured F)
  extract_all featurise cache frames = do
    found ← featurise_all featurise frames
    ok (with_cache cache (length frames) found)

  abbrev pub reuse_or :
      (featurise : Frame F → Result (Option (List F)))
      → Option (Stored F)
      → List (Frame F)
      → Result (Featured F)
  reuse_or featurise none frames = extract_all featurise true frames
  reuse_or featurise (some stored) frames =
      let fresh = extract_all featurise true frames in
      if is_reusable stored frames
      then ok (record {
        features = stored.stored_features;
        labels = stored.stored_labels;
        frames = frames;
        cached = none;
      })
      else fresh

  -- The file is read only if the cache is wanted.
  unfoldable pub load_features :
      (featurise : Frame F → Result (Option (List F))) (cache : Bool)
      → Option (Stored F)
      → List (Frame F)
      → Result (Featured F)
  unfolding featurise_all
  load_features featurise false file frames = extract_all featurise false frames
  load_features featurise true file frames = reuse_or featurise file frames

  -- The frames with their positions, which stand for their identities.
  number_frames : ℕ → List (Frame F) → List (Frame ℕ)
  number_frames i [] = []
  number_frames i (f ∷ fs) =
      record { image = f.image; episode = f.episode; index = f.index; label = []; stamp = i }
      ∷ number_frames (suc i) fs

  unfoldable pub parts_by_episode :
      (shuffle : List ℕ → List ℕ) (round_train round_val : ℕ → ℕ) → List (Frame F) → Result Parts
  unfolding number_frames
  parts_by_episode shuffle round_train round_val frames = do
    s ← split_by_episode shuffle round_train round_val (number_frames 0 frames)
    ok (parts_of s)

-- [xs[i] for i in indices]
unfoldable pub rows_at {ℓ} : {A : Type ℓ} → List ℕ → List A → Result (List A)
rows_at [] xs = ok []
rows_at (i ∷ is) xs = do x ← element i xs; rest ← rows_at is xs; ok (x ∷ rest)

each : {A B : Type 0} → (A → Result B) → List A → Result (List B)
each f [] = ok []
each f (x ∷ xs) = do y ← f x; ys ← each f xs; ok (y ∷ ys)

-- features[np.ix_(rows, columns)]
unfoldable pub block : {A : Type 0} → (rows columns : List ℕ) → Matrix A → Result (Matrix A)
unfolding each rows_at
block rows columns m = do chosen ← rows_at rows m; each (rows_at columns) chosen

-- columns[name], of {name: i for i, name in enumerate(names)}; the names differ
column_named : (i : ℕ) → List String → String → Result ℕ
column_named i [] name = raise (key_error name)
column_named i (n ∷ ns) name =
    let rest = column_named (suc i) ns name in if n == name then ok i else rest

unfoldable pub columns_of : List String → Result (List ℕ)
unfolding each column_named
columns_of names = each (column_named 0 shape_features) names

module _ {F : Type 0} (numerics : Numerics F) where
  abbrev score_part :
      (model : Matrix F → Result (Matrix F)) (columns : List ℕ) (features labels : Matrix F)
      (rows : List ℕ)
      → Result (ErrorSummary F)
  score_part model columns features labels rows = do
    x ← block rows columns features
    predicted ← model x
    actual ← rows_at rows labels
    numerics.measure predicted actual

  unfoldable pub score_all :
      (model : Matrix F → Result (Matrix F)) (columns : List ℕ) (features labels : Matrix F)
      → Parts
      → Result (Scores F)
  score_all model columns features labels parts = do
    a ← score_part model columns features labels parts.train_rows
    b ← score_part model columns features labels parts.val_rows
    c ← score_part model columns features labels parts.test_rows
    ok (record { on_train = a; on_val = b; on_test = c })

  -- One round of the loop over the variants.
  unfoldable pub fit_variant :
      (alpha : F) (names : List String) (features labels : Matrix F) → Parts → Result (Fitted F)
  unfolding score_all
  fit_variant alpha names features labels parts = do
    picked ← columns_of names
    x ← block parts.train_rows picked features
    y ← rows_at parts.train_rows labels
    solved ← numerics.solve alpha x y
    let ridge : Ridge F = record { alpha = alpha; weights = solved.0; intercept = solved.1 }
    scores ← score_all (numerics.apply ridge) picked features labels parts
    ok (record { ridge = ridge; picked = picked; scores = scores })

module _ {F : Type 0} ⦃n : Number F⦄ where
  abbrev coordinates : Position F → List F
  coordinates p = p.x ∷ p.y ∷ p.z ∷ []

  -- baseline.predict
  unfoldable pub predict_rows : Intrinsics F → (target_width : F) → Matrix F → Result (Matrix F)
  unfolding each
  predict_rows camera target_width rows = do
    positions ← each (predict camera target_width) rows
    ok (map coordinates positions)

  -- What dividing by a score asks.
  abbrev pub refuse_zero : F → Result {0} Unit
  refuse_zero x = if n.eq x (n.literal 0 0) then raise zero_division else ok tt

  unfoldable pub numbers_of : Intrinsics (Json F) → Result (Intrinsics F)
  numbers_of camera = do
    fx ← as_number camera.fx
    fy ← as_number camera.fy
    cx ← as_number camera.cx
    cy ← as_number camera.cy
    ok (record { fx = fx; fy = fy; cx = cx; cy = cy })
