-- ===== src/Data/Dataset/Frames.antt =====
-- split_by_frame: a partition of the shuffled frames.
use vn_robotics.Prelude.{
  ℕ, zero, suc, ◌+◌, ◌≡◌, refl, sym, ◌∙◌, ap, List, [], ◌∷◌, ◌++◌, length, take, drop, arith,
  take-append-drop,
}
use vn_robotics.Data.Dataset.{Frame, split_by_frame}

drop-nil {ℓ} : {A : Type ℓ} (n : ℕ) → drop {A = A} n [] ≡ []
drop-nil zero = refl
drop-nil (suc n) = refl

drop-drop {ℓ} : {A : Type ℓ} (m n : ℕ) (xs : List A) → drop n (drop m xs) ≡ drop (m + n) xs
drop-drop zero n xs = ap (λ k. drop k xs) (omega arith)
drop-drop (suc m) n [] = drop-nil n ∙ sym (drop-nil (suc m + n))
drop-drop (suc m) n (x ∷ xs) =
    let e : suc (m + n) ≡ suc m + n = omega arith in drop-drop m n xs ∙ ap (λ k. drop k (x ∷ xs)) e

module _ {F : Type 0} where
  -- The parts of a split by frame are together the shuffled frames, in their order.
  pub split_by_frame-append :
      (shuffle : List (Frame F) → List (Frame F)) (cut_train cut_val : ℕ → ℕ)
      (frames : List (Frame F))
      → let s = split_by_frame shuffle cut_train cut_val frames in
        s.train_frames ++ (s.val_frames ++ s.test_frames) ≡ shuffle frames
  unfolding split_by_frame
  split_by_frame-append shuffle cut_train cut_val frames =
      let shuffled = shuffle frames in
      let m = cut_train (length shuffled) in
      let n = cut_val (length shuffled) in
      ap (λ l. take m shuffled ++ (take n (drop m shuffled) ++ l)) (sym (drop-drop m n shuffled))
      ∙ ap (λ l. take m shuffled ++ l) (take-append-drop n (drop m shuffled))
      ∙ take-append-drop m shuffled
