-- ===== src/Ml/Boost.antt =====
-- internal/ml/ensemble.go: the decision stumps and GradientBoost. There is a label for each row, as
-- `MaybeRetrain` passes them.
use coinex_bot.Prelude.{
  ℕ, zero, suc, ◌+◌, List, [], ◌∷◌, ◌++◌, if◌then◌else◌, ltb, length, replicate,
}
use coinex_bot.Prelude.Results.{Result, ok, panic, ◌>>=◌}
use coinex_bot.Prelude.Slices.{index, map_ok, zip_with}
use coinex_bot.Number.{sum_floats, Float}

pub record Stump (F : Type 0) : Type 0 where
  pub feature : ℕ
  pub threshold : F
  pub left_val : F
  pub right_val : F

pub record GradientBoost (F : Type 0) : Type 0 where
  pub trees : List (Stump F)
  pub lr : F
  pub n_estimators : ℕ

-- leftSum, leftCount, rightSum and rightCount
pub record Sides (F : Type 0) : Type 0 where
  pub left_sum : F
  pub left_count : ℕ
  pub right_sum : F
  pub right_count : ℕ

module _ {F : Type 0} ⦃f : Float F⦄ where
  open f use {literal, of_int, plus, minus, times, over, lt, le, neg_inf}

  unfoldable pub new_boost : GradientBoost F
  new_boost = record { trees = []; lr = literal 1 10; n_estimators = 50 }

  -- The method `predict` of a stump.
  unfoldable pub predict_stump : Stump F → List F → Result F
  unfolding index
  predict_stump s x =
      index x s.feature >>= λ v. ok (if le v s.threshold then s.left_val else s.right_val)

  unfoldable pub clamp : F → F
  clamp p = if lt (of_int 1) p then of_int 1 else if lt p (of_int 0) then of_int 0 else p

  -- The loop that splits the residuals at the threshold.
  unfoldable pub split : F → Sides F → List F → List F → Sides F
  split thresh s [] rs = s
  split thresh s (v ∷ vs) [] = s
  split thresh s (v ∷ vs) (r ∷ rs) =
      split thresh
        (if le v thresh
          then record s { left_sum = plus s.left_sum r; left_count = s.left_count + 1 }
          else record s { right_sum = plus s.right_sum r; right_count = s.right_count + 1 })
        vs rs

  unfoldable pub mean_or_zero : F → ℕ → F
  mean_or_zero sum count = if ltb 0 count then over sum (of_int count) else of_int 0

  -- The loop `gain -= r * r`.
  unfoldable pub gain_of_split : F → F → F → F → List F → List F → F
  gain_of_split thresh lv rv gain [] rs = gain
  gain_of_split thresh lv rv gain (v ∷ vs) [] = gain
  gain_of_split thresh lv rv gain (v ∷ vs) (res ∷ rs) =
      let r = minus res (if le v thresh then lv else rv) in
      gain_of_split thresh lv rv (minus gain (times r r)) vs rs

  -- The stump on one column, with its gain.
  unfoldable pub try_stump : ℕ → List F → List F → F × Stump F
  unfolding split mean_or_zero gain_of_split sum_floats
  try_stump feature vals residuals =
      let thresh = over (sum_floats vals) (of_int (length vals)) in
      let start : Sides F = record {
        left_sum = of_int 0;
        left_count = 0;
        right_sum = of_int 0;
        right_count = 0;
      } in
      let s = split thresh start vals residuals in
      let lv = mean_or_zero s.left_sum s.left_count in
      let rv = mean_or_zero s.right_sum s.right_count in
      (
        gain_of_split thresh lv rv (of_int 0) vals residuals,
        record { feature = feature; threshold = thresh; left_val = lv; right_val = rv },
      )

  -- The loop over the `count` features from `feature` on, with the best gain and stump so far.
  unfoldable pub search_stump : ℕ → ℕ → List (List F) → List F → F × Stump F → Result (Stump F)
  unfolding index map_ok try_stump
  search_stump zero feature rows residuals best = ok best.1
  search_stump (suc count) feature rows residuals best =
      map_ok (λ row. index row feature) rows >>= λ vals.
      let tried = try_stump feature vals residuals in
      search_stump count (suc feature) rows residuals (if lt best.0 tried.0 then tried else best)

  abbrev pub no_stump : Stump F
  no_stump = record { feature = 0; threshold = of_int 0; left_val = of_int 0; right_val = of_int 0 }

  unfoldable pub best_stump : List (List F) → List F → Result (Stump F)
  unfolding search_stump
  best_stump [] residuals = ok no_stump
  best_stump (row ∷ rows) residuals =
      search_stump (length row) 0 (row ∷ rows) residuals (neg_inf, no_stump)

  -- preds[i] += gb.lr * best.predict(xi), and the clamp
  unfoldable pub update_preds : F → Stump F → List (List F) → List F → Result (List F)
  unfolding predict_stump clamp
  update_preds rate best [] preds = ok []
  update_preds rate best (row ∷ rows) [] = panic
  update_preds rate best (row ∷ rows) (p ∷ preds) = predict_stump best row >>= λ v.
      update_preds rate best rows preds >>= λ rest. ok (clamp (plus p (times rate v)) ∷ rest)

  -- `rounds` more trees.
  unfoldable pub grow :
      ℕ → F → List (List F) → List F → List F → List (Stump F) → Result (List (Stump F))
  unfolding zip_with best_stump update_preds
  grow zero rate rows ys preds trees = ok trees
  grow (suc rounds) rate rows ys preds trees = best_stump rows (zip_with minus ys preds) >>= λ best.
      update_preds rate best rows preds >>= λ preds'.
      grow rounds rate rows ys preds' (trees ++ (best ∷ []))

  -- The method `Fit`.
  unfoldable pub fit_boost : GradientBoost F → List (List F) → List F → Result (GradientBoost F)
  unfolding grow
  fit_boost m [] ys = ok m
  fit_boost m (row ∷ rows) ys =
      grow m.n_estimators m.lr (row ∷ rows) ys (replicate (length (row ∷ rows)) (literal 5 10)) []
      >>= λ trees. ok (record m { trees = trees })

  unfoldable pub add_trees : F → F → List (Stump F) → List F → Result F
  unfolding predict_stump
  add_trees rate pred [] x = ok pred
  add_trees rate pred (t ∷ ts) x =
      predict_stump t x >>= λ v. add_trees rate (plus pred (times rate v)) ts x

  -- The method `Predict`.
  unfoldable pub predict_boost : GradientBoost F → List F → Result F
  unfolding add_trees clamp
  predict_boost m x = add_trees m.lr (literal 5 10) m.trees x >>= λ pred. ok (clamp pred)
