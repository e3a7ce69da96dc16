-- ===== src/Ml/Logistic.antt =====
-- internal/ml/ensemble.go: LogisticRegression. Rows and weights are lists; an index that is out of
-- range, because they differ in length, is a panic.
use coinex_bot.Prelude.{ℕ, zero, suc, List, [], ◌∷◌, Option, none, some, length, replicate}
use coinex_bot.Prelude.Results.{Result, ok, panic, ◌>>=◌}
use coinex_bot.Number.{Float}

pub record LogisticRegression (F : Type 0) : Type 0 where
  pub weights : Option (List F)
  pub bias : F
  pub lr : F
  pub epochs : ℕ

module _ {F : Type 0} ⦃f : Float F⦄ where
  open f use {literal, of_int, plus, minus, times, over, negate, exp}

  unfoldable pub new_logistic : LogisticRegression F
  new_logistic = record { weights = none; bias = of_int 0; lr = literal 1 100; epochs = 500 }

  unfoldable pub sigmoid : F → F
  sigmoid z = over (of_int 1) (plus (of_int 1) (exp (negate z)))

  -- for j, xij := range xi { z += lr.weights[j] * xij }
  unfoldable pub dot : F → List F → List F → Result F
  dot z ws [] = ok z
  dot z [] (x ∷ xs) = panic
  dot z (w ∷ ws) (x ∷ xs) = dot (plus z (times w x)) ws xs

  -- for j := range dw { dw[j] += err * xi[j] }
  unfoldable pub add_scaled : F → List F → List F → Result (List F)
  add_scaled e [] xs = ok []
  add_scaled e (g ∷ gs) [] = panic
  add_scaled e (g ∷ gs) (x ∷ xs) = add_scaled e gs xs >>= λ rest. ok (plus g (times e x) ∷ rest)

  -- The loop over the samples of one epoch, for dw and db.
  unfoldable pub gradient : F → List F → List F → F → List (List F) → List F → Result (List F × F)
  unfolding dot add_scaled sigmoid
  gradient bias ws dw db [] ys = ok (dw, db)
  gradient bias ws dw db (x ∷ xs) [] = panic
  gradient bias ws dw db (x ∷ xs) (y ∷ ys) = dot bias ws x >>= λ z.
      let e = minus (sigmoid z) y in
      add_scaled e dw x >>= λ dw'. gradient bias ws dw' (plus db e) xs ys

  -- for j := range lr.weights { lr.weights[j] -= lr.LR * dw[j] / float64(n) }
  unfoldable pub descend : F → F → List F → List F → Result (List F)
  descend rate n [] dw = ok []
  descend rate n (w ∷ ws) [] = panic
  descend rate n (w ∷ ws) (g ∷ gs) =
      descend rate n ws gs >>= λ rest. ok (minus w (over (times rate g) n) ∷ rest)

  unfoldable pub epoch : F → ℕ → List (List F) → List F → List F × F → Result (List F × F)
  unfolding gradient descend
  epoch rate width xs ys (ws, bias) =
      let n = of_int (length xs) in
      gradient bias ws (replicate width (of_int 0)) (of_int 0) xs ys >>= λ g.
      descend rate n ws g.0 >>= λ ws'. ok (ws', minus bias (over (times rate g.1) n))

  unfoldable pub train : ℕ → F → ℕ → List (List F) → List F → List F × F → Result (List F × F)
  unfolding epoch
  train zero rate width xs ys p = ok p
  train (suc epochs) rate width xs ys p =
      epoch rate width xs ys p >>= λ p'. train epochs rate width xs ys p'

  unfoldable pub weights_or_zeros : ℕ → Option (List F) → List F
  weights_or_zeros width none = replicate width (of_int 0)
  weights_or_zeros width (some ws) = ws

  -- The method `Fit`.
  unfoldable pub fit_logistic :
      LogisticRegression F → List (List F) → List F → Result (LogisticRegression F)
  unfolding train weights_or_zeros
  fit_logistic m [] ys = ok m
  fit_logistic m (x ∷ xs) ys =
      train m.epochs m.lr (length x) (x ∷ xs) ys (weights_or_zeros (length x) m.weights, m.bias)
      >>= λ p. ok (record m { weights = some p.0; bias = p.1 })

  -- With the test j < len(lr.weights).
  unfoldable pub dot_within : F → List F → List F → F
  dot_within z ws [] = z
  dot_within z [] (x ∷ xs) = z
  dot_within z (w ∷ ws) (x ∷ xs) = dot_within (plus z (times w x)) ws xs

  abbrev score : F → Option (List F) → List F → F
  unfolding dot_within sigmoid
  score bias none x = literal 5 10
  score bias (some ws) x = sigmoid (dot_within bias ws x)

  -- The method `Predict`.
  unfoldable pub predict_logistic : LogisticRegression F → List F → F
  unfolding dot_within sigmoid
  predict_logistic m x = score m.bias m.weights x
