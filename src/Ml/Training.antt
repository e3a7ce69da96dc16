-- ===== src/Ml/Training.antt =====
-- internal/ml/ensemble.go: the training of both models, on rows of one width.
use coinex_bot.Prelude.{
  ℕ, zero, suc, ◌+◌, ◌≤◌, ◌<◌, ◌≡◌, refl, sym, ◌∙◌, subst, List, [], ◌∷◌, ◌++◌, Option, none, some,
  arith, length, length-replicate, All, All-append,
}
use coinex_bot.Prelude.Results.{Gives, gives, Gives-bind, Gives-imp}
use coinex_bot.Prelude.Slices.{index, map_ok, index-Gives, map_ok-Gives}
use coinex_bot.Number.{Float}
use coinex_bot.Indicators.Totals.{Returns, All-unit}
use coinex_bot.Ml.Logistic.{
  LogisticRegression, dot, add_scaled, gradient, descend, epoch, train, weights_or_zeros,
  fit_logistic,
}
use coinex_bot.Ml.Boost.{
  Stump, GradientBoost, predict_stump, search_stump, best_stump, update_preds, grow, fit_boost,
  add_trees, predict_boost,
}

abbrev pub AreRows : {F : Type 0} → ℕ → List (List F) → Type 0
AreRows width rows = All (λ row. length row ≡ width) rows

-- The weights, once there are any, are as many as the columns.
abbrev pub HasWeights : {F : Type 0} → ℕ → Option (List F) → Type 0
HasWeights width none = Unit {0}
HasWeights width (some ws) = length ws ≡ width

-- Each tree reads a column that is there.
abbrev pub AreTrees : {F : Type 0} → ℕ → List (Stump F) → Type 0
AreTrees width trees = All (λ t. t.feature < width) trees

module _ {F : Type 0} ⦃f : Float F⦄ where
  dot-Gives : (ws xs : List F) (z : F) → length ws ≡ length xs → Returns (dot z ws xs)
  unfolding dot
  dot-Gives ws [] z h = gives tt
  dot-Gives [] (x ∷ xs) z h = absurd (omega arith)
  dot-Gives (w ∷ ws) (x ∷ xs) z h = dot-Gives ws xs _ (omega arith)

  add_scaled-Gives :
      (e : F) (gs xs : List F)
      → length gs ≡ length xs
      → Gives (λ (r : List F). length r ≡ length gs) (add_scaled e gs xs)
  unfolding add_scaled
  add_scaled-Gives e [] xs h = gives refl
  add_scaled-Gives e (g ∷ gs) [] h = absurd (omega arith)
  add_scaled-Gives e (g ∷ gs) (x ∷ xs) h =
      Gives-bind (add_scaled-Gives e gs xs (omega arith)) (λ r n. gives (omega arith))

  gradient-Gives :
      (width : ℕ) (bias : F) (ws : List F) (rows : List (List F)) (ys dw : List F) (db : F)
      → length ws ≡ width
      → length dw ≡ width
      → AreRows width rows
      → length ys ≡ length rows
      → Gives (λ (g : List F × F). length g.0 ≡ width) (gradient bias ws dw db rows ys)
  unfolding gradient
  gradient-Gives width bias ws [] ys dw db hw hd hr hy = gives hd
  gradient-Gives width bias ws (row ∷ rows) [] dw db hw hd hr hy = absurd (omega arith)
  gradient-Gives width bias ws (row ∷ rows) (y ∷ ys) dw db hw hd hr hy =
      Gives-bind (dot-Gives ws row bias (omega arith)) λ z _.
        Gives-bind (add_scaled-Gives _ dw row (omega arith))
          λ dw' n. gradient-Gives width bias ws rows ys dw' _ hw (omega arith) hr.1 (omega arith)

  descend-Gives :
      (rate n : F) (ws dw : List F)
      → length ws ≡ length dw
      → Gives (λ (r : List F). length r ≡ length ws) (descend rate n ws dw)
  unfolding descend
  descend-Gives rate n [] dw h = gives refl
  descend-Gives rate n (w ∷ ws) [] h = absurd (omega arith)
  descend-Gives rate n (w ∷ ws) (g ∷ gs) h =
      Gives-bind (descend-Gives rate n ws gs (omega arith)) (λ r k. gives (omega arith))

  epoch-Gives :
      (rate : F) (width : ℕ) (rows : List (List F)) (ys ws : List F) (bias : F)
      → length ws ≡ width
      → AreRows width rows
      → length ys ≡ length rows
      → Gives (λ (p : List F × F). length p.0 ≡ width) (epoch rate width rows ys (ws, bias))
  unfolding epoch
  epoch-Gives rate width rows ys ws bias hw hr hy =
      Gives-bind
        (gradient-Gives width bias ws rows ys _ _ hw (length-replicate width (f.of_int 0)) hr hy)
        λ g n. Gives-bind (descend-Gives rate _ ws g.0 (omega arith)) (λ ws' k. gives (omega arith))

  train-Gives :
      (epochs : ℕ) (rate : F) (width : ℕ) (rows : List (List F)) (ys : List F) (p : List F × F)
      → length p.0 ≡ width
      → AreRows width rows
      → length ys ≡ length rows
      → Gives (λ (q : List F × F). length q.0 ≡ width) (train epochs rate width rows ys p)
  unfolding train
  train-Gives zero rate width rows ys p hw hr hy = gives hw
  train-Gives (suc epochs) rate width rows ys (ws, bias) hw hr hy =
      Gives-bind (epoch-Gives rate width rows ys ws bias hw hr hy)
        λ p' n. train-Gives epochs rate width rows ys p' n hr hy

  length-weights_or_zeros :
      (width : ℕ) (o : Option (List F))
      → HasWeights width o
      → length (weights_or_zeros width o) ≡ width
  unfolding weights_or_zeros
  length-weights_or_zeros width none h = length-replicate width (f.of_int 0)
  length-weights_or_zeros width (some ws) h = h

  pub fit_logistic-Gives :
      (width : ℕ) (m : LogisticRegression F) (rows : List (List F)) (ys : List F)
      → HasWeights width m.weights
      → AreRows width rows
      → length ys ≡ length rows
      → Gives (λ (m' : LogisticRegression F). HasWeights width m'.weights) (fit_logistic m rows ys)
  unfolding fit_logistic
  fit_logistic-Gives width m [] ys hw hr hy = gives hw
  fit_logistic-Gives width m (row ∷ rows) ys hw hr hy =
      let wide = subst (λ k. HasWeights k m.weights) (sym hr.0) hw in
      let same = subst (λ k. AreRows k (row ∷ rows)) (sym hr.0) hr in
      Gives-bind
        (train-Gives m.epochs m.lr (length row) (row ∷ rows) ys _
          (length-weights_or_zeros (length row) m.weights wide) same hy)
        (λ p n. gives (n ∙ hr.0))

  predict_stump-Gives :
      (s : Stump F) (x : List F) → s.feature < length x → Returns (predict_stump s x)
  unfolding predict_stump
  predict_stump-Gives s x h =
      Gives-bind (index-Gives {P = λ _. Unit {0}} x s.feature h (All-unit x)) (λ _ _. gives tt)

  column-Gives :
      (width feature : ℕ) (rows : List (List F))
      → feature < width
      → AreRows width rows
      → Returns (map_ok (λ row. index row feature) rows)
  column-Gives width feature rows h hr =
      Gives-imp
        (map_ok-Gives {Q = λ _. Unit {0}} (λ row. index row feature) rows
          (λ row n. index-Gives {P = λ _. Unit {0}} row feature (omega arith) (All-unit row)) hr)
        (λ _ _. tt)

  search_stump-Gives :
      (width count feature : ℕ) (rows : List (List F)) (rs : List F) (best : F × Stump F)
      → count + feature ≤ width
      → AreRows width rows
      → best.1.feature < width
      → Gives (λ (s : Stump F). s.feature < width) (search_stump count feature rows rs best)
  unfolding search_stump
  search_stump-Gives width zero feature rows rs best hc hr hb = gives hb
  search_stump-Gives width (suc count) feature rows rs best hc hr hb =
      Gives-bind (column-Gives width feature rows (omega arith) hr) λ vals _.
        search_stump-Gives width count (suc feature) rows rs _ (omega arith) hr (ground arith)

  best_stump-Gives :
      (width : ℕ) (rows : List (List F)) (rs : List F)
      → 0 < width
      → AreRows width rows
      → Gives (λ (s : Stump F). s.feature < width) (best_stump rows rs)
  unfolding best_stump
  best_stump-Gives width [] rs h hr = gives h
  best_stump-Gives width (row ∷ rows) rs h hr =
      search_stump-Gives width (length row) 0 (row ∷ rows) rs _ (omega arith) hr h

  update_preds-Gives :
      (width : ℕ) (rate : F) (s : Stump F) (rows : List (List F)) (ps : List F)
      → s.feature < width
      → AreRows width rows
      → length ps ≡ length rows
      → Gives (λ (r : List F). length r ≡ length rows) (update_preds rate s rows ps)
  unfolding update_preds
  update_preds-Gives width rate s [] ps hs hr hp = gives refl
  update_preds-Gives width rate s (row ∷ rows) [] hs hr hp = absurd (omega arith)
  update_preds-Gives width rate s (row ∷ rows) (p ∷ ps) hs hr hp =
      Gives-bind (predict_stump-Gives s row (omega arith)) λ v _.
        Gives-bind (update_preds-Gives width rate s rows ps hs hr.1 (omega arith))
          (λ r n. gives (omega arith))

  grow-Gives :
      (width rounds : ℕ) (rate : F) (rows : List (List F)) (ys ps : List F) (trees : List (Stump F))
      → 0 < width
      → AreRows width rows
      → length ps ≡ length rows
      → AreTrees width trees
      → Gives (AreTrees width) (grow rounds rate rows ys ps trees)
  unfolding grow
  grow-Gives width zero rate rows ys ps trees h hr hp ht = gives ht
  grow-Gives width (suc rounds) rate rows ys ps trees h hr hp ht =
      Gives-bind (best_stump-Gives width rows _ h hr) λ best hb.
        Gives-bind (update_preds-Gives width rate best rows ps hb hr hp) λ ps' n.
          grow-Gives width rounds rate rows ys ps' (trees ++ (best ∷ [])) h hr n
            (All-append (λ t. t.feature < width) trees (best ∷ []) ht (hb, tt))

  pub fit_boost-Gives :
      (width : ℕ) (m : GradientBoost F) (rows : List (List F)) (ys : List F)
      → 0 < width
      → AreTrees width m.trees
      → AreRows width rows
      → Gives (λ (m' : GradientBoost F). AreTrees width m'.trees) (fit_boost m rows ys)
  unfolding fit_boost
  fit_boost-Gives width m [] ys h ht hr = gives ht
  fit_boost-Gives width m (row ∷ rows) ys h ht hr =
      Gives-bind
        (grow-Gives width m.n_estimators m.lr (row ∷ rows) ys _ [] h hr
          (length-replicate (length (row ∷ rows)) (f.literal 5 10)) tt)
        (λ trees t. gives t)

  add_trees-Gives :
      (width : ℕ) (rate : F) (trees : List (Stump F)) (x : List F) (p : F)
      → AreTrees width trees
      → length x ≡ width
      → Returns (add_trees rate p trees x)
  unfolding add_trees
  add_trees-Gives width rate [] x p ht hx = gives tt
  add_trees-Gives width rate (t ∷ trees) x p ht hx =
      Gives-bind (predict_stump-Gives t x (omega arith))
        λ v _. add_trees-Gives width rate trees x _ ht.1 hx

  pub predict_boost-Gives :
      (width : ℕ) (m : GradientBoost F) (x : List F)
      → AreTrees width m.trees
      → length x ≡ width
      → Returns (predict_boost m x)
  unfolding predict_boost
  predict_boost-Gives width m x ht hx =
      Gives-bind (add_trees-Gives width m.lr m.trees x (f.literal 5 10) ht hx) (λ _ _. gives tt)
