-- ===== src/Backtest/Ranking.antt =====
-- internal/backtest/backtest.go: `RunAll`, and the order of its results.
use mathlib.Core.List.{Permᴰ}
use mathlib.Core.List.Permᴰ
use coinex_bot.Prelude.{
  ◌≡◌, refl, inl, inr, false, List, [], ◌∷◌, if◌then◌else◌, Bool-cases, All, All-imp,
}
use coinex_bot.Prelude.Results.{Result, ok, ◌>>=◌}
use coinex_bot.Number.{Float, Convert}
use coinex_bot.Number.Laws.{IsFloatOrder}
use coinex_bot.Models.{Candle}
use coinex_bot.Backtest.{Strategy, Config}
use coinex_bot.Backtest.Metrics.{Report, run}
use coinex_bot.Backtest.Returns.{run-ok}
use coinex_bot.Backtest.Trades.{IsAnswering}

module _ {F : Type 0} ⦃f : Float F⦄ where
  open f use {lt}

  -- `sort.Slice` on the results; of equal ratios it may leave either order, here the given one.
  unfoldable pub place : Report F → List (Report F) → List (Report F)
  place r [] = r ∷ []
  place r (x ∷ xs) = if lt r.sharpe_ratio x.sharpe_ratio then x ∷ place r xs else r ∷ x ∷ xs

  unfoldable pub rank : List (Report F) → List (Report F)
  unfolding place
  rank [] = []
  rank (r ∷ rs) = place r (rank rs)

  -- No report has a lower ratio than one behind it.
  abbrev pub IsRanked : List (Report F) → Type 0
  IsRanked [] = Unit {0}
  IsRanked (r ∷ rs) =
      All (λ (x : Report F). lt r.sharpe_ratio x.sharpe_ratio ≡ false) rs × IsRanked rs

  place-perm : (r : Report F) (rs : List (Report F)) → Permᴰ (place r rs) (r ∷ rs)
  unfolding place
  place-perm r [] = Permᴰ.refl _
  place-perm r (x ∷ xs) = elim (Bool-cases (lt r.sharpe_ratio x.sharpe_ratio)) [
    | inl e ↦ rw (e, place) (Permᴰ.trans (Permᴰ.cons refl (place-perm r xs)) (Permᴰ.swap refl refl))
    | inr e ↦ rw (e, place) (Permᴰ.refl _)
  ]

  rank-perm : (rs : List (Report F)) → Permᴰ (rank rs) rs
  unfolding rank
  rank-perm [] = Permᴰ.nil
  rank-perm (r ∷ rs) = Permᴰ.trans (place-perm r (rank rs)) (Permᴰ.cons refl (rank-perm rs))

  module _ (order : IsFloatOrder F) where
    open order use {lt_asym, not_lt_trans}

    place-above :
        (x r : Report F) (rs : List (Report F))
        → lt x.sharpe_ratio r.sharpe_ratio ≡ false
        → All (λ (y : Report F). lt x.sharpe_ratio y.sharpe_ratio ≡ false) rs
        → All (λ (y : Report F). lt x.sharpe_ratio y.sharpe_ratio ≡ false) (place r rs)
    unfolding place
    place-above x r [] h a = (h, tt)
    place-above x r (y ∷ ys) h a = elim (Bool-cases (lt r.sharpe_ratio y.sharpe_ratio)) [
      | inl e ↦ rw (e, place) (a.0, place-above x r ys h a.1)
      | inr e ↦ rw (e, place) (h, a)
    ]

    place-IsRanked : (r : Report F) (rs : List (Report F)) → IsRanked rs → IsRanked (place r rs)
    unfolding place
    place-IsRanked r [] a = (tt, tt)
    place-IsRanked r (y ∷ ys) a = elim (Bool-cases (lt r.sharpe_ratio y.sharpe_ratio)) [
      | inl e ↦
          rw (e, place)
            (
              place-above y r ys (lt_asym r.sharpe_ratio y.sharpe_ratio e) a.0,
              place-IsRanked r ys a.1,
            )
      | inr e ↦
          rw (e, place)
            (
              (
                e,
                All-imp _ _ ys (λ z. not_lt_trans r.sharpe_ratio y.sharpe_ratio z.sharpe_ratio e)
                    a.0,
              ),
              a,
            )
    ]

    rank-IsRanked : (rs : List (Report F)) → IsRanked (rank rs)
    unfolding rank
    rank-IsRanked [] = tt
    rank-IsRanked (r ∷ rs) = place-IsRanked r (rank rs) (rank-IsRanked rs)

module _ {D F : Type 0} ⦃f : Float F⦄ ⦃c : Convert D F⦄ where
  unfoldable pub run_each :
      Config F → List (Strategy D F) → List (Candle D) → Result (List (Report F))
  unfolding run
  run_each cfg [] candles = ok []
  run_each cfg (s ∷ ss) candles = do
    r ← run cfg s candles
    rs ← run_each cfg ss candles
    ok (r ∷ rs)

  unfoldable pub run_all :
      Config F → List (Strategy D F) → List (Candle D) → Result (List (Report F))
  unfolding run_each rank
  run_all cfg all candles = do results ← run_each cfg all candles; ok (rank results)

  -- That each report is the one of the strategy that stands at its place.
  abbrev pub AreReports :
      Config F → List (Candle D) → List (Strategy D F) → List (Report F) → Type 0
  AreReports cfg candles [] [] = Unit {0}
  AreReports cfg candles (s ∷ ss) (r ∷ rs) =
      (run cfg s candles ≡ ok r) × AreReports cfg candles ss rs
  AreReports cfg candles _ _ = ⊥

  run_each-ok :
      (cfg : Config F) (all : List (Strategy D F)) (candles : List (Candle D))
      → All (λ s. IsAnswering cfg s candles) all
      → (rs : List (Report F)) × (run_each cfg all candles ≡ ok rs) × AreReports cfg candles all rs
  unfolding run_each
  run_each-ok cfg [] candles answers = ([], refl, tt)
  run_each-ok cfg (s ∷ ss) candles answers =
      let (r, e, _, _, _) = run-ok cfg s candles answers.0 in
      let (rs, es, each) = run_each-ok cfg ss candles answers.1 in
      (r ∷ rs, rw (e, es) refl, (e, each))

  -- If the order of the floats is that of numbers and each strategy answers at each candle after the
  -- warmup, RunAll returns the report of each strategy, once each, and no report has a lower Sharpe ratio than one that stands behind it.
  pub run_all-IsRanked :
      IsFloatOrder F
      → (cfg : Config F) (all : List (Strategy D F)) (candles : List (Candle D))
      → All (λ s. IsAnswering cfg s candles) all
      → (out : List (Report F)) × (run_all cfg all candles ≡ ok out)
        × IsRanked out
        × ((rs : List (Report F)) × AreReports cfg candles all rs × Permᴰ out rs)
  unfolding run_all
  run_all-IsRanked order cfg all candles answers =
      let (rs, e, each) = run_each-ok cfg all candles answers in
      (rank rs, rw e refl, rank-IsRanked order rs, (rs, each, rank-perm rs))
