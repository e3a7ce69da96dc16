-- ===== src/Optimizer/Search.antt =====
-- internal/optimizer/optimizer.go: the best parameters, and `Run` as a whole.
use coinex_bot.Prelude.{
  ℕ, suc, ◌+◌, ◌≤◌, ◌<◌, ◌≡◌, refl, ap, subst, ◌∙◌, inl, inr, Bool, true, false, List, [], ◌∷◌,
  some, arith, length, Bool-cases, All,
}
use coinex_bot.Prelude.Results.{Result, ok, err, panic}
use coinex_bot.Number.{Float, Convert}
use coinex_bot.Number.Laws.{IsFloatOrder}
use coinex_bot.Models.{Candle}
use coinex_bot.Backtest.{Strategy}
use coinex_bot.Backtest.Returns.{run-ok}
use coinex_bot.Backtest.Trades.{IsAnswering}
use coinex_bot.Optimizer.{
  Optimizer, ParamRange, ParamSet, Scored, TrialResult, Summary, WalkForwardWindow, no_score,
  best_from, score_all, best_params, trial, trials, slice, or_empty, metric_of, place, rank,
  build_summary, search, optimize,
}
use coinex_bot.Optimizer.Ranges.{AreSweepable, length-grid}
use coinex_bot.Optimizer.Windows.{build_windows-AreRolling, AreRolling}

-- Which of its outcomes Run comes back with, by the candles there are and those it needs.
abbrev pub IsOutcome : {F : Type 0} → ℕ → ℕ → Result (List (TrialResult F) × Summary F) → Type 0
IsOutcome have need (ok (results, summary)) =
    (need ≤ have) × (0 < length results) × (summary.total_windows ≡ length results)
IsOutcome have need (err e) = have < need
IsOutcome have need panic = ⊥

module _ {F : Type 0} ⦃f : Float F⦄ where
  abbrev pub IsBest : Scored F → List (Scored F) → Scored F → Type 0
  IsBest start ss best =
      (f.lt best.score start.score ≡ false)
      × All (λ (s : Scored F). f.lt best.score s.score ≡ false) ss

  take_new :
      (best s : Scored F) (ss : List (Scored F))
      → f.lt best.score s.score ≡ true
      → best_from s ss ≡ best_from best (s ∷ ss)
  unfolding best_from
  take_new best s ss e = rw e refl

  keep_old :
      (best s : Scored F) (ss : List (Scored F))
      → f.lt best.score s.score ≡ false
      → best_from best ss ≡ best_from best (s ∷ ss)
  unfolding best_from
  keep_old best s ss e = rw e refl

  -- If the order of the floats is that of numbers, no trial scores above the one that bestParams takes,
  -- in whatever order the trials end.
  pub best_from-IsBest :
      IsFloatOrder F → (best : Scored F) (ss : List (Scored F)) → IsBest best ss (best_from best ss)
  unfolding best_from
  best_from-IsBest order best [] = (order.lt_irrefl best.score, tt)
  best_from-IsBest order best (s ∷ ss) = elim (Bool-cases (f.lt best.score s.score)) [
    | inl e ↦
        let (above, all) = best_from-IsBest order s ss in
        subst (IsBest best (s ∷ ss)) (take_new best s ss e) (
          order.not_lt_trans (best_from s ss).score s.score best.score above
              (order.lt_asym best.score s.score e),
          (above, all),
        )
    | inr e ↦
        let (above, all) = best_from-IsBest order best ss in
        subst (IsBest best (s ∷ ss)) (keep_old best s ss e)
          (above, (order.not_lt_trans (best_from best ss).score best.score s.score above e, all))
  ]

  length-place :
      (r : TrialResult F) (rs : List (TrialResult F)) → length (place r rs) ≡ suc (length rs)
  unfolding place
  length-place r [] = refl
  length-place r (x ∷ xs) = ground (arith, length-place r xs)

  length-rank : (rs : List (TrialResult F)) → length (rank rs) ≡ length rs
  unfolding rank
  length-rank [] = refl
  length-rank (r ∷ rs) = length-place r (rank rs) ∙ ap suc (length-rank rs)

  build_summary-windows : (rs : List (TrialResult F)) → (build_summary rs).total_windows ≡ length rs
  unfolding build_summary
  build_summary-windows [] = refl
  build_summary-windows (r ∷ rs) = refl

-- Each strategy that the factory makes answers on each part of the candles.
abbrev pub AreAnswering :
    {D F : Type 0} ⦃f : Float F⦄ ⦃c : Convert D F⦄
    → Optimizer F
    → (ParamSet → Strategy D F)
    → List (Candle D)
    → Type 0
AreAnswering o factory candles =
    (ps : ParamSet) (start end : ℕ) → IsAnswering o.bt_cfg (factory ps) (slice start end candles)

module _ {D F : Type 0} ⦃f : Float F⦄ ⦃c : Convert D F⦄ (o : Optimizer F)
    (factory : ParamSet → Strategy D F) (cancelled : ParamSet → Bool)
    (ended : List (Scored F) → List (Scored F)) (candles : List (Candle D))
    (answers : AreAnswering o factory candles) where
  score_all-ok :
      (start end : ℕ) (sets : List ParamSet)
      → (ss : List (Scored F)) × (score_all o factory cancelled (slice start end candles) sets
          ≡ ok ss)
  unfolding score_all
  score_all-ok start end [] = ([], refl)
  score_all-ok start end (ps ∷ sets) =
      let (ss, e) = score_all-ok start end sets in
      let (r, e', _, _, _) =
        run-ok o.bt_cfg (factory ps) (slice start end candles) (answers ps start end) in
      elim (Bool-cases (cancelled ps)) [
        | inl t ↦ (ss, rw (t, e) refl)
        | inr t ↦
            (record { params = some ps; score = metric_of o.cfg.metric r } ∷ ss, rw (t, e, e') refl)
      ]

  trial-ok :
      (sets : List ParamSet) (w : WalkForwardWindow)
      → (t : TrialResult F) × (trial o factory cancelled ended candles sets w ≡ ok t)
        × (t.window ≡ w)
  unfolding trial best_params
  trial-ok sets w =
      let (ss, e) = score_all-ok w.in_sample_start w.in_sample_end sets in
      let best = best_from no_score (ended ss) in
      let (r, e', _, _, _) =
        run-ok o.bt_cfg (factory (or_empty best.params))
          (slice w.out_sample_start w.out_sample_end candles)
          (answers (or_empty best.params) w.out_sample_start w.out_sample_end) in
      let t : TrialResult F = record {
        params = best.params;
        in_sample_metric = best.score;
        out_sample_metric = metric_of o.cfg.metric r;
        window = w;
      } in
      (t, rw (e, e') refl, refl)

  trials-ok :
      (sets : List ParamSet) (ws : List WalkForwardWindow)
      → (ts : List (TrialResult F)) × (trials o factory cancelled ended candles sets ws ≡ ok ts)
        × (length ts ≡ length ws)
  unfolding trials
  trials-ok sets [] = ([], refl, refl)
  trials-ok sets (w ∷ ws) =
      let (t, e, _) = trial-ok sets w in
      let (ts, e', n) = trials-ok sets ws in (t ∷ ts, rw (e, e') refl, ap suc n)

  search-ok :
      (ranges : List ParamRange) (w : WalkForwardWindow) (ws : List WalkForwardWindow)
      → AreSweepable ranges
      → (rs : List (TrialResult F)) × (search o factory cancelled ended candles ranges (w ∷ ws)
          ≡ some (ok (rank rs, build_summary (rank rs))))
        × (length rs ≡ suc (length ws))
  unfolding search
  search-ok ranges w ws steps =
      let (sets, e, _) = length-grid ranges steps in
      let (rs, e', n) = trials-ok sets (w ∷ ws) in (rs, rw (e, e', search) refl, n)

  searched :
      (ranges : List ParamRange)
      → AreSweepable ranges
      → (ws : List WalkForwardWindow)
      → AreRolling 0 (length candles) o.cfg.in_sample_bars o.cfg.out_sample_bars o.cfg.step_bars ws
      → (out : Result (List (TrialResult F) × Summary F)) × (search o factory cancelled ended
            candles ranges ws
          ≡ some out)
        × IsOutcome (length candles) (o.cfg.in_sample_bars + o.cfg.out_sample_bars) out
  unfolding search
  searched ranges steps [] rolling = (_, refl, omega (arith, rolling))
  searched ranges steps (w ∷ ws) rolling =
      let (rs, e, n) = search-ok ranges w ws steps in
      let v = rolling.0 in
      (
        ok (rank rs, build_summary (rank rs)),
        e,
        (
          omega (arith, v.begins, v.trains, v.adjoins, v.validates, v.fits),
          omega (arith, n, length-rank rs),
          build_summary-windows (rank rs),
        ),
      )

  -- With a positive roll step, positive steps of the ranges whose sums stay in the integers, and
  -- strategies that answer on each part of the candles, Run returns. It gives the error exactly when
  -- there are fewer candles than the two samples need, and else at least one result.
  pub optimize-IsOutcome :
      (ranges : List ParamRange)
      → 0 < o.cfg.step_bars
      → AreSweepable ranges
      → (out : Result (List (TrialResult F) × Summary F)) × (optimize o factory cancelled ended
            candles ranges
          ≡ some out)
        × IsOutcome (length candles) (o.cfg.in_sample_bars + o.cfg.out_sample_bars) out
  unfolding optimize
  optimize-IsOutcome ranges pos steps =
      let have = length candles in
      let (ws, e, rolling) =
        build_windows-AreRolling have o.cfg.in_sample_bars o.cfg.out_sample_bars o.cfg.step_bars
          pos in
      let (out, e', v) = searched ranges steps ws rolling in (out, rw (e, optimize) e', v)
