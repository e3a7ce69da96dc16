-- ===== src/Backtest/Returns.antt =====
-- internal/backtest/backtest.go: that `Run` returns, and the counts of its report.
use coinex_bot.Prelude.{
  ◌+◌, ◌-◌, ◌≤◌, ◌≡◌, refl, ap, List, [], ◌∷◌, Option, none, some, arith, length, length-append,
  get_elem?, Option-cases, inl, inr, Text,
}
use coinex_bot.Prelude.Results.{ok, Gives-value}
use coinex_bot.Number.{Float, Convert}
use coinex_bot.Models.{Candle}
use coinex_bot.Backtest.{Strategy, Config, Trade, Holding, Replay, close_holding, close_end}
use coinex_bot.Backtest.Metrics.{
  Report, Tally, no_tally, tally_trade, tally, curve_drawdown, build_result, run,
}
use coinex_bot.Backtest.Trades.{held, IsAnswering, replay-IsSound}

module _ {F : Type 0} ⦃f : Float F⦄ where
  tally-counts :
      (k : Tally F) (ts : List (Trade F))
      → ((tally k ts).total ≡ k.total + length ts)
        × ((tally k ts).winning + (tally k ts).losing ≡ k.winning + k.losing + length ts)
  unfolding tally tally_trade
  tally-counts k [] = (omega arith, omega arith)
  tally-counts k (t ∷ ts) =
      let rest = tally-counts (tally_trade k t) ts in
      (ground (arith, rest.0), ground (arith, rest.1))

  -- What a report says that is right in its counts.
  pub record IsCounted (r : Report F) : Type 0 where
    pub total : r.total_trades ≡ length r.trades
    pub split : r.winning_trades + r.losing_trades ≡ r.total_trades

module _ {D F : Type 0} ⦃f : Float F⦄ where
  build_result-ok :
      (name : Text) (trades : List (Trade F)) (curve : List F) (initial final : F)
      (candles : List (Candle D))
      → length trades ≤ length curve
      → (r : Report F) × (build_result name trades curve initial final candles ≡ ok r)
        × (r.trades ≡ trades)
        × (r.equity_curve ≡ curve)
        × IsCounted r
  unfolding build_result curve_drawdown
  build_result-ok name [] curve initial final candles h =
      (_, refl, refl, refl, record { total = refl; split = refl })
  build_result-ok name (t ∷ ts) [] initial final candles h = absurd (omega arith)
  build_result-ok name (t ∷ ts) (e ∷ es) initial final candles h =
      let (total, split) = tally-counts no_tally (t ∷ ts) in
      (
        _,
        refl,
        refl,
        refl,
        record { total = omega (arith, total); split = omega (arith, total, split) },
      )

module _ {D F : Type 0} ⦃f : Float F⦄ ⦃c : Convert D F⦄ (cfg : Config F)
    (strategy : Strategy D F) where
  close_end-at :
      (candles : List (Candle D)) (s0 : Replay F) (pos : Option (Holding F))
      → let s' = close_end cfg candles (record s0 { pos = pos }) in
        (s'.equity_curve ≡ s0.equity_curve) × (length s'.trades ≤ length s0.trades + held pos)
  unfolding close_end close_holding
  close_end-at candles s0 none = (refl, omega arith)
  close_end-at candles s0 (some p) = elim (Option-cases (get_elem? candles (length candles - 1))) [
    | inl e ↦ rw (e, close_end) (refl, omega arith)
    | inr (candle, e) ↦ rw (e, close_end) (refl, omega (arith, length-append s0.trades))
  ]

  -- Run returns a report if the strategy answers at each candle after the warmup, never reading an
  -- empty equity curve. The curve has one point for each candle after the warmup, there are at most as
  -- many trades, and the report counts them, each as a winner or a loser.
  pub run-ok :
      (candles : List (Candle D))
      → IsAnswering cfg strategy candles
      → (r : Report F) × (run cfg strategy candles ≡ ok r)
        × (length r.equity_curve ≡ length candles - cfg.warmup_bars)
        × (length r.trades ≤ length r.equity_curve)
        × IsCounted r
  unfolding run
  run-ok candles answers =
      let (s, replayed, (v, size)) = Gives-value (replay-IsSound cfg strategy candles answers) in
      let (curve, few) = close_end-at candles s s.pos in
      let end = close_end cfg candles s in
      let (r, e, ts, es, counted) =
        build_result-ok strategy.name end.trades end.equity_curve cfg.initial_capital end.equity
          candles (omega (arith, v.bounded, few, ap length curve)) in
      (
        r,
        rw (replayed, run) e,
        omega (arith, size, ap length es, ap length curve),
        omega (arith, v.bounded, few, ap length curve, ap length es, ap length ts),
        counted,
      )
