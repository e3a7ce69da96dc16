-- ===== src/Backtest/Tests.antt =====
-- internal/backtest/backtest.go at concrete inputs.
use mathlib.Core.List.{Permᴰ}
use coinex_bot.Prelude.{ℕ, ◌≤◌, ◌≡◌, List, [], ◌∷◌, ◌++◌, arith, length, bytes}
use coinex_bot.Prelude.Results.{ok, ◌>>=◌, Gives, gives}
use coinex_bot.Prelude.Int.{ℤ, pos}
use coinex_bot.Number.Whole.{whole_decimal, whole_float, whole_convert, Whole-IsFloatOrder}
use coinex_bot.Models.{Candle, long}
use coinex_bot.Backtest.{Strategy, Config, Replay, bars, replay}
use coinex_bot.Backtest.Metrics.{Report, run}
use coinex_bot.Backtest.Trades.{IsSound, IsAnswering, IsExplained, replay-IsSound}
use coinex_bot.Backtest.Returns.{IsCounted, run-ok}
use coinex_bot.Backtest.Lookahead.{replay-append}
use coinex_bot.Backtest.Ranking.{run_all, IsRanked, AreReports, run_all-IsRanked}

abbrev candle : ℕ → Candle ℤ
candle n = record {
  open_time = n;
  open_price = pos n;
  high = pos n;
  low = pos n;
  close = pos n;
  volume = pos 1;
  timeframe = bytes "1hour";
}

abbrev cfg : Config ℤ
cfg = record {
  initial_capital = pos 1000;
  fee_rate = pos 0;
  slippage_pct = pos 0;
  stop_loss_pct = pos 1;
  take_profit_pct = pos 1;
  position_size_pct = pos 1;
  warmup_bars = 1;
}

abbrev always_long : Strategy ℤ ℤ
always_long = record {
  name = bytes "always_long";
  evaluate = λ candles book. ok (record {
    strategy = bytes "always_long";
    market = [];
    signal = long;
    confidence = pos 1;
    reason = [];
    timestamp = 0;
  });
}

answering : (cs : List (Candle ℤ)) → IsAnswering cfg always_long cs
answering cs i late inside = gives tt

abbrev candles : List (Candle ℤ)
candles = candle 10 ∷ candle 10 ∷ candle 25 ∷ []

replay-IsSound_example :
    Gives
      (λ (s : Replay ℤ).
        IsSound (IsExplained cfg always_long candles) 0 s × (length s.equity_curve ≡ 2))
      (replay cfg always_long candles)
replay-IsSound_example = replay-IsSound cfg always_long candles (answering candles)

run-ok_example :
    (r : Report ℤ) × (run cfg always_long candles ≡ ok r)
    × (length r.equity_curve ≡ 2)
    × (length r.trades ≤ length r.equity_curve)
    × IsCounted r
run-ok_example = run-ok cfg always_long candles (answering candles)

replay-append_example : replay cfg always_long (candles ++ (candle 5 ∷ [])) ≡ (
    replay cfg always_long candles >>= λ s.
    bars cfg always_long (candles ++ (candle 5 ∷ [])) 3 (candle 5 ∷ []) s)
replay-append_example = replay-append cfg always_long candles (candle 5 ∷ []) (omega arith)

run_all-IsRanked_example :
    (out : List (Report ℤ)) × (run_all cfg (always_long ∷ always_long ∷ []) candles ≡ ok out)
    × IsRanked out
    × ((rs : List (Report ℤ)) × AreReports cfg candles (always_long ∷ always_long ∷ []) rs
        × Permᴰ out rs)
run_all-IsRanked_example =
    run_all-IsRanked Whole-IsFloatOrder cfg (always_long ∷ always_long ∷ []) candles
      (answering candles, (answering candles, tt))
