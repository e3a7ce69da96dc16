-- ===== src/Strategies/Breakouts.antt =====
-- internal/strategies/all_strategies.go: the strategies that follow a move: Momentum, GridBreaker,
-- TrendFollow, BreakoutStrategy and DualThrust.
use coinex_bot.Prelude.{
  ℕ, ◌-◌, ◌&&◌, List, [], ◌∷◌, if◌then◌else◌, ltb, leb, length, take, drop, bytes,
}
use coinex_bot.Prelude.Results.{Result, ok, panic, ◌>>=◌}
use coinex_bot.Prelude.Slices.{last, before_last, index}
use coinex_bot.Number.{from_float, Decimal, Float, Convert}
use coinex_bot.Models.{Time, Candle, Signal}
use coinex_bot.Strategies.Signals.{no_trade, long_or_short, checked_div}
use coinex_bot.Indicators.Oscillators.{window_range}
use coinex_bot.Indicators.Trend.{atr}

module _ {D : Type 0} ⦃d : Decimal D⦄ where
  open d use {sub, less_than, greater_than}

  -- candles[len-1-lookback : len-1], for more than `lookback` candles
  unfoldable pub lookback_window : ℕ → List (Candle D) → List (Candle D)
  lookback_window lookback candles = take lookback (drop (length candles - 1 - lookback) candles)

  unfoldable pub max_d : D → D → D
  max_d a b = if greater_than a b then a else b

  -- The lowest and the highest close, from those so far.
  unfoldable pub scan_closes : D → D → List (Candle D) → D × D
  scan_closes lc hc [] = (lc, hc)
  scan_closes lc hc (x ∷ xs) =
      scan_closes (if less_than x.close lc then x.close else lc)
        (if greater_than x.close hc then x.close else hc) xs

  -- The loop over the window, split in the highs and lows and the closes.
  unfoldable pub thrust_range : List (Candle D) → Result D
  unfolding max_d scan_closes window_range
  thrust_range [] = panic
  thrust_range (w ∷ ws) = window_range (w ∷ ws) >>= λ range.
      let cl = scan_closes w.close w.close (w ∷ ws) in
      ok (max_d (sub range.0 cl.0) (sub cl.1 range.1))

module _ {F : Type 0} ⦃f : Float F⦄ where
  open f use {of_int, plus, over, absolute, log, trunc}

  -- How many lines of the grid lie between the two prices.
  unfoldable pub crossings_of : F → F → F → ℕ
  crossings_of spacing_pct ref cur =
      trunc (absolute (over (log (over cur ref)) (log (plus (of_int 1) spacing_pct))))

module _ {D F : Type 0} ⦃d : Decimal D⦄ ⦃f : Float F⦄ ⦃c : Convert D F⦄ (now : Time) where
  open d use {
    zero_dec, add, sub, mul, abs, is_zero, is_positive, is_negative, less_than, less_than_or_equal,
    greater_than, greater_than_or_equal,
  }
  open f use {
    literal, of_int, plus, minus, times, over, negate, lt, le, eq, absolute, sqrt, log, trunc,
  }
  open c use {float64, new_from_float}

  unfoldable pub momentum_signal : ℕ → List (Candle D) → Result (Signal F)
  unfolding last index checked_div
  momentum_signal period candles =
      let name = bytes "momentum" in
      if leb (length candles) period
      then ok (no_trade now name [])
      else last candles >>= λ x. index candles (length candles - 1 - period) >>= λ past.
          checked_div (sub x.close past.close) past.close >>= λ mom. ok (
            long_or_short now name [] (lt (literal 2 100) (float64 mom)) (literal 62 100)
              (bytes "positive momentum") (lt (float64 mom) (negate (literal 2 100)))
              (literal 62 100) (bytes "negative momentum"))

  unfoldable pub grid_breaker_signal : F → List (Candle D) → Result (Signal F)
  unfolding last index crossings_of
  grid_breaker_signal spacing_pct candles =
      let name = bytes "grid" in
      if ltb (length candles) 2
      then ok (no_trade now name [])
      else index candles 0 >>= λ first. last candles >>= λ x.
          let ref : F = float64 first.close in
          let cur : F = float64 x.close in
          let crossings = crossings_of spacing_pct ref cur in
          ok (
            long_or_short now name [] (ltb 0 crossings && lt ref cur) (literal 58 100)
              (bytes "grid upward cross") (ltb 0 crossings && lt cur ref) (literal 58 100)
              (bytes "grid downward cross"))

  unfoldable pub trend_follow_signal : ℕ → F → List (Candle D) → Result (Signal F)
  unfolding atr last before_last from_float
  trend_follow_signal atr_period atr_mult candles =
      let name = bytes "trend_follow" in
      atr F candles atr_period >>= λ ranges.
      if ltb (length ranges) 2
      then ok (no_trade now name [])
      else last candles >>= λ x. before_last candles >>= λ prev. last ranges >>= λ cur_atr.
          from_float atr_mult >>= λ mult.
          let band = mul cur_atr mult in
          ok (
            long_or_short now name [] (greater_than (sub x.close prev.close) band) (literal 72 100)
              (bytes "ATR trend breakout up") (greater_than (sub prev.close x.close) band)
              (literal 72 100) (bytes "ATR trend breakout down"))

  unfoldable pub breakout_signal : ℕ → List (Candle D) → Result (Signal F)
  unfolding lookback_window window_range last
  breakout_signal lookback candles =
      let name = bytes "breakout" in
      if leb (length candles) lookback
      then ok (no_trade now name [])
      else window_range (lookback_window lookback candles) >>= λ range. last candles >>= λ x. ok (
          long_or_short now name [] (greater_than x.close range.0) (literal 73 100)
            (bytes "breakout above resistance") (less_than x.close range.1) (literal 73 100)
            (bytes "breakdown below support"))

  unfoldable pub dual_thrust_signal : F → F → ℕ → List (Candle D) → Result (Signal F)
  unfolding lookback_window thrust_range last from_float
  dual_thrust_signal k1 k2 lookback candles =
      let name = bytes "dual_thrust" in
      if leb (length candles) lookback
      then ok (no_trade now name [])
      else thrust_range (lookback_window lookback candles) >>= λ r1. last candles >>= λ x.
          from_float k1 >>= λ k1_dec. from_float k2 >>= λ k2_dec.
          let buy_line = add x.open_price (mul k1_dec r1) in
          let sell_line = sub x.open_price (mul k2_dec r1) in
          ok (
            long_or_short now name [] (greater_than x.close buy_line) (literal 71 100)
              (bytes "dual thrust buy") (less_than x.close sell_line) (literal 71 100)
              (bytes "dual thrust sell"))
