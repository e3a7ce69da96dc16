-- ===== src/Strategies/Reversals.antt =====
-- internal/strategies/all_strategies.go: the strategies that trade against a move: RSIMeanRevert,
-- BollingerBandStrategy, VWAPRevert, MeanRevertZ, WilliamsRStrategy, StochRSIStrategy and the two that
-- read the order book, OrderBookScalper and SpreadArb.
use coinex_bot.Prelude.{
  ℕ, ◌-◌, ◌&&◌, ◌==◌, not, List, [], map, if◌then◌else◌, ltb, length, drop, bytes,
}
use coinex_bot.Prelude.Results.{Result, ok, ◌>>=◌}
use coinex_bot.Prelude.Slices.{last, before_last}
use coinex_bot.Number.{sum_floats, Decimal, Float, Convert}
use coinex_bot.Models.{
  Time, Candle, OrderBook, Signal, long, short, mid_price, spread, bid_ask_imbalance,
}
use coinex_bot.Strategies.Signals.{new_signal, no_trade, long_or_short, checked_div}
use coinex_bot.Indicators.Oscillators.{rsi, williams_r, stoch_rsi}
use coinex_bot.Indicators.Bands.{bollinger_bands, vwap}

module _ {F : Type 0} ⦃f : Float F⦄ where
  open f use {of_int, minus, times, over, sqrt}

  unfoldable pub mean_of : ℕ → List F → F
  unfolding sum_floats
  mean_of period prices = over (sum_floats prices) (of_int period)

  -- The standard deviation of the prices around their mean.
  unfoldable pub deviation_of : ℕ → List F → F
  unfolding sum_floats mean_of
  deviation_of period prices =
      let mean = mean_of period prices in
      sqrt
        (over (sum_floats (map (λ p. times (minus p mean) (minus p mean)) prices)) (of_int period))

module _ {D F : Type 0} ⦃c : Convert D F⦄ where
  open c use {float64}

  -- The closes of candles[len-period:]
  unfoldable pub last_prices : ℕ → List (Candle D) → List F
  last_prices period candles =
      map (λ (x : Candle D). float64 x.close) (drop (length candles - period) candles)

module _ {D F : Type 0} ⦃d : Decimal D⦄ ⦃f : Float F⦄ ⦃c : Convert D F⦄ (now : Time) where
  open d use {
    zero_dec, add, sub, mul, abs, is_zero, is_positive, is_negative, less_than, less_than_or_equal,
    greater_than, greater_than_or_equal,
  }
  open f use {
    literal, of_int, plus, minus, times, over, negate, lt, le, eq, absolute, sqrt, log, trunc,
  }
  open c use {float64, new_from_float}

  unfoldable pub rsi_mean_revert_signal : ℕ → F → F → List (Candle D) → Result (Signal F)
  unfolding rsi last
  rsi_mean_revert_signal period oversold overbought candles =
      let name = bytes "rsi_mean_revert" in
      let values : List F = rsi candles period in
      if length values == 0
      then ok (no_trade now name [])
      else last values >>= λ v. ok (
          long_or_short now name [] (le v oversold) (literal 70 100) (bytes "RSI oversold")
            (le overbought v) (literal 70 100) (bytes "RSI overbought"))

  unfoldable pub bollinger_band_signal : ℕ → F → List (Candle D) → Result (Signal F)
  unfolding bollinger_bands last
  bollinger_band_signal period std_mult candles =
      let name = bytes "bollinger_bands" in
      bollinger_bands F candles period std_mult >>= λ bb.
      if ltb (length bb) 2
      then ok (no_trade now name [])
      else last bb >>= λ cur. last candles >>= λ x. ok (
          long_or_short now name [] (less_than x.close cur.lower) (literal 65 100)
            (bytes "price below lower band") (greater_than x.close cur.upper) (literal 65 100)
            (bytes "price above upper band"))

  unfoldable pub vwap_revert_signal : List (Candle D) → Result (Signal F)
  unfolding vwap last checked_div
  vwap_revert_signal candles =
      let name = bytes "vwap_revert" in
      let w = vwap candles in
      if ltb (length candles) 20
      then ok (no_trade now name [])
      else last candles >>= λ x. checked_div (abs (sub x.close w)) w >>= λ dev.
          if not (lt (literal 15 1000) (float64 dev))
          then ok (no_trade now name [])
          else if less_than x.close w
          then ok (new_signal now name [] long (literal 60 100) (bytes "price 1.5% below VWAP"))
          else ok (new_signal now name [] short (literal 60 100) (bytes "price 1.5% above VWAP"))

  unfoldable pub mean_revert_z_signal : F → ℕ → List (Candle D) → Result (Signal F)
  unfolding last_prices mean_of deviation_of last
  mean_revert_z_signal z_threshold period candles =
      let name = bytes "mean_revert_z" in
      let prices = last_prices period candles in
      let std = deviation_of period prices in
      if ltb (length candles) period
      then ok (no_trade now name [])
      else if eq std (of_int 0)
      then ok (no_trade now name [])
      else last candles >>= λ x.
          let z = over (minus (float64 x.close) (mean_of period prices)) std in
          ok (
            long_or_short now name [] (lt z (negate z_threshold)) (literal 66 100)
              (bytes "z-score oversold") (lt z_threshold z) (literal 66 100)
              (bytes "z-score overbought"))

  unfoldable pub williams_r_signal : ℕ → F → F → List (Candle D) → Result (Signal F)
  unfolding williams_r last
  williams_r_signal period oversold overbought candles =
      let name = bytes "williams_r" in
      williams_r candles period >>= λ values.
      if length values == 0
      then ok (no_trade now name [])
      else last values >>= λ v. ok (
          long_or_short now name [] (le v oversold) (literal 65 100) (bytes "Williams%R oversold")
            (le overbought v) (literal 65 100) (bytes "Williams%R overbought"))

  unfoldable pub stoch_rsi_signal : ℕ → ℕ → ℕ → List (Candle D) → Result (Signal F)
  unfolding stoch_rsi last before_last
  stoch_rsi_signal period k d candles =
      let name = bytes "stoch_rsi" in
      stoch_rsi candles period k d >>= λ sr.
      if ltb (length sr) 2
      then ok (no_trade now name [])
      else last sr >>= λ cur. before_last sr >>= λ prev. ok (
          long_or_short now name [] (lt cur.d cur.k && le prev.k prev.d && lt cur.k (of_int 20))
            (literal 67 100) (bytes "stochRSI cross up oversold")
            (lt cur.k cur.d && le prev.d prev.k && lt (of_int 80) cur.k) (literal 67 100)
            (bytes "stochRSI cross down overbought"))

  unfoldable pub order_book_scalper_signal : ℕ → F → OrderBook D → Result (Signal F)
  unfolding bid_ask_imbalance
  order_book_scalper_signal depth imbalance_thresh ob =
      let name = bytes "scalp_ob" in
      let imb : F = float64 (bid_ask_imbalance ob depth) in
      ok (
        long_or_short now name ob.market (lt imbalance_thresh imb)
          (plus (literal 55 100) (times imb (literal 2 10))) (bytes "bid imbalance")
          (lt imb (negate imbalance_thresh))
          (plus (literal 55 100) (times (absolute imb) (literal 2 10))) (bytes "ask imbalance"))

  unfoldable pub spread_arb_signal : F → OrderBook D → Result (Signal F)
  unfolding mid_price spread checked_div
  spread_arb_signal spread_thresh ob =
      let name = bytes "arb_spread" in
      let mid = mid_price ob in
      if is_zero mid
      then ok (no_trade now name ob.market)
      else checked_div (spread ob) mid >>= λ part.
          if lt spread_thresh (float64 part)
          then ok
              (new_signal now name ob.market long (literal 55 100) (bytes "spread arb opportunity"))
          else ok (no_trade now name ob.market)
