-- ===== src/Strategies/Crosses.antt =====
-- internal/strategies/all_strategies.go: the strategies that wait for a line to cross or to turn:
-- MACDCross, EMACross, SupertrendStrategy, ParabolicSARStrategy, ADXDMIStrategy, HullMAStrategy and
-- IchimokuStrategy.
use coinex_bot.Prelude.{
  ℕ, ◌&&◌, ◌||◌, ◌==◌, not, List, [], map, if◌then◌else◌, ltb, length, Text, bytes,
}
use coinex_bot.Prelude.Results.{Result, ok, ◌>>=◌}
use coinex_bot.Prelude.Slices.{last, before_last}
use coinex_bot.Number.{Decimal, Float, Convert}
use coinex_bot.Models.{Time, Candle, Signal, long, short}
use coinex_bot.Strategies.Signals.{new_signal, no_trade, long_or_short}
use coinex_bot.Indicators.{ema}
use coinex_bot.Indicators.Bands.{macd, hull_ma}
use coinex_bot.Indicators.Trend.{supertrend, parabolic_sar}
use coinex_bot.Indicators.Adx.{AdxResult, adx}
use coinex_bot.Indicators.Ichimoku.{
  IchimokuSignal, bullish, bearish, neutral, ichimoku, ichimoku_latest_signal,
}

module _ {F : Type 0} ⦃f : Float F⦄ (now : Time) where
  open f use {literal}

  abbrev pub signal_of_cloud : Text → IchimokuSignal × Text → Signal F
  signal_of_cloud market (bullish, reason) =
      new_signal now (bytes "ichimoku") market long (literal 75 100) reason
  signal_of_cloud market (bearish, reason) =
      new_signal now (bytes "ichimoku") market short (literal 75 100) reason
  signal_of_cloud market (neutral, reason) = no_trade now (bytes "ichimoku") market

module _ {D F : Type 0} ⦃d : Decimal D⦄ ⦃f : Float F⦄ ⦃c : Convert D F⦄ (now : Time) where
  open d use {
    zero_dec, add, sub, mul, abs, is_zero, is_positive, is_negative, less_than, less_than_or_equal,
    greater_than, greater_than_or_equal,
  }
  open f use {
    literal, of_int, plus, minus, times, over, negate, lt, le, eq, absolute, sqrt, log, trunc,
  }
  open c use {float64, new_from_float}

  unfoldable pub ichimoku_signal : ℕ → ℕ → ℕ → List (Candle D) → Result (Signal F)
  unfolding ichimoku ichimoku_latest_signal last
  ichimoku_signal tenkan kijun senkou candles = last candles >>= λ x.
      ichimoku candles tenkan kijun senkou >>= λ results.
      if length results == 0
      then ok (no_trade now (bytes "ichimoku") x.timeframe)
      else ichimoku_latest_signal results candles >>= λ r. ok (signal_of_cloud now x.timeframe r)

  unfoldable pub macd_cross_signal : ℕ → ℕ → ℕ → List (Candle D) → Result (Signal F)
  unfolding macd last before_last
  macd_cross_signal fast slow signal candles =
      let name = bytes "macd_cross" in
      macd F candles fast slow signal >>= λ res.
      if ltb (length res) 2
      then ok (no_trade now name [])
      else last res >>= λ cur. before_last res >>= λ prev. ok (
          long_or_short now name [] (is_positive cur.histogram && is_negative prev.histogram)
            (literal 68 100) (bytes "MACD histogram crossover")
            (is_negative cur.histogram && is_positive prev.histogram) (literal 68 100)
            (bytes "MACD histogram crossunder"))

  unfoldable pub ema_cross_signal : ℕ → ℕ → List (Candle D) → Result (Signal F)
  unfolding ema last before_last
  ema_cross_signal fast slow candles =
      let name = bytes "ema_cross" in
      let cl = map (λ (x : Candle D). x.close) candles in
      ema F cl fast >>= λ fasts. ema F cl slow >>= λ slows.
      if ltb (length fasts) 2 || ltb (length slows) 2
      then ok (no_trade now name [])
      else last fasts >>= λ cur_f. before_last fasts >>= λ prev_f. last slows >>= λ cur_s.
          before_last slows >>= λ prev_s. ok (
            long_or_short now name [] (greater_than cur_f cur_s && less_than_or_equal prev_f prev_s)
              (literal 70 100) (bytes "EMA golden cross")
              (less_than cur_f cur_s && greater_than_or_equal prev_f prev_s) (literal 70 100)
              (bytes "EMA death cross"))

  unfoldable pub supertrend_signal : ℕ → F → List (Candle D) → Result (Signal F)
  unfolding supertrend last before_last
  supertrend_signal atr_period factor candles =
      let name = bytes "supertrend" in
      supertrend F candles atr_period factor >>= λ st.
      if ltb (length st) 2
      then ok (no_trade now name [])
      else last st >>= λ cur. before_last st >>= λ prev. ok (
          long_or_short now name [] (cur.is_long && not prev.is_long) (literal 74 100)
            (bytes "supertrend flip long") (not cur.is_long && prev.is_long) (literal 74 100)
            (bytes "supertrend flip short"))

  unfoldable pub parabolic_sar_signal : F → F → List (Candle D) → Result (Signal F)
  unfolding parabolic_sar last before_last
  parabolic_sar_signal step max_step candles =
      let name = bytes "parabolic_sar" in
      parabolic_sar F candles step max_step >>= λ points.
      if ltb (length points) 2
      then ok (no_trade now name [])
      else last points >>= λ cur. before_last points >>= λ prev. ok (
          long_or_short now name [] (cur.is_long && not prev.is_long) (literal 69 100)
            (bytes "SAR flip to long") (not cur.is_long && prev.is_long) (literal 69 100)
            (bytes "SAR flip to short"))

  unfoldable pub adx_dmi_signal : ℕ → F → List (Candle D) → Result (Signal F)
  unfolding adx last
  adx_dmi_signal period adx_thresh candles =
      let name = bytes "dmi_adx" in
      adx candles period >>= λ (values : List (AdxResult F)).
      if ltb (length values) 2
      then ok (no_trade now name [])
      else last values >>= λ cur.
          if lt cur.adx adx_thresh
          then ok (no_trade now name [])
          else if lt cur.minus_di cur.plus_di
          then ok (new_signal now name [] long (literal 68 100) (bytes "ADX strong +DI"))
          else ok (new_signal now name [] short (literal 68 100) (bytes "ADX strong -DI"))

  unfoldable pub hull_ma_signal : ℕ → List (Candle D) → Result (Signal F)
  unfolding hull_ma last before_last
  hull_ma_signal period candles =
      let name = bytes "hull_ma" in
      hull_ma F candles period >>= λ hma.
      if ltb (length hma) 2
      then ok (no_trade now name [])
      else last hma >>= λ cur. before_last hma >>= λ prev.
          if greater_than cur prev
          then ok (new_signal now name [] long (literal 63 100) (bytes "HullMA rising"))
          else ok (new_signal now name [] short (literal 63 100) (bytes "HullMA falling"))
