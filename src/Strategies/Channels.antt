-- ===== src/Strategies/Channels.antt =====
-- internal/strategies/all_strategies.go: KeltnerChannelStrategy and DonchianBreakout.
use coinex_bot.Prelude.{ℕ, ◌==◌, List, [], if◌then◌else◌, ltb, length, bytes}
use coinex_bot.Prelude.Results.{Result, ok, ◌>>=◌}
use coinex_bot.Prelude.Slices.{last, before_last}
use coinex_bot.Number.{Decimal, Float, Convert}
use coinex_bot.Models.{Time, Candle, Signal}
use coinex_bot.Strategies.Signals.{no_trade, long_or_short}
use coinex_bot.Indicators.Bands.{donchian_channel}
use coinex_bot.Indicators.Trend.{keltner_channel}

module _ {D F : Type 0} ⦃d : Decimal D⦄ ⦃f : Float F⦄ ⦃c : Convert D F⦄ (now : Time) where
  open d use {
    zero_dec, add, sub, mul, abs, is_zero, is_positive, is_negative, less_than, less_than_or_equal,
    greater_than, greater_than_or_equal,
  }
  open f use {
    literal, of_int, plus, minus, times, over, negate, lt, le, eq, absolute, sqrt, log, trunc,
  }
  open c use {float64, new_from_float}

  unfoldable pub keltner_channel_signal : ℕ → F → List (Candle D) → Result (Signal F)
  unfolding keltner_channel last
  keltner_channel_signal period atr_mult candles =
      let name = bytes "keltner_channel" in
      keltner_channel F candles period atr_mult >>= λ kc.
      if length kc == 0
      then ok (no_trade now name [])
      else last kc >>= λ cur. last candles >>= λ x. ok (
          long_or_short now name [] (greater_than x.close cur.upper) (literal 67 100)
            (bytes "price above Keltner upper") (less_than x.close cur.lower) (literal 67 100)
            (bytes "price below Keltner lower"))

  unfoldable pub donchian_signal : ℕ → List (Candle D) → Result (Signal F)
  unfolding donchian_channel last before_last
  donchian_signal period candles =
      let name = bytes "donchian" in
      donchian_channel candles period >>= λ dc.
      if ltb (length dc) 2
      then ok (no_trade now name [])
      else before_last dc >>= λ prev. last candles >>= λ x. ok (
          long_or_short now name [] (greater_than x.close prev.upper) (literal 70 100)
            (bytes "Donchian upper breakout") (less_than x.close prev.lower) (literal 70 100)
            (bytes "Donchian lower breakdown"))
