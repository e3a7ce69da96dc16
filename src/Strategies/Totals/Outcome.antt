-- ===== src/Strategies/Totals/Outcome.antt =====
-- internal/strategies: the ends that the strategies share.
use coinex_bot.Prelude.{
  ℕ, ◌-◌, ◌<◌, ◌≡◌, refl, Bool, true, false, List, [], ◌∷◌, arith, leb, length, drop, length-drop,
  length-take, Text, bytes,
}
use coinex_bot.Prelude.Results.{gives}
use coinex_bot.Number.{Decimal, Float}
use coinex_bot.Models.{Time, Candle, Signal, SignalType, long, short}
use coinex_bot.Indicators.Totals.{Returns}
use coinex_bot.Strategies.Signals.{new_signal, no_trade, long_or_short, checked_div}
use coinex_bot.Indicators.Ichimoku.{IchimokuSignal, bullish, bearish, neutral}
use coinex_bot.Strategies.Crosses.{signal_of_cloud}
use coinex_bot.Strategies.Breakouts.{lookback_window, thrust_range}

-- The signal carries the strategy's own name and the time of the call.
abbrev pub IsSignalOf : {F : Type 0} → Text → Time → Signal F → Type 0
IsSignalOf name now sig = (sig.strategy ≡ name) × (sig.timestamp ≡ now)

module _ (F : Type 0) ⦃f : Float F⦄ (now : Time) where
  pub new_signal-IsSignalOf :
      (name market : Text) (sig : SignalType) (conf : F) (reason : Text)
      → IsSignalOf name now (new_signal now name market sig conf reason)
  unfolding new_signal
  new_signal-IsSignalOf name market sig conf reason = (refl, refl)

  pub no_trade-IsSignalOf :
      (name market : Text) → IsSignalOf name now (no_trade {F = F} now name market)
  unfolding no_trade
  no_trade-IsSignalOf name market = (refl, refl)

  pub long_or_short-IsSignalOf :
      (name market : Text) (a : Bool) (x : F) (p : Text) (b : Bool) (y : F) (q : Text)
      → IsSignalOf name now (long_or_short now name market a x p b y q)
  unfolding long_or_short
  long_or_short-IsSignalOf name market true x p b y q = (refl, refl)
  long_or_short-IsSignalOf name market false x p true y q = (refl, refl)
  long_or_short-IsSignalOf name market false x p false y q = (refl, refl)

  pub signal_of_cloud-IsSignalOf :
      (market : Text) (r : IchimokuSignal × Text)
      → IsSignalOf (bytes "ichimoku") now (signal_of_cloud {F = F} now market r)
  signal_of_cloud-IsSignalOf market (bullish, reason) =
      new_signal-IsSignalOf (bytes "ichimoku") market long (f.literal 75 100) reason
  signal_of_cloud-IsSignalOf market (bearish, reason) =
      new_signal-IsSignalOf (bytes "ichimoku") market short (f.literal 75 100) reason
  signal_of_cloud-IsSignalOf market (neutral, reason) =
      no_trade-IsSignalOf (bytes "ichimoku") market

module _ {D : Type 0} ⦃d : Decimal D⦄ where
  pub checked_div-Gives : (a b : D) → d.is_zero b ≡ false → Returns (checked_div a b)
  unfolding checked_div
  checked_div-Gives a b h = rw h (gives tt)

  pub length-lookback_window :
      (n : ℕ) (candles : List (Candle D))
      → leb (length candles) n ≡ false
      → length (lookback_window n candles) ≡ n
  unfolding lookback_window
  length-lookback_window n candles h = ground (
    arith,
    length-drop (length candles - 1 - n) candles,
    length-take n (drop (length candles - 1 - n) candles),
  )

  pub thrust_range-Gives :
      (window : List (Candle D)) → 0 < length window → Returns (thrust_range window)
  unfolding thrust_range
  thrust_range-Gives [] h = absurd (omega arith)
  thrust_range-Gives (w ∷ ws) h = gives tt
