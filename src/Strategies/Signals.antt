-- ===== src/Strategies/Signals.antt =====
-- internal/strategies/strategy.go: newSignal and flat, with the time as an argument, and the division
-- of decimals, which panics on zero.
use coinex_bot.Prelude.{Bool, if◌then◌else◌, Text, bytes}
use coinex_bot.Prelude.Results.{Result, ok, panic}
use coinex_bot.Number.{Decimal, Float}
use coinex_bot.Models.{Time, SignalType, Signal, long, short, flat}

module _ {F : Type 0} ⦃f : Float F⦄ where
  unfoldable pub new_signal : Time → Text → Text → SignalType → F → Text → Signal F
  new_signal now strategy market sig conf reason = record {
    strategy = strategy;
    market = market;
    signal = sig;
    confidence = conf;
    reason = reason;
    timestamp = now;
  }

  -- The function `flat`.
  unfoldable pub no_trade : Time → Text → Text → Signal F
  unfolding new_signal
  no_trade now strategy market =
      new_signal now strategy market flat (f.of_int 0) (bytes "no signal")

  -- How most strategies end: `if up { return newSignal(…, SignalLong, …) }`, the same for down and
  -- SignalShort, and `return flat(…)`.
  unfoldable pub long_or_short : Time → Text → Text → Bool → F → Text → Bool → F → Text → Signal F
  unfolding new_signal no_trade
  long_or_short now strategy market up up_conf up_reason down down_conf down_reason =
      if up
      then new_signal now strategy market long up_conf up_reason
      else if down
      then new_signal now strategy market short down_conf down_reason
      else no_trade now strategy market

-- `a.Div(b)`
unfoldable pub checked_div : {D : Type 0} ⦃d : Decimal D⦄ → D → D → Result D
checked_div ⦃d⦄ a b = if d.is_zero b then panic else ok (d.div a b)
