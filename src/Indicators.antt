-- ===== src/Indicators.antt =====
-- internal/indicators/indicators.go: the series of candles and the moving averages, where a panic is
-- the division by a period of 0. `Oscillators` to `Ichimoku` have the other indicators, `Windows`,
-- `Totals`, `Channels` and `Causal` the lemmas.
pub mod Windows
pub mod Oscillators
pub mod Bands
pub mod Trend
pub mod Adx
pub mod Ichimoku
pub mod Totals
pub mod Channels
pub mod Causal
mod Tests
use coinex_bot.Prelude.{
  ℕ, zero, suc, ◌+◌, ◌==◌, List, [], ◌∷◌, if◌then◌else◌, ltb, length, take, drop, map,
}
use coinex_bot.Prelude.Results.{Result, ok, err, panic}
use coinex_bot.Number.{Decimal, Float, Convert}
use coinex_bot.Number.Sums.{sum_by}
use coinex_bot.Models.{Candle}

module _ {D : Type 0} where
  unfoldable pub closes : List (Candle D) → List D
  closes candles = map (λ (c : Candle D). c.close) candles

  unfoldable pub highs : List (Candle D) → List D
  highs candles = map (λ (c : Candle D). c.high) candles

  unfoldable pub lows : List (Candle D) → List D
  lows candles = map (λ (c : Candle D). c.low) candles

module _ {D : Type 0} ⦃d : Decimal D⦄ where
  open d use {zero_dec, new_from_int, add, sub, mul, div, greater_than, less_than}

  unfoldable pub max_dec : D → D → D
  max_dec a b = if greater_than a b then a else b

  unfoldable pub min_dec : D → D → D
  min_dec a b = if less_than a b then a else b

  -- The sum of the first `period` values.
  abbrev pub seed_sum : ℕ → List D → D
  seed_sum period vals = sum_by (λ x. x) zero_dec (take period vals)

  -- The loop from index `period` on: `ahead` is vals[i:], `behind` is vals[i-period:].
  unfoldable pub roll : D → D → List D → List D → List D
  roll n sum [] behind = []
  roll n sum (a ∷ ahead) [] = []
  roll n sum (a ∷ ahead) (b ∷ behind) =
      let sum' = sub (add sum a) b in div sum' n ∷ roll n sum' ahead behind

  -- Too few values give the nil slice.
  unfoldable pub sma : List D → ℕ → Result (List D)
  unfolding roll
  sma vals period =
      let n = new_from_int period in
      let sum = seed_sum period vals in
      if ltb (length vals) period
      then ok []
      else if period == 0
      then panic
      else ok (div sum n ∷ roll n sum (drop period vals) vals)

  -- result[i] from result[i-1] and the values from vals[period-1+i] on.
  unfoldable pub smooth : D → D → List D → List D
  smooth k prev [] = []
  smooth k prev (v ∷ vals) =
      let next = add (mul v k) (mul prev (sub (new_from_int 1) k)) in next ∷ smooth k next vals

module _ {D : Type 0} (F : Type 0) ⦃d : Decimal D⦄ ⦃f : Float F⦄ ⦃c : Convert D F⦄ where
  unfoldable pub ema : List D → ℕ → Result (List D)
  unfolding smooth
  ema vals period =
      let k = c.new_from_float (f.over (f.of_int 2) (f.of_int (period + 1))) in
      let first = d.div (seed_sum period vals) (d.new_from_int period) in
      if ltb (length vals) period
      then ok []
      else if period == 0
      then panic
      else ok (first ∷ smooth k first (drop period vals))
