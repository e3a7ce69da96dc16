-- ===== src/Indicators/Oscillators.antt =====
-- internal/indicators/indicators.go: RSI, StochRSI and WilliamsR. The nil slice is the empty one.
use coinex_bot.Prelude.{
  ℕ, suc, ◌+◌, ◌-◌, List, [], ◌∷◌, if◌then◌else◌, ltb, length, take, drop, map,
}
use coinex_bot.Prelude.Results.{Result, ok, panic, ◌>>=◌}
use coinex_bot.Prelude.Slices.{last, slices, map_ok, each_pair}
use coinex_bot.Number.{sum_floats, Decimal, Float, Convert}
use coinex_bot.Models.{Candle}
use coinex_bot.Indicators.{closes}

pub record StochRsiResult (F : Type 0) : Type 0 where
  pub k : F
  pub d : F

module _ {F : Type 0} ⦃f : Float F⦄ where
  open f use {of_int, plus, minus, times, over, negate, lt, eq}

  unfoldable pub abs_f64 : F → F
  abs_f64 x = if lt x (of_int 0) then negate x else x

  -- diff := cl[i].Sub(cl[i-1])
  unfoldable pub gain_of : F → F
  gain_of diff = if lt (of_int 0) diff then diff else of_int 0

  unfoldable pub loss_of : F → F
  unfolding abs_f64
  loss_of diff = if lt (of_int 0) diff then of_int 0 else abs_f64 diff

  unfoldable pub rsi_of : F → F → F
  rsi_of avg_gain avg_loss =
      if eq avg_loss (of_int 0)
      then of_int 100
      else minus (of_int 100) (over (of_int 100) (plus (of_int 1) (over avg_gain avg_loss)))

  -- (avg*float64(period-1) + x) / float64(period)
  unfoldable pub wilder : ℕ → F → F → F
  wilder period avg x = over (plus (times avg (minus (of_int period) (of_int 1))) x) (of_int period)

  -- The loop over the differences from gains[period] on.
  unfoldable pub rsi_loop : ℕ → F → F → List F → List F
  unfolding wilder rsi_of gain_of loss_of
  rsi_loop period avg_gain avg_loss [] = []
  rsi_loop period avg_gain avg_loss (diff ∷ diffs) =
      let avg_gain' = wilder period avg_gain (gain_of diff) in
      let avg_loss' = wilder period avg_loss (loss_of diff) in
      rsi_of avg_gain' avg_loss' ∷ rsi_loop period avg_gain' avg_loss' diffs

  -- RSI from the differences of the closes.
  unfoldable pub rsi_series : ℕ → List F → List F
  unfolding rsi_loop sum_floats
  rsi_series period diffs =
      let avg_gain = over (sum_floats (map gain_of (take period diffs))) (of_int period) in
      let avg_loss = over (sum_floats (map loss_of (take period diffs))) (of_int period) in
      rsi_of avg_gain avg_loss ∷ rsi_loop period avg_gain avg_loss (drop period diffs)

  unfoldable pub scan_floats : F → F → List F → F × F
  scan_floats lo hi [] = (lo, hi)
  scan_floats lo hi (v ∷ vs) =
      scan_floats (if lt v lo then v else lo) (if lt hi v then v else hi) vs

  -- One `k[i]`, from its window.
  unfoldable pub stoch_k : List F → Result F
  unfolding scan_floats last
  stoch_k [] = panic
  stoch_k (v ∷ vs) =
      let (lo, hi) = scan_floats v v (v ∷ vs) in
      last (v ∷ vs) >>= λ cur. ok (
        if eq (minus hi lo) (of_int 0)
        then of_int 0
        else times (over (minus cur lo) (minus hi lo)) (of_int 100))

  -- One `out[i]`, from k[i:i+dPeriod].
  unfoldable pub stoch_d : ℕ → List F → Result (StochRsiResult F)
  unfolding last sum_floats
  stoch_d d_period ks =
      last ks >>= λ cur. ok (record { k = cur; d = over (sum_floats ks) (of_int d_period) })

module _ {D F : Type 0} ⦃d : Decimal D⦄ ⦃f : Float F⦄ ⦃c : Convert D F⦄ where
  open f use {of_int, minus, times, over, negate, eq}
  open c use {float64}

  unfoldable pub rsi : List (Candle D) → ℕ → List F
  unfolding rsi_series each_pair closes
  rsi candles period =
      if ltb (length candles) (period + 1)
      then []
      else rsi_series period (each_pair (λ prev cur. float64 (d.sub cur prev)) (closes candles))

  unfoldable pub stoch_rsi : List (Candle D) → ℕ → ℕ → ℕ → Result (List (StochRsiResult F))
  unfolding map_ok slices rsi stoch_k stoch_d
  stoch_rsi candles rsi_period k_period d_period =
      let rs : List F = rsi candles rsi_period in
      if ltb (length rs) k_period
      then ok []
      else map_ok stoch_k (slices (suc (length rs - k_period)) k_period rs) >>= λ ks.
          if ltb (length ks) d_period
          then ok []
          else map_ok (stoch_d d_period) (slices (suc (length ks - d_period)) d_period ks)

module _ {D : Type 0} ⦃d : Decimal D⦄ where
  -- The highest high and the lowest low, from those so far.
  unfoldable pub scan_range : D → D → List (Candle D) → D × D
  scan_range hi lo [] = (hi, lo)
  scan_range hi lo (x ∷ xs) =
      scan_range (if d.greater_than x.high hi then x.high else hi)
        (if d.less_than x.low lo then x.low else lo) xs

  -- hi, lo := window[0].High, window[0].Low, and the loop over the window
  unfoldable pub window_range : List (Candle D) → Result (D × D)
  unfolding scan_range
  window_range [] = panic
  window_range (x ∷ xs) = ok (scan_range x.high x.low (x ∷ xs))

module _ {D F : Type 0} ⦃d : Decimal D⦄ ⦃f : Float F⦄ ⦃c : Convert D F⦄ where
  open f use {of_int, minus, times, over, negate, eq}
  open c use {float64}

  unfoldable pub williams_of : List (Candle D) → Result F
  unfolding window_range last
  williams_of window = window_range window >>= λ range. last window >>= λ cur.
      let hi : F = float64 range.0 in
      let lo : F = float64 range.1 in
      let cl : F = float64 cur.close in
      ok (
        if eq (minus hi lo) (of_int 0)
        then negate (of_int 50)
        else times (over (minus hi cl) (minus hi lo)) (negate (of_int 100)))

  unfoldable pub williams_r : List (Candle D) → ℕ → Result (List F)
  unfolding map_ok slices williams_of
  williams_r candles period =
      if ltb (length candles) period
      then ok []
      else map_ok williams_of (slices (suc (length candles - period)) period candles)
