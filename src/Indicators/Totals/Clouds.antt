-- ===== src/Indicators/Totals/Clouds.antt =====
-- internal/indicators/ichimoku.go: the reads of Ichimoku, for periods in order.
use coinex_bot.Prelude.{
  ℕ, zero, suc, ◌+◌, ◌-◌, ◌≤◌, ◌<◌, ◌||◌, List, [], ◌∷◌, arith, ltb, leb, ◌==◌, length, take, drop,
  length-drop, length-take,
}
use coinex_bot.Prelude.Results.{gives, Gives-bind, Gives-if}
use coinex_bot.Prelude.Slices.{last-Gives, before_last-Gives, index-Gives}
use coinex_bot.Number.{Decimal}
use coinex_bot.Models.{Candle}
use coinex_bot.Indicators.Ichimoku.{
  IchimokuResult, middle_of, midpoint, midpoint_or_zero, ichimoku_at, ichimoku_loop, ichimoku,
  ichimoku_latest_signal,
}
use coinex_bot.Indicators.Totals.{Returns, All-unit}

-- The periods are positive, and kijun is at most senkou.
abbrev pub AreCloudPeriods : ℕ → ℕ → ℕ → Type 0
AreCloudPeriods tenkan kijun senkou = (0 < tenkan) × (0 < kijun) × (kijun ≤ senkou)

module _ {D : Type 0} ⦃d : Decimal D⦄ where
  middle_of-Gives : (w : List (Candle D)) → 0 < length w → Returns (middle_of w)
  unfolding middle_of
  middle_of-Gives [] h = absurd (omega arith)
  middle_of-Gives (x ∷ xs) h = gives tt

  midpoint-Gives :
      (candles : List (Candle D)) (period i : ℕ)
      → 0 < period
      → period ≤ suc i
      → i < length candles
      → Returns (midpoint candles period i)
  unfolding midpoint
  midpoint-Gives candles period i h hp hi =
      let rest = drop (suc i - period) candles in
      middle_of-Gives (take period rest)
        (omega (arith, length-take period rest, length-drop (suc i - period) candles))

  midpoint_or_zero-Gives :
      (candles : List (Candle D)) (period i : ℕ)
      → 0 < period
      → i < length candles
      → Returns (midpoint_or_zero candles period i)
  unfolding midpoint_or_zero
  midpoint_or_zero-Gives candles period i h hi =
      Gives-if (leb period (suc i)) (λ e. midpoint-Gives candles period i h (ground arith) hi)
        (λ _. gives tt)

  ichimoku_at-Gives :
      (candles : List (Candle D)) (t k s i : ℕ)
      → AreCloudPeriods t k s
      → k ≤ suc i
      → i < length candles
      → Returns (ichimoku_at candles t k s i)
  unfolding ichimoku_at
  ichimoku_at-Gives candles t k s i h hk hi =
      Gives-bind (midpoint_or_zero-Gives candles t i h.0 hi) λ _ _.
        Gives-bind (midpoint-Gives candles k i h.1 hk hi) λ _ _.
          Gives-bind (midpoint_or_zero-Gives candles s i (omega arith) hi) λ _ _.
            Gives-bind (index-Gives {P = λ _. Unit {0}} candles i hi (All-unit candles))
              (λ _ _. gives tt)

  ichimoku_loop-Gives :
      (candles : List (Candle D)) (t k s count i : ℕ)
      → AreCloudPeriods t k s
      → k ≤ suc i
      → count + i ≤ length candles
      → Returns (ichimoku_loop candles t k s count i)
  unfolding ichimoku_loop
  ichimoku_loop-Gives candles t k s zero i h hk hi = gives tt
  ichimoku_loop-Gives candles t k s (suc count) i h hk hi =
      Gives-bind (ichimoku_at-Gives candles t k s i h hk (omega arith)) λ _ _.
        Gives-bind (ichimoku_loop-Gives candles t k s count (suc i) h (omega arith) (omega arith))
          (λ _ _. gives tt)

  pub ichimoku-Gives :
      (candles : List (Candle D)) (t k s : ℕ)
      → AreCloudPeriods t k s
      → Returns (ichimoku candles t k s)
  unfolding ichimoku
  ichimoku-Gives candles t k s h =
      let n = length candles in
      Gives-if (ltb n s) (λ _. gives tt)
        λ e.
          Gives-if (k == 0 || ltb (suc n) k) (λ z. absurd (ground arith))
            λ _.
              ichimoku_loop-Gives candles t k s (suc n - k) (k - 1) h (ground arith) (ground arith)

  pub ichimoku_latest_signal-Gives :
      (results : List (IchimokuResult D)) (candles : List (Candle D))
      → 0 < length candles
      → Returns (ichimoku_latest_signal results candles)
  unfolding ichimoku_latest_signal
  ichimoku_latest_signal-Gives results candles h =
      Gives-if (ltb (length results) 2) (λ _. gives tt)
        λ e. Gives-bind (last-Gives results (ground arith)) λ _ _.
          Gives-bind (before_last-Gives results (ground arith))
            λ _ _. Gives-bind (last-Gives candles h) (λ _ _. gives tt)
