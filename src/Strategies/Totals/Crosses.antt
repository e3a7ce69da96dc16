-- ===== src/Strategies/Totals/Crosses.antt =====
-- internal/strategies/all_strategies.go: the methods of Strategies/Crosses.
use coinex_bot.Prelude.{ℕ, ◌≡◌, true, ◌≤◌, ◌<◌, ◌||◌, List, arith, ltb, ◌==◌, length, bytes}
use coinex_bot.Prelude.Results.{Gives, gives, Gives-bind, Gives-if}
use coinex_bot.Prelude.Slices.{last-Gives, before_last-Gives}
use coinex_bot.Number.{Decimal, Float, Convert}
use coinex_bot.Models.{Time, Candle}
use coinex_bot.Indicators.Totals.Accelerations.{HasFiniteSteps, parabolic_sar-Gives}
use coinex_bot.Indicators.Adx.{AdxResult}
use coinex_bot.Indicators.Totals.Clouds.{
  AreCloudPeriods, ichimoku-Gives, ichimoku_latest_signal-Gives,
}
use coinex_bot.Indicators.Totals.{macd-Gives, ema-Gives, supertrend-Gives, adx-Gives, hull_ma-Gives}
use coinex_bot.Strategies.Crosses.{
  ichimoku_signal, macd_cross_signal, ema_cross_signal, supertrend_signal, parabolic_sar_signal,
  adx_dmi_signal, hull_ma_signal,
}
use coinex_bot.Strategies.Totals.Outcome.{
  IsSignalOf, new_signal-IsSignalOf, no_trade-IsSignalOf, long_or_short-IsSignalOf,
  signal_of_cloud-IsSignalOf,
}

module _ {D F : Type 0} ⦃d : Decimal D⦄ ⦃f : Float F⦄ ⦃c : Convert D F⦄ (now : Time)
    (xs : List (Candle D)) (some_candles : 0 < length xs) where
  pub ichimoku_signal-Gives :
      (t k s : ℕ)
      → AreCloudPeriods t k s
      → Gives (IsSignalOf (bytes "ichimoku") now) (ichimoku_signal {F = F} now t k s xs)
  unfolding ichimoku_signal
  ichimoku_signal-Gives t k s h = Gives-bind (last-Gives xs some_candles) λ x _.
      Gives-bind (ichimoku-Gives xs t k s h) λ rs _.
        Gives-if (length rs == 0) (λ _. gives (no_trade-IsSignalOf F now _ _))
          λ e.
            Gives-bind (ichimoku_latest_signal-Gives rs xs some_candles)
              λ r _. gives (signal_of_cloud-IsSignalOf F now x.timeframe r)

  pub macd_cross_signal-Gives :
      (fast slow signal : ℕ)
      → 0 < fast
      → fast ≤ slow
      → 0 < signal
      → Gives
          (IsSignalOf (bytes "macd_cross") now)
          (macd_cross_signal {F = F} now fast slow signal xs)
  unfolding macd_cross_signal
  macd_cross_signal-Gives fast slow signal hf hs hg =
      Gives-bind (macd-Gives F xs fast slow signal hf hs hg) λ res _.
        Gives-if (ltb (length res) 2) (λ _. gives (no_trade-IsSignalOf F now _ _))
          λ e. Gives-bind (last-Gives res (ground arith)) λ _ _.
            Gives-bind (before_last-Gives res (ground arith))
              λ _ _. gives (long_or_short-IsSignalOf F now _ _ _ _ _ _ _ _)

  pub ema_cross_signal-Gives :
      (fast slow : ℕ)
      → 0 < fast
      → 0 < slow
      → Gives (IsSignalOf (bytes "ema_cross") now) (ema_cross_signal {F = F} now fast slow xs)
  unfolding ema_cross_signal
  ema_cross_signal-Gives fast slow hf hs = Gives-bind (ema-Gives F _ fast hf) λ us _.
      Gives-bind (ema-Gives F _ slow hs) λ vs _.
        Gives-if (ltb (length us) 2 || ltb (length vs) 2)
          (λ _. gives (no_trade-IsSignalOf F now _ _))
          λ e. Gives-bind (last-Gives us (ground arith)) λ _ _.
            Gives-bind (before_last-Gives us (ground arith)) λ _ _.
              Gives-bind (last-Gives vs (ground arith)) λ _ _.
                Gives-bind (before_last-Gives vs (ground arith))
                  λ _ _. gives (long_or_short-IsSignalOf F now _ _ _ _ _ _ _ _)

  pub supertrend_signal-Gives :
      (period : ℕ) (m : F)
      → 0 < period
      → f.is_finite m ≡ true
      → Gives (IsSignalOf (bytes "supertrend") now) (supertrend_signal now period m xs)
  unfolding supertrend_signal
  supertrend_signal-Gives period m h finite =
      Gives-bind (supertrend-Gives F xs period m h finite) λ vs _.
        Gives-if (ltb (length vs) 2) (λ _. gives (no_trade-IsSignalOf F now _ _))
          λ e. Gives-bind (last-Gives vs (ground arith)) λ _ _.
            Gives-bind (before_last-Gives vs (ground arith))
              λ _ _. gives (long_or_short-IsSignalOf F now _ _ _ _ _ _ _ _)

  pub parabolic_sar_signal-Gives :
      (step top : F)
      → HasFiniteSteps step top
      → Gives (IsSignalOf (bytes "parabolic_sar") now) (parabolic_sar_signal now step top xs)
  unfolding parabolic_sar_signal
  parabolic_sar_signal-Gives step top finite =
      Gives-bind (parabolic_sar-Gives step top finite xs) λ vs _.
        Gives-if (ltb (length vs) 2) (λ _. gives (no_trade-IsSignalOf F now _ _))
          λ e. Gives-bind (last-Gives vs (ground arith)) λ _ _.
            Gives-bind (before_last-Gives vs (ground arith))
              λ _ _. gives (long_or_short-IsSignalOf F now _ _ _ _ _ _ _ _)

  pub adx_dmi_signal-Gives :
      (period : ℕ) (m : F)
      → 0 < period
      → Gives (IsSignalOf (bytes "dmi_adx") now) (adx_dmi_signal now period m xs)
  unfolding adx_dmi_signal
  adx_dmi_signal-Gives period m h =
      Gives-bind (adx-Gives {F = F} xs period h) λ (vs : List (AdxResult F)) _.
        Gives-if (ltb (length vs) 2) (λ _. gives (no_trade-IsSignalOf F now _ _))
          λ e. Gives-bind (last-Gives vs (ground arith)) λ cur _.
            Gives-if (f.lt cur.adx m) (λ _. gives (no_trade-IsSignalOf F now _ _))
              λ _.
                Gives-if (f.lt cur.minus_di cur.plus_di)
                  (λ _. gives (new_signal-IsSignalOf F now _ _ _ _ _))
                  (λ _. gives (new_signal-IsSignalOf F now _ _ _ _ _))

  pub hull_ma_signal-Gives :
      (period : ℕ)
      → 1 < period
      → 0 < f.round (f.sqrt (f.of_int period))
      → Gives (IsSignalOf (bytes "hull_ma") now) (hull_ma_signal {F = F} now period xs)
  unfolding hull_ma_signal
  hull_ma_signal-Gives period h hr = Gives-bind (hull_ma-Gives F xs period h hr) λ vs _.
      Gives-if (ltb (length vs) 2) (λ _. gives (no_trade-IsSignalOf F now _ _))
        λ e. Gives-bind (last-Gives vs (ground arith)) λ cur _.
          Gives-bind (before_last-Gives vs (ground arith)) λ prev _.
            Gives-if (d.greater_than cur prev) (λ _. gives (new_signal-IsSignalOf F now _ _ _ _ _))
              (λ _. gives (new_signal-IsSignalOf F now _ _ _ _ _))
