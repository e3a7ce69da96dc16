-- ===== src/Strategies/Totals/Evaluate.antt =====
-- internal/strategies: the call of `Evaluate` through the interface.
use coinex_bot.Prelude.{◌≤◌, ◌<◌, ◌≡◌, true, false, List, length, All, All-imp, arith}
use coinex_bot.Prelude.Results.{Gives}
use coinex_bot.Number.{Decimal, Float, Convert}
use coinex_bot.Models.{Time, Candle, OrderBook}
use coinex_bot.Indicators.Bands.{vwap}
use coinex_bot.Indicators.Totals.{HasFiniteBands}
use coinex_bot.Indicators.Totals.Accelerations.{HasFiniteSteps}
use coinex_bot.Indicators.Totals.Clouds.{AreCloudPeriods}
use coinex_bot.Strategies.Totals.Outcome.{IsSignalOf}
use coinex_bot.Strategies.Totals.Reversals.{
  rsi_mean_revert_signal-Gives, bollinger_band_signal-Gives, vwap_revert_signal-Gives,
  mean_revert_z_signal-Gives, williams_r_signal-Gives, stoch_rsi_signal-Gives,
  order_book_scalper_signal-Gives, spread_arb_signal-Gives,
}
use coinex_bot.Strategies.Totals.Crosses.{
  ichimoku_signal-Gives, macd_cross_signal-Gives, ema_cross_signal-Gives, supertrend_signal-Gives,
  parabolic_sar_signal-Gives, adx_dmi_signal-Gives, hull_ma_signal-Gives,
}
use coinex_bot.Strategies.Totals.Breakouts.{
  momentum_signal-Gives, grid_breaker_signal-Gives, trend_follow_signal-Gives,
  breakout_signal-Gives, dual_thrust_signal-Gives, keltner_channel_signal-Gives,
  donchian_signal-Gives,
}
use coinex_bot.Strategies.Registry.{
  BuiltIn, ichimoku_strategy, macd_cross, stoch_rsi_strategy, rsi_mean_revert, williams_r_strategy,
  bollinger_band_strategy, trend_follow, supertrend_strategy, adx_dmi_strategy,
  keltner_channel_strategy, ema_cross, vwap_revert, momentum, breakout_strategy, hull_ma_strategy,
  donchian_breakout, order_book_scalper, grid_breaker, mean_revert_z, dual_thrust,
  parabolic_sar_strategy, spread_arb, name_of, evaluate, built_ins,
}

module _ {D F : Type 0} ⦃d : Decimal D⦄ ⦃f : Float F⦄ ⦃c : Convert D F⦄ where
  -- What a strategy divides by is not zero, its periods are positive and in order, and what it turns
  -- into a decimal is finite.
  abbrev pub CanRun : BuiltIn F → List (Candle D) → Type 0
  CanRun (ichimoku_strategy tenkan kijun senkou) xs = AreCloudPeriods tenkan kijun senkou
  CanRun (macd_cross fast slow signal) xs = (0 < fast) × (fast ≤ slow) × (0 < signal)
  CanRun (stoch_rsi_strategy period k d) xs = (0 < k) × (0 < d)
  CanRun (rsi_mean_revert period lo hi) xs = Unit {0}
  CanRun (williams_r_strategy period lo hi) xs = 0 < period
  CanRun (bollinger_band_strategy period m) xs = (0 < period) × HasFiniteBands F xs period m
  CanRun (trend_follow period m) xs = (0 < period) × (f.is_finite m ≡ true)
  CanRun (supertrend_strategy period m) xs = (0 < period) × (f.is_finite m ≡ true)
  CanRun (adx_dmi_strategy period m) xs = 0 < period
  CanRun (keltner_channel_strategy period m) xs = (0 < period) × (f.is_finite m ≡ true)
  CanRun (ema_cross fast slow) xs = (0 < fast) × (0 < slow)
  CanRun vwap_revert xs = d.is_zero (vwap xs) ≡ false
  CanRun (momentum period) xs = All (λ (x : Candle D). d.is_zero x.close ≡ false) xs
  CanRun (breakout_strategy lookback) xs = 0 < lookback
  CanRun (hull_ma_strategy period) xs = (1 < period) × (0 < f.round (f.sqrt (f.of_int period)))
  CanRun (donchian_breakout period) xs = 0 < period
  CanRun (order_book_scalper depth m) xs = Unit {0}
  CanRun (grid_breaker levels m) xs = Unit {0}
  CanRun (mean_revert_z m period) xs = Unit {0}
  CanRun (dual_thrust k1 k2 lookback) xs =
      (0 < lookback) × (f.is_finite k1 ≡ true) × (f.is_finite k2 ≡ true)
  CanRun (parabolic_sar_strategy step top) xs = HasFiniteSteps step top
  CanRun (spread_arb m) xs = Unit {0}

module _ {D F : Type 0} ⦃d : Decimal D⦄ ⦃f : Float F⦄ ⦃c : Convert D F⦄ where
  -- A strategy whose periods are positive and in order, which divides by no zero and gives
  -- NewFromFloat finite numbers only, comes back without a panic from any candles but none, however
  -- few, and from any order book. The signal has the strategy's own name and the time of the call.
  pub evaluate-Gives :
      (now : Time) (s : BuiltIn F) (xs : List (Candle D)) (ob : OrderBook D)
      → 0 < length xs
      → CanRun s xs
      → Gives (IsSignalOf (name_of s) now) (evaluate now s xs ob)
  unfolding evaluate name_of
  evaluate-Gives now (ichimoku_strategy t k s) xs ob n h = ichimoku_signal-Gives now xs n t k s h
  evaluate-Gives now (macd_cross a b s) xs ob n h =
      macd_cross_signal-Gives now xs n a b s h.0 h.1 h.2
  evaluate-Gives now (stoch_rsi_strategy p k j) xs ob n h =
      stoch_rsi_signal-Gives now xs n p k j h.0 h.1
  evaluate-Gives now (rsi_mean_revert p lo hi) xs ob n h =
      rsi_mean_revert_signal-Gives now xs n p lo hi
  evaluate-Gives now (williams_r_strategy p lo hi) xs ob n h =
      williams_r_signal-Gives now xs n p lo hi h
  evaluate-Gives now (bollinger_band_strategy p m) xs ob n h =
      bollinger_band_signal-Gives now xs n p m h.0 h.1
  evaluate-Gives now (trend_follow p m) xs ob n h = trend_follow_signal-Gives now xs n p m h.0 h.1
  evaluate-Gives now (supertrend_strategy p m) xs ob n h =
      supertrend_signal-Gives now xs n p m h.0 h.1
  evaluate-Gives now (adx_dmi_strategy p m) xs ob n h = adx_dmi_signal-Gives now xs n p m h
  evaluate-Gives now (keltner_channel_strategy p m) xs ob n h =
      keltner_channel_signal-Gives now xs n p m h.0 h.1
  evaluate-Gives now (ema_cross a b) xs ob n h = ema_cross_signal-Gives now xs n a b h.0 h.1
  evaluate-Gives now vwap_revert xs ob n h = vwap_revert_signal-Gives now xs n h
  evaluate-Gives now (momentum p) xs ob n h = momentum_signal-Gives now xs n p h
  evaluate-Gives now (breakout_strategy p) xs ob n h = breakout_signal-Gives now xs n p h
  evaluate-Gives now (hull_ma_strategy p) xs ob n h = hull_ma_signal-Gives now xs n p h.0 h.1
  evaluate-Gives now (donchian_breakout p) xs ob n h = donchian_signal-Gives now xs n p h
  evaluate-Gives now (order_book_scalper p m) xs ob n h =
      order_book_scalper_signal-Gives now xs n p m ob
  evaluate-Gives now (grid_breaker p m) xs ob n h = grid_breaker_signal-Gives now xs n m
  evaluate-Gives now (mean_revert_z m p) xs ob n h = mean_revert_z_signal-Gives now xs n m p
  evaluate-Gives now (dual_thrust a b p) xs ob n h =
      dual_thrust_signal-Gives now xs n a b p h.0 h.1 h.2
  evaluate-Gives now (parabolic_sar_strategy a b) xs ob n h =
      parabolic_sar_signal-Gives now xs n a b h
  evaluate-Gives now (spread_arb m) xs ob n h = spread_arb_signal-Gives now xs n m ob

-- The constants of the registered strategies are finite, and so are the factors of its ParabolicSAR.
pub record HasFiniteConstants (F : Type 0) ⦃f : Float F⦄ : Type 0 where
  pub two : f.is_finite (f.of_int 2) ≡ true
  pub three : f.is_finite (f.of_int 3) ≡ true
  pub keltner : f.is_finite (f.literal 15 10) ≡ true
  pub thrust : f.is_finite (f.literal 7 10) ≡ true
  pub steps : HasFiniteSteps (f.literal 2 100) (f.literal 2 10)

module _ {D : Type 0} (F : Type 0) ⦃d : Decimal D⦄ ⦃f : Float F⦄ ⦃c : Convert D F⦄ where
  built_ins-CanRun :
      (xs : List (Candle D))
      → 0 < f.round (f.sqrt (f.of_int 16))
      → HasFiniteConstants F
      → HasFiniteBands F xs 20 (f.of_int 2)
      → All (λ (x : Candle D). d.is_zero x.close ≡ false) xs
      → d.is_zero (vwap xs) ≡ false
      → All (λ (s : BuiltIn F). CanRun s xs) built_ins
  unfolding built_ins
  built_ins-CanRun xs root constants bands closes average = (
    (omega arith, omega arith, omega arith),
    (
      tt,
      (
        (omega arith, omega arith, omega arith),
        (
          (omega arith, bands),
          (
            (omega arith, omega arith),
            (
              average,
              (
                closes,
                (
                  tt,
                  (
                    tt,
                    (
                      (omega arith, constants.two),
                      (
                        omega arith,
                        (
                          tt,
                          (
                            (omega arith, constants.thrust, constants.thrust),
                            (
                              (omega arith, constants.three),
                              (
                                omega arith,
                                (
                                  (omega arith, omega arith),
                                  (
                                    omega arith,
                                    (
                                      constants.steps,
                                      (
                                        (omega arith, root),
                                        ((omega arith, constants.keltner), (omega arith, (tt, tt))),
                                      ),
                                    ),
                                  ),
                                ),
                              ),
                            ),
                          ),
                        ),
                      ),
                    ),
                  ),
                ),
              ),
            ),
          ),
        ),
      ),
    ),
  )

  -- Each of the strategies that `init` registers comes back with a signal of its own name from any
  -- candles but none, if no close and no average price is zero, the width of each Bollinger band is
  -- finite and so are the constants of the strategies; the root of 16 must not round to 0.
  pub built_ins-Give :
      (now : Time) (xs : List (Candle D)) (ob : OrderBook D)
      → 0 < length xs
      → 0 < f.round (f.sqrt (f.of_int 16))
      → HasFiniteConstants F
      → HasFiniteBands F xs 20 (f.of_int 2)
      → All (λ (x : Candle D). d.is_zero x.close ≡ false) xs
      → d.is_zero (vwap xs) ≡ false
      → All (λ (s : BuiltIn F). Gives (IsSignalOf (name_of s) now) (evaluate now s xs ob)) built_ins
  built_ins-Give now xs ob n root constants bands closes average =
      All-imp (λ (s : BuiltIn F). CanRun s xs)
        (λ (s : BuiltIn F). Gives (IsSignalOf (name_of s) now) (evaluate now s xs ob)) built_ins
        (λ s. evaluate-Gives now s xs ob n)
        (built_ins-CanRun xs root constants bands closes average)
