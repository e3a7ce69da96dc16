-- ===== src/Strategies/Registry.antt =====
-- internal/strategies: the registry of strategy.go, and the strategies that `init` in
-- all_strategies.go puts into it.
use coinex_bot.Prelude.{ℕ, List, [], ◌∷◌, Option, Text, bytes}
use coinex_bot.Prelude.Dict.{Dict, lookup, insert, values}
use coinex_bot.Prelude.Results.{Result}
use coinex_bot.Number.{Decimal, Float, Convert}
use coinex_bot.Models.{Time, Candle, OrderBook, Signal}
use coinex_bot.Strategies.Reversals.{
  rsi_mean_revert_signal, bollinger_band_signal, vwap_revert_signal, mean_revert_z_signal,
  williams_r_signal, stoch_rsi_signal, order_book_scalper_signal, spread_arb_signal,
}
use coinex_bot.Strategies.Crosses.{
  ichimoku_signal, macd_cross_signal, ema_cross_signal, supertrend_signal, parabolic_sar_signal,
  adx_dmi_signal, hull_ma_signal,
}
use coinex_bot.Strategies.Breakouts.{
  momentum_signal, grid_breaker_signal, trend_follow_signal, breakout_signal, dual_thrust_signal,
}
use coinex_bot.Strategies.Channels.{keltner_channel_signal, donchian_signal}

-- The structs that implement `Strategy`, each with its fields.
pub data BuiltIn (F : Type 0) : Type 0 where
  ichimoku_strategy macd_cross stoch_rsi_strategy : ℕ → ℕ → ℕ → BuiltIn F
  rsi_mean_revert williams_r_strategy : ℕ → F → F → BuiltIn F
  bollinger_band_strategy trend_follow supertrend_strategy adx_dmi_strategy
        keltner_channel_strategy :
      ℕ → F → BuiltIn F
  ema_cross : ℕ → ℕ → BuiltIn F
  vwap_revert : BuiltIn F
  momentum breakout_strategy hull_ma_strategy donchian_breakout : ℕ → BuiltIn F
  order_book_scalper grid_breaker : ℕ → F → BuiltIn F
  mean_revert_z : F → ℕ → BuiltIn F
  dual_thrust : F → F → ℕ → BuiltIn F
  parabolic_sar_strategy : F → F → BuiltIn F
  spread_arb : F → BuiltIn F

unfoldable pub name_of : {F : Type 0} → BuiltIn F → Text
name_of (ichimoku_strategy tenkan kijun senkou) = bytes "ichimoku"
name_of (rsi_mean_revert period oversold overbought) = bytes "rsi_mean_revert"
name_of (macd_cross fast slow signal) = bytes "macd_cross"
name_of (bollinger_band_strategy period std_mult) = bytes "bollinger_bands"
name_of (ema_cross fast slow) = bytes "ema_cross"
name_of vwap_revert = bytes "vwap_revert"
name_of (momentum period) = bytes "momentum"
name_of (order_book_scalper depth imbalance_thresh) = bytes "scalp_ob"
name_of (grid_breaker levels spacing_pct) = bytes "grid"
name_of (trend_follow atr_period atr_mult) = bytes "trend_follow"
name_of (breakout_strategy lookback) = bytes "breakout"
name_of (mean_revert_z z_threshold period) = bytes "mean_revert_z"
name_of (dual_thrust k1 k2 lookback) = bytes "dual_thrust"
name_of (supertrend_strategy atr_period factor) = bytes "supertrend"
name_of (williams_r_strategy period oversold overbought) = bytes "williams_r"
name_of (stoch_rsi_strategy period k d) = bytes "stoch_rsi"
name_of (adx_dmi_strategy period adx_thresh) = bytes "dmi_adx"
name_of (parabolic_sar_strategy step max_step) = bytes "parabolic_sar"
name_of (hull_ma_strategy period) = bytes "hull_ma"
name_of (keltner_channel_strategy period atr_mult) = bytes "keltner_channel"
name_of (donchian_breakout period) = bytes "donchian"
name_of (spread_arb spread_thresh) = bytes "arb_spread"

abbrev pub Registry : Type 0 → Type 0
Registry F = Dict (BuiltIn F)

module _ {F : Type 0} where
  unfoldable pub register_strategy : BuiltIn F → Registry F → Registry F
  unfolding name_of
  register_strategy s registry = insert (name_of s) s registry

  unfoldable pub get_strategy : Text → Registry F → Option (BuiltIn F)
  get_strategy name registry = lookup name registry

  unfoldable pub all_strategies : Registry F → List (BuiltIn F)
  all_strategies registry = values registry

  unfoldable pub register_all : List (BuiltIn F) → Registry F → Registry F
  unfolding register_strategy
  register_all [] registry = registry
  register_all (s ∷ ss) registry = register_all ss (register_strategy s registry)

module _ {F : Type 0} ⦃f : Float F⦄ where
  open f use {literal, of_int, negate}

  -- In the order of `init`.
  unfoldable pub built_ins : List (BuiltIn F)
  built_ins =
      ichimoku_strategy 9 26 52
      ∷ rsi_mean_revert 14 (of_int 30) (of_int 70)
      ∷ macd_cross 12 26 9
      ∷ bollinger_band_strategy 20 (of_int 2)
      ∷ ema_cross 9 21
      ∷ vwap_revert
      ∷ momentum 10
      ∷ order_book_scalper 10 (literal 4 10)
      ∷ grid_breaker 10 (literal 5 1000)
      ∷ trend_follow 14 (of_int 2)
      ∷ breakout_strategy 20
      ∷ mean_revert_z (of_int 2) 20
      ∷ dual_thrust (literal 7 10) (literal 7 10) 5
      ∷ supertrend_strategy 10 (of_int 3)
      ∷ williams_r_strategy 14 (negate (of_int 80)) (negate (of_int 20))
      ∷ stoch_rsi_strategy 14 3 3
      ∷ adx_dmi_strategy 14 (of_int 25)
      ∷ parabolic_sar_strategy (literal 2 100) (literal 2 10)
      ∷ hull_ma_strategy 16
      ∷ keltner_channel_strategy 20 (literal 15 10)
      ∷ donchian_breakout 20
      ∷ spread_arb (literal 1 1000)
      ∷ []

module _ {D F : Type 0} ⦃d : Decimal D⦄ ⦃f : Float F⦄ ⦃c : Convert D F⦄ where
  -- The call of the interface's method `Evaluate`.
  unfoldable pub evaluate : Time → BuiltIn F → List (Candle D) → OrderBook D → Result (Signal F)
  evaluate now (ichimoku_strategy tenkan kijun senkou) xs ob =
      ichimoku_signal now tenkan kijun senkou xs
  evaluate now (rsi_mean_revert period oversold overbought) xs ob =
      rsi_mean_revert_signal now period oversold overbought xs
  evaluate now (macd_cross fast slow signal) xs ob = macd_cross_signal now fast slow signal xs
  evaluate now (bollinger_band_strategy period std_mult) xs ob =
      bollinger_band_signal now period std_mult xs
  evaluate now (ema_cross fast slow) xs ob = ema_cross_signal now fast slow xs
  evaluate now vwap_revert xs ob = vwap_revert_signal now xs
  evaluate now (momentum period) xs ob = momentum_signal now period xs
  evaluate now (order_book_scalper depth imbalance_thresh) xs ob =
      order_book_scalper_signal now depth imbalance_thresh ob
  evaluate now (grid_breaker levels spacing_pct) xs ob = grid_breaker_signal now spacing_pct xs
  evaluate now (trend_follow atr_period atr_mult) xs ob =
      trend_follow_signal now atr_period atr_mult xs
  evaluate now (breakout_strategy lookback) xs ob = breakout_signal now lookback xs
  evaluate now (mean_revert_z z_threshold period) xs ob =
      mean_revert_z_signal now z_threshold period xs
  evaluate now (dual_thrust k1 k2 lookback) xs ob = dual_thrust_signal now k1 k2 lookback xs
  evaluate now (supertrend_strategy atr_period factor) xs ob =
      supertrend_signal now atr_period factor xs
  evaluate now (williams_r_strategy period oversold overbought) xs ob =
      williams_r_signal now period oversold overbought xs
  evaluate now (stoch_rsi_strategy period k d) xs ob = stoch_rsi_signal now period k d xs
  evaluate now (adx_dmi_strategy period adx_thresh) xs ob = adx_dmi_signal now period adx_thresh xs
  evaluate now (parabolic_sar_strategy step max_step) xs ob =
      parabolic_sar_signal now step max_step xs
  evaluate now (hull_ma_strategy period) xs ob = hull_ma_signal now period xs
  evaluate now (keltner_channel_strategy period atr_mult) xs ob =
      keltner_channel_signal now period atr_mult xs
  evaluate now (donchian_breakout period) xs ob = donchian_signal now period xs
  evaluate now (spread_arb spread_thresh) xs ob = spread_arb_signal now spread_thresh ob
