-- ===== src/Strategies/Totals/Breakouts.antt =====
-- internal/strategies/all_strategies.go: the methods of Strategies/Breakouts and Channels.
use coinex_bot.Prelude.{
  ℕ, ◌-◌, ◌<◌, ◌≡◌, true, false, List, arith, ltb, leb, ◌==◌, length, All, bytes,
}
use coinex_bot.Prelude.Results.{Gives, gives, Gives-bind, Gives-if}
use coinex_bot.Prelude.Slices.{last-Gives, before_last-Gives, index-Gives}
use coinex_bot.Number.{Decimal, Float, Convert}
use coinex_bot.Models.{Time, Candle}
use coinex_bot.Indicators.Totals.{
  atr-Gives, from_float-Gives, keltner_channel-Gives, donchian_channel-Gives, All-unit,
  window_range-Gives,
}
use coinex_bot.Strategies.Breakouts.{
  momentum_signal, grid_breaker_signal, trend_follow_signal, breakout_signal, dual_thrust_signal,
  lookback_window,
}
use coinex_bot.Strategies.Channels.{keltner_channel_signal, donchian_signal}
use coinex_bot.Strategies.Totals.Outcome.{
  IsSignalOf, no_trade-IsSignalOf, long_or_short-IsSignalOf, checked_div-Gives,
  length-lookback_window, thrust_range-Gives,
}

module _ {D F : Type 0} ⦃d : Decimal D⦄ ⦃f : Float F⦄ ⦃c : Convert D F⦄ (now : Time)
    (xs : List (Candle D)) (some_candles : 0 < length xs) where
  pub momentum_signal-Gives :
      (period : ℕ)
      → All (λ (x : Candle D). d.is_zero x.close ≡ false) xs
      → Gives (IsSignalOf (bytes "momentum") now) (momentum_signal {F = F} now period xs)
  unfolding momentum_signal
  momentum_signal-Gives period h =
      Gives-if (leb (length xs) period) (λ _. gives (no_trade-IsSignalOf F now _ _))
        λ e. Gives-bind (last-Gives xs some_candles) λ _ _.
          Gives-bind (index-Gives xs (length xs - 1 - period) (ground arith) h) λ past nz.
            Gives-bind (checked_div-Gives _ past.close nz)
              λ _ _. gives (long_or_short-IsSignalOf F now _ _ _ _ _ _ _ _)

  pub grid_breaker_signal-Gives :
      (m : F) → Gives (IsSignalOf (bytes "grid") now) (grid_breaker_signal now m xs)
  unfolding grid_breaker_signal
  grid_breaker_signal-Gives m =
      Gives-if (ltb (length xs) 2) (λ _. gives (no_trade-IsSignalOf F now _ _))
        λ e. Gives-bind (index-Gives xs 0 some_candles (All-unit xs)) λ _ _.
          Gives-bind (last-Gives xs some_candles)
            λ _ _. gives (long_or_short-IsSignalOf F now _ _ _ _ _ _ _ _)

  pub trend_follow_signal-Gives :
      (period : ℕ) (m : F)
      → 0 < period
      → f.is_finite m ≡ true
      → Gives (IsSignalOf (bytes "trend_follow") now) (trend_follow_signal now period m xs)
  unfolding trend_follow_signal
  trend_follow_signal-Gives period m h finite = Gives-bind (atr-Gives F xs period h) λ vs short.
      Gives-if (ltb (length vs) 2) (λ _. gives (no_trade-IsSignalOf F now _ _))
        λ e. Gives-bind (last-Gives xs some_candles) λ _ _.
          Gives-bind (before_last-Gives xs (ground arith)) λ _ _.
            Gives-bind (last-Gives vs (ground arith)) λ _ _.
              Gives-bind (from_float-Gives m finite)
                λ _ _. gives (long_or_short-IsSignalOf F now _ _ _ _ _ _ _ _)

  pub breakout_signal-Gives :
      (n : ℕ) → 0 < n → Gives (IsSignalOf (bytes "breakout") now) (breakout_signal {F = F} now n xs)
  unfolding breakout_signal
  breakout_signal-Gives n h =
      Gives-if (leb (length xs) n) (λ _. gives (no_trade-IsSignalOf F now _ _))
        λ e.
          Gives-bind
            (window_range-Gives (lookback_window n xs)
              (omega (arith, length-lookback_window n xs e)))
            λ _ _.
              Gives-bind (last-Gives xs some_candles)
                λ _ _. gives (long_or_short-IsSignalOf F now _ _ _ _ _ _ _ _)

  pub dual_thrust_signal-Gives :
      (k1 k2 : F) (n : ℕ)
      → 0 < n
      → f.is_finite k1 ≡ true
      → f.is_finite k2 ≡ true
      → Gives (IsSignalOf (bytes "dual_thrust") now) (dual_thrust_signal now k1 k2 n xs)
  unfolding dual_thrust_signal
  dual_thrust_signal-Gives k1 k2 n h finite1 finite2 =
      Gives-if (leb (length xs) n) (λ _. gives (no_trade-IsSignalOf F now _ _))
        λ e.
          Gives-bind
            (thrust_range-Gives (lookback_window n xs)
              (omega (arith, length-lookback_window n xs e)))
            λ _ _. Gives-bind (last-Gives xs some_candles) λ _ _.
              Gives-bind (from_float-Gives k1 finite1) λ _ _.
                Gives-bind (from_float-Gives k2 finite2)
                  λ _ _. gives (long_or_short-IsSignalOf F now _ _ _ _ _ _ _ _)

  pub keltner_channel_signal-Gives :
      (period : ℕ) (m : F)
      → 0 < period
      → f.is_finite m ≡ true
      → Gives (IsSignalOf (bytes "keltner_channel") now) (keltner_channel_signal now period m xs)
  unfolding keltner_channel_signal
  keltner_channel_signal-Gives period m h finite =
      Gives-bind (keltner_channel-Gives F xs period m h finite) λ vs _.
        Gives-if (length vs == 0) (λ _. gives (no_trade-IsSignalOf F now _ _))
          λ e. Gives-bind (last-Gives vs (ground arith)) λ _ _.
            Gives-bind (last-Gives xs some_candles)
              λ _ _. gives (long_or_short-IsSignalOf F now _ _ _ _ _ _ _ _)

  pub donchian_signal-Gives :
      (period : ℕ)
      → 0 < period
      → Gives (IsSignalOf (bytes "donchian") now) (donchian_signal {F = F} now period xs)
  unfolding donchian_signal
  donchian_signal-Gives period h = Gives-bind (donchian_channel-Gives xs period h) λ vs _.
      Gives-if (ltb (length vs) 2) (λ _. gives (no_trade-IsSignalOf F now _ _))
        λ e. Gives-bind (before_last-Gives vs (ground arith)) λ _ _.
          Gives-bind (last-Gives xs some_candles)
            λ _ _. gives (long_or_short-IsSignalOf F now _ _ _ _ _ _ _ _)
