-- ===== src/Strategies/Totals/Reversals.antt =====
-- internal/strategies/all_strategies.go: the methods of Strategies/Reversals.
use coinex_bot.Prelude.{ℕ, ◌<◌, ◌≡◌, false, not, List, arith, ltb, ◌==◌, length, bytes}
use coinex_bot.Prelude.Results.{Gives, gives, Gives-bind, Gives-if}
use coinex_bot.Prelude.Slices.{last-Gives, before_last-Gives}
use coinex_bot.Number.{Decimal, Float, Convert}
use coinex_bot.Models.{Time, Candle, OrderBook, mid_price, spread}
use coinex_bot.Indicators.Oscillators.{rsi}
use coinex_bot.Indicators.Bands.{vwap}
use coinex_bot.Indicators.Totals.{
  HasFiniteBands, bollinger_bands-Gives, williams_r-Gives, stoch_rsi-Gives,
}
use coinex_bot.Strategies.Reversals.{
  rsi_mean_revert_signal, bollinger_band_signal, vwap_revert_signal, mean_revert_z_signal,
  deviation_of, last_prices, williams_r_signal, stoch_rsi_signal, order_book_scalper_signal,
  spread_arb_signal,
}
use coinex_bot.Strategies.Totals.Outcome.{
  IsSignalOf, new_signal-IsSignalOf, no_trade-IsSignalOf, long_or_short-IsSignalOf,
  checked_div-Gives,
}

module _ {D F : Type 0} ⦃d : Decimal D⦄ ⦃f : Float F⦄ ⦃c : Convert D F⦄ (now : Time)
    (xs : List (Candle D)) (some_candles : 0 < length xs) where
  pub rsi_mean_revert_signal-Gives :
      (period : ℕ) (lo hi : F)
      → Gives
          (IsSignalOf (bytes "rsi_mean_revert") now)
          (rsi_mean_revert_signal now period lo hi xs)
  unfolding rsi_mean_revert_signal
  rsi_mean_revert_signal-Gives period lo hi =
      let vs : List F = rsi xs period in
      Gives-if (length vs == 0) (λ _. gives (no_trade-IsSignalOf F now _ _))
        λ e.
          Gives-bind (last-Gives vs (ground arith))
            λ _ _. gives (long_or_short-IsSignalOf F now _ _ _ _ _ _ _ _)

  pub bollinger_band_signal-Gives :
      (period : ℕ) (m : F)
      → 0 < period
      → HasFiniteBands F xs period m
      → Gives (IsSignalOf (bytes "bollinger_bands") now) (bollinger_band_signal now period m xs)
  unfolding bollinger_band_signal
  bollinger_band_signal-Gives period m h finite =
      Gives-bind (bollinger_bands-Gives F xs period m h finite) λ bb _.
        Gives-if (ltb (length bb) 2) (λ _. gives (no_trade-IsSignalOf F now _ _))
          λ e. Gives-bind (last-Gives bb (ground arith)) λ _ _.
            Gives-bind (last-Gives xs some_candles)
              λ _ _. gives (long_or_short-IsSignalOf F now _ _ _ _ _ _ _ _)

  pub vwap_revert_signal-Gives :
      d.is_zero (vwap xs) ≡ false
      → Gives (IsSignalOf (bytes "vwap_revert") now) (vwap_revert_signal {F = F} now xs)
  unfolding vwap_revert_signal
  vwap_revert_signal-Gives h =
      Gives-if (ltb (length xs) 20) (λ _. gives (no_trade-IsSignalOf F now _ _))
        λ e. Gives-bind (last-Gives xs some_candles) λ x _.
          Gives-bind (checked_div-Gives _ (vwap xs) h) λ dev _.
            Gives-if (not (f.lt (f.literal 15 1000) (c.float64 dev)))
              (λ _. gives (no_trade-IsSignalOf F now _ _))
              λ _.
                Gives-if (d.less_than x.close (vwap xs))
                  (λ _. gives (new_signal-IsSignalOf F now _ _ _ _ _))
                  (λ _. gives (new_signal-IsSignalOf F now _ _ _ _ _))

  pub mean_revert_z_signal-Gives :
      (z : F) (period : ℕ)
      → Gives (IsSignalOf (bytes "mean_revert_z") now) (mean_revert_z_signal now z period xs)
  unfolding mean_revert_z_signal
  mean_revert_z_signal-Gives z period =
      Gives-if (ltb (length xs) period) (λ _. gives (no_trade-IsSignalOf F now _ _))
        λ _.
          Gives-if (f.eq (deviation_of period (last_prices {F = F} period xs)) (f.of_int 0))
            (λ _. gives (no_trade-IsSignalOf F now _ _))
            λ _.
              Gives-bind (last-Gives xs some_candles)
                λ _ _. gives (long_or_short-IsSignalOf F now _ _ _ _ _ _ _ _)

  pub williams_r_signal-Gives :
      (period : ℕ) (lo hi : F)
      → 0 < period
      → Gives (IsSignalOf (bytes "williams_r") now) (williams_r_signal now period lo hi xs)
  unfolding williams_r_signal
  williams_r_signal-Gives period lo hi h = Gives-bind (williams_r-Gives xs period h) λ vs _.
      Gives-if (length vs == 0) (λ _. gives (no_trade-IsSignalOf F now _ _))
        λ e.
          Gives-bind (last-Gives vs (ground arith))
            λ _ _. gives (long_or_short-IsSignalOf F now _ _ _ _ _ _ _ _)

  pub stoch_rsi_signal-Gives :
      (period k j : ℕ)
      → 0 < k
      → 0 < j
      → Gives (IsSignalOf (bytes "stoch_rsi") now) (stoch_rsi_signal {F = F} now period k j xs)
  unfolding stoch_rsi_signal
  stoch_rsi_signal-Gives period k j hk hj = Gives-bind (stoch_rsi-Gives xs period k j hk hj) λ sr _.
      Gives-if (ltb (length sr) 2) (λ _. gives (no_trade-IsSignalOf F now _ _))
        λ e. Gives-bind (last-Gives sr (ground arith)) λ _ _.
          Gives-bind (before_last-Gives sr (ground arith))
            λ _ _. gives (long_or_short-IsSignalOf F now _ _ _ _ _ _ _ _)

  pub order_book_scalper_signal-Gives :
      (depth : ℕ) (m : F) (ob : OrderBook D)
      → Gives (IsSignalOf (bytes "scalp_ob") now) (order_book_scalper_signal now depth m ob)
  unfolding order_book_scalper_signal
  order_book_scalper_signal-Gives depth m ob =
      gives (long_or_short-IsSignalOf F now _ _ _ _ _ _ _ _)

  pub spread_arb_signal-Gives :
      (m : F) (ob : OrderBook D)
      → Gives (IsSignalOf (bytes "arb_spread") now) (spread_arb_signal now m ob)
  unfolding spread_arb_signal
  spread_arb_signal-Gives m ob =
      Gives-if (d.is_zero (mid_price ob)) (λ _. gives (no_trade-IsSignalOf F now _ _))
        λ e. Gives-bind (checked_div-Gives (spread ob) (mid_price ob) e) λ part _.
          Gives-if (f.lt m (c.float64 part)) (λ _. gives (new_signal-IsSignalOf F now _ _ _ _ _))
            (λ _. gives (no_trade-IsSignalOf F now _ _))
