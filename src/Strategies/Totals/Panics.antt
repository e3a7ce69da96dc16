-- ===== src/Strategies/Totals/Panics.antt =====
-- internal/strategies/all_strategies.go: the division of `VWAPRevert`.
use coinex_bot.Prelude.{◌≤◌, ◌≡◌, refl, false, List, [], ◌∷◌, arith, ltb, length, All}
use coinex_bot.Prelude.Results.{panic, Gives-value}
use coinex_bot.Prelude.Slices.{last-Gives}
use coinex_bot.Number.{Decimal, Float, Convert}
use coinex_bot.Number.Laws.{IsDecimal}
use coinex_bot.Models.{Time, Candle, OrderBook}
use coinex_bot.Indicators.Bands.{vwap, vwap_sums}
use coinex_bot.Strategies.Signals.{checked_div}
use coinex_bot.Strategies.Reversals.{vwap_revert_signal}
use coinex_bot.Strategies.Registry.{vwap_revert, evaluate}

module _ {D : Type 0} ⦃d : Decimal D⦄ (laws : IsDecimal D) where
  no_volume :
      (xs : List (Candle D)) (pv vol : D)
      → vol ≡ d.zero_dec
      → All (λ (x : Candle D). x.volume ≡ d.zero_dec) xs
      → (vwap_sums pv vol xs).1 ≡ d.zero_dec
  unfolding vwap_sums
  no_volume [] pv vol e h = e
  no_volume (x ∷ xs) pv vol e h =
      no_volume xs _ (d.add vol x.volume) (cc (e, h.0, laws.add_zero d.zero_dec)) h.1

module _ {D : Type 0} (F : Type 0) ⦃d : Decimal D⦄ ⦃f : Float F⦄ ⦃c : Convert D F⦄
    (laws : IsDecimal D) where
  -- With the laws of a decimal type, the strategy on the average price panics, on a division by
  -- zero, whenever 20 candles or more all have the volume zero.
  pub vwap_revert-no_volume :
      (now : Time) (xs : List (Candle D)) (ob : OrderBook D)
      → 20 ≤ length xs
      → All (λ (x : Candle D). x.volume ≡ d.zero_dec) xs
      → evaluate {F = F} now vwap_revert xs ob ≡ panic
  unfolding evaluate vwap_revert_signal vwap checked_div
  vwap_revert-no_volume now xs ob h volumes =
      let zero_is = (laws.zero_iff d.zero_dec).1 refl in
      let enough : ltb (length xs) 20 ≡ false = ground arith in
      let (x, found, _) = Gives-value (last-Gives xs (omega arith)) in
      rw (enough, found, no_volume laws xs d.zero_dec d.zero_dec refl volumes, zero_is, zero_is)
        refl
