-- ===== src/Position/Exits.antt =====
-- internal/position/manager.go, `ShouldStopLoss`, `ShouldTakeProfit`, `TriggeredExits` and
-- `UpdatePrice`: which positions are to be closed, and at what profit.
use mathlib.Core.Option
use coinex_bot.Prelude.{
  ◌≡◌, refl, inl, inr, Bool, true, false, not, ◌&&◌, List, [], ◌∷◌, arith, if◌then◌else◌,
  Bool-cases, Text, text_eq,
}
use coinex_bot.Prelude.Dict.{Dict, values, lookup}
use coinex_bot.Number.{Decimal, Float, Convert}
use coinex_bot.Number.Laws.{IsDecimal}
use coinex_bot.Models.{buy, sell, is_buy}
use coinex_bot.Position.{
  OpenPosition, Manager, key, all_positions, update_price, should_stop_loss, should_take_profit,
  update_all, exits, triggered_exits,
}

module _ {D F : Type 0} ⦃d : Decimal D⦄ ⦃f : Float F⦄ ⦃c : Convert D F⦄ where
  -- The two lists that `TriggeredExits` returns are the positions, in order, that pass each test.
  abbrev pub keep : (OpenPosition D F → Bool) → List (OpenPosition D F) → List (OpenPosition D F)
  keep test [] = []
  keep test (p ∷ ps) = let rest = keep test ps in if test p then p ∷ rest else rest

  pub exits-keep :
      (ps : List (OpenPosition D F))
      → exits ps ≡ (
        keep should_stop_loss ps,
        keep (λ p. not (should_stop_loss p) && should_take_profit p) ps,
      )
  unfolding exits
  exits-keep [] = refl
  exits-keep (p ∷ ps) = ground (arith, exits-keep ps)

  module _ (laws : IsDecimal D) where
    open laws use {
      positive_lem, greater_lem, less_or_equal_lem, greater_or_equal_lem, less_irrefl, less_trans,
      less_total,
    }

    -- A position whose stop loss and take profit stand on their sides (the stop below the target
    -- when it is long, above it when it is short) never meets both tests at once.
    pub exits_exclusive :
        (p : OpenPosition D F)
        → (p.side ≡ buy → d.less_than p.stop_loss p.take_profit ≡ true)
        → (p.side ≡ sell → d.less_than p.take_profit p.stop_loss ≡ true)
        → should_stop_loss p ≡ true
        → should_take_profit p ≡ false
    unfolding should_stop_loss should_take_profit
    exits_exclusive p hb hs h = ground (
      arith,
      less_or_equal_lem p.current_price p.stop_loss,
      greater_or_equal_lem p.current_price p.take_profit,
      greater_or_equal_lem p.current_price p.stop_loss,
      less_or_equal_lem p.current_price p.take_profit,
      less_trans p.take_profit p.current_price p.stop_loss,
      less_trans p.stop_loss p.take_profit p.current_price,
      less_total p.current_price p.stop_loss,
      less_trans p.current_price p.stop_loss p.take_profit,
      less_total p.stop_loss p.current_price,
      less_trans p.take_profit p.stop_loss p.current_price,
      less_irrefl p.stop_loss,
      less_irrefl p.take_profit,
    )

  -- `TriggeredExits` returns, in the order of the iteration, exactly the positions that meet their
  -- stop loss, and exactly those that meet their take profit and not their stop loss.
  pub triggered_exits-keep :
      (m : Manager D F)
      → triggered_exits m ≡ (
        keep should_stop_loss (all_positions m),
        keep (λ p. not (should_stop_loss p) && should_take_profit p) (all_positions m),
      )
  unfolding triggered_exits all_positions
  triggered_exits-keep m = exits-keep (values m.positions)

  -- After `UpdatePrice` at a price that is not zero, a position with a stop loss is to be stopped
  -- exactly when the price is at the stop or beyond it: at most the stop for a long position, at
  -- least the stop for a short one. Its market, side, entry, quantity and levels are as before.
  pub should_stop_loss-update_price :
      (p : OpenPosition D F) (price : D)
      → d.is_zero price ≡ false
      → d.is_zero p.stop_loss ≡ false
      → let q = update_price p price in
        (should_stop_loss q ≡ (
          if is_buy p.side
          then d.less_than_or_equal price p.stop_loss
          else d.greater_than_or_equal price p.stop_loss))
        × (key q ≡ key p)
        × (q.entry_price ≡ p.entry_price)
        × (q.quantity ≡ p.quantity)
        × (q.stop_loss ≡ p.stop_loss)
        × (q.take_profit ≡ p.take_profit)
  unfolding should_stop_loss update_price key
  should_stop_loss-update_price p price hp hs = ground arith

  -- `UpdatePrices` sets price and profit of the positions of its market and touches no other.
  pub update_all-lookup :
      (market : Text) (price : D) (k : Text) (m : Dict (OpenPosition D F))
      → lookup k (update_all market price m)
        ≡ Option.map (λ p. if text_eq p.market market then update_price p price else p) (lookup k m)
  unfolding lookup update_all
  update_all-lookup market price k [] = refl
  update_all-lookup market price k ((j, p) ∷ m) = elim (Bool-cases (text_eq j k)) [
    | inl same ↦ rw same refl
    | inr other ↦ rw other (update_all-lookup market price k m)
  ]
