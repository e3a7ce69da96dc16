-- ===== src/Position/Tests.antt =====
-- internal/position/manager.go at concrete inputs, with whole numbers for decimals and floats.
use mathlib.Core.List.{Permᴰ}
use coinex_bot.Prelude.{◌≡◌, refl, ◌≢◌, true, false, List, [], ◌∷◌, none, some, arith, Text, bytes}
use coinex_bot.Prelude.{text_eq}
use coinex_bot.Prelude.Int.{ℤ, pos, negsuc, ◌-ℤ◌, ◌*ℤ◌, ◌+ℤ◌, ltb_ℤ}
use coinex_bot.Prelude.Dict.{insert, delete, lookup, values}
use coinex_bot.Number.Whole.{whole_decimal, whole_float, whole_convert, quot, Whole-IsDecimal}
use coinex_bot.Models.{OrderSide, buy, sell, spot}
use coinex_bot.Position.{
  OpenPosition, Manager, Call, opens, closes, updates, position_key, key, new_manager, can_open,
  open_position, close_position, update_price, exceeds_exposure, run, step, update_prices,
  profit_at,
}
use coinex_bot.Position.Invariant.{IsValid, open_position-can_open, run-IsValid}
use coinex_bot.Position.Contract.{close_position-open_position}
use coinex_bot.Position.Exposure.{exceeds_exposure-open_position}

abbrev sample : Text → OrderSide → OpenPosition ℤ ℤ
sample market side = record {
  id = bytes "1";
  market = market;
  market_type = spot;
  side = side;
  strategy = bytes "consensus";
  entry_price = pos 100;
  quantity = pos 2;
  stop_loss = pos 98;
  take_profit = pos 103;
  entry_order_id = bytes "1";
  opened_at = 0;
  current_price = pos 0;
  unrealized_pl = pos 0;
  unreal_pl_pct = pos 0;
}

abbrev btc : Text
btc = bytes "BTC"

abbrev eth : Text
eth = bytes "ETH"

abbrev calls : List (Call ℤ ℤ)
calls =
    opens (sample btc buy)
    ∷ opens (sample btc buy)
    ∷ opens (sample eth buy)
    ∷ opens (sample eth sell)
    ∷ updates btc (pos 97)
    ∷ closes eth buy
    ∷ []

-- Limit 2: the second `Open` meets an open key and the fourth the limit.
abbrev empty : Manager ℤ ℤ
empty = record { positions = []; max_positions = 2; max_exposure_pct = pos 1 }

abbrev one : Manager ℤ ℤ
one = record empty { positions = (position_key btc buy, sample btc buy) ∷ [] }

run_test :
    values (run (new_manager 2 (pos 1)) calls).positions
    ≡ record (sample btc buy) {
      current_price = pos 97;
      unrealized_pl = negsuc 5;
      unreal_pl_pct = pos 0;
    }
      ∷ []
unfolding run step new_manager open_position close_position update_prices update_price profit_at key
    position_key insert delete lookup text_eq ◌-ℤ◌ ◌*ℤ◌ quot
run_test = refl

run-IsValid_example : IsValid (run (new_manager 2 (pos 1)) calls)
run-IsValid_example = run-IsValid 2 (pos 1) calls

opens_one : open_position empty (sample btc buy) ≡ (one, none)
unfolding open_position key position_key insert lookup text_eq
opens_one = refl

open_position-can_open_example :
    ((can_open empty btc buy).0 ≡ true
      → open_position empty (sample btc buy)
        ≡ (record empty { positions = insert (key (sample btc buy)) (sample btc buy) [] }, none))
    × ((can_open empty btc buy).0 ≡ false
        → ((open_position empty (sample btc buy)).0 ≡ empty)
          × ((open_position empty (sample btc buy)).1 ≢ none))
open_position-can_open_example = open_position-can_open empty (sample btc buy)

one-IsValid : IsValid one
unfolding position_key text_eq key
one-IsValid = record { distinct = (tt, tt); keyed = (refl, tt); limited = omega arith }

close_position-open_position_example : close_position one btc buy ≡ (empty, some (sample btc buy))
close_position-open_position_example =
    close_position-open_position empty one (sample btc buy) opens_one

-- A stop at 98 under a target at 103: at 97 the long position is stopped, and is not at its target.
abbrev stopped : OpenPosition ℤ ℤ
stopped = record (sample btc buy) { current_price = pos 97 }

abbrev both : Manager ℤ ℤ
both = record empty {
  positions =
      (position_key btc buy, sample btc buy) ∷ (position_key eth sell, sample eth sell) ∷ [];
}

opens_both : open_position one (sample eth sell) ≡ (both, none)
unfolding open_position key position_key insert lookup text_eq
opens_both = refl

exceeds_exposure-open_position_example :
    (false ≡ true → exceeds_exposure one (pos 100 *ℤ pos 2) (pos 100) ≡ false)
    × (false ≡ true → exceeds_exposure one (pos 100 *ℤ pos 2) (pos 100) ≡ false)
    × (false ≡ false
        → false ≡ false
        → exceeds_exposure one (pos 100 *ℤ pos 2) (pos 100)
          ≡ ltb_ℤ (pos 1) (quot (pos 400) (pos 100)))
unfolding ◌*ℤ◌ ◌+ℤ◌
exceeds_exposure-open_position_example =
    exceeds_exposure-open_position Whole-IsDecimal one both (sample eth sell) (pos 100)
      (sample eth sell ∷ sample btc buy ∷ []) opens_both (Permᴰ.swap refl refl)
