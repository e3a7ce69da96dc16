-- ===== src/Position.antt =====
-- internal/position/manager.go: the open positions of the bot, keyed by market and side. The
-- manager's methods hold its lock throughout, so each is one step on its state.
pub mod Keys
pub mod Invariant
pub mod Contract
pub mod Exits
pub mod Exposure
mod Tests
use coinex_bot.Prelude.{
  ℕ, ◌≡◌, Bool, true, false, ◌||◌, List, [], ◌∷◌, ◌++◌, Option, none, some, if◌then◌else◌, leb,
  length, Text, text_eq, bytes,
}
use coinex_bot.Prelude.Dict.{Dict, lookup, insert, delete, has, values}
use coinex_bot.Number.{Decimal, Float, Convert}
use coinex_bot.Number.Sums.{sum_by}
use coinex_bot.Models.{Time, OrderSide, buy, sell, side_text, is_buy, MarketType}

pub record OpenPosition (D F : Type 0) : Type 0 where
  pub id : Text
  pub market : Text
  pub market_type : MarketType
  pub side : OrderSide
  pub strategy : Text
  pub entry_price : D
  pub quantity : D
  pub stop_loss : D
  pub take_profit : D
  pub entry_order_id : Text
  pub opened_at : Time
  pub current_price : D
  pub unrealized_pl : D
  pub unreal_pl_pct : F

-- market + ":" + string(side)
unfoldable pub position_key : Text → OrderSide → Text
position_key market side = market ++ (b':' ∷ side_text side)

pub record Manager (D F : Type 0) : Type 0 where
  pub positions : Dict (OpenPosition D F)
  pub max_positions : ℕ
  pub max_exposure_pct : F

-- The second result of `CanOpen`, a message.
pub data Reason : Type 0 where
  no_reason : Reason
  already_open : Text → OrderSide → Reason
  limit_reached : ℕ → Reason

pub data OpenError : Type 0 where
  position_already_open : Text → OpenError
  max_positions_reached : OpenError

module _ {D F : Type 0} where
  unfoldable pub key : OpenPosition D F → Text
  unfolding position_key
  key p = position_key p.market p.side

  unfoldable pub new_manager : ℕ → F → Manager D F
  new_manager max_positions max_exposure_pct = record {
    positions = [];
    max_positions = max_positions;
    max_exposure_pct = max_exposure_pct;
  }

  unfoldable pub can_open : Manager D F → Text → OrderSide → Bool × Reason
  can_open m market side =
      if has (position_key market side) m.positions
      then (false, already_open market side)
      else if leb m.max_positions (length m.positions)
      then (false, limit_reached m.max_positions)
      else (true, no_reason)

  unfoldable pub open_position : Manager D F → OpenPosition D F → Manager D F × Option OpenError
  open_position m p =
      if has (key p) m.positions
      then (m, some (position_already_open (key p)))
      else if leb m.max_positions (length m.positions)
      then (m, some max_positions_reached)
      else (record m { positions = insert (key p) p m.positions }, none)

  unfoldable pub close_position :
      Manager D F → Text → OrderSide → Manager D F × Option (OpenPosition D F)
  close_position m market side = elim (lookup (position_key market side) m.positions) [
    | none ↦ (m, none)
    | some p ↦ (record m { positions = delete (position_key market side) m.positions }, some p)
  ]

  unfoldable pub get : Manager D F → Text → OrderSide → Option (OpenPosition D F)
  get m market side = lookup (position_key market side) m.positions

  -- The copies that `All` hands out, in the order of the iteration.
  unfoldable pub all_positions : Manager D F → List (OpenPosition D F)
  all_positions m = values m.positions

  unfoldable pub count : Manager D F → ℕ
  count m = length m.positions

module _ {D F : Type 0} ⦃d : Decimal D⦄ ⦃f : Float F⦄ ⦃c : Convert D F⦄ where
  open d use {zero_dec, add, sub, mul, is_zero, less_than_or_equal, greater_than_or_equal}
  open f use {of_int, over, times, lt, le}
  open c use {float64}

  unfoldable pub profit_at : OpenPosition D F → D → D
  profit_at p price =
      if is_buy p.side
      then mul (sub price p.entry_price) p.quantity
      else mul (sub p.entry_price price) p.quantity

  unfoldable pub update_price : OpenPosition D F → D → OpenPosition D F
  update_price p price =
      let pl = profit_at p price in
      let entry_f = float64 p.entry_price in
      if is_zero p.entry_price
      then record p { current_price = price }
      else if lt (of_int 0) entry_f
      then record p {
        current_price = price;
        unrealized_pl = pl;
        unreal_pl_pct = over (float64 pl) (times entry_f (float64 p.quantity));
      }
      else record p { current_price = price; unrealized_pl = pl }

  unfoldable pub should_stop_loss : OpenPosition D F → Bool
  should_stop_loss p =
      if is_zero p.stop_loss || is_zero p.current_price
      then false
      else if is_buy p.side
      then less_than_or_equal p.current_price p.stop_loss
      else greater_than_or_equal p.current_price p.stop_loss

  unfoldable pub should_take_profit : OpenPosition D F → Bool
  should_take_profit p =
      if is_zero p.take_profit || is_zero p.current_price
      then false
      else if is_buy p.side
      then greater_than_or_equal p.current_price p.take_profit
      else less_than_or_equal p.current_price p.take_profit

  unfoldable pub update_all : Text → D → Dict (OpenPosition D F) → Dict (OpenPosition D F)
  update_all market price [] = []
  update_all market price ((k, p) ∷ m) =
      (k, if text_eq p.market market then update_price p price else p) ∷ update_all market price m

  unfoldable pub update_prices : Manager D F → Text → D → Manager D F
  unfolding update_all
  update_prices m market price = record m { positions = update_all market price m.positions }

  -- The positions at their stop loss, and those at their take profit only.
  unfoldable pub exits : List (OpenPosition D F) → List (OpenPosition D F) × List (OpenPosition D F)
  exits [] = ([], [])
  exits (p ∷ ps) =
      let (sl_hit, tp_hit) = exits ps in
      if should_stop_loss p
      then (p ∷ sl_hit, tp_hit)
      else if should_take_profit p
      then (sl_hit, p ∷ tp_hit)
      else (sl_hit, tp_hit)

  unfoldable pub triggered_exits : Manager D F → List (OpenPosition D F) × List (OpenPosition D F)
  unfolding exits
  triggered_exits m = exits (values m.positions)

  unfoldable pub total_unrealized_pl : Manager D F → D
  unfolding sum_by
  total_unrealized_pl m =
      sum_by (λ (p : OpenPosition D F). p.unrealized_pl) zero_dec (values m.positions)

  abbrev pub notional : OpenPosition D F → D
  notional p = mul p.entry_price p.quantity

  unfoldable pub total_exposure : Manager D F → D
  unfolding sum_by
  total_exposure m = sum_by notional zero_dec (values m.positions)

  unfoldable pub exceeds_exposure : Manager D F → D → D → Bool
  exceeds_exposure m new_exposure total_capital =
      if le m.max_exposure_pct (of_int 0) || is_zero total_capital
      then false
      else lt m.max_exposure_pct
          (over (float64 (add (total_exposure m) new_exposure)) (float64 total_capital))

-- The calls that change a manager.
pub data Call (D F : Type 0) : Type 0 where
  opens : OpenPosition D F → Call D F
  closes : Text → OrderSide → Call D F
  updates : Text → D → Call D F

module _ {D F : Type 0} ⦃d : Decimal D⦄ ⦃f : Float F⦄ ⦃c : Convert D F⦄ where
  unfoldable pub step : Manager D F → Call D F → Manager D F
  step m (opens p) = (open_position m p).0
  step m (closes market side) = (close_position m market side).0
  step m (updates market price) = update_prices m market price

  unfoldable pub run : Manager D F → List (Call D F) → Manager D F
  run m [] = m
  run m (k ∷ ks) = run (step m k) ks
