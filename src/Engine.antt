-- ===== src/Engine.antt =====
-- internal/engine/engine.go: the orders of the single-market engine, the goroutine that manages a
-- trade, and the back-off of `Run`. The exchange's answer is given by `reply`, as for the client.
-- `Tick` has the rest of `tick`, `Loop` that of `Run`, and `Paper` UnrealizedPnL.
pub mod Trades
pub mod Backoff
pub mod Tick
pub mod Consensus
pub mod Ticks
pub mod Loop
pub mod Turns
pub mod Paper
mod Tests
use coinex_bot.Prelude.{
  ℕ, ◌*◌, ◌^◌, Bool, true, false, List, [], ◌∷◌, ◌++◌, Option, none, some, if◌then◌else◌, ltb, leb,
  length, Text, bytes, text_eq, digits, ◌/◌,
}
use coinex_bot.Prelude.Dict.{Dict, insert, delete, values}
use coinex_bot.Prelude.Results.{Result, ok, err, panic}
use coinex_bot.Number.{Decimal, Float, Convert}
use coinex_bot.Models.{
  Time, Duration, OrderBook, OrderSide, buy, sell, side_text, SignalType, is_long, Signal, Order,
  mid_price,
}
use coinex_bot.Api.Client.{Client, PlaceOrderReq, RawOrder, place_spot_order, place_futures_order}
use coinex_bot.Journal.{TradeRecord, Journal, record_trade}
use coinex_bot.MultiMarket.{side_of}

-- The fields that these methods read.
pub record BotConfig (F : Type 0) : Type 0 where
  pub mode : Text
  pub market_type : Text
  pub market : Text
  pub base_qty : Text
  pub max_open_orders : ℕ
  pub stop_loss_pct : F
  pub take_profit_pct : F

-- What these methods read and write of it.
pub record Engine (D F : Type 0) : Type 0 where
  pub cfg : BotConfig F
  pub client : Client
  pub open_orders : Dict (Order D)
  pub journal : Journal D F

-- What `manageTrade` is started with.
pub record Managed (D : Type 0) : Type 0 where
  pub order : Order D
  pub entry_price : D
  pub signal : SignalType
  pub strategy : Text
  pub entry_time : Time

-- What wakes `manageTrade` up: its ticker or its timeout, each with the mid price of the book. A
-- cancelled context, which ends the loop with nothing done, is the end of the list of rounds.
pub data Alarm (D : Type 0) : Type 0 where
  price_tick : D → Alarm D
  timed_out : D → Alarm D

-- What changes the orders and the journal: a signal that `tick` acts on, and a round of one of the
-- managers. Only `tick` adds an order, so that the length it reads can only have fallen since.
pub data Step (D F : Type 0) : Type 0 where
  signal_step : Time → Text → (PlaceOrderReq → Result RawOrder) → Signal F → OrderBook D → Step D F
  manage_step : Option Text → Managed D → Time → Alarm D → Step D F

abbrev pub backoff_start : Duration
backoff_start = 5 * 10 ^ 9

abbrev pub backoff_cap : Duration
backoff_cap = 300 * 10 ^ 9

-- The back-off after a tick that failed, and after one that did not.
unfoldable pub next_backoff : Bool → Duration → Duration
next_backoff true backoff = if ltb backoff_cap (backoff * 2) then backoff_cap else backoff * 2
next_backoff false backoff = backoff_start

-- The back-off after ticks with these outcomes.
unfoldable pub backoff_after : List Bool → Duration → Duration
unfolding next_backoff
backoff_after [] backoff = backoff
backoff_after (failed ∷ ticks) backoff = backoff_after ticks (next_backoff failed backoff)

module _ {D : Type 0} ⦃d : Decimal D⦄ where
  unfoldable pub submit :
      Client → Text → Text → PlaceOrderReq → (PlaceOrderReq → Result RawOrder) → Result (Order D)
  submit client market_type stamp req reply =
      if text_eq market_type (bytes "futures")
      then place_futures_order client stamp req reply
      else place_spot_order client stamp req reply

module _ {D F : Type 0} ⦃d : Decimal D⦄ ⦃f : Float F⦄ ⦃c : Convert D F⦄ where
  open d use {zero_dec, sub, mul, div, is_zero, new_from_string, string, string_fixed}
  open f use {negate, le}
  open c use {float64, new_from_float}

  abbrev pub limit_order_req : BotConfig F → Time → SignalType → D → D → PlaceOrderReq
  limit_order_req cfg now sig qty price = record {
    market = cfg.market;
    market_type = cfg.market_type;
    side = side_text (side_of sig);
    order_type = bytes "limit";
    amount = string qty;
    price = string_fixed 4 price;
    client_id = bytes "bot-" ++ digits 20 (now / 10 ^ 6);
  }

  -- With the trade that is to be managed, if an order was placed.
  unfoldable pub execute_signal :
      Time
      → Text
      → (PlaceOrderReq → Result RawOrder)
      → Engine D F
      → Signal F
      → OrderBook D
      → Engine D F × Result (Option (Managed D))
  unfolding submit
  execute_signal now stamp reply e sig ob =
      let price = mid_price ob in
      if leb e.cfg.max_open_orders (length e.open_orders)
      then (e, ok none)
      else if is_zero price
      then (e, ok none)
      else elim (new_from_string e.cfg.base_qty) [
        | none ↦ (e, err (bytes "invalid base_qty"))
        | some qty ↦
            let req = limit_order_req e.cfg now sig.signal qty price in
            elim (submit e.client e.cfg.market_type stamp req reply) [
              | err msg ↦ (e, err (bytes "place order: " ++ msg))
              | panic ↦ (e, panic)
              | ok order ↦
                  let trade : Managed D = record {
                    order = order;
                    entry_price = price;
                    signal = sig.signal;
                    strategy = sig.strategy;
                    entry_time = now;
                  } in
                  (record e { open_orders = insert order.id order e.open_orders }, ok (some trade))
            ]
      ]

  -- `recordClose`; `record_trade` writes the duration, from the same two times.
  unfoldable pub close_record : BotConfig F → Managed D → Time → D → Text → TradeRecord D F
  close_record cfg t now exit_price reason = record {
    id = t.order.id;
    market = t.order.market;
    market_type = none;
    side = side_of t.signal;
    strategy = t.strategy;
    entry_price = t.entry_price;
    exit_price = exit_price;
    quantity = t.order.amount;
    pnl =
        (if is_long t.signal
          then mul (sub exit_price t.entry_price) t.order.amount
          else mul (sub t.entry_price exit_price) t.order.amount);
    pnl_pct = float64 (div (sub exit_price t.entry_price) t.entry_price);
    fee = zero_dec;
    exit_reason = reason;
    entry_order_id = t.order.id;
    exit_order_id = [];
    entry_time = t.entry_time;
    exit_time = now;
    duration = [];
    paper = text_eq cfg.mode (bytes "paper");
  }

  -- recordClose and removeOrder; an error of the journal is only logged, as `failed` says.
  unfoldable pub finish : Option Text → Engine D F → Managed D → Time → D → Text → Engine D F
  unfolding close_record
  finish failed e t now exit_price reason = record e {
    journal = (record_trade e.journal (close_record e.cfg t now exit_price reason) failed).0;
    open_orders = delete t.order.id e.open_orders;
  }

  unfoldable pub move_of : Managed D → D → F
  move_of t cur =
      if is_long t.signal
      then float64 (div (sub cur t.entry_price) t.entry_price)
      else float64 (div (sub t.entry_price cur) t.entry_price)

  -- One round of `manageTrade`; `true` ends it.
  unfoldable pub manage : Option Text → Engine D F → Managed D → Time → Alarm D → Engine D F × Bool
  unfolding finish move_of
  manage failed e t now (timed_out price) = (finish failed e t now price (bytes "timeout"), true)
  manage failed e t now (price_tick cur) =
      let move = move_of t cur in
      let sl : D = new_from_float e.cfg.stop_loss_pct in
      let tp : D = new_from_float e.cfg.take_profit_pct in
      if is_zero cur
      then (e, false)
      else if le move (negate (float64 sl))
      then (finish failed e t now cur (bytes "sl"), true)
      else if le (float64 tp) move
      then (finish failed e t now cur (bytes "tp"), true)
      else (e, false)

  -- The loop of `manageTrade`: each round finds the engine as the other goroutines left it. With
  -- the engine after the round that ends the loop, if one does.
  unfoldable pub manage_trade :
      Option Text → Managed D → List (Engine D F × Time × Alarm D) → Option (Engine D F)
  unfolding manage
  manage_trade failed t [] = none
  manage_trade failed t ((e, now, w) ∷ rounds) =
      let r = manage failed e t now w in
      let rest = manage_trade failed t rounds in if r.1 then some r.0 else rest

  unfoldable pub apply_step : Engine D F → Step D F → Engine D F
  unfolding execute_signal manage
  apply_step e (signal_step now stamp reply sig ob) = (execute_signal now stamp reply e sig ob).0
  apply_step e (manage_step failed t now w) = (manage failed e t now w).0

  unfoldable pub run_steps : Engine D F → List (Step D F) → Engine D F
  unfolding apply_step
  run_steps e [] = e
  run_steps e (s ∷ rest) = run_steps (apply_step e s) rest
