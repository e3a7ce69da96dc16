-- ===== src/MultiMarket.antt =====
-- internal/multimarket/engine.go: the worker of one market. The position manager, the monitor and the
-- notifier are shared by the workers, so they are passed on from one to the next. Placing an order is
-- given by `reply`, as for the client; cancelling one changes nothing here and its error is ignored.
pub mod Orders
pub mod Safety
pub mod Exits
mod Tests
use coinex_bot.Prelude.{
  ℕ, zero, suc, ◌-◌, Bool, true, false, not, ◌&&◌, List, [], ◌∷◌, ◌++◌, Option, none, some,
  if◌then◌else◌, ltb, length, last_of, Text, bytes, text_eq, digits,
}
use coinex_bot.Prelude.Results.{Result, ok, err, panic, ◌>>=◌, map_error}
use coinex_bot.Number.{Decimal, Float, Convert}
use coinex_bot.Models.{
  Time, Candle, OrderBook, OrderSide, buy, sell, side_text, MarketType, spot, futures, is_futures,
  SignalType, long, short, flat, is_long, is_short, is_flat, Signal, Order, mid_price,
  one_minus_pct, one_plus_pct,
}
use coinex_bot.Position.{
  OpenPosition, Manager, can_open, open_position, close_position, update_prices, triggered_exits,
}
use coinex_bot.Health.{Monitor, Alert, record_tick, record_error}
use coinex_bot.Health.Circuit.{allow}
use coinex_bot.Api.CandleBuffer.{LiveCandleBuffer}
use coinex_bot.Api.CandleBuffer as CandleBuffer
use coinex_bot.Api.LiveOrderBook as LiveOrderBook
use coinex_bot.Api.Client.{Client, PlaceOrderReq, RawOrder, place_spot_order, place_futures_order}
use coinex_bot.Backtest.{Strategy}
use coinex_bot.Notify.{Telegram, signal_message, order_message, enqueue}

pub record MarketConfig (F : Type 0) : Type 0 where
  pub market : Text
  pub market_type : MarketType
  pub timeframe : Text
  pub base_qty : Text
  pub stop_loss_pct : F
  pub take_profit_pct : F

pub record MarketWorker (D F : Type 0) : Type 0 where
  pub cfg : MarketConfig F
  pub client : Client
  pub candle_buf : LiveCandleBuffer D
  pub lob : OrderBook D
  pub strats : List (Strategy D F)
  pub signal_log : List (Signal F)

pub record Shared (D F : Type 0) : Type 0 where
  pub pos_mgr : Manager D F
  pub monitor : Monitor F
  pub notifier : Telegram D F

abbrev pub market_type_text : MarketType → Text
market_type_text spot = bytes "SPOT"
market_type_text futures = bytes "FUTURES"

abbrev pub side_of : SignalType → OrderSide
side_of sig = if is_short sig then sell else buy

module _ {F : Type 0} ⦃f : Float F⦄ where
  open f use {of_int, plus, times, over, lt, eq, show_whole}

  -- The sum of the confidences of the signals of one kind.
  unfoldable pub confidence_of : (SignalType → Bool) → F → List (Signal F) → F
  confidence_of kind total [] = total
  confidence_of kind total (s ∷ ss) =
      confidence_of kind (if kind s.signal then plus total s.confidence else total) ss

  -- fmt.Sprintf("%.0f%% long, %d strategies", conf*100, len(signals))
  abbrev pub vote_reason : Text → F → ℕ → Text
  vote_reason kind conf n =
      show_whole (times conf (of_int 100)) ++ kind ++ digits 20 n ++ bytes " strategies"

  abbrev pub consensus_signal : Time → SignalType → F → Text → Signal F
  consensus_signal now kind conf reason = record {
    strategy = bytes "consensus";
    market = [];
    signal = kind;
    confidence = conf;
    reason = reason;
    timestamp = now;
  }

  abbrev pub no_signal : Signal F
  no_signal = record {
    strategy = [];
    market = [];
    signal = flat;
    confidence = of_int 0;
    reason = [];
    timestamp = 0;
  }

  unfoldable pub aggregate_signals : Time → List (Signal F) → Signal F
  unfolding confidence_of
  aggregate_signals now signals =
      let long_conf = confidence_of is_long (of_int 0) signals in
      let short_conf = confidence_of is_short (of_int 0) signals in
      let n = length signals in
      if eq long_conf (of_int 0) && eq short_conf (of_int 0)
      then no_signal
      else if lt short_conf long_conf
      then (let conf = over long_conf (plus long_conf short_conf) in
          consensus_signal now long conf (vote_reason (bytes "% long, ") conf n))
      else (let conf = over short_conf (plus long_conf short_conf) in
          consensus_signal now short conf (vote_reason (bytes "% short, ") conf n))

  -- The log keeps the last 500 signals.
  unfoldable pub log_signal : Signal F → List (Signal F) → List (Signal F)
  log_signal sig log =
      let log' = log ++ (sig ∷ []) in if ltb 500 (length log') then last_of 500 log' else log'

module _ {D F : Type 0} where
  -- The signals that are not flat; they come in the order in which the goroutines end. A panic in a
  -- goroutine ends the program.
  unfoldable pub gather_signals :
      List (Strategy D F) → List (Candle D) → OrderBook D → Result (List (Signal F))
  gather_signals [] candles ob = ok []
  gather_signals (s ∷ ss) candles ob = s.evaluate candles ob >>= λ sig.
      gather_signals ss candles ob >>= λ rest. ok (if is_flat sig.signal then rest else sig ∷ rest)

  -- The loop over the hits, of which those of the worker's market are closed.
  unfoldable pub close_hits : Text → List (OpenPosition D F) → Manager D F → Manager D F
  close_hits market [] m = m
  close_hits market (p ∷ ps) m =
      close_hits market ps
        (if text_eq p.market market then (close_position m p.market p.side).0 else m)

module _ {D F : Type 0} ⦃d : Decimal D⦄ ⦃f : Float F⦄ ⦃c : Convert D F⦄ where
  open d use {mul, is_zero, string_fixed, zero_dec}
  open f use {of_int}

  -- Check SL/TP on open positions
  unfoldable pub close_exits : Text → D → Manager D F → Manager D F
  unfolding close_hits
  close_exits market price m =
      let m' = update_prices m market price in
      let (sl_hit, tp_hit) = triggered_exits m' in
      close_hits market tp_hit (close_hits market sl_hit m')

  abbrev pub order_request : MarketConfig F → OrderSide → D → PlaceOrderReq
  order_request cfg side price = record {
    market = cfg.market;
    market_type = market_type_text cfg.market_type;
    side = side_text side;
    order_type = bytes "limit";
    amount = cfg.base_qty;
    price = string_fixed 4 price;
    client_id = [];
  }

  -- The position that an order at the mid price opens.
  unfoldable pub position_of :
      MarketConfig F → Time → Text → OrderSide → D → Order D → OpenPosition D F
  position_of cfg now strategy side price order = record {
    id = order.id;
    market = cfg.market;
    market_type = cfg.market_type;
    side = side;
    strategy = strategy;
    entry_price = price;
    quantity = order.amount;
    stop_loss = mul price (one_minus_pct cfg.stop_loss_pct side);
    take_profit = mul price (one_plus_pct cfg.take_profit_pct side);
    entry_order_id = order.id;
    opened_at = now;
    current_price = zero_dec;
    unrealized_pl = zero_dec;
    unreal_pl_pct = of_int 0;
  }

  unfoldable pub place_order :
      MarketWorker D F → Text → PlaceOrderReq → (PlaceOrderReq → Result RawOrder) → Result (Order D)
  place_order w stamp req reply =
      if is_futures w.cfg.market_type
      then place_futures_order w.client stamp req reply
      else place_spot_order w.client stamp req reply

  -- Register with position manager, whose error is ignored.
  unfoldable pub register : Shared D F → OpenPosition D F → Order D → Shared D F
  register sh p order = record sh {
    notifier = enqueue (order_message order) sh.notifier;
    pos_mgr = (open_position sh.pos_mgr p).0;
  }

  unfoldable pub execute_signal :
      Time
      → Text
      → (PlaceOrderReq → Result RawOrder)
      → MarketWorker D F
      → Signal F
      → OrderBook D
      → Shared D F
      → Shared D F × Result (Unit {0})
  unfolding register place_order position_of
  execute_signal now stamp reply w sig ob sh =
      let side = side_of sig.signal in
      let price = mid_price ob in
      if not (can_open sh.pos_mgr w.cfg.market side).0
      then (sh, ok tt)
      else if is_zero price
      then (sh, ok tt)
      else elim (place_order w stamp (order_request w.cfg side price) reply) [
        | err e ↦ (sh, err (bytes "place order: " ++ e))
        | panic ↦ (sh, panic)
        | ok order ↦
            (register sh (position_of w.cfg now sig.strategy side price order) order, ok tt)
      ]

  -- What a tick does once it has its signals.
  unfoldable pub act_on :
      Time
      → Text
      → (PlaceOrderReq → Result RawOrder)
      → List (Signal F)
      → MarketWorker D F
      → Shared D F
      → MarketWorker D F × Shared D F × Result (Unit {0})
  unfolding aggregate_signals log_signal execute_signal
  act_on now stamp reply [] w sh = (w, sh, ok tt)
  act_on now stamp reply (s ∷ ss) w sh =
      let sig = aggregate_signals now (s ∷ ss) in
      let w' = record w { signal_log = log_signal sig w.signal_log } in
      let sh' = record sh { notifier = enqueue (signal_message sig) sh.notifier } in
      let (sh'', outcome) =
        execute_signal now stamp reply w' sig (LiveOrderBook.snapshot w.lob) sh' in
      if is_flat sig.signal then (w, sh, ok tt) else (w', sh'', outcome)

  -- The rest of a tick once the goroutines have ended, in the order that `ended` puts their signals in.
  unfoldable pub act_on_all :
      Time
      → Text
      → (PlaceOrderReq → Result RawOrder)
      → (List (Signal F) → List (Signal F))
      → Result (List (Signal F))
      → MarketWorker D F
      → Shared D F
      → MarketWorker D F × Shared D F × Result (Unit {0})
  unfolding act_on
  act_on_all now stamp reply ended (ok signals) w sh = act_on now stamp reply (ended signals) w sh
  act_on_all now stamp reply ended (err e) w sh = (w, sh, err e)
  act_on_all now stamp reply ended panic w sh = (w, sh, panic)

  -- `ended` puts the signals in the order in which the strategies end.
  unfoldable pub tick :
      Time
      → Text
      → (PlaceOrderReq → Result RawOrder)
      → (List (Signal F) → List (Signal F))
      → MarketWorker D F
      → Shared D F
      → MarketWorker D F × Shared D F × Result (Unit {0})
  unfolding gather_signals close_exits act_on_all
  tick now stamp reply ended w sh =
      let candles = CandleBuffer.snapshot w.candle_buf in
      let ob = LiveOrderBook.snapshot w.lob in
      let (circuit, allowed) = allow now sh.monitor.circuit in
      let sh' = record sh { monitor = record sh.monitor { circuit = circuit } } in
      let price = mid_price ob in
      let sh'' =
        if is_zero price
        then sh'
        else record sh' { pos_mgr = close_exits w.cfg.market price sh'.pos_mgr } in
      let signals = gather_signals w.strats candles ob in
      if ltb (length candles) 60
      then (w, sh, ok tt)
      else if not allowed
      then (w, sh', ok tt)
      else act_on_all now stamp reply ended signals w sh''

  -- How `Start` tells the monitor of a tick, with the alerts that it raises.
  unfoldable pub record_outcome :
      Time
      → MarketWorker D F × Shared D F × Result (Unit {0})
      → Result (MarketWorker D F × Shared D F × List (Alert F))
  record_outcome now (w, sh, ok _) = ok (w, record sh { monitor = record_tick now sh.monitor }, [])
  record_outcome now (w, sh, err e) =
      let (monitor, alerts) = record_error now e sh.monitor in
      ok (w, record sh { monitor = monitor }, alerts)
  record_outcome now (w, sh, panic) = panic

  -- One firing of the ticker in `Start`.
  unfoldable pub on_ticker :
      Time
      → Text
      → (PlaceOrderReq → Result RawOrder)
      → (List (Signal F) → List (Signal F))
      → MarketWorker D F
      → Shared D F
      → Result (MarketWorker D F × Shared D F × List (Alert F))
  unfolding tick record_outcome
  on_ticker now stamp reply ended w sh = record_outcome now (tick now stamp reply ended w sh)
