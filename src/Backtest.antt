-- ===== src/Backtest.antt =====
-- internal/backtest/backtest.go: the replay of candles through one strategy. A strategy is what the
-- interface of internal/strategies/strategy.go asks for, whose `Evaluate` may panic; the replay gives
-- it an empty order book, and a panic of `Evaluate` is one of `Run`.
pub mod Metrics
pub mod Lookahead
pub mod Trades
pub mod Returns
pub mod Ranking
mod Tests
use coinex_bot.Prelude.{
  ℕ, zero, suc, ◌-◌, ◌≡◌, Bool, true, false, not, ◌&&◌, List, [], ◌∷◌, ◌++◌, Option, none, some,
  if◌then◌else◌, length, get_elem?, take, drop, Text, bytes,
}
use coinex_bot.Prelude.Results.{Result, ok, ◌>>=◌}
use coinex_bot.Number.{Decimal, Float, Convert}
use coinex_bot.Models.{
  Time, Candle, OrderBook, SignalType, long, short, flat, is_long, is_short, is_flat, Signal,
}

pub record Strategy (D F : Type 0) : Type 0 where
  pub name : Text
  pub evaluate : List (Candle D) → OrderBook D → Result (Signal F)

pub record Config (F : Type 0) : Type 0 where
  pub initial_capital : F
  pub fee_rate : F
  pub slippage_pct : F
  pub stop_loss_pct : F
  pub take_profit_pct : F
  pub position_size_pct : F
  pub warmup_bars : ℕ

-- "sl", "tp", "signal_flip" and "end"
pub data ExitReason : Type 0 where
  stop_loss take_profit signal_flip end_of_data : ExitReason

pub record Trade (F : Type 0) : Type 0 where
  pub entry_time : Time
  pub exit_time : Time
  pub side : SignalType
  pub entry_price : F
  pub exit_price : F
  pub qty : F
  pub pnl : F
  pub pnl_pct : F
  pub exit_reason : ExitReason

-- The type `Position` inside `Run`.
pub record Holding (F : Type 0) : Type 0 where
  pub side : SignalType
  pub entry_price : F
  pub qty : F
  pub entry_time : Time
  pub entry_idx : ℕ

-- The variables of `Run`.
pub record Replay (F : Type 0) : Type 0 where
  pub equity : F
  pub pos : Option (Holding F)
  pub trades : List (Trade F)
  pub equity_curve : List F

abbrev pub signal_eq : SignalType → SignalType → Bool
signal_eq long b = is_long b
signal_eq short b = is_short b
signal_eq flat b = is_flat b

module _ {F : Type 0} ⦃f : Float F⦄ where
  open f use {literal, of_int, plus, minus, times, over, negate, lt, le}

  unfoldable pub default_config : Config F
  default_config = record {
    initial_capital = of_int 10000;
    fee_rate = literal 1 1000;
    slippage_pct = literal 5 10000;
    stop_loss_pct = literal 15 1000;
    take_profit_pct = literal 30 1000;
    position_size_pct = literal 2 100;
    warmup_bars = 60;
  }

  -- What a move from `a` to `b` brings on the side of the position.
  abbrev pub gain : SignalType → F → F → F
  gain side a b = if is_long side then minus b a else minus a b

  unfoldable pub pnl_fraction : Holding F → F → F
  pnl_fraction p price = over (gain p.side p.entry_price price) p.entry_price

  unfoldable pub exit_reason_of : Config F → Holding F → F → SignalType → Option ExitReason
  unfolding pnl_fraction
  exit_reason_of cfg p price sig =
      if le (pnl_fraction p price) (negate cfg.stop_loss_pct)
      then some stop_loss
      else if le cfg.take_profit_pct (pnl_fraction p price)
      then some take_profit
      else if not (is_flat sig) && not (signal_eq sig p.side)
      then some signal_flip
      else none

  -- The trade that a position leaves behind, its fee on the way out taken off.
  unfoldable pub settle : Config F → Holding F → Time → F → ExitReason → F → Trade F
  settle cfg p exit_time exit_price reason pnl_pct = record {
    entry_time = p.entry_time;
    exit_time = exit_time;
    side = p.side;
    entry_price = p.entry_price;
    exit_price = exit_price;
    qty = p.qty;
    pnl =
        minus (times (gain p.side p.entry_price exit_price) p.qty)
          (times (times exit_price p.qty) cfg.fee_rate);
    pnl_pct = pnl_pct;
    exit_reason = reason;
  }

  unfoldable pub slipped_exit : Config F → SignalType → F → F
  slipped_exit cfg side price =
      if is_short side
      then times price (plus (of_int 1) cfg.slippage_pct)
      else times price (minus (of_int 1) cfg.slippage_pct)

  unfoldable pub slipped_entry : Config F → SignalType → F → F
  slipped_entry cfg side price =
      if is_short side
      then times price (minus (of_int 1) cfg.slippage_pct)
      else times price (plus (of_int 1) cfg.slippage_pct)

  -- equity += pnl; trades = append(trades, t); pos = nil
  unfoldable pub close_holding : Replay F → Trade F → Replay F
  close_holding s t = record s {
    equity = plus s.equity t.pnl;
    pos = none;
    trades = s.trades ++ (t ∷ []);
  }

  -- Check SL/TP on open position
  unfoldable pub check_exit : Config F → Time → F → SignalType → Replay F → Replay F
  unfolding exit_reason_of settle slipped_exit close_holding
  check_exit cfg time price sig s = elim s.pos [
    | none ↦ s
    | some p ↦ elim (exit_reason_of cfg p price sig) [
      | none ↦ s
      | some reason ↦
          close_holding s
            (settle cfg p time (slipped_exit cfg p.side price) reason (pnl_fraction p price))
    ]
  ]

  -- Open new position on signal
  unfoldable pub check_entry : Config F → ℕ → Time → F → SignalType → Replay F → Replay F
  unfolding slipped_entry
  check_entry cfg i time price sig s = elim s.pos [
    | some p ↦ s
    | none ↦
        let entry_price = slipped_entry cfg sig price in
        let qty = over (times s.equity cfg.position_size_pct) entry_price in
        if not (is_flat sig) && lt (of_int 0) s.equity
        then record s {
          equity = minus s.equity (times (times entry_price qty) cfg.fee_rate);
          pos = some (record {
            side = sig;
            entry_price = entry_price;
            qty = qty;
            entry_time = time;
            entry_idx = i;
          });
        }
        else s
  ]

  -- The body of the loop at candle i.
  unfoldable pub bar : Config F → ℕ → Time → F → SignalType → Replay F → Replay F
  unfolding check_exit check_entry
  bar cfg i time price sig s =
      let s' = check_entry cfg i time price sig (check_exit cfg time price sig s) in
      record s' { equity_curve = s'.equity_curve ++ (s'.equity ∷ []) }

  abbrev pub start : Config F → Replay F
  start cfg = record { equity = cfg.initial_capital; pos = none; trades = []; equity_curve = [] }

abbrev pub empty_book : {D : Type 0} → OrderBook D
empty_book = record { market = []; bids = []; asks = []; updated_at = 0 }

module _ {D F : Type 0} ⦃f : Float F⦄ ⦃c : Convert D F⦄ where
  open f use {of_int, times, over}

  -- The loop from candle i on; `rest` is candles[i:].
  unfoldable pub bars :
      Config F → Strategy D F → List (Candle D) → ℕ → List (Candle D) → Replay F → Result (Replay F)
  unfolding bar
  bars cfg strategy candles i [] s = ok s
  bars cfg strategy candles i (candle ∷ rest) s =
      strategy.evaluate (take (suc i) candles) empty_book >>= λ sig.
      bars cfg strategy candles (suc i) rest
        (bar cfg i candle.open_time (c.float64 candle.close) sig.signal s)

  unfoldable pub replay : Config F → Strategy D F → List (Candle D) → Result (Replay F)
  unfolding bars
  replay cfg strategy candles =
      bars cfg strategy candles cfg.warmup_bars (drop cfg.warmup_bars candles) (start cfg)

  -- Close any open position at end: no slippage, and the fraction is that of the net profit.
  unfoldable pub close_end : Config F → List (Candle D) → Replay F → Replay F
  unfolding settle close_holding
  close_end cfg candles s = elim s.pos [
    | none ↦ s
    | some p ↦ elim (get_elem? candles (length candles - 1)) [
      | none ↦ s
      | some candle ↦
          let t = settle cfg p candle.open_time (c.float64 candle.close) end_of_data (of_int 0) in
          close_holding s (record t { pnl_pct = over t.pnl (times p.entry_price p.qty) })
    ]
  ]
