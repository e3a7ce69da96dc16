-- ===== src/Journal.antt =====
-- internal/journal/journal.go: the trade journal and its statistics. The file is the list of its
-- lines, each as `json.Unmarshal` reads it: `none` is a line that it refuses.
pub mod Clock
pub mod Counts
pub mod Streaks
pub mod Reopen
pub mod Breakdown
pub mod Daily
pub mod Drawdown
mod Tests
use coinex_bot.Prelude.{
  ℕ, zero, suc, ◌+◌, ◌-◌, ◌≡◌, Bool, true, false, List, [], ◌∷◌, ◌++◌, Option, none, some, map,
  foldl, if◌then◌else◌, ltb, leb, length, last_of, Text, text_eq, bytes,
}
use coinex_bot.Prelude.Dict.{Dict, lookup, insert, values}
use coinex_bot.Prelude.Results.{Result, ok, err, panic, map_error}
use coinex_bot.Number.{Decimal, Float, Convert}
use coinex_bot.Models.{Time, OrderSide, MarketType}
use coinex_bot.Journal.Clock.{duration_text, day_text}

pub record TradeRecord (D F : Type 0) : Type 0 where
  pub id : Text
  pub market : Text
  -- `none` is the empty string, the market type of an order that the client built.
  pub market_type : Option MarketType
  pub side : OrderSide
  pub strategy : Text
  pub entry_price : D
  pub exit_price : D
  pub quantity : D
  pub pnl : D
  pub pnl_pct : F
  pub fee : D
  pub exit_reason : Text
  pub entry_order_id : Text
  pub exit_order_id : Text
  pub entry_time : Time
  pub exit_time : Time
  pub duration : Text
  pub paper : Bool

pub record StrategyStats (D F : Type 0) : Type 0 where
  pub trades : ℕ
  pub winners : ℕ
  pub total_pnl : D
  pub win_rate : F

pub record Stats (D F : Type 0) : Type 0 where
  pub total_trades : ℕ
  pub winners : ℕ
  pub losers : ℕ
  pub win_rate : F
  pub total_pnl : D
  pub gross_profit : D
  pub gross_loss : D
  pub profit_factor : F
  pub avg_win : D
  pub avg_loss : D
  pub largest_win : D
  pub largest_loss : D
  pub max_consec_wins : ℕ
  pub max_consec_loss : ℕ
  pub avg_hold_time : Text
  pub strategy_breakdown : Dict (StrategyStats D F)

pub record Journal (D F : Type 0) : Type 0 where
  pub path : Text
  -- what stands in the file
  pub lines : List (Option (TradeRecord D F))
  pub trades : List (TradeRecord D F)
  pub stats : Stats D F

-- The four counters of the loop over consecutive wins and losses.
pub record Streak : Type 0 where
  pub consec_w : ℕ
  pub consec_l : ℕ
  pub max_w : ℕ
  pub max_l : ℕ

unfoldable pub streak_step : Streak → Bool → Streak
streak_step k true = record {
  consec_w = suc k.consec_w;
  consec_l = 0;
  max_w = if ltb k.max_w (suc k.consec_w) then suc k.consec_w else k.max_w;
  max_l = k.max_l;
}
streak_step k false = record {
  consec_w = 0;
  consec_l = suc k.consec_l;
  max_w = k.max_w;
  max_l = if ltb k.max_l (suc k.consec_l) then suc k.consec_l else k.max_l;
}

abbrev pub no_streak : Streak
no_streak = record { consec_w = 0; consec_l = 0; max_w = 0; max_l = 0 }

unfoldable pub streaks : Streak → List Bool → Streak
streaks k [] = k
streaks k (w ∷ ws) = streaks (streak_step k w) ws

module _ {F : Type 0} ⦃f : Float F⦄ where
  open f use {lt}

  -- The loop `if v > max { max = v }`.
  unfoldable pub max_from : F → List F → F
  max_from m [] = m
  max_from m (v ∷ vs) = max_from (if lt m v then v else m) vs

module _ {D F : Type 0} ⦃d : Decimal D⦄ ⦃f : Float F⦄ ⦃c : Convert D F⦄ where
  open d use {zero_dec, new_from_int, add, div, neg, abs, is_positive, less_than, greater_than}
  open f use {of_int, trunc, plus, over, lt, minus}
  open c use {float64}

  abbrev pub is_win : TradeRecord D F → Bool
  is_win t = is_positive t.pnl

  abbrev pub empty_stats : Stats D F
  empty_stats = record {
    total_trades = 0;
    winners = 0;
    losers = 0;
    win_rate = of_int 0;
    total_pnl = zero_dec;
    gross_profit = zero_dec;
    gross_loss = zero_dec;
    profit_factor = of_int 0;
    avg_win = zero_dec;
    avg_loss = zero_dec;
    largest_win = zero_dec;
    largest_loss = zero_dec;
    max_consec_wins = 0;
    max_consec_loss = 0;
    avg_hold_time = [];
    strategy_breakdown = [];
  }

  -- The first block: the totals, and the side of the trade.
  unfoldable pub count_trade : TradeRecord D F → Stats D F → Stats D F
  count_trade t s =
      let s' = record s { total_trades = suc s.total_trades; total_pnl = add s.total_pnl t.pnl } in
      if is_win t
      then record s' {
        winners = suc s.winners;
        gross_profit = add s.gross_profit t.pnl;
        largest_win = if greater_than t.pnl s.largest_win then t.pnl else s.largest_win;
      }
      else record s' {
        losers = suc s.losers;
        gross_loss = add s.gross_loss (abs t.pnl);
        largest_loss = if less_than t.pnl s.largest_loss then t.pnl else s.largest_loss;
      }

  -- The second block: the quotients.
  unfoldable pub average : Stats D F → Stats D F
  average s = record s {
    win_rate =
        (if ltb 0 s.total_trades
          then over (of_int s.winners) (of_int s.total_trades)
          else s.win_rate);
    avg_win = if ltb 0 s.winners then div s.gross_profit (new_from_int s.winners) else s.avg_win;
    avg_loss =
        (if ltb 0 s.losers then neg (div s.gross_loss (new_from_int s.losers)) else s.avg_loss);
    profit_factor =
        (if lt (of_int 0) (float64 s.gross_loss)
          then over (float64 s.gross_profit) (float64 s.gross_loss)
          else s.profit_factor);
  }

  unfoldable pub hold_ns : F → List (TradeRecord D F) → F
  hold_ns total [] = total
  hold_ns total (t ∷ ts) = hold_ns (plus total (of_int (t.exit_time - t.entry_time))) ts

  -- The last block: the entry of the trade's strategy.
  unfoldable pub strategy_step : TradeRecord D F → StrategyStats D F → StrategyStats D F
  strategy_step t ss =
      let trades = suc ss.trades in
      let winners = if is_win t then suc ss.winners else ss.winners in
      record {
        trades = trades;
        winners = winners;
        total_pnl = add ss.total_pnl t.pnl;
        win_rate = over (of_int winners) (of_int trades);
      }

  abbrev pub no_strategy_stats : StrategyStats D F
  no_strategy_stats = record { trades = 0; winners = 0; total_pnl = zero_dec; win_rate = of_int 0 }

  abbrev pub or_new : Option (StrategyStats D F) → StrategyStats D F
  or_new none = no_strategy_stats
  or_new (some ss) = ss

  unfoldable pub break_down : TradeRecord D F → Dict (StrategyStats D F) → Dict (StrategyStats D F)
  unfolding strategy_step
  break_down t m = insert t.strategy (strategy_step t (or_new (lookup t.strategy m))) m

  -- `all` is j.trades, with t already in it.
  unfoldable pub update_stats : List (TradeRecord D F) → TradeRecord D F → Stats D F → Stats D F
  unfolding count_trade average streaks streak_step hold_ns break_down
  update_stats all t s =
      let s' = average (count_trade t s) in
      let k = streaks no_streak (map is_win all) in
      record s' {
        max_consec_wins = k.max_w;
        max_consec_loss = k.max_l;
        avg_hold_time =
            (if ltb 0 s'.total_trades
              then duration_text (trunc (over (hold_ns (of_int 0) all) (of_int s'.total_trades)))
              else s'.avg_hold_time);
        strategy_breakdown = break_down t s.strategy_breakdown;
      }

  -- j.trades = append(j.trades, t); j.updateStats(t)
  unfoldable pub put : Journal D F → TradeRecord D F → Journal D F
  unfolding update_stats
  put j t =
      let all = j.trades ++ (t ∷ []) in
      record j { trades = all; stats = update_stats all t j.stats }

  -- A line that does not decode is skipped.
  unfoldable pub replay : Journal D F → List (Option (TradeRecord D F)) → Journal D F
  unfolding put
  replay j [] = j
  replay j (none ∷ ls) = replay j ls
  replay j (some t ∷ ls) = replay (put j t) ls

  -- The outcome of reading the file is given: its lines, none of them for a file that is not there,
  -- or an error. So is that of opening it for appending.
  unfoldable pub open_journal :
      Text → Result (List (Option (TradeRecord D F))) → Option Text → Result (Journal D F)
  unfolding replay
  open_journal path (ok lines) none =
      ok (replay (record { path = path; lines = lines; trades = []; stats = empty_stats }) lines)
  open_journal path (ok lines) (some e) = err (bytes "open journal: " ++ e)
  open_journal path (err e) f = err (bytes "journal replay: " ++ e)
  open_journal path panic f = panic

  -- `failed` is the error of marshalling, writing or flushing; a line that was not written in full is
  -- left out of the file.
  unfoldable pub record_trade :
      Journal D F → TradeRecord D F → Option Text → Journal D F × Option Text
  unfolding put
  record_trade j t (some e) = (j, some e)
  record_trade j t none =
      let t' = record t { duration = duration_text (t.exit_time - t.entry_time) } in
      (put (record j { lines = j.lines ++ (some t' ∷ []) }) t', none)

  -- n is cut to the number of trades.
  unfoldable pub recent_trades : Journal D F → ℕ → List (TradeRecord D F)
  recent_trades j n =
      let n' = if ltb (length j.trades) n then length j.trades else n in last_of n' j.trades

  unfoldable pub all_trades : Journal D F → List (TradeRecord D F)
  all_trades j = j.trades

  -- out[day] = out[day].Add(t.PnL)
  unfoldable pub add_day : Dict D → TradeRecord D F → Dict D
  add_day out t =
      let day = day_text t.exit_time in
      insert day (add (elim (lookup day out) [ none ↦ zero_dec | some x ↦ x ]) t.pnl) out

  unfoldable pub daily_pnl : Journal D F → Dict D
  unfolding add_day
  daily_pnl j = foldl add_day [] j.trades

  unfoldable pub drawdowns : D → D → List (TradeRecord D F) → List F
  drawdowns equity peak [] = []
  drawdowns equity peak (t ∷ ts) =
      let equity' = add equity t.pnl in
      let peak' = if greater_than equity' peak then equity' else peak in
      (if lt (of_int 0) (float64 peak')
        then over (minus (float64 peak') (float64 equity')) (float64 peak')
        else of_int 0)
      ∷ drawdowns equity' peak' ts

  unfoldable pub drawdown_series : Journal D F → D → List F
  unfolding drawdowns
  drawdown_series j initial_capital = drawdowns initial_capital initial_capital j.trades

  unfoldable pub max_drawdown : Journal D F → D → F
  unfolding drawdown_series max_from
  max_drawdown j initial_capital = max_from (of_int 0) (drawdown_series j initial_capital)
