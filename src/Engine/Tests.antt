-- ===== src/Engine/Tests.antt =====
-- internal/engine/engine.go at concrete inputs.
use coinex_bot.Prelude.{
  ℕ, ◌≤◌, ◌≡◌, refl, true, false, List, [], ◌∷◌, none, some, arith, bytes, ◌^◌, ◌*◌, length, All,
}
use coinex_bot.Prelude.Results.{Result, ok, err, Gives}
use coinex_bot.Prelude.Int.{ℤ, pos, ◌+ℤ◌}
use coinex_bot.Number.Whole.{whole_decimal, whole_float, whole_convert, Whole-IsDecimal, read}
use coinex_bot.Models.{Time, Candle, OrderBook, long, short, Signal}
use coinex_bot.Api.Client.{
  PlaceOrderReq, RawOrder, paper_order, KlineResp, get_klines, candles_of, candle_of,
}
use coinex_bot.Journal.{empty_stats}
use coinex_bot.Engine.{
  Engine, Managed, Alarm, Step, price_tick, timed_out, signal_step, manage_step, limit_order_req,
  manage_trade, run_steps, backoff_after, backoff_start,
}
use coinex_bot.Strategies.Registry.{momentum, macd_cross}
use coinex_bot.Engine.Tick.{Bot, vote, tick}
use coinex_bot.Engine.Consensus.{IsPositive, IsFor, vote-unanimous}
use coinex_bot.Engine.Ticks.{IsTicked, tick-IsTicked}
use coinex_bot.Ml.Ensemble.{new_ensemble}
use coinex_bot.Engine.Loop.{Loop, Turn, turns}
use coinex_bot.Engine.Paper.{unrealized_pnl, run_steps-unrealized}
use coinex_bot.Engine.Turns.{IsAnswered, IsSteady, turns-Gives}
use coinex_bot.Engine.Trades.{IsManaged, run_steps-IsBounded, manage_trade-IsManaged}
use coinex_bot.Engine.Backoff.{failures, backoff_after-failures}

backoff_after-failures_example :
    backoff_after (true ∷ false ∷ failures 3) (7 * 10 ^ 9) ≡ 40 * 10 ^ 9
backoff_after-failures_example = backoff_after-failures (true ∷ []) 3 (7 * 10 ^ 9)

abbrev signal : Signal ℤ
signal = record {
  strategy = bytes "consensus";
  market = [];
  signal = long;
  confidence = pos 1;
  reason = [];
  timestamp = 7;
}

abbrev book : OrderBook ℤ
book = record {
  market = bytes "BTC";
  bids = record { price = pos 99; quantity = pos 1 } ∷ [];
  asks = record { price = pos 101; quantity = pos 1 } ∷ [];
  updated_at = 0;
}

abbrev engine : Engine ℤ ℤ
engine = record {
  cfg = record {
    mode = bytes "paper";
    market_type = bytes "spot";
    market = bytes "BTC";
    base_qty = 5 ∷ [];
    max_open_orders = 1;
    stop_loss_pct = pos 1;
    take_profit_pct = pos 1;
  };
  client = record { access_id = []; secret_key = []; base_url = []; paper = true };
  open_orders = [];
  journal = record { path = []; lines = []; trades = []; stats = empty_stats };
}

abbrev no_reply : PlaceOrderReq → Result RawOrder
no_reply req = err (bytes "offline")

abbrev managed : Managed ℤ
managed = record {
  order = paper_order (bytes "7") (limit_order_req engine.cfg 7 long (pos 5) (pos 100));
  entry_price = pos 100;
  signal = long;
  strategy = bytes "consensus";
  entry_time = 7;
}

abbrev steps : List (Step ℤ ℤ)
steps =
    signal_step 7 (bytes "7") no_reply signal book
    ∷ signal_step 8 (bytes "8") no_reply signal book
    ∷ manage_step none managed 9 (timed_out (pos 100))
    ∷ []

run_steps-IsBounded_example : length (run_steps engine steps).open_orders ≤ 1
run_steps-IsBounded_example = run_steps-IsBounded steps engine (omega arith)

abbrev rounds : List (Engine ℤ ℤ × Time × Alarm ℤ)
rounds = (engine, 8, price_tick (pos 100)) ∷ (engine, 9, timed_out (pos 100)) ∷ []

manage_trade-IsManaged_example : IsManaged none managed rounds (manage_trade none managed rounds)
manage_trade-IsManaged_example = manage_trade-IsManaged none managed rounds

abbrev kline : ℕ → KlineResp
kline n = record {
  created_at = 0;
  open_text = n ∷ [];
  close_text = n ∷ [];
  high_text = n ∷ [];
  low_text = n ∷ [];
  volume_text = n ∷ [];
}

abbrev candle : ℕ → Candle ℤ
candle n = record {
  open_time = 0;
  open_price = pos n;
  high = pos n;
  low = pos n;
  close = pos n;
  volume = pos n;
  timeframe = bytes "1hour";
}

abbrev bot : Bot ℤ ℤ
bot = record {
  engine = engine;
  strats = momentum 1 ∷ macd_cross 1 2 1 ∷ [];
  candles = [];
  signal_log = [];
}

abbrev klines : Result (List KlineResp)
klines = ok (kline 4 ∷ kline 6 ∷ kline 9 ∷ [])

abbrev candles : List (Candle ℤ)
candles = candle 4 ∷ candle 6 ∷ candle 9 ∷ []

tick-IsTicked_example :
    IsTicked bot candles (tick 7 (bytes "7") no_reply (λ signals. signals) klines book bot)
unfolding get_klines candles_of candle_of read
tick-IsTicked_example =
    tick-IsTicked 7 (bytes "7") no_reply (λ signals. signals) klines book bot candles (pos 5) refl
      (omega arith) ((refl, (refl, (refl, tt))), ((omega arith, omega arith, omega arith), tt)) refl
      refl (omega arith)

Whole-IsPositive : IsPositive ℤ
unfolding ◌+ℤ◌
Whole-IsPositive = record {
  lt_irrefl = λ x. ground arith;
  lt_asym = λ x y h. ground arith;
  eq_of_lt = λ x y h. ground arith;
  lt_plus = λ x y h k. ground arith;
}

vote-unanimous_example :
    (All (IsFor long) (signal ∷ []) → (vote 9 (signal ∷ [])).signal ≡ long)
    × (All (IsFor short) (signal ∷ []) → (vote 9 (signal ∷ [])).signal ≡ short)
vote-unanimous_example = vote-unanimous Whole-IsPositive 9 signal []

abbrev loop : Loop ℤ ℤ
loop = record { bot = bot; backoff = backoff_start; ensemble = some (new_ensemble (pos 1) 60) }

abbrev turn_at : Time → Turn ℤ ℤ
turn_at now = record {
  now = now;
  later = now;
  stamp = bytes "7";
  reply = no_reply;
  ended = λ signals. signals;
  klines = klines;
  ob = book;
}

turns-Gives_example : Gives (IsSteady (pos 1) 60 2 loop) (turns loop (turn_at 7 ∷ turn_at 9 ∷ []))
unfolding get_klines candles_of candle_of read
turns-Gives_example =
    let answered : (t : Time) → IsAnswered bot.strats (turn_at t) = λ t. (
      candles,
      refl,
      omega arith,
      ((refl, (refl, (refl, tt))), ((omega arith, omega arith, omega arith), tt)),
    ) in
    turns-Gives (pos 1) 60 (turn_at 7 ∷ turn_at 9 ∷ []) loop refl
      (record { paper = refl; parsed = (pos 5, refl); bounded = omega arith })
      (answered 7, (answered 9, tt))

run_steps-unrealized_example : unrealized_pnl book (run_steps engine steps) ≡ pos 0
run_steps-unrealized_example = run_steps-unrealized Whole-IsDecimal steps engine book (refl, tt)
