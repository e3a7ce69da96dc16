-- ===== src/MultiMarket/Tests.antt =====
-- internal/multimarket/engine.go at concrete inputs.
use coinex_bot.Prelude.{◌≡◌, refl, inl, true, false, [], ◌∷◌, some, arith, bytes, Text, text_eq}
use coinex_bot.Prelude.Dict.{lookup, delete}
use coinex_bot.Prelude.Results.{Result, err}
use coinex_bot.Prelude.Int.{ℤ, pos}
use coinex_bot.Number.Whole.{whole_decimal, whole_float, whole_convert}
use coinex_bot.Models.{OrderBook, buy, spot, long, Signal, Order}
use coinex_bot.Position.{
  OpenPosition, Manager, triggered_exits, update_price, close_position, key, position_key,
  new_manager, update_prices, should_stop_loss, should_take_profit,
}
use coinex_bot.Position.Invariant.{IsValid, new_manager-IsValid}
use coinex_bot.Health.{default_config, new_monitor}
use coinex_bot.Api.Client.{PlaceOrderReq, RawOrder, paper_order}
use coinex_bot.Notify.{new_telegram}
use coinex_bot.MultiMarket.{MarketWorker, Shared, order_request, close_exits, on_ticker}
use coinex_bot.MultiMarket.Safety.{IsSafeAfter, on_ticker-IsSafe, IsSkipped, on_ticker-IsSkipped}
use coinex_bot.MultiMarket.Exits.{close_exits-left}

abbrev btc : Text
btc = bytes "BTC"

abbrev book : OrderBook ℤ
book = record {
  market = btc;
  bids = record { price = pos 99; quantity = pos 1 } ∷ [];
  asks = record { price = pos 101; quantity = pos 1 } ∷ [];
  updated_at = 0;
}

abbrev worker : MarketWorker ℤ ℤ
worker = record {
  cfg = record {
    market = btc;
    market_type = spot;
    timeframe = bytes "1hour";
    base_qty = 5 ∷ [];
    stop_loss_pct = pos 0;
    take_profit_pct = pos 1;
  };
  client = record { access_id = []; secret_key = []; base_url = []; paper = true };
  candle_buf = record { candles = []; max_len = 300; market = btc; timeframe = bytes "1hour" };
  lob = book;
  strats = [];
  signal_log = [];
}

abbrev shared : Shared ℤ ℤ
shared = record {
  pos_mgr = new_manager 20 (pos 0);
  monitor = new_monitor default_config true;
  notifier = new_telegram true;
}

abbrev no_reply : PlaceOrderReq → Result RawOrder
no_reply req = err (bytes "offline")

on_ticker-IsSafe_example : IsSafeAfter (on_ticker 7 (bytes "7") no_reply (λ ss. ss) worker shared)
unfolding new_telegram
on_ticker-IsSafe_example =
    on_ticker-IsSafe 7 (bytes "7") no_reply (λ ss. ss) worker shared
      (record {
        positions = new_manager-IsValid 20 (pos 0);
        log = omega arith;
        queue = omega arith;
      })

on_ticker-IsSkipped_example :
    IsSkipped 7
      (bytes "7")
      no_reply
      worker
      shared
      (on_ticker 7 (bytes "7") no_reply (λ ss. ss) worker shared)
on_ticker-IsSkipped_example =
    on_ticker-IsSkipped 7 (bytes "7") no_reply (λ ss. ss) worker shared (inl refl)

abbrev signal : Signal ℤ
signal = record {
  strategy = bytes "consensus";
  market = [];
  signal = long;
  confidence = pos 1;
  reason = [];
  timestamp = 7;
}

abbrev filled : Order ℤ
filled = paper_order (bytes "7") (order_request worker.cfg buy (pos 100))

abbrev eth : Text
eth = bytes "ETH"

-- At its take profit once the price is 100, but of another market.
abbrev other : OpenPosition ℤ ℤ
other = record {
  id = bytes "1";
  market = eth;
  market_type = spot;
  side = buy;
  strategy = bytes "consensus";
  entry_price = pos 90;
  quantity = pos 2;
  stop_loss = pos 80;
  take_profit = pos 95;
  entry_order_id = bytes "1";
  opened_at = 0;
  current_price = pos 96;
  unrealized_pl = pos 0;
  unreal_pl_pct = pos 0;
}

abbrev own : OpenPosition ℤ ℤ
own = record other { market = btc; current_price = pos 90 }

abbrev manager : Manager ℤ ℤ
manager = record {
  positions = (bytes "BTC:buy", own) ∷ (bytes "ETH:buy", other) ∷ [];
  max_positions = 20;
  max_exposure_pct = pos 0;
}

manager-IsValid : IsValid manager
unfolding key position_key text_eq
manager-IsValid = record {
  distinct = ((refl, tt), (tt, tt));
  keyed = (refl, (refl, tt));
  limited = omega arith;
}

close_exits-left_example :
    (lookup (bytes "ETH:buy") (update_prices manager btc (pos 100)).positions ≡ some other)
    × (text_eq eth btc ≡ true
        → (should_stop_loss other ≡ false) × (should_take_profit other ≡ false))
unfolding close_exits update_prices lookup text_eq triggered_exits should_stop_loss update_price
    should_take_profit close_position position_key delete
close_exits-left_example =
    close_exits-left btc (pos 100) manager (bytes "ETH:buy") other manager-IsValid refl
