-- ===== src/Journal/Tests.antt =====
-- internal/journal/journal.go at concrete inputs.
use coinex_bot.Prelude.{◌≡◌, refl, true, List, [], ◌∷◌, Option, none, some, bytes, Text}
use coinex_bot.Prelude.Results.{ok}
use coinex_bot.Prelude.Int.{ℤ, pos, negsuc}
use coinex_bot.Number.Whole.{whole_decimal, whole_float, whole_convert}
use coinex_bot.Models.{Time, buy, spot}
use coinex_bot.Journal.{TradeRecord, Journal, empty_stats, replay, open_journal}
use coinex_bot.Journal.Counts.{IsCounted, records, open_journal-IsCounted}
use coinex_bot.Journal.Streaks.{IsStreaked, open_journal-IsStreaked}
use coinex_bot.Journal.Reopen.{open_journal-records}

abbrev trade : Text → ℤ → Time → TradeRecord ℤ ℤ
trade strategy pnl exit = record {
  id = bytes "1";
  market = bytes "BTCUSDT";
  market_type = some spot;
  side = buy;
  strategy = strategy;
  entry_price = pos 100;
  exit_price = pos 105;
  quantity = pos 1;
  pnl = pnl;
  pnl_pct = pos 0;
  fee = pos 0;
  exit_reason = bytes "tp";
  entry_order_id = bytes "1";
  exit_order_id = [];
  entry_time = 5;
  exit_time = exit;
  duration = [];
  paper = true;
}

abbrev won : TradeRecord ℤ ℤ
won = trade (bytes "rsi") (pos 5) 3000000000

abbrev lost : TradeRecord ℤ ℤ
lost = trade (bytes "macd") (negsuc 6) 90000000000000

abbrev lines : List (Option (TradeRecord ℤ ℤ))
lines = some won ∷ none ∷ some lost ∷ []

abbrev opened : Journal ℤ ℤ
opened =
    replay
      (record { path = bytes "trades.ndjson"; lines = lines; trades = []; stats = empty_stats })
      lines

abbrev written : List (TradeRecord ℤ ℤ × Option Text)
written = (won, none) ∷ (lost, some (bytes "disk full")) ∷ (won, none) ∷ []

opened_lem : open_journal (bytes "trades.ndjson") (ok lines) none ≡ ok opened
unfolding open_journal
opened_lem = refl

open_journal-IsCounted_example : IsCounted (records opened written)
open_journal-IsCounted_example =
    open_journal-IsCounted (bytes "trades.ndjson") lines opened written opened_lem

open_journal-IsStreaked_example : IsStreaked (records opened written)
open_journal-IsStreaked_example =
    open_journal-IsStreaked (bytes "trades.ndjson") lines opened written opened_lem

open_journal-records_example :
    open_journal (records opened written).path (ok (records opened written).lines) none
    ≡ ok (records opened written)
open_journal-records_example =
    open_journal-records (bytes "trades.ndjson") lines opened written opened_lem
