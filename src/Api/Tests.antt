-- ===== src/Api/Tests.antt =====
-- internal/api at concrete inputs.
use coinex_bot.Prelude.{ℕ, ◌*◌, ◌^◌, List, ◌≡◌, refl, [], ◌∷◌, some, arith, bytes, text_eq}
use coinex_bot.Prelude.Dict.{insert}
use coinex_bot.Prelude.Int.{ℤ, pos}
use coinex_bot.Number.Whole.{
  whole_decimal, whole_float, whole_convert, Whole-IsDecimal, read, print,
}
use coinex_bot.Models.{Candle, Level, OrderBook}
use coinex_bot.Api.CandleBuffer.{
  LiveCandleBuffer, KlineUpdate, JsonValue, float_value, number_value, handle, upsert_bars, upsert,
  replace_latest, evict, parse_kline_bar, candle_of_bar, to_float,
}
use coinex_bot.Prelude.Results.{ok, Gives, gives}
use coinex_bot.Prelude.Slices.{map_ok}
use coinex_bot.Number.{from_float}
use coinex_bot.Api.CandleBuffer.Invariant.{IsValid, handle-IsValid}
use coinex_bot.Api.LiveOrderBook.{
  DepthUpdate, merge_levels, apply_updates, list_levels, index_levels, sort_levels, out_of_order,
  handle as handle_depth,
}
use coinex_bot.Api.LiveOrderBook.Sorted.{IsOrdered, handle-IsOrdered}

abbrev candle : ℕ → Candle ℤ
candle t = record {
  open_time = t;
  open_price = pos 1;
  high = pos 3;
  low = pos 1;
  close = pos 2;
  volume = pos 7;
  timeframe = bytes "1hour";
}

abbrev kline_bar : ℕ → ℕ → List (JsonValue ℤ)
kline_bar t price =
    float_value (pos t)
    ∷ float_value (pos price)
    ∷ number_value (some (pos price))
    ∷ float_value (pos price)
    ∷ float_value (pos price)
    ∷ float_value (pos 1)
    ∷ []

abbrev candle_at : ℕ → ℕ → Candle ℤ
candle_at t price = record {
  open_time = t * 10 ^ 6;
  open_price = pos price;
  high = pos price;
  low = pos price;
  close = pos price;
  volume = pos 1;
  timeframe = bytes "1hour";
}

abbrev buffer : LiveCandleBuffer ℤ
buffer = record {
  candles = candle 4 ∷ candle_at 6 5 ∷ [];
  max_len = 2;
  market = bytes "BTCUSDT";
  timeframe = bytes "1hour";
}

-- A bar that is too short, one that replaces the candle at 6 * 10 ^ 6, and one that is new.
abbrev update : KlineUpdate ℤ
update = record {
  market = bytes "BTCUSDT";
  kline = (float_value (pos 9) ∷ []) ∷ kline_bar 6 8 ∷ kline_bar 7 9 ∷ [];
}

buffer-IsValid : IsValid buffer
buffer-IsValid = record {
  bounded = omega arith;
  distinct = (((λ e. omega (arith, e)), tt), (tt, tt));
}

handle-IsValid_example : Gives IsValid (handle buffer (bytes "kline.update") (some update))
unfolding parse_kline_bar map_ok from_float candle_of_bar to_float
handle-IsValid_example =
    (handle-IsValid buffer (bytes "kline.update") update buffer-IsValid).4
      (tt, (gives tt, (gives tt, tt)))

updated :
    handle buffer (bytes "kline.update") (some update)
    ≡ ok (record buffer { candles = candle_at 6 8 ∷ candle_at 7 9 ∷ [] })
unfolding handle upsert_bars upsert replace_latest evict text_eq parse_kline_bar map_ok from_float
    candle_of_bar to_float
updated = refl

abbrev level : ℕ → ℕ → Level ℤ
level p q = record { price = pos p; quantity = pos q }

abbrev book : OrderBook ℤ
book = record {
  market = bytes "BTCUSDT";
  bids = level 9 1 ∷ [];
  asks = level 10 1 ∷ level 12 4 ∷ [];
  updated_at = 0;
}

abbrev depth : DepthUpdate
depth = record { market = bytes "BTCUSDT"; asks = ((11 ∷ []) ∷ (2 ∷ []) ∷ []) ∷ []; bids = [] }

abbrev book_after : OrderBook ℤ
book_after = record book { asks = level 10 1 ∷ level 11 2 ∷ level 12 4 ∷ []; updated_at = 8 }

handle-IsOrdered_example : IsOrdered book_after
unfolding handle_depth merge_levels text_eq apply_updates read list_levels insert index_levels print
    sort_levels out_of_order
handle-IsOrdered_example =
    handle-IsOrdered Whole-IsDecimal 8 book book_after (bytes "depth.update") (some depth) refl
      (((refl, tt), (tt, tt)), (tt, tt))

-- The removal of the level at 10, its price written without the sign.
