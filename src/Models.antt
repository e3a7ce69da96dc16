-- ===== src/Models.antt =====
-- internal/models/models.go: the data that every package shares, the helpers of the order book and
-- the price multipliers. A string is a list of bytes, a time a number of nanoseconds.
use coinex_bot.Prelude.{
  ℕ, zero, suc, Bool, true, false, List, [], ◌∷◌, ◌||◌, if◌then◌else◌, Text, bytes,
}
use coinex_bot.Number.{Decimal, Float, Convert}

abbrev pub Time : Type 0
Time = ℕ

abbrev pub Duration : Type 0
Duration = ℕ

pub record Candle (D : Type 0) : Type 0 where
  pub open_time : Time
  pub open_price : D
  pub high : D
  pub low : D
  pub close : D
  pub volume : D
  pub timeframe : Text

pub record Level (D : Type 0) : Type 0 where
  pub price : D
  pub quantity : D

pub record OrderBook (D : Type 0) : Type 0 where
  pub market : Text
  pub bids : List (Level D)
  pub asks : List (Level D)
  pub updated_at : Time

pub data OrderSide : Type 0 where
  buy sell : OrderSide

pub data MarketType : Type 0 where
  spot futures : MarketType

pub data SignalType : Type 0 where
  long short flat : SignalType

abbrev pub side_text : OrderSide → Text
side_text buy = bytes "buy"
side_text sell = bytes "sell"

abbrev pub is_buy : OrderSide → Bool
is_buy buy = true
is_buy sell = false

abbrev pub is_futures : MarketType → Bool
is_futures futures = true
is_futures spot = false

abbrev pub is_long : SignalType → Bool
is_long long = true
is_long _ = false

abbrev pub is_short : SignalType → Bool
is_short short = true
is_short _ = false

abbrev pub is_flat : SignalType → Bool
is_flat flat = true
is_flat _ = false

-- The order that the exchange returns; `side_name` is the text that it sends, which may be empty.
pub record Order (D : Type 0) : Type 0 where
  pub id : Text
  pub market : Text
  pub side_name : Text
  pub price : D
  pub amount : D
  pub filled_amt : D
  pub status : Text
  pub created_at : Time

pub record Signal (F : Type 0) : Type 0 where
  pub strategy : Text
  pub market : Text
  pub signal : SignalType
  pub confidence : F
  pub reason : Text
  pub timestamp : Time

module _ {D : Type 0} ⦃d : Decimal D⦄ where
  open d use {zero_dec, new_from_int, add, sub, div, is_zero}

  abbrev first_price : List (Level D) → D
  first_price [] = zero_dec
  first_price (l ∷ _) = l.price

  unfoldable pub best_bid : OrderBook D → D
  best_bid ob = first_price ob.bids

  unfoldable pub best_ask : OrderBook D → D
  best_ask ob = first_price ob.asks

  unfoldable pub mid_price : OrderBook D → D
  mid_price ob =
      let bid = best_bid ob in
      let ask = best_ask ob in
      if is_zero bid || is_zero ask then zero_dec else div (add bid ask) (new_from_int 2)

  unfoldable pub spread : OrderBook D → D
  spread ob =
      if is_zero (best_bid ob) || is_zero (best_ask ob)
      then zero_dec
      else sub (best_ask ob) (best_bid ob)

  -- for i := 0; i < depth && i < len(levels); i++ { vol = vol.Add(levels[i].Quantity) }
  unfoldable pub sum_volume : ℕ → D → List (Level D) → D
  sum_volume zero vol levels = vol
  sum_volume (suc depth) vol [] = vol
  sum_volume (suc depth) vol (l ∷ levels) = sum_volume depth (add vol l.quantity) levels

  unfoldable pub bid_ask_imbalance : OrderBook D → ℕ → D
  unfolding sum_volume
  bid_ask_imbalance ob depth =
      let bid_vol = sum_volume depth zero_dec ob.bids in
      let ask_vol = sum_volume depth zero_dec ob.asks in
      let total = add bid_vol ask_vol in
      if is_zero total then zero_dec else div (sub bid_vol ask_vol) total

module _ {D F : Type 0} ⦃f : Float F⦄ ⦃c : Convert D F⦄ where
  open f use {of_int, plus, minus}
  open c use {new_from_float}

  -- The multiplier of the stop loss, then that of the take profit.
  unfoldable pub one_minus_pct : F → OrderSide → D
  one_minus_pct pct buy = new_from_float (minus (of_int 1) pct)
  one_minus_pct pct sell = new_from_float (plus (of_int 1) pct)

  unfoldable pub one_plus_pct : F → OrderSide → D
  one_plus_pct pct buy = new_from_float (plus (of_int 1) pct)
  one_plus_pct pct sell = new_from_float (minus (of_int 1) pct)
