-- ===== src/Api/Client.antt =====
-- internal/api/client.go: the orders and the market data that the client returns. The request over
-- HTTP, its signature and the decoding of its JSON are not modelled: `reply` is what `do` and
-- `json.Unmarshal` come back with.
use coinex_bot.Prelude.{ℕ, ◌*◌, ◌^◌, Bool, List, [], ◌∷◌, ◌++◌, if◌then◌else◌, Text, bytes}
use coinex_bot.Prelude.Results.{Result, ok, ◌>>=◌, require}
use coinex_bot.Number.{Decimal}
use coinex_bot.Models.{Time, Candle, Level, Order, OrderBook}

pub record Client : Type 0 where
  pub access_id : Text
  pub secret_key : Text
  pub base_url : Text
  pub paper : Bool

pub record PlaceOrderReq : Type 0 where
  pub market : Text
  pub market_type : Text
  pub side : Text
  pub order_type : Text
  pub amount : Text
  pub price : Text
  pub client_id : Text

-- The fields of the exchange's answer to an order.
pub record RawOrder : Type 0 where
  pub order_id : Text
  pub market : Text
  pub side : Text
  pub price : Text
  pub amount : Text
  pub filled_amt : Text
  pub status : Text
  pub created_at : ℕ

pub record KlineResp : Type 0 where
  pub created_at : ℕ
  pub open_text : Text
  pub close_text : Text
  pub high_text : Text
  pub low_text : Text
  pub volume_text : Text

pub record RawDepth : Type 0 where
  pub asks : List (List Text)
  pub bids : List (List Text)

abbrev pub default_base_url : Text
default_base_url = bytes "https://api.coinex.com/v2"

unfoldable pub new_client : Text → Text → Text → Bool → Client
new_client access_id secret_key base_url paper = record {
  access_id = access_id;
  secret_key = secret_key;
  base_url = elim base_url [ [] ↦ default_base_url | c ∷ cs ↦ c ∷ cs ];
  paper = paper;
}

-- time.UnixMilli
abbrev unix_milli : ℕ → Time
unix_milli ms = ms * 10 ^ 6

module _ {D : Type 0} ⦃d : Decimal D⦄ where
  open d use {zero_dec, new_from_string}

  abbrev price_of : Text → Result D
  price_of [] = ok zero_dec
  price_of (c ∷ cs) = require (new_from_string (c ∷ cs))

  unfoldable pub parse_order : RawOrder → Result (Order D)
  parse_order r = do
    price ← price_of r.price
    amount ← require (new_from_string r.amount)
    filled ← require (new_from_string r.filled_amt)
    ok (record {
      id = r.order_id;
      market = r.market;
      side_name = r.side;
      price = price;
      amount = amount;
      filled_amt = filled;
      status = r.status;
      created_at = unix_milli r.created_at;
    })

  -- &models.Order{ID: "paper-" + stamp, Market: req.Market}: every other field is the zero value,
  -- and the zero time is taken as 0.
  unfoldable pub paper_order : Text → PlaceOrderReq → Order D
  paper_order stamp req = record {
    id = bytes "paper-" ++ stamp;
    market = req.market;
    side_name = [];
    price = zero_dec;
    amount = zero_dec;
    filled_amt = zero_dec;
    status = [];
    created_at = 0;
  }

  unfoldable pub place_spot_order :
      Client → Text → PlaceOrderReq → (PlaceOrderReq → Result RawOrder) → Result (Order D)
  place_spot_order c stamp req reply =
      if c.paper then ok (paper_order stamp req) else (do raw ← reply req; parse_order raw)

  unfoldable pub place_futures_order :
      Client → Text → PlaceOrderReq → (PlaceOrderReq → Result RawOrder) → Result (Order D)
  place_futures_order c stamp req reply =
      let req' = record req { market_type = bytes "FUTURES" } in
      if c.paper then ok (paper_order stamp req') else (do raw ← reply req'; parse_order raw)

  unfoldable pub candle_of : Text → KlineResp → Result (Candle D)
  candle_of period r = do
    open_d ← require (new_from_string r.open_text)
    high_d ← require (new_from_string r.high_text)
    low_d ← require (new_from_string r.low_text)
    close_d ← require (new_from_string r.close_text)
    volume_d ← require (new_from_string r.volume_text)
    ok (record {
      open_time = unix_milli r.created_at;
      open_price = open_d;
      high = high_d;
      low = low_d;
      close = close_d;
      volume = volume_d;
      timeframe = period;
    })

  unfoldable pub candles_of : Text → List KlineResp → Result (List (Candle D))
  unfolding candle_of
  candles_of period [] = ok []
  candles_of period (r ∷ rs) = do c ← candle_of period r; cs ← candles_of period rs; ok (c ∷ cs)

  unfoldable pub get_klines : Text → Result (List KlineResp) → Result (List (Candle D))
  unfolding candles_of
  get_klines period reply = do raw ← reply; candles_of period raw

  -- A level shorter than two is skipped.
  unfoldable pub levels_of : List (List Text) → Result (List (Level D))
  levels_of [] = ok []
  levels_of ((p ∷ q ∷ _) ∷ rest) = do
    price ← require (new_from_string p)
    quantity ← require (new_from_string q)
    levels ← levels_of rest
    ok (record { price = price; quantity = quantity } ∷ levels)
  levels_of (_ ∷ rest) = levels_of rest

  unfoldable pub get_order_book : Time → Text → Result RawDepth → Result (OrderBook D)
  unfolding levels_of
  get_order_book now market reply = do
    raw ← reply
    asks ← levels_of raw.asks
    bids ← levels_of raw.bids
    ok (record { market = market; bids = bids; asks = asks; updated_at = now })
