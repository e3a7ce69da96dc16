-- ===== src/Api/CandleBuffer.antt =====
-- internal/api/candle_buffer.go: the rolling buffer of candles that the feed keeps up to date. A
-- payload comes decoded; `none` is one that `json.Unmarshal` refuses.
pub mod Times
pub mod Invariant
use coinex_bot.Prelude.{
  ℕ, zero, suc, ◌-◌, ◌*◌, ◌^◌, Bool, List, [], ◌∷◌, ◌++◌, Option, none, some, if◌then◌else◌, ltb,
  ◌==◌, length, drop, Text, bytes, text_eq,
}
use coinex_bot.Prelude.Results.{Result, ok, err, panic}
use coinex_bot.Prelude.Slices.{map_ok}
use coinex_bot.Number.{from_float, Decimal, Float, Convert}
use coinex_bot.Models.{Time, Candle}

-- An `interface{}` of a bar. A `json.Number` may not read as a float.
pub data JsonValue (F : Type 0) : Type 0 where
  float_value : F → JsonValue F
  string_value : Text → JsonValue F
  number_value : Option F → JsonValue F
  other_value : JsonValue F

pub record KlineUpdate (F : Type 0) : Type 0 where
  pub market : Text
  pub kline : List (List (JsonValue F))

pub record LiveCandleBuffer (D : Type 0) : Type 0 where
  pub candles : List (Candle D)
  pub max_len : ℕ
  pub market : Text
  pub timeframe : Text

module _ {D : Type 0} where
  unfoldable pub new_live_candle_buffer : Text → Text → ℕ → LiveCandleBuffer D
  new_live_candle_buffer market timeframe max_len = record {
    candles = [];
    max_len = max_len;
    market = market;
    timeframe = timeframe;
  }

  -- The loop from the newest candle down that replaces the first of the same open time.
  unfoldable pub replace_latest : Candle D → List (Candle D) → Option (List (Candle D))
  replace_latest c [] = none
  replace_latest c (x ∷ xs) = elim (replace_latest c xs) [
    | some ys ↦ some (x ∷ ys)
    | none ↦ if x.open_time == c.open_time then some (c ∷ xs) else none
  ]

  -- candles[len(candles)-max_len:], where that is needed
  unfoldable pub evict : ℕ → List (Candle D) → List (Candle D)
  evict max_len cs = if ltb max_len (length cs) then drop (length cs - max_len) cs else cs

  unfoldable pub upsert : LiveCandleBuffer D → Candle D → LiveCandleBuffer D
  upsert b c = elim (replace_latest c b.candles) [
    | some cs ↦ record b { candles = cs }
    | none ↦ record b { candles = evict b.max_len (b.candles ++ (c ∷ [])) }
  ]

  unfoldable pub snapshot : LiveCandleBuffer D → List (Candle D)
  snapshot b = b.candles

  unfoldable pub len : LiveCandleBuffer D → ℕ
  len b = length b.candles

  unfoldable pub seed : LiveCandleBuffer D → List (Candle D) → LiveCandleBuffer D
  seed b cs = record b { candles = evict b.max_len cs }

module _ {D : Type 0} where
  -- The literal `models.Candle{…}`, from its prices in the order in which they are converted.
  unfoldable pub candle_of_bar : Time → Text → Result (List D) → Result (Candle D)
  candle_of_bar open_time timeframe (ok (open_d ∷ high_d ∷ low_d ∷ close_d ∷ vol_d ∷ [])) =
      ok (record {
        open_time = open_time;
        open_price = open_d;
        high = high_d;
        low = low_d;
        close = close_d;
        volume = vol_d;
        timeframe = timeframe;
      })
  candle_of_bar open_time timeframe (err e) = err e
  candle_of_bar open_time timeframe _ = panic

infixl 5 ◌>>=◌
abbrev ◌>>=◌ {ℓ κ} : {A : Type ℓ} {B : Type κ} → Option A → (A → Option B) → Option B
none >>= g = none
some a >>= g = g a

unfoldable pub to_float :
    (D : Type 0) {F : Type 0} ⦃d : Decimal D⦄ ⦃c : Convert D F⦄ → JsonValue F → Option F
to_float D (float_value x) = some x
to_float D ⦃d⦄ ⦃c⦄ (string_value s) = do x ← d.new_from_string s; some (c.float64 x)
to_float D (number_value x) = x
to_float D other_value = none

module _ {D F : Type 0} ⦃d : Decimal D⦄ ⦃f : Float F⦄ ⦃c : Convert D F⦄ where
  open f use {trunc}

  -- [timestamp_ms, open, close, high, low, volume, ...]; `none` is the false of the second result. The
  -- conversions of the literal may panic.
  unfoldable pub parse_kline_bar : List (JsonValue F) → Text → Option (Result (Candle D))
  unfolding to_float candle_of_bar map_ok from_float
  parse_kline_bar (ts ∷ open_v ∷ close_v ∷ high_v ∷ low_v ∷ vol_v ∷ _) timeframe = do
    ts_f ← to_float D ts
    open_f ← to_float D open_v
    close_f ← to_float D close_v
    high_f ← to_float D high_v
    low_f ← to_float D low_v
    vol_f ← to_float D vol_v
    some (
        candle_of_bar (trunc ts_f * 10 ^ 6) timeframe
          (map_ok from_float (open_f ∷ high_f ∷ low_f ∷ close_f ∷ vol_f ∷ [])))
  parse_kline_bar _ timeframe = none

  -- The loop over the bars; one that does not parse is skipped.
  unfoldable pub upsert_bars :
      LiveCandleBuffer D → List (List (JsonValue F)) → Result (LiveCandleBuffer D)
  upsert_bars b [] = ok b
  upsert_bars b (bar ∷ bars) = elim (parse_kline_bar bar b.timeframe) [
    | none ↦ upsert_bars b bars
    | some (ok candle) ↦ upsert_bars (upsert b candle) bars
    | some (err e) ↦ err e
    | some panic ↦ panic
  ]

  unfoldable pub handle :
      LiveCandleBuffer D → Text → Option (KlineUpdate F) → Result (LiveCandleBuffer D)
  handle b event none = ok b
  handle b event (some raw) =
      if text_eq event (bytes "kline.update")
      then (if text_eq raw.market b.market then upsert_bars b raw.kline else ok b)
      else ok b
