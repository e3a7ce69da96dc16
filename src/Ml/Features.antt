-- ===== src/Ml/Features.antt =====
-- internal/ml/ensemble.go: Features, ToSlice and ExtractFeatures.
use coinex_bot.Prelude.{
  ℕ, ◌+◌, ◌-◌, List, [], ◌∷◌, Option, none, some, if◌then◌else◌, ltb, leb, length, drop, map,
}
use coinex_bot.Prelude.Results.{Result, ok, ◌>>=◌}
use coinex_bot.Prelude.Slices.{last, index}
use coinex_bot.Number.{sum_floats, Decimal, Float, Convert}
use coinex_bot.Models.{Candle, OrderBook, bid_ask_imbalance}
use coinex_bot.Indicators.{closes, ema}
use coinex_bot.Indicators.Oscillators.{StochRsiResult, rsi, stoch_rsi, williams_r}
use coinex_bot.Indicators.Bands.{MacdResult, BandResult, macd, bollinger_bands, vwap}
use coinex_bot.Indicators.Trend.{SarPoint, atr, parabolic_sar}
use coinex_bot.Indicators.Adx.{AdxResult, adx}
use coinex_bot.Indicators.Ichimoku.{IchimokuResult, ichimoku, cloud_top, cloud_bottom}

pub record Features (F : Type 0) : Type 0 where
  pub rsi14 : F
  pub macd_hist : F
  pub bb_width : F
  pub ema9 : F
  pub ema21 : F
  pub atr14 : F
  pub vwap_price : F
  pub price : F
  pub bid_ask_imb : F
  pub return_n1 : F
  pub return_n5 : F
  pub return_n10 : F
  pub volume : F
  pub volume_ratio : F
  pub tk_diff : F
  pub cloud_dir : F
  pub stoch_k : F
  pub adx_value : F
  pub williams : F
  pub sar_long : F

unfoldable pub to_slice : {F : Type 0} → Features F → List F
to_slice x =
    x.rsi14 ∷ x.macd_hist ∷ x.bb_width ∷ x.ema9 ∷ x.ema21 ∷ x.atr14 ∷ x.vwap_price ∷ x.price
    ∷ x.bid_ask_imb ∷ x.return_n1 ∷ x.return_n5 ∷ x.return_n10 ∷ x.volume ∷ x.volume_ratio
    ∷ x.tk_diff ∷ x.cloud_dir ∷ x.stoch_k ∷ x.adx_value ∷ x.williams ∷ x.sar_long ∷ []

-- if len(xs) > 0 { v = xs[len(xs)-1] }, where v is `zero` before.
unfoldable pub latest {ℓ κ} : {A : Type ℓ} {B : Type κ} → B → (A → B) → List A → B
latest zero get [] = zero
latest zero get (x ∷ []) = get x
latest zero get (x ∷ y ∷ xs) = latest zero get (y ∷ xs)

module _ {D F : Type 0} ⦃d : Decimal D⦄ ⦃f : Float F⦄ ⦃c : Convert D F⦄ where
  open d use {sub, greater_than, less_than}
  open f use {literal, of_int, minus, over, negate, lt, eq}
  open c use {float64}

  unfoldable pub band_width : BandResult D → F
  band_width r =
      let mid : F = float64 r.middle in
      if lt (of_int 0) mid then over (minus (float64 r.upper) (float64 r.lower)) mid else of_int 0

  -- The return over the last `n` bars.
  unfoldable pub return_over : List (Candle D) → F → ℕ → Result F
  unfolding index
  return_over candles price n =
      if leb (length candles) n
      then ok (of_int 0)
      else index candles (length candles - (n + 1)) >>= λ x.
          let p : F = float64 x.close in
          ok (if eq p (of_int 0) then of_int 0 else over (minus price p) p)

  -- The volume of the last candle by the average of the last twenty.
  unfoldable pub volume_ratio_of : List (Candle D) → F → F
  unfolding sum_floats
  volume_ratio_of candles cur_vol =
      let volumes : List F =
        map (λ (x : Candle D). float64 x.volume) (drop (length candles - 20) candles) in
      let avg_vol = over (sum_floats volumes) (of_int 20) in
      if lt (of_int 0) avg_vol then over cur_vol avg_vol else of_int 0

  unfoldable pub cloud_direction : D → IchimokuResult D → F
  unfolding cloud_top cloud_bottom
  cloud_direction price r =
      if greater_than price (cloud_top r)
      then of_int 1
      else if less_than price (cloud_bottom r)
      then negate (of_int 1)
      else of_int 0

  -- `none` is the false of the second result.
  unfoldable pub extract_features : List (Candle D) → OrderBook D → Result (Option (Features F))
  unfolding last latest closes rsi macd bollinger_bands band_width ema atr vwap bid_ask_imbalance
      return_over volume_ratio_of ichimoku cloud_direction stoch_rsi adx williams_r parabolic_sar
  extract_features candles ob = if ltb (length candles) 60 then ok none else (do
    x ← last candles
    macds ← macd F candles 12 26 9
    bands ← bollinger_bands F candles 20 (of_int 2)
    ema9s ← ema F (closes candles) 9
    ema21s ← ema F (closes candles) 21
    atrs ← atr F candles 14
    r1 ← return_over candles (float64 x.close) 1
    r5 ← return_over candles (float64 x.close) 5
    r10 ← return_over candles (float64 x.close) 10
    clouds ← ichimoku candles 9 26 52
    stochs ← stoch_rsi candles 14 3 3
    adxs ← adx candles 14
    wrs ← williams_r candles 14
    sars ← parabolic_sar F candles (literal 2 100) (literal 2 10)
    ok (
        some (record {
          rsi14 = latest (of_int 0) (λ v. v) (rsi candles 14);
          macd_hist = latest (of_int 0) (λ (m : MacdResult D). float64 m.histogram) macds;
          bb_width = latest (of_int 0) band_width bands;
          ema9 = latest (of_int 0) float64 ema9s;
          ema21 = latest (of_int 0) float64 ema21s;
          atr14 = latest (of_int 0) float64 atrs;
          vwap_price = float64 (vwap candles);
          price = float64 x.close;
          bid_ask_imb = float64 (bid_ask_imbalance ob 10);
          return_n1 = r1;
          return_n5 = r5;
          return_n10 = r10;
          volume = float64 x.volume;
          volume_ratio = volume_ratio_of candles (float64 x.volume);
          tk_diff =
              latest (of_int 0) (λ (r : IchimokuResult D). float64 (sub r.tenkan r.kijun)) clouds;
          cloud_dir = latest (of_int 0) (cloud_direction x.close) clouds;
          stoch_k = latest (of_int 0) (λ (s : StochRsiResult F). s.k) stochs;
          adx_value = latest (of_int 0) (λ (a : AdxResult F). a.adx) adxs;
          williams = latest (of_int 0) (λ v. v) wrs;
          sar_long =
              latest (of_int 0) (λ (p : SarPoint D). if p.is_long then of_int 1 else of_int 0) sars;
        })))
