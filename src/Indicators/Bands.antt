-- ===== src/Indicators/Bands.antt =====
-- internal/indicators/indicators.go: MACD, BollingerBands, VWAP, HullMA and DonchianChannel.
use coinex_bot.Prelude.{
  ℕ, suc, ◌-◌, ◌/◌, ◌||◌, List, [], ◌∷◌, if◌then◌else◌, ltb, length, drop, map, ◌==◌,
}
use coinex_bot.Prelude.Results.{Result, ok, panic, ◌>>=◌}
use coinex_bot.Prelude.Slices.{slices, map_ok, zip_ok, zip_with}
use coinex_bot.Number.{from_float, sum_floats, Decimal, Float, Convert}
use coinex_bot.Models.{Candle}
use coinex_bot.Indicators.{closes, sma, ema}
use coinex_bot.Indicators.Oscillators.{window_range}

pub record MacdResult (D : Type 0) : Type 0 where
  pub macd_line : D
  pub signal_line : D
  pub histogram : D

-- BollingerResult, KeltnerResult and DonchianResult have the same fields.
pub record BandResult (D : Type 0) : Type 0 where
  pub upper : D
  pub middle : D
  pub lower : D

module _ {D : Type 0} (F : Type 0) ⦃d : Decimal D⦄ ⦃f : Float F⦄ ⦃c : Convert D F⦄ where
  open d use {zero_dec, new_from_int, add, sub, mul, div, is_zero}
  open f use {of_int, plus, times, over, sqrt, round}
  open c use {float64, new_from_float}

  -- macdLine[i] = fastEMA[i+offset].Sub(slowEMA[i]); with a fast period above the slow one the
  -- offset is negative, and the first index out of range.
  unfoldable pub difference_line : List D → List D → Result (List D)
  unfolding zip_with
  difference_line fast_ema slow_ema =
      if ltb (length fast_ema) (length slow_ema)
      then panic
      else ok (zip_with sub (drop (length fast_ema - length slow_ema) fast_ema) slow_ema)

  unfoldable pub macd_point : D → D → MacdResult D
  macd_point m s = record { macd_line = m; signal_line = s; histogram = sub m s }

  unfoldable pub macd : List (Candle D) → ℕ → ℕ → ℕ → Result (List (MacdResult D))
  unfolding closes ema zip_with difference_line macd_point
  macd candles fast slow signal = ema F (closes candles) fast >>= λ fast_ema.
      ema F (closes candles) slow >>= λ slow_ema.
      if length fast_ema == 0 || length slow_ema == 0
      then ok []
      else difference_line fast_ema slow_ema >>= λ line. ema F line signal >>= λ sig_ema.
          ok (zip_with macd_point (drop (length line - length sig_ema) line) sig_ema)

  -- stdDev * stdMult
  unfoldable pub band_spread : ℕ → F → D → List D → F
  unfolding sum_floats
  band_spread period std_mult mid window =
      let diffs : List F = map (λ x. float64 (sub x mid)) window in
      let variance = sum_floats (map (λ diff. times diff diff) diffs) in
      times (sqrt (over variance (of_int period))) std_mult

  unfoldable pub bollinger_of : ℕ → F → D → List D → Result (BandResult D)
  unfolding band_spread from_float
  bollinger_of period std_mult mid window =
      from_float (band_spread period std_mult mid window) >>= λ width.
      ok (record { upper = add mid width; middle = mid; lower = sub mid width })

  unfoldable pub bollinger_bands : List (Candle D) → ℕ → F → Result (List (BandResult D))
  unfolding closes sma zip_ok slices bollinger_of
  bollinger_bands candles period std_mult = sma (closes candles) period >>= λ mids.
      zip_ok (bollinger_of period std_mult) mids (slices (length mids) period (closes candles))

  -- raw[i] = ema1[i+offset].Mul(2).Sub(ema2[i])
  unfoldable pub hull_raw : List D → List D → Result (List D)
  unfolding zip_with
  hull_raw ema1 ema2 =
      if ltb (length ema1) (length ema2)
      then panic
      else ok (
          zip_with (λ a b. sub (mul a (new_from_int 2)) b) (drop (length ema1 - length ema2) ema1)
            ema2)

  unfoldable pub hull_ma : List (Candle D) → ℕ → Result (List D)
  unfolding closes ema hull_raw
  hull_ma candles period = ema F (closes candles) (period / 2) >>= λ ema1.
      ema F (closes candles) period >>= λ ema2.
      if length ema1 == 0 || length ema2 == 0
      then ok []
      else hull_raw ema1 ema2 >>= λ raw. ema F raw (round (sqrt (of_int period)))

module _ {D : Type 0} ⦃d : Decimal D⦄ where
  open d use {zero_dec, new_from_int, add, mul, div, is_zero}

  -- The sums of typical price times volume, and of volume.
  unfoldable pub vwap_sums : D → D → List (Candle D) → D × D
  vwap_sums cum_pv cum_vol [] = (cum_pv, cum_vol)
  vwap_sums cum_pv cum_vol (x ∷ xs) =
      let typical = div (add (add x.high x.low) x.close) (new_from_int 3) in
      vwap_sums (add cum_pv (mul typical x.volume)) (add cum_vol x.volume) xs

  unfoldable pub vwap : List (Candle D) → D
  unfolding vwap_sums
  vwap candles =
      let (cum_pv, cum_vol) = vwap_sums zero_dec zero_dec candles in
      if is_zero cum_vol then zero_dec else div cum_pv cum_vol

  unfoldable pub channel_of : List (Candle D) → Result (BandResult D)
  unfolding window_range
  channel_of window = window_range window >>= λ range. ok (record {
    upper = range.0;
    middle = div (add range.0 range.1) (new_from_int 2);
    lower = range.1;
  })

  unfoldable pub donchian_channel : List (Candle D) → ℕ → Result (List (BandResult D))
  unfolding map_ok slices channel_of
  donchian_channel candles period =
      if ltb (length candles) period
      then ok []
      else map_ok channel_of (slices (suc (length candles - period)) period candles)
