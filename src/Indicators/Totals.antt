-- ===== src/Indicators/Totals.antt =====
-- internal/indicators: the reads and the divisions of the indicators, for positive periods.
pub mod Clouds
pub mod Accelerations
use coinex_bot.Prelude.{
  ℕ, zero, suc, ◌+◌, ◌-◌, ◌*◌, ◌/◌, ◌≤◌, ◌<◌, ◌≡◌, refl, ap, true, false, ◌||◌, List, [], ◌∷◌,
  arith, ltb, leb, ◌==◌, length, take, drop, All, length-drop, length-take,
}
use coinex_bot.Prelude.Results.{
  Result, ok, Gives, gives, Gives-bind, Gives-if, Gives-imp, Gives-value,
}
use coinex_bot.Prelude.Slices.{
  slices, map_ok, each_pair, last-Gives, before_last-Gives, index-Gives, slices-full, map_ok-Gives,
  length-each_pair, zip_with, zip_ok-Gives,
}
use coinex_bot.Number.{from_float, Decimal, Float, Convert}
use coinex_bot.Models.{Candle}
use coinex_bot.Indicators.{closes, sma, smooth, ema}
use coinex_bot.Indicators.Oscillators.{
  rsi, stoch_k, stoch_d, stoch_rsi, window_range, williams_of, williams_r,
}
use coinex_bot.Indicators.Bands.{
  difference_line, macd, band_spread, bollinger_of, bollinger_bands, hull_raw, hull_ma, channel_of,
  donchian_channel,
}
use coinex_bot.Indicators.Trend.{true_range, atr, keltner_channel, supertrend}
use coinex_bot.Indicators.Adx.{adx}
use coinex_bot.Indicators.Ichimoku.{
  IchimokuResult, middle_of, midpoint, midpoint_or_zero, ichimoku_at, ichimoku_loop, ichimoku,
  ichimoku_latest_signal,
}

pub All-unit {ℓ} : {A : Type ℓ} (xs : List A) → All (λ _. Unit {0}) xs
All-unit [] = tt
All-unit (x ∷ xs) = (tt, All-unit xs)

-- A call that comes back.
abbrev pub Returns {ℓ} : {A : Type ℓ} → Result A → Type ℓ
Returns r = Gives (λ _. Unit {0}) r

module _ {D : Type 0} ⦃d : Decimal D⦄ where
  length-smooth : (vals : List D) (k prev : D) → length (smooth k prev vals) ≡ length vals
  unfolding smooth
  length-smooth [] k prev = refl
  length-smooth (v ∷ vals) k prev = ap suc (length-smooth vals k _)

  length-averages :
      (vals : List D) (period : ℕ) (k first : D)
      → ltb (length vals) period ≡ false
      → length (first ∷ smooth k first (drop period vals)) ≡ suc (length vals) - period
  length-averages vals period k first e =
      ground (arith, length-drop period vals, length-smooth (drop period vals) k first)

  pub sma-Gives : (vals : List D) (period : ℕ) → 0 < period → Returns (sma vals period)
  unfolding sma
  sma-Gives vals period pos =
      Gives-if (ltb (length vals) period) (λ _. gives tt)
        λ _. Gives-if (period == 0) (λ e. absurd (ground arith)) (λ _. gives tt)

  pub window_range-Gives :
      (window : List (Candle D)) → 0 < length window → Returns (window_range window)
  unfolding window_range
  window_range-Gives [] h = absurd (omega arith)
  window_range-Gives (x ∷ xs) h = gives tt

-- The loop over the windows of a series, from its body at one window.
each_window-Gives {ℓ κ} :
    {A : Type ℓ} {B : Type κ} (f : List A → Result B) (period : ℕ) (xs : List A)
    → ((w : List A) → length w ≡ period → Returns (f w))
    → ltb (length xs) period ≡ false
    → Returns (map_ok f (slices (suc (length xs - period)) period xs))
each_window-Gives f period xs step e =
    Gives-imp
      (map_ok-Gives f (slices (suc (length xs - period)) period xs) step
        (slices-full (suc (length xs - period)) period xs (ground arith)))
      (λ _ _. tt)

module _ {D : Type 0} ⦃d : Decimal D⦄ where
  channel_of-Gives : (window : List (Candle D)) → 0 < length window → Returns (channel_of window)
  unfolding channel_of
  channel_of-Gives window h = Gives-bind (window_range-Gives window h) (λ _ _. gives tt)

  pub donchian_channel-Gives :
      (candles : List (Candle D)) (period : ℕ)
      → 0 < period
      → Returns (donchian_channel candles period)
  unfolding donchian_channel
  donchian_channel-Gives candles period pos =
      Gives-if (ltb (length candles) period) (λ _. gives tt)
        λ e. each_window-Gives channel_of period candles (λ w n. channel_of-Gives w (omega arith)) e

module _ {F : Type 0} ⦃f : Float F⦄ where
  stoch_k-Gives : (window : List F) → 0 < length window → Returns (stoch_k window)
  unfolding stoch_k
  stoch_k-Gives [] h = absurd (omega arith)
  stoch_k-Gives (v ∷ vs) h = Gives-bind (last-Gives (v ∷ vs) h) (λ _ _. gives tt)

  stoch_d-Gives : (n : ℕ) (window : List F) → 0 < length window → Returns (stoch_d n window)
  unfolding stoch_d
  stoch_d-Gives n window h = Gives-bind (last-Gives window h) (λ _ _. gives tt)

module _ {D F : Type 0} ⦃d : Decimal D⦄ ⦃f : Float F⦄ ⦃c : Convert D F⦄ where
  williams_of-Gives :
      (window : List (Candle D)) → 0 < length window → Returns (williams_of {F = F} window)
  unfolding williams_of
  williams_of-Gives window h =
      Gives-bind (window_range-Gives window h)
        λ range _. Gives-bind (last-Gives window h) (λ _ _. gives tt)

  pub williams_r-Gives :
      (candles : List (Candle D)) (period : ℕ)
      → 0 < period
      → Returns (williams_r {F = F} candles period)
  unfolding williams_r
  williams_r-Gives candles period pos =
      Gives-if (ltb (length candles) period) (λ _. gives tt)
        λ e.
          each_window-Gives (williams_of {F = F}) period candles
            (λ w n. williams_of-Gives w (omega arith)) e

  pub stoch_rsi-Gives :
      (candles : List (Candle D)) (period k d : ℕ)
      → 0 < k
      → 0 < d
      → Returns (stoch_rsi {F = F} candles period k d)
  unfolding stoch_rsi
  stoch_rsi-Gives candles period k d hk hd =
      let rs : List F = rsi candles period in
      Gives-if (ltb (length rs) k) (λ _. gives tt)
        λ e.
          Gives-bind (each_window-Gives stoch_k k rs (λ w n. stoch_k-Gives w (omega arith)) e)
            λ ks _.
              Gives-if (ltb (length ks) d) (λ _. gives tt)
                λ e'. each_window-Gives (stoch_d d) d ks (λ w n. stoch_d-Gives d w (omega arith)) e'

  pub adx-Gives :
      (candles : List (Candle D)) (period : ℕ) → 0 < period → Returns (adx {F = F} candles period)
  unfolding adx
  adx-Gives candles period pos =
      Gives-if (ltb (length candles) (period * 2)) (λ _. gives tt)
        λ _. Gives-if (period == 0) (λ e. absurd (ground arith)) (λ _. gives tt)

module _ {D F : Type 0} ⦃f : Float F⦄ ⦃c : Convert D F⦄ where
  pub from_float-Gives : (x : F) → f.is_finite x ≡ true → Returns (from_float {D = D} x)
  unfolding from_float
  from_float-Gives x h = rw h (gives tt)

module _ {D : Type 0} (F : Type 0) ⦃d : Decimal D⦄ ⦃f : Float F⦄ ⦃c : Convert D F⦄ where
  -- EMA gives one average for each window.
  pub ema-Gives :
      (vals : List D) (period : ℕ)
      → 0 < period
      → Gives (λ (ys : List D). length ys ≡ suc (length vals) - period) (ema F vals period)
  unfolding ema
  ema-Gives vals period pos =
      Gives-if (ltb (length vals) period) (λ e. gives (ground arith))
        λ e.
          Gives-if (period == 0) (λ z. absurd (ground arith))
            (λ z. gives (length-averages vals period _ _ e))

  difference_line-Gives :
      (xs ys : List D) → length ys ≤ length xs → Returns (difference_line F xs ys)
  unfolding difference_line
  difference_line-Gives xs ys h =
      Gives-if (ltb (length xs) (length ys)) (λ e. absurd (ground arith)) (λ _. gives tt)

  hull_raw-Gives : (xs ys : List D) → length ys ≤ length xs → Returns (hull_raw F xs ys)
  unfolding hull_raw
  hull_raw-Gives xs ys h =
      Gives-if (ltb (length xs) (length ys)) (λ e. absurd (ground arith)) (λ _. gives tt)

  pub macd-Gives :
      (candles : List (Candle D)) (fast slow signal : ℕ)
      → 0 < fast
      → fast ≤ slow
      → 0 < signal
      → Returns (macd F candles fast slow signal)
  unfolding macd
  macd-Gives candles fast slow signal hf hs hg =
      Gives-bind (ema-Gives (closes candles) fast hf) λ xs nx.
        Gives-bind (ema-Gives (closes candles) slow (omega arith)) λ ys ny.
          Gives-if (length xs == 0 || length ys == 0) (λ _. gives tt)
            λ _.
              Gives-bind (difference_line-Gives xs ys (omega arith))
                λ line _. Gives-bind (ema-Gives line signal hg) (λ _ _. gives tt)

  pub hull_ma-Gives :
      (candles : List (Candle D)) (period : ℕ)
      → 1 < period
      → 0 < f.round (f.sqrt (f.of_int period))
      → Returns (hull_ma F candles period)
  unfolding hull_ma
  hull_ma-Gives candles period h hr =
      Gives-bind (ema-Gives (closes candles) (period / 2) (omega arith)) λ xs nx.
        Gives-bind (ema-Gives (closes candles) period (omega arith)) λ ys ny.
          Gives-if (length xs == 0 || length ys == 0) (λ _. gives tt)
            λ _.
              Gives-bind (hull_raw-Gives xs ys (omega arith)) λ raw _.
                Gives-imp (ema-Gives raw (f.round (f.sqrt (f.of_int period))) hr) (λ _ _. tt)

  bollinger_of-Gives :
      (period : ℕ) (m : F) (mid : D) (window : List D)
      → f.is_finite (band_spread F period m mid window) ≡ true
      → Returns (bollinger_of F period m mid window)
  unfolding bollinger_of
  bollinger_of-Gives period m mid window h =
      Gives-bind (from_float-Gives {D = D} {F = F} (band_spread F period m mid window) h)
        (λ _ _. gives tt)

  -- The multiple of the deviation is finite around each average.
  abbrev pub HasFiniteBands : List (Candle D) → ℕ → F → Type 0
  HasFiniteBands candles period m =
      (mids : List D)
      → sma (closes candles) period ≡ ok mids
      → All (λ w. f.is_finite w ≡ true)
          (zip_with (band_spread F period m) mids (slices (length mids) period (closes candles)))

  pub bollinger_bands-Gives :
      (candles : List (Candle D)) (period : ℕ) (m : F)
      → 0 < period
      → HasFiniteBands candles period m
      → Returns (bollinger_bands F candles period m)
  unfolding bollinger_bands
  bollinger_bands-Gives candles period m h finite =
      let (mids, e, _) = Gives-value (sma-Gives (closes candles) period h) in
      rw e (
        zip_ok-Gives (λ w. f.is_finite w ≡ true) (band_spread F period m) (bollinger_of F period m)
          mids (slices (length mids) period (closes candles)) (bollinger_of-Gives period m)
          (finite mids e))

  -- There are fewer ranges than candles.
  pub atr-Gives :
      (candles : List (Candle D)) (period : ℕ)
      → 0 < period
      → Gives (λ (ys : List D). length ys ≤ length candles - 1) (atr F candles period)
  unfolding atr
  atr-Gives candles period h =
      Gives-if (ltb (length candles) (period + 1)) (λ _. gives (omega arith))
        λ e.
          let pairs = each_pair true_range candles in
          Gives-imp (ema-Gives pairs period h)
            λ ys n. ground (arith, length-each_pair true_range candles)

  pub keltner_channel-Gives :
      (candles : List (Candle D)) (period : ℕ) (m : F)
      → 0 < period
      → f.is_finite m ≡ true
      → Returns (keltner_channel F candles period m)
  unfolding keltner_channel
  keltner_channel-Gives candles period m h finite =
      Gives-bind (ema-Gives (closes candles) period h) λ mids _.
        Gives-bind (atr-Gives candles period h) λ ranges _.
          Gives-if (length mids == 0 || length ranges == 0) (λ _. gives tt)
            λ _. Gives-bind (from_float-Gives m finite) (λ _ _. gives tt)

  pub supertrend-Gives :
      (candles : List (Candle D)) (period : ℕ) (m : F)
      → 0 < period
      → f.is_finite m ≡ true
      → Returns (supertrend F candles period m)
  unfolding supertrend
  supertrend-Gives candles period m h finite = Gives-bind (atr-Gives candles period h) λ ranges _.
      Gives-if (length ranges == 0) (λ _. gives tt)
        λ _. Gives-bind (from_float-Gives m finite) (λ _ _. gives tt)
