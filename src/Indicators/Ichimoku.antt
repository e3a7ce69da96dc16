-- ===== src/Indicators/Ichimoku.antt =====
-- internal/indicators/ichimoku.go: the components of the cloud and the signal of the latest candle.
use coinex_bot.Prelude.{
  ℕ, zero, suc, ◌-◌, ◌&&◌, ◌||◌, List, [], ◌∷◌, if◌then◌else◌, ltb, leb, length, take, drop, ◌==◌,
  Text, bytes,
}
use coinex_bot.Prelude.Results.{Result, ok, panic, ◌>>=◌}
use coinex_bot.Prelude.Slices.{last, before_last, index}
use coinex_bot.Number.{Decimal}
use coinex_bot.Models.{Candle}
use coinex_bot.Indicators.Oscillators.{scan_range}

pub record IchimokuResult (D : Type 0) : Type 0 where
  pub tenkan : D
  pub kijun : D
  pub senkou_a : D
  pub senkou_b : D
  pub chikou : D

pub data IchimokuSignal : Type 0 where
  bullish bearish neutral : IchimokuSignal

module _ {D : Type 0} ⦃d : Decimal D⦄ where
  open d use {
    zero_dec, new_from_int, add, div, greater_than, less_than, less_than_or_equal,
    greater_than_or_equal,
  }

  -- The first candle, and the loop over those after it.
  unfoldable pub middle_of : List (Candle D) → Result D
  unfolding scan_range
  middle_of [] = panic
  middle_of (x ∷ xs) =
      let range = scan_range x.high x.low xs in ok (div (add range.0 range.1) (new_from_int 2))

  -- midpoint(i-period+1, i)
  unfoldable pub midpoint : List (Candle D) → ℕ → ℕ → Result D
  unfolding middle_of
  midpoint candles period i = middle_of (take period (drop (suc i - period) candles))

  -- A field that the loop leaves as it is while there are too few candles is the zero decimal.
  unfoldable pub midpoint_or_zero : List (Candle D) → ℕ → ℕ → Result D
  unfolding midpoint
  midpoint_or_zero candles period i =
      if leb period (suc i) then midpoint candles period i else ok zero_dec

  unfoldable pub ichimoku_at : List (Candle D) → ℕ → ℕ → ℕ → ℕ → Result (IchimokuResult D)
  unfolding midpoint_or_zero index
  ichimoku_at candles tenkan kijun senkou i = midpoint_or_zero candles tenkan i >>= λ t.
      midpoint candles kijun i >>= λ k. midpoint_or_zero candles senkou i >>= λ b.
      index candles i >>= λ x. ok (record {
        tenkan = t;
        kijun = k;
        senkou_a = (if leb tenkan (suc i) then div (add t k) (new_from_int 2) else zero_dec);
        senkou_b = b;
        chikou = x.close;
      })

  -- `count` rounds from index `i` on.
  unfoldable pub ichimoku_loop :
      List (Candle D) → ℕ → ℕ → ℕ → ℕ → ℕ → Result (List (IchimokuResult D))
  unfolding ichimoku_at
  ichimoku_loop candles tenkan kijun senkou zero i = ok []
  ichimoku_loop candles tenkan kijun senkou (suc count) i =
      ichimoku_at candles tenkan kijun senkou i >>= λ r.
      ichimoku_loop candles tenkan kijun senkou count (suc i) >>= λ rs. ok (r ∷ rs)

  -- With kijun 0 the first index is -1; with more than one candle too few for kijun the length of
  -- the result is negative.
  unfoldable pub ichimoku : List (Candle D) → ℕ → ℕ → ℕ → Result (List (IchimokuResult D))
  unfolding ichimoku_loop
  ichimoku candles tenkan kijun senkou =
      let n = length candles in
      if ltb n senkou
      then ok []
      else if kijun == 0 || ltb (suc n) kijun
      then panic
      else ichimoku_loop candles tenkan kijun senkou (suc n - kijun) (kijun - 1)

  unfoldable pub cloud_top : IchimokuResult D → D
  cloud_top r = if greater_than r.senkou_b r.senkou_a then r.senkou_b else r.senkou_a

  unfoldable pub cloud_bottom : IchimokuResult D → D
  cloud_bottom r = if less_than r.senkou_b r.senkou_a then r.senkou_b else r.senkou_a

  -- The signal from the last two results and the last close.
  unfoldable pub cloud_signal : IchimokuResult D → IchimokuResult D → D → IchimokuSignal × Text
  unfolding cloud_top cloud_bottom
  cloud_signal cur prev price =
      let above = greater_than price (cloud_top cur) in
      let below = less_than price (cloud_bottom cur) in
      let cross_bull =
        greater_than cur.tenkan cur.kijun && less_than_or_equal prev.tenkan prev.kijun in
      let cross_bear =
        less_than cur.tenkan cur.kijun && greater_than_or_equal prev.tenkan prev.kijun in
      if above && cross_bull
      then (bullish, bytes "price above cloud + TK bullish cross")
      else if below && cross_bear
      then (bearish, bytes "price below cloud + TK bearish cross")
      else if above && greater_than cur.tenkan cur.kijun
      then (bullish, bytes "price above cloud, tenkan > kijun")
      else if below && less_than cur.tenkan cur.kijun
      then (bearish, bytes "price below cloud, tenkan < kijun")
      else (neutral, bytes "inside cloud or mixed signals")

  unfoldable pub ichimoku_latest_signal :
      List (IchimokuResult D) → List (Candle D) → Result (IchimokuSignal × Text)
  unfolding last before_last cloud_signal
  ichimoku_latest_signal results candles =
      if ltb (length results) 2
      then ok (neutral, bytes "insufficient data")
      else last results >>= λ cur.
          before_last results >>= λ prev. last candles >>= λ x. ok (cloud_signal cur prev x.close)
