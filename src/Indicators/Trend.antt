-- ===== src/Indicators/Trend.antt =====
-- internal/indicators/indicators.go: ATR, KeltnerChannel, ParabolicSAR and Supertrend.
use coinex_bot.Prelude.{
  ℕ, ◌+◌, ◌-◌, ◌||◌, Bool, true, false, not, List, [], ◌∷◌, if◌then◌else◌, ltb, length, drop, ◌==◌,
}
use coinex_bot.Prelude.Results.{Result, ok, ◌>>=◌}
use coinex_bot.Prelude.Slices.{each_pair, zip_with}
use coinex_bot.Number.{from_float, Decimal, Float, Convert}
use coinex_bot.Models.{Candle}
use coinex_bot.Indicators.{closes, max_dec, ema}
use coinex_bot.Indicators.Bands.{BandResult}

pub record SarPoint (D : Type 0) : Type 0 where
  pub sar : D
  pub is_long : Bool

-- The variables of `ParabolicSAR`.
pub record SarState (D F : Type 0) : Type 0 where
  pub sar : D
  pub ep : D
  pub af : F
  pub is_long : Bool

pub record SupertrendResult (D : Type 0) : Type 0 where
  pub value : D
  pub is_long : Bool

-- The variables of `Supertrend`: prevUB, prevLB and isLong.
pub record BandState (D : Type 0) : Type 0 where
  pub upper : D
  pub lower : D
  pub is_long : Bool

module _ {D : Type 0} ⦃d : Decimal D⦄ where
  open d use {sub}

  unfoldable pub true_range : Candle D → Candle D → D
  unfolding max_dec
  true_range prev cur =
      let hl = sub cur.high cur.low in
      let hc = max_dec (sub cur.high prev.close) (sub prev.close cur.low) in max_dec hl hc

module _ {D : Type 0} (F : Type 0) ⦃d : Decimal D⦄ ⦃f : Float F⦄ ⦃c : Convert D F⦄ where
  open d use {new_from_int, add, sub, mul, div, greater_than, less_than}
  open f use {plus, min_float}
  open c use {new_from_float}

  unfoldable pub atr : List (Candle D) → ℕ → Result (List D)
  unfolding each_pair true_range ema
  atr candles period =
      if ltb (length candles) (period + 1)
      then ok []
      else ema F (each_pair true_range candles) period

  unfoldable pub keltner_of : D → D → D → BandResult D
  keltner_of atr_mult mid a =
      let band = mul a atr_mult in
      record { upper = add mid band; middle = mid; lower = sub mid band }

  unfoldable pub keltner_channel : List (Candle D) → ℕ → F → Result (List (BandResult D))
  unfolding closes ema atr zip_with keltner_of from_float
  keltner_channel candles period atr_mult = ema F (closes candles) period >>= λ mids.
      atr candles period >>= λ atrs.
      let shorter = if ltb (length atrs) (length mids) then length atrs else length mids in
      if length mids == 0 || length atrs == 0
      then ok []
      else from_float atr_mult >>= λ mult. ok (
          zip_with (keltner_of mult) (drop (length mids - shorter) mids)
            (drop (length atrs - shorter) atrs))

  unfoldable pub sar_start : F → Candle D → Candle D → SarState D F
  sar_start step first second =
      let is_long = greater_than second.close first.close in
      record {
        sar = (if is_long then first.low else first.high);
        ep = (if is_long then first.high else first.low);
        af = step;
        is_long = is_long;
      }

  -- A new extreme point, which speeds up.
  unfoldable pub extend_sar : F → F → Bool → D → SarState D F → SarState D F
  extend_sar step max_step beyond ep s =
      if beyond then record s { ep = ep; af = min_float (plus s.af step) max_step } else s

  -- The trend turns over.
  unfoldable pub flip_sar : F → Bool → D → SarState D F → SarState D F
  flip_sar step crossed ep s =
      if crossed then record { sar = s.ep; ep = ep; af = step; is_long = not s.is_long } else s

  -- One turn of the loop, with `af` for `NewFromFloat(af)`.
  unfoldable pub sar_next : F → F → D → SarState D F → Candle D → SarState D F
  unfolding extend_sar flip_sar
  sar_next step max_step af s x =
      let moved = record s { sar = add s.sar (mul af (sub s.ep s.sar)) } in
      if s.is_long
      then (let s' = extend_sar step max_step (greater_than x.high moved.ep) x.high moved in
          flip_sar step (less_than x.low s'.sar) x.low s')
      else (let s' = extend_sar step max_step (less_than x.low moved.ep) x.low moved in
          flip_sar step (greater_than x.high s'.sar) x.high s')

  unfoldable pub sar_step : F → F → SarState D F → Candle D → Result (SarState D F)
  unfolding sar_next from_float
  sar_step step max_step s x = from_float s.af >>= λ af. ok (sar_next step max_step af s x)

  unfoldable pub sar_point : SarState D F → SarPoint D
  sar_point s = record { sar = s.sar; is_long = s.is_long }

  unfoldable pub sar_loop : F → F → SarState D F → List (Candle D) → Result (List (SarPoint D))
  unfolding sar_step sar_point
  sar_loop step max_step s [] = ok []
  sar_loop step max_step s (x ∷ xs) = sar_step step max_step s x >>= λ s'.
      sar_loop step max_step s' xs >>= λ points. ok (sar_point s' ∷ points)

  unfoldable pub parabolic_sar : List (Candle D) → F → F → Result (List (SarPoint D))
  unfolding sar_start sar_loop
  parabolic_sar [] step max_step = ok []
  parabolic_sar (first ∷ []) step max_step = ok []
  parabolic_sar (first ∷ second ∷ rest) step max_step =
      let s = sar_start step first second in
      sar_loop step max_step s (second ∷ rest) >>= λ points. ok (sar_point s ∷ points)

  unfoldable pub upper_band : D → Candle D → D → D
  upper_band factor x a = add (div (add x.high x.low) (new_from_int 2)) (mul factor a)

  unfoldable pub lower_band : D → Candle D → D → D
  lower_band factor x a = sub (div (add x.high x.low) (new_from_int 2)) (mul factor a)

  unfoldable pub supertrend_start : D → Candle D → D → BandState D
  unfolding upper_band lower_band
  supertrend_start factor x a = record {
    upper = upper_band factor x a;
    lower = lower_band factor x a;
    is_long = true;
  }

  unfoldable pub supertrend_step : D → BandState D → Candle D → Candle D → D → BandState D
  unfolding upper_band lower_band
  supertrend_step factor s prev x a =
      let ub = upper_band factor x a in
      let lb = lower_band factor x a in
      let upper = if less_than ub s.upper || greater_than prev.close s.upper then ub else s.upper in
      let lower = if greater_than lb s.lower || less_than prev.close s.lower then lb else s.lower in
      record {
        upper = upper;
        lower = lower;
        is_long =
            (if greater_than x.close upper
              then true
              else if less_than x.close lower
              then false
              else s.is_long);
      }

  unfoldable pub supertrend_point : BandState D → SupertrendResult D
  supertrend_point s = record {
    value = (if s.is_long then s.lower else s.upper);
    is_long = s.is_long;
  }

  -- The candles from index `offset + 1` on, `prev` the one before, and their average ranges, of
  -- which there are as many.
  unfoldable pub supertrend_loop :
      D → BandState D → Candle D → List (Candle D) → List D → List (SupertrendResult D)
  unfolding supertrend_step supertrend_point
  supertrend_loop factor s prev [] ranges = []
  supertrend_loop factor s prev (x ∷ xs) [] = []
  supertrend_loop factor s prev (x ∷ xs) (a ∷ ranges) =
      let s' = supertrend_step factor s prev x a in
      supertrend_point s' ∷ supertrend_loop factor s' x xs ranges

  unfoldable pub supertrend_from : D → List (Candle D) → List D → List (SupertrendResult D)
  unfolding supertrend_start supertrend_loop
  supertrend_from factor [] ranges = []
  supertrend_from factor (x ∷ xs) [] = []
  supertrend_from factor (x ∷ xs) (a ∷ ranges) =
      let s = supertrend_start factor x a in
      supertrend_point s ∷ supertrend_loop factor s x xs ranges

  unfoldable pub supertrend : List (Candle D) → ℕ → F → Result (List (SupertrendResult D))
  unfolding atr supertrend_from from_float
  supertrend candles atr_period factor = atr candles atr_period >>= λ ranges.
      if length ranges == 0
      then ok []
      else from_float factor >>= λ mult.
          ok (supertrend_from mult (drop (length candles - length ranges) candles) ranges)
