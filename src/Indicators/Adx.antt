-- ===== src/Indicators/Adx.antt =====
-- internal/indicators/indicators.go: ADX.
use coinex_bot.Prelude.{
  ℕ, ◌-◌, ◌*◌, ◌&&◌, List, [], ◌∷◌, if◌then◌else◌, ltb, length, take, drop, map, ◌==◌,
}
use coinex_bot.Prelude.Results.{Result, ok, panic}
use coinex_bot.Prelude.Slices.{each_pair, zip_with}
use coinex_bot.Number.{sum_floats, Decimal, Float, Convert}
use coinex_bot.Models.{Candle}
use coinex_bot.Indicators.Oscillators.{abs_f64, wilder}

pub record AdxResult (F : Type 0) : Type 0 where
  pub adx : F
  pub plus_di : F
  pub minus_di : F

-- dmPlus[i-1], dmMinus[i-1] and trArr[i-1]
pub record Movement (F : Type 0) : Type 0 where
  pub dm_plus : F
  pub dm_minus : F
  pub tr : F

-- plus[i], minus[i] and dx[i]
pub record Direction (F : Type 0) : Type 0 where
  pub plus_di : F
  pub minus_di : F
  pub dx : F

module _ {F : Type 0} ⦃f : Float F⦄ where
  open f use {of_int, plus, minus, times, over, lt, eq}

  -- The closure `smooth`, from arr[period] on.
  unfoldable pub smooth_loop : ℕ → F → List F → List F
  smooth_loop period sum [] = []
  smooth_loop period sum (x ∷ xs) =
      let sum' = plus (minus sum (over sum (of_int period))) x in sum' ∷ smooth_loop period sum' xs

  unfoldable pub smooth_sums : ℕ → List F → List F
  unfolding sum_floats smooth_loop
  smooth_sums period xs =
      let sum = sum_floats (take period xs) in sum ∷ smooth_loop period sum (drop period xs)

  unfoldable pub direction_of : F → F × F → Direction F
  unfolding abs_f64
  direction_of str (sdp, sdm) =
      let zero_f = of_int 0 in
      let p = over (times (of_int 100) sdp) str in
      let m = over (times (of_int 100) sdm) str in
      let di_sum = plus p m in
      if eq str zero_f
      then record { plus_di = zero_f; minus_di = zero_f; dx = zero_f }
      else if eq di_sum zero_f
      then record { plus_di = p; minus_di = m; dx = zero_f }
      else record {
        plus_di = p;
        minus_di = m;
        dx = over (times (of_int 100) (abs_f64 (minus p m))) di_sum;
      }

  -- adxArr, from dx[period] on.
  unfoldable pub adx_loop : ℕ → F → List F → List F
  unfolding wilder
  adx_loop period prev [] = []
  adx_loop period prev (x ∷ xs) = let next = wilder period prev x in next ∷ adx_loop period next xs

  unfoldable pub adx_result : F → Direction F → AdxResult F
  adx_result a di = record { adx = a; plus_di = di.plus_di; minus_di = di.minus_di }

  unfoldable pub adx_series : ℕ → List (Movement F) → List (AdxResult F)
  unfolding smooth_sums direction_of adx_loop adx_result zip_with sum_floats
  adx_series period moves =
      let str = smooth_sums period (map (λ (m : Movement F). m.tr) moves) in
      let sdp = smooth_sums period (map (λ (m : Movement F). m.dm_plus) moves) in
      let sdm = smooth_sums period (map (λ (m : Movement F). m.dm_minus) moves) in
      let dirs = zip_with direction_of str (zip_with (λ p m. (p, m)) sdp sdm) in
      let dxs = map (λ (di : Direction F). di.dx) dirs in
      let first = over (sum_floats (take period dxs)) (of_int period) in
      let adx_arr = first ∷ adx_loop period first (drop period dxs) in
      zip_with adx_result adx_arr (drop (length dirs - length adx_arr) dirs)

module _ {D F : Type 0} ⦃d : Decimal D⦄ ⦃f : Float F⦄ ⦃c : Convert D F⦄ where
  open d use {sub}
  open f use {of_int, lt}
  open c use {float64}

  unfoldable pub movement : Candle D → Candle D → Movement F
  unfolding abs_f64
  movement prev cur =
      let up : F = float64 (sub cur.high prev.high) in
      let down : F = float64 (sub prev.low cur.low) in
      let hl : F = float64 (sub cur.high cur.low) in
      let hc : F = float64 (sub cur.high prev.close) in
      let lc : F = float64 (sub prev.close cur.low) in
      let t = if lt hl (abs_f64 hc) then abs_f64 hc else hl in
      record {
        dm_plus = (if lt down up && lt (of_int 0) up then up else of_int 0);
        dm_minus = (if lt up down && lt (of_int 0) down then down else of_int 0);
        tr = (if lt t (abs_f64 lc) then abs_f64 lc else t);
      }

  -- With a period of 0 the slices are made too short or read at -1.
  unfoldable pub adx : List (Candle D) → ℕ → Result (List (AdxResult F))
  unfolding each_pair movement adx_series
  adx candles period =
      if ltb (length candles) (period * 2)
      then ok []
      else if period == 0
      then panic
      else ok (adx_series period (each_pair movement candles))
