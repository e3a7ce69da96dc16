-- ===== src/Backtest/Lookahead.antt =====
-- internal/backtest/backtest.go: the replay does not look ahead.
use coinex_bot.Prelude.{
  ℕ, zero, suc, ◌+◌, ◌≤◌, ◌≡◌, refl, ap, ap₂, ◌∙◌, List, [], ◌∷◌, ◌++◌, arith, length, take, drop,
  length-drop,
}
use coinex_bot.Prelude.Results.{Result, ◌>>=◌, same_rest, end_outside}
use coinex_bot.Number.{Float, Convert}
use coinex_bot.Models.{Candle, Signal}
use coinex_bot.Backtest.{Strategy, Config, Replay, empty_book, bar, bars, replay, start}

take-append_le {ℓ} :
    {A : Type ℓ} (n : ℕ) (xs ys : List A) → n ≤ length xs → take n (xs ++ ys) ≡ take n xs
take-append_le zero xs ys h = refl
take-append_le (suc n) [] ys h = absurd (omega arith)
take-append_le (suc n) (x ∷ xs) ys h = ap (◌∷◌ x) (take-append_le n xs ys (omega arith))

drop-append_le {ℓ} :
    {A : Type ℓ} (n : ℕ) (xs ys : List A) → n ≤ length xs → drop n (xs ++ ys) ≡ drop n xs ++ ys
drop-append_le zero xs ys h = refl
drop-append_le (suc n) [] ys h = absurd (omega arith)
drop-append_le (suc n) (x ∷ xs) ys h = drop-append_le n xs ys (omega arith)

module _ {D F : Type 0} ⦃f : Float F⦄ ⦃c : Convert D F⦄ (cfg : Config F)
    (strategy : Strategy D F) where
  bars-append :
      (all : List (Candle D)) (i : ℕ) (xs ys : List (Candle D)) (s : Replay F)
      → bars cfg strategy all i (xs ++ ys) s
        ≡ (bars cfg strategy all i xs s >>= λ s'. bars cfg strategy all (i + length xs) ys s')
  unfolding bars
  bars-append all i [] ys s = let e : i + 0 ≡ i = omega arith in rw e refl
  bars-append all i (x ∷ xs) ys s =
      let e : i + suc (length xs) ≡ suc i + length xs = omega arith in
      let answer = strategy.evaluate (take (suc i) all) empty_book in
      let next = λ (sig : Signal F). bar cfg i x.open_time (c.float64 x.close) sig.signal s in
      rw e (
        end_outside (λ sig. bars cfg strategy all (suc i) xs (next sig))
          (λ s'. bars cfg strategy all (suc i + length xs) ys s') answer
          (λ sig. bars-append all (suc i) xs ys (next sig)))

  -- Two runs of the loop that have shown the strategy the same windows are in the same state.
  bars-agree :
      (all other : List (Candle D)) (i : ℕ) (xs : List (Candle D)) (s : Replay F)
      → ((n : ℕ) → n ≤ i + length xs → take n all ≡ take n other)
      → bars cfg strategy all i xs s ≡ bars cfg strategy other i xs s
  unfolding bars
  bars-agree all other i [] s same = refl
  bars-agree all other i (x ∷ xs) s same = rw (same (suc i) (omega arith)) (
      same_rest (strategy.evaluate (take (suc i) other) empty_book) λ sig.
        bars-agree all other (suc i) xs (bar cfg i x.open_time (c.float64 x.close) sig.signal s)
          (λ n h. same n (omega arith)))

  -- Over the candles of a longer history the replay passes through the state that it ends in over the
  -- shorter one, and panics if that does: what comes later has no effect on it.
  pub replay-append :
      (candles more : List (Candle D))
      → cfg.warmup_bars ≤ length candles
      → replay cfg strategy (candles ++ more) ≡ (
          replay cfg strategy candles >>= λ s.
          bars cfg strategy (candles ++ more) (length candles) more s)
  unfolding replay
  replay-append candles more h =
      let w = cfg.warmup_bars in
      let rest = drop w candles in
      let all = candles ++ more in
      let size : w + length rest ≡ length candles = omega (arith, length-drop w candles) in
      ap (λ cs. bars cfg strategy all w cs (start cfg)) (drop-append_le w candles more h)
      ∙ bars-append all w rest more (start cfg)
      ∙ ap₂ (λ i (r : Result (Replay F)). r >>= λ s. bars cfg strategy all i more s) size
          (bars-agree all candles w rest (start cfg)
            (λ n k. take-append_le n candles more (omega arith)))
