-- ===== src/Indicators/Causal.antt =====
-- internal/indicators/indicators.go: the series of a longer history.
use coinex_bot.Prelude.{
  ℕ, ◌+◌, ◌≤◌, ◌≡◌, refl, ap, inl, inr, Bool-cases, false, List, [], ◌∷◌, ◌++◌, arith, ltb, length,
  drop, map, IsPrefix, no_more, same_head, IsPrefix-append, length-append, take-append, drop-append,
  length-map,
}
use coinex_bot.Prelude.Slices.{each_pair, length-each_pair}
use coinex_bot.Number.{Decimal, Float, Convert}
use coinex_bot.Models.{Candle}
use coinex_bot.Indicators.{closes}
use coinex_bot.Indicators.Oscillators.{rsi_loop, rsi_series, rsi}

module _ {ℓ κ} {A : Type ℓ} {B : Type κ} where
  map-append : (f : A → B) (xs ys : List A) → map f (xs ++ ys) ≡ map f xs ++ map f ys
  map-append f [] ys = refl
  map-append f (x ∷ xs) ys = ap (◌∷◌ (f x)) (map-append f xs ys)

  each_pair-IsPrefix :
      (f : A → A → B) (xs ys : List A) → IsPrefix (each_pair f xs) (each_pair f (xs ++ ys))
  unfolding each_pair
  each_pair-IsPrefix f [] ys = no_more
  each_pair-IsPrefix f (x ∷ []) ys = no_more
  each_pair-IsPrefix f (x ∷ y ∷ xs) ys = same_head (each_pair-IsPrefix f (y ∷ xs) ys)

module _ {F : Type 0} ⦃f : Float F⦄ where
  rsi_loop-IsPrefix :
      (n : ℕ) (xs ys : List F) (g l : F) → IsPrefix (rsi_loop n g l xs) (rsi_loop n g l (xs ++ ys))
  unfolding rsi_loop
  rsi_loop-IsPrefix n [] ys g l = no_more
  rsi_loop-IsPrefix n (x ∷ xs) ys g l = same_head (rsi_loop-IsPrefix n xs ys _ _)

  rsi_series-IsPrefix :
      (n : ℕ) (xs : List F) {zs : List F}
      → n ≤ length xs
      → IsPrefix xs zs
      → IsPrefix (rsi_series n xs) (rsi_series n zs)
  unfolding rsi_series
  rsi_series-IsPrefix n xs h p =
      let (ys, e) = IsPrefix-append p in
      rw (e, take-append n xs ys h, drop-append n xs ys h)
        (same_head (rsi_loop-IsPrefix n (drop n xs) ys _ _))

module _ {D F : Type 0} ⦃d : Decimal D⦄ ⦃f : Float F⦄ ⦃c : Convert D F⦄ where
  -- The RSI of a longer history begins with that of the shorter one.
  pub rsi-IsPrefix :
      (period : ℕ) (xs ys : List (Candle D))
      → IsPrefix {A = F} (rsi xs period) (rsi (xs ++ ys) period)
  unfolding rsi closes
  rsi-IsPrefix period xs ys = elim (Bool-cases (ltb (length xs) (period + 1))) [
    | inl few ↦ rw few no_more
    | inr enough ↦
        let diff : D → D → F = λ prev cur. c.float64 (d.sub cur prev) in
        let long : ltb (length (xs ++ ys)) (period + 1) ≡ false =
          ground (arith, length-append xs ys) in
        let cl = closes xs in
        rw (enough, long, map-append (λ (x : Candle D). x.close) xs ys)
          (rsi_series-IsPrefix period (each_pair diff cl)
            (ground (arith, length-each_pair diff cl, length-map xs (λ (x : Candle D). x.close)))
            (each_pair-IsPrefix diff cl (closes ys)))
  ]
