-- ===== src/Indicators/Totals/Accelerations.antt =====
-- internal/indicators/indicators.go: the acceleration factor of ParabolicSAR, which it gives to
-- NewFromFloat at each candle.
use coinex_bot.Prelude.{
  ℕ, zero, suc, ◌≡◌, refl, ap, true, Bool, false, List, [], ◌∷◌, ◌∙◌, if◌then◌else◌,
}
use coinex_bot.Prelude.Results.{Gives, gives, Gives-bind}
use coinex_bot.Number.{Decimal, Float, Convert}
use coinex_bot.Models.{Candle}
use coinex_bot.Indicators.Trend.{
  SarState, extend_sar, flip_sar, sar_next, sar_step, sar_loop, sar_start, parabolic_sar,
}
use coinex_bot.Indicators.Totals.{Returns, from_float-Gives}

-- The factor after `n` new extreme points: `step` at first, then more by `step`, up to the top.
abbrev pub acceleration : {F : Type 0} ⦃f : Float F⦄ → F → F → ℕ → F
acceleration step top zero = step
acceleration ⦃f⦄ step top (suc n) = f.min_float (f.plus (acceleration step top n) step) top

abbrev pub HasFiniteSteps : {F : Type 0} ⦃f : Float F⦄ → F → F → Type 0
HasFiniteSteps ⦃f⦄ step top = (n : ℕ) → f.is_finite (acceleration step top n) ≡ true

module _ {D F : Type 0} ⦃d : Decimal D⦄ ⦃f : Float F⦄ ⦃c : Convert D F⦄ (step top : F) where
  abbrev IsAccelerated : SarState D F → Type 0
  IsAccelerated s = (n : ℕ) × (s.af ≡ acceleration step top n)

  extend_sar-IsAccelerated :
      (beyond : Bool) (ep : D) (s : SarState D F)
      → IsAccelerated s
      → IsAccelerated (extend_sar F step top beyond ep s)
  unfolding extend_sar
  extend_sar-IsAccelerated true ep s (n, e) = (suc n, ap (λ af. f.min_float (f.plus af step) top) e)
  extend_sar-IsAccelerated false ep s h = h

  flip_sar-IsAccelerated :
      (crossed : Bool) (ep : D) (s : SarState D F)
      → IsAccelerated s
      → IsAccelerated (flip_sar F step crossed ep s)
  unfolding flip_sar
  flip_sar-IsAccelerated true ep s h = (0, refl)
  flip_sar-IsAccelerated false ep s h = h

  one_of :
      (b : Bool) (s s' : SarState D F)
      → IsAccelerated s
      → IsAccelerated s'
      → IsAccelerated (if b then s else s')
  one_of true s s' h h' = h
  one_of false s s' h h' = h'

  sar_next-IsAccelerated :
      (af : D) (s : SarState D F) (x : Candle D)
      → IsAccelerated s
      → IsAccelerated (sar_next F step top af s x)
  unfolding sar_next
  sar_next-IsAccelerated af s x h =
      let moved : SarState D F = record s { sar = d.add s.sar (d.mul af (d.sub s.ep s.sar)) } in
      let up = extend_sar F step top (d.greater_than x.high moved.ep) x.high moved in
      let down = extend_sar F step top (d.less_than x.low moved.ep) x.low moved in
      one_of s.is_long (flip_sar F step (d.less_than x.low up.sar) x.low up)
        (flip_sar F step (d.greater_than x.high down.sar) x.high down)
        (flip_sar-IsAccelerated (d.less_than x.low up.sar) x.low up
          (extend_sar-IsAccelerated (d.greater_than x.high moved.ep) x.high moved h))
        (flip_sar-IsAccelerated (d.greater_than x.high down.sar) x.high down
          (extend_sar-IsAccelerated (d.less_than x.low moved.ep) x.low moved h))

  sar_step-Gives :
      HasFiniteSteps step top
      → (s : SarState D F) (x : Candle D) → IsAccelerated s
      → Gives IsAccelerated (sar_step F step top s x)
  unfolding sar_step
  sar_step-Gives finite s x (n, e) =
      Gives-bind (from_float-Gives {D = D} {F = F} s.af (ap f.is_finite e ∙ finite n))
        λ af _. gives (sar_next-IsAccelerated af s x (n, e))

  sar_loop-Gives :
      HasFiniteSteps step top
      → (s : SarState D F) (xs : List (Candle D)) → IsAccelerated s
      → Returns (sar_loop F step top s xs)
  unfolding sar_loop
  sar_loop-Gives finite s [] h = gives tt
  sar_loop-Gives finite s (x ∷ xs) h =
      Gives-bind (sar_step-Gives finite s x h)
        λ s' h'. Gives-bind (sar_loop-Gives finite s' xs h') (λ _ _. gives tt)

  pub parabolic_sar-Gives :
      HasFiniteSteps step top → (xs : List (Candle D)) → Returns (parabolic_sar F xs step top)
  unfolding parabolic_sar sar_start
  parabolic_sar-Gives finite [] = gives tt
  parabolic_sar-Gives finite (x ∷ []) = gives tt
  parabolic_sar-Gives finite (x ∷ y ∷ xs) =
      Gives-bind (sar_loop-Gives finite (sar_start F step x y) (y ∷ xs) (0, refl)) (λ _ _. gives tt)
