-- ===== src/Ml/Answers.antt =====
-- internal/strategies/ml_strategy.go on internal/ml/ensemble.go: the answers of the strategy.
use coinex_bot.Prelude.{
  ℕ, ◌+◌, ◌-◌, refl, List, Option, none, some, arith, ltb, leb, length, All, Text, bytes,
}
use coinex_bot.Prelude.Results.{Gives, gives, Gives-bind, Gives-if, Gives-imp}
use coinex_bot.Prelude.Slices.{last-Gives, index-Gives}
use coinex_bot.Number.{Decimal, Float, Convert}
use coinex_bot.Models.{Time, Duration, Candle, OrderBook}
use coinex_bot.Indicators.{closes}
use coinex_bot.Indicators.Totals.{
  Returns, All-unit, HasFiniteBands, ema-Gives, macd-Gives, bollinger_bands-Gives, atr-Gives,
  stoch_rsi-Gives, adx-Gives, williams_r-Gives,
}
use coinex_bot.Indicators.Totals.Clouds.{ichimoku-Gives}
use coinex_bot.Indicators.Totals.Accelerations.{HasFiniteSteps, parabolic_sar-Gives}
use coinex_bot.Strategies.Signals.{no_trade}
use coinex_bot.Strategies.Totals.Outcome.{IsSignalOf}
use coinex_bot.Ml.Features.{Features, to_slice, return_over, extract_features}
use coinex_bot.Ml.Ensemble.{Ensemble, new_ensemble, ml_outcome, first_timeframe, ml_ensemble_signal}
use coinex_bot.Ml.Runs.{Call, HasWidth, IsReady, calls, predict-Gives, new_ensemble-calls}

module _ {F : Type 0} ⦃f : Float F⦄ where
  ml_outcome-Gives :
      (now : Time) (market : Text) (e : Ensemble F) (feats : Option (Features F))
      → IsReady 20 e
      → Gives (IsSignalOf (bytes "ml_ensemble") now) (ml_outcome now market e feats)
  unfolding ml_outcome to_slice no_trade
  ml_outcome-Gives now market e none r = gives (refl, refl)
  ml_outcome-Gives now market e (some feats) r =
      Gives-bind (predict-Gives 20 (to_slice feats) e refl r) (λ p _. gives (refl, refl))

module _ {D F : Type 0} ⦃d : Decimal D⦄ ⦃f : Float F⦄ ⦃c : Convert D F⦄ where
  return_over-Gives :
      (candles : List (Candle D)) (price : F) (n : ℕ) → Returns (return_over candles price n)
  unfolding return_over
  return_over-Gives candles price n =
      Gives-if (leb (length candles) n) (λ _. gives tt)
        λ e.
          Gives-bind
            (index-Gives {P = λ _. Unit {0}} candles (length candles - (n + 1)) (ground arith)
              (All-unit candles))
            (λ _ _. gives tt)

  extract_features-Gives :
      (candles : List (Candle D)) (ob : OrderBook D)
      → HasFiniteBands F candles 20 (f.of_int 2)
      → HasFiniteSteps (f.literal 2 100) (f.literal 2 10)
      → Returns (extract_features {F = F} candles ob)
  unfolding extract_features
  extract_features-Gives candles ob bands steps =
      Gives-if (ltb (length candles) 60) (λ _. gives tt)
        λ e. Gives-bind (last-Gives candles (ground arith)) λ x _.
          Gives-bind (macd-Gives F candles 12 26 9 (omega arith) (omega arith) (omega arith)) λ _ _.
            Gives-bind (bollinger_bands-Gives F candles 20 (f.of_int 2) (omega arith) bands) λ _ _.
              Gives-bind (ema-Gives F (closes candles) 9 (omega arith)) λ _ _.
                Gives-bind (ema-Gives F (closes candles) 21 (omega arith)) λ _ _.
                  Gives-bind (atr-Gives F candles 14 (omega arith)) λ _ _.
                    Gives-bind (return_over-Gives candles (c.float64 x.close) 1) λ _ _.
                      Gives-bind (return_over-Gives candles (c.float64 x.close) 5) λ _ _.
                        Gives-bind (return_over-Gives candles (c.float64 x.close) 10) λ _ _.
                          Gives-bind
                            (ichimoku-Gives candles 9 26 52 (omega arith, omega arith, omega arith))
                            λ _ _.
                              Gives-bind
                                (stoch_rsi-Gives candles 14 3 3 (omega arith) (omega arith))
                                λ _ _. Gives-bind (adx-Gives candles 14 (omega arith)) λ _ _.
                                  Gives-bind (williams_r-Gives candles 14 (omega arith)) λ _ _.
                                    Gives-bind
                                      (parabolic_sar-Gives (f.literal 2 100) (f.literal 2 10) steps
                                        candles)
                                      λ _ _. gives tt

  ml_ensemble_signal-Gives :
      (now : Time) (e : Ensemble F) (candles : List (Candle D)) (ob : OrderBook D)
      → HasFiniteBands F candles 20 (f.of_int 2)
      → HasFiniteSteps (f.literal 2 100) (f.literal 2 10)
      → IsReady 20 e
      → Gives (IsSignalOf (bytes "ml_ensemble") now) (ml_ensemble_signal now e candles ob)
  unfolding ml_ensemble_signal
  ml_ensemble_signal-Gives now e candles ob bands steps r =
      Gives-bind (extract_features-Gives candles ob bands steps)
        λ feats _. ml_outcome-Gives now (first_timeframe candles) e feats r

  -- Whatever rows of 20 numbers a new ensemble was given, trained on and asked about, the strategy on
  -- it then comes back, with a signal of its own name and the time of the call, from any order book
  -- and any candles, even none, at which the width of each Bollinger band is finite, if the factors of
  -- its ParabolicSAR are finite too.
  pub calls-ml_ensemble_signal :
      (cs : List (Call F)) (min_conf : F) (interval : Duration) (now : Time)
      (candles : List (Candle D)) (ob : OrderBook D)
      → All (HasWidth 20) cs
      → HasFiniteBands F candles 20 (f.of_int 2)
      → HasFiniteSteps (f.literal 2 100) (f.literal 2 10)
      → Gives
          (λ e. Gives (IsSignalOf (bytes "ml_ensemble") now) (ml_ensemble_signal now e candles ob))
          (calls cs (new_ensemble min_conf interval))
  calls-ml_ensemble_signal cs min_conf interval now candles ob h bands steps =
      Gives-imp (new_ensemble-calls 20 cs min_conf interval (omega arith) h)
        (λ e r. ml_ensemble_signal-Gives now e candles ob bands steps r)
