-- ===== src/Ml/Ensemble.antt =====
-- internal/ml/ensemble.go: Ensemble; and internal/strategies/ml_strategy.go, the strategy on it.
use coinex_bot.Prelude.{
  ℕ, ◌-◌, Bool, true, false, not, List, [], ◌∷◌, ◌++◌, Option, none, some, if◌then◌else◌, ltb,
  length, map, last_of, Text, bytes,
}
use coinex_bot.Prelude.Results.{Result, ok, ◌>>=◌}
use coinex_bot.Prelude.Slices.{map_ok}
use coinex_bot.Number.{sum_floats, Decimal, Float, Convert}
use coinex_bot.Models.{Time, Duration, Candle, OrderBook, SignalType, long, short, flat, Signal}
use coinex_bot.Strategies.Signals.{no_trade}
use coinex_bot.Ml.Features.{Features, to_slice, extract_features}
use coinex_bot.Ml.Logistic.{LogisticRegression, new_logistic, fit_logistic, predict_logistic}
use coinex_bot.Ml.Boost.{GradientBoost, new_boost, fit_boost, predict_boost}

-- The types that implement the interface.
pub data Predictor (F : Type 0) : Type 0 where
  logistic : LogisticRegression F → Predictor F
  boost : GradientBoost F → Predictor F

pub record FeatureSample (F : Type 0) : Type 0 where
  pub x : List F
  pub y : F

pub record Ensemble (F : Type 0) : Type 0 where
  pub models : List (Predictor F)
  pub trained : Bool
  pub training_buffer : List (FeatureSample F)
  pub min_samples : ℕ
  pub min_confidence : F
  pub last_retrain : Time
  pub retrain_interval : Duration

module _ {F : Type 0} ⦃f : Float F⦄ where
  open f use {of_int, plus, minus, over, lt}

  unfoldable pub fit : List (List F) → List F → Predictor F → Result (Predictor F)
  unfolding fit_logistic fit_boost
  fit xs ys (logistic m) = fit_logistic m xs ys >>= λ m'. ok (logistic m')
  fit xs ys (boost m) = fit_boost m xs ys >>= λ m'. ok (boost m')

  unfoldable pub predict_one : List F → Predictor F → Result F
  unfolding predict_logistic predict_boost
  predict_one x (logistic m) = ok (predict_logistic m x)
  predict_one x (boost m) = predict_boost m x

  unfoldable pub new_ensemble : F → Duration → Ensemble F
  unfolding new_logistic new_boost
  new_ensemble min_conf interval = record {
    models = logistic new_logistic ∷ boost new_boost ∷ [];
    trained = false;
    training_buffer = [];
    min_samples = 200;
    min_confidence = min_conf;
    last_retrain = 0;
    retrain_interval = interval;
  }

  -- The buffer keeps the last 5000 samples.
  unfoldable pub add_sample : List F → Bool → Ensemble F → Ensemble F
  add_sample x profitable e =
      let y = if profitable then of_int 1 else of_int 0 in
      let buffer = e.training_buffer ++ (record { x = x; y = y } ∷ []) in
      record e {
        training_buffer = (if ltb 5000 (length buffer) then last_of 5000 buffer else buffer);
      }

  unfoldable pub maybe_retrain : Time → Ensemble F → Result (Ensemble F)
  unfolding fit map_ok
  maybe_retrain now e =
      let xs = map (λ (s : FeatureSample F). s.x) e.training_buffer in
      let ys = map (λ (s : FeatureSample F). s.y) e.training_buffer in
      if ltb (length e.training_buffer) e.min_samples
      then ok e
      else if ltb (now - e.last_retrain) e.retrain_interval
      then ok e
      else map_ok (fit xs ys) e.models >>= λ models.
          ok (record e { models = models; trained = true; last_retrain = now })

  -- The thresholds of the vote.
  unfoldable pub verdict : F → F → SignalType × F
  verdict min_conf prob =
      if lt min_conf prob
      then (long, prob)
      else if lt prob (minus (of_int 1) min_conf)
      then (short, minus (of_int 1) prob)
      else (flat, of_int 0)

  unfoldable pub predict : Ensemble F → List F → Result (SignalType × F)
  unfolding predict_one map_ok sum_floats verdict
  predict e x =
      if not e.trained
      then ok (flat, of_int 0)
      else map_ok (predict_one x) e.models >>= λ ps.
          ok (verdict e.min_confidence (over (sum_floats ps) (of_int (length e.models))))

  unfoldable pub ml_outcome : Time → Text → Ensemble F → Option (Features F) → Result (Signal F)
  unfolding predict to_slice no_trade
  ml_outcome now market e none = ok (no_trade now (bytes "ml_ensemble") market)
  ml_outcome now market e (some feats) = predict e (to_slice feats) >>= λ p. ok (record {
    strategy = bytes "ml_ensemble";
    market = market;
    signal = p.0;
    confidence = p.1;
    reason = bytes "ML ensemble prediction";
    timestamp = now;
  })

abbrev pub first_timeframe : {D : Type 0} → List (Candle D) → Text
first_timeframe [] = []
first_timeframe (x ∷ xs) = x.timeframe

module _ {D F : Type 0} ⦃d : Decimal D⦄ ⦃f : Float F⦄ ⦃c : Convert D F⦄ where
  -- MLEnsembleStrategy.Evaluate
  unfoldable pub ml_ensemble_signal :
      Time → Ensemble F → List (Candle D) → OrderBook D → Result (Signal F)
  unfolding extract_features ml_outcome
  ml_ensemble_signal now e candles ob =
      extract_features candles ob >>= λ feats. ml_outcome now (first_timeframe candles) e feats
