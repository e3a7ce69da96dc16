-- ===== src/Ml/Runs.antt =====
-- internal/ml/ensemble.go, the methods of Ensemble: any sequence of calls, with rows of one width.
use coinex_bot.Prelude.{
  ℕ, zero, suc, ◌<◌, ◌-◌, not, ◌≡◌, Bool, true, false, List, [], ◌∷◌, ◌++◌, arith, if◌then◌else◌,
  ltb, length, map, drop, last_of, length-map, All, All-append,
}
use coinex_bot.Prelude.Results.{Result, ok, ◌>>=◌, Gives, gives, Gives-bind, Gives-if}
use coinex_bot.Prelude.Slices.{map_ok-Gives}
use coinex_bot.Number.{Float}
use coinex_bot.Models.{Time, Duration}
use coinex_bot.Indicators.Totals.{Returns}
use coinex_bot.Ml.Logistic.{new_logistic}
use coinex_bot.Ml.Boost.{new_boost}
use coinex_bot.Ml.Ensemble.{
  Predictor, logistic, boost, FeatureSample, Ensemble, fit, predict_one, new_ensemble, add_sample,
  maybe_retrain, predict,
}
use coinex_bot.Ml.Training.{
  AreRows, HasWeights, AreTrees, fit_logistic-Gives, fit_boost-Gives, predict_boost-Gives,
}

pub data Call (F : Type 0) : Type 0 where
  sample : List F → Bool → Call F
  retrain : Time → Call F
  ask : List F → Call F

abbrev pub HasWidth : {F : Type 0} → ℕ → Call F → Type 0
HasWidth width (sample x profitable) = length x ≡ width
HasWidth width (retrain now) = Unit {0}
HasWidth width (ask x) = length x ≡ width

-- What a model has learnt fits rows of the width.
abbrev pub IsFitted : {F : Type 0} → ℕ → Predictor F → Type 0
IsFitted width (logistic m) = HasWeights width m.weights
IsFitted width (boost m) = AreTrees width m.trees

pub record IsReady {F : Type 0} (width : ℕ) (e : Ensemble F) : Type 0 where
  pub models : All (IsFitted width) e.models
  pub samples : All (λ (s : FeatureSample F). length s.x ≡ width) e.training_buffer

drop-All {ℓ κ} : {A : Type ℓ} (P : A → Type κ) (n : ℕ) (xs : List A) → All P xs → All P (drop n xs)
drop-All P zero xs h = h
drop-All P (suc n) [] h = tt
drop-All P (suc n) (x ∷ xs) h = drop-All P n xs h.1

-- The cut of `add_sample`.
if-All {ℓ κ} :
    {A : Type ℓ} (P : A → Type κ) (b : Bool) (xs ys : List A)
    → All P xs
    → All P ys
    → All P (if b then xs else ys)
if-All P true xs ys hx hy = hx
if-All P false xs ys hx hy = hy

module _ {F : Type 0} ⦃f : Float F⦄ where
  unfoldable pub call : Call F → Ensemble F → Result (Ensemble F)
  unfolding maybe_retrain add_sample predict
  call (sample x profitable) e = ok (add_sample x profitable e)
  call (retrain now) e = maybe_retrain now e
  call (ask x) e = predict e x >>= λ _. ok e

  unfoldable pub calls : List (Call F) → Ensemble F → Result (Ensemble F)
  unfolding call
  calls [] e = ok e
  calls (c ∷ cs) e = call c e >>= λ e'. calls cs e'

  rows_of :
      (width : ℕ) (samples : List (FeatureSample F))
      → All (λ (s : FeatureSample F). length s.x ≡ width) samples
      → AreRows width (map (λ (s : FeatureSample F). s.x) samples)
  rows_of width [] h = tt
  rows_of width (s ∷ samples) h = (h.0, rows_of width samples h.1)

  fit-Gives :
      (width : ℕ) (xs : List (List F)) (ys : List F) (m : Predictor F)
      → 0 < width
      → AreRows width xs
      → length ys ≡ length xs
      → IsFitted width m
      → Gives (IsFitted width) (fit xs ys m)
  unfolding fit
  fit-Gives width xs ys (logistic m) h hx hy hm =
      Gives-bind (fit_logistic-Gives width m xs ys hm hx hy) (λ m' p. gives p)
  fit-Gives width xs ys (boost m) h hx hy hm =
      Gives-bind (fit_boost-Gives width m xs ys h hm hx) (λ m' p. gives p)

  predict_one-Gives :
      (width : ℕ) (x : List F) (m : Predictor F)
      → length x ≡ width
      → IsFitted width m
      → Returns (predict_one x m)
  unfolding predict_one
  predict_one-Gives width x (logistic m) hx hm = gives tt
  predict_one-Gives width x (boost m) hx hm = predict_boost-Gives width m x hm hx

  add_sample-IsReady :
      (width : ℕ) (x : List F) (profitable : Bool) (e : Ensemble F)
      → length x ≡ width
      → IsReady width e
      → IsReady width (add_sample x profitable e)
  unfolding add_sample
  add_sample-IsReady width x profitable e hx r =
      let s : FeatureSample F = record {
        x = x;
        y = if profitable then f.of_int 1 else f.of_int 0;
      } in
      let P = λ (s : FeatureSample F). length s.x ≡ width in
      let buffer = e.training_buffer ++ (s ∷ []) in
      let all : All P buffer = All-append P e.training_buffer (s ∷ []) r.samples (hx, tt) in
      record {
        models = r.models;
        samples =
            if-All P (ltb 5000 (length buffer)) (last_of 5000 buffer) buffer
              (drop-All P (length buffer - 5000) buffer all) all;
      }

  maybe_retrain-Gives :
      (width : ℕ) (now : Time) (e : Ensemble F)
      → 0 < width
      → IsReady width e
      → Gives (IsReady width) (maybe_retrain now e)
  unfolding maybe_retrain
  maybe_retrain-Gives width now e h r =
      let xs = map (λ (s : FeatureSample F). s.x) e.training_buffer in
      let ys = map (λ (s : FeatureSample F). s.y) e.training_buffer in
      let labels : length ys ≡ length xs = omega (
        arith,
        length-map e.training_buffer (λ (s : FeatureSample F). s.x),
        length-map e.training_buffer (λ (s : FeatureSample F). s.y),
      ) in
      Gives-if (ltb (length e.training_buffer) e.min_samples) (λ _. gives r)
        λ _.
          Gives-if (ltb (now - e.last_retrain) e.retrain_interval) (λ _. gives r)
            λ _.
              Gives-bind
                (map_ok-Gives (fit xs ys) e.models
                  (λ m p.
                    fit-Gives width xs ys m h (rows_of width e.training_buffer r.samples) labels p)
                  r.models)
                (λ models p. gives (record { models = p.1; samples = r.samples }))

  pub predict-Gives :
      (width : ℕ) (x : List F) (e : Ensemble F)
      → length x ≡ width
      → IsReady width e
      → Returns (predict e x)
  unfolding predict
  predict-Gives width x e hx r =
      Gives-if (not e.trained) (λ _. gives tt)
        λ _.
          Gives-bind
            (map_ok-Gives (predict_one x) e.models (λ m p. predict_one-Gives width x m hx p)
              r.models)
            (λ ps _. gives tt)

  call-Gives :
      (width : ℕ) (c : Call F) (e : Ensemble F)
      → 0 < width
      → HasWidth width c
      → IsReady width e
      → Gives (IsReady width) (call c e)
  unfolding call
  call-Gives width (sample x profitable) e h hc r =
      gives (add_sample-IsReady width x profitable e hc r)
  call-Gives width (retrain now) e h hc r = maybe_retrain-Gives width now e h r
  call-Gives width (ask x) e h hc r = Gives-bind (predict-Gives width x e hc r) (λ _ _. gives r)

  calls-Gives :
      (width : ℕ) (cs : List (Call F)) (e : Ensemble F)
      → 0 < width
      → All (HasWidth width) cs
      → IsReady width e
      → Gives (IsReady width) (calls cs e)
  unfolding calls
  calls-Gives width [] e h hc r = gives r
  calls-Gives width (c ∷ cs) e h hc r =
      Gives-bind (call-Gives width c e h hc.0 r) (λ e' r'. calls-Gives width cs e' h hc.1 r')

  -- On a new ensemble any sequence of calls, of AddSample, MaybeRetrain and Predict with rows of one
  -- width that is not 0, comes back without a panic, and leaves models that fit that width.
  pub new_ensemble-calls :
      (width : ℕ) (cs : List (Call F)) (min_conf : F) (interval : Duration)
      → 0 < width
      → All (HasWidth width) cs
      → Gives (IsReady width) (calls cs (new_ensemble min_conf interval))
  unfolding new_ensemble new_logistic new_boost
  new_ensemble-calls width cs min_conf interval h hc =
      calls-Gives width cs (new_ensemble min_conf interval) h hc
        (record { models = (tt, (tt, tt)); samples = tt })
