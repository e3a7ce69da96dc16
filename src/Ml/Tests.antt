-- ===== src/Ml/Tests.antt =====
-- internal/ml/ensemble.go at concrete inputs.
use coinex_bot.Prelude.{
  ℕ, ◌≡◌, refl, true, false, List, [], ◌∷◌, arith, map, last_of, replicate, ◌++◌, All-append, bytes,
  All-replicate,
}
use coinex_bot.Prelude.Results.{Gives}
use coinex_bot.Prelude.Int.{ℤ, pos}
use coinex_bot.Number.Whole.{all_finite, whole_decimal, whole_float, whole_convert}
use coinex_bot.Models.{Candle, OrderBook}
use coinex_bot.Strategies.Totals.Outcome.{IsSignalOf}
use coinex_bot.Ml.Ensemble.{new_ensemble, ml_ensemble_signal}
use coinex_bot.Ml.Answers.{calls-ml_ensemble_signal}
use coinex_bot.Ml.Window.{add_samples, labelled, add_samples-window}
use coinex_bot.Ml.Runs.{Call, sample, retrain, ask, HasWidth, IsReady, calls, new_ensemble-calls}

abbrev row : ℕ → List ℤ
row n = pos n ∷ pos 1 ∷ []

add_samples-window_example :
    (add_samples ((row 1, true) ∷ (row 2, false) ∷ []) (new_ensemble (pos 1) 60)).training_buffer
    ≡ last_of 5000 (map labelled ((row 1, true) ∷ (row 2, false) ∷ []))
unfolding new_ensemble
add_samples-window_example =
    add_samples-window ((row 1, true) ∷ (row 2, false) ∷ []) (new_ensemble (pos 1) 60) [] refl

-- Samples enough to train on.
abbrev samples : List (Call ℤ)
samples = replicate 200 (sample (row 1) true)

abbrev rest : List (Call ℤ)
rest = ask (row 5) ∷ retrain 90 ∷ ask (row 3) ∷ []

new_ensemble-calls_example : Gives (IsReady 2) (calls (samples ++ rest) (new_ensemble (pos 1) 60))
new_ensemble-calls_example = new_ensemble-calls 2 (samples ++ rest) (pos 1) 60 (omega arith) (
    All-append (HasWidth 2) samples rest (All-replicate (HasWidth 2) 200 (sample (row 1) true) refl)
      (refl, (tt, (refl, tt))))

abbrev wide : List ℤ
wide = replicate 20 (pos 1)

abbrev trained : List (Call ℤ)
trained = replicate 200 (sample wide true) ++ (retrain 90 ∷ [])

abbrev book : OrderBook ℤ
book = record { market = bytes "BTC"; bids = []; asks = []; updated_at = 0 }

abbrev candle : ℕ → Candle ℤ
candle n = record {
  open_time = 0;
  open_price = pos n;
  high = pos n;
  low = pos n;
  close = pos n;
  volume = pos 1;
  timeframe = bytes "1hour";
}

calls-ml_ensemble_signal_example :
    Gives
      (λ e.
        Gives
          (IsSignalOf {F = ℤ} (bytes "ml_ensemble") 95)
          (ml_ensemble_signal 95 e (replicate 60 (candle 5)) book))
      (calls trained (new_ensemble (pos 1) 60))
calls-ml_ensemble_signal_example =
    calls-ml_ensemble_signal trained (pos 1) 60 95 (replicate 60 (candle 5)) book
      (All-append (HasWidth 20) (replicate 200 (sample wide true)) (retrain 90 ∷ [])
        (All-replicate (HasWidth 20) 200 (sample wide true) refl) (tt, tt))
      (λ mids e. all_finite _) (λ n. refl)
