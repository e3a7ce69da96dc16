-- ===== src/Ml.antt =====
-- internal/ml/ensemble.go: `Features` are what the models read, `Logistic` and `Boost` the two models,
-- `Ensemble` the samples, the retraining and the vote. `Window` is about the samples, `Training` about
-- the models, `Runs` about sequences of calls, and `Answers` about the strategy on the ensemble.
pub mod Features
pub mod Logistic
pub mod Boost
pub mod Ensemble
pub mod Window
pub mod Training
pub mod Runs
pub mod Answers
mod Tests
