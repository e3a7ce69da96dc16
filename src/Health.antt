-- ===== src/Health.antt =====
-- internal/health/monitor.go: the circuit breaker, the error and latency trackers, and the monitor
-- over them. A call of `time.Now` is the argument `now`, one for each method.
pub mod Circuit
pub mod Errors
pub mod Latency
mod Tests
use coinex_bot.Prelude.{
  ℕ, suc, ◌+◌, ◌/◌, ◌%◌, ◌^◌, Bool, true, false, List, [], ◌∷◌, ◌++◌, if◌then◌else◌, ltb, leb, Text,
  bytes,
}
use coinex_bot.Number.{Float}
use coinex_bot.Models.{Time, Duration}
use Circuit.{
  CircuitBreaker, CircuitState, circuit_closed, new_circuit_breaker, record_success, record_failure,
}
use Errors.{ErrorTracker, new_error_tracker, record_event, rate}
use Latency.{LatencyTracker, new_latency_tracker, record_sample}

pub record Config (F : Type 0) : Type 0 where
  pub cb_threshold : ℕ
  pub cb_reset_timeout : Duration
  pub max_error_rate : F
  pub error_window : Duration
  pub tick_timeout : Duration
  pub latency_warn_threshold : Duration

-- What the monitor hands to `alertFn`.
pub data Alert (F : Type 0) : Type 0 where
  high_error_rate : F → Alert F
  no_tick_since : Time → Alert F

pub record Monitor (F : Type 0) : Type 0 where
  pub cfg : Config F
  pub circuit : CircuitBreaker
  pub errors : ErrorTracker
  pub latency : LatencyTracker
  pub last_tick : Time
  -- whether `alertFn` is set
  pub alerting : Bool

abbrev pub second : Duration
second = 10 ^ 9

module _ {F : Type 0} ⦃f : Float F⦄ where
  unfoldable pub default_config : Config F
  default_config = record {
    cb_threshold = 5;
    cb_reset_timeout = 60000000000;
    max_error_rate = f.literal 1 2;
    error_window = 60000000000;
    tick_timeout = 300000000000;
    latency_warn_threshold = 2000000000;
  }

  unfoldable pub new_monitor : Config F → Bool → Monitor F
  unfolding new_circuit_breaker new_error_tracker new_latency_tracker
  new_monitor cfg alerting = record {
    cfg = cfg;
    circuit = new_circuit_breaker cfg.cb_threshold cfg.cb_reset_timeout;
    errors = new_error_tracker cfg.error_window;
    latency = new_latency_tracker 200;
    last_tick = 0;
    alerting = alerting;
  }

  unfoldable pub record_tick : Time → Monitor F → Monitor F
  record_tick now m = record m { last_tick = now; circuit = record_success m.circuit }

  -- With the alerts that are sent.
  unfoldable pub record_error : Time → Text → Monitor F → Monitor F × List (Alert F)
  record_error now msg m =
      let m' = record m {
        errors = record_event now msg m.errors;
        circuit = record_failure now m.circuit;
      } in
      let (errors, r) = rate now m'.errors in
      let m'' = record m' { errors = errors } in
      if f.lt m.cfg.max_error_rate r
      then (m'', if m.alerting then high_error_rate r ∷ [] else [])
      else (m'', [])

  -- The warning of a slow call is a log line only.
  unfoldable pub record_api_latency : Duration → Monitor F → Monitor F
  record_api_latency d m = record m { latency = record_sample d m.latency }

  -- `Run` before its loop.
  unfoldable pub start_watchdog : Time → Monitor F → Monitor F
  start_watchdog now m = record m { last_tick = now }

  -- One firing of the watchdog's ticker.
  unfoldable pub watchdog : Time → Monitor F → List (Alert F)
  watchdog now m =
      if ltb (m.last_tick + m.cfg.tick_timeout) now
      then (if m.alerting then no_tick_since m.last_tick ∷ [] else [])
      else []
