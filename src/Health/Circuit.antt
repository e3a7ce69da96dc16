-- ===== src/Health/Circuit.antt =====
-- internal/health/monitor.go, `CircuitBreaker`. Each method is one step: the monitor's clients call
-- them one after another.
pub mod Trips
pub mod Recovery
use coinex_bot.Prelude.{ℕ, ◌+◌, ◌%◌, ◌^◌, Bool, true, false, List, [], ◌∷◌, if◌then◌else◌, leb}
use coinex_bot.Models.{Time, Duration}

pub data CircuitState : Type 0 where
  circuit_closed circuit_open circuit_half_open : CircuitState

-- The counters are `int32`, held as their bit patterns.
pub record CircuitBreaker : Type 0 where
  pub state : CircuitState
  pub failure_count : ℕ
  pub success_count : ℕ
  pub last_failure : Time
  pub threshold : ℕ
  pub reset_timeout : Duration
  pub half_open_probes : ℕ

abbrev pub i32 : ℕ → ℕ
i32 n = n % 2 ^ 32

-- `a >= b` of two `int32`: the bit patterns with the sign bit flipped.
abbrev pub ge_i32 : ℕ → ℕ → Bool
ge_i32 a b = leb (i32 (b + 2 ^ 31)) (i32 (a + 2 ^ 31))

unfoldable pub new_circuit_breaker : ℕ → Duration → CircuitBreaker
new_circuit_breaker threshold reset_timeout = record {
  state = circuit_closed;
  failure_count = 0;
  success_count = 0;
  last_failure = 0;
  threshold = i32 threshold;
  reset_timeout = reset_timeout;
  half_open_probes = 3;
}

abbrev allow_in : CircuitState → Time → CircuitBreaker → CircuitBreaker × Bool
allow_in circuit_closed now cb = (cb, true)
allow_in circuit_open now cb =
    if leb (cb.last_failure + cb.reset_timeout) now
    then (record cb { state = circuit_half_open; success_count = 0 }, true)
    else (cb, false)
allow_in circuit_half_open now cb = (cb, true)

-- The swap from open to half-open cannot fail, since nothing comes between the test and the swap.
unfoldable pub allow : Time → CircuitBreaker → CircuitBreaker × Bool
allow now cb = allow_in cb.state now cb

abbrev success_in : CircuitState → CircuitBreaker → CircuitBreaker
success_in circuit_half_open cb =
    let n = i32 (cb.success_count + 1) in
    if ge_i32 n cb.half_open_probes
    then record cb { success_count = n; state = circuit_closed }
    else record cb { success_count = n }
success_in _ cb = cb

unfoldable pub record_success : CircuitBreaker → CircuitBreaker
record_success cb = success_in cb.state (record cb { failure_count = 0 })

unfoldable pub record_failure : Time → CircuitBreaker → CircuitBreaker
record_failure now cb =
    let n = i32 (cb.failure_count + 1) in
    if ge_i32 n cb.threshold
    then record cb { last_failure = now; failure_count = n; state = circuit_open }
    else record cb { last_failure = now; failure_count = n }

unfoldable pub reset : CircuitBreaker → CircuitBreaker
reset cb = record cb { state = circuit_closed; failure_count = 0; success_count = 0 }

-- The calls on a breaker, with the times at which they are made.
pub data Call : Type 0 where
  asks : Time → Call
  succeeds : Call
  fails : Time → Call
  resets : Call

unfoldable pub step : CircuitBreaker → Call → CircuitBreaker
step cb (asks now) = (allow now cb).0
step cb succeeds = record_success cb
step cb (fails now) = record_failure now cb
step cb resets = reset cb

unfoldable pub run : CircuitBreaker → List Call → CircuitBreaker
run cb [] = cb
run cb (c ∷ cs) = run (step cb c) cs
