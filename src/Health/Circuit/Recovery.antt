-- ===== src/Health/Circuit/Recovery.antt =====
-- internal/health/monitor.go, `CircuitBreaker`: how an open circuit closes again.
use coinex_bot.Prelude.{◌+◌, ◌<◌, ◌≤◌, ◌≡◌, true, [], ◌∷◌, arith}
use coinex_bot.Models.{Time}
use coinex_bot.Health.Circuit.{
  CircuitBreaker, circuit_closed, circuit_open, circuit_half_open, allow, record_success,
  record_failure, Call, asks, succeeds, fails, resets, step, run,
}
use coinex_bot.Health.Circuit.Trips.{IsSound}

-- Calls that come before the time `until`: requests, and reports of success.
abbrev pub IsEarly : Time → Call → Type 0
IsEarly until (asks now) = now < until
IsEarly until succeeds = Unit {0}
IsEarly until (fails now) = ⊥
IsEarly until resets = ⊥

-- Open, with a last failure whose timeout ends at `until`.
abbrev pub OpenUntil : Time → CircuitBreaker → Type 0
OpenUntil until cb = (cb.state ≡ circuit_open) × (cb.last_failure + cb.reset_timeout ≡ until)

-- The first request after the timeout is let through, and three successes then close the circuit,
-- with requests at any time before each of them.
pub recovers :
    (cb : CircuitBreaker) (now t u : Time)
    → IsSound cb
    → cb.state ≡ circuit_open
    → cb.last_failure + cb.reset_timeout ≤ now
    → let cb' = run cb (asks now ∷ succeeds ∷ asks t ∷ succeeds ∷ asks u ∷ succeeds ∷ []) in
      ((allow now cb).1 ≡ true) × (cb'.state ≡ circuit_closed) × (cb'.failure_count ≡ 0)
unfolding run step allow record_success
recovers cb now t u v h l = ground arith

-- A half-open circuit with a threshold above 1 does not open again on a failure that follows a
-- success: the failure is counted from 0, and the successes counted before it stay.
pub half_open_keeps :
    (cb : CircuitBreaker) (now : Time)
    → IsSound cb
    → cb.state ≡ circuit_half_open
    → 1 < cb.threshold
    → cb.success_count + 1 < 3
    → let cb' = run cb (succeeds ∷ fails now ∷ []) in
      (cb'.state ≡ circuit_half_open)
      × (cb'.success_count ≡ cb.success_count + 1)
      × (cb'.failure_count ≡ 1)
unfolding run step record_success record_failure
half_open_keeps cb now v h k l = ground arith
