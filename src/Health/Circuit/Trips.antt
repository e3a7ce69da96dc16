-- ===== src/Health/Circuit/Trips.antt =====
-- internal/health/monitor.go, `CircuitBreaker`: what its calls keep, and when the circuit opens.
use coinex_bot.Prelude.{
  ℕ, ◌+◌, ◌^◌, ◌≤◌, ◌<◌, ◌≡◌, inl, inr, Bool, true, false, ◌||◌, List, [], ◌∷◌, map, arith,
  if◌then◌else◌, leb, Bool-cases,
}
use coinex_bot.Models.{Time, Duration}
use coinex_bot.Health.Circuit.{
  CircuitBreaker, circuit_closed, circuit_open, circuit_half_open, new_circuit_breaker, allow,
  record_success, record_failure, reset, Call, asks, succeeds, fails, resets, step, run,
}

-- What holds between two calls, for a threshold that an `int32` holds.
pub record IsSound (cb : CircuitBreaker) : Type 0 where
  pub threshold_pos : 0 < cb.threshold
  pub threshold_fits : cb.threshold < 2 ^ 31
  pub probes : cb.half_open_probes ≡ 3
  pub closed_below : cb.state ≡ circuit_closed → cb.failure_count < cb.threshold
  pub half_open_below : cb.state ≡ circuit_half_open → cb.success_count < 3
  pub success_fits : cb.success_count ≤ 3

pub new_circuit_breaker-IsSound :
    (threshold : ℕ) (timeout : Duration)
    → 0 < threshold
    → threshold < 2 ^ 31
    → IsSound (new_circuit_breaker threshold timeout)
unfolding new_circuit_breaker
new_circuit_breaker-IsSound threshold timeout h k = ground arith

pub step-IsSound : (cb : CircuitBreaker) (c : Call) → IsSound cb → IsSound (step cb c)
unfolding step allow record_success record_failure reset
step-IsSound cb (asks now) v = ground arith
step-IsSound cb succeeds v = ground arith
step-IsSound cb (fails now) v = ground arith
step-IsSound cb resets v = ground arith

run-keeps : (cb : CircuitBreaker) (cs : List Call) → IsSound cb → IsSound (run cb cs)
unfolding run
run-keeps cb [] v = v
run-keeps cb (c ∷ cs) v = run-keeps (step cb c) cs (step-IsSound cb c v)

-- From a new breaker with a threshold from 1 to 2^31 - 1, any calls in any order keep the counters
-- in range: a closed circuit has counted fewer failures than the threshold, a half-open one fewer
-- than three successes.
pub run-IsSound :
    (threshold : ℕ) (timeout : Duration) (cs : List Call)
    → 0 < threshold
    → threshold < 2 ^ 31
    → IsSound (run (new_circuit_breaker threshold timeout) cs)
run-IsSound threshold timeout cs h k =
    run-keeps _ cs (new_circuit_breaker-IsSound threshold timeout h k)

-- The outcomes of operations, as the breaker is told of them.
pub data Outcome : Type 0 where
  success : Outcome
  failure : Time → Outcome

abbrev pub call_of : Outcome → Call
call_of success = succeeds
call_of (failure now) = fails now

-- Whether some `threshold` outcomes in a row are failures, with `n` failures just before.
abbrev pub has_streak : ℕ → ℕ → List Outcome → Bool
has_streak threshold n [] = false
has_streak threshold n (success ∷ os) = has_streak threshold 0 os
has_streak threshold n (failure _ ∷ os) = leb threshold (n + 1) || has_streak threshold (n + 1) os

outcome_open :
    (cb : CircuitBreaker) (o : Outcome)
    → cb.state ≡ circuit_open
    → (step cb (call_of o)).state ≡ circuit_open
unfolding step record_success record_failure
outcome_open cb success h = ground arith
outcome_open cb (failure now) h = ground arith

run_open :
    (cb : CircuitBreaker) (os : List Outcome)
    → cb.state ≡ circuit_open
    → (run cb (map call_of os)).state ≡ circuit_open
unfolding run
run_open cb [] h = h
run_open cb (o ∷ os) h = run_open (step cb (call_of o)) os (outcome_open cb o h)

step_success :
    (cb : CircuitBreaker)
    → cb.state ≡ circuit_closed
    → step cb succeeds ≡ record cb { failure_count = 0 }
unfolding step record_success
step_success cb h = ground arith

step_failure :
    (cb : CircuitBreaker) (now : Time)
    → IsSound cb
    → cb.state ≡ circuit_closed
    → (leb cb.threshold (cb.failure_count + 1) ≡ true → (step cb (fails now)).state ≡ circuit_open)
      × (leb cb.threshold (cb.failure_count + 1) ≡ false
          → step cb (fails now)
            ≡ record cb { last_failure = now; failure_count = cb.failure_count + 1 })
unfolding step record_failure
step_failure cb now v h = (λ e. ground arith, λ e. ground arith)

-- A closed circuit that is told of outcomes opens exactly when as many of them in a row as the
-- threshold says are failures, counted on from the failures already in a row. It then stays open.
pub run-has_streak :
    (cb : CircuitBreaker) (os : List Outcome)
    → IsSound cb
    → cb.state ≡ circuit_closed
    → (run cb (map call_of os)).state
      ≡ (if has_streak cb.threshold cb.failure_count os then circuit_open else circuit_closed)
unfolding run
run-has_streak cb [] v h = h
run-has_streak cb (success ∷ os) v h =
    rw (step_success cb h, run)
      (run-has_streak (record cb { failure_count = 0 }) os (ground arith) h)
run-has_streak cb (failure now ∷ os) v h =
    let (trips, counts) = step_failure cb now v h in
    elim (Bool-cases (leb cb.threshold (cb.failure_count + 1))) [
      | inl e ↦ rw (e, run) (run_open (step cb (fails now)) os (trips e))
      | inr e ↦
          rw (e, counts e, run)
            (run-has_streak (record cb { last_failure = now; failure_count = cb.failure_count + 1 })
              os (ground arith) h)
    ]
