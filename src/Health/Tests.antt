-- ===== src/Health/Tests.antt =====
-- internal/health/monitor.go at concrete inputs.
use coinex_bot.Prelude.{ℕ, ◌≡◌, ◌≤◌, refl, true, List, [], ◌∷◌, map, arith, bytes}
use coinex_bot.Prelude.Int.{pos, ◌*ℤ◌}
use coinex_bot.Number.Whole.{whole_float}
use coinex_bot.Health.Circuit.{
  CircuitBreaker, circuit_closed, circuit_open, new_circuit_breaker, allow, asks, succeeds, fails,
  resets, run,
}
use coinex_bot.Health.Circuit.Trips.{
  IsSound, new_circuit_breaker-IsSound, run-IsSound, Outcome, success, failure, call_of,
  run-has_streak,
}
use coinex_bot.Health.Circuit.Recovery.{recovers}
use coinex_bot.Health.Errors.{ErrorEvent}
use coinex_bot.Health.Latency.{LatencyTracker}

abbrev trip : List Outcome
trip = failure 1 ∷ success ∷ failure 2 ∷ failure 3 ∷ success ∷ []

run-IsSound_example : IsSound (run (new_circuit_breaker 2 60) (fails 5 ∷ resets ∷ asks 7 ∷ []))
run-IsSound_example = run-IsSound 2 60 (fails 5 ∷ resets ∷ asks 7 ∷ []) (omega arith) (omega arith)

run-has_streak_example : (run (new_circuit_breaker 2 60) (map call_of trip)).state ≡ circuit_open
unfolding new_circuit_breaker
run-has_streak_example =
    run-has_streak (new_circuit_breaker 2 60) trip
      (new_circuit_breaker-IsSound 2 60 (omega arith) (omega arith)) refl

abbrev tripped : CircuitBreaker
tripped = record {
  state = circuit_open;
  failure_count = 2;
  success_count = 0;
  last_failure = 3;
  threshold = 2;
  reset_timeout = 60;
  half_open_probes = 3;
}

tripped-IsSound : IsSound tripped
tripped-IsSound = ground arith

recovers_example :
    let cb' = run tripped (asks 63 ∷ succeeds ∷ asks 64 ∷ succeeds ∷ asks 65 ∷ succeeds ∷ []) in
    ((allow 63 tripped).1 ≡ true) × (cb'.state ≡ circuit_closed) × (cb'.failure_count ≡ 0)
recovers_example = recovers tripped 63 64 65 tripped-IsSound refl (omega arith)

abbrev errors : List ErrorEvent
errors =
    record { ts = 10; msg = bytes "a" }
    ∷ record { ts = 30; msg = bytes "b" }
    ∷ record { ts = 80; msg = bytes "c" }
    ∷ []

abbrev sampled : LatencyTracker
sampled = record { samples = 9 ∷ 4 ∷ []; max_len = 200 }

rank_example :
    (n : ℕ)
    → (whole_float.trunc (pos n *ℤ pos 0) ≤ whole_float.trunc (pos n *ℤ pos 1))
      × (whole_float.trunc (pos n *ℤ pos 1) ≤ n)
unfolding ◌*ℤ◌
rank_example n = ground arith
