-- ===== src/Samples/Breaker.antt =====
-- A circuit breaker with a threshold of three failures and a timeout of 100 ns.
use helix_memory.Prelude.{◌≡◌, refl, true, false, List, [], ◌∷◌, some, arith, Bool}
use helix_memory.Prelude.Int.{pos}
use helix_memory.Types.{Instant}
use helix_memory.CircuitBreaker.{
  CircuitBreaker, closed, open_circuit, half_open, Call, allowing, succeeding, failing, new, step,
  run,
}
use helix_memory.CircuitBreaker.Invariant.{IsValid, run-IsValid}
use helix_memory.CircuitBreaker.Streak.{report, trips_on_streak}
use helix_memory.CircuitBreaker.Recovery.{recovers}

abbrev fresh : CircuitBreaker
fresh = new (pos 3) (pos 100) 0

abbrev failures : List Call
failures = failing 10 10 ∷ failing 20 20 ∷ failing 30 30 ∷ []

abbrev outcomes : List (Bool × Instant)
outcomes = (false, 10) ∷ (true, 20) ∷ (false, 30) ∷ (false, 40) ∷ (false, 50) ∷ []

abbrev tripped : CircuitBreaker
tripped = record {
  state = open_circuit;
  failures = 3;
  threshold = pos 3;
  timeout = pos 100;
  last_failure = 30;
  last_state_change = 30;
  half_open_success = 0;
  half_open_max = 2;
}

run_trips : run fresh failures ≡ tripped
unfolding run step new
run_trips = refl

run-IsValid_example : IsValid (run fresh failures)
run-IsValid_example = run-IsValid (pos 3) (pos 100) 0 failures (omega arith)

trips_on_streak_example : (run fresh (report outcomes)).state ≡ open_circuit
trips_on_streak_example = trips_on_streak 3 (pos 100) 0 outcomes (omega arith)

recovers_example :
    let probed = (step tripped (allowing 200 201)).0 in
    ((step tripped (allowing 200 201)).1 ≡ some true)
    × (probed.state ≡ half_open)
    × ((run probed (succeeding 210 ∷ succeeding 220 ∷ [])).state ≡ closed)
    × ((run probed (succeeding 210 ∷ succeeding 220 ∷ [])).failures ≡ 0)
    × ((run probed (failing 210 220 ∷ [])).state ≡ open_circuit)
    × ((run probed (succeeding 200 ∷ failing 210 220 ∷ [])).state ≡ open_circuit)
    × ((run probed (succeeding 200 ∷ failing 210 220 ∷ [])).last_failure ≡ 210)
recovers_example = recovers tripped 200 201 210 220 refl refl (omega arith)
