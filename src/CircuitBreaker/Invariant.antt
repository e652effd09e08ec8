-- ===== src/CircuitBreaker/Invariant.antt =====
-- What holds of a circuit breaker between two calls, and the moves that it makes.
use helix_memory.Prelude.{◌<◌, ◌≡◌, ◌≢◌, List, [], ◌∷◌, arith}
use helix_memory.Prelude.Int.{ℤ, pos, ◌<ℤ◌, ◌≤ℤ◌}
use helix_memory.Types.{Instant}
use helix_memory.CircuitBreaker.{
  CircuitState, closed, open_circuit, half_open, CircuitBreaker, Call, allowing, succeeding,
  failing, resetting, new, step, run,
}

pub record IsValid (cb : CircuitBreaker) : Type 0 where
  pub positive : pos 0 <ℤ cb.threshold
  pub two_probes : cb.half_open_max ≡ 2
  pub below : cb.state ≡ closed → pos cb.failures <ℤ cb.threshold
  pub tripped : cb.state ≢ closed → cb.threshold ≤ℤ pos cb.failures
  pub probing : cb.state ≡ half_open → cb.half_open_success < cb.half_open_max

pub new-IsValid :
    (threshold timeout : ℤ) (now : Instant)
    → pos 0 <ℤ threshold
    → IsValid (new threshold timeout now)
unfolding new
new-IsValid threshold timeout now h = ground arith

pub step-IsValid : (cb : CircuitBreaker) (c : Call) → IsValid cb → IsValid (step cb c).0
unfolding step
step-IsValid cb c v = ground arith

run_keeps_IsValid : (cb : CircuitBreaker) (cs : List Call) → IsValid cb → IsValid (run cb cs)
unfolding run
run_keeps_IsValid cb [] v = v
run_keeps_IsValid cb (c ∷ cs) v = run_keeps_IsValid (step cb c).0 cs (step-IsValid cb c v)

-- A breaker made with a positive threshold is valid after every sequence of calls: while it is
-- closed its failure count is below the threshold, in the other states it is at or above it, and
-- while it is half open fewer than two successes are counted.
pub run-IsValid :
    (threshold timeout : ℤ) (now : Instant) (cs : List Call)
    → pos 0 <ℤ threshold
    → IsValid (run (new threshold timeout now) cs)
run-IsValid threshold timeout now cs h =
    run_keeps_IsValid (new threshold timeout now) cs (new-IsValid threshold timeout now h)

-- The transition diagram: the call that takes each edge.
pub data Move : CircuitState → Call → CircuitState → Type 0 where
  stay : {s : CircuitState} {c : Call} → Move s c s
  trip : {now changed : Instant} → Move closed (failing now changed) open_circuit
  probe : {now changed : Instant} → Move open_circuit (allowing now changed) half_open
  recover : {changed : Instant} → Move half_open (succeeding changed) closed
  relapse : {now changed : Instant} → Move half_open (failing now changed) open_circuit
  restart : {s : CircuitState} {changed : Instant} → Move s (resetting changed) closed

ruleset moves = (stay, trip, probe, recover, relapse, restart)

-- Every call leaves the state as it is or takes the edge of the diagram for that call: only a
-- failure opens the circuit, only `Allow` leads out of the open state to half open, and only a
-- success in the half-open state or a reset closes it.
pub step-Move : (cb : CircuitBreaker) (c : Call) → Move cb.state c (step cb c).0.state
unfolding step
step-Move cb c = grind (arith, moves)
