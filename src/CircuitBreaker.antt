-- ===== src/CircuitBreaker.antt =====
-- pkg/types/circuit_breaker.go. A method returns the new record. Each reading of the clock is an
-- argument: `time.Now()` and `time.Since` in one call may see different instants. The mutex makes
-- every method one atomic step.
pub mod Invariant
pub mod Streak
pub mod Recovery
use helix_memory.Prelude.{
  ℕ, suc, ◌+◌, Bool, true, false, List, [], ◌∷◌, Option, none, some, if◌then◌else◌, leb,
}
use helix_memory.Prelude.Int.{ℤ, pos, sub_ℕ, ltb_ℤ, leb_ℤ}
use helix_memory.Types.{Instant}

pub data CircuitState : Type 0 where
  closed open_circuit half_open : CircuitState

pub record CircuitBreaker : Type 0 where
  pub state : CircuitState
  pub failures : ℕ
  pub threshold : ℤ
  pub timeout : ℤ  -- nanoseconds
  pub last_failure : Instant
  pub last_state_change : Instant
  pub half_open_success : ℕ
  pub half_open_max : ℕ

unfoldable pub new : (threshold timeout : ℤ) (now : Instant) → CircuitBreaker
new threshold timeout now = record {
  state = closed;
  failures = 0;
  threshold = threshold;
  timeout = timeout;
  last_failure = 0;
  last_state_change = now;
  half_open_success = 0;
  half_open_max = 2;
}

-- `time.Since(cb.lastFailure) > cb.timeout`, at the instant `now`
abbrev pub timed_out : CircuitBreaker → Instant → Bool
timed_out cb now = ltb_ℤ cb.timeout (sub_ℕ now cb.last_failure)

allow_in : CircuitState → CircuitBreaker → (now changed : Instant) → CircuitBreaker × Bool
allow_in closed cb now changed = (cb, true)
allow_in open_circuit cb now changed =
    if timed_out cb now
    then (record cb { state = half_open; half_open_success = 0; last_state_change = changed }, true)
    else (cb, false)
allow_in half_open cb now changed = (cb, true)

unfoldable pub allow : CircuitBreaker → (now changed : Instant) → CircuitBreaker × Bool
unfolding allow_in
allow cb now changed = allow_in cb.state cb now changed

success_in : CircuitState → CircuitBreaker → (changed : Instant) → CircuitBreaker
success_in half_open cb changed =
    let counted = record cb { half_open_success = suc cb.half_open_success } in
    if leb cb.half_open_max counted.half_open_success
    then record counted { state = closed; failures = 0; last_state_change = changed }
    else counted
success_in closed cb changed = record cb { failures = 0 }
success_in open_circuit cb changed = cb

unfoldable pub record_success : CircuitBreaker → (changed : Instant) → CircuitBreaker
unfolding success_in
record_success cb changed = success_in cb.state cb changed

failure_in : CircuitState → CircuitBreaker → (changed : Instant) → CircuitBreaker
failure_in closed cb changed =
    if leb_ℤ cb.threshold (pos cb.failures)
    then record cb { state = open_circuit; last_state_change = changed }
    else cb
failure_in half_open cb changed = record cb { state = open_circuit; last_state_change = changed }
failure_in open_circuit cb changed = cb

unfoldable pub record_failure : CircuitBreaker → (now changed : Instant) → CircuitBreaker
unfolding failure_in
record_failure cb now changed =
    failure_in cb.state (record cb { failures = suc cb.failures; last_failure = now }) changed

unfoldable pub reset : CircuitBreaker → (changed : Instant) → CircuitBreaker
reset cb changed = record cb {
  state = closed;
  failures = 0;
  half_open_success = 0;
  last_state_change = changed;
}

-- One call of a method, with what it returns: only `Allow` returns a value that is kept.
pub data Call : Type 0 where
  allowing : (now changed : Instant) → Call
  succeeding : (changed : Instant) → Call
  failing : (now changed : Instant) → Call
  resetting : (changed : Instant) → Call

unfoldable pub step : CircuitBreaker → Call → CircuitBreaker × Option Bool
unfolding allow record_success record_failure reset
step cb (allowing now changed) = let (cb', answer) = allow cb now changed in (cb', some answer)
step cb (succeeding changed) = (record_success cb changed, none)
step cb (failing now changed) = (record_failure cb now changed, none)
step cb (resetting changed) = (reset cb changed, none)

-- The breaker after a sequence of calls, in the order in which they take the mutex.
unfoldable pub run : CircuitBreaker → List Call → CircuitBreaker
run cb [] = cb
run cb (c ∷ cs) = run (step cb c).0 cs
