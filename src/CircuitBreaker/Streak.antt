-- ===== src/CircuitBreaker/Streak.antt =====
-- When the circuit trips, against an independent description: the longest run of failures.
use Prim.Native.Nat.{max}
use helix_memory.Prelude.{
  ℕ, suc, ◌+◌, ◌≤◌, ◌<◌, ◌≡◌, Bool, true, false, List, [], ◌∷◌, map, arith, if◌then◌else◌, leb,
}
use helix_memory.Prelude.Int.{ℤ, pos}
use helix_memory.Types.{Instant}
use helix_memory.CircuitBreaker.{
  closed, open_circuit, CircuitBreaker, Call, succeeding, failing, new, step, run,
}

-- The outcome of an operation, at an instant: `true` for a success.
abbrev pub call : Bool → Instant → Call
call true t = succeeding t
call false t = failing t t

abbrev pub report : List (Bool × Instant) → List Call
report = map (λ o. call o.0 o.1)

-- The failures at the front, and the longest run of failures anywhere.
abbrev pub leading : List (Bool × Instant) → ℕ
leading [] = 0
leading ((true, t) ∷ os) = 0
leading ((false, t) ∷ os) = suc (leading os)

abbrev pub longest : List (Bool × Instant) → ℕ
longest [] = 0
longest ((true, t) ∷ os) = longest os
longest ((false, t) ∷ os) = max (suc (leading os)) (longest os)

-- Reports alone leave a tripped circuit open.
run_open :
    (cb : CircuitBreaker) (os : List (Bool × Instant))
    → cb.state ≡ open_circuit
    → (run cb (report os)).state ≡ open_circuit
unfolding run
run_open cb [] h = h
run_open cb ((true, t) ∷ os) h =
    run_open (step cb (succeeding t)).0 os (unfold step in ground arith)
run_open cb ((false, t) ∷ os) h =
    run_open (step cb (failing t t)).0 os (unfold step in ground arith)

leading-le-longest : (os : List (Bool × Instant)) → leading os ≤ longest os
leading-le-longest [] = omega arith
leading-le-longest ((true, t) ∷ os) = omega arith
leading-le-longest ((false, t) ∷ os) = omega arith

success_in_closed :
    (cb : CircuitBreaker) (at : Instant)
    → cb.state ≡ closed
    → let next = (step cb (succeeding at)).0 in
      (next.state ≡ closed) × (next.failures ≡ 0) × (next.threshold ≡ cb.threshold)
unfolding step
success_in_closed cb at s = ground arith

failure_in_closed :
    (cb : CircuitBreaker) (at : Instant) (n : ℕ)
    → cb.state ≡ closed
    → cb.threshold ≡ pos n
    → let next = (step cb (failing at at)).0 in
      (next.state ≡ (if leb n (suc cb.failures) then open_circuit else closed))
      × (next.failures ≡ suc cb.failures)
      × (next.threshold ≡ cb.threshold)
unfolding step
failure_in_closed cb at n s t = ground arith

-- From a closed circuit with `failures` on record.
run_closed :
    (cb : CircuitBreaker) (os : List (Bool × Instant)) (n : ℕ)
    → cb.state ≡ closed
    → cb.threshold ≡ pos n
    → cb.failures < n
    → (run cb (report os)).state
      ≡ (if leb n (max (cb.failures + leading os) (longest os)) then open_circuit else closed)
unfolding run
run_closed cb [] n s t f = ground arith
run_closed cb ((true, at) ∷ os) n s t f = ground (
  arith,
  success_in_closed cb at s,
  run_closed (step cb (succeeding at)).0 os n,
  leading-le-longest os,
)
run_closed cb ((false, at) ∷ os) n s t f = ground (
  arith,
  failure_in_closed cb at n s t,
  run_closed (step cb (failing at at)).0 os n,
  run_open (step cb (failing at at)).0 os,
  leading-le-longest os,
)

-- The circuit of a new breaker with a positive threshold is open after a sequence of reports
-- exactly when the sequence has `threshold` failures in a row, and closed otherwise.
pub trips_on_streak :
    (n : ℕ) (timeout : ℤ) (now : Instant) (os : List (Bool × Instant))
    → 0 < n
    → (run (new (pos n) timeout now) (report os)).state
      ≡ (if leb n (longest os) then open_circuit else closed)
unfolding new
trips_on_streak n timeout now os h =
    ground (arith, run_closed (new (pos n) timeout now) os n, leading-le-longest os)
