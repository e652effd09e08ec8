-- ===== src/CircuitBreaker/Recovery.antt =====
-- How an open circuit rejects, and how it recovers.
use helix_memory.Prelude.{◌≡◌, ◌≢◌, All, refl, true, List, [], ◌∷◌, some, arith}
use helix_memory.Prelude.Int.{ℤ, sub_ℕ, ◌≤ℤ◌, ◌<ℤ◌}
use helix_memory.Types.{Instant}
use helix_memory.CircuitBreaker.{
  closed, open_circuit, half_open, CircuitBreaker, Call, allowing, succeeding, failing, resetting,
  step, run,
}

-- A call that can come while a circuit is open and its timeout, counted from `last`, is not over.
abbrev pub IsEarly : (timeout : ℤ) (last : Instant) → Call → Type 0
IsEarly timeout last (allowing now changed) = sub_ℕ now last ≤ℤ timeout
IsEarly timeout last (succeeding changed) = Unit
IsEarly timeout last (failing now changed) = ⊥
IsEarly timeout last (resetting changed) = ⊥

-- Calls all of which are early, each of them refused if it asks to be allowed.
abbrev pub AllRefused : CircuitBreaker → List Call → Type 0
AllRefused cb [] = Unit
AllRefused cb (c ∷ cs) = ((step cb c).1 ≢ some true) × AllRefused (step cb c).0 cs

early_unchanged :
    (cb : CircuitBreaker) (c : Call)
    → cb.state ≡ open_circuit
    → IsEarly cb.timeout cb.last_failure c
    → (step cb c).0 ≡ cb
unfolding step
early_unchanged cb (allowing now changed) s h = ground arith
early_unchanged cb (succeeding changed) s h = ground arith
early_unchanged cb (failing now changed) s h = absurd h
early_unchanged cb (resetting changed) s h = absurd h

early_refused :
    (cb : CircuitBreaker) (c : Call)
    → cb.state ≡ open_circuit
    → IsEarly cb.timeout cb.last_failure c
    → (step cb c).1 ≢ some true
unfolding step
early_refused cb (allowing now changed) s h = ground arith
early_refused cb (succeeding changed) s h = ground arith
early_refused cb (failing now changed) s h = absurd h
early_refused cb (resetting changed) s h = absurd h

-- While a circuit is open and its timeout is not over, whatever successes are reported late, every
-- `Allow` is refused and the breaker does not change.
pub open_refuses :
    (cb : CircuitBreaker) (cs : List Call)
    → cb.state ≡ open_circuit
    → All (IsEarly cb.timeout cb.last_failure) cs
    → AllRefused cb cs × (run cb cs ≡ cb)
unfolding run
open_refuses cb [] s h = (tt, refl)
open_refuses cb (c ∷ cs) s h =
    let same : (step cb c).0 ≡ cb = early_unchanged cb c s h.0 in
    rw same ((early_refused cb c s h.0, (open_refuses cb cs s h.1).0), (open_refuses cb cs s h.1).1)

-- When the timeout is over, the next `Allow` is granted and the circuit is half open; two
-- successes then close it with no failure on record, and a failure before the second success
-- opens it again, to wait from that failure on.
pub recovers :
    (cb : CircuitBreaker) (now changed t u : Instant)
    → cb.state ≡ open_circuit
    → cb.half_open_max ≡ 2
    → cb.timeout <ℤ sub_ℕ now cb.last_failure
    → let probed = (step cb (allowing now changed)).0 in
      ((step cb (allowing now changed)).1 ≡ some true)
      × (probed.state ≡ half_open)
      × ((run probed (succeeding t ∷ succeeding u ∷ [])).state ≡ closed)
      × ((run probed (succeeding t ∷ succeeding u ∷ [])).failures ≡ 0)
      × ((run probed (failing t u ∷ [])).state ≡ open_circuit)
      × ((run probed (succeeding now ∷ failing t u ∷ [])).state ≡ open_circuit)
      × ((run probed (succeeding now ∷ failing t u ∷ [])).last_failure ≡ t)
unfolding run step
recovers cb now changed t u s m h = ground arith
