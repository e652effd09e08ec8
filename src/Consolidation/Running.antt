-- ===== src/Consolidation/Running.antt =====
-- Start, Stop and cancellation: no order of them closes a channel twice.
use helix_memory.Prelude.{
  ◌≡◌, ◌≢◌, sym, subst, Bool-cases, inl, inr, not, ◌&&◌, refl, Bool, true, false, List, [], ◌∷◌,
  Option, none, some, arith,
}
use helix_memory.Prelude.Int.{ℤ}
use helix_memory.Runtime.{Floats}
use helix_memory.Types.Provider.{MemoryProvider}
use helix_memory.Consolidation.{
  Channel, opened, shut, Engine, new_engine, start, stop, close_channel, loop_cancelled,
}

-- What happens to a running engine, in the order in which the mutex is taken.
pub data Event : Type 0 where
  starting : Event
  stopping : Event
  cancelling : Event

-- A sequence of events from one engine to another; `panicked` is a second close.
pub data Reaches {fl : Floats} {mp : MemoryProvider fl}
    : Engine mp → List Event → Engine mp → Type 0 where
  done : (e : Engine mp) → Reaches e [] e
  started :
      (e e' : Engine mp) (es : List Event)
      → Reaches (start e).0 es e'
      → Reaches e (starting ∷ es) e'
  stopped :
      (e e1 e' : Engine mp) (es : List Event)
      → stop e ≡ some e1
      → Reaches e1 es e'
      → Reaches e (stopping ∷ es) e'
  cancelled :
      (e e' : Engine mp) (es : List Event)
      → Reaches (loop_cancelled e) es e'
      → Reaches e (cancelling ∷ es) e'

abbrev pub is_open : Channel → Bool
is_open opened = true
is_open shut = false

-- While the engine runs, its channel is open, and it is enabled.
abbrev pub IsSound : {fl : Floats} {mp : MemoryProvider fl} → Engine mp → Type 0
IsSound e = (e.running && not (is_open e.stop_ch) ≡ false) × (e.running && not e.enabled ≡ false)

-- No panic, and the engine stays sound.
IsSafe : {fl : Floats} {mp : MemoryProvider fl} → Option (Engine mp) → Type 0
IsSafe none = true ≡ false
IsSafe (some e) = IsSound e

module _ {fl : Floats} {mp : MemoryProvider fl} where
  start-IsSound : (e : Engine mp) → IsSound e → IsSound (start e).0
  unfolding start
  start-IsSound e h = (ground (arith, h.0, h.1), ground (arith, h.0, h.1))

  close_channel-IsSafe :
      (c : Channel) (e : Engine mp) → is_open c ≡ true → IsSafe (close_channel c e)
  unfolding close_channel IsSafe
  close_channel-IsSafe opened e h = (refl, refl)
  close_channel-IsSafe shut e h = sym h

  stop-IsSafe : (e : Engine mp) → IsSound e → IsSafe (stop e)
  unfolding stop IsSafe
  stop-IsSafe e h = elim (Bool-cases e.running) [
    | inl b ↦ rw b (close_channel-IsSafe e.stop_ch _ (ground (arith, h.0, b)))
    | inr b ↦ rw b (refl, refl)
  ]

  Reaches-IsSound : {e e' : Engine mp} {es : List Event} → Reaches e es e' → IsSound e → IsSound e'
  unfolding IsSafe loop_cancelled
  Reaches-IsSound (done e) h = h
  Reaches-IsSound (started e e' es r) h = Reaches-IsSound r (start-IsSound e h)
  Reaches-IsSound (stopped e e1 e' es q r) h = Reaches-IsSound r (subst IsSafe q (stop-IsSafe e h))
  Reaches-IsSound (cancelled e e' es r) h = Reaches-IsSound r (refl, refl)

  stop_safe : (e : Engine mp) → IsSound e → stop e ≢ none
  unfolding IsSafe
  stop_safe e h q = absurd (ground (arith, subst IsSafe q (stop-IsSafe e h)))

  -- In every order of starts, stops and cancellations from a new engine, the next Stop does not
  -- close a closed channel, and an engine that runs is enabled and has an open channel.
  pub stop_never_panics :
      (enabled : Bool) (batch_size : ℤ) {es : List Event} {e : Engine mp}
      → Reaches (new_engine mp enabled batch_size) es e
      → (stop e ≢ none) × IsSound e
  unfolding new_engine
  stop_never_panics enabled batch_size r =
      let sound = Reaches-IsSound r (refl, refl) in (stop_safe _ sound, sound)
