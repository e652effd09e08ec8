-- ===== src/Clients/Trips.antt =====
-- The circuit breakers of three clients against a server that is down.
use helix_memory.Prelude.{ℕ, suc}
use helix_memory.Runtime.{Floats}
use helix_memory.Types.Provider.{MemoryProvider, Operation, adds, searches, gets_history, operate}
use helix_memory.CircuitBreaker.{CircuitBreaker}
use helix_memory.Types.MemorySource
use helix_memory.Clients.Tripping.{Counted}
use helix_memory.Clients.Cognee
use helix_memory.Clients.Mem0
use helix_memory.Clients.Graphiti

-- The operations that send one request without a test of an identifier.
abbrev pub Sends : {fl : Floats} → Operation fl → Type 0
Sends (adds e) = Unit
Sends (searches r) = Unit
Sends (gets_history user_id limit) = Unit
Sends other = ⊥

module _ {fl : Floats} (mp : MemoryProvider fl) (breaker_of : mp.State → CircuitBreaker) where
  -- Each operation that sends is one more failed call.
  abbrev pub CountsFailures : Type 0
  CountsFailures =
      (k n : ℕ) (s : mp.State) (op : Operation fl)
      → Sends op
      → Counted k n (breaker_of s)
      → Counted k (suc n) (breaker_of (operate mp s op))
