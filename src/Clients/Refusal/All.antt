-- ===== src/Clients/Refusal/All.antt =====
-- The four clients while their circuit breakers allow nothing.
use helix_memory.Prelude.{◌≡◌, false}
use helix_memory.Runtime.{Floats}
use helix_memory.Clients.{Http, Settings, Session, ask_breaker}
use helix_memory.Clients.Refusal.{Refuses, IsQuiet}
use helix_memory.Clients.Refusal.Mem0.{mem0-Refuses}
use helix_memory.Clients.Refusal.Graphiti.{graphiti-Refuses}
use helix_memory.Clients.Refusal.Cognee.{cognee-Refuses}
use helix_memory.Clients.Refusal.Letta.{letta-Refuses}
use helix_memory.Clients.Refusal.Further.{
  Mem0Refuses, GraphitiRefuses, CogneeRefuses, mem0-further, graphiti-further, cognee-further,
}
use helix_memory.Clients.Mem0
use helix_memory.Clients.Mem0.Wire.{Mem0Json}
use helix_memory.Clients.Graphiti
use helix_memory.Clients.Graphiti.Wire.{GraphitiJson}
use helix_memory.Clients.Cognee
use helix_memory.Clients.Cognee.Wire.{CogneeJson}
use helix_memory.Clients.Letta.{Letta}
use helix_memory.Clients.Letta
use helix_memory.Clients.Letta.Wire.{LettaJson}

module _ {fl : Floats} (http : Http fl) (cfg : Settings) where
  -- While the breaker of a client, asked at its reading of the clock, does not allow the call, these
  -- calls fail and send nothing: of all four clients those of the provider interface but Health, and
  -- of Mem0, Graphiti and Cognee all others that send requests. The state that a call leaves is the one before, or
  -- the one after asking the breaker once.
  pub clients_refuse :
      (mem0 : Mem0Json fl) (graphiti : GraphitiJson fl) (cognee : CogneeJson fl)
      (letta : LettaJson fl) (s : Session http) (l : Letta http)
      → (ask_breaker s).1 ≡ false
      → (ask_breaker l.session).1 ≡ false
      → Refuses (Mem0.provider http cfg mem0) s (IsQuiet s)
        × Refuses (Graphiti.provider http cfg graphiti) s (IsQuiet s)
        × Refuses (Cognee.provider http cfg cognee) s (IsQuiet s)
        × Refuses
            (Letta.provider http cfg letta)
            l
            (λ after. after ≡ record l { session = (ask_breaker l.session).0 })
        × Mem0Refuses cfg s mem0
        × GraphitiRefuses cfg s graphiti
        × CogneeRefuses cfg s cognee
  clients_refuse mem0 graphiti cognee letta s l shut closed = (
    mem0-Refuses cfg mem0 s shut,
    graphiti-Refuses cfg graphiti s shut,
    cognee-Refuses cfg cognee s shut,
    letta-Refuses l closed cfg letta,
    mem0-further cfg s shut mem0,
    graphiti-further cfg s shut graphiti,
    cognee-further cfg s shut cognee,
  )
