-- ===== src/Clients/Mem0/Wire.antt =====
-- pkg/clients/mem0/client.go: what the Mem0 client sends and reads.
use helix_memory.Prelude.{String, Bool, List, Option, Dict}
use helix_memory.Prelude.Int.{ℤ}
use helix_memory.Runtime.{Floats}
use helix_memory.Types.{Instant, Value}

pub record Memory (fl : Floats) : Type 0 where
  pub id : String
  pub memory : String
  pub user_id : String
  pub agent_id : String
  pub session_id : String
  pub metadata : Option (Dict (Value fl))
  pub categories : List String
  pub created_at : Instant
  pub updated_at : Instant
  pub score : fl.F64

pub record Message : Type 0 where
  pub role : String
  pub content : String

pub record AddMemoryRequest (fl : Floats) : Type 0 where
  pub messages : List Message
  pub user_id : String
  pub agent_id : String
  pub session_id : String
  pub metadata : Option (Dict (Value fl))
  pub categories : List String
  pub immutable : Bool

pub record UpdateMemoryRequest : Type 0 where
  pub memory_id : String
  pub memory : String

pub record SearchMemoryRequest (fl : Floats) : Type 0 where
  pub query : String
  pub user_id : String
  pub agent_id : String
  pub session_id : String
  pub filters : Option (Dict (Value fl))
  pub top_k : ℤ

pub record MemoryHistory : Type 0 where
  pub id : String
  pub memory_id : String
  pub old_value : String
  pub new_value : String
  pub action : String
  pub created_at : Instant

pub record User (fl : Floats) : Type 0 where
  pub id : String
  pub name : String
  pub metadata : Option (Dict (Value fl))
  pub created_at : Instant

pub record Agent (fl : Floats) : Type 0 where
  pub id : String
  pub name : String
  pub config : Option (Dict (Value fl))
  pub metadata : Option (Dict (Value fl))
  pub created_at : Instant

pub record Webhook : Type 0 where
  pub id : String
  pub url : String
  pub name : String
  pub events : List String
  pub headers : Option (Dict String)
  pub status : String
  pub created_at : Instant

-- What the calls marshal; the last three are maps with the arguments under their names.
pub data Payload (fl : Floats) : Type 0 where
  adding : AddMemoryRequest fl → Payload fl
  updating : UpdateMemoryRequest → Payload fl
  searching : SearchMemoryRequest fl → Payload fl
  user_map : (name : String) → (metadata : Option (Dict (Value fl))) → Payload fl
  agent_map : (name : String) → (config : Option (Dict (Value fl))) → Payload fl
  webhook_map : (url name : String) → (events : List String) → Payload fl

pub record Mem0Json (fl : Floats) : Type 0 where
  pub marshal : Payload fl → Option String
  pub decode_memory : String → Option (Memory fl)
  pub decode_memories : String → Option (List (Memory fl))
  -- the field `results` of the answer to a search
  pub decode_results : String → Option (List (Memory fl))
  pub decode_history : String → Option (List MemoryHistory)
  pub decode_user : String → Option (User fl)
  pub decode_agent : String → Option (Agent fl)
  pub decode_webhook : String → Option Webhook
