-- ===== src/Clients/Graphiti/Wire.antt =====
-- pkg/clients/graphiti/client.go: what the Graphiti client sends and reads.
use helix_memory.Prelude.{String, List, Option, Dict}
use helix_memory.Prelude.Int.{ℤ}
use helix_memory.Runtime.{Floats}
use helix_memory.Types.{Instant, Value}

pub record Episode : Type 0 where
  pub id : String
  pub name : String
  pub content : String
  pub source : String
  pub created_at : Instant
  pub valid_at : Instant

pub record Node (fl : Floats) : Type 0 where
  pub id : String
  pub name : String
  pub summary : String
  pub labels : List String
  pub created_at : Instant
  pub properties : Option (Dict (Value fl))

pub record Edge : Type 0 where
  pub id : String
  pub source_id : String
  pub target_id : String
  pub name : String
  pub fact : String
  pub created_at : Instant
  pub valid_at : Instant
  pub invalid_at : Option Instant

pub record GraphitiSearchRequest : Type 0 where
  pub query : String
  pub limit : ℤ
  pub center_at : Option Instant

pub record GraphitiSearchResponse (fl : Floats) : Type 0 where
  pub nodes : List (Node fl)
  pub edges : List Edge

-- What the calls marshal; the last is the map with the instant under `invalid_at`.
pub data Payload : Type 0 where
  episode : Episode → Payload
  searching : GraphitiSearchRequest → Payload
  invalid_map : Instant → Payload

pub record GraphitiJson (fl : Floats) : Type 0 where
  pub marshal : Payload → Option String
  pub decode_search : String → Option (GraphitiSearchResponse fl)
  pub decode_node : String → Option (Node fl)
