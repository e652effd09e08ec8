-- ===== src/Clients/Cognee/Wire.antt =====
-- pkg/clients/cognee/client.go: what the Cognee client sends and reads.
use helix_memory.Prelude.{String, List, Option, Dict}
use helix_memory.Prelude.Int.{ℤ}
use helix_memory.Runtime.{Floats}
use helix_memory.Types.{Instant, Value}

pub record AddRequest (fl : Floats) : Type 0 where
  pub content : String
  pub data_type : String
  pub dataset_id : String
  pub metadata : Option (Dict (Value fl))

pub record AddResponse : Type 0 where
  pub id : String
  pub status : String
  pub message : String

pub record CogneeSearchRequest : Type 0 where
  pub query : String
  pub search_type : String
  pub top_k : ℤ
  pub dataset_ids : List String

pub record Connection (fl : Floats) : Type 0 where
  pub target_id : String
  pub relation_type : String
  pub weight : fl.F64

pub record CogneeSearchResult (fl : Floats) : Type 0 where
  pub id : String
  pub content : String
  pub score : fl.F64
  pub node_type : String
  pub metadata : Option (Dict (Value fl))
  pub connections : List (Connection fl)
  pub dataset_id : String

pub record CognifyRequest : Type 0 where
  pub dataset_id : String
  pub data_sources : List String

pub record Dataset : Type 0 where
  pub id : String
  pub name : String
  pub description : String
  pub created_at : Instant
  pub updated_at : Instant

-- What the calls marshal; the last is a map with the arguments under their names.
pub data Payload (fl : Floats) : Type 0 where
  adding : AddRequest fl → Payload fl
  cognifying : CognifyRequest → Payload fl
  searching : CogneeSearchRequest → Payload fl
  dataset_map : (name description : String) → Payload fl

pub record CogneeJson (fl : Floats) : Type 0 where
  pub marshal : Payload fl → Option String
  pub decode_add : String → Option AddResponse
  pub decode_results : String → Option (List (CogneeSearchResult fl))
  pub decode_result : String → Option (CogneeSearchResult fl)
  pub decode_dataset : String → Option Dataset
  pub decode_datasets : String → Option (List Dataset)
  -- the field `status` of what could be decoded of a health answer
  pub health_status : String → String
  -- the list of maps that stands for connections, as a dynamic value
  pub boxed_connections : List (Connection fl) → Value fl
