-- ===== src/Types.antt =====
-- pkg/types/types.go: the data that every part of the program shares. `MemoryType` and
-- `MemorySource` are texts, as in the source, and their constants are texts. A `nil` map is `none`.
-- An instant is a number of nanoseconds, and the zero `time.Time` is 0.
pub mod MemoryType
pub mod MemorySource
pub mod Kinds
pub mod Provider
use helix_memory.Prelude.{ℕ, String, Bool, List, [], Option, none, Dict}
use helix_memory.Prelude.Int.{ℤ, pos}
use helix_memory.Runtime.{Floats}

abbrev pub Instant : Type 0
Instant = ℕ

-- The dynamic values that the program stores under a metadata key; `other` is any other value.
pub data Value (fl : Floats) : Type 0 where
  text : String → Value fl
  texts : List String → Value fl
  int : ℤ → Value fl
  float : fl.F64 → Value fl
  time : Instant → Value fl
  other : ℕ → Value fl

pub record MemoryEntry (fl : Floats) : Type 0 where
  pub id : String
  pub content : String
  pub type : MemoryType.MemoryType
  pub source : MemorySource.MemorySource
  pub confidence : fl.F64
  pub relevance : fl.F64
  pub metadata : Option (Dict (Value fl))
  pub embedding : List fl.F32
  pub user_id : String
  pub session_id : String
  pub agent_id : String
  pub tags : List String
  pub created_at : Instant
  pub updated_at : Instant
  pub expires_at : Option Instant
  pub access_count : ℤ
  pub last_access : Instant

pub record CoreMemoryBlock : Type 0 where
  pub label : String
  pub value : String
  pub limit : ℤ
  pub agent_id : String

pub record TimeRange : Type 0 where
  pub start : Instant
  pub end : Instant

pub record SearchRequest (fl : Floats) : Type 0 where
  pub query : String
  pub user_id : String
  pub session_id : String
  pub agent_id : String
  pub types : List MemoryType.MemoryType
  pub sources : List MemorySource.MemorySource
  pub top_k : ℤ
  pub min_score : fl.F64
  pub time_range : Option TimeRange
  pub filter : Option (Dict (Value fl))

pub record SearchResult (fl : Floats) : Type 0 where
  pub entries : List (MemoryEntry fl)
  pub total : ℕ
  pub duration : ℕ
  pub sources : List MemorySource.MemorySource

pub record FusionResult (fl : Floats) : Type 0 where
  pub entries : List (MemoryEntry fl)
  pub total : ℕ
  pub duration : ℕ
  pub query : String
  pub sources : List MemorySource.MemorySource
  pub source_stats : Dict ℕ
  pub fusion_score : fl.F64

pub record FusionStats : Type 0 where
  pub cognee_healthy : Bool
  pub mem0_healthy : Bool
  pub letta_healthy : Bool
  pub cognee_count : ℤ
  pub mem0_count : ℤ
  pub letta_count : ℤ
  pub timestamp : Instant

-- A request with every field but those given at its zero value; the code builds requests so.
unfoldable pub default_search_request : (fl : Floats) → String → SearchRequest fl
default_search_request fl query = record {
  query = query;
  user_id = "";
  session_id = "";
  agent_id = "";
  types = [];
  sources = [];
  top_k = pos 10;
  min_score = fl.decimal 0 1;
  time_range = none;
  filter = none;
}

-- The zero value of an entry; the code builds entries by the fields that it sets.
abbrev pub zero_entry : (fl : Floats) → MemoryEntry fl
zero_entry fl = record {
  id = "";
  content = "";
  type = "";
  source = "";
  confidence = fl.decimal 0 1;
  relevance = fl.decimal 0 1;
  metadata = none;
  embedding = [];
  user_id = "";
  session_id = "";
  agent_id = "";
  tags = [];
  created_at = 0;
  updated_at = 0;
  expires_at = none;
  access_count = pos 0;
  last_access = 0;
}
