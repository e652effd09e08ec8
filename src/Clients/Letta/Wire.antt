-- ===== src/Clients/Letta/Wire.antt =====
-- pkg/clients/letta/client.go: what the Letta client sends and reads.
use helix_memory.Prelude.{String, Bool, List, Option, Dict}
use helix_memory.Prelude.Int.{ℤ}
use helix_memory.Runtime.{Floats}
use helix_memory.Types.{CoreMemoryBlock, Instant, Value}

pub record MemoryBlock : Type 0 where
  pub id : String
  pub name : String
  pub label : String
  pub value : String
  pub limit : ℤ
  pub updated_at : Instant

pub record Tool (fl : Floats) : Type 0 where
  pub id : String
  pub name : String
  pub description : String
  pub source_type : String
  pub source_code : String
  pub json_schema : Option (Dict (Value fl))

pub record Agent (fl : Floats) : Type 0 where
  pub id : String
  pub name : String
  pub description : String
  pub system_prompt : String
  pub model : String
  pub memory_blocks : List MemoryBlock
  pub tools : List (Tool fl)
  pub metadata : Option (Dict (Value fl))
  pub created_at : Instant
  pub updated_at : Instant

pub record Message : Type 0 where
  pub id : String
  pub role : String
  pub content : String
  pub agent_id : String
  pub created_at : Instant

pub record CreateAgentRequest (fl : Floats) : Type 0 where
  pub name : String
  pub description : String
  pub system_prompt : String
  pub model : String
  pub memory_blocks : List MemoryBlock
  pub tools : List (Tool fl)
  pub metadata : Option (Dict (Value fl))

pub record SendMessageRequest : Type 0 where
  pub input : String
  pub agent_id : String
  pub stream : Bool

pub record SendMessageResponse : Type 0 where
  pub id : String
  pub content : String
  pub role : String

pub record Source (fl : Floats) : Type 0 where
  pub id : String
  pub name : String
  pub description : String
  pub type : String
  pub metadata : Option (Dict (Value fl))
  pub created_at : Instant

-- One passage of the archive: the anonymous struct of Get and Search.
pub record Passage : Type 0 where
  pub id : String
  pub text : String

-- What the calls marshal; those in `_map` are maps with the arguments under their names.
pub data Payload (fl : Floats) : Type 0 where
  creating_agent : CreateAgentRequest fl → Payload fl
  sending : SendMessageRequest → Payload fl
  value_map : (value : String) → Payload fl
  source_map : (name description type : String) → (metadata : Option (Dict (Value fl))) → Payload fl
  source_id_map : (source_id : String) → Payload fl
  text_map : (text : String) → Payload fl
  core_block : CoreMemoryBlock → Payload fl

-- `form_file` is the multipart body with one file and its content type, if it can be written.
pub record LettaJson (fl : Floats) : Type 0 where
  pub marshal : Payload fl → Option String
  pub form_file : (filename content : String) → Option (String × String)
  pub decode_agent : String → Option (Agent fl)
  pub decode_agents : String → Option (List (Agent fl))
  pub decode_sent : String → Option SendMessageResponse
  pub decode_messages : String → Option (List Message)
  pub decode_block : String → Option MemoryBlock
  -- the field `memory` of the answer
  pub decode_memory : String → Option (List MemoryBlock)
  pub decode_source : String → Option (Source fl)
  pub decode_passage : String → Option Passage
  pub decode_passages : String → Option (List Passage)
