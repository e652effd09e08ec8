-- ===== src/Clients/Letta/Entries.antt =====
-- pkg/clients/letta/client.go: entries from what Letta answers, and the agent that the client looks for.
use helix_memory.Prelude.{
  ◌-◌, String, str_eq, ◌&&◌, List, [], ◌∷◌, Option, none, some, Dict, if◌then◌else◌, length, drop,
}
use helix_memory.Prelude.Int.{ℤ, pos, ltb_ℤ, pos_part}
use helix_memory.Runtime.{Floats}
use helix_memory.Types.{MemoryEntry, Instant, Value, text}
use helix_memory.Types.MemoryType
use helix_memory.Types.MemorySource
use helix_memory.Clients.Letta.Wire.{CreateAgentRequest, Agent, Message, Passage}

-- An entry with the fields that the conversions set.
abbrev pub letta_entry :
    (fl : Floats) (id content agent_id type : String)
    → Option (Dict (Value fl))
    → (created_at : Instant) → MemoryEntry fl
letta_entry fl id content agent_id type metadata created_at = record {
  id = id;
  content = content;
  type = type;
  source = MemorySource.letta;
  confidence = fl.decimal 0 1;
  relevance = fl.decimal 0 1;
  metadata = metadata;
  embedding = [];
  user_id = "";
  session_id = "";
  agent_id = agent_id;
  tags = [];
  created_at = created_at;
  updated_at = 0;
  expires_at = none;
  access_count = pos 0;
  last_access = 0;
}

abbrev pub passage_entry : (fl : Floats) → Passage → MemoryEntry fl
passage_entry fl p = letta_entry fl p.id p.text "" "" none 0

abbrev pub message_entry : (fl : Floats) → (agent_id : String) → Message → MemoryEntry fl
message_entry fl agent_id m =
    letta_entry fl m.id m.content agent_id MemoryType.episodic (some (("role", text m.role) ∷ []))
      m.created_at

-- `entries[len(entries)-limit:]`, if the limit is positive and less than the length
abbrev pub latest {ℓ} : {A : Type ℓ} → ℤ → List A → List A
latest limit xs =
    if ltb_ℤ (pos 0) limit && ltb_ℤ limit (pos (length xs))
    then drop (length xs - pos_part limit) xs
    else xs

abbrev pub helix_agent : (fl : Floats) → CreateAgentRequest fl
helix_agent fl = record {
  name = "helixmemory";
  description = "";
  system_prompt = "";
  model = "";
  memory_blocks = [];
  tools = [];
  metadata = none;
}

-- The identifier of the first agent of that name.
abbrev pub find_agent : {fl : Floats} → List (Agent fl) → Option String
find_agent [] = none
find_agent (a ∷ agents) =
    let later = find_agent agents in if str_eq a.name "helixmemory" then some a.id else later
