-- ===== src/Samples/Data.antt =====
-- Entries, requests and results for the samples.
use helix_memory.Prelude.{ℕ, String, List, [], none}
use helix_memory.Prelude.Int.{pos}
use helix_memory.Types.{MemoryEntry, SearchRequest, SearchResult}
use helix_memory.Types.MemoryType
use helix_memory.Types.MemorySource
use helix_memory.Samples.World.{thousandths}

abbrev pub entry :
    (id content type source : String) (confidence relevance : ℕ) → MemoryEntry thousandths
entry id content type source confidence relevance = record {
  id = id;
  content = content;
  type = type;
  source = source;
  confidence = confidence;
  relevance = relevance;
  metadata = none;
  embedding = [];
  user_id = "";
  session_id = "";
  agent_id = "";
  tags = [];
  created_at = 0;
  updated_at = 0;
  expires_at = none;
  access_count = pos 0;
  last_access = 0;
}

abbrev pub request : (query : String) → SearchRequest thousandths
request query = record {
  query = query;
  user_id = "";
  session_id = "";
  agent_id = "";
  types = [];
  sources = [];
  top_k = pos 2;
  min_score = 0;
  time_range = none;
  filter = none;
}

abbrev pub tea : MemoryEntry thousandths
tea = entry "1" "likes tea" MemoryType.fact MemorySource.mem0 800 500

-- The same content as `tea`, from another system, with less confidence.
abbrev pub tea_again : MemoryEntry thousandths
tea_again = entry "2" "likes tea" MemoryType.fact MemorySource.cognee 600 900

abbrev pub cocoa : MemoryEntry thousandths
cocoa = entry "2" "knows cocoa" MemoryType.core MemorySource.letta 700 400

abbrev pub result : List (MemoryEntry thousandths) → SearchResult thousandths
result entries = record { entries = entries; total = 3; duration = 0; sources = [] }
