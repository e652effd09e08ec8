-- ===== src/Clients/Mem0/Entries.antt =====
-- pkg/clients/mem0/client.go: the conversions between entries and what Mem0 sends and reads.
use helix_memory.Prelude.{
  String, false, List, [], ◌∷◌, Option, none, some, Dict, lookup, insert, if◌then◌else◌,
}
use helix_memory.Prelude.Int.{pos, leb_ℤ}
use helix_memory.Runtime.{Floats}
use helix_memory.Types.{MemoryEntry, SearchRequest, Value, texts}
use helix_memory.Types.MemoryType
use helix_memory.Types.MemorySource
use helix_memory.Clients.{Http, Session}
use helix_memory.Clients.Answers.{made_map, id_or_new}
use helix_memory.Clients.Mem0.Wire.{Memory, AddMemoryRequest, SearchMemoryRequest}

-- `v.([]string)`, and nil for any other value.
abbrev pub texts_of : {fl : Floats} → Option (Value fl) → List String
texts_of (some (texts ts)) = ts
texts_of v = []

unfoldable pub add_request : {fl : Floats} → MemoryEntry fl → AddMemoryRequest fl
unfolding lookup
add_request entry = record {
  messages = record { role = "user"; content = entry.content } ∷ [];
  user_id = entry.user_id;
  agent_id = entry.agent_id;
  session_id = entry.session_id;
  metadata = entry.metadata;
  categories = texts_of (lookup "categories" (made_map entry.metadata));
  immutable = false;
}

unfoldable pub search_request : {fl : Floats} → SearchRequest fl → SearchMemoryRequest fl
search_request req = record {
  query = req.query;
  user_id = req.user_id;
  agent_id = req.agent_id;
  session_id = req.session_id;
  filters = req.filter;
  top_k = if leb_ℤ req.top_k (pos 0) then pos 10 else req.top_k;
}

unfoldable pub with_categories : {fl : Floats} → List String → Dict (Value fl) → Dict (Value fl)
unfolding insert
with_categories [] m = m
with_categories (c ∷ cs) m = insert "categories" (texts (c ∷ cs)) m

module _ {fl : Floats} {http : Http fl} where
  unfoldable pub to_memory_entry : Session http → Memory fl → Session http × MemoryEntry fl
  unfolding id_or_new with_categories
  to_memory_entry s m =
      let (s', id) = id_or_new s m.id in
      (
        s',
        record {
          id = id;
          content = m.memory;
          type = MemoryType.semantic;
          source = MemorySource.mem0;
          confidence = m.score;
          relevance = m.score;
          metadata = some (with_categories m.categories (made_map m.metadata));
          embedding = [];
          user_id = m.user_id;
          session_id = m.session_id;
          agent_id = m.agent_id;
          tags = [];
          created_at = m.created_at;
          updated_at = m.updated_at;
          expires_at = none;
          access_count = pos 0;
          last_access = 0;
        },
      )

  unfoldable pub to_entries : Session http → List (Memory fl) → Session http × List (MemoryEntry fl)
  unfolding to_memory_entry
  to_entries s [] = (s, [])
  to_entries s (m ∷ ms) =
      let (s1, e) = to_memory_entry s m in let (s2, es) = to_entries s1 ms in (s2, e ∷ es)
