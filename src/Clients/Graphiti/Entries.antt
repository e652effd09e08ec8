-- ===== src/Clients/Graphiti/Entries.antt =====
-- pkg/clients/graphiti/client.go: the conversions between entries and what Graphiti sends and reads. An
-- instant that the code would move before the epoch is 0.
use helix_memory.Prelude.{
  ◌+◌, ◌-◌, ◌/◌, String, str_append, str_eq, List, [], ◌∷◌, Option, none, some, Dict, insert,
  if◌then◌else◌, leb,
}
use helix_memory.Prelude.Int.{pos, leb_ℤ}
use helix_memory.Runtime.{Floats}
use helix_memory.Types.{MemoryEntry, SearchRequest, TimeRange, Instant, Value, text, texts, time}
use helix_memory.Types.MemoryType
use helix_memory.Types.MemorySource
use helix_memory.Clients.{Http, Session}
use helix_memory.Clients.Answers.{id_or_new}
use helix_memory.Clients.Graphiti.Wire.{Episode, Node, Edge, GraphitiSearchRequest}

abbrev pub episode_of : {fl : Floats} → MemoryEntry fl → Episode
episode_of entry = record {
  id = "";
  name = str_append "memory_" entry.id;
  content = entry.content;
  source = entry.source;
  created_at = 0;
  valid_at = entry.created_at;
}

-- The middle of a time range. Division of a negative duration by 2 rounds toward zero.
abbrev pub center_of : Option TimeRange → Option Instant
center_of none = none
center_of (some r) =
    some (
      if leb r.start r.end
      then r.start + (r.end - r.start) / 2
      else r.start - (r.start - r.end) / 2)

unfoldable pub search_request : {fl : Floats} → SearchRequest fl → GraphitiSearchRequest
search_request req = record {
  query = req.query;
  limit = if leb_ℤ req.top_k (pos 0) then pos 10 else req.top_k;
  center_at = center_of req.time_range;
}

-- An entry with the fields that the conversions set.
abbrev pub graph_entry :
    (fl : Floats) (id content : String) (confidence : fl.F64)
    → Option (Dict (Value fl))
    → (created_at : Instant) → MemoryEntry fl
graph_entry fl id content confidence metadata created_at = record {
  id = id;
  content = content;
  type = MemoryType.temporal;
  source = MemorySource.graphiti;
  confidence = confidence;
  relevance = fl.decimal 0 1;
  metadata = metadata;
  embedding = [];
  user_id = "";
  session_id = "";
  agent_id = "";
  tags = [];
  created_at = created_at;
  updated_at = created_at;
  expires_at = none;
  access_count = pos 0;
  last_access = 0;
}

module _ {fl : Floats} where
  with_invalid_at : Option Instant → Dict (Value fl) → Dict (Value fl)
  unfolding insert
  with_invalid_at none m = m
  with_invalid_at (some at) m = insert "invalid_at" (time at) m

  unfoldable pub edge_entry : Edge → MemoryEntry fl
  unfolding with_invalid_at
  edge_entry edge =
      graph_entry fl edge.id (if str_eq edge.fact "" then edge.name else edge.fact)
        (fl.decimal 85 2)
        (some (
          with_invalid_at edge.invalid_at (
            ("source_node", text edge.source_id)
            ∷ ("target_node", text edge.target_id)
            ∷ ("edge_name", text edge.name)
            ∷ ("valid_at", time edge.valid_at)
            ∷ [])))
        edge.created_at

  abbrev pub node_content : Node fl → String
  node_content node = if str_eq node.summary "" then node.name else node.summary

  unfoldable pub edge_entries : List Edge → List (MemoryEntry fl)
  unfolding edge_entry
  edge_entries [] = []
  edge_entries (e ∷ es) = edge_entry e ∷ edge_entries es

module _ {fl : Floats} {http : Http fl} where
  unfoldable pub node_entry : Session http → Node fl → Session http × MemoryEntry fl
  unfolding id_or_new
  node_entry s node =
      let (s', id) = id_or_new s node.id in
      let metadata = some (
        ("node_name", text node.name)
        ∷ ("labels", texts node.labels)
        ∷ ("properties", http.boxed_map node.properties)
        ∷ []) in
      (s', graph_entry fl id (node_content node) (fl.decimal 80 2) metadata node.created_at)

  unfoldable pub node_entries : Session http → List (Node fl) → Session http × List (MemoryEntry fl)
  unfolding node_entry
  node_entries s [] = (s, [])
  node_entries s (n ∷ ns) =
      let (s1, e) = node_entry s n in let (s2, es) = node_entries s1 ns in (s2, e ∷ es)
