-- ===== src/Clients/Cognee/Entries.antt =====
-- pkg/clients/cognee/client.go: the conversions between entries and what Cognee sends and reads.
use helix_memory.Prelude.{
  String, str_eq, List, [], ◌∷◌, Option, none, some, Dict, lookup, insert, if◌then◌else◌,
}
use helix_memory.Prelude.Int.{pos, leb_ℤ}
use helix_memory.Runtime.{Floats}
use helix_memory.Types.{MemoryEntry, SearchRequest, Value, text}
use helix_memory.Types.MemoryType
use helix_memory.Types.MemorySource
use helix_memory.Clients.{Http, Session, read_clock}
use helix_memory.Clients.Answers.{made_map, id_or_new}
use helix_memory.Clients.Cognee.Wire.{
  AddRequest, CogneeSearchRequest, CogneeSearchResult, Connection, CogneeJson,
}

-- `s, ok := v.(string)`
abbrev pub text_or : {fl : Floats} → (otherwise : String) → Option (Value fl) → String
text_or otherwise (some (text s)) = s
text_or otherwise v = otherwise

abbrev pub text_list : {fl : Floats} → Option (Value fl) → List String
text_list (some (text s)) = s ∷ []
text_list v = []

unfoldable pub add_request : {fl : Floats} → MemoryEntry fl → AddRequest fl
unfolding lookup
add_request entry = record {
  content = entry.content;
  data_type = "text";
  dataset_id = text_or "" (lookup "cognee_dataset_id" (made_map entry.metadata));
  metadata = entry.metadata;
}

unfoldable pub search_request : {fl : Floats} → SearchRequest fl → CogneeSearchRequest
unfolding lookup
search_request req = record {
  query = req.query;
  search_type = text_or "GRAPH_COMPLETION" (lookup "search_type" (made_map req.filter));
  top_k = if leb_ℤ req.top_k (pos 0) then pos 10 else req.top_k;
  dataset_ids = text_list (lookup "dataset_id" (made_map req.filter));
}

abbrev pub insert_unless_empty : {fl : Floats} → String → String → Dict (Value fl) → Dict (Value fl)
insert_unless_empty key s m = let put = insert key (text s) m in if str_eq s "" then m else put

module _ {fl : Floats} (json : CogneeJson fl) where
  with_connections : List (Connection fl) → Dict (Value fl) → Dict (Value fl)
  unfolding insert
  with_connections [] m = m
  with_connections (c ∷ cs) m = insert "cognee_connections" (json.boxed_connections (c ∷ cs)) m

  unfoldable pub result_metadata : CogneeSearchResult fl → Dict (Value fl)
  unfolding with_connections
  result_metadata r = with_connections r.connections (
      insert_unless_empty "cognee_dataset_id" r.dataset_id
        (insert_unless_empty "cognee_node_type" r.node_type (made_map r.metadata)))

module _ {fl : Floats} {http : Http fl} (json : CogneeJson fl) where
  unfoldable pub to_memory_entry :
      Session http → CogneeSearchResult fl → Session http × MemoryEntry fl
  unfolding read_clock id_or_new result_metadata
  to_memory_entry s r =
      let (s1, created_at) = read_clock s in
      let (s2, updated_at) = read_clock s1 in
      let (s3, id) = id_or_new s2 r.id in
      (
        s3,
        record {
          id = id;
          content = r.content;
          type = MemoryType.graph;
          source = MemorySource.cognee;
          confidence = fl.decimal 80 2;
          relevance = r.score;
          metadata = some (result_metadata json r);
          embedding = [];
          user_id = "";
          session_id = "";
          agent_id = "";
          tags = [];
          created_at = created_at;
          updated_at = updated_at;
          expires_at = none;
          access_count = pos 0;
          last_access = 0;
        },
      )

  unfoldable pub to_entries :
      Session http → List (CogneeSearchResult fl) → Session http × List (MemoryEntry fl)
  unfolding to_memory_entry
  to_entries s [] = (s, [])
  to_entries s (r ∷ rs) =
      let (s1, e) = to_memory_entry s r in let (s2, es) = to_entries s1 rs in (s2, e ∷ es)
