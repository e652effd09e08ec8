-- ===== src/Clients/Graphiti.antt =====
-- pkg/clients/graphiti/client.go, over the parameters of Clients.antt. An instant that the code would
-- move before the epoch is 0.
pub mod Wire
pub mod Entries
use helix_memory.Prelude.{
  ℕ, ◌+◌, ◌-◌, ◌*◌, ◌/◌, String, str_append, str_eq, List, [], ◌∷◌, ◌++◌, Option, none, some, Dict,
  insert, if◌then◌else◌, leb,
}
use helix_memory.Prelude.Int.{ℤ, pos, leb_ℤ}
use helix_memory.Runtime.{Floats}
use helix_memory.Types.{
  MemoryEntry, SearchRequest, SearchResult, TimeRange, Instant, Value, text, texts, time,
  default_search_request,
}
use helix_memory.Types.MemoryType
use helix_memory.Types.MemorySource
use helix_memory.Types.Provider.{MemoryProvider, Error, Result, ok, err}
use helix_memory.Clients.{
  Request, Http, Settings, Session, no_body, marshalled, joined, done_by_status, done_or_missing,
  decoded_by, decoded_or_missing, error_of, map_ok, read_clock, with_body, if_allowed, guarded_call,
  unguarded_call, validate_id,
}
use helix_memory.Clients.Answers.{id_or_new, search_result, pointed, if_valid}
use helix_memory.Clients.Graphiti.Wire.{
  Episode, Node, Edge, GraphitiSearchRequest, GraphitiSearchResponse, episode, searching,
  invalid_map, GraphitiJson,
}
use helix_memory.Clients.Graphiti.Entries.{
  episode_of, search_request, graph_entry, node_content, edge_entries, node_entries,
}

abbrev pub request : Settings → (method : String) → (path : List String) → Option String → Request
request cfg method path none = record {
  method = method;
  url = joined (cfg.endpoint ∷ path);
  headers = [];
  body = none;
}
request cfg method path (some body) = record {
  method = method;
  url = joined (cfg.endpoint ∷ path);
  headers = ("Content-Type", "application/json") ∷ [];
  body = some body;
}

module _ {fl : Floats} {http : Http fl} where
  unfoldable pub entries_after :
      Session http × Result (GraphitiSearchResponse fl)
      → Session http × Result (List (MemoryEntry fl))
  unfolding edge_entries node_entries
  entries_after (s, err e) = (s, err e)
  entries_after (s, ok r) =
      let (s', nodes) = node_entries s r.nodes in (s', ok (edge_entries r.edges ++ nodes))

  unfoldable pub node_after :
      Session http × Result (Node fl) → Session http × Result (Option (MemoryEntry fl))
  node_after (s, err e) = (s, err e)
  node_after (s, ok n) = (
    s,
    ok (some (graph_entry fl n.id (node_content n) (fl.decimal 85 2) n.properties n.created_at)),
  )

  unfoldable pub entries_found :
      Session http × Result (SearchResult fl) → Session http × Result (List (MemoryEntry fl))
  entries_found (s, r) = (s, map_ok (λ found. found.entries) r)

-- A day has 86400 seconds.
abbrev pub day : ℕ
day = 86400 * 1000000000

module _ {fl : Floats} {http : Http fl} (cfg : Settings) (json : GraphitiJson fl) where
  unfoldable pub add : Session http → MemoryEntry fl → Session http × Option Error
  add s entry =
      let (s', r) =
        guarded_call done_by_status s (request cfg "POST" ("/v1/episodes" ∷ []))
          (marshalled (json.marshal (episode (episode_of entry)))) in
      (s', error_of r)

  unfoldable pub search : Session http → SearchRequest fl → Session http × Result (SearchResult fl)
  unfolding search_request
  search s req = if_allowed s (λ s1.
      let (s2, start) = read_clock s1 in
      search_result MemorySource.graphiti start (
        entries_after (
          with_body (decoded_by json.decode_search) s2 (request cfg "POST" ("/v1/search" ∷ []))
            (marshalled (json.marshal (searching (search_request req)))))))

  unfoldable pub get : Session http → String → Session http × Result (Option (MemoryEntry fl))
  get s id = if_valid s (validate_id http id) (
      node_after (
        guarded_call (decoded_or_missing json.decode_node) s
          (request cfg "GET" ("/v1/nodes/" ∷ id ∷ [])) no_body))

  -- Update adds a new episode.
  unfoldable pub update : Session http → MemoryEntry fl → Session http × Option Error
  update s entry = add s entry

  unfoldable pub delete : Session http → String → Session http × Option Error
  delete s id =
      let (s', r) =
        if_valid s (validate_id http id) (
          guarded_call done_or_missing s (request cfg "DELETE" ("/v1/nodes/" ∷ id ∷ [])) no_body) in
      (s', error_of r)

  unfoldable pub get_history :
      Session http
      → (user_id : String) → (limit : ℤ) → Session http × Result (List (MemoryEntry fl))
  get_history s user_id limit =
      entries_found
        (search s (record (default_search_request fl "*") { user_id = user_id; top_k = limit }))

  unfoldable pub search_temporal :
      Session http
      → (query : String) → (at : Instant) → Session http × Result (List (MemoryEntry fl))
  search_temporal s query at =
      let range : TimeRange = record { start = at - day; end = at + day } in
      entries_found
        (search s (record (default_search_request fl query) { time_range = some range }))

  unfoldable pub get_timeline :
      Session http
      → (user_id : String) → (start end : Instant) → Session http × Result (List (MemoryEntry fl))
  get_timeline s user_id start end =
      let range : TimeRange = record { start = start; end = end } in
      entries_found (
        search s (record (default_search_request fl "*") {
          user_id = user_id;
          top_k = pos 100;
          time_range = some range;
        }))

  -- The identifier is not validated.
  unfoldable pub invalidate_at :
      Session http → (id : String) → (at : Instant) → Session http × Option Error
  invalidate_at s id at =
      let (s', r) =
        guarded_call done_by_status s (request cfg "PATCH" ("/v1/edges/" ∷ id ∷ []))
          (marshalled (json.marshal (invalid_map at))) in
      (s', error_of r)

  unfoldable pub health : Session http → Session http × Option Error
  health s =
      let (s', r) = unguarded_call done_by_status s (request cfg "GET" ("/v1/health" ∷ []) none) in
      (s', error_of r)

-- The client as a memory system of the engine.
abbrev pub provider :
    {fl : Floats} → (http : Http fl) → Settings → GraphitiJson fl → MemoryProvider fl
provider http cfg json = record {
  State = Session http;
  add = add cfg json;
  search = λ s req. pointed (search cfg json s req);
  get = get cfg json;
  update = update cfg json;
  delete = delete cfg json;
  get_history = get_history cfg json;
  health = health cfg json;
}
