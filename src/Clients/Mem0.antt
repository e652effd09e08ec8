-- ===== src/Clients/Mem0.antt =====
-- pkg/clients/mem0/client.go, over the parameters of Clients.antt. json.Marshal of what a call sends,
-- and the decoding of each type that a call reads, are fields of `Mem0Json`.
pub mod Wire
pub mod Entries
pub mod Admin
use helix_memory.Prelude.{
  ℕ, ◌-◌, String, str_eq, Bool, true, false, List, [], ◌∷◌, Option, none, some, Dict, lookup,
  insert, if◌then◌else◌, ltb, length,
}
use helix_memory.Prelude.Int.{ℤ, pos, leb_ℤ, ltb_ℤ}
use helix_memory.Runtime.{Floats}
use helix_memory.Types.{MemoryEntry, SearchRequest, SearchResult, Instant, Value, text, texts}
use helix_memory.Types.MemoryType
use helix_memory.Types.MemorySource
use helix_memory.Types.Provider.{MemoryProvider, Error, Result, ok, err}
use helix_memory.Clients.{
  Request, Response, Http, Settings, Session, Verdict, Body, no_body, marshalled, joined,
  done_by_status, done_or_missing, decoded_by, decoded_or_missing, error_of, map_ok, read_clock,
  settle, with_body, if_allowed, guarded_call, unguarded_call, validate_id,
}
use helix_memory.Clients.Answers.{made_map, id_or_new, search_result, pointed, if_valid}
use helix_memory.Clients.Mem0.Wire.{
  Memory, Message, AddMemoryRequest, UpdateMemoryRequest, SearchMemoryRequest, MemoryHistory,
  Payload, adding, updating, searching, Mem0Json,
}
use helix_memory.Clients.Mem0.Entries.{add_request, search_request, to_memory_entry, to_entries}

abbrev pub authorization : Settings → Dict String
authorization cfg = ("Authorization", joined ("Token " ∷ cfg.api_key ∷ [])) ∷ []

-- A request with the client's headers.
abbrev pub request : Settings → (method : String) → (path : List String) → Option String → Request
request cfg method path none = record {
  method = method;
  url = joined (cfg.endpoint ∷ path);
  headers = authorization cfg;
  body = none;
}
request cfg method path (some body) = record {
  method = method;
  url = joined (cfg.endpoint ∷ path);
  headers = ("Content-Type", "application/json") ∷ authorization cfg;
  body = some body;
}

module _ {fl : Floats} {http : Http fl} where
  unfoldable pub entries_after :
      Session http × Result (List (Memory fl)) → Session http × Result (List (MemoryEntry fl))
  unfolding to_entries
  entries_after (s, err e) = (s, err e)
  entries_after (s, ok ms) = let (s', es) = to_entries s ms in (s', ok es)

  unfoldable pub entry_after :
      Session http × Result (Memory fl) → Session http × Result (Option (MemoryEntry fl))
  unfolding to_memory_entry
  entry_after (s, err e) = (s, err e)
  entry_after (s, ok m) = let (s', e) = to_memory_entry s m in (s', ok (some e))

entity_query : (user_id agent_id : String) → List String
entity_query user_id agent_id =
    if str_eq user_id ""
    then (if str_eq agent_id "" then [] else "?agent_id=" ∷ agent_id ∷ [])
    else "?user_id=" ∷ user_id ∷ []

limit_query : {fl : Floats} → Http fl → ℤ → List String
limit_query http limit =
    if ltb_ℤ (pos 0) limit then "&limit=" ∷ http.decimal_text limit ∷ [] else []

module _ {fl : Floats} {http : Http fl} (cfg : Settings) (json : Mem0Json fl) where
  unfoldable pub add_call : Session http → MemoryEntry fl → Session http × Result (Unit {0})
  unfolding add_request
  add_call s entry =
      guarded_call done_by_status s (request cfg "POST" ("/v1/memories/" ∷ []))
        (marshalled (json.marshal (adding (add_request entry))))

  unfoldable pub add : Session http → MemoryEntry fl → Session http × Option Error
  add s entry = let (s', r) = add_call s entry in (s', error_of r)

  -- The loop of AddBatch, which stops at the first error.
  unfoldable pub add_all : Session http → List (MemoryEntry fl) → Session http × Result (Unit {0})
  add_all s [] = (s, ok tt)
  add_all s (e ∷ es) =
      let (s1, r) = add_call s e in let rest = add_all s1 es in stop_at_error s1 r rest
    where
      stop_at_error :
          Session http
          → Result (Unit {0})
          → Session http × Result (Unit {0})
          → Session http × Result (Unit {0})
      stop_at_error s1 (ok done) rest = rest
      stop_at_error s1 (err e) rest = (s1, err e)

  -- The breaker is asked for the batch, and again for each entry.
  unfoldable pub add_batch : Session http → List (MemoryEntry fl) → Session http × Option Error
  unfolding add_all
  add_batch s entries = let (s', r) = if_allowed s (λ s1. add_all s1 entries) in (s', error_of r)

  unfoldable pub get : Session http → String → Session http × Result (Option (MemoryEntry fl))
  get s id = if_valid s (validate_id http id) (
      entry_after (
        guarded_call (decoded_or_missing json.decode_memory) s
          (request cfg "GET" ("/v1/memories/" ∷ id ∷ "/" ∷ [])) no_body))

  -- The identifier is not validated.
  unfoldable pub update : Session http → MemoryEntry fl → Session http × Option Error
  update s entry =
      let changes : UpdateMemoryRequest = record { memory_id = entry.id; memory = entry.content } in
      let (s', r) =
        guarded_call done_by_status s (request cfg "PUT" ("/v1/memories/" ∷ entry.id ∷ "/" ∷ []))
          (marshalled (json.marshal (updating changes))) in
      (s', error_of r)

  unfoldable pub delete : Session http → String → Session http × Option Error
  delete s id =
      let (s', r) = if_valid s (validate_id http id) (
        guarded_call done_or_missing s (request cfg "DELETE" ("/v1/memories/" ∷ id ∷ "/" ∷ []))
          no_body) in
      (s', error_of r)

  unfoldable pub delete_all :
      Session http → (user_id agent_id : String) → Session http × Option Error
  unfolding entity_query
  delete_all s user_id agent_id =
      let (s', r) =
        guarded_call done_by_status s
          (request cfg "DELETE" ("/v1/memories/" ∷ entity_query user_id agent_id)) no_body in
      (s', error_of r)

  unfoldable pub search : Session http → SearchRequest fl → Session http × Result (SearchResult fl)
  unfolding search_request
  search s req = if_allowed s (λ s1.
      let (s2, start) = read_clock s1 in
      search_result MemorySource.mem0 start (
        entries_after (
          with_body (decoded_by json.decode_results) s2
            (request cfg "POST" ("/v1/memories/search/" ∷ []))
            (marshalled (json.marshal (searching (search_request req)))))))

  unfoldable pub get_history :
      Session http
      → (user_id : String) → (limit : ℤ) → Session http × Result (List (MemoryEntry fl))
  unfolding limit_query
  get_history s user_id limit = entries_after (
      guarded_call (decoded_by json.decode_memories) s
        (request cfg "GET" ("/v1/memories/?user_id=" ∷ user_id ∷ limit_query http limit)) no_body)

  unfoldable pub get_memory_history :
      Session http → (memory_id : String) → Session http × Result (List MemoryHistory)
  get_memory_history s memory_id =
      guarded_call (decoded_by json.decode_history) s
        (request cfg "GET" ("/v1/memories/" ∷ memory_id ∷ "/history/" ∷ [])) no_body

  unfoldable pub health : Session http → Session http × Option Error
  health s =
      let (s', r) = unguarded_call done_by_status s (request cfg "GET" ("/health" ∷ []) none) in
      (s', error_of r)

-- The client as a memory system of the engine.
abbrev pub provider : {fl : Floats} → (http : Http fl) → Settings → Mem0Json fl → MemoryProvider fl
provider http cfg json = record {
  State = Session http;
  add = add cfg json;
  search = λ s req. pointed (search cfg json s req);
  get = get cfg json;
  update = update cfg json;
  delete = delete cfg json;
  get_history = get_history cfg json;
  health = health cfg json;
}
