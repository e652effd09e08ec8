-- ===== src/Clients/Cognee.antt =====
-- pkg/clients/cognee/client.go, over the parameters of Clients.antt. The second request of Add, whose
-- errors the code ignores, is taken to be one that http.NewRequest accepts: its address is that of
-- the first with another path.
pub mod Wire
pub mod Failing
pub mod Entries
use helix_memory.Prelude.{
  ℕ, String, str_eq, not, ◌&&◌, List, [], ◌∷◌, Option, none, some, Dict, lookup, insert,
  if◌then◌else◌, leb,
}
use helix_memory.Prelude.Int.{ℤ, pos, leb_ℤ}
use helix_memory.Runtime.{Floats}
use helix_memory.Types.{
  MemoryEntry, SearchRequest, SearchResult, Value, text, default_search_request,
}
use helix_memory.Types.MemoryType
use helix_memory.Types.MemorySource
use helix_memory.Types.Provider.{MemoryProvider, Error, Result, ok, err}
use helix_memory.Clients.{
  Request, Response, Http, Settings, Session, Verdict, failed, answered, no_body, marshalled,
  joined, done_by_status, done_or_missing, decoded_by, decoded_or_missing, error_of, map_ok,
  read_clock, settle, with_body, if_allowed, guarded_call, unguarded_call, validate_id,
}
use helix_memory.Clients.Answers.{made_map, id_or_new, search_result, pointed, if_valid}
use helix_memory.Clients.Cognee.Wire.{
  AddRequest, CogneeSearchRequest, CogneeSearchResult, Connection, CognifyRequest, Dataset, adding,
  cognifying, searching, dataset_map, CogneeJson,
}
use helix_memory.Clients.Cognee.Entries.{add_request, search_request, to_memory_entry, to_entries}

-- The key is only sent if there is one.
abbrev pub authorization : Settings → Dict String
authorization cfg =
    if str_eq cfg.api_key ""
    then []
    else ("Authorization", joined ("Bearer " ∷ cfg.api_key ∷ [])) ∷ []

abbrev pub request : Settings → (method : String) → (path : List String) → Option String → Request
request cfg method path none = record {
  method = method;
  url = joined (cfg.endpoint ∷ path);
  headers = authorization cfg;
  body = none;
}
request cfg method path (some body) = record {
  method = method;
  url = joined (cfg.endpoint ∷ path);
  headers = ("Content-Type", "application/json") ∷ authorization cfg;
  body = some body;
}

abbrev pub body_or_empty : Option String → String
body_or_empty none = ""
body_or_empty (some body) = body

module _ {fl : Floats} (json : CogneeJson fl) where
  health_verdict : Response → Verdict (Unit {0})
  health_verdict r =
      let status = json.health_status r.body in
      if leb 400 r.status
      then failed "unhealthy"
      else if not (str_eq status "") && not (str_eq status "healthy") && not (str_eq status "ok")
      then failed "unhealthy"
      else answered tt

module _ {fl : Floats} {http : Http fl} (cfg : Settings) (json : CogneeJson fl) where
  unfoldable pub entries_after :
      Session http × Result (List (CogneeSearchResult fl))
      → Session http × Result (List (MemoryEntry fl))
  unfolding to_entries
  entries_after (s, err e) = (s, err e)
  entries_after (s, ok rs) = let (s', es) = to_entries json s rs in (s', ok es)

  unfoldable pub entry_after :
      Session http × Result (CogneeSearchResult fl)
      → Session http × Result (Option (MemoryEntry fl))
  unfolding to_memory_entry
  entry_after (s, err e) = (s, err e)
  entry_after (s, ok r) = let (s', e) = to_memory_entry json s r in (s', ok (some e))

  -- The request that starts the processing; its answer is not looked at.
  unfoldable pub cognify : Session http → (dataset_id : String) → Session http
  cognify s dataset_id =
      let asked : CognifyRequest = record { dataset_id = dataset_id; data_sources = [] } in
      let body = body_or_empty (json.marshal (cognifying asked)) in
      let (w, answer) =
        http.send s.world (request cfg "POST" ("/api/v1/cognify" ∷ []) (some body)) in
      record s { world = w }

  after_decoding :
      Session http
      → (dataset_id : String) → {A : Type 0} → Option A
      → Session http × Result (Unit {0})
  unfolding settle cognify
  after_decoding s dataset_id none = settle s (answered tt)
  after_decoding s dataset_id (some a) = settle (cognify s dataset_id) (answered tt)

  after_adding :
      Session http → (dataset_id : String) → Option Response → Session http × Result (Unit {0})
  unfolding settle after_decoding
  after_adding s dataset_id none = settle s (failed "request failed")
  after_adding s dataset_id (some r) =
      if leb 400 r.status
      then settle s (failed "API error")
      else after_decoding s dataset_id (json.decode_add r.body)

  unfoldable pub send_entry :
      Session http → (dataset_id : String) → Option String → Session http × Result (Unit {0})
  unfolding after_adding
  send_entry s dataset_id none = (s, err "marshal")
  send_entry s dataset_id (some body) =
      let asked = request cfg "POST" ("/api/v1/add" ∷ []) (some body) in
      let (w, answer) = http.send s.world asked in
      if http.accepts asked
      then after_adding (record s { world = w }) dataset_id answer
      else (s, err "create request")

  unfoldable pub add : Session http → MemoryEntry fl → Session http × Option Error
  unfolding add_request
  add s entry =
      let asked = add_request entry in
      let (s', r) =
        if_allowed s (λ s1. send_entry s1 asked.dataset_id (json.marshal (adding asked))) in
      (s', error_of r)

  unfoldable pub search : Session http → SearchRequest fl → Session http × Result (SearchResult fl)
  unfolding search_request
  search s req = if_allowed s (λ s1.
      let (s2, start) = read_clock s1 in
      search_result MemorySource.cognee start (
        entries_after (
          with_body (decoded_by json.decode_results) s2 (request cfg "POST" ("/api/v1/search" ∷ []))
            (marshalled (json.marshal (searching (search_request req)))))))

  unfoldable pub get : Session http → String → Session http × Result (Option (MemoryEntry fl))
  get s id = if_valid s (validate_id http id) (
      entry_after (
        guarded_call (decoded_or_missing json.decode_result) s
          (request cfg "GET" ("/api/v1/data/" ∷ id ∷ [])) no_body))

  unfoldable pub delete : Session http → String → Session http × Option Error
  delete s id =
      let (s', r) = if_valid s (validate_id http id) (
        guarded_call done_or_missing s (request cfg "DELETE" ("/api/v1/data/" ∷ id ∷ []))
          no_body) in
      (s', error_of r)

  unfoldable pub add_after :
      Session http × Option Error → MemoryEntry fl → Session http × Option Error
  add_after (s, some e) entry = (s, some "update (delete phase)")
  add_after (s, none) entry = add s entry

  -- Update deletes the entry and adds it anew.
  unfoldable pub update : Session http → MemoryEntry fl → Session http × Option Error
  update s entry = add_after (delete s entry.id) entry

  unfoldable pub get_history :
      Session http
      → (user_id : String) → (limit : ℤ) → Session http × Result (List (MemoryEntry fl))
  get_history s user_id limit =
      let (s', r) =
        search s (record (default_search_request fl "*") { user_id = user_id; top_k = limit }) in
      (s', map_ok (λ found. found.entries) r)

  unfoldable pub health : Session http → Session http × Option Error
  unfolding health_verdict
  health s =
      let (s', r) =
        unguarded_call (health_verdict json) s (request cfg "GET" ("/api/v1/health" ∷ []) none) in
      (s', error_of r)

  unfoldable pub create_dataset :
      Session http → (name description : String) → Session http × Result Dataset
  create_dataset s name description =
      guarded_call (decoded_by json.decode_dataset) s (request cfg "POST" ("/api/v1/datasets" ∷ []))
        (marshalled (json.marshal (dataset_map name description)))

  unfoldable pub list_datasets : Session http → Session http × Result (List Dataset)
  list_datasets s =
      guarded_call (decoded_by json.decode_datasets) s (request cfg "GET" ("/api/v1/datasets" ∷ []))
        no_body

-- The client as a memory system of the engine.
abbrev pub provider :
    {fl : Floats} → (http : Http fl) → Settings → CogneeJson fl → MemoryProvider fl
provider http cfg json = record {
  State = Session http;
  add = add cfg json;
  search = λ s req. pointed (search cfg json s req);
  get = get cfg json;
  update = update cfg json;
  delete = delete cfg json;
  get_history = get_history cfg json;
  health = health cfg json;
}
