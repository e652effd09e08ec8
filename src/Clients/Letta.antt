-- ===== src/Clients/Letta.antt =====
-- pkg/clients/letta/client.go, over the parameters of Clients.antt. The client looks for its agent
-- once: `ensured` is whether the sync.Once is done.
pub mod Wire
pub mod Entries
pub mod Admin
pub mod Stuck
use helix_memory.Prelude.{
  ℕ, ◌-◌, String, str_eq, Bool, true, false, ◌&&◌, List, [], ◌∷◌, Option, none, some, Dict, map,
  if◌then◌else◌, ltb, length, drop,
}
use helix_memory.Prelude.Int.{ℤ, pos, ltb_ℤ, pos_part}
use helix_memory.Runtime.{Floats}
use helix_memory.Types.{MemoryEntry, SearchRequest, SearchResult, Instant, Value, text}
use helix_memory.Types.MemoryType
use helix_memory.Types.MemorySource
use helix_memory.Types.Provider.{MemoryProvider, Error, Result, ok, err}
use helix_memory.Clients.{
  Request, Response, Http, Settings, Session, Verdict, Body, no_body, marshalled, joined,
  done_by_status, decoded_by, error_of, map_ok, read_clock, ask_breaker, with_body, guarded_call,
  unguarded_call,
}
use helix_memory.Clients.Answers.{search_result}
use helix_memory.Clients.Letta.Wire.{
  CreateAgentRequest, Agent, Message, SendMessageRequest, Passage, creating_agent, sending,
  text_map, LettaJson,
}
use helix_memory.Clients.Letta.Entries.{
  passage_entry, message_entry, latest, helix_agent, find_agent,
}

pub record Letta {fl : Floats} (http : Http fl) : Type 0 where
  pub session : Session http
  pub ensured : Bool
  pub cached_agent_id : String
  pub ensure_error : Option Error

abbrev pub authorization : Settings → Dict String
authorization cfg = ("Authorization", joined ("Bearer " ∷ cfg.api_key ∷ [])) ∷ []

abbrev pub request : Settings → (method : String) → (path : List String) → Option String → Request
request cfg method path none = record {
  method = method;
  url = joined (cfg.endpoint ∷ path);
  headers = authorization cfg;
  body = none;
}
request cfg method path (some body) = record {
  method = method;
  url = joined (cfg.endpoint ∷ path);
  headers = ("Content-Type", "application/json") ∷ authorization cfg;
  body = some body;
}

-- What the Once leaves behind: `return c.cachedAgentID, c.ensureAgentErr`
abbrev pub ensured_result : Option Error → String → Result String
ensured_result none id = ok id
ensured_result (some e) id = err e

module _ {fl : Floats} {http : Http fl} where
  -- A call of the session, in the client.
  abbrev pub on_session : {A : Type 0} → Letta http → Session http × A → Letta http × A
  on_session l (s, a) = (record l { session = s }, a)

  -- The guard at the head of a call.
  unfoldable pub letta_allowed :
      {A : Type 0} → Letta http → (Letta http → Letta http × Result A) → Letta http × Result A
  unfolding ask_breaker
  letta_allowed l rest =
      let (s, allowed) = ask_breaker l.session in
      let l1 = record l { session = s } in
      if allowed then rest l1 else (l1, err "circuit breaker open")

  keep_created : Letta http → Result (Agent fl) → Letta http
  keep_created l (err e) = record l { ensure_error = some e }
  keep_created l (ok agent) = record l { cached_agent_id = agent.id }

  unfoldable pub with_agent :
      {A : Type 0}
      → (Letta http → String → Letta http × Result A)
      → Letta http × Result String
      → Letta http × Result A
  with_agent rest (l, err e) = (l, err "ensure agent")
  with_agent rest (l, ok id) = rest l id

module _ {fl : Floats} {http : Http fl} (cfg : Settings) (json : LettaJson fl) where
  unfoldable pub list_agents : Letta http → Letta http × Result (List (Agent fl))
  list_agents l = on_session l (
      guarded_call (decoded_by json.decode_agents) l.session
        (request cfg "GET" ("/v1/agents/" ∷ [])) no_body)

  unfoldable pub create_agent : Letta http → CreateAgentRequest fl → Letta http × Result (Agent fl)
  create_agent l req = on_session l (
      guarded_call (decoded_by json.decode_agent) l.session
        (request cfg "POST" ("/v1/agents/" ∷ [])) (marshalled (json.marshal (creating_agent req))))

  keep_found : Letta http → Option String → Letta http
  unfolding keep_created
  keep_found l (some id) = record l { cached_agent_id = id }
  keep_found l none = let (l', r) = create_agent l (helix_agent fl) in keep_created l' r

  unfoldable pub keep_listed : Letta http → Result (List (Agent fl)) → Letta http
  unfolding keep_found
  keep_listed l (err e) = record l { ensure_error = some e }
  keep_listed l (ok agents) = keep_found l (find_agent agents)

  unfoldable pub ensure_agent : Letta http → Letta http × Result String
  ensure_agent l =
      let (l1, r) = list_agents l in
      let first = record (keep_listed l1 r) { ensured = true } in
      let l' = if l.ensured then l else first in
      (l', ensured_result l'.ensure_error l'.cached_agent_id)

  unfoldable pub agent_for : Letta http → (given : String) → Letta http × Result String
  agent_for l given = if str_eq given "" then ensure_agent l else (l, ok given)

  unfoldable pub add : Letta http → MemoryEntry fl → Letta http × Option Error
  add l entry =
      let (l', r) = letta_allowed l (λ l1.
        with_agent
          (λ l2 agent_id.
            let message : SendMessageRequest = record {
              input = entry.content;
              agent_id = agent_id;
              stream = false;
            } in
            on_session l2 (
              with_body done_by_status l2.session
                (request cfg "POST" ("/v1/agents/" ∷ agent_id ∷ "/messages" ∷ []))
                (marshalled (json.marshal (sending message)))))
          (agent_for l1 entry.agent_id)) in
      (l', error_of r)

  -- The identifier is not validated.
  unfoldable pub get : Letta http → String → Letta http × Result (Option (MemoryEntry fl))
  get l id =
      let (l', r) = letta_allowed l (λ l1.
        with_agent
          (λ l2 agent_id. on_session l2 (
            with_body (decoded_by json.decode_passage) l2.session
              (request cfg "GET" ("/v1/agents/" ∷ agent_id ∷ "/archival/" ∷ id ∷ [])) no_body))
          (ensure_agent l1)) in
      (l', map_ok (λ p. some (passage_entry fl p)) r)

  unfoldable pub update : Letta http → MemoryEntry fl → Letta http × Option Error
  update l entry =
      let (l', r) = letta_allowed l (λ l1.
        with_agent
          (λ l2 agent_id. on_session l2 (
            with_body done_by_status l2.session
              (request cfg "PATCH" ("/v1/agents/" ∷ agent_id ∷ "/archival/" ∷ entry.id ∷ []))
              (marshalled (json.marshal (text_map entry.content)))))
          (agent_for l1 entry.agent_id)) in
      (l', error_of r)

  unfoldable pub delete : Letta http → String → Letta http × Option Error
  delete l id =
      let (l', r) = letta_allowed l (λ l1.
        with_agent
          (λ l2 agent_id. on_session l2 (
            with_body done_by_status l2.session
              (request cfg "DELETE" ("/v1/agents/" ∷ agent_id ∷ "/archival/" ∷ id ∷ [])) no_body))
          (ensure_agent l1)) in
      (l', error_of r)

  unfoldable pub passages_after :
      Session http × Result (List Passage) → Session http × Result (List (MemoryEntry fl))
  passages_after (s, r) = (s, map_ok (map (passage_entry fl)) r)

  -- Neither the query nor the limit of the request is used.
  unfoldable pub search : Letta http → SearchRequest fl → Letta http × Result (SearchResult fl)
  search l req = letta_allowed l (λ l1.
      let (s, start) = read_clock l1.session in
      with_agent
        (λ l2 agent_id. on_session l2 (
          search_result MemorySource.letta start (
            passages_after (
              with_body (decoded_by json.decode_passages) l2.session
                (request cfg "GET" ("/v1/agents/" ∷ agent_id ∷ "/archival" ∷ [])) no_body))))
        (agent_for (record l1 { session = s }) req.agent_id))

  unfoldable pub get_messages :
      Letta http → (agent_id : String) → Letta http × Result (List Message)
  get_messages l agent_id = on_session l (
      guarded_call (decoded_by json.decode_messages) l.session
        (request cfg "GET" ("/v1/agents/" ∷ agent_id ∷ "/messages" ∷ [])) no_body)

  -- The breaker is asked here, and again for the messages.
  unfoldable pub get_history :
      Letta http → (agent_id : String) → (limit : ℤ) → Letta http × Result (List (MemoryEntry fl))
  get_history l agent_id limit = letta_allowed l (λ l1.
      let (l2, r) = get_messages l1 agent_id in
      (l2, map_ok (λ ms. latest limit (map (message_entry fl agent_id) ms)) r))

  unfoldable pub health : Letta http → Letta http × Option Error
  health l =
      let (l', r) =
        on_session l
          (unguarded_call done_by_status l.session (request cfg "GET" ("/v1/health/" ∷ []) none)) in
      (l', error_of r)

-- The client as a memory system of the engine.
abbrev pub provider : {fl : Floats} → (http : Http fl) → Settings → LettaJson fl → MemoryProvider fl
provider http cfg json = record {
  State = Letta http;
  add = add cfg json;
  search = λ l req. let (l', r) = search cfg json l req in (l', map_ok some r);
  get = get cfg json;
  update = update cfg json;
  delete = delete cfg json;
  get_history = get_history cfg json;
  health = health cfg json;
}
