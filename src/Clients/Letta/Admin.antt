-- ===== src/Clients/Letta/Admin.antt =====
-- pkg/clients/letta/client.go: the agents, messages, memory blocks and sources of Letta.
use helix_memory.Prelude.{String, false, List, [], ◌∷◌, Option, none, some, Dict}
use helix_memory.Runtime.{Floats}
use helix_memory.Types.{CoreMemoryBlock, Value}
use helix_memory.Types.Provider.{Error, Result, err}
use helix_memory.Clients.{
  Http, Settings, Session, no_body, marshalled, joined, done_by_status, decoded_by, error_of,
  if_allowed, exchange, guarded_call,
}
use helix_memory.Clients.Letta.{Letta, on_session, request, authorization, agent_for, with_agent}
use helix_memory.Clients.Letta.Wire.{
  MemoryBlock, Agent, SendMessageRequest, SendMessageResponse, Source, sending, value_map,
  source_map, source_id_map, core_block, LettaJson,
}

module _ {fl : Floats} {http : Http fl} (cfg : Settings) (json : LettaJson fl) where
  unfoldable pub get_agent : Session http → (agent_id : String) → Session http × Result (Agent fl)
  get_agent s agent_id =
      guarded_call (decoded_by json.decode_agent) s
        (request cfg "GET" ("/v1/agents/" ∷ agent_id ∷ [])) no_body

  unfoldable pub delete_agent : Session http → (agent_id : String) → Session http × Option Error
  delete_agent s agent_id =
      let (s', r) =
        guarded_call done_by_status s (request cfg "DELETE" ("/v1/agents/" ∷ agent_id ∷ []))
          no_body in
      (s', error_of r)

  unfoldable pub send_message :
      Session http → (agent_id input : String) → Session http × Result SendMessageResponse
  send_message s agent_id input =
      let message : SendMessageRequest = record {
        input = input;
        agent_id = agent_id;
        stream = false;
      } in
      guarded_call (decoded_by json.decode_sent) s
        (request cfg "POST" ("/v1/agents/" ∷ agent_id ∷ "/messages" ∷ []))
        (marshalled (json.marshal (sending message)))

  unfoldable pub get_memory_block :
      Session http → (agent_id block_id : String) → Session http × Result MemoryBlock
  get_memory_block s agent_id block_id =
      guarded_call (decoded_by json.decode_block) s
        (request cfg "GET" ("/v1/agents/" ∷ agent_id ∷ "/memory/blocks/" ∷ block_id ∷ [])) no_body

  unfoldable pub update_memory_block :
      Session http → (agent_id block_id value : String) → Session http × Result MemoryBlock
  update_memory_block s agent_id block_id value =
      guarded_call (decoded_by json.decode_block) s
        (request cfg "POST" ("/v1/agents/" ∷ agent_id ∷ "/memory/blocks/" ∷ block_id ∷ []))
        (marshalled (json.marshal (value_map value)))

  unfoldable pub create_source :
      Session http
      → (name description type : String) → Option (Dict (Value fl))
      → Session http × Result (Source fl)
  create_source s name description type metadata =
      guarded_call (decoded_by json.decode_source) s (request cfg "POST" ("/v1/sources" ∷ []))
        (marshalled (json.marshal (source_map name description type metadata)))

  unfoldable pub upload_form :
      Session http
      → (source_id : String) → Option (String × String)
      → Session http × Result (Unit {0})
  upload_form s source_id none = (s, err "create form file")
  upload_form s source_id (some (body, content_type)) = exchange done_by_status s (record {
    method = "POST";
    url = joined (cfg.endpoint ∷ "/v1/sources/" ∷ source_id ∷ "/files" ∷ []);
    headers = ("Content-Type", content_type) ∷ authorization cfg;
    body = some body;
  })

  unfoldable pub upload_file_to_source :
      Session http → (source_id filename content : String) → Session http × Option Error
  upload_file_to_source s source_id filename content =
      let (s', r) =
        if_allowed s (λ s1. upload_form s1 source_id (json.form_file filename content)) in
      (s', error_of r)

  unfoldable pub attach_source_to_agent :
      Session http → (agent_id source_id : String) → Session http × Option Error
  attach_source_to_agent s agent_id source_id =
      let (s', r) =
        guarded_call done_by_status s
          (request cfg "POST" ("/v1/agents/" ∷ agent_id ∷ "/sources" ∷ []))
          (marshalled (json.marshal (source_id_map source_id))) in
      (s', error_of r)

  -- Here the agent is looked for before the breaker is asked.
  unfoldable pub get_core_memory :
      Letta http → (agent_id : String) → Letta http × Result (List MemoryBlock)
  get_core_memory l agent_id =
      with_agent
        (λ l1 id. on_session l1 (
          guarded_call (decoded_by json.decode_memory) l1.session
            (request cfg "GET" ("/v1/agents/" ∷ id ∷ "/memory" ∷ [])) no_body))
        (agent_for cfg json l agent_id)

  unfoldable pub update_core_memory :
      Letta http → (agent_id : String) → CoreMemoryBlock → Letta http × Option Error
  update_core_memory l agent_id block =
      let (l', r) =
        with_agent
          (λ l1 id. on_session l1 (
            guarded_call done_by_status l1.session
              (request cfg "PATCH" ("/v1/agents/" ∷ id ∷ "/memory" ∷ []))
              (marshalled (json.marshal (core_block block)))))
          (agent_for cfg json l agent_id) in
      (l', error_of r)
