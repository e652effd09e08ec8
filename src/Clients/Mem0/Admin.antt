-- ===== src/Clients/Mem0/Admin.antt =====
-- pkg/clients/mem0/client.go: the users, agents and webhooks of Mem0.
use helix_memory.Prelude.{String, List, [], ◌∷◌, Option, Dict}
use helix_memory.Runtime.{Floats}
use helix_memory.Types.{Value}
use helix_memory.Types.Provider.{Error, Result}
use helix_memory.Clients.{
  Http, Settings, Session, no_body, marshalled, done_by_status, decoded_by, error_of, guarded_call,
}
use helix_memory.Clients.Mem0.{request}
use helix_memory.Clients.Mem0.Wire.{
  User, Agent, Webhook, user_map, agent_map, webhook_map, Mem0Json,
}

module _ {fl : Floats} {http : Http fl} (cfg : Settings) (json : Mem0Json fl) where
  unfoldable pub create_user :
      Session http → (name : String) → Option (Dict (Value fl)) → Session http × Result (User fl)
  create_user s name metadata =
      guarded_call (decoded_by json.decode_user) s (request cfg "POST" ("/v1/users/" ∷ []))
        (marshalled (json.marshal (user_map name metadata)))

  unfoldable pub get_user : Session http → (user_id : String) → Session http × Result (User fl)
  get_user s user_id =
      guarded_call (decoded_by json.decode_user) s
        (request cfg "GET" ("/v1/users/" ∷ user_id ∷ "/" ∷ [])) no_body

  unfoldable pub delete_user : Session http → (user_id : String) → Session http × Option Error
  delete_user s user_id =
      let (s', r) =
        guarded_call done_by_status s (request cfg "DELETE" ("/v1/users/" ∷ user_id ∷ "/" ∷ []))
          no_body in
      (s', error_of r)

  unfoldable pub create_agent :
      Session http → (name : String) → Option (Dict (Value fl)) → Session http × Result (Agent fl)
  create_agent s name config =
      guarded_call (decoded_by json.decode_agent) s (request cfg "POST" ("/v1/agents/" ∷ []))
        (marshalled (json.marshal (agent_map name config)))

  unfoldable pub get_agent : Session http → (agent_id : String) → Session http × Result (Agent fl)
  get_agent s agent_id =
      guarded_call (decoded_by json.decode_agent) s
        (request cfg "GET" ("/v1/agents/" ∷ agent_id ∷ "/" ∷ [])) no_body

  unfoldable pub delete_agent : Session http → (agent_id : String) → Session http × Option Error
  delete_agent s agent_id =
      let (s', r) =
        guarded_call done_by_status s (request cfg "DELETE" ("/v1/agents/" ∷ agent_id ∷ "/" ∷ []))
          no_body in
      (s', error_of r)

  unfoldable pub create_webhook :
      Session http → (url name : String) → (events : List String) → Session http × Result Webhook
  create_webhook s url name events =
      guarded_call (decoded_by json.decode_webhook) s (request cfg "POST" ("/v1/webhooks/" ∷ []))
        (marshalled (json.marshal (webhook_map url name events)))

  unfoldable pub get_webhook : Session http → (webhook_id : String) → Session http × Result Webhook
  get_webhook s webhook_id =
      guarded_call (decoded_by json.decode_webhook) s
        (request cfg "GET" ("/v1/webhooks/" ∷ webhook_id ∷ "/" ∷ [])) no_body

  unfoldable pub delete_webhook : Session http → (webhook_id : String) → Session http × Option Error
  delete_webhook s webhook_id =
      let (s', r) =
        guarded_call done_by_status s
          (request cfg "DELETE" ("/v1/webhooks/" ∷ webhook_id ∷ "/" ∷ [])) no_body in
      (s', error_of r)
