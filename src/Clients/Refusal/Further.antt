-- ===== src/Clients/Refusal/Further.antt =====
-- The calls of Mem0, Graphiti and Cognee beyond the provider interface, while the breaker allows nothing.
use helix_memory.Prelude.{◌≡◌, refl, false, inr, String, List, Option, Dict}
use helix_memory.Runtime.{Floats}
use helix_memory.Types.{MemoryEntry, Instant, Value}
use helix_memory.Types.Provider.{Error, succeeded}
use helix_memory.Clients.{Http, Settings, Session, ask_breaker}
use helix_memory.Clients.Refusal.{IsQuiet, IsRefusal, if_allowed_refuses, guarded_call_refuses}
use helix_memory.Clients.Mem0.Wire.{Mem0Json}
use helix_memory.Clients.Mem0
use helix_memory.Clients.Mem0.Admin
use helix_memory.Clients.Graphiti.Wire.{GraphitiJson}
use helix_memory.Clients.Graphiti
use helix_memory.Clients.Cognee.Wire.{CogneeJson}
use helix_memory.Clients.Cognee

-- A call without a result that failed, and sent nothing.
abbrev pub IsFailure :
    {fl : Floats} {http : Http fl} → Session http → Session http × Option Error → Type 0
IsFailure s x = IsQuiet s x.0 × (succeeded x.1 ≡ false)

module _ {fl : Floats} {http : Http fl} (cfg : Settings) (s : Session http) where
  pub record Mem0Refuses (json : Mem0Json fl) : Type 0 where
    pub add_batch_refused :
        (es : List (MemoryEntry fl)) → IsFailure s (Mem0.add_batch cfg json s es)
    pub delete_all_refused :
        (user_id agent_id : String) → IsFailure s (Mem0.delete_all cfg json s user_id agent_id)
    pub memory_history_refused : (id : String) → IsRefusal s (Mem0.get_memory_history cfg json s id)
    pub create_user_refused :
        (name : String) (m : Option (Dict (Value fl)))
        → IsRefusal s (Mem0.Admin.create_user cfg json s name m)
    pub get_user_refused : (id : String) → IsRefusal s (Mem0.Admin.get_user cfg json s id)
    pub delete_user_refused : (id : String) → IsFailure s (Mem0.Admin.delete_user cfg json s id)
    pub create_agent_refused :
        (name : String) (m : Option (Dict (Value fl)))
        → IsRefusal s (Mem0.Admin.create_agent cfg json s name m)
    pub get_agent_refused : (id : String) → IsRefusal s (Mem0.Admin.get_agent cfg json s id)
    pub delete_agent_refused : (id : String) → IsFailure s (Mem0.Admin.delete_agent cfg json s id)
    pub create_webhook_refused :
        (url name : String) (events : List String)
        → IsRefusal s (Mem0.Admin.create_webhook cfg json s url name events)
    pub get_webhook_refused : (id : String) → IsRefusal s (Mem0.Admin.get_webhook cfg json s id)
    pub delete_webhook_refused :
        (id : String) → IsFailure s (Mem0.Admin.delete_webhook cfg json s id)

  pub record GraphitiRefuses (json : GraphitiJson fl) : Type 0 where
    pub search_temporal_refused :
        (query : String) (at : Instant) → IsRefusal s (Graphiti.search_temporal cfg json s query at)
    pub get_timeline_refused :
        (user_id : String) (start end : Instant)
        → IsRefusal s (Graphiti.get_timeline cfg json s user_id start end)
    pub invalidate_at_refused :
        (id : String) (at : Instant) → IsFailure s (Graphiti.invalidate_at cfg json s id at)

  pub record CogneeRefuses (json : CogneeJson fl) : Type 0 where
    pub create_dataset_refused :
        (name description : String)
        → IsRefusal s (Cognee.create_dataset cfg json s name description)
    pub list_datasets_refused : IsRefusal s (Cognee.list_datasets cfg json s)

  module _ (shut : (ask_breaker s).1 ≡ false) where
    pub mem0-further : (json : Mem0Json fl) → Mem0Refuses json
    unfolding Mem0.add_batch Mem0.delete_all Mem0.get_memory_history Mem0.Admin.create_user
        Mem0.Admin.get_user Mem0.Admin.delete_user Mem0.Admin.create_agent Mem0.Admin.get_agent
        Mem0.Admin.delete_agent Mem0.Admin.create_webhook Mem0.Admin.get_webhook
        Mem0.Admin.delete_webhook
    mem0-further json = record {
      add_batch_refused = λ es. rw (if_allowed_refuses s shut) (inr refl, refl);
      delete_all_refused = λ u a. rw (guarded_call_refuses s shut) (inr refl, refl);
      memory_history_refused = λ id. rw (guarded_call_refuses s shut) (inr refl, refl);
      create_user_refused = λ name m. rw (guarded_call_refuses s shut) (inr refl, refl);
      get_user_refused = λ id. rw (guarded_call_refuses s shut) (inr refl, refl);
      delete_user_refused = λ id. rw (guarded_call_refuses s shut) (inr refl, refl);
      create_agent_refused = λ name m. rw (guarded_call_refuses s shut) (inr refl, refl);
      get_agent_refused = λ id. rw (guarded_call_refuses s shut) (inr refl, refl);
      delete_agent_refused = λ id. rw (guarded_call_refuses s shut) (inr refl, refl);
      create_webhook_refused = λ u n es. rw (guarded_call_refuses s shut) (inr refl, refl);
      get_webhook_refused = λ id. rw (guarded_call_refuses s shut) (inr refl, refl);
      delete_webhook_refused = λ id. rw (guarded_call_refuses s shut) (inr refl, refl);
    }

    pub graphiti-further : (json : GraphitiJson fl) → GraphitiRefuses json
    unfolding Graphiti.search_temporal Graphiti.get_timeline Graphiti.invalidate_at Graphiti.search
        Graphiti.entries_found
    graphiti-further json = record {
      search_temporal_refused = λ q t. rw (if_allowed_refuses s shut) (inr refl, refl);
      get_timeline_refused = λ u a b. rw (if_allowed_refuses s shut) (inr refl, refl);
      invalidate_at_refused = λ id t. rw (guarded_call_refuses s shut) (inr refl, refl);
    }

    pub cognee-further : (json : CogneeJson fl) → CogneeRefuses json
    unfolding Cognee.create_dataset Cognee.list_datasets
    cognee-further json = record {
      create_dataset_refused = λ n d. rw (guarded_call_refuses s shut) (inr refl, refl);
      list_datasets_refused = rw (guarded_call_refuses s shut) (inr refl, refl);
    }
