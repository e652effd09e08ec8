-- ===== src/Clients/Refusal/Cognee.antt =====
-- The client of Cognee while its circuit breaker allows nothing.
use helix_memory.Prelude.{◌≡◌, refl, false, inr, Option, none, some, String, arith}
use helix_memory.Runtime.{Floats}
use helix_memory.Types.{MemoryEntry}
use helix_memory.Types.Provider.{Error, succeeded}
use helix_memory.Clients.{Http, Settings, Session, ask_breaker, validate_id}
use helix_memory.Clients.Refusal.{
  Refuses, IsQuiet, if_allowed_refuses, guarded_call_refuses, if_valid-IsRefusal, error_of_refusal,
}
use helix_memory.Clients.Cognee.Wire.{CogneeJson}
use helix_memory.Clients.Cognee.{
  add, search, get, update, delete, get_history, entries_after, entry_after, add_after, provider,
}

module _ {fl : Floats} {http : Http fl} (cfg : Settings) (json : CogneeJson fl)
    (s : Session http) where
  -- The addition does not take place when the deletion failed.
  add_after_refusal :
      (x : Session http × Option Error) (e : MemoryEntry fl)
      → IsQuiet s x.0 × (succeeded x.1 ≡ false)
      → IsQuiet s (add_after cfg json x e).0 × (succeeded (add_after cfg json x e).1 ≡ false)
  unfolding add_after
  add_after_refusal (s', none) e h = ground arith
  add_after_refusal (s', some error) e h = h

  module _ (shut : (ask_breaker s).1 ≡ false) where
    delete_refuses :
        (id : String)
        → IsQuiet s (delete cfg json s id).0 × (succeeded (delete cfg json s id).1 ≡ false)
    unfolding delete
    delete_refuses id = error_of_refusal s _ (
        if_valid-IsRefusal s (validate_id http id) _
          (rw (guarded_call_refuses s shut) (inr refl, refl)))

    pub cognee-Refuses : Refuses (provider http cfg json) s (IsQuiet s)
    unfolding add search get update get_history entries_after entry_after
    cognee-Refuses = record {
      add_refused = λ e. rw (if_allowed_refuses s shut) (inr refl, refl);
      search_refused = λ r. rw (if_allowed_refuses s shut) (inr refl, refl);
      get_refused = λ id.
          if_valid-IsRefusal s (validate_id http id) _
            (rw (guarded_call_refuses s shut) (inr refl, refl));
      update_refused = λ e. add_after_refusal _ e (delete_refuses e.id);
      delete_refused = delete_refuses;
      get_history_refused = λ u n. rw (if_allowed_refuses s shut) (inr refl, refl);
    }
