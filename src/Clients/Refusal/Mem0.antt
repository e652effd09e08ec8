-- ===== src/Clients/Refusal/Mem0.antt =====
-- The client of Mem0 while its circuit breaker allows nothing.
use helix_memory.Prelude.{◌≡◌, refl, false, inr}
use helix_memory.Runtime.{Floats}
use helix_memory.Clients.{Http, Settings, Session, ask_breaker, validate_id}
use helix_memory.Clients.Refusal.{
  Refuses, IsQuiet, if_allowed_refuses, guarded_call_refuses, if_valid-IsRefusal, error_of_refusal,
}
use helix_memory.Clients.Mem0.Wire.{Mem0Json}
use helix_memory.Clients.Mem0.{
  add_call, add, search, get, update, delete, get_history, entries_after, entry_after, provider,
}

module _ {fl : Floats} {http : Http fl} (cfg : Settings) (json : Mem0Json fl) (s : Session http)
    (shut : (ask_breaker s).1 ≡ false) where
  pub mem0-Refuses : Refuses (provider http cfg json) s (IsQuiet s)
  unfolding add_call add search get update delete get_history entries_after entry_after
  mem0-Refuses = record {
    add_refused = λ e. rw (guarded_call_refuses s shut) (inr refl, refl);
    search_refused = λ r. rw (if_allowed_refuses s shut) (inr refl, refl);
    get_refused = λ id.
        if_valid-IsRefusal s (validate_id http id) _
          (rw (guarded_call_refuses s shut) (inr refl, refl));
    update_refused = λ e. rw (guarded_call_refuses s shut) (inr refl, refl);
    delete_refused = λ id. error_of_refusal s _ (
        if_valid-IsRefusal s (validate_id http id) _
          (rw (guarded_call_refuses s shut) (inr refl, refl)));
    get_history_refused = λ u n. rw (guarded_call_refuses s shut) (inr refl, refl);
  }
