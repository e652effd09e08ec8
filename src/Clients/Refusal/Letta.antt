-- ===== src/Clients/Refusal/Letta.antt =====
-- The client of Letta while its circuit breaker allows nothing.
use helix_memory.Prelude.{◌≡◌, refl, false}
use helix_memory.Runtime.{Floats}
use helix_memory.Types.Provider.{Result, err}
use helix_memory.Clients.{Http, Settings, ask_breaker}
use helix_memory.Clients.Refusal.{Refuses}
use helix_memory.Clients.Letta.Wire.{LettaJson}
use helix_memory.Clients.Letta.{
  Letta, letta_allowed, add, search, get, update, delete, get_history, provider,
}

module _ {fl : Floats} {http : Http fl} (l : Letta http)
    (shut : (ask_breaker l.session).1 ≡ false) where
  letta_allowed_refuses :
      {A : Type 0} (rest : Letta http → Letta http × Result A)
      → letta_allowed l rest
        ≡ (record l { session = (ask_breaker l.session).0 }, err "circuit breaker open")
  unfolding letta_allowed
  letta_allowed_refuses rest = rw shut refl

  pub letta-Refuses :
      (cfg : Settings) (json : LettaJson fl)
      → Refuses
          (provider http cfg json)
          l
          (λ after. after ≡ record l { session = (ask_breaker l.session).0 })
  unfolding add search get update delete get_history
  letta-Refuses cfg json = record {
    add_refused = λ e. rw letta_allowed_refuses (refl, refl);
    search_refused = λ r. rw letta_allowed_refuses (refl, refl);
    get_refused = λ id. rw letta_allowed_refuses (refl, refl);
    update_refused = λ e. rw letta_allowed_refuses (refl, refl);
    delete_refused = λ id. rw letta_allowed_refuses (refl, refl);
    get_history_refused = λ u n. rw letta_allowed_refuses (refl, refl);
  }
