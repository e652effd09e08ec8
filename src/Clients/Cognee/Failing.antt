-- ===== src/Clients/Cognee/Failing.antt =====
-- Cognee's Add against a server that is down.
use helix_memory.Prelude.{ℕ, suc, ◌≡◌, refl, [], ◌∷◌, Option, none, some, String, true}
use helix_memory.Runtime.{Floats}
use helix_memory.Types.{MemoryEntry}
use helix_memory.Clients.{Http, Settings, Session, Response, marshalled, settle}
use helix_memory.Clients.Tripping.{
  IsDown, IsTotal, IsSendable, Counted, FailsFrom, is_failure, if_allowed-Counted,
  report_failure_lem,
}
use helix_memory.Clients.Cognee.Wire.{CogneeJson, adding}
use helix_memory.Clients.Cognee.Entries.{add_request}
use helix_memory.Clients.Cognee.{request, after_adding, send_entry, add}

module _ {fl : Floats} {http : Http fl} (cfg : Settings) (json : CogneeJson fl)
    (down : IsDown http) where
  after_adding_fails :
      (s : Session http) (w : http.World) (dataset_id : String) (answer : Option Response)
      → is_failure answer ≡ true
      → FailsFrom s (after_adding cfg json (record s { world = w }) dataset_id answer)
  unfolding after_adding settle
  after_adding_fails s w dataset_id none h = (w, "request failed", refl)
  after_adding_fails s w dataset_id (some r) h = (w, "API error", rw h refl)

  send_entry_fails :
      (s : Session http) (dataset_id : String) (encoded : Option String)
      → IsSendable (marshalled encoded)
      → FailsFrom s (send_entry cfg json s dataset_id encoded)
  unfolding send_entry
  send_entry_fails s dataset_id none h = absurd h
  send_entry_fails s dataset_id (some body) h =
      let asked = request cfg "POST" ("/api/v1/add" ∷ []) (some body) in
      let (w, answer) = http.send s.world asked in
      rw (down.accepting asked)
        (after_adding_fails s w dataset_id answer (down.failing_all s.world asked))

  pub add-Counted :
      (k n : ℕ) (s : Session http) (entry : MemoryEntry fl)
      → IsTotal json.marshal
      → Counted k n s.breaker
      → Counted k (suc n) (add cfg json s entry).0.breaker
  unfolding add
  add-Counted k n s entry total h =
      let asked = add_request entry in
      if_allowed-Counted s _
        (λ s1.
          let (w, e, same) =
            send_entry_fails s1 asked.dataset_id (json.marshal (adding asked)) (total _) in
          rw same (report_failure_lem (record s1 { world = w })))
        h
