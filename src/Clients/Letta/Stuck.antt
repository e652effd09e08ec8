-- ===== src/Clients/Letta/Stuck.antt =====
-- The Letta client looks for its agent once: what it finds at first, or fails to find, is final.
use helix_memory.Prelude.{if_keeps, String, str_eq, List, true, ◌≡◌, refl, ap, Bool-cases, inl, inr}
use helix_memory.Runtime.{Floats}
use helix_memory.Types.Provider.{
  Result, ok, err, IsInvariant, Operation, operate_all, operate_all-IsInvariant,
}
use helix_memory.Clients.{Http, Settings, ask_breaker, read_clock}
use helix_memory.Clients.Letta.Wire.{LettaJson}
use helix_memory.Clients.Letta.{
  Letta, letta_allowed, ensured_result, with_agent, ensure_agent, agent_for, add, get, update,
  delete, search, get_messages, get_history, health, provider,
}

-- The search for the agent is over, and `r` is what it gave.
abbrev pub IsSettled : {fl : Floats} {http : Http fl} → Result String → Letta http → Type 0
IsSettled r l = (l.ensured ≡ true) × (ensured_result l.ensure_error l.cached_agent_id ≡ r)

module _ {fl : Floats} {http : Http fl} (r : Result String) where
  letta_allowed-IsSettled :
      {A : Type 0} (l : Letta http) (rest : Letta http → Letta http × Result A)
      → ((l1 : Letta http) → IsSettled r l1 → IsSettled r (rest l1).0)
      → IsSettled r l
      → IsSettled r (letta_allowed l rest).0
  unfolding letta_allowed
  letta_allowed-IsSettled {A} l rest keeps h =
      let l1 = record l { session = (ask_breaker l.session).0 } in
      if_keeps (λ (x : Letta http × Result A). IsSettled r x.0) (ask_breaker l.session).1 _ _
        (keeps l1 h) h

  with_agent-IsSettled :
      {A : Type 0} (rest : Letta http → String → Letta http × Result A)
      (found : Letta http × Result String)
      → ((l : Letta http) (id : String) → IsSettled r l → IsSettled r (rest l id).0)
      → IsSettled r found.0
      → IsSettled r (with_agent rest found).0
  unfolding with_agent
  with_agent-IsSettled rest (l, err e) keeps h = h
  with_agent-IsSettled rest (l, ok id) keeps h = keeps l id h

module _ {fl : Floats} {http : Http fl} (cfg : Settings) (json : LettaJson fl) where
  -- EnsureAgent leaves a settled client alone.
  ensure_settled :
      (r : Result String) (l : Letta http) → IsSettled r l → ensure_agent cfg json l ≡ (l, r)
  unfolding ensure_agent
  ensure_settled r l h = rw h.0 (rw h.1 refl)

  -- EnsureAgent settles the client.
  ensure_agent-IsSettled :
      (l : Letta http) → IsSettled (ensure_agent cfg json l).1 (ensure_agent cfg json l).0
  unfolding ensure_agent
  ensure_agent-IsSettled l = elim (Bool-cases l.ensured) [
    | inl b ↦ rw b (refl, refl)
    | inr b ↦ rw b (refl, refl)
  ]

  module _ (r : Result String) where
    ensure_agent_keeps : (l : Letta http) → IsSettled r l → IsSettled r (ensure_agent cfg json l).0
    ensure_agent_keeps l h = rw (ensure_settled r l h) h

    agent_for_keeps :
        (l : Letta http) (given : String)
        → IsSettled r l
        → IsSettled r (agent_for cfg json l given).0
    unfolding agent_for
    agent_for_keeps l given h =
        if_keeps (λ (x : Letta http × Result String). IsSettled r x.0) (str_eq given "") _ _
          (ensure_agent_keeps l h) h

    IsSettled-IsInvariant : IsInvariant (provider http cfg json) (IsSettled r)
    unfolding add search get update delete get_history get_messages health
    IsSettled-IsInvariant = record {
      add_keeps = λ l e h.
          letta_allowed-IsSettled r l _
            (λ l1 k. with_agent-IsSettled r _ _ (λ l2 id j. j) (agent_for_keeps l1 e.agent_id k)) h;
      search_keeps = λ l q h.
          letta_allowed-IsSettled r l _
            (λ l1 k.
              with_agent-IsSettled r _ _ (λ l2 id j. j)
                (agent_for_keeps (record l1 { session = (read_clock l1.session).0 }) q.agent_id k))
            h;
      get_keeps = λ l id h.
          letta_allowed-IsSettled r l _
            (λ l1 k. with_agent-IsSettled r _ _ (λ l2 i j. j) (ensure_agent_keeps l1 k)) h;
      update_keeps = λ l e h.
          letta_allowed-IsSettled r l _
            (λ l1 k. with_agent-IsSettled r _ _ (λ l2 id j. j) (agent_for_keeps l1 e.agent_id k)) h;
      delete_keeps = λ l id h.
          letta_allowed-IsSettled r l _
            (λ l1 k. with_agent-IsSettled r _ _ (λ l2 i j. j) (ensure_agent_keeps l1 k)) h;
      get_history_keeps = λ l id n h. letta_allowed-IsSettled r l _ (λ l1 k. k) h;
      health_keeps = λ l h. h;
    }

  -- What EnsureAgent gives at its first call, an error included, it gives for ever: whatever
  -- operations of the provider interface follow, a later call of it gives the same result.
  pub ensure_agent_is_final :
      (l : Letta http) (ops : List (Operation fl))
      → (ensure_agent cfg json
          (operate_all (provider http cfg json) (ensure_agent cfg json l).0 ops)).1
        ≡ (ensure_agent cfg json l).1
  ensure_agent_is_final l ops =
      let r = (ensure_agent cfg json l).1 in
      let settled =
        operate_all-IsInvariant (provider http cfg json) (IsSettled r) (IsSettled-IsInvariant r) _
          ops (ensure_agent-IsSettled l) in
      ap (λ x. x.1) (ensure_settled r _ settled)
