-- ===== src/Fusion/Engine/Agents.antt =====
-- pkg/fusion/engine.go: the calls for a user or an agent, and those of the knowledge graph. The
-- identifier of a new entry and the clock's reading are arguments. The result that GetHistory makes
-- of a client's entries has no duration.
use helix_memory.Prelude.{ℕ, String, List, [], ◌∷◌, Option, none, some, Dict, length}
use helix_memory.Prelude.Int.{ℤ, pos}
use helix_memory.Runtime.{Floats, Runtime}
use helix_memory.Types.{
  MemoryEntry, SearchResult, FusionResult, Instant, Value, text, default_search_request,
}
use helix_memory.Types.MemoryType
use helix_memory.Types.MemorySource
use helix_memory.Types.MemorySource.{MemorySource}
use helix_memory.Types.Provider.{MemoryProvider, Error, Result, ok, err}
use helix_memory.Fusion.Engine.{
  FusionEngine, available, set_client, put_result, retrieve, retrieve_from_system,
}
use helix_memory.Fusion.Fuse.{fuse_results}

history_result :
    {fl : Floats}
    → MemorySource
    → Result (List (MemoryEntry fl))
    → Result (Option (SearchResult fl))
history_result system (err e) = err e
history_result system (ok entries) = ok (
    some
      (record { entries = entries; total = length entries; duration = 0; sources = system ∷ [] }))

abbrev pub knowledge_entry :
    (fl : Floats) (id content : String)
    → Option (Dict (Value fl))
    → (created updated : Instant) → MemoryEntry fl
knowledge_entry fl id content metadata created updated = record {
  id = id;
  content = content;
  type = MemoryType.graph;
  source = "";
  confidence = fl.decimal 0 1;
  relevance = fl.decimal 0 1;
  metadata = metadata;
  embedding = [];
  user_id = "";
  session_id = "";
  agent_id = "";
  tags = [];
  created_at = created;
  updated_at = updated;
  expires_at = none;
  access_count = pos 0;
  last_access = 0;
}

module _ {fl : Floats} {mp : MemoryProvider fl} where
  history_in :
      FusionEngine mp
      → (user_id : String) → (limit : ℤ) → MemorySource
      → Option mp.State
      → FusionEngine mp × Result (Option (SearchResult fl))
  unfolding history_result set_client
  history_in e user_id limit system none = (e, err "not available")
  history_in e user_id limit system (some s) =
      let (s', entries) = mp.get_history s user_id limit in
      (set_client e system s', history_result system entries)

  unfoldable pub get_history :
      Runtime
      → (now : MemoryEntry fl → Instant) → FusionEngine mp
      → (user_id : String) → (limit : ℤ) → FusionEngine mp × FusionResult fl
  unfolding history_in available put_result fuse_results
  get_history rt now e user_id limit =
      let (e1, mem0) =
        history_in e user_id limit MemorySource.mem0 (available e MemorySource.mem0) in
      let (e2, cognee) =
        history_in e1 user_id limit MemorySource.cognee (available e1 MemorySource.cognee) in
      let results = put_result MemorySource.cognee cognee (put_result MemorySource.mem0 mem0 []) in
      let req = record (default_search_request fl "") { user_id = user_id; top_k = limit } in
      (e2, fuse_results fl rt now results req)

  unfoldable pub query :
      Runtime
      → (now : MemoryEntry fl → Instant) → (duration : ℕ) → FusionEngine mp
      → (query user_id : String) → FusionEngine mp × FusionResult fl
  unfolding retrieve
  query rt now duration e asked user_id =
      retrieve rt now duration e (record (default_search_request fl asked) { user_id = user_id })

  -- The client's Add, whose error is only logged.
  try_add : MemoryEntry fl → MemorySource → Option mp.State → FusionEngine mp → FusionEngine mp
  unfolding set_client
  try_add entry system none e = e
  try_add entry system (some s) e = set_client e system (mp.add s entry).0

  -- The entry comes back with its new agent, if a client is there. The call never fails.
  unfoldable pub store_with_agent :
      FusionEngine mp → MemoryEntry fl → (agent_id : String) → FusionEngine mp × Option Error
  unfolding try_add
  store_with_agent e entry agent_id =
      let owned = record entry { agent_id = agent_id } in
      let e1 = try_add owned MemorySource.mem0 e.mem0 e in
      (try_add owned MemorySource.letta e1.letta e1, none)

  unfoldable pub retrieve_for_agent :
      Runtime
      → (now : MemoryEntry fl → Instant) → FusionEngine mp
      → (query agent_id : String) → FusionEngine mp × FusionResult fl
  unfolding retrieve_from_system put_result fuse_results
  retrieve_for_agent rt now e query agent_id =
      let req = record (default_search_request fl query) { agent_id = agent_id } in
      let (e1, letta) = retrieve_from_system e req MemorySource.letta in
      let (e2, mem0) = retrieve_from_system e1 req MemorySource.mem0 in
      let results = put_result MemorySource.mem0 mem0 (put_result MemorySource.letta letta []) in
      (e2, fuse_results fl rt now results req)

  add_knowledge :
      FusionEngine mp → MemoryEntry fl → Option mp.State → FusionEngine mp × Option Error
  unfolding set_client
  add_knowledge e entry none = (e, some "cognee not available")
  add_knowledge e entry (some s) =
      let (s', error) = mp.add s entry in (set_client e MemorySource.cognee s', error)

  unfoldable pub create_knowledge_graph :
      FusionEngine mp
      → (id content : String) → Option (Dict (Value fl))
      → (created updated : Instant) → FusionEngine mp × Option Error
  unfolding add_knowledge available
  create_knowledge_graph e id content metadata created updated =
      add_knowledge e (knowledge_entry fl id content metadata created updated)
        (available e MemorySource.cognee)

  unfoldable pub query_knowledge_graph :
      FusionEngine mp → String → FusionEngine mp × Result (Option (SearchResult fl))
  unfolding retrieve_from_system
  query_knowledge_graph e query =
      let filter = some (("search_type", text "GRAPH_COMPLETION") ∷ []) in
      retrieve_from_system e (record (default_search_request fl query) { filter = filter })
        MemorySource.cognee
