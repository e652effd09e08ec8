-- ===== src/Fusion/Engine.antt =====
-- pkg/fusion/engine.go: the fusion engine over its three clients. A client that is nil is `none`.
-- Goroutines that run at once take effect in the order that `rt.interleave` gives. Logging is left
-- out. The state of a method is the engine, which comes back.
pub mod Systems
pub mod Stores
pub mod Health
pub mod Combine
pub mod Agents
pub mod Setup
use helix_memory.Prelude.{
  ℕ, ◌+◌, String, Bool, true, false, not, ◌&&◌, ◌||◌, List, [], ◌∷◌, ◌++◌, Option, none, some, Dict,
  insert, str_eq, if◌then◌else◌, ltb, ◌==◌, length,
}
use helix_memory.Prelude.Int.{ℤ, pos}
use helix_memory.Runtime.{Floats, Runtime}
use helix_memory.Types.{
  MemoryEntry, SearchRequest, SearchResult, FusionResult, FusionStats, Instant,
  default_search_request, Value, text,
}
use helix_memory.Types.MemoryType
use helix_memory.Types.MemorySource
use helix_memory.Types.MemorySource.{MemorySource}
use helix_memory.Types.Provider.{MemoryProvider, Error, Result, ok, err, succeeded}
use helix_memory.Fusion.Router.{select_systems_for_write, select_systems_for_read}
use helix_memory.Fusion.Fuse.{fuse_results}

-- The clients, and the flags of the health checks.
pub record FusionEngine {fl : Floats} (mp : MemoryProvider fl) : Type 0 where
  pub cognee : Option mp.State
  pub mem0 : Option mp.State
  pub letta : Option mp.State
  pub cognee_healthy : Bool
  pub mem0_healthy : Bool
  pub letta_healthy : Bool

put_result :
    {fl : Floats}
    → MemorySource
    → Result (Option (SearchResult fl))
    → Dict (Option (SearchResult fl))
    → Dict (Option (SearchResult fl))
unfolding insert
put_result system (err x) results = results
put_result system (ok result) results = insert system result results

module _ {fl : Floats} {mp : MemoryProvider fl} where
  unfoldable pub is_healthy : FusionEngine mp → MemorySource → Bool
  is_healthy e system =
      if str_eq system MemorySource.cognee
      then e.cognee_healthy
      else if str_eq system MemorySource.mem0
      then e.mem0_healthy
      else if str_eq system MemorySource.letta
      then e.letta_healthy
      else false

  unfoldable pub set_health : FusionEngine mp → MemorySource → Bool → FusionEngine mp
  set_health e system healthy =
      if str_eq system MemorySource.cognee
      then record e { cognee_healthy = healthy }
      else if str_eq system MemorySource.mem0
      then record e { mem0_healthy = healthy }
      else if str_eq system MemorySource.letta
      then record e { letta_healthy = healthy }
      else e

  -- The field that a `case` of the switches on the system reads, and its assignment.
  unfoldable pub client : FusionEngine mp → MemorySource → Option mp.State
  client e system =
      if str_eq system MemorySource.cognee
      then e.cognee
      else if str_eq system MemorySource.mem0
      then e.mem0
      else if str_eq system MemorySource.letta
      then e.letta
      else none

  unfoldable pub set_client : FusionEngine mp → MemorySource → mp.State → FusionEngine mp
  set_client e system s =
      if str_eq system MemorySource.cognee
      then record e { cognee = some s }
      else if str_eq system MemorySource.mem0
      then record e { mem0 = some s }
      else if str_eq system MemorySource.letta
      then record e { letta = some s }
      else e

  -- The client, if it is there and healthy.
  unfoldable pub available : FusionEngine mp → MemorySource → Option mp.State
  unfolding is_healthy client
  available e system = if is_healthy e system then client e system else none

  add_to :
      FusionEngine mp
      → MemoryEntry fl
      → MemorySource
      → Option mp.State
      → FusionEngine mp × Option Error
  unfolding set_client
  add_to e entry system none = (e, some "not available")
  add_to e entry system (some s) =
      let (s', error) = mp.add s entry in (set_client e system s', error)

  -- The default case, an unknown system, has no client either.
  unfoldable pub store_to_system :
      FusionEngine mp → MemoryEntry fl → MemorySource → FusionEngine mp × Option Error
  unfolding add_to available
  store_to_system e entry system = add_to e entry system (available e system)

  -- The goroutines of Store, and the number of errors that they send.
  unfoldable pub store_to_all :
      FusionEngine mp → MemoryEntry fl → List MemorySource → FusionEngine mp × ℕ
  unfolding store_to_system
  store_to_all e entry [] = (e, 0)
  store_to_all e entry (s ∷ ss) =
      let (e', error) = store_to_system e entry s in
      let (e'', errors) = store_to_all e' entry ss in
      (e'', if succeeded error then errors else errors + 1)

  unfoldable pub store : Runtime → FusionEngine mp → MemoryEntry fl → FusionEngine mp × Option Error
  unfolding store_to_all select_systems_for_write
  store rt e entry =
      let systems = select_systems_for_write entry in
      let (e', errors) = store_to_all e entry (rt.interleave MemorySource systems) in
      (
        e',
        if ltb 0 errors && errors == length systems
            then some "fusion: all systems failed"
            else none,
      )

  search_in :
      FusionEngine mp
      → SearchRequest fl
      → MemorySource
      → Option mp.State
      → FusionEngine mp × Result (Option (SearchResult fl))
  unfolding set_client
  search_in e req system none = (e, err "not available")
  search_in e req system (some s) =
      let (s', result) = mp.search s req in (set_client e system s', result)

  unfoldable pub retrieve_from_system :
      FusionEngine mp
      → SearchRequest fl
      → MemorySource
      → FusionEngine mp × Result (Option (SearchResult fl))
  unfolding search_in available
  retrieve_from_system e req system = search_in e req system (available e system)

  -- The goroutines of Retrieve, with the results that they send.
  unfoldable pub retrieve_from_all :
      FusionEngine mp
      → SearchRequest fl
      → List MemorySource
      → Dict (Option (SearchResult fl))
      → FusionEngine mp × Dict (Option (SearchResult fl))
  unfolding retrieve_from_system put_result
  retrieve_from_all e req [] results = (e, results)
  retrieve_from_all e req (s ∷ ss) results =
      let (e', result) = retrieve_from_system e req s in
      retrieve_from_all e' req ss (put_result s result results)

  unfoldable pub retrieve :
      Runtime
      → (now : MemoryEntry fl → Instant) → (duration : ℕ) → FusionEngine mp
      → SearchRequest fl
      → FusionEngine mp × FusionResult fl
  unfolding retrieve_from_all select_systems_for_read fuse_results
  retrieve rt now duration e req =
      let systems = rt.interleave MemorySource (select_systems_for_read req) in
      let (e', results) = retrieve_from_all e req systems [] in
      let fused = fuse_results fl rt now results req in
      (e', record fused { duration = duration; query = req.query })

  delete_from :
      FusionEngine mp → String → MemorySource → Option mp.State → FusionEngine mp × Option Error
  unfolding set_client
  delete_from e id system none = (e, none)
  delete_from e id system (some s) =
      let (s', error) = mp.delete s id in (set_client e system s', error)

  -- Deletion asks Cognee and Mem0, healthy or not.
  unfoldable pub delete : FusionEngine mp → String → FusionEngine mp × Option Error
  unfolding delete_from
  delete e id =
      let (e1, cognee_error) = delete_from e id MemorySource.cognee e.cognee in
      let (e2, mem0_error) = delete_from e1 id MemorySource.mem0 e1.mem0 in
      (
        e2,
        if succeeded cognee_error && succeeded mem0_error
            then none
            else some "fusion: delete failed",
      )

  check_health :
      FusionEngine mp → MemorySource → Option mp.State → FusionEngine mp × Dict (Option Error)
  unfolding set_client set_health
  check_health e system none = (e, [])
  check_health e system (some s) =
      let (s', error) = mp.health s in
      (set_health (set_client e system s') system (succeeded error), (system, error) ∷ [])

  unfoldable pub health_check : FusionEngine mp → FusionEngine mp × Dict (Option Error)
  unfolding check_health
  health_check e =
      let (e1, cognee) = check_health e MemorySource.cognee e.cognee in
      let (e2, mem0) = check_health e1 MemorySource.mem0 e1.mem0 in
      let (e3, letta) = check_health e2 MemorySource.letta e2.letta in (e3, cognee ++ mem0 ++ letta)

  unfoldable pub get_stats : FusionEngine mp → (now : Instant) → FusionStats
  unfolding is_healthy
  get_stats e now = record {
    cognee_healthy = is_healthy e MemorySource.cognee;
    mem0_healthy = is_healthy e MemorySource.mem0;
    letta_healthy = is_healthy e MemorySource.letta;
    cognee_count = pos 0;
    mem0_count = pos 0;
    letta_count = pos 0;
    timestamp = now;
  }
