-- ===== src/Provider/Adapter.antt =====
-- pkg/provider/adapter.go: the unified provider as a store of package digital.vasic.memory, whose
-- types are a parameter. The readings of the clock and the new identifier are arguments; a nil
-- memory, which the provider does not survive, is left out.
pub mod RoundTrip
use helix_memory.Prelude.{
  ℕ, String, str_eq, ◌≡◌, ◌==◌, List, [], ◌∷◌, map, Option, none, some, Dict, lookup, insert,
  if◌then◌else◌,
}
use helix_memory.Prelude.Int.{ℤ, pos}
use helix_memory.Runtime.{Floats, Runtime}
use helix_memory.Types.{
  MemoryEntry, SearchRequest, SearchResult, TimeRange, Instant, Value, text, float,
  default_search_request,
}
use helix_memory.Types.MemoryType
use helix_memory.Types.MemorySource
use helix_memory.Types.Provider.{MemoryProvider, Error, Result, ok, err}
use helix_memory.Provider.{UnifiedMemoryProvider}
use helix_memory.Provider
use helix_memory.Provider.Search

-- Package store of digital.vasic.memory: its structs, by the fields that the adapter reads and sets.
-- `memory` is the composite literal `&modstore.Memory{…}`.
pub record StoreModule (fl : Floats) : Type 1 where
  pub Memory : Type 0
  pub memory :
      (id content : String) (metadata : Option (Dict (Value fl))) (scope : String)
      (created_at updated_at : Instant) (score : fl.F64) (embedding : List fl.F32)
      → Memory
  pub id : Memory → String
  pub content : Memory → String
  pub metadata : Memory → Option (Dict (Value fl))
  pub scope : Memory → String
  pub created_at : Memory → Instant
  pub updated_at : Memory → Instant
  pub score : Memory → fl.F64
  pub embedding : Memory → List fl.F32
  pub scope_user : String
  pub SearchOptions : Type 0
  pub top_k : SearchOptions → ℤ
  pub min_score : SearchOptions → fl.F64
  pub scope_of : SearchOptions → String
  pub time_range : SearchOptions → Option (Instant × Instant)
  pub ListOptions : Type 0
  pub limit : ListOptions → ℤ

abbrev pub range_of : Option (Instant × Instant) → Option TimeRange
range_of none = none
range_of (some (start, end)) = some (record { start = start; end = end })

-- `for k, v := range m { to[k] = v }`, in any order: the keys of a map are distinct.
unfoldable pub copy_into : {A : Type 0} → Dict A → Dict A → Dict A
unfolding insert
copy_into to [] = to
copy_into to ((k, v) ∷ m) = copy_into (insert k v to) m

abbrev pub entries_of_map : {A : Type 0} → Option (Dict A) → Dict A
entries_of_map none = []
entries_of_map (some m) = m

abbrev pub nonzero_or : Instant → Instant → Instant
nonzero_or now t = if t == 0 then now else t

-- `if scope, ok := e.Metadata["scope"].(string); ok { m.Scope = modstore.Scope(scope) }`
abbrev pub scope_or : {fl : Floats} → String → Option (Value fl) → String
scope_or scope (some (text s)) = s
scope_or scope v = scope

module _ {fl : Floats} where
  -- The metadata of a memory: that of the entry, and where it comes from.
  unfoldable pub module_metadata : MemoryEntry fl → Dict (Value fl)
  unfolding copy_into insert
  module_metadata e = insert "helix_confidence" (float e.confidence) (
      insert "helix_type" (text e.type)
        (insert "helix_source" (text e.source) (copy_into [] (entries_of_map e.metadata))))

  abbrev pub scope_filter : String → Option (Dict (Value fl))
  scope_filter scope = if str_eq scope "" then none else some (("scope", text scope) ∷ [])

module _ {fl : Floats} (store : StoreModule fl) where
  unfoldable pub module_memory_to_entry : (new_id : String) → store.Memory → MemoryEntry fl
  unfolding copy_into insert
  module_memory_to_entry new_id m = record {
    id = if str_eq (store.id m) "" then new_id else store.id m;
    content = store.content m;
    type = MemoryType.fact;
    source = MemorySource.fusion;
    confidence = fl.decimal 0 1;
    relevance = store.score m;
    metadata =
        some (
          insert "scope" (text (store.scope m)) (copy_into [] (entries_of_map (store.metadata m))));
    embedding = store.embedding m;
    user_id = "";
    session_id = "";
    agent_id = "";
    tags = [];
    created_at = store.created_at m;
    updated_at = store.updated_at m;
    expires_at = none;
    access_count = pos 0;
    last_access = 0;
  }

  -- `clock` gives the readings for a missing CreatedAt and UpdatedAt.
  unfoldable pub entry_to_module_memory :
      (clock : Instant × Instant) → MemoryEntry fl → store.Memory
  unfolding module_metadata lookup
  entry_to_module_memory clock e =
      store.memory e.id e.content (some (module_metadata e))
        (scope_or store.scope_user (lookup "scope" (entries_of_map e.metadata)))
        (nonzero_or clock.0 e.created_at) (nonzero_or clock.1 e.updated_at) e.relevance e.embedding

  search_request : (query : String) → Option store.SearchOptions → SearchRequest fl
  search_request query none = default_search_request fl query
  search_request query (some opts) = record (default_search_request fl query) {
    top_k = store.top_k opts;
    min_score = store.min_score opts;
    time_range = range_of (store.time_range opts);
    filter = scope_filter (store.scope_of opts);
  }

  list_limit : Option store.ListOptions → ℤ
  list_limit none = pos 100
  list_limit (some opts) = store.limit opts

module _ {fl : Floats} (store : StoreModule fl) {mp : MemoryProvider fl} (rt : Runtime)
    (now : MemoryEntry fl → Instant) (clock : MemoryEntry fl → Instant × Instant) where
  unfoldable pub add :
      UnifiedMemoryProvider mp
      → (new_id : String) → store.Memory
      → UnifiedMemoryProvider mp × Option Error
  unfolding Provider.add module_memory_to_entry
  add u new_id m = Provider.add rt u (module_memory_to_entry store new_id m)

  unfoldable pub found :
      UnifiedMemoryProvider mp × SearchResult fl → UnifiedMemoryProvider mp × List store.Memory
  unfolding entry_to_module_memory
  found (u, result) = (u, map (λ e. entry_to_module_memory store (clock e) e) result.entries)

  unfoldable pub search :
      UnifiedMemoryProvider mp
      → (query : String) → Option store.SearchOptions
      → UnifiedMemoryProvider mp × List store.Memory
  unfolding found Search.search search_request
  search u query opts = found (Search.search rt now u (search_request store query opts))

  got :
      UnifiedMemoryProvider mp × Result (MemoryEntry fl)
      → UnifiedMemoryProvider mp × Result store.Memory
  unfolding entry_to_module_memory
  got (u, err e) = (u, err e)
  got (u, ok entry) = (u, ok (entry_to_module_memory store (clock entry) entry))

  unfoldable pub get :
      UnifiedMemoryProvider mp → String → UnifiedMemoryProvider mp × Result store.Memory
  unfolding got Provider.get
  get u id = got (Provider.get rt u id)

  unfoldable pub update :
      UnifiedMemoryProvider mp
      → (new_id : String) → store.Memory
      → UnifiedMemoryProvider mp × Option Error
  unfolding Provider.update module_memory_to_entry
  update u new_id m = Provider.update rt u (module_memory_to_entry store new_id m)

  unfoldable pub delete :
      UnifiedMemoryProvider mp → String → UnifiedMemoryProvider mp × Option Error
  unfolding Provider.delete
  delete u id = Provider.delete rt u id

  unfoldable pub list :
      UnifiedMemoryProvider mp
      → (scope : String) → Option store.ListOptions
      → UnifiedMemoryProvider mp × List store.Memory
  unfolding found Search.search list_limit
  list u scope opts = found (
      Search.search rt now u (record (default_search_request fl "*") {
        top_k = list_limit store opts;
        filter = scope_filter scope;
      }))
