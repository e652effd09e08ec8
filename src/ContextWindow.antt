-- ===== src/ContextWindow.antt =====
-- pkg/features/context_window/context_window.go: memories packed into a budget of tokens. A provider
-- that returns neither a result nor an error makes Build panic, which is `none`.
pub mod Packing
use helix_memory.Prelude.{
  ℕ, suc, ◌+◌, ◌*◌, ◌/◌, String, List, [], ◌∷◌, ◌++◌, map, Option, none, some, Dict, if◌then◌else◌,
  length,
}
use helix_memory.Prelude.Int.{ℤ, pos, pos_part, neg_part, sub_ℕ, leb_ℤ, ltb_ℤ}
use helix_memory.Runtime.{Floats, Runtime}
use helix_memory.Types.{MemoryEntry, SearchRequest, SearchResult, Value, default_search_request}
use helix_memory.Types.MemorySource.{MemorySource}
use helix_memory.Types.Provider.{MemoryProvider, Result, ok, err}

pub record ContextWindow {fl : Floats} (mp : MemoryProvider fl) : Type 0 where
  pub provider : mp.State
  pub max_tokens : ℤ
  pub reserved : ℤ

pub record ContextBlock (fl : Floats) : Type 0 where
  pub content : String
  pub source : MemorySource
  pub priority : fl.F64
  pub token_count : ℕ
  pub metadata : Option (Dict (Value fl))

pub record ManagedContext (fl : Floats) : Type 0 where
  pub blocks : List (ContextBlock fl)
  pub total_tokens : ℕ
  pub max_tokens : ℤ
  pub utilization : fl.F64
  pub dropped : ℕ

-- `a - b`
abbrev pub sub_ℤ : ℤ → ℤ → ℤ
sub_ℤ a b = sub_ℕ (pos_part a + neg_part b) (pos_part b + neg_part a)

-- `fields` is strings.Fields.
unfoldable pub estimate_tokens : Runtime → (fields : String → List String) → String → ℕ
estimate_tokens rt fields content =
    let words = length (fields content) in
    let chars = rt.len content in (words * 4 / 3 + chars / 4) / 2

module _ {fl : Floats} where
  unfoldable pub block_of :
      Runtime → (fields : String → List String) → MemoryEntry fl → ContextBlock fl
  unfolding estimate_tokens
  block_of rt fields entry = record {
    content = entry.content;
    source = entry.source;
    priority =
        fl.add (fl.mul entry.relevance (fl.decimal 6 1)) (fl.mul entry.confidence (fl.decimal 4 1));
    token_count = estimate_tokens rt fields entry.content;
    metadata = entry.metadata;
  }

  -- One turn of the packing loop, and the loop.
  unfoldable pub pack_one :
      (available : ℤ) → ManagedContext fl → ContextBlock fl → ManagedContext fl
  pack_one available managed block =
      let total = managed.total_tokens + block.token_count in
      if leb_ℤ (pos total) available
      then record managed { blocks = managed.blocks ++ (block ∷ []); total_tokens = total }
      else record managed { dropped = suc managed.dropped }

  unfoldable pub pack :
      (available : ℤ) → ManagedContext fl → List (ContextBlock fl) → ManagedContext fl
  unfolding pack_one
  pack available managed [] = managed
  pack available managed (block ∷ blocks) = pack available (pack_one available managed block) blocks

  -- The context that packing starts with.
  abbrev pub unpacked : (max_tokens : ℤ) → ManagedContext fl
  unpacked max_tokens = record {
    blocks = [];
    total_tokens = 0;
    max_tokens = max_tokens;
    utilization = fl.decimal 0 1;
    dropped = 0;
  }

  -- From the highest priority to the lowest.
  unfoldable pub sorted_blocks :
      Runtime → (fields : String → List String) → List (MemoryEntry fl) → List (ContextBlock fl)
  unfolding block_of
  sorted_blocks rt fields entries =
      rt.sort_slice (ContextBlock fl) (λ a b. fl.lt b.priority a.priority)
        (map (block_of rt fields) entries)

module _ {fl : Floats} {mp : MemoryProvider fl} where
  abbrev pub new_context_window : mp.State → (max_tokens : ℤ) → ContextWindow mp
  new_context_window provider max_tokens = record {
    provider = provider;
    max_tokens = max_tokens;
    reserved = pos 2000;
  }

  abbrev pub set_reserved : ContextWindow mp → (tokens : ℤ) → ContextWindow mp
  set_reserved cw tokens = record cw { reserved = tokens }

  abbrev pub available : ContextWindow mp → ℤ
  available cw = sub_ℤ cw.max_tokens cw.reserved

  -- Build, after the search.
  unfoldable pub managed_of :
      Runtime
      → (fields : String → List String) → ContextWindow mp
      → List (MemoryEntry fl)
      → ManagedContext fl
  unfolding pack sorted_blocks
  managed_of rt fields cw entries =
      let managed =
        pack (available cw) (unpacked cw.max_tokens) (sorted_blocks rt fields entries) in
      let used = fl.div (fl.of_int (pos managed.total_tokens)) (fl.of_int cw.max_tokens) in
      if ltb_ℤ (pos 0) cw.max_tokens then record managed { utilization = used } else managed

  build_from :
      Runtime
      → (fields : String → List String) → ContextWindow mp
      → Result (Option (SearchResult fl))
      → Option (ContextWindow mp × Result (ManagedContext fl))
  unfolding managed_of
  build_from rt fields cw (err e) = some (cw, err "context window search")
  build_from rt fields cw (ok none) = none
  build_from rt fields cw (ok (some result)) =
      some (cw, ok (managed_of rt fields cw result.entries))

  unfoldable pub build :
      Runtime
      → (fields : String → List String) → ContextWindow mp
      → (query user_id : String) → Option (ContextWindow mp × Result (ManagedContext fl))
  unfolding build_from
  build rt fields cw query user_id =
      let req = record (default_search_request fl query) { user_id = user_id; top_k = pos 50 } in
      let (s, answer) = mp.search cw.provider req in
      build_from rt fields (record cw { provider = s }) answer
