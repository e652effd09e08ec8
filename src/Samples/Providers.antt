-- ===== src/Samples/Providers.antt =====
-- A unified provider with Mem0, which is down, and Cognee.
use mathlib.Core.List.{reverse, reverse_perm}
use helix_memory.Prelude.{
  ◌==◌, if◌then◌else◌, lookup, not, exists, ◌≡◌, refl, true, false, List, ◌++◌, [], ◌∷◌, All,
  IsChained, HasDistinctKeys, Perm, length, ne_of_str_eq,
}
use helix_memory.Prelude.Int.{pos}
use helix_memory.Types.{MemoryEntry}
use helix_memory.Types.MemorySource
use helix_memory.Types.Provider.{succeeded}
use helix_memory.Routing.{new_router, route_write, route_read, read_for}
use helix_memory.Provider.{UnifiedMemoryProvider, add, delete}
use helix_memory.Provider.Calls.{delete_needs_all}
use helix_memory.Provider.Writes.{add_falls_back}
use helix_memory.Provider.Search.{search, registered}
use helix_memory.Provider.Gathering.{fused_answers, search-fused_answers}
use helix_memory.Runtime.{Runtime, IsGo}
use helix_memory.Samples.Meshes.{answering}
use helix_memory.Provider.History.{NotOlder, answers, shown, get_history, get_history_newest}
use helix_memory.Samples.World.{thousandths, plain, plain-IsGo}
use helix_memory.Samples.Data.{tea, cocoa, request}
use helix_memory.Samples.Engines.{counting}

abbrev pair : UnifiedMemoryProvider counting
pair = record {
  providers = (MemorySource.mem0, (false, 0)) ∷ (MemorySource.cognee, (true, 0)) ∷ [];
  router = new_router;
}

pair-HasDistinctKeys : HasDistinctKeys pair.providers
pair-HasDistinctKeys = ((ne_of_str_eq MemorySource.mem0 MemorySource.cognee refl, tt), (tt, tt))

add_falls_back_example : succeeded (add plain pair tea).1 ≡ true
unfolding new_router route_write
add_falls_back_example = add_falls_back plain plain-IsGo pair tea pair-HasDistinctKeys refl

-- Two systems that answer, each with an entry of its own, and goroutines that run in reverse order.
abbrev both : UnifiedMemoryProvider answering
both = record {
  providers = (MemorySource.mem0, tea ∷ []) ∷ (MemorySource.cognee, cocoa ∷ []) ∷ [];
  router = new_router;
}

abbrev backwards : Runtime
backwards = record plain {
  interleave = λ A xs. reverse xs;
  source_label = λ i. if i == 0 then "first" else "second";
}

backwards-IsGo : IsGo backwards
backwards-IsGo = record {
  range_order-perm = plain-IsGo.range_order-perm;
  interleave-perm = λ A xs. reverse_perm xs;
  sort_slice-perm = plain-IsGo.sort_slice-perm;
  sort_slice_sorts = plain-IsGo.sort_slice_sorts;
}

search-fused_answers_example :
    (search backwards (λ e. 0) both (request "tea")).1
    ≡ fused_answers
        (request "tea")
        backwards
        (λ e. 0)
        both
        (MemorySource.mem0 ∷ MemorySource.cognee ∷ [])
unfolding registered route_read read_for new_router lookup
search-fused_answers_example =
    search-fused_answers (request "tea") backwards backwards-IsGo (λ e. 0) both
      ((ne_of_str_eq MemorySource.mem0 MemorySource.cognee refl, tt), (tt, tt))

get_history_newest_example :
    let out = (get_history plain pair "u" (pos 1)).1 in
    (dropped : List (MemoryEntry thousandths)) × Perm
      (out ++ dropped)
      (answers plain pair "u" (pos 1))
    × IsChained NotOlder out
    × All (λ k. All (NotOlder k) dropped) out
    × (length out ≡ shown (pos 1) (length (answers plain pair "u" (pos 1))))
get_history_newest_example = get_history_newest plain pair "u" (pos 1)

delete_needs_all_example :
    succeeded (delete plain pair "1").1
    ≡ not (exists (λ e. not (succeeded (counting.delete e.1 "1").1)) pair.providers)
delete_needs_all_example = delete_needs_all plain plain-IsGo pair "1"
