-- ===== src/Samples/Fusing.antt =====
-- Two systems answer, with an entry in common.
use helix_memory.Prelude.{
  ◌≡◌, ◌≢◌, refl, List, [], ◌∷◌, ◌++◌, map, Option, none, some, Dict, Mem, All, IsChained, Perm,
  length, eq_iff, arith,
}
use helix_memory.Prelude.Int.{pos}
use helix_memory.Types.{MemoryEntry, SearchResult, Instant}
use helix_memory.Types.MemorySource
use helix_memory.Fusion.Dedup.{Cache, deduplicate, deduplicate_entries}
use helix_memory.Fusion.Dedup.Coverage.{IsKeptFor, deduplicate_entries_keeps}
use helix_memory.Fusion.Dedup.Seen.{Differ, deduplicate_loses}
use helix_memory.Fusion.Fuse.{ScoredEntry, limit_of, with_relevance, fuse_results}
use helix_memory.Fusion.Fuse.Ranking.{NotBelow, candidates, fuse_results_ranks}
use helix_memory.Fusion.Merge.{merge_similar}
use helix_memory.Fusion.Merge.Results.{Distinct, IsMerged, merge_similar_lem}
use helix_memory.Samples.World.{
  thousandths, thousandths-IsStrictWeak, thousandths-IsFloatOrder, plain, plain-IsGo,
}
use helix_memory.Samples.Data.{tea, tea_again, cocoa, request, result}

abbrev given : List (MemoryEntry thousandths)
given = tea ∷ tea_again ∷ cocoa ∷ []

abbrev answers : Dict (Option (SearchResult thousandths))
answers =
    (MemorySource.mem0, some (result (tea ∷ [])))
    ∷ (MemorySource.cognee, some (result (tea_again ∷ [])))
    ∷ (MemorySource.letta, none)
    ∷ []

abbrev now : MemoryEntry thousandths → Instant
now e = 10

fuse_results_ranks_example :
    let out = fuse_results thousandths plain now answers (request "tea") in
    (kept : List (ScoredEntry thousandths)) × (dropped : List (ScoredEntry thousandths)) × Perm
      (kept ++ dropped)
      (candidates thousandths plain now answers (request "tea"))
    × (out.entries ≡ map (with_relevance thousandths) kept)
    × (length kept
        ≡ limit_of (pos 2) (length (candidates thousandths plain now answers (request "tea"))))
    × (out.total ≡ length kept)
    × IsChained (NotBelow thousandths) kept
    × All (λ k. All (NotBelow thousandths k) dropped) kept
fuse_results_ranks_example =
    fuse_results_ranks thousandths plain plain-IsGo thousandths-IsStrictWeak now answers
      (request "tea")

deduplicate_entries_keeps_example :
    All (λ r. Mem r given) (deduplicate_entries thousandths plain given)
    × All (IsKeptFor thousandths (deduplicate_entries thousandths plain given)) given
deduplicate_entries_keeps_example =
    deduplicate_entries_keeps thousandths plain plain-IsGo thousandths-IsStrictWeak given

abbrev empty_cache : Cache
empty_cache = record { seen_ids = []; seen_content = [] }

deduplicate_loses_example : ((deduplicate empty_cache given).1 ≡ tea ∷ []) × Differ tea cocoa
deduplicate_loses_example =
    deduplicate_loses empty_cache tea tea_again cocoa refl (λ e. ground (arith, eq_iff "1" "2"))
      refl (λ e. ground (arith, eq_iff "likes tea" "knows cocoa"))

merge_similar_lem_example :
    let out = merge_similar thousandths plain given 900 in
    All (λ r. r ≢ none) out
    × IsChained (Distinct thousandths plain) out
    × All (IsMerged thousandths plain out) given
merge_similar_lem_example =
    merge_similar_lem thousandths plain plain-IsGo thousandths-IsFloatOrder given 900
