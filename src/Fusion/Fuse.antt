-- ===== src/Fusion/Fuse.antt =====
-- pkg/fusion/consolidator.go: `FuseResults`. The map of results is an association list, whose values
-- may be nil, and `rt` says in which order it is walked; `now` gives the instant at which an entry's
-- age is taken.
pub mod Ranking
use helix_memory.Prelude.{
  ℕ, String, Bool, true, false, List, [], ◌∷◌, ◌++◌, map, Option, none, some, Dict, insert, length,
  take, if◌then◌else◌, ltb,
}
use helix_memory.Prelude.Int.{ℤ, pos, pos_part, leb_ℤ}
use helix_memory.Runtime.{Floats, Runtime}
use helix_memory.Types.{MemoryEntry, SearchRequest, SearchResult, FusionResult, Instant}
use helix_memory.Types.MemorySource.{MemorySource}
use helix_memory.Fusion.Scoring.{calculate_fusion_score}
use helix_memory.Fusion.Dedup.{deduplicate_entries}

pub record ScoredEntry (fl : Floats) : Type 0 where
  pub entry : MemoryEntry fl
  pub score : fl.F64

-- `limit := req.TopK`, 10 if it is not positive, at most the number of entries
unfoldable pub limit_of : (top_k : ℤ) (count : ℕ) → ℕ
limit_of top_k count =
    let limit = if leb_ℤ top_k (pos 0) then 10 else pos_part top_k in
    if ltb count limit then count else limit

module _ (fl : Floats) where
  -- The first loop: the sources, their totals, and all entries.
  unfoldable pub flatten_results :
      List (MemorySource × Option (SearchResult fl))
      → List MemorySource × Dict ℕ × List (MemoryEntry fl)
  unfolding insert
  flatten_results [] = ([], [], [])
  flatten_results ((source, none) ∷ rs) = flatten_results rs
  flatten_results ((source, some result) ∷ rs) =
      let (sources, stats, entries) = flatten_results rs in
      (source ∷ sources, insert source result.total stats, result.entries ++ entries)

  unfoldable pub score_entry :
      SearchRequest fl → (now : MemoryEntry fl → Instant) → MemoryEntry fl → ScoredEntry fl
  unfolding calculate_fusion_score
  score_entry req now e = record {
    entry = e;
    score = calculate_fusion_score fl e e.source req (now e);
  }

  -- `allEntries[i].score > allEntries[j].score`
  abbrev pub outranks : ScoredEntry fl → ScoredEntry fl → Bool
  outranks a b = fl.lt b.score a.score

  -- The entry with its score for its relevance.
  abbrev pub with_relevance : ScoredEntry fl → MemoryEntry fl
  with_relevance s = let e = s.entry in record e { relevance = s.score }

  abbrev pub top_score : List (ScoredEntry fl) → fl.F64
  top_score [] = fl.decimal 0 1
  top_score (s ∷ ss) = s.score

  unfoldable pub rank :
      Runtime
      → SearchRequest fl
      → (MemoryEntry fl → Instant)
      → List (MemoryEntry fl)
      → List (ScoredEntry fl)
  unfolding score_entry
  rank rt req now entries =
      rt.sort_slice (ScoredEntry fl) outranks (map (score_entry req now) entries)

  unfoldable pub fuse_results :
      Runtime
      → (now : MemoryEntry fl → Instant) → Dict (Option (SearchResult fl))
      → SearchRequest fl
      → FusionResult fl
  unfolding flatten_results rank limit_of deduplicate_entries
  fuse_results rt now results req =
      let (sources, stats, flat) =
        flatten_results (rt.range_order (String × Option (SearchResult fl)) results) in
      let ranked = rank rt req now (deduplicate_entries fl rt flat) in
      let kept = map with_relevance (take (limit_of req.top_k (length ranked)) ranked) in
      record {
        entries = kept;
        total = length kept;
        duration = 0;
        query = req.query;
        sources = sources;
        source_stats = stats;
        fusion_score = top_score ranked;
      }
