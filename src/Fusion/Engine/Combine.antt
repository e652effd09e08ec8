-- ===== src/Fusion/Engine/Combine.antt =====
-- pkg/fusion/engine.go: `Fuse`, which merges results that come by index; a missing one is nil.
use helix_memory.Prelude.{
  ℕ, suc, ◌+◌, ◌≡◌, refl, sym, false, List, [], ◌∷◌, ◌++◌, Option, none, some, Dict, insert, length,
  length-map, IsChained, IsChained-map, subst, arith,
}
use helix_memory.Runtime.{Floats, Runtime, IsGo, IsStrictWeak}
use helix_memory.Types.{MemoryEntry, SearchRequest, SearchResult, Instant}
use helix_memory.Types.MemorySource.{MemorySource}
use helix_memory.Fusion.Fuse.{limit_of, fuse_results, with_relevance}
use helix_memory.Fusion.Fuse.Ranking.{candidates, fuse_results_ranks}

module _ {fl : Floats} where
  -- The loop of Fuse from index `i` on: the results under made-up names.
  unfoldable pub label_results :
      Runtime
      → (i : ℕ) → List (Option (SearchResult fl))
      → Dict (Option (SearchResult fl))
      → Dict (Option (SearchResult fl))
  unfolding insert
  label_results rt i [] mapped = mapped
  label_results rt i (none ∷ rs) mapped = label_results rt (suc i) rs mapped
  label_results rt i (some r ∷ rs) mapped =
      label_results rt (suc i) rs (insert (rt.source_label i) (some r) mapped)

  -- The sum of the durations, and the sources, of the results that came.
  unfoldable pub sum_results : List (Option (SearchResult fl)) → ℕ × List MemorySource
  sum_results [] = (0, [])
  sum_results (none ∷ rs) = sum_results rs
  sum_results (some r ∷ rs) =
      let (duration, sources) = sum_results rs in (r.duration + duration, r.sources ++ sources)

  unfoldable pub fuse :
      Runtime
      → (now : MemoryEntry fl → Instant) → List (Option (SearchResult fl))
      → SearchRequest fl
      → SearchResult fl
  unfolding label_results sum_results fuse_results
  fuse rt now results req =
      let (duration, sources) = sum_results results in
      let fused = fuse_results fl rt now (label_results rt 0 results []) req in
      record {
        entries = fused.entries;
        total = length fused.entries;
        duration = duration;
        sources = sources;
      }

-- `a` may stand before `b` in a result: it is not less relevant.
abbrev pub NotLessRelevant : (fl : Floats) → MemoryEntry fl → MemoryEntry fl → Type 0
NotLessRelevant fl a b = fl.lt a.relevance b.relevance ≡ false

module _ {fl : Floats} (rt : Runtime) (go : IsGo rt) (ordered : IsStrictWeak fl.lt)
    (now : MemoryEntry fl → Instant) (results : List (Option (SearchResult fl)))
    (req : SearchRequest fl) where
  -- What Fuse returns falls in relevance, counts its entries, and has as many as the limit allows
  -- of the distinct entries that came.
  pub fuse_ranks :
      let out = fuse rt now results req in
      let pool = length (candidates fl rt now (label_results rt 0 results []) req) in
      IsChained (NotLessRelevant fl) out.entries
      × (out.total ≡ length out.entries)
      × (length out.entries ≡ limit_of req.top_k pool)
  unfolding fuse
  fuse_ranks =
      let (kept, dropped, all, entries, count, total, chained, top) =
        fuse_results_ranks fl rt go ordered now (label_results rt 0 results []) req in
      (
        subst (IsChained (NotLessRelevant fl)) (sym entries)
            (IsChained-map (NotLessRelevant fl) (with_relevance fl) kept chained),
        refl,
        rw entries (omega (arith, length-map (with_relevance fl) kept, count)),
      )
