-- ===== src/Fusion/Dedup.antt =====
-- pkg/fusion/consolidator.go: removal of duplicates. `deduplicateEntries` is the one that FuseResults
-- uses; `Deduplicate`, with its cache of identifiers and contents, stands on its own.
pub mod ByContent
pub mod BySimilarity
pub mod Coverage
pub mod Seen
use helix_memory.Prelude.{
  String, Bool, true, false, ◌||◌, List, [], ◌∷◌, ◌++◌, map, Option, none, some, Dict, lookup,
  insert, is_seen, if◌then◌else◌,
}
use helix_memory.Runtime.{Floats, Runtime}
use helix_memory.Types.{MemoryEntry}
use helix_memory.Fusion.Scoring.{cosine_similarity}

module _ (fl : Floats) where
  open fl use {lt, ge, decimal}

  -- `!ok || e.Confidence > existing.Confidence`
  is_better : Option (MemoryEntry fl) → MemoryEntry fl → Bool
  is_better none e = true
  is_better (some existing) e = lt existing.confidence e.confidence

  -- Phase 1: for each content the entry of the highest confidence.
  unfoldable pub best_by_content :
      Dict (MemoryEntry fl) → List (MemoryEntry fl) → Dict (MemoryEntry fl)
  unfolding is_better lookup insert
  best_by_content best [] = best
  best_by_content best (e ∷ es) =
      best_by_content
        (if is_better (lookup e.content best) e then insert e.content e best else best) es

  abbrev pub is_similar : MemoryEntry fl → MemoryEntry fl → Bool
  is_similar e r = ge (cosine_similarity fl e.embedding r.embedding) (decimal 92 2)

  push_front : MemoryEntry fl → Option (List (MemoryEntry fl)) → Option (List (MemoryEntry fl))
  push_front r none = none
  push_front r (some rs) = some (r ∷ rs)

  -- The inner loop of phase 2. `none`: no entry of the result is similar to `e`.
  unfoldable pub merge_into :
      MemoryEntry fl → List (MemoryEntry fl) → Option (List (MemoryEntry fl))
  unfolding push_front
  merge_into e [] = none
  merge_into e (r ∷ rs) =
      if is_similar e r
      then some ((if lt r.confidence e.confidence then e else r) ∷ rs)
      else push_front r (merge_into e rs)

  -- `if !merged { result = append(result, e) }`
  append_unless_merged :
      Option (List (MemoryEntry fl))
      → List (MemoryEntry fl)
      → MemoryEntry fl
      → List (MemoryEntry fl)
  append_unless_merged none result e = result ++ e ∷ []
  append_unless_merged (some merged) result e = merged

  unfoldable pub absorb : MemoryEntry fl → List (MemoryEntry fl) → List (MemoryEntry fl)
  unfolding append_unless_merged
  absorb e result = append_unless_merged (merge_into e result) result e

  -- Phase 2: entries with similar embeddings become one.
  unfoldable pub merge_similar_embeddings :
      List (MemoryEntry fl) → List (MemoryEntry fl) → List (MemoryEntry fl)
  unfolding absorb
  merge_similar_embeddings result [] = result
  merge_similar_embeddings result (e ∷ es) = merge_similar_embeddings (absorb e result) es

  abbrev pub values : Dict (MemoryEntry fl) → List (MemoryEntry fl)
  values = map (λ (kv : String × MemoryEntry fl). kv.1)

  unfoldable pub deduplicate_entries : Runtime → List (MemoryEntry fl) → List (MemoryEntry fl)
  unfolding best_by_content merge_similar_embeddings
  deduplicate_entries rt entries =
      merge_similar_embeddings []
        (values (rt.range_order (String × MemoryEntry fl) (best_by_content [] entries)))

-- The deduplication cache of the Consolidator, as the lists of the keys that were set.
pub record Cache : Type 0 where
  pub seen_ids : List String
  pub seen_content : List String

unfoldable pub clear_cache : Cache → Cache
clear_cache c = record { seen_ids = []; seen_content = [] }

module _ {fl : Floats} where
  unfoldable pub is_duplicate : Cache → MemoryEntry fl → Cache × Bool
  is_duplicate c entry =
      if is_seen entry.id c.seen_ids
      then (c, true)
      else (let c' = record c { seen_ids = entry.id ∷ c.seen_ids } in
          if is_seen entry.content c'.seen_content
          then (c', true)
          else (record c' { seen_content = entry.content ∷ c'.seen_content }, false))

  unfoldable pub drop_duplicates : Cache → List (MemoryEntry fl) → Cache × List (MemoryEntry fl)
  unfolding is_duplicate
  drop_duplicates c [] = (c, [])
  drop_duplicates c (e ∷ es) =
      let (c', old) = is_duplicate c e in
      let (c'', rest) = drop_duplicates c' es in (c'', if old then rest else e ∷ rest)

  unfoldable pub deduplicate : Cache → List (MemoryEntry fl) → Cache × List (MemoryEntry fl)
  unfolding clear_cache drop_duplicates
  deduplicate c entries = drop_duplicates (clear_cache c) entries
