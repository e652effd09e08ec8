-- ===== src/Fusion/Merge.antt =====
-- pkg/fusion/consolidator.go: `MergeSimilar`, which merges entries of one normalized content.
pub mod Groups
pub mod Base
pub mod Results
use helix_memory.Prelude.{
  ℕ, String, Bool, true, false, ◌&&◌, List, [], ◌∷◌, ◌++◌, map, Option, none, some, Dict, lookup,
  insert, if◌then◌else◌, ltb, leb, length, unseen,
}
use helix_memory.Prelude.Int.{pos}
use helix_memory.Runtime.{Floats, Runtime}
use helix_memory.Types.{MemoryEntry, Value, text, texts, int}
use helix_memory.Types.MemorySource.{MemorySource}

-- `content[:100]` if the content is longer than 100 bytes.
unfoldable pub normalize_content : Runtime → String → String
normalize_content rt content = if ltb 100 (rt.len content) then rt.prefix content 100 else content

module _ (fl : Floats) (rt : Runtime) where
  -- extractSources: the keys of the set of sources, in the order in which `range` walks it.
  unfoldable pub extract_sources : List (MemoryEntry fl) → List String
  unfolding unseen
  extract_sources entries =
      rt.range_order MemorySource (unseen (λ s. s) [] (map (λ e. e.source) entries))

  -- The loop of mergeGroup over `base`.
  unfoldable pub pick_base : MemoryEntry fl → List (MemoryEntry fl) → MemoryEntry fl
  pick_base base [] = base
  pick_base base (e ∷ es) =
      pick_base
        (if fl.lt base.confidence e.confidence
          then e
          else if fl.eq e.confidence base.confidence && ltb base.created_at e.created_at
          then e
          else base)
        es

  or_empty : Option (Dict (Value fl)) → Dict (Value fl)
  or_empty none = []
  or_empty (some m) = m

  unfoldable pub mark_merged : List (MemoryEntry fl) → MemoryEntry fl → MemoryEntry fl
  unfolding or_empty extract_sources
  mark_merged group base = record base {
    metadata = some (
        insert "merged_sources" (texts (extract_sources group))
          (insert "merged_count" (int (pos (length group))) (or_empty base.metadata)));
  }

  unfoldable pub merge_group : List (MemoryEntry fl) → Option (MemoryEntry fl)
  unfolding pick_base mark_merged
  merge_group [] = none
  merge_group (g ∷ gs) = some (mark_merged (g ∷ gs) (pick_base g (g ∷ gs)))

  or_nil : Option (List (MemoryEntry fl)) → List (MemoryEntry fl)
  or_nil none = []
  or_nil (some g) = g

  -- `groups[key] = append(groups[key], entry)` for each entry
  unfoldable pub group_by_content :
      Dict (List (MemoryEntry fl)) → List (MemoryEntry fl) → Dict (List (MemoryEntry fl))
  unfolding or_nil normalize_content
  group_by_content groups [] = groups
  group_by_content groups (e ∷ es) =
      let key = normalize_content rt e.content in
      group_by_content (insert key (or_nil (lookup key groups) ++ e ∷ []) groups) es

  -- One entry for a group: a single entry as it stands.
  unfoldable pub collapse : List (MemoryEntry fl) → Option (MemoryEntry fl)
  unfolding merge_group
  collapse (e ∷ []) = some e
  collapse group = merge_group group

  unfoldable pub collapse_all :
      List (String × List (MemoryEntry fl)) → List (Option (MemoryEntry fl))
  unfolding collapse
  collapse_all groups = map (λ (kv : String × List (MemoryEntry fl)). collapse kv.1) groups

  -- The result is a list of pointers; mergeGroup returns nil for an empty group. The source's
  -- similarity threshold is an argument that its body does not read.
  unfoldable pub merge_similar :
      List (MemoryEntry fl) → (similarity_threshold : fl.F64) → List (Option (MemoryEntry fl))
  unfolding collapse_all group_by_content
  merge_similar entries similarity_threshold =
      if leb (length entries) 1
      then map some entries
      else collapse_all
          (rt.range_order (String × List (MemoryEntry fl)) (group_by_content [] entries))
