-- ===== src/Fusion/Dedup/Coverage.antt =====
-- deduplicateEntries as a whole: nothing is invented and nothing is lost.
use mathlib.Core.List.Perm
use mathlib.Core.Logic.{∥∥₁_prop, ∥∥₁_map}
use helix_memory.Prelude.{
  String, false, ◌≡◌, refl, List, [], Dict, lookup-Memᴰ, Mem, All, All-mono, All-Memᴰ, All-Perm,
  All-map, All-of_map, All-of_Mem, Some,
}
use helix_memory.Runtime.{Floats, Runtime, IsGo, IsStrictWeak}
use helix_memory.Types.{MemoryEntry}
use helix_memory.Fusion.Dedup.{best_by_content, values, deduplicate_entries}
use helix_memory.Fusion.Dedup.ByContent.{IsCovered, best_by_content_covers, All-best_by_content}
use helix_memory.Fusion.Dedup.BySimilarity.{
  Linked, merge_similar_embeddings_covers, All-merge_similar_embeddings,
}

-- For `x` an entry of the same content and of no lower confidence is linked to the result.
abbrev pub IsKeptFor : (fl : Floats) → List (MemoryEntry fl) → MemoryEntry fl → Type 0
IsKeptFor fl out x = ∥ (
    (b : MemoryEntry fl) × (b.content ≡ x.content)
    × (fl.lt b.confidence x.confidence ≡ false)
    × Some (Linked fl b) out) ∥₁

module _ (fl : Floats) (rt : Runtime) (go : IsGo rt) (ordered : IsStrictWeak fl.lt)
    (entries : List (MemoryEntry fl)) where
  best : Dict (MemoryEntry fl)
  best = best_by_content fl [] entries

  shuffled : List (String × MemoryEntry fl)
  shuffled = rt.range_order (String × MemoryEntry fl) best

  abbrev IsLinked : String × MemoryEntry fl → Type 0
  IsLinked kv = ∥ Some (Linked fl kv.1) (deduplicate_entries fl rt entries) ∥₁

  best-IsLinked : All IsLinked best
  unfolding best shuffled deduplicate_entries
  best-IsLinked =
      All-Perm IsLinked (λ kv. ∥∥₁_prop) (go.range_order-perm (String × MemoryEntry fl) best)
        (All-mono _ IsLinked shuffled (λ kv s. ∣ s ∣₁)
          (All-of_map _ (λ (kv : String × MemoryEntry fl). kv.1) shuffled
            (merge_similar_embeddings_covers fl ordered [] (values fl shuffled)).1))

  -- Each entry of the map stands under its content, and came in.
  abbrev IsGiven : String × MemoryEntry fl → Type 0
  IsGiven kv = (kv.1.content ≡ kv.0) × Mem kv.1 entries

  best-IsGiven : All IsGiven best
  unfolding best
  best-IsGiven = All-best_by_content IsGiven [] entries tt (All-of_Mem _ entries (λ x m. (refl, m)))

  abbrev IsCameIn : MemoryEntry fl → Type 0
  IsCameIn r = Mem r entries

  result-IsCameIn : All IsCameIn (deduplicate_entries fl rt entries)
  unfolding best shuffled deduplicate_entries
  result-IsCameIn = All-merge_similar_embeddings IsCameIn [] (values fl shuffled) tt (
      All-map IsCameIn (λ (kv : String × MemoryEntry fl). kv.1) shuffled
        (All-Perm (λ kv. IsCameIn kv.1) (λ kv. ∥∥₁_prop)
          (Perm.symm (go.range_order-perm (String × MemoryEntry fl) best))
          (All-mono IsGiven _ best (λ kv h. h.1) best-IsGiven)))

  kept_for :
      (x : MemoryEntry fl) → IsCovered best x → IsKeptFor fl (deduplicate_entries fl rt entries) x
  kept_for x (b, found, above) =
      let stands = lookup-Memᴰ x.content best found in
      ∥∥₁_map (All-Memᴰ IsLinked best (x.content, b) best-IsLinked stands)
        (λ s. (b, (All-Memᴰ IsGiven best (x.content, b) best-IsGiven stands).0, above, s))

  -- Each entry of the result is one of those that came in, and for each entry that came in there is
  -- one of the same content and of no lower confidence from which a chain of similar entries, of
  -- confidences that do not fall, leads to an entry of the result.
  pub deduplicate_entries_keeps :
      All (λ r. Mem r entries) (deduplicate_entries fl rt entries)
      × All (IsKeptFor fl (deduplicate_entries fl rt entries)) entries
  unfolding best
  deduplicate_entries_keeps = (
    result-IsCameIn,
    All-mono _ _ entries kept_for (best_by_content_covers fl ordered [] entries),
  )
