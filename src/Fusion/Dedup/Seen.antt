-- ===== src/Fusion/Dedup/Seen.antt =====
-- Deduplicate, with its cache: what it keeps, and what it loses.
use helix_memory.Prelude.{
  false, ◌≡◌, ◌≢◌, List, [], ◌∷◌, All, All-mono, IsChained, is_seen, eq_iff, Bool-cases, inl, inr,
  arith,
}
use helix_memory.Runtime.{Floats}
use helix_memory.Types.{MemoryEntry}
use helix_memory.Fusion.Dedup.{Cache, clear_cache, is_duplicate, drop_duplicates, deduplicate}

module _ {fl : Floats} where
  -- Neither the identifier nor the content is in the cache.
  abbrev IsFresh : Cache → MemoryEntry fl → Type 0
  IsFresh c e = (is_seen e.id c.seen_ids ≡ false) × (is_seen e.content c.seen_content ≡ false)

  abbrev pub Differ : MemoryEntry fl → MemoryEntry fl → Type 0
  Differ a b = (a.id ≢ b.id) × (a.content ≢ b.content)

  is_duplicate_lem :
      (c : Cache) (e : MemoryEntry fl)
      → ((is_duplicate c e).1 ≡ false → IsFresh c e)
        × ((x : MemoryEntry fl) → IsFresh (is_duplicate c e).0 x → IsFresh c x)
        × ((x : MemoryEntry fl)
            → (is_duplicate c e).1 ≡ false
            → IsFresh (is_duplicate c e).0 x
            → Differ e x)
  unfolding is_duplicate
  is_duplicate_lem c e = (
    ground arith,
    λ x. ground arith,
    λ x new h. (
      λ same. ground (arith, eq_iff e.id x.id),
      λ same. ground (arith, eq_iff e.content x.content),
    ),
  )

  drop_duplicates_lem :
      (c : Cache) (es : List (MemoryEntry fl))
      → All (IsFresh c) (drop_duplicates c es).1 × IsChained Differ (drop_duplicates c es).1
  unfolding drop_duplicates
  drop_duplicates_lem c [] = (tt, tt)
  drop_duplicates_lem c (e ∷ es) =
      let (fresh, older, differ) = is_duplicate_lem c e in
      let c' = (is_duplicate c e).0 in
      let rest = (drop_duplicates c' es).1 in
      let (ih, chained) = drop_duplicates_lem c' es in
      elim (Bool-cases (is_duplicate c e).1) [
        | inl old ↦ rw old (All-mono _ _ rest older ih, chained)
        | inr new ↦ rw new (
          (fresh new, All-mono _ _ rest older ih),
          (All-mono _ _ rest (λ x. differ x new) ih, chained),
        )
      ]

  -- Whatever the cache held before, no two entries of the result share an identifier or a content.
  pub deduplicate-distinct :
      (c : Cache) (es : List (MemoryEntry fl)) → IsChained Differ (deduplicate c es).1
  unfolding deduplicate
  deduplicate-distinct c es = (drop_duplicates_lem (clear_cache c) es).1

  -- An entry that is dropped for its content still marks its identifier as seen: a third entry with
  -- that identifier and a content of its own is lost, though no entry that is kept has its
  -- identifier or its content.
  pub deduplicate_loses :
      (c : Cache) (x y z : MemoryEntry fl)
      → x.content ≡ y.content
      → x.id ≢ y.id
      → y.id ≡ z.id
      → x.content ≢ z.content
      → ((deduplicate c (x ∷ y ∷ z ∷ [])).1 ≡ x ∷ []) × Differ x z
  unfolding deduplicate drop_duplicates is_duplicate clear_cache
  deduplicate_loses c x y z same_content other_id same_id other_content = ground (
    arith,
    eq_iff x.id y.id,
    eq_iff y.id x.id,
    eq_iff y.id y.id,
    eq_iff x.id z.id,
    eq_iff y.id z.id,
    eq_iff x.content y.content,
    eq_iff x.content z.content,
  )
