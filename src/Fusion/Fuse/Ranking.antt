-- ===== src/Fusion/Fuse/Ranking.antt =====
-- What FuseResults returns: the best entries, in order.
use helix_memory.Prelude.{
  swap_sides, ℕ, ◌≤◌, ◌≡◌, refl, ap, ◌∙◌, String, false, List, ◌++◌, map, Perm, Option, Dict,
  length, length-map, length-Perm, take, drop, take-append-drop, length-take, All, IsChained,
  IsChained-take, IsChained-of_Pairwise, take-IsChained-drop, arith,
}
use helix_memory.Prelude.Int.{ℤ}
use helix_memory.Runtime.{Floats, Runtime, IsGo, IsStrictWeak}
use helix_memory.Types.{MemoryEntry, SearchRequest, SearchResult, Instant}
use helix_memory.Fusion.Dedup.{deduplicate_entries}
use helix_memory.Fusion.Fuse.{
  ScoredEntry, limit_of, flatten_results, score_entry, outranks, with_relevance, rank, fuse_results,
}

limit_of_le : (top_k : ℤ) (count : ℕ) → limit_of top_k count ≤ count
unfolding limit_of
limit_of_le top_k count = ground arith

length-take_limit {ℓ} :
    {A : Type ℓ} (top_k : ℤ) (xs : List A)
    → length (take (limit_of top_k (length xs)) xs) ≡ limit_of top_k (length xs)
length-take_limit top_k xs =
    omega (arith, length-take (limit_of top_k (length xs)) xs, limit_of_le top_k (length xs))

module _ (fl : Floats) where
  -- `a` may stand before `b`: it does not score less.
  abbrev pub NotBelow : ScoredEntry fl → ScoredEntry fl → Type 0
  NotBelow a b = fl.lt a.score b.score ≡ false

  outranks-IsStrictWeak : IsStrictWeak fl.lt → IsStrictWeak (outranks fl)
  outranks-IsStrictWeak o = record {
    irrefl = λ a. o.irrefl a.score;
    trans = λ a b c p q. o.trans c.score b.score a.score q p;
    cotrans = λ a b c p. swap_sides (o.cotrans c.score b.score a.score p);
  }

-- The entries of all results, without duplicates, each with its score.
abbrev pub candidates :
    (fl : Floats) (rt : Runtime) (now : MemoryEntry fl → Instant)
    → Dict (Option (SearchResult fl))
    → SearchRequest fl
    → List (ScoredEntry fl)
candidates fl rt now results req = map (score_entry fl req now) (
    deduplicate_entries fl rt
      (flatten_results fl (rt.range_order (String × Option (SearchResult fl)) results)).2)

module _ (fl : Floats) (rt : Runtime) (go : IsGo rt) (ordered : IsStrictWeak fl.lt)
    (now : MemoryEntry fl → Instant) (results : Dict (Option (SearchResult fl)))
    (req : SearchRequest fl) where
  abbrev found : List (ScoredEntry fl)
  found = candidates fl rt now results req

  -- The result holds the best candidates: as many as the limit allows, by falling score, each with
  -- its score for its relevance; no candidate that was dropped scores above one that was kept.
  pub fuse_results_ranks :
      let out = fuse_results fl rt now results req in
      (kept : List (ScoredEntry fl)) × (dropped : List (ScoredEntry fl)) × Perm
        (kept ++ dropped)
        (candidates fl rt now results req)
      × (out.entries ≡ map (with_relevance fl) kept)
      × (length kept ≡ limit_of req.top_k (length (candidates fl rt now results req)))
      × (out.total ≡ length kept)
      × IsChained (NotBelow fl) kept
      × All (λ k. All (NotBelow fl k) dropped) kept
  unfolding fuse_results rank
  fuse_results_ranks =
      let ranked = rt.sort_slice (ScoredEntry fl) (outranks fl) found in
      let n = limit_of req.top_k (length ranked) in
      let permuted = go.sort_slice-perm (ScoredEntry fl) (outranks fl) found in
      let chained = IsChained-of_Pairwise (NotBelow fl) ranked (
        go.sort_slice_sorts (ScoredEntry fl) (outranks fl) found
          (outranks-IsStrictWeak fl ordered)) in
      (
        take n ranked,
        drop n ranked,
        rw (take-append-drop n ranked) permuted,
        refl,
        length-take_limit req.top_k ranked ∙ ap (limit_of req.top_k) (length-Perm permuted),
        length-map _ (take n ranked),
        IsChained-take (NotBelow fl) n ranked chained,
        take-IsChained-drop (NotBelow fl) n ranked chained,
      )
