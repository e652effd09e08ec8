-- ===== src/ContextWindow/Packing.antt =====
-- What the packing of a context window guarantees.
use helix_memory.Prelude.{
  swap_sides, if_keeps, Pairwise, false, length-Perm, ℕ, ◌+◌, ◌≤◌, ◌≡◌, refl, List, [], ◌∷◌, ◌++◌,
  map, Mem, All, length, String, ◌∙◌, ◌⊎◌, inl, inr, Bool-cases, arith, length-append, length-map,
}
use mathlib.Core.List.{mem-append_left, mem-append_right, mem-cons_self}
use helix_memory.Prelude.Int.{ℤ, pos, leb_ℤ, ltb_ℤ, ◌≤ℤ◌, ◌<ℤ◌}
use helix_memory.Runtime.{Floats, Runtime, IsGo, IsFloatOrder}
use helix_memory.Types.{MemoryEntry}
use helix_memory.Types.Provider.{MemoryProvider}
use helix_memory.ContextWindow.{
  ContextWindow, ContextBlock, ManagedContext, pack_one, pack, unpacked, sorted_blocks, block_of,
  available, managed_of,
}

abbrev pub tokens : {fl : Floats} → List (ContextBlock fl) → ℕ
tokens [] = 0
tokens (b ∷ bs) = b.token_count + tokens bs

tokens-append :
    {fl : Floats} (bs : List (ContextBlock fl)) (b : ContextBlock fl)
    → tokens (bs ++ (b ∷ [])) ≡ tokens bs + b.token_count
tokens-append [] b = omega arith
tokens-append (x ∷ xs) b = omega (arith, tokens-append xs b)

-- A context that packing may have reached: the total is that of the blocks and within the budget.
pub record IsWithin {fl : Floats} (budget : ℤ) (m : ManagedContext fl) : Type 0 where
  pub total : m.total_tokens ≡ tokens m.blocks
  pub fits : (m.blocks ≡ []) ⊎ (pos m.total_tokens ≤ℤ budget)

module _ {fl : Floats} (budget : ℤ) where
  pack_one-IsWithin :
      (m : ManagedContext fl) (b : ContextBlock fl)
      → IsWithin budget m
      → IsWithin budget (pack_one budget m b)
  unfolding pack_one
  pack_one-IsWithin m b h = ground (arith, tokens-append m.blocks b)

  pack-IsWithin :
      (m : ManagedContext fl) (bs : List (ContextBlock fl))
      → IsWithin budget m
      → IsWithin budget (pack budget m bs)
  unfolding pack
  pack-IsWithin m [] h = h
  pack-IsWithin m (b ∷ bs) h = pack-IsWithin (pack_one budget m b) bs (pack_one-IsWithin m b h)

  abbrev accounted : ManagedContext fl → ℕ
  accounted m = length m.blocks + m.dropped

  pack_one-accounted :
      (m : ManagedContext fl) (b : ContextBlock fl)
      → accounted (pack_one budget m b) ≡ accounted m + 1
  unfolding pack_one
  pack_one-accounted m b = ground (arith, length-append m.blocks (b ∷ []))

  pack-accounted :
      (m : ManagedContext fl) (bs : List (ContextBlock fl))
      → accounted (pack budget m bs) ≡ accounted m + length bs
  unfolding pack
  pack-accounted m [] = omega arith
  pack-accounted m (b ∷ bs) =
      omega (arith, pack-accounted (pack_one budget m b) bs, pack_one-accounted m b)

  pack_one-total :
      (m : ManagedContext fl) (b : ContextBlock fl)
      → m.total_tokens ≤ (pack_one budget m b).total_tokens
  unfolding pack_one
  pack_one-total m b = ground arith

  pack-total :
      (m : ManagedContext fl) (bs : List (ContextBlock fl))
      → m.total_tokens ≤ (pack budget m bs).total_tokens
  unfolding pack
  pack-total m [] = omega arith
  pack-total m (b ∷ bs) = omega (arith, pack-total (pack_one budget m b) bs, pack_one-total m b)

  pack_one_grows :
      (m : ManagedContext fl) (b x : ContextBlock fl)
      → Mem x m.blocks
      → Mem x (pack_one budget m b).blocks
  unfolding pack_one
  pack_one_grows m b x h =
      if_keeps (λ (n : ManagedContext fl). Mem x n.blocks) _ _ _ (mem-append_left (b ∷ []) h) h

  pack_grows :
      (m : ManagedContext fl) (bs : List (ContextBlock fl)) (x : ContextBlock fl)
      → Mem x m.blocks
      → Mem x (pack budget m bs).blocks
  unfolding pack
  pack_grows m [] x h = h
  pack_grows m (b ∷ bs) x h = pack_grows (pack_one budget m b) bs x (pack_one_grows m b x h)

  -- A block is taken, or would not fit into what is left.
  abbrev pub IsGreedy : ManagedContext fl → ContextBlock fl → Type 0
  IsGreedy m x = Mem x m.blocks ⊎ (budget <ℤ pos (m.total_tokens + x.token_count))

  pack_one-IsGreedy :
      (m : ManagedContext fl) (b : ContextBlock fl) → IsGreedy (pack_one budget m b) b
  unfolding pack_one
  pack_one-IsGreedy m b = elim (Bool-cases (leb_ℤ (pos (m.total_tokens + b.token_count)) budget)) [
    | inl fits ↦ rw fits (inl (mem-append_right m.blocks mem-cons_self))
    | inr over ↦ rw over (inr (ground arith))
  ]

  IsGreedy-pack :
      (m : ManagedContext fl) (bs : List (ContextBlock fl)) (x : ContextBlock fl)
      → IsGreedy m x
      → IsGreedy (pack budget m bs) x
  IsGreedy-pack m bs x (inl h) = inl (pack_grows m bs x h)
  IsGreedy-pack m bs x (inr h) = inr (omega (arith, pack-total m bs, h))

  pack-IsGreedy :
      (m : ManagedContext fl) (bs : List (ContextBlock fl)) → All (IsGreedy (pack budget m bs)) bs
  unfolding pack
  pack-IsGreedy m [] = tt
  pack-IsGreedy m (b ∷ bs) = (
    IsGreedy-pack (pack_one budget m b) bs b (pack_one-IsGreedy m b),
    pack-IsGreedy (pack_one budget m b) bs,
  )

-- The order in which the blocks are packed: no block has a higher priority than one before it.
abbrev pub NotBelow : {fl : Floats} → ContextBlock fl → ContextBlock fl → Type 0
NotBelow {fl} a b = fl.lt a.priority b.priority ≡ false

-- A packed context: its total is that of its blocks, which fit into the budget; every entry is in a
-- block or counted as dropped, and a block that is left out would not fit into what is left.
pub record IsPacking {fl : Floats} (budget : ℤ) (offered : List (ContextBlock fl))
    (m : ManagedContext fl) : Type 0 where
  pub within : IsWithin budget m
  pub complete : length m.blocks + m.dropped ≡ length offered
  pub greedy : All (IsGreedy budget m) offered
  pub ordered : Pairwise NotBelow offered

-- What a packing says does not depend on the utilization.
utilized-IsPacking :
    {fl : Floats} (budget : ℤ) (offered : List (ContextBlock fl)) (m : ManagedContext fl)
    (u : fl.F64)
    → IsPacking budget offered m
    → IsPacking budget offered (record m { utilization = u })
utilized-IsPacking budget offered m u h = record {
  within = record { total = h.within.total; fits = h.within.fits };
  complete = h.complete;
  greedy = h.greedy;
  ordered = h.ordered;
}

module _ {fl : Floats} (rt : Runtime) (go : IsGo rt) (order : IsFloatOrder fl)
    (fields : String → List String) (entries : List (MemoryEntry fl)) where
  sorted_blocks-length : length (sorted_blocks rt fields entries) ≡ length entries
  unfolding sorted_blocks
  sorted_blocks-length =
      length-Perm (go.sort_slice-perm (ContextBlock fl) _ (map (block_of rt fields) entries))
      ∙ length-map (block_of rt fields) entries

  sorted_blocks-ordered : Pairwise NotBelow (sorted_blocks rt fields entries)
  unfolding sorted_blocks
  sorted_blocks-ordered = go.sort_slice_sorts (ContextBlock fl) _ _ (record {
    irrefl = λ a. order.strict.irrefl a.priority;
    trans = λ a b c p q. order.strict.trans c.priority b.priority a.priority q p;
    cotrans = λ a b c p. swap_sides (order.strict.cotrans c.priority b.priority a.priority p);
  })

  pack-IsPacking :
      (budget limit : ℤ)
      → IsPacking budget
          (sorted_blocks rt fields entries)
          (pack budget (unpacked limit) (sorted_blocks rt fields entries))
  pack-IsPacking budget limit = record {
    within = pack-IsWithin budget (unpacked limit) _ (record { total = refl; fits = inl refl });
    complete =
        omega (arith, pack-accounted budget (unpacked limit) (sorted_blocks rt fields entries));
    greedy = pack-IsGreedy budget (unpacked limit) _;
    ordered = sorted_blocks-ordered;
  }

  managed_of_packs :
      {mp : MemoryProvider fl} (cw : ContextWindow mp)
      → IsPacking (available cw) (sorted_blocks rt fields entries) (managed_of rt fields cw entries)
  unfolding managed_of
  managed_of_packs cw =
      let h = pack-IsPacking (available cw) cw.max_tokens in
      if_keeps (IsPacking (available cw) (sorted_blocks rt fields entries))
        (ltb_ℤ (pos 0) cw.max_tokens) _ _
        (utilized-IsPacking (available cw) (sorted_blocks rt fields entries) _ _ h) h

  -- The context that Build makes of the entries found, offered as blocks from the highest priority
  -- to the lowest: its total is that of its blocks and within the tokens available, unless it has no
  -- block; each entry is in a block or counted as dropped; and a block that is left out does not fit
  -- beside the blocks taken. It assumes the laws of sort.Slice and of float64 comparison.
  pub managed_of-IsPacking :
      {mp : MemoryProvider fl} (cw : ContextWindow mp)
      → let m = managed_of rt fields cw entries in
        IsPacking (available cw) (sorted_blocks rt fields entries) m
        × (length m.blocks + m.dropped ≡ length entries)
  managed_of-IsPacking cw = let h = managed_of_packs cw in (h, h.complete ∙ sorted_blocks-length)
