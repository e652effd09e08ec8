-- ===== src/Fusion/Merge/Base.antt =====
-- mergeGroup keeps the entry of the highest confidence, the latest of several.
use mathlib.Core.List.{Memᴰ}
use helix_memory.Prelude.{
  true, false, ◌≡◌, refl, ◌⊎◌, ◌≤◌, ◌&&◌, List, [], ◌∷◌, some, All, inl, inr, arith, if◌then◌else◌,
  ltb,
}
use helix_memory.Runtime.{Floats, Runtime, IsFloatOrder}
use helix_memory.Types.{MemoryEntry}
use helix_memory.Fusion.Merge.{pick_base, mark_merged, merge_group}

-- `b` is no worse than `x`: its confidence is not lower, and if it is equal `b` is not older.
abbrev pub IsNoWorse : (fl : Floats) → MemoryEntry fl → MemoryEntry fl → Type 0
IsNoWorse fl b x =
    (fl.lt b.confidence x.confidence ≡ false)
    × (fl.eq x.confidence b.confidence ≡ true → x.created_at ≤ b.created_at)

module _ (fl : Floats) (rt : Runtime) (ordered : IsFloatOrder fl) where
  abbrev better : MemoryEntry fl → MemoryEntry fl → MemoryEntry fl
  better base e =
      if fl.lt base.confidence e.confidence
      then e
      else if fl.eq e.confidence base.confidence && ltb base.created_at e.created_at
      then e
      else base

  pub IsNoWorse-refl : (e : MemoryEntry fl) → IsNoWorse fl e e
  IsNoWorse-refl e = (ordered.strict.irrefl e.confidence, λ h. omega arith)

  better-IsNoWorse_new : (base e : MemoryEntry fl) → IsNoWorse fl (better base e) e
  better-IsNoWorse_new base e = ground (arith, ordered.strict.irrefl e.confidence)

  better-IsNoWorse_old :
      (base e x : MemoryEntry fl) → IsNoWorse fl base x → IsNoWorse fl (better base e) x
  better-IsNoWorse_old base e x h = grind (
    arith, ordered.strict.irrefl, ordered.strict.trans, ordered.strict.cotrans, ordered.eq_lem,
    ordered.eq_of_not_lt,
  )

  pick_base_keeps :
      (base : MemoryEntry fl) (es : List (MemoryEntry fl)) (x : MemoryEntry fl)
      → IsNoWorse fl base x
      → IsNoWorse fl (pick_base fl rt base es) x
  unfolding pick_base
  pick_base_keeps base [] x h = h
  pick_base_keeps base (e ∷ es) x h =
      pick_base_keeps (better base e) es x (better-IsNoWorse_old base e x h)

  pick_base-IsNoWorse :
      (base : MemoryEntry fl) (es : List (MemoryEntry fl))
      → All (IsNoWorse fl (pick_base fl rt base es)) es
  unfolding pick_base
  pick_base-IsNoWorse base [] = tt
  pick_base-IsNoWorse base (e ∷ es) = (
    pick_base_keeps (better base e) es e (better-IsNoWorse_new base e),
    pick_base-IsNoWorse (better base e) es,
  )

  better_cases : (base e : MemoryEntry fl) → (better base e ≡ base) ⊎ (better base e ≡ e)
  better_cases base e = ground arith

  pick_base-Memᴰ :
      (base : MemoryEntry fl) (es all : List (MemoryEntry fl))
      → Memᴰ base all
      → ((x : MemoryEntry fl) → Memᴰ x es → Memᴰ x all)
      → Memᴰ (pick_base fl rt base es) all
  unfolding pick_base
  pick_base-Memᴰ base [] all m within = m
  pick_base-Memᴰ base (e ∷ es) all m within =
      pick_base-Memᴰ (better base e) es all
        (elim (better_cases base e) [ inl p ↦ rw p m | inr p ↦ rw p (within e (Memᴰ.head refl)) ])
        (λ x t. within x (Memᴰ.tail t))

  -- The merged entry is an entry of the group, marked: no entry of the group has a higher
  -- confidence, and none of equal confidence was created later. Only an empty group gives nil.
  pub merge_group_lem :
      (g : MemoryEntry fl) (gs : List (MemoryEntry fl))
      → (b : MemoryEntry fl) × Memᴰ b (g ∷ gs)
        × (merge_group fl rt (g ∷ gs) ≡ some (mark_merged fl rt (g ∷ gs) b))
        × All (IsNoWorse fl b) (g ∷ gs)
  unfolding merge_group
  merge_group_lem g gs = (
    pick_base fl rt g (g ∷ gs),
    pick_base-Memᴰ g (g ∷ gs) (g ∷ gs) (Memᴰ.head refl) (λ x m. m),
    refl,
    pick_base-IsNoWorse g (g ∷ gs),
  )
