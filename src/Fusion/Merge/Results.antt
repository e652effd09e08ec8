-- ===== src/Fusion/Merge/Results.antt =====
-- MergeSimilar as a whole.
use mathlib.Core.List.{Memᴰ}
use mathlib.Core.List.Perm
use mathlib.Core.Logic.{∥∥₁_prop, ∥∥₁_map, ∥∥₁_elim}
use mathlib.Core.HLevel.{¬_prop, ⊥_prop}
use helix_memory.Prelude.{
  String, true, ◌≡◌, ◌≢◌, refl, sym, List, [], ◌∷◌, map, Option, none, some, lookup-Memᴰ, Perm,
  HasDistinctKeys, All, All-mono, All-Memᴰ, All-Perm, All-map, All-of_map, All-of_Mem, Mem, ap,
  IsChained, IsChained-Perm, IsChained-map, IsChained-mono, Some, arith, length, leb, Bool-cases,
  inl, inr, ◌∙◌,
}
use helix_memory.Runtime.{Floats, Runtime, IsGo, IsFloatOrder}
use helix_memory.Types.{MemoryEntry}
use helix_memory.Fusion.Merge.{group_by_content, collapse, collapse_all, merge_similar}
use helix_memory.Fusion.Merge.Base.{IsNoWorse, IsNoWorse-refl}
use helix_memory.Fusion.Merge.Groups.{
  key, Groups, IsGroup, Holds, StandsFor, group_by_content-Holds, group_by_content-IsGroup,
  collapse_lem,
}

-- Two results that are entries have different normalized contents.
abbrev pub Distinct :
    (fl : Floats) (rt : Runtime) → Option (MemoryEntry fl) → Option (MemoryEntry fl) → Type 0
Distinct fl rt r s = (m n : MemoryEntry fl) → r ≡ some m → s ≡ some n → key fl rt m ≢ key fl rt n

-- Some result is an entry of the normalized content of `x` that is no worse than `x`.
abbrev pub IsMerged :
    (fl : Floats) (rt : Runtime) → List (Option (MemoryEntry fl)) → MemoryEntry fl → Type 0
IsMerged fl rt out x = ∥ Some (StandsFor fl rt (key fl rt x) (x ∷ [])) out ∥₁

module _ (fl : Floats) (rt : Runtime) (go : IsGo rt) (ordered : IsFloatOrder fl)
    (entries : List (MemoryEntry fl)) where
  groups : Groups fl rt
  groups = group_by_content fl rt [] entries

  walked : Groups fl rt
  walked = rt.range_order (String × List (MemoryEntry fl)) groups

  groups_lem : All (IsGroup fl rt) groups × HasDistinctKeys groups
  unfolding groups
  groups_lem = group_by_content-IsGroup fl rt [] entries tt tt

  walked-perm : Perm groups walked
  unfolding walked
  walked-perm = Perm.symm (go.range_order-perm (String × List (MemoryEntry fl)) groups)

  abbrev Stands : String × List (MemoryEntry fl) → Type 0
  Stands kv = ∥ StandsFor fl rt kv.0 kv.1 (collapse fl rt kv.1) ∥₁

  walked-Stands : All Stands walked
  walked-Stands =
      All-Perm Stands (λ kv. ∥∥₁_prop) walked-perm
        (All-mono (IsGroup fl rt) Stands groups (λ kv h. ∣ collapse_lem fl rt ordered kv h ∣₁)
          groups_lem.0)

  stands_key :
      (kv : String × List (MemoryEntry fl)) (m : MemoryEntry fl)
      → StandsFor fl rt kv.0 kv.1 (collapse fl rt kv.1)
      → collapse fl rt kv.1 ≡ some m
      → key fl rt m ≡ kv.0
  stands_key kv m (n, p, k, best) q = let same : n ≡ m = cc in ap (key fl rt) (sym same) ∙ k

  collapsed-Distinct : IsChained (Distinct fl rt) (collapse_all fl rt walked)
  unfolding collapse_all
  collapsed-Distinct =
      IsChained-map (Distinct fl rt) (λ kv. collapse fl rt kv.1) walked
        (IsChained-mono Stands (λ a b. a.0 ≢ b.0) _ walked
          (λ a b sa sb n x y p q e. ∥∥₁_elim sa ⊥_prop (λ ta.
            ∥∥₁_elim sb ⊥_prop (λ tb. n (sym (stands_key a x ta p) ∙ (e ∙ stands_key b y tb q)))))
          walked-Stands
          (IsChained-Perm _ (λ a b n e. n (sym e)) (λ a b. ¬_prop) walked-perm groups_lem.1))

  collapsed_some : All (λ r. r ≢ none) (collapse_all fl rt walked)
  unfolding collapse_all
  collapsed_some =
      All-map (λ r. r ≢ none) (λ kv. collapse fl rt kv.1) walked
        (All-mono Stands _ walked (λ kv s e. ∥∥₁_elim s ⊥_prop (λ (m, p, k, best). cc))
          walked-Stands)

  abbrev IsOut : String × List (MemoryEntry fl) → Type 0
  IsOut kv = Mem (collapse fl rt kv.1) (collapse_all fl rt walked)

  groups-IsOut : All IsOut groups
  unfolding collapse_all
  groups-IsOut =
      All-Perm IsOut (λ kv. ∥∥₁_prop) (Perm.symm walked-perm)
        (All-of_map (λ r. Mem r (collapse_all fl rt walked)) (λ kv. collapse fl rt kv.1) walked
          (All-of_Mem _ (collapse_all fl rt walked) (λ r m. m)))

  is_merged :
      (x : MemoryEntry fl) → Holds fl rt groups x → IsMerged fl rt (collapse_all fl rt walked) x
  is_merged x (g, found, m) =
      let at = lookup-Memᴰ (key fl rt x) groups found in
      let (n, p, k, best) =
        collapse_lem fl rt ordered (key fl rt x, g)
          (All-Memᴰ (IsGroup fl rt) groups (key fl rt x, g) groups_lem.0 at) in
      ∥∥₁_map (All-Memᴰ IsOut groups (key fl rt x, g) groups-IsOut at)
        (λ t. (collapse fl rt g, t, (n, p, k, (All-Memᴰ (IsNoWorse fl n) g x best m, tt))))

  collapsed-IsMerged : All (IsMerged fl rt (collapse_all fl rt walked)) entries
  unfolding groups
  collapsed-IsMerged = All-mono _ _ entries is_merged (group_by_content-Holds fl rt [] entries)

  -- Up to one entry is returned as it stands.
  few_lem :
      (es : List (MemoryEntry fl))
      → leb (length es) 1 ≡ true
      → let out = map some es in
        All (λ r. r ≢ none) out × IsChained (Distinct fl rt) out × All (IsMerged fl rt out) es
  few_lem [] h = (tt, tt, tt)
  few_lem (e ∷ []) h = (
    (λ q. cc, tt),
    (tt, tt),
    (∣ (some e, Memᴰ.head refl, (e, refl, refl, (IsNoWorse-refl fl rt ordered e, tt))) ∣₁, tt),
  )
  few_lem (e ∷ f ∷ es) h = absurd (ground arith)

  -- No result is nil, no two results have the same normalized content, and for every entry there is
  -- a result of its normalized content that is no worse: of no lower confidence, and not older at
  -- equal confidence.
  pub merge_similar_lem :
      (similarity_threshold : fl.F64)
      → let out = merge_similar fl rt entries similarity_threshold in
        All (λ r. r ≢ none) out × IsChained (Distinct fl rt) out × All (IsMerged fl rt out) entries
  unfolding merge_similar groups walked
  merge_similar_lem similarity_threshold = elim (Bool-cases (leb (length entries) 1)) [
    | inl few ↦ rw few (few_lem entries few)
    | inr many ↦ rw many (collapsed_some, collapsed-Distinct, collapsed-IsMerged)
  ]
