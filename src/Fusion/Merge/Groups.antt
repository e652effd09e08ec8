-- ===== src/Fusion/Merge/Groups.antt =====
-- MergeSimilar: one entry for each normalized content, and each content represented.
use mathlib.Core.List.{Memᴰ}
use helix_memory.Prelude.{
  String, ◌≡◌, ◌≢◌, refl, List, [], ◌∷◌, ◌++◌, Option, some, Dict, lookup, insert, lookup-insert,
  lookup-Memᴰ, All-insert, HasDistinctKeys, insert-HasDistinctKeys, All, All-append, All-Memᴰ, ap,
  ◌∙◌, subst, Some-append, Some-append_one, Option-cases, Bool-cases, inl, inr, eq_iff, eq_refl,
  str_eq,
}
use helix_memory.Runtime.{Floats, Runtime, IsFloatOrder}
use helix_memory.Types.{MemoryEntry}
use helix_memory.Fusion.Merge.{normalize_content, mark_merged, or_nil, group_by_content, collapse}
use helix_memory.Fusion.Merge.Base.{IsNoWorse, merge_group_lem, IsNoWorse-refl}

append_one-ne-nil {ℓ} : {A : Type ℓ} (xs : List A) (x : A) → xs ++ x ∷ [] ≢ []
append_one-ne-nil [] x h = cc
append_one-ne-nil (y ∷ ys) x h = cc

module _ (fl : Floats) (rt : Runtime) where
  abbrev pub key : MemoryEntry fl → String
  key e = normalize_content rt e.content

  abbrev pub Groups : Type 0
  Groups = Dict (List (MemoryEntry fl))

  abbrev added : Groups → MemoryEntry fl → Groups
  added groups e = insert (key e) (or_nil fl rt (lookup (key e) groups) ++ e ∷ []) groups

  -- Under a key stands a group, not empty, of entries with that key.
  abbrev pub IsGroup : String × List (MemoryEntry fl) → Type 0
  IsGroup kv = (kv.1 ≢ []) × All (λ e. key e ≡ kv.0) kv.1

  -- The group of the entry's key holds it.
  abbrev pub Holds : Groups → MemoryEntry fl → Type 0
  Holds groups x = (g : List (MemoryEntry fl)) × (lookup (key x) groups ≡ some g) × Memᴰ x g

  added-IsGroup :
      (groups : Groups) (e : MemoryEntry fl) → All IsGroup groups → All IsGroup (added groups e)
  unfolding or_nil
  added-IsGroup groups e h =
      All-insert IsGroup (key e) (or_nil fl rt (lookup (key e) groups) ++ e ∷ []) groups
        (
          append_one-ne-nil _ e,
          elim (Option-cases (lookup (key e) groups)) [
            | inl fresh ↦ rw fresh (refl, tt)
            | inr (g, old) ↦ rw old (
                All-append _ g (e ∷ [])
                  (All-Memᴰ IsGroup groups (key e, g) h (lookup-Memᴰ (key e) groups old)).1
                  (refl, tt))
          ],
        )
        h

  lookup-added_self :
      (groups : Groups) (e : MemoryEntry fl)
      → lookup (key e) (added groups e) ≡ some (or_nil fl rt (lookup (key e) groups) ++ e ∷ [])
  lookup-added_self groups e = simp (lookup-insert, eq_refl)

  added-Holds : (groups : Groups) (e : MemoryEntry fl) → Holds (added groups e) e
  added-Holds groups e =
      let (x, m, p) = Some-append_one (λ x. x ≡ e) (or_nil fl rt (lookup (key e) groups)) e refl in
      let g = or_nil fl rt (lookup (key e) groups) ++ e ∷ [] in
      (g, lookup-added_self groups e, subst (λ x. Memᴰ x g) p m)

  added_keeps : (groups : Groups) (e x : MemoryEntry fl) → Holds groups x → Holds (added groups e) x
  unfolding or_nil
  added_keeps groups e x (g, found, m) = elim (Bool-cases (str_eq (key e) (key x))) [
    | inl same ↦
        let at : lookup (key e) groups ≡ some g =
          ap (λ k. lookup k groups) ((eq_iff (key e) (key x)).0 same) ∙ found in
        let (y, t, p) = Some-append (λ y. y ≡ x) g (e ∷ []) (x, m, refl) in
        (g ++ e ∷ [], rw (lookup-insert, same, at), subst (λ y. Memᴰ y (g ++ e ∷ [])) p t)
    | inr other ↦ (g, rw (lookup-insert, other) found, m)
  ]

  Holds-from :
      (groups : Groups) (es : List (MemoryEntry fl)) (x : MemoryEntry fl)
      → Holds groups x
      → Holds (group_by_content fl rt groups es) x
  unfolding group_by_content
  Holds-from groups [] x h = h
  Holds-from groups (e ∷ es) x h = Holds-from (added groups e) es x (added_keeps groups e x h)

  pub group_by_content-Holds :
      (groups : Groups) (es : List (MemoryEntry fl))
      → All (Holds (group_by_content fl rt groups es)) es
  unfolding group_by_content
  group_by_content-Holds groups [] = tt
  group_by_content-Holds groups (e ∷ es) = (
    Holds-from (added groups e) es e (added-Holds groups e),
    group_by_content-Holds (added groups e) es,
  )

  pub group_by_content-IsGroup :
      (groups : Groups) (es : List (MemoryEntry fl))
      → All IsGroup groups
      → HasDistinctKeys groups
      → All IsGroup (group_by_content fl rt groups es)
        × HasDistinctKeys (group_by_content fl rt groups es)
  unfolding group_by_content
  group_by_content-IsGroup groups [] h d = (h, d)
  group_by_content-IsGroup groups (e ∷ es) h d =
      group_by_content-IsGroup (added groups e) es (added-IsGroup groups e h)
        (insert-HasDistinctKeys _ _ groups d)

  -- `r` is a merged entry with key `k`, no worse than those of the group.
  abbrev pub StandsFor : String → List (MemoryEntry fl) → Option (MemoryEntry fl) → Type 0
  StandsFor k group r =
      (m : MemoryEntry fl) × (r ≡ some m) × (key m ≡ k) × All (IsNoWorse fl m) group

  pub collapse_lem :
      IsFloatOrder fl
      → (kv : String × List (MemoryEntry fl)) → IsGroup kv
      → StandsFor kv.0 kv.1 (collapse fl rt kv.1)
  unfolding collapse mark_merged
  collapse_lem o (k, []) h = absurd (h.0 refl)
  collapse_lem o (k, e ∷ []) h = (e, refl, h.1.0, (IsNoWorse-refl fl rt o e, tt))
  collapse_lem o (k, e ∷ f ∷ es) h =
      let (b, m, p, best) = merge_group_lem fl rt o e (f ∷ es) in
      (mark_merged fl rt (e ∷ f ∷ es) b, p, All-Memᴰ _ (e ∷ f ∷ es) b h.1 m, best)
