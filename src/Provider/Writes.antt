-- ===== src/Provider/Writes.antt =====
-- When Add of the unified provider succeeds.
use mathlib.Core.List.Perm
use helix_memory.Prelude.{
  ◌≡◌, refl, sym, ◌∙◌, Bool, true, false, not, [], ◌∷◌, Option, none, some, Dict, lookup, insert,
  str_eq, exists, exists-Perm, keep, HasDistinctKeys, IsChained-Perm, Perm, arith, Bool-cases, inl,
  inr,
}
use mathlib.Core.HLevel.{¬_prop}
use helix_memory.Runtime.{Floats, Runtime, IsGo}
use helix_memory.Types.{MemoryEntry}
use helix_memory.Types.MemorySource.{MemorySource}
use helix_memory.Types.Provider.{MemoryProvider, Error, succeeded}
use helix_memory.Routing.{route_write}
use helix_memory.Provider.{
  UnifiedMemoryProvider, register_provider, first_hit, is_some, hit_of, add_to, ranged, or_first,
  first_of, add_first, add, error_unless,
}
use helix_memory.Provider.Loops.{
  first_hit-exists, exists-keep, exists_mono, other_than, exists-insert_other,
  exists-lookup_failing, exists-lookup_missing, exists-head_failing,
}

hit_of-succeeded : (error : Option Error) → is_some (hit_of error) ≡ succeeded error
hit_of-succeeded none = refl
hit_of-succeeded (some e) = refl

pub error_unless-is_some :
    {A : Type 0} (a : Option A) (message : Error) → succeeded (error_unless a message) ≡ is_some a
error_unless-is_some none message = refl
error_unless-is_some (some a) message = refl

-- The system takes the entry.
abbrev pub accepting :
    {fl : Floats} (mp : MemoryProvider fl) → MemoryEntry fl → MemorySource × mp.State → Bool
accepting mp entry e = is_some (add_to mp entry e.1).1

module _ {fl : Floats} {mp : MemoryProvider fl} (entry : MemoryEntry fl) where
  module _ (rt : Runtime) (go : IsGo rt) (u : UnifiedMemoryProvider mp)
      (target : MemorySource) where
    -- A system other than the one that was tried takes the entry, and is no `target`.
    abbrev Remains : MemorySource → Type 0
    Remains source =
        exists (other_than (other_than (accepting mp entry) target) source) u.providers ≡ true

    -- Then the loop over the systems finds it.
    retry_finds :
        (source : MemorySource) (s : mp.State)
        → Remains source
        → let u1 = register_provider u source s in
          let others = keep (λ e. not (str_eq e.0 target)) (ranged rt u1) in
          is_some (first_hit (add_to mp entry) u1 others).1 ≡ true
    unfolding register_provider
    retry_finds source s h =
        let d = insert source s u.providers in
        let u1 = register_provider u source s in
        let others = keep (λ e. not (str_eq e.0 target)) (ranged rt u1) in
        first_hit-exists (add_to mp entry) others u1
        ∙ exists-keep (accepting mp entry) (λ e. not (str_eq e.0 target)) (ranged rt u1)
        ∙ exists-Perm (other_than (accepting mp entry) target) (go.range_order-perm _ d)
        ∙ exists_mono (other_than (other_than (accepting mp entry) target) source)
            (other_than (accepting mp entry) target) d (λ e k. ground arith)
            (exists-insert_other (other_than (accepting mp entry) target) source s u.providers ∙ h)

    tried_first :
        (source : MemorySource) (s : mp.State)
        → (accepting mp entry (source, s) ≡ false → Remains source)
        → succeeded (add_first rt u entry target (some (source, s))).1 ≡ true
    unfolding add_first
    tried_first source s h = elim (Bool-cases (accepting mp entry (source, s))) [
      | inl taken ↦ ground (arith, hit_of-succeeded (mp.add s entry).1)
      | inr refused ↦ ground (
        arith,
        hit_of-succeeded (mp.add s entry).1,
        retry_finds source (mp.add s entry).0 (h refused),
        error_unless-is_some
            (first_hit (add_to mp entry) (register_provider u source (mp.add s entry).0) (
              keep (λ e. not (str_eq e.0 target))
                (ranged rt (register_provider u source (mp.add s entry).0)))).1
            "all providers failed to add",
      )
    ]

    module _ (distinct : HasDistinctKeys u.providers)
        (some_takes : exists (accepting mp entry) u.providers ≡ true) where
      at_target :
          (s : mp.State)
          → lookup target u.providers ≡ some s
          → succeeded (add_first rt u entry target (some (target, s))).1 ≡ true
      at_target s l = tried_first target s (λ refused.
          let others =
            exists-lookup_failing (accepting mp entry) target s u.providers distinct l refused
              some_takes in
          exists_mono (other_than (accepting mp entry) target)
            (other_than (other_than (accepting mp entry) target) target) u.providers
            (λ e k. ground arith) others)

      at_first :
          (xs : Dict mp.State)
          → Perm xs u.providers
          → lookup target u.providers ≡ none
          → succeeded (add_first rt u entry target (first_of xs)).1 ≡ true
      at_first [] p l = absurd (ground (arith, exists-Perm (accepting mp entry) p, some_takes))
      at_first (e ∷ es) p l =
          let keys =
            IsChained-Perm _ (λ a b n q. n (sym q)) (λ a b. ¬_prop) (Perm.symm p) distinct in
          let rest = exists-lookup_missing (accepting mp entry) target u.providers l in
          let q = other_than (accepting mp entry) target in
          tried_first e.0 e.1 (λ refused.
            sym (exists-Perm (other_than q e.0) p)
            ∙ exists-head_failing q e es keys (ground (arith, refused))
                (exists-Perm q p ∙ rest ∙ some_takes))

      fallback :
          (found : Option mp.State)
          → lookup target u.providers ≡ found
          → succeeded (add_first rt u entry target (or_first target found (ranged rt u))).1 ≡ true
      fallback none l = at_first (ranged rt u) (go.range_order-perm _ u.providers) l
      fallback (some s) l = at_target s l

-- If no name is registered twice and a range loop visits each system once, then Add succeeds as soon
-- as some registered system takes the entry, whichever system the router names: the call falls back
-- on the others. The entry is the one that the router has given a type.
pub add_falls_back :
    {fl : Floats} {mp : MemoryProvider fl} (rt : Runtime) (go : IsGo rt)
    (u : UnifiedMemoryProvider mp) (entry : MemoryEntry fl)
    → HasDistinctKeys u.providers
    → exists (accepting mp (route_write rt u.router entry).0) u.providers ≡ true
    → succeeded (add rt u entry).1 ≡ true
unfolding add
add_falls_back rt go u entry distinct some_takes =
    let (typed, target) = route_write rt u.router entry in
    fallback typed rt go u target distinct some_takes (lookup target u.providers) refl
