-- ===== src/Provider/Loops.antt =====
-- The loops over the memory systems: what they find does not depend on the order of the loop.
use helix_memory.Prelude.{
  ◌≡◌, ◌≢◌, refl, ap, String, Bool, true, false, not, ◌&&◌, List, [], ◌∷◌, Option, none, some, Dict,
  lookup, insert, str_eq, eq_iff, exists, keep, All, HasDistinctKeys, arith, map, Bool-cases, inl,
  inr, subst,
}
use helix_memory.Runtime.{Floats}
use helix_memory.Types.Provider.{MemoryProvider}
use helix_memory.Provider.{UnifiedMemoryProvider, call_each, first_hit, is_some, register_provider}

module _ {fl : Floats} {mp : MemoryProvider fl} {A : Type 0} where
  -- Each system is called in the state that the loop found it in.
  pub call_each-map :
      (op : mp.State → mp.State × A) (xs : Dict mp.State) (u : UnifiedMemoryProvider mp)
      → (call_each op u xs).1 ≡ map (λ e. (e.0, (op e.1).1)) xs
  unfolding call_each
  call_each-map op [] u = refl
  call_each-map op ((source, s) ∷ rest) u =
      ap (λ r. (source, (op s).1) ∷ r) (call_each-map op rest _)

  -- The loop hits if some system does.
  pub first_hit-exists :
      (op : mp.State → mp.State × Option A) (xs : Dict mp.State) (u : UnifiedMemoryProvider mp)
      → is_some (first_hit op u xs).1 ≡ exists (λ e. is_some (op e.1).1) xs
  unfolding first_hit
  first_hit-exists op [] u = refl
  first_hit-exists op ((source, s) ∷ rest) u =
      ground (arith, first_hit-exists op rest (register_provider u source (op s).0))

pub exists-map {ℓ κ} :
    {A : Type ℓ} {B : Type κ} (p : B → Bool) (f : A → B) (xs : List A)
    → exists p (map f xs) ≡ exists (λ x. p (f x)) xs
exists-map p f [] = refl
exists-map p f (x ∷ xs) = ground (arith, exists-map p f xs)

pub exists-keep {ℓ} :
    {A : Type ℓ} (p q : A → Bool) (xs : List A) → exists p (keep q xs) ≡ exists (λ x. q x && p x) xs
exists-keep p q [] = refl
exists-keep p q (x ∷ xs) = ground (arith, exists-keep p q xs)

pub exists_mono {ℓ} :
    {A : Type ℓ} (p q : A → Bool) (xs : List A)
    → ((x : A) → p x ≡ true → q x ≡ true)
    → exists p xs ≡ true
    → exists q xs ≡ true
exists_mono p q [] f h = h
exists_mono p q (x ∷ xs) f h = ground (arith, f x, exists_mono p q xs f)

module _ {ℓ} {V : Type ℓ} (p : String × V → Bool) where
  abbrev pub other_than : String → String × V → Bool
  other_than k e = not (str_eq e.0 k) && p e

  -- An assignment to `k` does not change what the other keys hold.
  pub exists-insert_other :
      (k : String) (v : V) (d : Dict V)
      → exists (other_than k) (insert k v d) ≡ exists (other_than k) d
  unfolding insert
  exists-insert_other k v [] = ground (arith, eq_iff k k)
  exists-insert_other k v ((j, w) ∷ d) =
      ground (arith, exists-insert_other k v d, eq_iff j k, eq_iff k k)

  others_pass :
      (k : String) (d : Dict V) → All (λ e. k ≢ e.0) d → exists (other_than k) d ≡ exists p d
  others_pass k [] h = refl
  others_pass k ((j, w) ∷ d) h = ground (arith, others_pass k d h.1, h.0, eq_iff j k)

  fails_too :
      (j k : String) (w v : V) → j ≡ k → some w ≡ some v → p (k, v) ≡ false → p (j, w) ≡ false
  fails_too j k w v e q f = cc

  -- If what `k` holds fails, another key passes.
  pub exists-lookup_failing :
      (k : String) (v : V) (d : Dict V)
      → HasDistinctKeys d
      → lookup k d ≡ some v
      → p (k, v) ≡ false
      → exists p d ≡ true
      → exists (other_than k) d ≡ true
  unfolding lookup
  exists-lookup_failing k v [] u l f h = h
  exists-lookup_failing k v ((j, w) ∷ d) u l f h = elim (Bool-cases (str_eq j k)) [
    | inl same ↦ ground (
      arith,
      others_pass k d (subst (λ i. All (λ e. i ≢ e.0) d) ((eq_iff j k).0 same) u.0),
      fails_too j k w v ((eq_iff j k).0 same) (rw same at l) f,
    )
    | inr other ↦ ground (arith, exists-lookup_failing k v d u.1 (rw other at l) f)
  ]

  pub exists-lookup_missing :
      (k : String) (d : Dict V) → lookup k d ≡ none → exists (other_than k) d ≡ exists p d
  unfolding lookup
  exists-lookup_missing k [] l = refl
  exists-lookup_missing k ((j, w) ∷ d) l = ground (arith, exists-lookup_missing k d, eq_iff j k)

  pub exists-head_failing :
      (e : String × V) (d : Dict V)
      → HasDistinctKeys (e ∷ d)
      → p e ≡ false
      → exists p (e ∷ d) ≡ true
      → exists (other_than e.0) (e ∷ d) ≡ true
  exists-head_failing e d u f h = ground (arith, others_pass e.0 d u.0)
