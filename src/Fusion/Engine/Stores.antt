-- ===== src/Fusion/Engine/Stores.antt =====
-- When Store reports an error.
use helix_memory.Prelude.{
  String, ℕ, ◌<◌, ◌≡◌, ◌≢◌, refl, ap, Bool, false, not, List, [], ◌∷◌, Option, none, some, All,
  IsChained, IsChained-Perm, count, exists, count-Perm, count-eq-length, length, is_seen, arith,
  sym,
}
use mathlib.Core.List.Perm
use mathlib.Core.HLevel.{¬_prop}
use helix_memory.Runtime.{Floats, Runtime, IsGo}
use helix_memory.Types.{MemoryEntry}
use helix_memory.Types.MemorySource
use helix_memory.Types.MemorySource.{MemorySource}
use helix_memory.Types.Provider.{MemoryProvider, succeeded}
use helix_memory.Fusion.Router.{select_systems_for_write}
use helix_memory.Fusion.Router.Writes.{wanted, select_systems_for_write_lem}
use helix_memory.Fusion.Engine.{
  FusionEngine, available, add_to, store_to_system, store_to_all, store,
}
use helix_memory.Fusion.Engine.Systems.{available-set_client_ne}

-- The system has an available client, and its Add gives no error.
abbrev pub accepted :
    {fl : Floats} (mp : MemoryProvider fl) → MemoryEntry fl → Option mp.State → Bool
accepted mp entry none = false
accepted mp entry (some s) = succeeded (mp.add s entry).1

some_seen :
    (type agent_id : String) (ss : List MemorySource)
    → is_seen MemorySource.mem0 ss ≡ wanted type agent_id MemorySource.mem0
    → is_seen MemorySource.letta ss ≡ wanted type agent_id MemorySource.letta
    → 0 < length ss
some_seen type agent_id [] a b = absurd (ground arith)
some_seen type agent_id (s ∷ ss) a b = omega arith

-- Every write goes to some system.
select_systems-ne-nil :
    {fl : Floats} (entry : MemoryEntry fl) → 0 < length (select_systems_for_write entry)
select_systems-ne-nil entry =
    let routed = (select_systems_for_write_lem entry).0 in
    some_seen entry.type entry.agent_id (select_systems_for_write entry) (routed MemorySource.mem0)
      (routed MemorySource.letta)

module _ {fl : Floats} {mp : MemoryProvider fl} (entry : MemoryEntry fl) where
  abbrev pub accepts : FusionEngine mp → MemorySource → Bool
  accepts e s = accepted mp entry (available e s)

  add_to-accepted :
      (e : FusionEngine mp) (s : MemorySource) (c : Option mp.State)
      → succeeded (add_to e entry s c).1 ≡ accepted mp entry c
  unfolding add_to
  add_to-accepted e s none = refl
  add_to-accepted e s (some c) = refl

  add_to-available :
      (e : FusionEngine mp) (s t : MemorySource) (c : Option mp.State)
      → s ≢ t
      → available (add_to e entry s c).0 t ≡ available e t
  unfolding add_to
  add_to-available e s t none other = refl
  add_to-available e s t (some c) other = available-set_client_ne e s t (mp.add c entry).0 other

  store_to_system-accepts :
      (e : FusionEngine mp) (s : MemorySource)
      → succeeded (store_to_system e entry s).1 ≡ accepts e s
  unfolding store_to_system
  store_to_system-accepts e s = add_to-accepted e s (available e s)

  refusing : FusionEngine mp → List MemorySource → ℕ
  refusing e ss = count (λ s. not (accepts e s)) ss

  -- A store to `s` does not change which other systems accept.
  refusing_same :
      (e : FusionEngine mp) (s : MemorySource) (ss : List MemorySource)
      → All (λ t. s ≢ t) ss
      → refusing (store_to_system e entry s).0 ss ≡ refusing e ss
  unfolding refusing store_to_system
  refusing_same e s [] h = refl
  refusing_same e s (t ∷ ts) h = ground (
    arith,
    refusing_same e s ts h.1,
    ap (accepted mp entry) (add_to-available e s t (available e s) h.0),
  )

  store_to_all-refusing :
      (e : FusionEngine mp) (ss : List MemorySource)
      → IsChained ◌≢◌ ss
      → (store_to_all e entry ss).1 ≡ refusing e ss
  unfolding refusing store_to_all
  store_to_all-refusing e [] h = refl
  store_to_all-refusing e (s ∷ ss) h = ground (
    arith,
    store_to_all-refusing (store_to_system e entry s).0 ss h.1,
    refusing_same e s ss h.0,
    store_to_system-accepts e s,
  )

  -- Store fails exactly if no system that the entry is routed to is available and accepts it,
  -- in whatever order the goroutines take effect.
  pub store-accepts :
      (rt : Runtime) (go : IsGo rt) (e : FusionEngine mp)
      → succeeded (store rt e entry).1 ≡ exists (accepts e) (select_systems_for_write entry)
  unfolding store refusing
  store-accepts rt go e =
      let systems = select_systems_for_write entry in
      let order = go.interleave-perm MemorySource systems in
      let run = rt.interleave MemorySource systems in
      let distinct =
        IsChained-Perm ◌≢◌ (λ a b n q. n (sym q)) (λ a b. ¬_prop) (Perm.symm order)
          (select_systems_for_write_lem entry).1 in
      ground (
        arith,
        select_systems-ne-nil entry,
        store_to_all-refusing e run distinct,
        count-Perm (λ s. not (accepts e s)) order,
        count-eq-length (accepts e) systems,
      )
