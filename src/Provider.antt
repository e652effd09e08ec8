-- ===== src/Provider.antt =====
-- pkg/provider/unified.go: the unified provider, a map of memory systems by name. Their states share
-- one type, `mp.State`, which can be a sum. Each loop over the map walks it in the order that `rt`
-- gives; the goroutines of a parallel loop take effect in the order that `rt.interleave` gives. The
-- state of a method is the provider, which comes back.
pub mod Adapter
pub mod Delegates
pub mod Loops
pub mod Writes
pub mod Calls
pub mod Search
pub mod Slots
pub mod Gathering
pub mod History
use helix_memory.Prelude.{
  ℕ, zero, suc, String, Bool, true, false, not, ◌&&◌, List, [], ◌∷◌, ◌++◌, map, Option, none, some,
  Dict, lookup, insert, str_eq, if◌then◌else◌, ltb, leb, exists, keep, length, take, count,
}
use helix_memory.Prelude.Int.{ℤ, pos, ltb_ℤ, pos_part}
use helix_memory.Runtime.{Floats, Runtime}
use helix_memory.Types.{MemoryEntry, SearchRequest, SearchResult, Instant}
use helix_memory.Types.MemorySource.{MemorySource}
use helix_memory.Types.Provider.{MemoryProvider, Error, Result, ok, err, succeeded}
use helix_memory.Routing.{Router, new_router, route_write, route_read}
use helix_memory.Fusion.Engine.Combine.{fuse}

pub record UnifiedMemoryProvider {fl : Floats} (mp : MemoryProvider fl) : Type 0 where
  pub providers : Dict mp.State
  pub router : Router

-- An error is a failure, and success is a hit.
abbrev pub hit_of : Option Error → Option {0} Unit
hit_of none = some tt
hit_of (some e) = none

-- `err == nil && entry != nil`
abbrev pub found_of : {A : Type 0} → Result (Option A) → Option A
found_of (ok found) = found
found_of (err e) = none

abbrev pub entries_of : {A : Type 0} → Result (List A) → List A
entries_of (ok entries) = entries
entries_of (err e) = []

abbrev pub is_some : {A : Type 0} → Option A → Bool
is_some none = false
is_some (some a) = true

abbrev pub error_unless : {A : Type 0} → Option A → Error → Option Error
error_unless none message = some message
error_unless (some a) message = none

abbrev pub ok_or : {A : Type 0} → Option A → Error → Result A
ok_or none message = err message
ok_or (some a) message = ok a

abbrev pub first_of : {A : Type 0} → List A → Option A
first_of [] = none
first_of (x ∷ xs) = some x

-- What stands under `target`, or else the first entry of the loop.
abbrev pub or_first : {A : Type 0} → String → Option A → Dict A → Option (String × A)
or_first target none others = first_of others
or_first target (some a) others = some (target, a)

abbrev pub add_to :
    {fl : Floats}
    → (mp : MemoryProvider fl) → MemoryEntry fl
    → mp.State
    → mp.State × Option {0} Unit
add_to mp entry s = let (s', error) = mp.add s entry in (s', hit_of error)

abbrev pub update_in :
    {fl : Floats}
    → (mp : MemoryProvider fl) → MemoryEntry fl
    → mp.State
    → mp.State × Option {0} Unit
update_in mp entry s = let (s', error) = mp.update s entry in (s', hit_of error)

unfoldable pub new : {fl : Floats} → (mp : MemoryProvider fl) → UnifiedMemoryProvider mp
unfolding new_router
new mp = record { providers = []; router = new_router }

module _ {fl : Floats} {mp : MemoryProvider fl} where
  unfoldable pub register_provider :
      UnifiedMemoryProvider mp → MemorySource → mp.State → UnifiedMemoryProvider mp
  unfolding insert
  register_provider u name s = record u { providers = insert name s u.providers }

  -- A loop over the systems that calls each: the results, by name.
  unfoldable pub call_each :
      {A : Type 0}
      → (op : mp.State → mp.State × A) → UnifiedMemoryProvider mp
      → Dict mp.State
      → UnifiedMemoryProvider mp × Dict A
  unfolding register_provider
  call_each op u [] = (u, [])
  call_each op u ((source, s) ∷ rest) =
      let (s', a) = op s in
      let (u', results) = call_each op (register_provider u source s') rest in
      (u', (source, a) ∷ results)

  -- A loop that returns at the first hit.
  unfoldable pub first_hit :
      {A : Type 0}
      → (op : mp.State → mp.State × Option A) → UnifiedMemoryProvider mp
      → Dict mp.State
      → UnifiedMemoryProvider mp × Option A
  unfolding register_provider
  first_hit op u [] = (u, none)
  first_hit op u ((source, s) ∷ rest) =
      let (s', a) = op s in
      let u' = register_provider u source s' in
      let later = first_hit op u' rest in if is_some a then (u', a) else later

  -- `for source, p := range u.providers`
  abbrev pub ranged : Runtime → UnifiedMemoryProvider mp → Dict mp.State
  ranged rt u = rt.range_order (MemorySource × mp.State) u.providers

  -- Add with the system to try first.
  unfoldable pub add_first :
      Runtime
      → UnifiedMemoryProvider mp
      → MemoryEntry fl
      → (target : MemorySource) → Option (MemorySource × mp.State)
      → UnifiedMemoryProvider mp × Option Error
  unfolding first_hit register_provider
  add_first rt u entry target none = (u, some "no providers available for write")
  add_first rt u entry target (some (source, s)) =
      let (s', error) = mp.add s entry in
      let u1 = register_provider u source s' in
      let others = keep (λ e. not (str_eq e.0 target)) (ranged rt u1) in
      let (u2, hit) = first_hit (add_to mp entry) u1 others in
      if succeeded error then (u1, none) else (u2, error_unless hit "all providers failed to add")

  unfoldable pub add :
      Runtime → UnifiedMemoryProvider mp → MemoryEntry fl → UnifiedMemoryProvider mp × Option Error
  unfolding add_first route_write lookup
  add rt u entry =
      let (typed, target) = route_write rt u.router entry in
      add_first rt u typed target (or_first target (lookup target u.providers) (ranged rt u))

  unfoldable pub get :
      Runtime
      → UnifiedMemoryProvider mp
      → String
      → UnifiedMemoryProvider mp × Result (MemoryEntry fl)
  unfolding first_hit
  get rt u id =
      let (u', hit) =
        first_hit (λ s. let (s', found) = mp.get s id in (s', found_of found)) u (ranged rt u) in
      (u', ok_or hit "not found in any provider")

  -- Update with the system that `entry.Source` names.
  unfoldable pub update_owned :
      Runtime
      → UnifiedMemoryProvider mp
      → MemoryEntry fl
      → Option mp.State
      → UnifiedMemoryProvider mp × Option Error
  unfolding first_hit register_provider
  update_owned rt u entry none =
      let (u', hit) = first_hit (update_in mp entry) u (ranged rt u) in
      (u', error_unless hit "failed to update memory in any provider")
  update_owned rt u entry (some s) =
      let (s', error) = mp.update s entry in (register_provider u entry.source s', error)

  unfoldable pub update :
      Runtime → UnifiedMemoryProvider mp → MemoryEntry fl → UnifiedMemoryProvider mp × Option Error
  unfolding update_owned lookup
  update rt u entry =
      update_owned rt u entry
        (if str_eq entry.source "" then none else lookup entry.source u.providers)

  unfoldable pub delete :
      Runtime → UnifiedMemoryProvider mp → String → UnifiedMemoryProvider mp × Option Error
  unfolding call_each
  delete rt u id =
      let (u', errors) = call_each (λ s. mp.delete s id) u (ranged rt u) in
      (u', if exists (λ e. not (succeeded e.1)) errors then some "delete failed" else none)

  unfoldable pub health :
      Runtime → UnifiedMemoryProvider mp → UnifiedMemoryProvider mp × Option Error
  unfolding call_each
  health rt u =
      let (u', errors) = call_each mp.health u (ranged rt u) in
      let healthy = count (λ e. succeeded e.1) errors in
      (
        u',
        if ltb 0 (length u.providers)
            then (if ltb 0 healthy then none else some "all providers unhealthy")
            else some "no providers registered",
      )

  unfoldable pub health_detailed :
      Runtime → UnifiedMemoryProvider mp → UnifiedMemoryProvider mp × Dict (Option Error)
  unfolding call_each
  health_detailed rt u = call_each mp.health u (rt.interleave (MemorySource × mp.State) u.providers)

  unfoldable pub get_provider : UnifiedMemoryProvider mp → MemorySource → Option mp.State
  unfolding lookup
  get_provider u source = lookup source u.providers

  abbrev pub available_providers : Runtime → UnifiedMemoryProvider mp → List MemorySource
  available_providers rt u = map (λ e. e.0) (ranged rt u)
