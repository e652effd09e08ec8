-- ===== src/Provider/Gathering.antt =====
-- The goroutines of Search: whatever their order, each slot holds the answer of its own system.
use helix_memory.Prelude.{
  ℕ, ◌≡◌, ◌≢◌, ◌≤◌, refl, ap, ◌∙◌, str_eq, eq_iff, true, false, List, [], ◌∷◌, map, Option, none,
  some, lookup, lookup-insert, count, exists, IsChained, count-Perm, exists-count, arith,
}
use helix_memory.Runtime.{Floats, Runtime, IsGo}
use helix_memory.Types.{MemoryEntry, SearchRequest, SearchResult, Instant}
use helix_memory.Routing.{route_read}
use helix_memory.Fusion.Engine.Combine.{fuse}
use helix_memory.Types.MemorySource.{MemorySource}
use helix_memory.Types.Provider.{MemoryProvider}
use helix_memory.Provider.{UnifiedMemoryProvider, register_provider, found_of}
use helix_memory.Provider.Search.{
  set_at, blank, numbered, search_in, search_all, registered, search_from, search,
}
use helix_memory.Provider.Slots.{fill, fill_all, count-numbered, count_once}

-- The answer of a system that may be registered.
abbrev pub answered :
    {fl : Floats} (mp : MemoryProvider fl)
    → SearchRequest fl
    → Option mp.State
    → Option (SearchResult fl)
answered mp req none = none
answered mp req (some s) = found_of (mp.search s req).1

module _ {fl : Floats} {mp : MemoryProvider fl} (req : SearchRequest fl) where
  -- The answer of the system that a provider has under a name.
  abbrev pub answer_of : UnifiedMemoryProvider mp → MemorySource → Option (SearchResult fl)
  answer_of u source = answered mp req (lookup source u.providers)

  search_in-answered :
      (u : UnifiedMemoryProvider mp) (source : MemorySource) (o : Option mp.State)
      → (search_in u req source o).1 ≡ answered mp req o
  unfolding search_in
  search_in-answered u source none = refl
  search_in-answered u source (some s) = refl

  search_in_elsewhere :
      (u : UnifiedMemoryProvider mp) (source asked : MemorySource) (o : Option mp.State)
      → str_eq source asked ≡ false
      → lookup asked (search_in u req source o).0.providers ≡ lookup asked u.providers
  unfolding search_in register_provider
  search_in_elsewhere u source asked none h = refl
  search_in_elsewhere u source asked (some s) h =
      lookup-insert source asked (mp.search s req).0 u.providers ∙ rw h refl

  -- Each system answers in the state in which it was found, as long as none is asked twice.
  search_all-fill :
      (u0 u : UnifiedMemoryProvider mp) (jobs : List (ℕ × MemorySource))
      (slots : List (Option (SearchResult fl)))
      → ((s : MemorySource) → count (λ e. str_eq e.1 s) jobs ≤ 1)
      → ((s : MemorySource)
          → exists (λ e. str_eq e.1 s) jobs ≡ true
          → lookup s u.providers ≡ lookup s u0.providers)
      → (search_all u req jobs slots).1 ≡ fill (answer_of u0) jobs slots
  unfolding search_all
  search_all-fill u0 u [] slots once same = refl
  search_all-fill u0 u ((i, source) ∷ jobs) slots once same =
      let o = lookup source u.providers in
      let u' = (search_in u req source o).0 in
      let here : o ≡ lookup source u0.providers =
        same source (ground (arith, eq_iff source source)) in
      let found : (search_in u req source o).1 ≡ answer_of u0 source =
        search_in-answered u source o ∙ ap (answered mp req) here in
      search_all-fill u0 u' jobs (set_at i (search_in u req source o).1 slots)
        (λ s. ground (arith, once s))
        (λ s later.
          let other : str_eq source s ≡ false =
            ground (arith, once s, later, exists-count (λ e. str_eq e.1 s) jobs) in
          search_in_elsewhere u source s o other ∙ same s (ground (arith, later)))
      ∙ ap (λ r. fill (answer_of u0) jobs (set_at i r slots)) found

  -- The answer to a request, from the answers of the systems that are asked, in their order.
  abbrev pub fused_answers :
      Runtime
      → (now : MemoryEntry fl → Instant) → UnifiedMemoryProvider mp
      → List MemorySource
      → SearchResult fl
  fused_answers rt now u [] = record { entries = []; total = 0; duration = 0; sources = [] }
  fused_answers rt now u (s ∷ ss) = fuse rt now (map (answer_of u) (s ∷ ss)) req

  module _ (rt : Runtime) (go : IsGo rt) (now : MemoryEntry fl → Instant)
      (u : UnifiedMemoryProvider mp) where
    search_from-fused_answers :
        (ss : List MemorySource)
        → IsChained ◌≢◌ ss
        → (search_from rt now u req ss).1 ≡ fused_answers rt now u ss
    unfolding search_from
    search_from-fused_answers [] distinct = refl
    search_from-fused_answers (s ∷ ss) distinct =
        let all = s ∷ ss in
        let jobs = rt.interleave (ℕ × MemorySource) (numbered 0 all) in
        let order = go.interleave-perm (ℕ × MemorySource) (numbered 0 all) in
        let once : (x : MemorySource) → count (λ e. str_eq e.1 x) jobs ≤ 1 = λ x. omega (
          arith,
          count-Perm (λ e. str_eq e.1 x) order,
          count-numbered 0 all x,
          count_once x all distinct,
        ) in
        ap (λ results. fuse rt now results req)
          (search_all-fill u u jobs (blank all) once (λ x e. refl)
            ∙ fill_all (answer_of u) all jobs order)

    -- If the sources that the router names and that are registered are all different, Search returns
    -- the fusion of their answers: each system is asked in the state in which Search found it, and its
    -- answer stands in its own place, in whatever order the goroutines run; a system that fails leaves
    -- no answer. With no source there are no entries.
    pub search-fused_answers :
        IsChained ◌≢◌ (registered u (route_read rt u.router req))
        → (search rt now u req).1
          ≡ fused_answers rt now u (registered u (route_read rt u.router req))
    unfolding search
    search-fused_answers distinct =
        search_from-fused_answers (registered u (route_read rt u.router req)) distinct
