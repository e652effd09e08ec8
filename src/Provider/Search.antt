-- ===== src/Provider/Search.antt =====
-- pkg/provider/unified.go: `Search`: the systems that the router names are asked at once, and their
-- results fused. A system that fails leaves no result. The concurrency limit and the timeouts are
-- left out: they are seen by the systems only.
use helix_memory.Prelude.{ℕ, zero, suc, List, [], ◌∷◌, Option, none, some, lookup}
use helix_memory.Runtime.{Floats, Runtime}
use helix_memory.Types.{MemoryEntry, SearchRequest, SearchResult, Instant}
use helix_memory.Types.MemorySource.{MemorySource}
use helix_memory.Types.Provider.{MemoryProvider}
use helix_memory.Routing.{route_read}
use helix_memory.Fusion.Engine.Combine.{fuse}
use helix_memory.Provider.{UnifiedMemoryProvider, register_provider, found_of}

-- `results[i] = result`
unfoldable pub set_at {ℓ} : {A : Type ℓ} → (i : ℕ) → A → List A → List A
set_at i a [] = []
set_at zero a (x ∷ xs) = a ∷ xs
set_at (suc i) a (x ∷ xs) = x ∷ set_at i a xs

abbrev pub blank : {A B : Type 0} → List A → List (Option B)
blank [] = []
blank (x ∷ xs) = none ∷ blank xs

abbrev pub numbered : {A : Type 0} → (i : ℕ) → List A → List (ℕ × A)
numbered i [] = []
numbered i (x ∷ xs) = (i, x) ∷ numbered (suc i) xs

keep_found : {A B : Type 0} → A → Option B → List A → List A
keep_found a none rest = rest
keep_found a (some b) rest = a ∷ rest

module _ {fl : Floats} {mp : MemoryProvider fl} where
  -- The sources that are registered.
  unfoldable pub registered : UnifiedMemoryProvider mp → List MemorySource → List MemorySource
  unfolding keep_found lookup
  registered u [] = []
  registered u (s ∷ ss) = keep_found s (lookup s u.providers) (registered u ss)

  unfoldable pub search_in :
      UnifiedMemoryProvider mp
      → SearchRequest fl
      → MemorySource
      → Option mp.State
      → UnifiedMemoryProvider mp × Option (SearchResult fl)
  unfolding register_provider
  search_in u req source none = (u, none)
  search_in u req source (some s) =
      let (s', result) = mp.search s req in (register_provider u source s', found_of result)

  -- The goroutines, with the slots that they fill.
  unfoldable pub search_all :
      UnifiedMemoryProvider mp
      → SearchRequest fl
      → List (ℕ × MemorySource)
      → List (Option (SearchResult fl))
      → UnifiedMemoryProvider mp × List (Option (SearchResult fl))
  unfolding search_in set_at lookup
  search_all u req [] results = (u, results)
  search_all u req ((i, source) ∷ rest) results =
      let (u', result) = search_in u req source (lookup source u.providers) in
      search_all u' req rest (set_at i result results)

  unfoldable pub search_from :
      Runtime
      → (now : MemoryEntry fl → Instant) → UnifiedMemoryProvider mp
      → SearchRequest fl
      → List MemorySource
      → UnifiedMemoryProvider mp × SearchResult fl
  unfolding search_all fuse
  search_from rt now u req [] = (u, record { entries = []; total = 0; duration = 0; sources = [] })
  search_from rt now u req (s ∷ ss) =
      let jobs = rt.interleave (ℕ × MemorySource) (numbered 0 (s ∷ ss)) in
      let (u', results) = search_all u req jobs (blank (s ∷ ss)) in (u', fuse rt now results req)

  unfoldable pub search :
      Runtime
      → (now : MemoryEntry fl → Instant) → UnifiedMemoryProvider mp
      → SearchRequest fl
      → UnifiedMemoryProvider mp × SearchResult fl
  unfolding search_from registered route_read
  search rt now u req = search_from rt now u req (registered u (route_read rt u.router req))
