-- ===== src/Routing/Paths.antt =====
-- Where writes go, and that reads look there.
use helix_memory.Prelude.{
  true, false, ◌≡◌, refl, ◌∙◌, List, [], ◌∷◌, ◌++◌, lookup, str_eq, str_eq_comm, is_seen,
  is_seen-Perm, is_seen-append, is_seen-unseen, unseen, Bool-cases, inl, inr, arith,
}
use helix_memory.Runtime.{Floats, Runtime, IsGo}
use helix_memory.Types.{MemoryEntry, SearchRequest}
use helix_memory.Types.MemoryType
use helix_memory.Types.MemorySource.{MemorySource}
use helix_memory.Types.Kinds.{
  Kind, is_fact, is_graph, is_core, is_temporal, is_episodic, is_procedural, is_other, kind,
}
use helix_memory.Routing.{Router, new_router, or_mem0, primaries, read_for, route_write, route_read}
use helix_memory.Routing.Classes.{classify_precedence}

module _ {fl : Floats} (rt : Runtime) where
  -- After routing the type is set; nothing else of the entry changes; routing again changes nothing.
  pub route_write_settles :
      (r : Router) (entry : MemoryEntry fl)
      → let (typed, source) = route_write rt r entry in
        (str_eq typed.type "" ≡ false)
        × (typed ≡ record entry { type = typed.type })
        × (str_eq entry.type "" ≡ false → typed ≡ entry)
        × (route_write rt r typed ≡ (typed, source))
  unfolding route_write
  route_write_settles r entry = elim (Bool-cases (str_eq entry.type "")) [
    | inl unset ↦
        let typed = (classify_precedence rt entry.content).6 in
        rw unset (typed, refl, λ set. cc, rw typed)
    | inr set ↦ rw set (set, refl, λ same. refl, rw set)
  ]

-- The default router writes to one of the systems that it reads.
default_target :
    {type : MemoryType.MemoryType}
    → Kind type
    → is_seen (or_mem0 (lookup type new_router.write_priority)) new_router.read_sources ≡ true
unfolding new_router or_mem0 lookup
default_target (is_fact e) = rw e
default_target (is_graph e) = rw e
default_target (is_core e) = rw e
default_target (is_temporal e) = rw e
default_target (is_episodic e) = rw e
default_target (is_procedural e) = rw e
default_target {type} (is_other f g c t e p) =
    rw
      (
        str_eq_comm _ type ∙ f,
        str_eq_comm _ type ∙ g,
        str_eq_comm _ type ∙ c,
        str_eq_comm _ type ∙ t,
        str_eq_comm _ type ∙ e,
        str_eq_comm _ type ∙ p,
      )
      refl

read_for_lem :
    (rt : Runtime) (go : IsGo rt) (r : Router) (types : List MemoryType.MemoryType)
    (k : MemorySource)
    → is_seen k r.read_sources ≡ true
    → is_seen k (read_for rt r [] types) ≡ true
unfolding read_for
read_for_lem rt go r [] k h = h
read_for_lem rt go r (t ∷ ts) k h =
    let all = primaries r (t ∷ ts) ++ r.read_sources in
    is_seen-Perm k (go.range_order-perm MemorySource (unseen (λ s. s) [] all))
    ∙ (is_seen-unseen k all
        ∙ ground (arith, is_seen-append k (primaries r (t ∷ ts)) r.read_sources))

-- With the default routes, the system that an entry is written to is one of those that a search
-- queries, whatever the types that it asks for, unless it names its sources.
pub written_is_read :
    {fl : Floats} (rt : Runtime) (go : IsGo rt) (entry : MemoryEntry fl) (req : SearchRequest fl)
    → req.sources ≡ []
    → is_seen (route_write rt new_router entry).1 (route_read rt new_router req) ≡ true
unfolding route_write route_read
written_is_read rt go entry req none_named =
    let (typed, source) = route_write rt new_router entry in
    rw none_named
      (read_for_lem rt go new_router req.types source (default_target (kind typed.type)))
