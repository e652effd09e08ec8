-- ===== src/Fusion/Router/Writes.antt =====
-- What the routing of writes guarantees.
use helix_memory.Prelude.{
  String, Bool, ◌≡◌, ◌≢◌, ◌∙◌, not, ◌&&◌, ◌||◌, List, [], ◌∷◌, ◌++◌, str_eq, eq_iff, IsChained,
  is_seen, is_seen-unseen, unseen-distinct, arith, refl,
}
use helix_memory.Runtime.{Floats}
use helix_memory.Types.{MemoryEntry}
use helix_memory.Types.MemoryType
use helix_memory.Types.MemoryType.{MemoryType}
use helix_memory.Types.MemorySource
use helix_memory.Types.Kinds.{
  Kind, is_fact, is_graph, is_core, is_temporal, is_episodic, is_procedural, is_other, kind,
}
use helix_memory.Types.MemorySource.{MemorySource}
use helix_memory.Fusion.Router.{
  deduplicate, systems_for_type, ensure_letta, has_letta, select_systems_for_write,
}

-- Removing duplicates keeps the same systems, and each of them once.
pub deduplicate_lem :
    (ss : List MemorySource)
    → ((k : MemorySource) → is_seen k (deduplicate ss) ≡ is_seen k ss)
      × IsChained ◌≢◌ (deduplicate ss)
deduplicate_lem ss = (
  λ k. unfold deduplicate in is_seen-unseen k ss,
  unfold deduplicate in unseen-distinct (λ s. s) [] ss,
)

-- Which systems a type and an agent ask for.
abbrev pub wanted : (type : MemoryType) (agent_id : String) → MemorySource → Bool
wanted type agent_id s =
    str_eq MemorySource.mem0 s && not (str_eq type MemoryType.procedural)
    || str_eq MemorySource.cognee s && (str_eq type MemoryType.graph || str_eq type MemoryType.fact)
    || str_eq MemorySource.letta s
      && (str_eq type MemoryType.core
          || str_eq type MemoryType.procedural
          || not (str_eq agent_id ""))

is_seen-append_one :
    (k s : String) (ss : List String) → is_seen k (ss ++ s ∷ []) ≡ (is_seen k ss || str_eq s k)
is_seen-append_one k s [] = ground arith
is_seen-append_one k s (t ∷ ss) = ground (arith, is_seen-append_one k s ss)

has_letta-is_seen : (ss : List MemorySource) → has_letta ss ≡ is_seen MemorySource.letta ss
unfolding has_letta
has_letta-is_seen [] = refl
has_letta-is_seen (s ∷ ss) = ground (arith, has_letta-is_seen ss)

ensured :
    (agent_id : String) (ss : List MemorySource) (s : MemorySource)
    → is_seen s (ensure_letta agent_id ss)
      ≡ (is_seen s ss || str_eq MemorySource.letta s && not (str_eq agent_id ""))
unfolding ensure_letta
ensured agent_id ss s = ground (
  arith,
  has_letta-is_seen ss,
  is_seen-append_one s MemorySource.letta ss,
  eq_iff MemorySource.letta s,
)

-- The systems for a type, by cases on the type.
by_kind :
    {type : MemoryType} (agent_id : String) (s : MemorySource)
    → Kind type
    → (is_seen s (systems_for_type type agent_id)
        || str_eq MemorySource.letta s && not (str_eq agent_id ""))
      ≡ wanted type agent_id s
unfolding systems_for_type
by_kind agent_id s (is_fact e) = rw e (ground arith)
by_kind agent_id s (is_graph e) = rw e (ground arith)
by_kind agent_id s (is_core e) = rw e (ground arith)
by_kind agent_id s (is_temporal e) = rw e (ground arith)
by_kind agent_id s (is_episodic e) = rw e (ground arith)
by_kind agent_id s (is_procedural e) = rw e (ground arith)
by_kind agent_id s (is_other f g c t e p) = rw (f, g, c, e, p) (ground arith)

-- A write goes to Mem0 unless it is procedural, to Cognee exactly for graph and fact entries, to
-- Letta exactly for core and procedural entries and for those of an agent, to no other system,
-- and to each system once.
pub select_systems_for_write_lem :
    {fl : Floats} (entry : MemoryEntry fl)
    → ((s : MemorySource)
        → is_seen s (select_systems_for_write entry) ≡ wanted entry.type entry.agent_id s)
      × IsChained ◌≢◌ (select_systems_for_write entry)
unfolding select_systems_for_write
select_systems_for_write_lem entry =
    let systems = ensure_letta entry.agent_id (systems_for_type entry.type entry.agent_id) in
    (
      λ s.
          (unfold deduplicate in is_seen-unseen s systems)
          ∙ (ensured entry.agent_id (systems_for_type entry.type entry.agent_id) s
              ∙ by_kind entry.agent_id s (kind entry.type)),
      (deduplicate_lem systems).1,
    )
