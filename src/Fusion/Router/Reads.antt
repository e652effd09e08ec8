-- ===== src/Fusion/Router/Reads.antt =====
-- What the routing of reads guarantees.
use helix_memory.Prelude.{
  Bool, false, ◌≡◌, not, ◌&&◌, ◌||◌, List, [], ◌∷◌, str_eq, eq_iff, is_seen, arith, refl, ap,
  Bool-cases, inl, inr, if◌then◌else◌, exists,
}
use helix_memory.Runtime.{Floats}
use helix_memory.Types.{SearchRequest}
use helix_memory.Types.MemoryType
use helix_memory.Types.MemoryType.{MemoryType}
use helix_memory.Types.MemorySource
use helix_memory.Types.MemorySource.{MemorySource}
use helix_memory.Fusion.Router.{is_nil, type_flags, systems_for_flags, select_systems_for_read}

abbrev pub is_plain : MemoryType → Bool
is_plain t = not (str_eq t MemoryType.graph || str_eq t MemoryType.core)

-- Which systems the types ask for.
abbrev pub wanted_types : List MemoryType → MemorySource → Bool
wanted_types types s =
    str_eq MemorySource.cognee s && exists (λ t. str_eq t MemoryType.graph) types
    || str_eq MemorySource.letta s && exists (λ t. str_eq t MemoryType.core) types
    || str_eq MemorySource.mem0 s && exists is_plain types

type_flags-exists :
    (ts : List MemoryType)
    → type_flags ts ≡ (
      exists (λ t. str_eq t MemoryType.graph) ts,
      exists (λ t. str_eq t MemoryType.core) ts,
      exists is_plain ts,
    )
unfolding type_flags
type_flags-exists [] = refl
type_flags-exists (t ∷ ts) = elim (Bool-cases (str_eq t MemoryType.graph)) [
  | inl g ↦ rw ((eq_iff t _).0 g, type_flags-exists ts)
  | inr g ↦ elim (Bool-cases (str_eq t MemoryType.core)) [
    | inl c ↦ rw ((eq_iff t _).0 c, type_flags-exists ts)
    | inr c ↦ rw (g, c, type_flags-exists ts)
  ]
]

systems_for_flags_lem :
    (g c o : Bool) (s : MemorySource)
    → is_seen s (systems_for_flags (g, c, o)) ≡ (
        str_eq MemorySource.cognee s && g
        || str_eq MemorySource.letta s && c
        || str_eq MemorySource.mem0 s && o)
unfolding systems_for_flags
systems_for_flags_lem g c o s = ground arith

some_flag :
    (ts : List MemoryType) → is_nil ts ≡ false → is_nil (systems_for_flags (type_flags ts)) ≡ false
unfolding systems_for_flags type_flags
some_flag [] h = h
some_flag (t ∷ ts) h = ground arith

-- Explicit sources are used as they stand. Otherwise an agent's query goes to Letta and Mem0; a
-- query by types goes to Cognee exactly if a graph type is among them, to Letta exactly if a core
-- type is, and to Mem0 exactly if any other type is; and any other query goes to Mem0 and Cognee.
-- In no case is the list empty.
pub select_systems_for_read_lem :
    {fl : Floats} (req : SearchRequest fl) (s : MemorySource)
    → (is_seen s (select_systems_for_read req) ≡ (
        if not (is_nil req.sources)
        then is_seen s req.sources
        else if not (str_eq req.agent_id "")
        then str_eq MemorySource.letta s || str_eq MemorySource.mem0 s
        else if not (is_nil req.types)
        then wanted_types req.types s
        else str_eq MemorySource.mem0 s || str_eq MemorySource.cognee s))
      × (is_nil (select_systems_for_read req) ≡ false)
unfolding select_systems_for_read
select_systems_for_read_lem req s = elim (Bool-cases (is_nil req.sources)) [
  | inl e ↦ ground (
    arith,
    type_flags-exists req.types,
    some_flag req.types,
    ap (is_seen s) (ap systems_for_flags (type_flags-exists req.types)),
    systems_for_flags_lem (exists (λ t. str_eq t MemoryType.graph) req.types)
        (exists (λ t. str_eq t MemoryType.core) req.types) (exists is_plain req.types) s,
  )
  | inr e ↦ rw e (refl, e)
]
