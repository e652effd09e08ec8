-- ===== src/Fusion/Router.antt =====
-- pkg/fusion/router.go: which memory systems a write or a read goes to. The configuration and the
-- logger of the source's Router are not read by these methods and are left out.
pub mod Writes
pub mod Reads
use helix_memory.Prelude.{
  String, Bool, true, false, ◌&&◌, ◌||◌, not, List, [], ◌∷◌, ◌++◌, if◌then◌else◌, str_eq, unseen,
}
use helix_memory.Runtime.{Floats}
use helix_memory.Types.{MemoryEntry, SearchRequest}
use helix_memory.Types.MemoryType
use helix_memory.Types.MemoryType.{MemoryType}
use helix_memory.Types.MemorySource
use helix_memory.Types.MemorySource.{MemorySource}

-- The `switch` on the entry's type.
systems_for_type : MemoryType → (agent_id : String) → List MemorySource
systems_for_type type agent_id =
    if str_eq type MemoryType.graph
    then MemorySource.cognee ∷ MemorySource.mem0 ∷ []
    else if str_eq type MemoryType.core
    then MemorySource.letta ∷ MemorySource.mem0 ∷ []
    else if str_eq type MemoryType.episodic
    then (if str_eq agent_id ""
        then MemorySource.mem0 ∷ []
        else MemorySource.mem0 ∷ MemorySource.letta ∷ [])
    else if str_eq type MemoryType.fact
    then MemorySource.mem0 ∷ MemorySource.cognee ∷ []
    else if str_eq type MemoryType.procedural
    then MemorySource.letta ∷ []
    else MemorySource.mem0 ∷ []

-- The loop that sets `hasLetta`.
has_letta : List MemorySource → Bool
has_letta [] = false
has_letta (s ∷ ss) = str_eq s MemorySource.letta || has_letta ss

ensure_letta : (agent_id : String) → List MemorySource → List MemorySource
unfolding has_letta
ensure_letta agent_id systems =
    if not (str_eq agent_id "") && not (has_letta systems)
    then systems ++ MemorySource.letta ∷ []
    else systems

unfoldable pub deduplicate : List MemorySource → List MemorySource
unfolding unseen
deduplicate sources = unseen (λ s. s) [] sources

module _ {fl : Floats} where
  unfoldable pub select_systems_for_write : MemoryEntry fl → List MemorySource
  unfolding systems_for_type ensure_letta deduplicate
  select_systems_for_write entry =
      deduplicate (ensure_letta entry.agent_id (systems_for_type entry.type entry.agent_id))

-- The loop over the requested types: (hasGraph, hasCore, hasOther).
type_flags : List MemoryType → Bool × Bool × Bool
type_flags [] = (false, false, false)
type_flags (t ∷ ts) =
    let (graph, core, other) = type_flags ts in
    if str_eq t MemoryType.graph
    then (true, core, other)
    else if str_eq t MemoryType.core
    then (graph, true, other)
    else (graph, core, true)

systems_for_flags : Bool × Bool × Bool → List MemorySource
systems_for_flags (graph, core, other) =
    (if graph then MemorySource.cognee ∷ [] else [])
    ++ ((if core then MemorySource.letta ∷ [] else [])
        ++ (if other then MemorySource.mem0 ∷ [] else []))

abbrev pub is_nil {ℓ} : {A : Type ℓ} → List A → Bool
is_nil [] = true
is_nil (x ∷ xs) = false

module _ {fl : Floats} where
  unfoldable pub select_systems_for_read : SearchRequest fl → List MemorySource
  unfolding type_flags systems_for_flags
  select_systems_for_read req =
      if not (is_nil req.sources)
      then req.sources
      else if not (str_eq req.agent_id "")
      then MemorySource.letta ∷ MemorySource.mem0 ∷ []
      else if not (is_nil req.types)
      then systems_for_flags (type_flags req.types)
      else MemorySource.mem0 ∷ MemorySource.cognee ∷ []
