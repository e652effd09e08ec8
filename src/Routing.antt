-- ===== src/Routing.antt =====
-- pkg/routing/router.go: the classification of content, and the routing of the unified provider.
pub mod Classes
pub mod Paths
use helix_memory.Prelude.{
  String, Bool, true, false, ◌||◌, List, [], ◌∷◌, ◌++◌, Option, none, some, Dict, lookup, insert,
  str_eq, if◌then◌else◌, unseen,
}
use helix_memory.Runtime.{Floats, Runtime}
use helix_memory.Types.{MemoryEntry, SearchRequest}
use helix_memory.Types.MemoryType
use helix_memory.Types.MemoryType.{MemoryType}
use helix_memory.Types.MemorySource
use helix_memory.Types.MemorySource.{MemorySource}

pub record Router : Type 0 where
  pub write_priority : Dict MemorySource
  pub read_sources : List MemorySource

unfoldable pub new_router : Router
new_router = record {
  write_priority =
      (MemoryType.fact, MemorySource.mem0)
      ∷ (MemoryType.graph, MemorySource.cognee)
      ∷ (MemoryType.core, MemorySource.letta)
      ∷ (MemoryType.temporal, MemorySource.graphiti)
      ∷ (MemoryType.episodic, MemorySource.letta)
      ∷ (MemoryType.procedural, MemorySource.cognee)
      ∷ [];
  read_sources =
      MemorySource.mem0 ∷ MemorySource.cognee ∷ MemorySource.letta ∷ MemorySource.graphiti ∷ [];
}

abbrev pub temporal_keywords : List String
temporal_keywords =
    "yesterday" ∷ "last week" ∷ "last month" ∷ "ago" ∷ "since" ∷ "before" ∷ "after" ∷ "when"
    ∷ "timeline" ∷ "history" ∷ "changed from" ∷ "used to" ∷ "previously" ∷ []

abbrev pub procedural_keywords : List String
procedural_keywords =
    "how to" ∷ "step by step" ∷ "procedure" ∷ "workflow" ∷ "process" ∷ "instructions" ∷ "tutorial"
    ∷ "recipe" ∷ "to do this" ∷ "first you" ∷ "then you" ∷ []

abbrev pub graph_keywords : List String
graph_keywords =
    "relates to" ∷ "connected to" ∷ "depends on" ∷ "part of" ∷ "belongs to" ∷ "is a" ∷ "has a"
    ∷ "contains" ∷ "implements" ∷ "extends" ∷ "uses" ∷ "imports" ∷ "calls" ∷ []

abbrev pub core_keywords : List String
core_keywords =
    "i am" ∷ "my name" ∷ "i prefer" ∷ "i like" ∷ "i dislike" ∷ "my role" ∷ "my job" ∷ "i work"
    ∷ "persona" ∷ "identity" ∷ []

abbrev pub episodic_keywords : List String
episodic_keywords =
    "conversation" ∷ "discussed" ∷ "talked about" ∷ "mentioned" ∷ "asked about" ∷ "session"
    ∷ "meeting" ∷ []

module _ (rt : Runtime) where
  -- One of the keyword loops: whether it returns.
  unfoldable pub mentions : (lower : String) → List String → Bool
  mentions lower [] = false
  mentions lower (kw ∷ kws) = rt.contains lower kw || mentions lower kws

  unfoldable pub classify_memory_type : String → MemoryType
  classify_memory_type content =
      let lower = rt.to_lower content in
      if mentions lower temporal_keywords
      then MemoryType.temporal
      else if mentions lower procedural_keywords
      then MemoryType.procedural
      else if mentions lower graph_keywords
      then MemoryType.graph
      else if mentions lower core_keywords
      then MemoryType.core
      else if mentions lower episodic_keywords
      then MemoryType.episodic
      else MemoryType.fact

or_mem0 : Option MemorySource → MemorySource
or_mem0 none = MemorySource.mem0
or_mem0 (some source) = source

put_found : Option MemorySource → List MemorySource → List MemorySource
put_found none ss = ss
put_found (some s) ss = s ∷ ss

-- The primary systems of the requested types.
unfoldable pub primaries : Router → List MemoryType → List MemorySource
unfolding put_found
primaries r [] = []
primaries r (t ∷ ts) = put_found (lookup t r.write_priority) (primaries r ts)

-- `sourceSet` is a map used as a set: its keys, each once, in the order of `range`.
unfoldable pub read_for : Runtime → Router → List MemorySource → List MemoryType → List MemorySource
unfolding primaries unseen
read_for rt r (s ∷ ss) types = s ∷ ss
read_for rt r [] [] = r.read_sources
read_for rt r [] (t ∷ ts) =
    rt.range_order MemorySource (unseen (λ s. s) [] (primaries r (t ∷ ts) ++ r.read_sources))

module _ {fl : Floats} (rt : Runtime) where
  -- The entry comes back, since an unset type is filled in.
  unfoldable pub route_write : Router → MemoryEntry fl → MemoryEntry fl × MemorySource
  unfolding classify_memory_type or_mem0
  route_write r entry =
      let typed =
        if str_eq entry.type ""
        then record entry { type = classify_memory_type rt entry.content }
        else entry in
      (typed, or_mem0 (lookup typed.type r.write_priority))

  unfoldable pub route_read : Router → SearchRequest fl → List MemorySource
  unfolding read_for
  route_read r req = read_for rt r req.sources req.types

unfoldable pub set_write_priority : Router → MemoryType → MemorySource → Router
unfolding insert
set_write_priority r type source = record r { write_priority = insert type source r.write_priority }

unfoldable pub set_read_sources : Router → List MemorySource → Router
set_read_sources r sources = record r { read_sources = sources }
