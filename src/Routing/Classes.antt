-- ===== src/Routing/Classes.antt =====
-- The precedence of the classes of content.
use helix_memory.Prelude.{
  String, Bool, true, false, ◌≡◌, not, ◌&&◌, ◌||◌, str_eq, refl, if◌then◌else◌,
}
use helix_memory.Runtime.{Runtime}
use helix_memory.Types.MemoryType
use helix_memory.Types.MemoryType.{MemoryType}
use helix_memory.Routing.{
  temporal_keywords, procedural_keywords, graph_keywords, core_keywords, episodic_keywords,
  mentions, classify_memory_type,
}

-- The type is that of the first of the five tests that passes, and `fact` if none does.
abbrev pub IsFirst : (type : MemoryType) (t p g c e : Bool) → Type 0
IsFirst type t p g c e =
    (str_eq type MemoryType.temporal ≡ t)
    × (str_eq type MemoryType.procedural ≡ (not t && p))
    × (str_eq type MemoryType.graph ≡ (not (t || p) && g))
    × (str_eq type MemoryType.core ≡ (not (t || p || g) && c))
    × (str_eq type MemoryType.episodic ≡ (not (t || p || g || c) && e))
    × (str_eq type MemoryType.fact ≡ not (t || p || g || c || e))
    × (str_eq type "" ≡ false)

first :
    (t p g c e : Bool)
    → IsFirst
        (if t
          then MemoryType.temporal
          else if p
          then MemoryType.procedural
          else if g
          then MemoryType.graph
          else if c
          then MemoryType.core
          else if e
          then MemoryType.episodic
          else MemoryType.fact)
        t
        p
        g
        c
        e
first true p g c e = (refl, refl, refl, refl, refl, refl, refl)
first false true g c e = (refl, refl, refl, refl, refl, refl, refl)
first false false true c e = (refl, refl, refl, refl, refl, refl, refl)
first false false false true e = (refl, refl, refl, refl, refl, refl, refl)
first false false false false true = (refl, refl, refl, refl, refl, refl, refl)
first false false false false false = (refl, refl, refl, refl, refl, refl, refl)

-- Content is temporal exactly if it mentions a temporal keyword, in whatever case; procedural
-- exactly if it mentions a procedural one and no temporal one; and so on through graph, core and
-- episodic; a fact exactly if it mentions none of all these. No content is left untyped.
pub classify_precedence :
    (rt : Runtime) (content : String)
    → let m = mentions rt (rt.to_lower content) in
      IsFirst
        (classify_memory_type rt content)
        (m temporal_keywords)
        (m procedural_keywords)
        (m graph_keywords)
        (m core_keywords)
        (m episodic_keywords)
unfolding classify_memory_type
classify_precedence rt content =
    let m = mentions rt (rt.to_lower content) in
    first (m temporal_keywords) (m procedural_keywords) (m graph_keywords) (m core_keywords)
      (m episodic_keywords)
