-- ===== src/Types/MemoryType.antt =====
-- The constants of `MemoryType`, pkg/types/types.go. The empty text is an unset type.
use helix_memory.Prelude.{String}

abbrev pub MemoryType : Type 0
MemoryType = String

abbrev pub fact : MemoryType
fact = "fact"

abbrev pub graph : MemoryType
graph = "graph"

abbrev pub core : MemoryType
core = "core"

abbrev pub temporal : MemoryType
temporal = "temporal"

abbrev pub episodic : MemoryType
episodic = "episodic"

abbrev pub procedural : MemoryType
procedural = "procedural"

abbrev pub semantic : MemoryType
semantic = "semantic"
