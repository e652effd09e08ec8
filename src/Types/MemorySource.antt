-- ===== src/Types/MemorySource.antt =====
-- The constants of `MemorySource`, pkg/types/types.go: the names of the memory systems.
use helix_memory.Prelude.{String}

abbrev pub MemorySource : Type 0
MemorySource = String

abbrev pub mem0 : MemorySource
mem0 = "mem0"

abbrev pub cognee : MemorySource
cognee = "cognee"

abbrev pub letta : MemorySource
letta = "letta"

abbrev pub graphiti : MemorySource
graphiti = "graphiti"

abbrev pub fusion : MemorySource
fusion = "fusion"
