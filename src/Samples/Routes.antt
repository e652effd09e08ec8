-- ===== src/Samples/Routes.antt =====
-- Where the sample entries go.
use helix_memory.Prelude.{◌≡◌, ◌≢◌, refl, true, is_seen, IsChained, lookup}
use helix_memory.Types.{MemoryEntry}
use helix_memory.Types.MemoryType
use helix_memory.Types.MemorySource
use helix_memory.Types.MemorySource.{MemorySource}
use helix_memory.Fusion.Router.{select_systems_for_write}
use helix_memory.Fusion.Router.Writes.{wanted, select_systems_for_write_lem}
use helix_memory.Routing.{new_router, route_write, route_read, mentions}
use helix_memory.Routing.Paths.{written_is_read}
use helix_memory.Samples.World.{thousandths, plain, plain-IsGo}
use helix_memory.Samples.Data.{entry, tea, request}

select_systems_for_write_lem_example :
    ((s : MemorySource) → is_seen s (select_systems_for_write tea) ≡ wanted MemoryType.fact "" s)
    × IsChained ◌≢◌ (select_systems_for_write tea)
select_systems_for_write_lem_example = select_systems_for_write_lem tea

abbrev untyped : MemoryEntry thousandths
untyped = entry "7" "the meeting yesterday" "" MemorySource.fusion 500 500

meeting_is_temporal : (route_write plain new_router untyped).1 ≡ MemorySource.graphiti
unfolding route_write mentions new_router lookup
meeting_is_temporal = refl

written_is_read_example :
    is_seen (route_write plain new_router untyped).1 (route_read plain new_router (request "tea"))
    ≡ true
written_is_read_example = written_is_read plain plain-IsGo untyped (request "tea") refl
