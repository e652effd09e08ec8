-- ===== src/Samples/Histories.antt =====
-- Snapshots of two states of the memory, and memories with a beginning and an end.
use helix_memory.Prelude.{
  ◌+◌, ◌≡◌, not, ◌&&◌, String, List, [], ◌∷◌, map, none, some, length, Perm, Pairwise, ltb, false,
}
use helix_memory.Types.{MemoryEntry, time}
use helix_memory.Snapshots.{Snapshot, diff_of}
use helix_memory.Snapshots.Differences.{has_id, diff_of_lem}
use helix_memory.Temporal.{entries_at, timeline_entry}
use helix_memory.Temporal.Queries.{begun, entries_at_lem}
use helix_memory.Samples.World.{thousandths, plain, plain-IsGo}
use helix_memory.Samples.Data.{tea, cocoa}

abbrev snapshot : String → List (MemoryEntry thousandths) → Snapshot thousandths
snapshot id entries = record {
  id = id;
  name = "daily";
  entries = entries;
  created_at = 0;
  entry_count = length entries;
  metadata = none;
}

abbrev earlier : Snapshot thousandths
earlier = snapshot "s1" (tea ∷ [])

abbrev later : Snapshot thousandths
later = snapshot "s2" (cocoa ∷ [])

diff_of_lem_example :
    let d = diff_of plain "s1" "s2" earlier later in
    ((id : String) → has_id id d.removed ≡ (has_id id (tea ∷ []) && not (has_id id (cocoa ∷ []))))
    × ((id : String) → has_id id d.added ≡ (has_id id (cocoa ∷ []) && not (has_id id (tea ∷ []))))
    × (d.total_changes ≡ length d.added + length d.removed)
diff_of_lem_example = diff_of_lem plain plain-IsGo "s1" "s2" earlier later

-- From 10 to 20.
abbrev brief : MemoryEntry thousandths
brief = record tea { metadata = some (("valid_at", time 10) ∷ ("invalid_at", time 20) ∷ []) }

entries_at_lem_example :
    Perm
      (entries_at plain 15 (brief ∷ cocoa ∷ []))
      (map (timeline_entry 15) (begun 15 (brief ∷ cocoa ∷ [])))
    × Pairwise (λ a b. ltb b.valid_at a.valid_at ≡ false) (entries_at plain 15 (brief ∷ cocoa ∷ []))
entries_at_lem_example = entries_at_lem plain plain-IsGo 15 (brief ∷ cocoa ∷ [])
