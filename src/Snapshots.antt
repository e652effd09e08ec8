-- ===== src/Snapshots.antt =====
-- pkg/features/snapshots/snapshots.go: what the memory holds at an instant, kept and compared. A
-- provider that returns neither a result nor an error makes CreateSnapshot panic, which is `none`.
-- The copy of an entry is the entry. The new identifier and the reading of the clock are arguments.
pub mod Differences
use helix_memory.Prelude.{
  ℕ, ◌+◌, String, Bool, List, [], ◌∷◌, map, Option, none, some, Dict, lookup, insert, remove,
  if◌then◌else◌, length,
}
use helix_memory.Prelude.Int.{pos}
use helix_memory.Runtime.{Floats, Runtime}
use helix_memory.Types.{
  MemoryEntry, SearchRequest, SearchResult, Instant, Value, default_search_request,
}
use helix_memory.Types.Provider.{MemoryProvider, Error, Result, ok, err}

pub record Snapshot (fl : Floats) : Type 0 where
  pub id : String
  pub name : String
  pub entries : List (MemoryEntry fl)
  pub created_at : Instant
  pub entry_count : ℕ
  pub metadata : Option (Dict (Value fl))

pub record SnapshotDiff (fl : Floats) : Type 0 where
  pub snapshot1 : String
  pub snapshot2 : String
  pub added : List (MemoryEntry fl)
  pub removed : List (MemoryEntry fl)
  pub total_changes : ℕ

pub record Manager {fl : Floats} (mp : MemoryProvider fl) : Type 0 where
  pub provider : mp.State
  pub snapshots : Dict (Snapshot fl)

module _ {fl : Floats} where
  -- `ids := make(map[string]*types.MemoryEntry)` and the loop that fills it.
  unfoldable pub index_from : Dict (MemoryEntry fl) → List (MemoryEntry fl) → Dict (MemoryEntry fl)
  unfolding insert
  index_from ids [] = ids
  index_from ids (e ∷ es) = index_from (insert e.id e ids) es

  abbrev pub keep_unless :
      Option (MemoryEntry fl) → MemoryEntry fl → List (MemoryEntry fl) → List (MemoryEntry fl)
  keep_unless none e es = e ∷ es
  keep_unless (some other) e es = es

  -- The entries of one map whose identifier the other does not have, as the loop meets them.
  unfoldable pub missing_from : (other ids : Dict (MemoryEntry fl)) → List (MemoryEntry fl)
  unfolding lookup
  missing_from other [] = []
  missing_from other ((id, e) ∷ ids) = keep_unless (lookup id other) e (missing_from other ids)

  unfoldable pub diff_of :
      Runtime → (id1 id2 : String) → (snap1 snap2 : Snapshot fl) → SnapshotDiff fl
  unfolding index_from missing_from
  diff_of rt id1 id2 snap1 snap2 =
      let ids1 = index_from [] snap1.entries in
      let ids2 = index_from [] snap2.entries in
      let removed = missing_from ids2 (rt.range_order (String × MemoryEntry fl) ids1) in
      let added = missing_from ids1 (rt.range_order (String × MemoryEntry fl) ids2) in
      record {
        snapshot1 = id1;
        snapshot2 = id2;
        added = added;
        removed = removed;
        total_changes = length added + length removed;
      }

  -- Without the entries, for a listing.
  abbrev pub listed : Snapshot fl → Snapshot fl
  listed s = record s { entries = []; metadata = none }

  compare_found :
      Runtime
      → (id1 id2 : String) → Option (Snapshot fl)
      → Option (Snapshot fl)
      → Result (SnapshotDiff fl)
  unfolding diff_of
  compare_found rt id1 id2 none snap2 = err "snapshot not found"
  compare_found rt id1 id2 (some snap1) none = err "snapshot not found"
  compare_found rt id1 id2 (some snap1) (some snap2) = ok (diff_of rt id1 id2 snap1 snap2)

  abbrev pub found_or_error : Option (Snapshot fl) → Result (Snapshot fl)
  found_or_error none = err "snapshot not found"
  found_or_error (some s) = ok s

  abbrev pub snapshot_of : (id name : String) → (now : Instant) → SearchResult fl → Snapshot fl
  snapshot_of id name now result = record {
    id = id;
    name = name;
    entries = result.entries;
    created_at = now;
    entry_count = length result.entries;
    metadata = none;
  }

module _ {fl : Floats} {mp : MemoryProvider fl} where
  abbrev pub new_manager : mp.State → Manager mp
  new_manager provider = record { provider = provider; snapshots = [] }

  unfoldable pub keep_snapshot :
      Manager mp
      → (id name : String) → (now : Instant) → Result (Option (SearchResult fl))
      → Option (Manager mp × Result (Snapshot fl))
  unfolding insert
  keep_snapshot m id name now (err e) = some (m, err "create snapshot: search failed")
  keep_snapshot m id name now (ok none) = none
  keep_snapshot m id name now (ok (some result)) =
      let snapshot = snapshot_of id name now result in
      some (record m { snapshots = insert id snapshot m.snapshots }, ok snapshot)

  unfoldable pub create_snapshot :
      Manager mp
      → (name new_id : String) → (now : Instant) → Option (Manager mp × Result (Snapshot fl))
  unfolding keep_snapshot
  create_snapshot m name new_id now =
      let req = record (default_search_request fl "*") { top_k = pos 10000 } in
      let (s, answer) = mp.search m.provider req in
      keep_snapshot (record m { provider = s }) new_id name now answer

  unfoldable pub get_snapshot : Manager mp → String → Result (Snapshot fl)
  unfolding lookup
  get_snapshot m id = found_or_error (lookup id m.snapshots)

  abbrev pub list_snapshots : Runtime → Manager mp → List (Snapshot fl)
  list_snapshots rt m = map (λ b. listed b.1) (rt.range_order (String × Snapshot fl) m.snapshots)

  delete_found : Manager mp → String → Option (Snapshot fl) → Manager mp × Option Error
  unfolding remove
  delete_found m id none = (m, some "snapshot not found")
  delete_found m id (some s) = (record m { snapshots = remove id m.snapshots }, none)

  unfoldable pub delete_snapshot : Manager mp → String → Manager mp × Option Error
  unfolding delete_found lookup
  delete_snapshot m id = delete_found m id (lookup id m.snapshots)

  unfoldable pub compare_snapshots :
      Runtime → Manager mp → (id1 id2 : String) → Result (SnapshotDiff fl)
  unfolding compare_found lookup
  compare_snapshots rt m id1 id2 =
      compare_found rt id1 id2 (lookup id1 m.snapshots) (lookup id2 m.snapshots)
