-- ===== src/Snapshots/Differences.antt =====
-- What a comparison of snapshots shows, and what creation and deletion do to the other snapshots.
use helix_memory.Prelude.{
  ◌+◌, ◌≡◌, refl, sym, ap, ◌∙◌, String, str_eq, eq_iff, eq_refl, Bool, true, false, not, ◌&&◌, ◌||◌,
  List, [], ◌∷◌, Option, none, some, Dict, lookup, insert, remove, lookup-insert, lookup-remove,
  All, All-insert, All-Perm, exists-Perm, Perm, ap₂, exists, length, arith,
}
use mathlib.Core.List.Perm
use helix_memory.Runtime.{Floats, Runtime, IsGo}
use helix_memory.Types.{MemoryEntry, SearchResult, Instant}
use helix_memory.Types.Provider.{MemoryProvider, Result, ok, err}
use helix_memory.Snapshots.{
  Snapshot, Manager, index_from, keep_unless, missing_from, diff_of, snapshot_of, found_or_error,
  get_snapshot, delete_snapshot, keep_snapshot, create_snapshot,
}

-- Whether some entry has the identifier.
abbrev pub has_id : {fl : Floats} → String → List (MemoryEntry fl) → Bool
has_id id es = exists (λ e. str_eq e.id id) es

abbrev is_some : {A : Type 0} → Option A → Bool
is_some none = false
is_some (some a) = true

abbrev is_ok : {A : Type 0} → Result A → Bool
is_ok (ok a) = true
is_ok (err e) = false

module _ {fl : Floats} where
  -- The map has the identifiers of the entries, and those that it had.
  index_from-has :
      (id : String) (ids : Dict (MemoryEntry fl)) (es : List (MemoryEntry fl))
      → is_some (lookup id (index_from ids es)) ≡ (has_id id es || is_some (lookup id ids))
  unfolding index_from lookup
  index_from-has id ids [] = refl
  index_from-has id ids (e ∷ es) =
      ground (arith, index_from-has id (insert e.id e ids) es, lookup-insert e.id id e ids)

  IsIndex : Dict (MemoryEntry fl) → Type 0
  IsIndex ids = All (λ (b : String × MemoryEntry fl). str_eq b.1.id b.0 ≡ true) ids

  index_from-IsIndex :
      (ids : Dict (MemoryEntry fl)) (es : List (MemoryEntry fl))
      → IsIndex ids
      → IsIndex (index_from ids es)
  unfolding index_from IsIndex
  index_from-IsIndex ids [] h = h
  index_from-IsIndex ids (e ∷ es) h =
      index_from-IsIndex (insert e.id e ids) es (All-insert _ e.id e ids (eq_refl e.id) h)

  has_key : String → Dict (MemoryEntry fl) → Bool
  has_key id m = exists (λ b. str_eq b.0 id) m

  lookup-has_key : (id : String) (m : Dict (MemoryEntry fl)) → is_some (lookup id m) ≡ has_key id m
  unfolding lookup has_key
  lookup-has_key id [] = refl
  lookup-has_key id ((j, e) ∷ m) = ground (arith, lookup-has_key id m)

  IsIndex-Perm : {ids jds : Dict (MemoryEntry fl)} → IsIndex jds → Perm ids jds → IsIndex ids
  unfolding IsIndex
  IsIndex-Perm h p = All-Perm _ (λ b. hlevel) (Perm.symm p) h

  has_key-Perm :
      (id : String) {ids jds : Dict (MemoryEntry fl)}
      → Perm ids jds
      → has_key id ids ≡ has_key id jds
  unfolding has_key
  has_key-Perm id p = exists-Perm _ p

  index-has :
      (id : String) (es : List (MemoryEntry fl))
      → is_some (lookup id (index_from [] es)) ≡ has_id id es
  unfolding lookup
  index-has id es = ground (arith, index_from-has id [] es)

  keep_unless-has :
      (id : String) (o : Option (MemoryEntry fl)) (e : MemoryEntry fl) (es : List (MemoryEntry fl))
      → has_id id (keep_unless o e es) ≡ ((str_eq e.id id && not (is_some o)) || has_id id es)
  keep_unless-has id none e es = ground arith
  keep_unless-has id (some other) e es = ground arith

  missing_from-has :
      (id : String) (other ids : Dict (MemoryEntry fl))
      → IsIndex ids
      → has_id id (missing_from other ids) ≡ (has_key id ids && not (is_some (lookup id other)))
  unfolding missing_from IsIndex has_key
  missing_from-has id other [] h = refl
  missing_from-has id other ((j, e) ∷ ids) h =
      let same : str_eq j id ≡ true → lookup j other ≡ lookup id other =
        λ b. ap (λ k. lookup k other) ((eq_iff j id).0 b) in
      ground (
        arith,
        keep_unless-has id (lookup j other) e (missing_from other ids),
        missing_from-has id other ids h.1,
        ap (λ k. str_eq k id) ((eq_iff e.id j).0 h.0),
        same,
      )

  module _ (rt : Runtime) (go : IsGo rt) (id : String) (es fs : List (MemoryEntry fl)) where
    -- The entries that the loop over a map finds missing from the other.
    missing-has :
        has_id id (
          missing_from
            (index_from [] fs)
            (rt.range_order (String × MemoryEntry fl) (index_from [] es)))
        ≡ (has_id id es && not (has_id id fs))
    unfolding IsIndex
    missing-has =
        let perm = go.range_order-perm (String × MemoryEntry fl) (index_from [] es) in
        let indexed = IsIndex-Perm (index_from-IsIndex [] es tt) perm in
        missing_from-has id (index_from [] fs) _ indexed
        ∙ ap₂ (λ a b. a && not b)
            (has_key-Perm id perm ∙ sym (lookup-has_key id (index_from [] es)) ∙ index-has id es)
            (index-has id fs)

  -- The difference of two snapshots: it lists as removed an entry for each identifier that is in the
  -- first and not in the second, as added one for each that is in the second and not in the first,
  -- and counts both. An entry whose content changed is neither. It assumes that a range loop visits
  -- each entry of a map once.
  pub diff_of_lem :
      (rt : Runtime) (go : IsGo rt) (id1 id2 : String) (snap1 snap2 : Snapshot fl)
      → let d = diff_of rt id1 id2 snap1 snap2 in
        ((id : String)
          → has_id id d.removed ≡ (has_id id snap1.entries && not (has_id id snap2.entries)))
        × ((id : String)
            → has_id id d.added ≡ (has_id id snap2.entries && not (has_id id snap1.entries)))
        × (d.total_changes ≡ length d.added + length d.removed)
  unfolding diff_of
  diff_of_lem rt go id1 id2 snap1 snap2 = (
    λ id. missing-has rt go id snap1.entries snap2.entries,
    λ id. missing-has rt go id snap2.entries snap1.entries,
    refl,
  )

lookup-inserted : {A : Type 0} (k : String) (a : A) (d : Dict A) → lookup k (insert k a d) ≡ some a
lookup-inserted k a d = lookup-insert k k a d ∙ rw (eq_refl k) refl

lookup-insert_apart :
    {A : Type 0} (k j : String) (a : A) (d : Dict A)
    → str_eq k j ≡ false
    → lookup j (insert k a d) ≡ lookup j d
lookup-insert_apart k j a d apart = lookup-insert k j a d ∙ rw apart refl

lookup-removed : {A : Type 0} (k : String) (d : Dict A) → lookup k (remove k d) ≡ none
lookup-removed k d = lookup-remove k k d ∙ rw (eq_refl k) refl

lookup-remove_apart :
    {A : Type 0} (k j : String) (d : Dict A)
    → str_eq k j ≡ false
    → lookup j (remove k d) ≡ lookup j d
lookup-remove_apart k j d apart = lookup-remove k j d ∙ rw apart refl

-- What CreateSnapshot leaves: on success the snapshot is under the new identifier, until it is
-- deleted, and the other snapshots are as before; on an error all are.
abbrev pub IsKept :
    {fl : Floats} {mp : MemoryProvider fl}
    → Manager mp
    → (new_id : String) → Option (Manager mp × Result (Snapshot fl))
    → Type 0
IsKept m new_id none = Unit
IsKept m new_id (some (m1, err e)) = m1.snapshots ≡ m.snapshots
IsKept m new_id (some (m1, ok snap)) =
    let m2 = (delete_snapshot m1 new_id).0 in
    (get_snapshot m1 new_id ≡ ok snap)
    × (snap.entry_count ≡ length snap.entries)
    × (is_ok (get_snapshot m2 new_id) ≡ false)
    × ((id : String)
        → str_eq new_id id ≡ false
        → (get_snapshot m1 id ≡ get_snapshot m id) × (get_snapshot m2 id ≡ get_snapshot m id))

module _ {fl : Floats} {mp : MemoryProvider fl} where
  keep_snapshot-IsKept :
      (m : Manager mp) (id name : String) (now : Instant) (r : Result (Option (SearchResult fl)))
      → IsKept m id (keep_snapshot m id name now r)
  unfolding keep_snapshot get_snapshot delete_snapshot lookup
  keep_snapshot-IsKept m id name now (err e) = refl
  keep_snapshot-IsKept m id name now (ok none) = tt
  keep_snapshot-IsKept m id name now (ok (some result)) =
      let snap = snapshot_of id name now result in
      let kept = insert id snap m.snapshots in
      let here = lookup-inserted id snap m.snapshots in
      rw here (
        refl,
        refl,
        ap (λ o. is_ok (found_or_error o)) (lookup-removed id kept),
        λ other apart.
            let away = lookup-insert_apart id other snap m.snapshots apart in
            (
              ap found_or_error away,
              ap found_or_error (lookup-remove_apart id other kept apart ∙ away),
            ),
      )

  -- A snapshot that CreateSnapshot makes can be read back under its identifier, with the number of
  -- its entries, until DeleteSnapshot removes it; neither changes what is read under another
  -- identifier. When the search fails no snapshot changes.
  pub create_snapshot-IsKept :
      (m : Manager mp) (name new_id : String) (now : Instant)
      → IsKept m new_id (create_snapshot m name new_id now)
  unfolding create_snapshot get_snapshot
  create_snapshot-IsKept m name new_id now = keep_snapshot-IsKept _ new_id name now _
