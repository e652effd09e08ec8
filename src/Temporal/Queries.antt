-- ===== src/Temporal/Queries.antt =====
-- What the temporal queries return of the memories found.
use helix_memory.Prelude.{
  ◌+◌, ◌≡◌, refl, ◌∙◌, Bool, false, ◌&&◌, List, [], ◌∷◌, map, keep, count, length, Perm, Pairwise,
  leb, ltb, arith, subst, count-Perm, count-map, ap₂,
}
use helix_memory.Runtime.{Floats, Runtime, IsGo, IsStrictWeak}
use helix_memory.Types.{MemoryEntry, Instant}
use helix_memory.Temporal.{
  TimelineEntry, valid_at_of, invalid_at_of, timeline_entry, begun_by, by_valid_at, entries_at,
  timeline_of, changed_in, ends_within,
}

module _ {fl : Floats} where
  -- The memories that have begun by an instant.
  abbrev pub begun : (at : Instant) → List (MemoryEntry fl) → List (MemoryEntry fl)
  unfolding valid_at_of
  begun at ms = keep (λ m. leb (valid_at_of m) at) ms

  begun_by-begun :
      (at : Instant) (ms : List (MemoryEntry fl))
      → begun_by at ms ≡ map (timeline_entry at) (begun at ms)
  unfolding begun_by timeline_entry begun
  begun_by-begun at [] = refl
  begun_by-begun at (m ∷ ms) = ground (arith, begun_by-begun at ms)

  by_valid_at-IsStrictWeak : IsStrictWeak {A = TimelineEntry fl} by_valid_at
  by_valid_at-IsStrictWeak = record {
    irrefl = λ a. ground arith;
    trans = λ a b c p q. ground arith;
    cotrans = λ a b c p. ground arith;
  }

  -- Whether a memory begins, or ends, strictly between two instants.
  abbrev pub begins : (from to : Instant) → MemoryEntry fl → Bool
  begins from to m = ltb from (valid_at_of m) && ltb (valid_at_of m) to

  abbrev pub ends : (from to : Instant) → MemoryEntry fl → Bool
  ends from to m = ends_within from to (invalid_at_of m)

  changed_in-length :
      (from to : Instant) (es : List (TimelineEntry fl))
      → length (changed_in from to es)
        ≡ count (λ e. ltb from e.valid_at && ltb e.valid_at to) es
          + count (λ e. ends_within from to e.invalid_at) es
  unfolding changed_in
  changed_in-length from to [] = omega arith
  changed_in-length from to (e ∷ es) = ground (arith, changed_in-length from to es)

module _ {fl : Floats} (rt : Runtime) (go : IsGo rt) where
  -- WhatWasTrue returns, for each memory found that has begun by the instant, its entry as seen from
  -- the instant, and nothing else, in the order in which they began. One that has ended by then is
  -- among them, marked as not active. It assumes that sort.Slice permutes and sorts.
  pub entries_at_lem :
      (at : Instant) (ms : List (MemoryEntry fl))
      → Perm (entries_at rt at ms) (map (timeline_entry at) (begun at ms))
        × Pairwise (λ a b. ltb b.valid_at a.valid_at ≡ false) (entries_at rt at ms)
  unfolding entries_at
  entries_at_lem at ms = (
    subst (Perm (entries_at rt at ms)) (begun_by-begun at ms)
        (go.sort_slice-perm (TimelineEntry fl) by_valid_at (begun_by at ms)),
    go.sort_slice_sorts (TimelineEntry fl) by_valid_at (begun_by at ms) by_valid_at-IsStrictWeak,
  )

  -- WhatChanged lists one entry for each memory of the timeline that begins strictly within the
  -- range and one for each that ends strictly within it: a memory that does both is listed twice.
  -- It assumes that sort.Slice permutes.
  pub changed_counts :
      (now : MemoryEntry fl → Instant) (from to : Instant) (ms : List (MemoryEntry fl))
      → length (changed_in from to (timeline_of rt now from to ms).entries)
        ≡ count (begins from to) ms + count (ends from to) ms
  unfolding timeline_of timeline_entry
  changed_counts now from to ms =
      let es = map (λ m. timeline_entry (now m) m) ms in
      let sorted = go.sort_slice-perm (TimelineEntry fl) by_valid_at es in
      let begun_in = λ (e : TimelineEntry fl). ltb from e.valid_at && ltb e.valid_at to in
      let ended_in = λ (e : TimelineEntry fl). ends_within from to e.invalid_at in
      changed_in-length from to _
      ∙ ap₂ ◌+◌ (count-Perm begun_in sorted ∙ count-map begun_in (λ m. timeline_entry (now m) m) ms)
          (count-Perm ended_in sorted ∙ count-map ended_in (λ m. timeline_entry (now m) m) ms)
