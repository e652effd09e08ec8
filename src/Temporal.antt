-- ===== src/Temporal.antt =====
-- pkg/features/temporal/temporal.go: what was true at an instant, timelines and changes. A provider
-- that returns neither a result nor an error makes a query panic, which is `none`. `now` is the
-- reading of the clock for an entry. An instant that the code would move before the epoch is 0.
pub mod Queries
use helix_memory.Prelude.{
  ℕ, ◌+◌, ◌-◌, ◌*◌, String, Bool, true, false, ◌||◌, ◌&&◌, List, [], ◌∷◌, map, Option, none, some,
  Dict, lookup, if◌then◌else◌, ltb, ◌==◌,
}
use helix_memory.Prelude.Int.{ℤ, pos, sub_ℕ}
use helix_memory.Runtime.{Floats, Runtime}
use helix_memory.Types.{
  MemoryEntry, SearchRequest, SearchResult, TimeRange, Instant, Value, time, default_search_request,
}
use helix_memory.Types.Provider.{MemoryProvider, Result, ok, err}

pub record TimelineEntry (fl : Floats) : Type 0 where
  pub memory : MemoryEntry fl
  pub valid_at : Instant
  pub invalid_at : Option Instant
  pub is_active : Bool

pub record Timeline (fl : Floats) : Type 0 where
  pub entries : List (TimelineEntry fl)
  pub start : Instant
  pub end : Instant
  pub duration : ℤ

-- `v, ok := value.(time.Time)`
abbrev pub time_in : {fl : Floats} → Option (Value fl) → Option Instant
time_in (some (time t)) = some t
time_in v = none

abbrev pub instant_or : Instant → Option Instant → Instant
instant_or otherwise none = otherwise
instant_or otherwise (some t) = t

-- A memory without an end is active; another is while its end is ahead.
abbrev pub is_before : Instant → Option Instant → Bool
is_before at none = true
is_before at (some end) = ltb at end

-- `entry.InvalidAt != nil && entry.InvalidAt.After(from) && entry.InvalidAt.Before(to)`
abbrev pub ends_within : (from to : Instant) → Option Instant → Bool
ends_within from to none = false
ends_within from to (some t) = ltb from t && ltb t to

module _ {fl : Floats} where
  abbrev pub dict_of : Option (Dict (Value fl)) → Dict (Value fl)
  dict_of none = []
  dict_of (some m) = m

  unfoldable pub valid_at_of : MemoryEntry fl → Instant
  unfolding lookup
  valid_at_of m = instant_or m.created_at (time_in (lookup "valid_at" (dict_of m.metadata)))

  unfoldable pub invalid_at_of : MemoryEntry fl → Option Instant
  unfolding lookup
  invalid_at_of m = time_in (lookup "invalid_at" (dict_of m.metadata))

  -- The entry of a memory, seen from an instant.
  unfoldable pub timeline_entry : (at : Instant) → MemoryEntry fl → TimelineEntry fl
  unfolding valid_at_of invalid_at_of
  timeline_entry at m = record {
    memory = m;
    valid_at = valid_at_of m;
    invalid_at = invalid_at_of m;
    is_active = is_before at (invalid_at_of m);
  }

  -- The loop of WhatWasTrue.
  unfoldable pub begun_by : (at : Instant) → List (MemoryEntry fl) → List (TimelineEntry fl)
  unfolding timeline_entry
  begun_by at [] = []
  begun_by at (m ∷ ms) =
      let e = timeline_entry at m in
      let rest = begun_by at ms in if ltb e.valid_at at || e.valid_at == at then e ∷ rest else rest

  abbrev pub by_valid_at : TimelineEntry fl → TimelineEntry fl → Bool
  by_valid_at a b = ltb a.valid_at b.valid_at

  unfoldable pub entries_at :
      Runtime → (at : Instant) → List (MemoryEntry fl) → List (TimelineEntry fl)
  unfolding begun_by
  entries_at rt at ms = rt.sort_slice (TimelineEntry fl) by_valid_at (begun_by at ms)

  unfoldable pub timeline_of :
      Runtime
      → (now : MemoryEntry fl → Instant) → (start end : Instant) → List (MemoryEntry fl)
      → Timeline fl
  unfolding timeline_entry
  timeline_of rt now start end ms = record {
    entries = rt.sort_slice (TimelineEntry fl) by_valid_at (map (λ m. timeline_entry (now m) m) ms);
    start = start;
    end = end;
    duration = sub_ℕ end start;
  }

  -- The loop of WhatChanged: an entry that begins and ends within the range stands twice.
  unfoldable pub changed_in :
      (from to : Instant) → List (TimelineEntry fl) → List (TimelineEntry fl)
  changed_in from to [] = []
  changed_in from to (e ∷ es) =
      let rest = changed_in from to es in
      let ended = if ends_within from to e.invalid_at then e ∷ rest else rest in
      if ltb from e.valid_at && ltb e.valid_at to then e ∷ ended else ended

-- 365 days.
abbrev pub year : ℕ
year = 365 * 86400 * 1000000000

abbrev pub second : ℕ
second = 1000000000

module _ {fl : Floats} (mp : MemoryProvider fl) (rt : Runtime) where
  true_at :
      (at : Instant)
      → mp.State × Result (Option (SearchResult fl))
      → Option (mp.State × Result (List (TimelineEntry fl)))
  unfolding entries_at
  true_at at (s, err e) = some (s, err "temporal search")
  true_at at (s, ok none) = none
  true_at at (s, ok (some result)) = some (s, ok (entries_at rt at result.entries))

  unfoldable pub what_was_true :
      mp.State
      → (query : String) → (at : Instant) → Option (mp.State × Result (List (TimelineEntry fl)))
  unfolding true_at
  what_was_true s query at =
      let range : TimeRange = record { start = at - year; end = at + second } in
      true_at at (
        mp.search s
          (record (default_search_request fl query) { top_k = pos 50; time_range = some range }))

  timeline_from :
      (now : MemoryEntry fl → Instant)
      → (start end : Instant) → mp.State × Result (Option (SearchResult fl))
      → Option (mp.State × Result (Timeline fl))
  unfolding timeline_of
  timeline_from now start end (s, err e) = some (s, err "timeline search")
  timeline_from now start end (s, ok none) = none
  timeline_from now start end (s, ok (some result)) =
      some (s, ok (timeline_of rt now start end result.entries))

  unfoldable pub build_timeline :
      (now : MemoryEntry fl → Instant)
      → mp.State
      → (query : String) → (start end : Instant) → Option (mp.State × Result (Timeline fl))
  unfolding timeline_from
  build_timeline now s query start end =
      let range : TimeRange = record { start = start; end = end } in
      timeline_from now start end (
        mp.search s
          (record (default_search_request fl query) { top_k = pos 100; time_range = some range }))

  changed_from :
      (from to : Instant)
      → Option (mp.State × Result (Timeline fl))
      → Option (mp.State × Result (List (TimelineEntry fl)))
  unfolding changed_in
  changed_from from to none = none
  changed_from from to (some (s, err e)) = some (s, err e)
  changed_from from to (some (s, ok timeline)) = some (s, ok (changed_in from to timeline.entries))

  unfoldable pub what_changed :
      (now : MemoryEntry fl → Instant)
      → mp.State
      → (query : String) → (from to : Instant)
      → Option (mp.State × Result (List (TimelineEntry fl)))
  unfolding changed_from build_timeline
  what_changed now s query from to = changed_from from to (build_timeline now s query from to)
