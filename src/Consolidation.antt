-- ===== src/Consolidation.antt =====
-- pkg/consolidation/consolidation.go: the sleep-time engine, over the states of its systems. The
-- clock's readings and the text of the time stamp are arguments. A channel is open or closed; a
-- second close is a panic, which is `none`.
pub mod Pass
pub mod Running
pub mod Looping
pub mod OneLoop
pub mod ManyLoops
use helix_memory.Prelude.{
  ℕ, suc, ◌+◌, String, Bool, true, false, List, [], ◌∷◌, ◌++◌, Option, none, some, Dict, insert,
  length, if◌then◌else◌, ltb, is_seen,
}
use helix_memory.Prelude.Int.{ℤ, pos}
use helix_memory.Runtime.{Floats}
use helix_memory.Types.{MemoryEntry, Instant, Value, text, int}
use helix_memory.Types.Provider.{MemoryProvider, Error, Result, ok, err}

pub record Stats : Type 0 where
  pub total_runs : ℕ
  pub last_run_at : Instant
  pub last_duration : ℕ
  pub memories_processed : ℕ
  pub deduplicated : ℕ
  pub consolidated : ℕ
  pub errors : ℕ

pub data Channel : Type 0 where
  opened : Channel
  shut : Channel

-- The engine, with the two settings that it reads.
pub record Engine {fl : Floats} (mp : MemoryProvider fl) : Type 0 where
  pub enabled : Bool
  pub batch_size : ℤ
  pub providers : List mp.State
  pub running : Bool
  pub stop_ch : Channel
  pub stats : Stats

abbrev pub no_stats : Stats
no_stats = record {
  total_runs = 0;
  last_run_at = 0;
  last_duration = 0;
  memories_processed = 0;
  deduplicated = 0;
  consolidated = 0;
  errors = 0;
}

unfoldable pub new_engine : {fl : Floats} → (mp : MemoryProvider fl) → Bool → ℤ → Engine mp
new_engine mp enabled batch_size = record {
  enabled = enabled;
  batch_size = batch_size;
  providers = [];
  running = false;
  stop_ch = opened;
  stats = no_stats;
}

-- What the collecting loop appends; a system that fails is passed over.
abbrev pub recent_of : {A : Type 0} → Result (List A) → List A
recent_of (err e) = []
recent_of (ok entries) = entries

abbrev pub or_made : {A : Type 0} → Option (Dict A) → Dict A
or_made none = []
or_made (some m) = m

module _ {fl : Floats} where
  -- Phase 2: the entries whose identifier is new, and the number of the others.
  unfoldable pub drop_seen : List String → List (MemoryEntry fl) → List (MemoryEntry fl) × ℕ
  drop_seen seen [] = ([], 0)
  drop_seen seen (e ∷ es) =
      let skipped = drop_seen seen es in
      let kept = drop_seen (e.id ∷ seen) es in
      if is_seen e.id seen then (skipped.0, suc skipped.1) else (e ∷ kept.0, kept.1)

  -- Phase 3: the marks on an entry.
  unfoldable pub mark :
      (stamp : MemoryEntry fl → String) → (sources : ℕ) → MemoryEntry fl → MemoryEntry fl
  unfolding insert
  mark stamp sources e =
      let metadata = insert "consolidated_at" (text (stamp e)) (or_made e.metadata) in
      record e {
        metadata = some (insert "consolidation_source_count" (int (pos sources)) metadata);
      }

  unfoldable pub mark_all :
      (stamp : MemoryEntry fl → String)
      → (sources : ℕ) → List (MemoryEntry fl)
      → List (MemoryEntry fl) × ℕ
  unfolding mark
  mark_all stamp sources [] = ([], 0)
  mark_all stamp sources (e ∷ es) =
      let (marked, consolidated) = mark_all stamp sources es in
      (mark stamp sources e ∷ marked, suc consolidated)

module _ {fl : Floats} {mp : MemoryProvider fl} where
  unfoldable pub register_system : Engine mp → mp.State → Engine mp
  register_system e p = record e { providers = e.providers ++ p ∷ [] }

  unfoldable pub start : Engine mp → Engine mp × Option Error
  start e =
      if e.running
      then (e, some "already running")
      else if e.enabled
      then (record e { running = true; stop_ch = opened }, none)
      else (e, none)

  close_channel : Channel → Engine mp → Option (Engine mp)
  close_channel shut e = none
  close_channel opened e = some (record e { stop_ch = shut; running = false })

  unfoldable pub stop : Engine mp → Option (Engine mp)
  unfolding close_channel
  stop e = let closed = close_channel e.stop_ch e in if e.running then closed else some e

  -- The branch of the loop for a context that is done.
  unfoldable pub loop_cancelled : Engine mp → Engine mp
  loop_cancelled e = record e { running = false }

  abbrev pub is_running : Engine mp → Bool
  is_running e = e.running

-- Phase 1: what the systems answer, and the systems after that.
unfoldable pub collect_recent :
    {fl : Floats}
    → (mp : MemoryProvider fl) → (batch_size : ℤ) → List mp.State
    → List mp.State × List (MemoryEntry fl) × ℕ
collect_recent mp batch_size [] = ([], [], 0)
collect_recent mp batch_size (s ∷ ss) =
    let (s', answer) = mp.get_history s "" batch_size in
    let (ss', entries, processed) = collect_recent mp batch_size ss in
    (s' ∷ ss', recent_of answer ++ entries, length (recent_of answer) + processed)

module _ {fl : Floats} {mp : MemoryProvider fl} where
  -- Phases 2 and 3, and the statistics: the engine, and the entries as the marks leave them.
  unfoldable pub consolidate :
      (stamp : MemoryEntry fl → String)
      → (now : Instant) → (duration : ℕ) → Engine mp
      → List (MemoryEntry fl)
      → (processed : ℕ) → Engine mp × List (MemoryEntry fl)
  unfolding drop_seen mark_all
  consolidate stamp now duration e all processed =
      let (unique, deduped) = drop_seen [] all in
      let (marked, consolidated) = mark_all stamp (length e.providers) unique in
      let stats = e.stats in
      let new_stats = record stats {
        total_runs = stats.total_runs + 1;
        last_run_at = now;
        last_duration = duration;
        memories_processed = stats.memories_processed + processed;
        deduplicated = stats.deduplicated + deduped;
        consolidated = stats.consolidated + consolidated;
      } in
      (record e { stats = new_stats }, marked)

  -- Nothing to do without entries.
  unfoldable pub finish :
      (stamp : MemoryEntry fl → String)
      → (now : Instant) → (duration : ℕ) → Engine mp
      → List (MemoryEntry fl)
      → (processed : ℕ) → Engine mp × List (MemoryEntry fl) × Option Error
  unfolding consolidate
  finish stamp now duration e [] processed = (e, [], none)
  finish stamp now duration e (x ∷ xs) processed =
      let (e', marked) = consolidate stamp now duration e (x ∷ xs) processed in (e', marked, none)

  -- RunOnce; its error is always nil. With no systems nothing is collected.
  unfoldable pub run_once :
      (stamp : MemoryEntry fl → String)
      → (now : Instant) → (duration : ℕ) → Engine mp
      → Engine mp × List (MemoryEntry fl) × Option Error
  unfolding collect_recent finish
  run_once stamp now duration e =
      let (providers, all, processed) = collect_recent mp e.batch_size e.providers in
      finish stamp now duration (record e { providers = providers }) all processed
