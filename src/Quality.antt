-- ===== src/Quality.antt =====
-- pkg/features/quality_loop/quality.go: the scan of a memory system and the report of it, and the loop
-- that scans. `now` is the reading of the clock after the search, and `generated_at` the one before it
-- in the code. A provider that returns neither a result nor an error makes Analyze panic, which is
-- `none`; so is a second close of the channel.
pub mod Report
use helix_memory.Prelude.{
  ℕ, suc, ◌+◌, ◌*◌, String, Bool, true, false, List, [], ◌∷◌, ◌++◌, Option, none, some, length,
  if◌then◌else◌, ltb,
}
use helix_memory.Prelude.Int.{ℤ, pos, sub_ℕ, ltb_ℤ, saturate64, add64, div64}
use helix_memory.Runtime.{Floats}
use helix_memory.Types.{MemoryEntry, SearchRequest, SearchResult, Instant, default_search_request}
use helix_memory.Types.Provider.{MemoryProvider, Error, Result, ok, err}
use helix_memory.I18n
use helix_memory.I18n.{Arg, Translator}
use helix_memory.Config.{minute}
use helix_memory.Consolidation.{Channel, opened, shut}

pub record Action : Type 0 where
  pub type : String
  pub target_ids : List String
  pub description : String
  pub priority : ℕ

pub record QualityReport (fl : Floats) : Type 0 where
  pub total_memories : ℕ
  pub high_confidence : ℕ
  pub low_confidence : ℕ
  pub stale : ℕ
  pub contradictions : ℕ
  pub average_confidence : fl.F64
  pub average_age : ℤ
  pub recommended_actions : List Action
  pub generated_at : Instant

pub record LoopConfig (fl : Floats) : Type 0 where
  pub enabled : Bool
  pub interval : ℤ
  pub stale_threshold : ℤ
  pub low_confidence_limit : fl.F64
  pub max_memories_per_scan : ℤ

abbrev pub default_loop_config : (fl : Floats) → LoopConfig fl
default_loop_config fl = record {
  enabled = true;
  interval = pos (60 * minute);
  stale_threshold = pos (30 * 24 * 60 * minute);
  low_confidence_limit = fl.decimal 3 1;
  max_memories_per_scan = pos 500;
}

pub record LoopStats : Type 0 where
  pub total_scans : ℕ
  pub last_scan_at : Instant
  pub total_pruned : ℕ
  pub total_refreshed : ℕ

pub record Loop {fl : Floats} (mp : MemoryProvider fl) : Type 0 where
  pub provider : mp.State
  pub config : LoopConfig fl
  pub running : Bool
  pub stop_ch : Channel
  pub stats : LoopStats

unfoldable pub new_loop :
    {fl : Floats} → (mp : MemoryProvider fl) → mp.State → LoopConfig fl → Loop mp
new_loop mp provider config = record {
  provider = provider;
  config = config;
  running = false;
  stop_ch = opened;
  stats = record { total_scans = 0; last_scan_at = 0; total_pruned = 0; total_refreshed = 0 };
}

-- What the loop over the entries adds up.
pub record Tally (fl : Floats) : Type 0 where
  pub confidence : fl.F64
  pub age : ℤ
  pub high : ℕ
  pub low : ℕ
  pub old : ℕ

module _ {fl : Floats} (config : LoopConfig fl) (now : Instant) where
  -- `now.Sub(entry.CreatedAt)`
  abbrev pub age_of : MemoryEntry fl → ℤ
  unfolding saturate64
  age_of entry = saturate64 (sub_ℕ now entry.created_at)

  abbrev pub is_high : MemoryEntry fl → Bool
  is_high entry = fl.ge entry.confidence (fl.decimal 7 1)

  abbrev pub is_low : MemoryEntry fl → Bool
  is_low entry = if is_high entry then false else fl.lt entry.confidence config.low_confidence_limit

  abbrev pub is_stale : MemoryEntry fl → Bool
  is_stale entry = ltb_ℤ config.stale_threshold (age_of entry)

  abbrev pub counted : Bool → ℕ → ℕ
  counted b n = if b then n + 1 else n

  unfoldable pub tally_one : Tally fl → MemoryEntry fl → Tally fl
  unfolding add64 saturate64
  tally_one t entry = record {
    confidence = fl.add t.confidence entry.confidence;
    age = add64 t.age (age_of entry);
    high = counted (is_high entry) t.high;
    low = counted (is_low entry) t.low;
    old = counted (is_stale entry) t.old;
  }

  unfoldable pub tally : List (MemoryEntry fl) → Tally fl → Tally fl
  unfolding tally_one
  tally [] t = t
  tally (e ∷ es) t = tally es (tally_one t e)

  abbrev pub none_counted : Tally fl
  none_counted = record { confidence = fl.decimal 0 1; age = pos 0; high = 0; low = 0; old = 0 }

  unfoldable pub stale_action : Translator fl → (stale : ℕ) → Action
  stale_action tr stale = record {
    type = "prune";
    target_ids = [];
    description =
        tr.translate "" "helixmemory_quality_action_prune_stale"
          (Arg.int (pos stale) ∷ Arg.duration config.stale_threshold ∷ []);
    priority = 3;
  }

  unfoldable pub low_action : Translator fl → (low : ℕ) → Action
  low_action tr low = record {
    type = "validate";
    target_ids = [];
    description =
        tr.translate "" "helixmemory_quality_action_validate_low_confidence"
          (Arg.int (pos low) ∷ Arg.float config.low_confidence_limit ∷ []);
    priority = 2;
  }

  unfoldable pub report_of :
      Translator fl → (generated_at : Instant) → List (MemoryEntry fl) → QualityReport fl
  unfolding tally stale_action low_action div64
  report_of tr generated_at entries =
      let t = tally entries none_counted in
      let n = length entries in
      record {
        total_memories = n;
        high_confidence = t.high;
        low_confidence = t.low;
        stale = t.old;
        contradictions = 0;
        average_confidence =
            if ltb 0 n then fl.div t.confidence (fl.of_int (pos n)) else fl.decimal 0 1;
        average_age = if ltb 0 n then div64 t.age n else pos 0;
        recommended_actions =
            (if ltb 0 t.old then stale_action tr t.old ∷ [] else [])
            ++ (if ltb 0 t.low then low_action tr t.low ∷ [] else []);
        generated_at = generated_at;
      }

abbrev pub scan_request : {fl : Floats} → LoopConfig fl → SearchRequest fl
scan_request {fl} config =
    let req = default_search_request fl "*" in record req { top_k = config.max_memories_per_scan }

module _ {fl : Floats} {mp : MemoryProvider fl} where
  abbrev pub with_provider : Loop mp → mp.State → Loop mp
  with_provider l s = record l { provider = s }

  report_found :
      Translator fl
      → (generated_at now : Instant) → Loop mp
      → Result (Option (SearchResult fl))
      → Option (Loop mp × Result (QualityReport fl))
  unfolding report_of
  report_found tr generated_at now l (err e) = some (l, err "quality scan")
  report_found tr generated_at now l (ok none) = none
  report_found tr generated_at now l (ok (some result)) =
      some (l, ok (report_of l.config now tr generated_at result.entries))

  unfoldable pub analyze :
      Translator fl
      → (generated_at now : Instant) → Loop mp
      → Option (Loop mp × Result (QualityReport fl))
  unfolding report_found
  analyze tr generated_at now l =
      let (s, result) = mp.search l.provider (scan_request l.config) in
      report_found tr generated_at now (with_provider l s) result

  unfoldable pub start : Loop mp → Loop mp × Option Error
  start l =
      if l.running
      then (l, some "already running")
      else if l.config.enabled
      then (record l { running = true; stop_ch = opened }, none)
      else (l, none)

  close_channel : Channel → Loop mp → Option (Loop mp)
  close_channel shut l = none
  close_channel opened l = some (record l { stop_ch = shut; running = false })

  unfoldable pub stop : Loop mp → Option (Loop mp)
  unfolding close_channel
  stop l = let closed = close_channel l.stop_ch l in if l.running then closed else some l

  -- The branches of the loop for a context that is done and for the ticker.
  unfoldable pub loop_cancelled : Loop mp → Loop mp
  loop_cancelled l = record l { running = false }

  scanned : (at : Instant) → Loop mp → Loop mp
  scanned at l =
      let stats = l.stats in
      record l { stats = record stats { total_scans = stats.total_scans + 1; last_scan_at = at } }

  count_scan : (at : Instant) → Option (Loop mp × Result (QualityReport fl)) → Option (Loop mp)
  unfolding scanned
  count_scan at none = none
  count_scan at (some (l, result)) = some (scanned at l)

  unfoldable pub loop_ticked :
      Translator fl → (generated_at now at : Instant) → Loop mp → Option (Loop mp)
  unfolding analyze count_scan
  loop_ticked tr generated_at now at l = count_scan at (analyze tr generated_at now l)
