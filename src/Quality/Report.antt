-- ===== src/Quality/Report.antt =====
-- What a report says of the entries that the search found.
use helix_memory.Prelude.{
  ℕ, suc, ◌+◌, ◌≤◌, ◌≡◌, refl, sym, ap, ◌∙◌, Bool, true, false, List, [], ◌∷◌, ◌++◌, some, length,
  count, exists, if◌then◌else◌, ltb, str_eq, arith, exists-count,
}
use helix_memory.Runtime.{Floats}
use helix_memory.Types.{MemoryEntry, SearchResult, Instant}
use helix_memory.Types.Provider.{MemoryProvider, ok}
use helix_memory.I18n.{Translator}
use helix_memory.Quality.{
  Action, QualityReport, LoopConfig, Loop, Tally, tally, tally_one, none_counted, is_high, is_low,
  is_stale, stale_action, low_action, report_of, report_found, scan_request, analyze, with_provider,
}

one_more :
    (b : Bool) (t n : ℕ) {total : ℕ}
    → total ≡ (if b then t + 1 else t) + n
    → total ≡ t + (if b then suc n else n)
one_more true t n h = omega arith
one_more false t n h = h

module _ {fl : Floats} (config : LoopConfig fl) (now : Instant) where
  tally_counts :
      (es : List (MemoryEntry fl)) (t : Tally fl)
      → ((tally config now es t).high ≡ t.high + count (is_high config now) es)
        × ((tally config now es t).low ≡ t.low + count (is_low config now) es)
        × ((tally config now es t).old ≡ t.old + count (is_stale config now) es)
  unfolding tally tally_one
  tally_counts [] t = (omega arith, omega arith, omega arith)
  tally_counts (e ∷ es) t =
      let (high, low, old) = tally_counts es (tally_one config now t e) in
      (
        one_more (is_high config now e) _ _ high,
        one_more (is_low config now e) _ _ low,
        one_more (is_stale config now e) _ _ old,
      )

  all_counts :
      (es : List (MemoryEntry fl))
      → let t = tally config now es (none_counted config now) in
        (t.high ≡ count (is_high config now) es)
        × (t.low ≡ count (is_low config now) es)
        × (t.old ≡ count (is_stale config now) es)
  all_counts es = omega (arith, tally_counts es (none_counted config now))

  disjoint_counts :
      (es : List (MemoryEntry fl))
      → count (is_high config now) es + count (is_low config now) es ≤ length es
  disjoint_counts [] = omega arith
  disjoint_counts (e ∷ es) = ground (arith, disjoint_counts es)

  actions_of : Translator fl → (stale low : ℕ) → List Action
  unfolding stale_action low_action
  actions_of words stale low =
      (if ltb 0 stale then stale_action config now words stale ∷ [] else [])
      ++ (if ltb 0 low then low_action config now words low ∷ [] else [])

  actions_prune :
      (words : Translator fl) (stale low : ℕ)
      → exists (λ a. str_eq a.type "prune") (actions_of words stale low) ≡ ltb 0 stale
  unfolding actions_of
  actions_prune words stale low = ground arith

  actions_validate :
      (words : Translator fl) (stale low : ℕ)
      → exists (λ a. str_eq a.type "validate") (actions_of words stale low) ≡ ltb 0 low
  unfolding actions_of
  actions_validate words stale low = ground arith

  -- The counts and the recommendations of a report are those of its entries.
  pub record IsReportOf (es : List (MemoryEntry fl)) (r : QualityReport fl) : Type 0 where
    pub total_lem : r.total_memories ≡ length es
    pub high_lem : r.high_confidence ≡ count (is_high config now) es
    pub low_lem : r.low_confidence ≡ count (is_low config now) es
    pub stale_lem : r.stale ≡ count (is_stale config now) es
    pub disjoint : r.high_confidence + r.low_confidence ≤ r.total_memories
    pub prunes :
        exists (λ a. str_eq a.type "prune") r.recommended_actions ≡ exists (is_stale config now) es
    pub validates :
        exists (λ a. str_eq a.type "validate") r.recommended_actions ≡ exists (is_low config now) es

  report_of-IsReportOf :
      (words : Translator fl) (at : Instant) (es : List (MemoryEntry fl))
      → IsReportOf es (report_of config now words at es)
  unfolding report_of stale_action low_action actions_of
  report_of-IsReportOf words at es = record {
    total_lem = refl;
    high_lem = (all_counts es).0;
    low_lem = (all_counts es).1;
    stale_lem = (all_counts es).2;
    disjoint = omega (arith, all_counts es, disjoint_counts es);
    prunes =
        actions_prune words _ _
        ∙ ap (ltb 0) (all_counts es).2
        ∙ sym (exists-count (is_stale config now) es);
    validates =
        actions_validate words _ _
        ∙ ap (ltb 0) (all_counts es).1
        ∙ sym (exists-count (is_low config now) es);
  }

-- Where the search gives a result, Analyze gives a report: its counts are those of the entries, an
-- entry of high confidence is not of low confidence too, and it recommends to prune exactly if an entry
-- is stale, and to validate exactly if one is of low confidence.
pub analyze_reports :
    {fl : Floats} {mp : MemoryProvider fl} (words : Translator fl) (at now : Instant) (l : Loop mp)
    (s : mp.State) (result : SearchResult fl)
    → mp.search l.provider (scan_request l.config) ≡ (s, ok (some result))
    → (r : QualityReport fl) × (analyze words at now l ≡ some (with_provider l s, ok r))
      × IsReportOf l.config now result.entries r
unfolding analyze report_found
analyze_reports words at now l s result h = (
  report_of l.config now words at result.entries,
  rw h,
  report_of-IsReportOf l.config now words at result.entries,
)
