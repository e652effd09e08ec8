-- ===== src/Samples/Features.antt =====
-- Translations, reports, scores, outcomes, transfers and profiles at small inputs.
use helix_memory.Prelude.{
  String, str_eq, ◌+◌, ◌≡◌, refl, true, false, List, [], ◌∷◌, none, some, Dict, lookup, ltb,
  if◌then◌else◌,
}
use helix_memory.Prelude.Int.{pos, pos_part}
use helix_memory.Types.{MemoryEntry, int}
use helix_memory.Types.Provider.{MemoryProvider, Result, ok}
use helix_memory.I18n.{
  Texts, File, BundleTranslator, Translator, noop, find, or_else, new_bundle_translator,
}
use helix_memory.I18n.Fallback.{for_locale, loaded_falls_back}
use helix_memory.Quality.{
  Loop, QualityReport, new_loop, default_loop_config, analyze, with_provider,
}
use helix_memory.Quality.Report.{IsReportOf, analyze_reports}
use helix_memory.Confidence.{MathModule, default_weights, zero_f, one_f, weighted_sum, score}
use helix_memory.Confidence.Range.{score_bounds}
use helix_memory.Procedural.{Procedure, learned, learned_metadata}
use helix_memory.Procedural.Outcomes.{outcomes_marks, outcomes_never_counted}
use helix_memory.Transfer.{TransferResult, transfer}
use helix_memory.Transfer.Counts.{transfer_accounts}
use helix_memory.CodebaseDna.Detect.{Pattern}
use helix_memory.CodebaseDna.{Profile, entries_for, pattern_entry, get_profile}
use helix_memory.CodebaseDna.RoundTrip.{recalled, profile_round_trip}
use helix_memory.Samples.World.{thousandths, plain, plain-IsGo, thousandths-IsFloatOrder}
use helix_memory.Samples.Data.{tea, cocoa, result}

abbrev texts : Texts thousandths
texts = record {
  trim_prefix = λ s p. s;
  has_suffix = λ s p. str_eq s "en.yaml";
  trim_suffix = λ s p. "en";
  before_any = λ s cs. if str_eq s "en-GB" then some "en" else none;
  sprintf = λ f args. f;
}

abbrev bundle_dir : Result (List File)
bundle_dir = ok (record { name = "en.yaml"; is_dir = false; content = ok "hello: Hello" } ∷ [])

abbrev parsed : String → Result (Dict String)
parsed raw = ok (("hello", raw) ∷ [])

abbrev english : BundleTranslator
english = record { default_locale = "en"; locales = ("en", ("hello", "hello: Hello") ∷ []) ∷ [] }

english_loads : new_bundle_translator texts parsed bundle_dir "en" ≡ ok english
unfolding new_bundle_translator
english_loads = refl

loaded_falls_back_example :
    (table : Dict String) × (lookup "en" english.locales ≡ some table)
    × (find texts english "en-GB" "hello"
        ≡ or_else
            (if str_eq "en-GB" "" then none else for_locale texts english "en-GB" "hello")
            (lookup "hello" table))
loaded_falls_back_example =
    loaded_falls_back texts parsed bundle_dir "en" "en-GB" "hello" english_loads

-- A system that finds what it holds.
abbrev pub finding : MemoryProvider thousandths
finding = record {
  State = List (MemoryEntry thousandths);
  add = λ s e. (e ∷ s, none);
  search = λ s r. (s, ok (some (result s)));
  get = λ s id. (s, ok none);
  update = λ s e. (s, none);
  delete = λ s id. (s, none);
  get_history = λ s u n. (s, ok s);
  health = λ s. (s, none);
}

abbrev pub words : Translator thousandths
words = noop texts

abbrev scanning : Loop finding
scanning = new_loop finding (tea ∷ cocoa ∷ []) (default_loop_config thousandths)

analyze_reports_example :
    (r : QualityReport thousandths) × (analyze words 9 9 scanning
      ≡ some (with_provider scanning scanning.provider, ok r))
    × IsReportOf scanning.config 9 (tea ∷ cocoa ∷ []) r
unfolding new_loop
analyze_reports_example =
    analyze_reports words 9 9 scanning scanning.provider (result (tea ∷ cocoa ∷ [])) refl

abbrev coarse : MathModule thousandths
coarse = record { exp = λ x. 1000; log10 = λ x. x; neg = λ x. 0; hours = λ d. pos_part d }

score_bounds_example :
    let s = score thousandths plain coarse (default_weights thousandths) (pos 5) tea (pos 2) in
    (ltb (one_f thousandths) s ≡ false)
    × (ltb s (zero_f thousandths) ≡ false)
    × (s ≡ (
        let total =
          weighted_sum thousandths plain coarse (default_weights thousandths) (pos 5) tea (pos 2) in
        if ltb (one_f thousandths) total
        then one_f thousandths
        else if ltb total (zero_f thousandths)
        then zero_f thousandths
        else total))
score_bounds_example =
    score_bounds thousandths-IsFloatOrder refl plain coarse (default_weights thousandths) (pos 5)
      tea (pos 2)

abbrev brewing : Procedure thousandths
brewing = learned "p1" 1 1 "brew" "tea" []

outcomes_never_counted_example :
    lookup "usage_count" (outcomes_marks (true ∷ false ∷ []) (learned_metadata brewing))
    ≡ some (int (pos 1))
unfolding learned
outcomes_never_counted_example = outcomes_never_counted brewing (true ∷ false ∷ []) refl

transfer_accounts_example :
    (s : List (MemoryEntry thousandths)) × (r : TransferResult) × (transfer finding
        (λ e. "new")
        9
        "kettle"
        "teapot"
        plain
        (λ c. c)
        "[DNA:kettle]"
        1
        (tea ∷ cocoa ∷ [])
      ≡ some (s, ok r))
    × (r.transferred + r.failed ≡ 2)
    × (r.skipped ≡ 0)
transfer_accounts_example =
    transfer_accounts finding (λ e. "new") 9 "kettle" "teapot" plain plain-IsGo (λ c. c)
      "[DNA:kettle]" 1 (tea ∷ cocoa ∷ []) (tea ∷ cocoa ∷ []) (result (tea ∷ cocoa ∷ [])) refl

abbrev mutexes : Pattern thousandths
mutexes = record {
  name = "mutex_concurrency";
  description = "locks";
  frequency = 3;
  confidence = 900;
  examples = [];
}

abbrev mutex_entries : List (MemoryEntry thousandths)
mutex_entries = pattern_entry (λ p. p.name) 9 "kettle" "go" mutexes ∷ []

profile_round_trip_example :
    (profile : Profile thousandths) × (get_profile finding 10 mutex_entries "kettle"
      ≡ some (mutex_entries, ok profile))
    × (profile.project_name ≡ "kettle")
    × (profile.language ≡ "go")
    × (profile.patterns ≡ recalled finding (λ p. p.name) 9 10 "kettle" "go" mutexes ∷ [])
unfolding entries_for
profile_round_trip_example =
    profile_round_trip finding (λ p. p.name) 9 10 "kettle" "go" mutex_entries mutex_entries
      (result mutex_entries) mutexes [] refl refl
