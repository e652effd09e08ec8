-- ===== src/CodebaseDna.antt =====
-- pkg/features/codebase_dna/dna.go: the patterns of a piece of code, stored as memories, and the profile
-- that is read back. strings.Count and strings.Split at the ends of lines are parameters, with the new
-- identifiers and the clock's readings. The texts come from the translator. A provider that returns
-- neither a result nor an error makes GetProfile panic, which is `none`.
pub mod Detect
pub mod RoundTrip
use helix_memory.Prelude.{
  ℕ, String, str_append, str_eq, Bool, true, false, ◌&&◌, List, [], ◌∷◌, ◌++◌, Option, none, some,
  Dict, lookup, if◌then◌else◌,
}
use helix_memory.Prelude.Int.{pos}
use helix_memory.Runtime.{Floats, Runtime}
use helix_memory.Types.{
  MemoryEntry, SearchRequest, SearchResult, Instant, Value, text, int, default_search_request,
  zero_entry,
}
use helix_memory.Types.MemoryType
use helix_memory.Types.MemorySource
use helix_memory.Types.Provider.{MemoryProvider, Error, Result, ok, err}
use helix_memory.I18n.{Translator}
use helix_memory.CodebaseDna.Detect.{
  CodeTexts, Pattern, Preference, Convention, detect_patterns, detect_preferences,
  detect_conventions, calculate_confidence,
}

pub record Profile (fl : Floats) : Type 0 where
  pub id : String
  pub project_name : String
  pub language : String
  pub framework : String
  pub patterns : List (Pattern fl)
  pub preferences : List Preference
  pub conventions : List Convention
  pub dependencies : List String
  pub metadata : Option (Dict (Value fl))
  pub last_analyzed : Instant
  pub confidence_score : fl.F64

abbrev pub concat : List String → String
concat [] = ""
concat (s ∷ ss) = str_append s (concat ss)

abbrev pub or_empty : Option String → String
or_empty none = ""
or_empty (some s) = s

-- A language is taken if there is none yet.
abbrev pub first_language : (held : String) → Option String → String
first_language held none = held
first_language held (some language) = if str_eq held "" then language else held

abbrev pub is_pattern : Option String → Bool
is_pattern none = false
is_pattern (some dna_type) = str_eq dna_type "pattern"

module _ {fl : Floats} where
  unfoldable pub pattern_entry :
      (new_id : Pattern fl → String)
      → (now : Instant) → (project_name language : String) → Pattern fl
      → MemoryEntry fl
  pattern_entry new_id now project_name language pattern =
      let zero = zero_entry fl in
      record zero {
        id = new_id pattern;
        content = concat (
            "[DNA:" ∷ project_name ∷ "] Pattern: " ∷ pattern.name ∷ " — " ∷ pattern.description
            ∷ []);
        type = MemoryType.procedural;
        source = MemorySource.fusion;
        metadata = some (
            ("dna_project", text project_name)
            ∷ ("dna_language", text language)
            ∷ ("dna_type", text "pattern")
            ∷ ("pattern_name", text pattern.name)
            ∷ ("frequency", int (pos pattern.frequency))
            ∷ []);
        confidence = pattern.confidence;
        created_at = now;
        updated_at = now;
      }

  unfoldable pub profile_of :
      Runtime
      → CodeTexts
      → Translator fl
      → (id : String) → (now : Instant) → (code language project_name : String) → Profile fl
  unfolding detect_patterns detect_preferences detect_conventions calculate_confidence
  profile_of rt tx words id now code language project_name =
      let patterns = detect_patterns rt tx words code language in
      record {
        id = id;
        project_name = project_name;
        language = language;
        framework = "";
        patterns = patterns;
        preferences = detect_preferences rt code language;
        conventions = detect_conventions rt tx words code;
        dependencies = [];
        metadata = none;
        last_analyzed = now;
        confidence_score = calculate_confidence fl tx code patterns;
      }

  abbrev pub made : Option (Dict (Value fl)) → Dict (Value fl)
  made none = []
  made (some m) = m

  -- `s, ok := v.(string)`
  abbrev pub text_in : Option (Value fl) → Option String
  text_in (some (text s)) = some s
  text_in v = none

  unfoldable pub read_pattern : MemoryEntry fl → Pattern fl
  unfolding lookup
  read_pattern entry = record {
    name = or_empty (text_in (lookup "pattern_name" (made entry.metadata)));
    description = "";
    frequency = 0;
    confidence = entry.confidence;
    examples = [];
  }

  -- One turn of the loop over the entries that were found, and the loop.
  unfoldable pub read_entry : Profile fl → MemoryEntry fl → Profile fl
  unfolding lookup read_pattern
  read_entry profile entry =
      let m = made entry.metadata in
      record profile {
        language = first_language profile.language (text_in (lookup "dna_language" m));
        patterns =
            if is_pattern (text_in (lookup "dna_type" m))
            then profile.patterns ++ read_pattern entry ∷ []
            else profile.patterns;
      }

  unfoldable pub read_entries : List (MemoryEntry fl) → Profile fl → Profile fl
  unfolding read_entry
  read_entries [] profile = profile
  read_entries (e ∷ es) profile = read_entries es (read_entry profile e)

  unfoldable pub empty_profile : (project_name : String) → (now : Instant) → Profile fl
  empty_profile project_name now = record {
    id = "";
    project_name = project_name;
    language = "";
    framework = "";
    patterns = [];
    preferences = [];
    conventions = [];
    dependencies = [];
    metadata = none;
    last_analyzed = now;
    confidence_score = fl.decimal 0 1;
  }

module _ {fl : Floats} (mp : MemoryProvider fl) where
  -- The loop that stores; the first error ends it.
  unfoldable pub store_all :
      List (MemoryEntry fl) → mp.State × Option Error → mp.State × Option Error
  store_all [] r = r
  store_all (e ∷ es) (s, some x) = (s, some x)
  store_all (e ∷ es) (s, none) = store_all es (mp.add s e)

  unfoldable pub entries_for :
      (new_id : Pattern fl → String)
      → (now : Instant) → (project_name language : String) → List (Pattern fl)
      → List (MemoryEntry fl)
  unfolding pattern_entry
  entries_for new_id now project_name language [] = []
  entries_for new_id now project_name language (p ∷ ps) =
      pattern_entry new_id now project_name language p
      ∷ entries_for new_id now project_name language ps

  profile_if : Profile fl → mp.State × Option Error → mp.State × Result (Profile fl)
  profile_if profile (s, none) = (s, ok profile)
  profile_if profile (s, some e) = (s, err "store pattern")

  unfoldable pub analyze_code :
      Runtime
      → CodeTexts
      → Translator fl
      → (id : String) → (new_id : Pattern fl → String) → (now : Instant) → mp.State
      → (code language project_name : String) → mp.State × Result (Profile fl)
  unfolding profile_of store_all entries_for profile_if
  analyze_code rt tx words id new_id now s code language project_name =
      let profile = profile_of rt tx words id now code language project_name in
      profile_if profile
        (store_all (entries_for new_id now project_name language profile.patterns) (s, none))

  unfoldable pub profile_request : (project_name : String) → SearchRequest fl
  unfolding default_search_request
  profile_request project_name =
      let req = default_search_request fl (concat ("[DNA:" ∷ project_name ∷ "]" ∷ [])) in
      record req { top_k = pos 100; filter = some (("dna_project", text project_name) ∷ []) }

  profile_in :
      (project_name : String) → (now : Instant) → List (MemoryEntry fl) → Result (Profile fl)
  unfolding read_entries empty_profile
  profile_in project_name now [] = err "no profile found"
  profile_in project_name now (e ∷ es) = ok (read_entries (e ∷ es) (empty_profile project_name now))

  profile_found :
      (project_name : String)
      → (now : Instant) → mp.State × Result (Option (SearchResult fl))
      → Option (mp.State × Result (Profile fl))
  unfolding profile_in
  profile_found project_name now (s, err e) = some (s, err "search profile")
  profile_found project_name now (s, ok none) = none
  profile_found project_name now (s, ok (some result)) =
      some (s, profile_in project_name now result.entries)

  unfoldable pub get_profile :
      (now : Instant) → mp.State → (project_name : String) → Option (mp.State × Result (Profile fl))
  unfolding profile_found profile_request
  get_profile now s project_name =
      profile_found project_name now (mp.search s (profile_request project_name))
