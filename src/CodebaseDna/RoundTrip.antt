-- ===== src/CodebaseDna/RoundTrip.antt =====
-- The patterns that AnalyzeCode stores are those that GetProfile reads.
use helix_memory.Prelude.{
  ◌≡◌, refl, sym, ap, ◌∙◌, String, str_eq, List, [], ◌∷◌, ◌++◌, map, some, Bool-cases, inl, inr,
  lookup,
}
use mathlib.Core.List.{append_assoc, append-nil}
use helix_memory.Runtime.{Floats}
use helix_memory.Types.{MemoryEntry, SearchResult, Instant}
use helix_memory.Types.Provider.{MemoryProvider, ok}
use helix_memory.CodebaseDna.Detect.{Pattern}
use helix_memory.CodebaseDna.{
  Profile, pattern_entry, entries_for, read_pattern, read_entry, read_entries, empty_profile,
  first_language, profile_in, profile_found, profile_request, get_profile,
}

module _ {fl : Floats} (mp : MemoryProvider fl) (new_id : Pattern fl → String)
    (stored now : Instant) (project_name language : String) where
  -- What is read of a pattern: its name and its confidence.
  abbrev pub recalled : Pattern fl → Pattern fl
  recalled p = record {
    name = p.name;
    description = "";
    frequency = 0;
    confidence = p.confidence;
    examples = [];
  }

  keeps_language : first_language language (some language) ≡ language
  keeps_language = elim (Bool-cases (str_eq language "")) [ inl e ↦ rw e | inr e ↦ rw e ]

  read_patterns :
      (ps : List (Pattern fl)) (profile : Profile fl)
      → (read_entries (entries_for mp new_id stored project_name language ps) profile).patterns
        ≡ profile.patterns ++ map recalled ps
  unfolding read_entries read_entry read_pattern entries_for pattern_entry lookup
  read_patterns [] profile = sym (append-nil profile.patterns)
  read_patterns (p ∷ ps) profile =
      read_patterns ps _ ∙ append_assoc profile.patterns (recalled p ∷ []) (map recalled ps)

  read_language :
      (ps : List (Pattern fl)) (profile : Profile fl)
      → profile.language ≡ language
      → (read_entries (entries_for mp new_id stored project_name language ps) profile).language
        ≡ language
  unfolding read_entries read_entry entries_for pattern_entry lookup
  read_language [] profile h = h
  read_language (p ∷ ps) profile h =
      read_language ps _
        (ap (λ (held : String). first_language held (some language)) h ∙ keeps_language)

  read_project :
      (es : List (MemoryEntry fl)) (profile : Profile fl)
      → (read_entries es profile).project_name ≡ profile.project_name
  unfolding read_entries read_entry
  read_project [] profile = refl
  read_project (e ∷ es) profile = read_project es _

  read_first :
      (p : Pattern fl) (ps : List (Pattern fl))
      → let profile =
          read_entries
            (entries_for mp new_id stored project_name language (p ∷ ps))
            (empty_profile project_name now) in
        (profile.project_name ≡ project_name)
        × (profile.language ≡ language)
        × (profile.patterns ≡ recalled p ∷ map recalled ps)
  unfolding read_entries read_entry entries_for pattern_entry lookup empty_profile
  read_first p ps = (
    read_project (entries_for mp new_id stored project_name language ps) _,
    read_language ps _ (elim (Bool-cases (str_eq language "")) [ inl e ↦ refl | inr e ↦ refl ]),
    read_patterns (p ∷ ps) (empty_profile project_name now),
  )

  -- If the search finds exactly the entries that AnalyzeCode makes of one or more patterns, GetProfile
  -- gives a profile of the project, with the language, and with the names and confidences of the patterns
  -- in their order.
  pub profile_round_trip :
      (s s' : mp.State) (result : SearchResult fl) (p : Pattern fl) (ps : List (Pattern fl))
      → mp.search s (profile_request mp project_name) ≡ (s', ok (some result))
      → result.entries ≡ entries_for mp new_id stored project_name language (p ∷ ps)
      → (profile : Profile fl) × (get_profile mp now s project_name ≡ some (s', ok profile))
        × (profile.project_name ≡ project_name)
        × (profile.language ≡ language)
        × (profile.patterns ≡ map recalled (p ∷ ps))
  unfolding get_profile profile_found profile_in entries_for
  profile_round_trip s s' result p ps found held =
      let (project, lang, patterns) = read_first p ps in
      (
        read_entries (entries_for mp new_id stored project_name language (p ∷ ps))
            (empty_profile project_name now),
        ap (profile_found mp project_name now) found
            ∙ ap (λ (es : List (MemoryEntry fl)). some (s', profile_in mp project_name now es))
                held,
        project,
        lang,
        patterns,
      )
