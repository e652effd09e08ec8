-- ===== src/DebateMemory/Retrieval.antt =====
-- When a debate gets its context.
use helix_memory.Prelude.{ℕ, ◌+◌, ◌≡◌, ◌≢◌, refl, String, List, [], Option, none, some, length}
use helix_memory.Runtime.{Floats, Runtime}
use helix_memory.Types.{MemoryEntry, SearchRequest, SearchResult}
use helix_memory.Types.Provider.{MemoryProvider, Result, ok, err}
use helix_memory.DebateMemory.{
  DebateContext, Words, request_of, optional_entries, search_optional, with_patterns,
  with_decisions, with_relevant, get_debate_context,
}

-- A search gives a result or an error.
abbrev pub Answers : {fl : Floats} → MemoryProvider fl → Type 0
Answers {fl} mp = (s : mp.State) (req : SearchRequest fl) → (mp.search s req).1 ≢ ok none

-- What an optional search gives.
abbrev pub Found :
    {fl : Floats} (mp : MemoryProvider fl) → Option (mp.State × List (MemoryEntry fl)) → Type 0
Found {fl} mp o = (r : mp.State × List (MemoryEntry fl)) × (o ≡ some r)

module _ {fl : Floats} (mp : MemoryProvider fl) (answers : Answers mp) where
  optional_entries-Found :
      (r : mp.State × Result (Option (SearchResult fl)))
      → r.1 ≢ ok none
      → Found mp (optional_entries mp r)
  unfolding optional_entries
  optional_entries-Found (s, err e) h = (_, refl)
  optional_entries-Found (s, ok none) h = absurd (h refl)
  optional_entries-Found (s, ok (some result)) h = (_, refl)

  pub search_optional-Found :
      (req : SearchRequest fl) (s : mp.State) → Found mp (search_optional mp req s)
  unfolding search_optional
  search_optional-Found req s = optional_entries-Found (mp.search s req) (answers s req)

  -- A context of a topic, with the memories of the first search.
  abbrev pub IsContext :
      (topic session_id : String)
      → (relevant : List (MemoryEntry fl)) → Option (mp.State × Result (DebateContext fl))
      → Type 0
  IsContext topic session_id relevant o =
      (s : mp.State) × (c : DebateContext fl) × (o ≡ some (s, ok c))
      × (c.topic ≡ topic)
      × (c.session_id ≡ session_id)
      × (c.relevant_memories ≡ relevant)
      × (c.total_retrieved
          ≡ length c.relevant_memories + length c.past_decisions + length c.patterns)

  with_patterns-IsContext :
      (topic session_id : String) (duration : ℕ) (relevant decisions : List (MemoryEntry fl))
      (o : Option (mp.State × List (MemoryEntry fl)))
      → Found mp o
      → IsContext topic session_id relevant
          (with_patterns mp topic session_id duration relevant decisions o)
  unfolding with_patterns
  with_patterns-IsContext topic session_id duration relevant decisions none h = absurd (cc h.1)
  with_patterns-IsContext topic session_id duration relevant decisions (some (s, ps)) h =
      (s, _, refl, refl, refl, refl, refl)

  with_decisions-IsContext :
      (rt : Runtime) (words : Words) (topic session_id : String) (duration : ℕ)
      (relevant : List (MemoryEntry fl)) (o : Option (mp.State × List (MemoryEntry fl)))
      → Found mp o
      → IsContext topic session_id relevant
          (with_decisions mp rt words topic session_id duration relevant o)
  unfolding with_decisions
  with_decisions-IsContext rt words topic session_id duration relevant none h = absurd (cc h.1)
  with_decisions-IsContext rt words topic session_id duration relevant (some (s, ds)) h =
      with_patterns-IsContext topic session_id duration relevant ds _ (search_optional-Found _ s)

  -- Where every search of the provider gives a result or an error, and the first search of a debate
  -- gives a result, the debate gets a context with that result, whether or not the searches for past
  -- decisions and patterns fail, and the context counts all that was found.
  pub get_debate_context-IsContext :
      (rt : Runtime) (words : Words) (duration : ℕ) (s s' : mp.State) (topic session_id : String)
      (result : SearchResult fl)
      → mp.search s (request_of mp topic 20 []) ≡ (s', ok (some result))
      → IsContext topic session_id result.entries
          (get_debate_context mp rt words duration s topic session_id)
  unfolding get_debate_context with_relevant
  get_debate_context-IsContext rt words duration s s' topic session_id result found = rw found (
      with_decisions-IsContext rt words topic session_id duration result.entries _
        (search_optional-Found _ s'))
