-- ===== src/DebateMemory.antt =====
-- pkg/features/debate_memory/debate.go: the memories around a debate, and the memories that it leaves.
-- strings.Fields and strings.Join are parameters, with the new identifier and the clock's readings. A
-- provider that returns neither a result nor an error makes GetDebateContext panic, which is `none`.
pub mod Retrieval
use helix_memory.Prelude.{
  ℕ, ◌+◌, String, str_append, Bool, not, ◌&&◌, List, [], ◌∷◌, Option, none, some, Dict, is_seen,
  length, ltb, if◌then◌else◌, keep,
}
use helix_memory.Prelude.Int.{pos}
use helix_memory.Runtime.{Floats, Runtime}
use helix_memory.Types.{
  MemoryEntry, SearchRequest, SearchResult, Instant, Value, text, float, default_search_request,
  zero_entry,
}
use helix_memory.Types.MemoryType
use helix_memory.Types.MemoryType.{MemoryType}
use helix_memory.Types.MemorySource
use helix_memory.Types.Provider.{MemoryProvider, Error, Result, ok, err}

pub record DebateContext (fl : Floats) : Type 0 where
  pub session_id : String
  pub topic : String
  pub relevant_memories : List (MemoryEntry fl)
  pub past_decisions : List (MemoryEntry fl)
  pub patterns : List (MemoryEntry fl)
  pub total_retrieved : ℕ
  pub retrieval_time : ℕ

-- strings.Fields, and strings.Join with a space.
pub record Words : Type 0 where
  pub fields : String → List String
  pub join : List String → String

abbrev pub concat : List String → String
concat [] = ""
concat (s ∷ ss) = str_append s (concat ss)

abbrev pub stop_words : List String
stop_words =
    "the" ∷ "a" ∷ "an" ∷ "is" ∷ "are" ∷ "was" ∷ "were" ∷ "be" ∷ "been" ∷ "being" ∷ "have" ∷ "has"
    ∷ "had" ∷ "do" ∷ "does" ∷ "did" ∷ "will" ∷ "would" ∷ "could" ∷ "should" ∷ "may" ∷ "might"
    ∷ "can" ∷ "for" ∷ "of" ∷ "to" ∷ "in" ∷ "on" ∷ "at" ∷ "by" ∷ "with" ∷ "from" ∷ "and" ∷ "or"
    ∷ "not" ∷ "what" ∷ "which" ∷ "that" ∷ "this" ∷ "how" ∷ []

-- The loop over the words.
unfoldable pub keywords_of : Runtime → List String → List String
keywords_of rt [] = []
keywords_of rt (w ∷ ws) =
    let rest = keywords_of rt ws in
    if not (is_seen w stop_words) && ltb 2 (rt.len w) then w ∷ rest else rest

unfoldable pub extract_keywords : Runtime → Words → String → String
unfolding keywords_of
extract_keywords rt words topic = words.join (keywords_of rt (words.fields (rt.to_lower topic)))

module _ {fl : Floats} (mp : MemoryProvider fl) where
  unfoldable pub request_of : (query : String) → (top_k : ℕ) → List MemoryType → SearchRequest fl
  unfolding default_search_request
  request_of query top_k types =
      let req = default_search_request fl query in record req { top_k = pos top_k; types = types }

  -- A search whose error is passed over.
  optional_entries :
      mp.State × Result (Option (SearchResult fl)) → Option (mp.State × List (MemoryEntry fl))
  optional_entries (s, err e) = some (s, [])
  optional_entries (s, ok none) = none
  optional_entries (s, ok (some result)) = some (s, result.entries)

  unfoldable pub search_optional :
      SearchRequest fl → mp.State → Option (mp.State × List (MemoryEntry fl))
  unfolding optional_entries
  search_optional req s = optional_entries (mp.search s req)

  -- The parts of the context, in the order of the searches.
  with_patterns :
      (topic session_id : String)
      → (duration : ℕ) → (relevant decisions : List (MemoryEntry fl))
      → Option (mp.State × List (MemoryEntry fl))
      → Option (mp.State × Result (DebateContext fl))
  with_patterns topic session_id duration relevant decisions none = none
  with_patterns topic session_id duration relevant decisions (some (s, patterns)) = some (
    s,
    ok (record {
      session_id = session_id;
      topic = topic;
      relevant_memories = relevant;
      past_decisions = decisions;
      patterns = patterns;
      total_retrieved = length relevant + length decisions + length patterns;
      retrieval_time = duration;
    }),
  )

  with_decisions :
      Runtime
      → Words
      → (topic session_id : String) → (duration : ℕ) → (relevant : List (MemoryEntry fl))
      → Option (mp.State × List (MemoryEntry fl))
      → Option (mp.State × Result (DebateContext fl))
  unfolding with_patterns search_optional request_of extract_keywords
  with_decisions rt words topic session_id duration relevant none = none
  with_decisions rt words topic session_id duration relevant (some (s, decisions)) =
      with_patterns topic session_id duration relevant decisions (
        search_optional
          (request_of (str_append "pattern " (extract_keywords rt words topic)) 10
            (MemoryType.procedural ∷ []))
          s)

  with_relevant :
      Runtime
      → Words
      → (topic session_id : String) → (duration : ℕ) → mp.State × Result (Option (SearchResult fl))
      → Option (mp.State × Result (DebateContext fl))
  unfolding with_decisions search_optional request_of
  with_relevant rt words topic session_id duration (s, err e) =
      some (s, err "search debate context")
  with_relevant rt words topic session_id duration (s, ok none) = none
  with_relevant rt words topic session_id duration (s, ok (some result)) =
      with_decisions rt words topic session_id duration result.entries (
        search_optional (request_of (str_append "debate decision " topic) 10 (MemoryType.fact ∷ []))
          s)

  unfoldable pub get_debate_context :
      Runtime
      → Words
      → (duration : ℕ) → mp.State
      → (topic session_id : String) → Option (mp.State × Result (DebateContext fl))
  unfolding with_relevant request_of
  get_debate_context rt words duration s topic session_id =
      with_relevant rt words topic session_id duration (mp.search s (request_of topic 20 []))

  unfoldable pub store_debate_outcome :
      (id : String)
      → (now : Instant) → mp.State
      → (session_id topic consensus : String) → (confidence : fl.F64) → mp.State × Option Error
  store_debate_outcome id now s session_id topic consensus confidence =
      let zero = zero_entry fl in
      mp.add s (record zero {
        id = id;
        content = concat (
            "[DEBATE_OUTCOME:" ∷ session_id ∷ "] Topic: " ∷ topic ∷ " | Consensus: " ∷ consensus
            ∷ []);
        type = MemoryType.fact;
        source = MemorySource.fusion;
        metadata = some (
            ("debate_session_id", text session_id)
            ∷ ("debate_topic", text topic)
            ∷ ("debate_consensus", text consensus)
            ∷ ("debate_confidence", float confidence)
            ∷ []);
        confidence = confidence;
        created_at = now;
        updated_at = now;
      })

  unfoldable pub store_agent_insight :
      (id : String)
      → (now : Instant) → mp.State
      → (session_id agent_id insight : String) → mp.State × Option Error
  store_agent_insight id now s session_id agent_id insight =
      let zero = zero_entry fl in
      mp.add s (record zero {
        id = id;
        content = concat ("[DEBATE_INSIGHT:" ∷ session_id ∷ "/" ∷ agent_id ∷ "] " ∷ insight ∷ []);
        type = MemoryType.episodic;
        source = MemorySource.fusion;
        metadata = some (("debate_session_id", text session_id) ∷ ("agent_id", text agent_id) ∷ []);
        agent_id = agent_id;
        confidence = fl.decimal 75 2;
        created_at = now;
        updated_at = now;
      })
