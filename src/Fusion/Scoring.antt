-- ===== src/Fusion/Scoring.antt =====
-- pkg/fusion/consolidator.go: the score by which entries are ranked, and the cosine similarity of
-- embeddings, over the float64 operations of `fl`. The instant at which `time.Since` reads the clock
-- is an argument.
use helix_memory.Prelude.{
  ℕ, ◌*◌, String, ◌||◌, not, List, [], ◌∷◌, Option, none, some, Dict, lookup, str_eq, if◌then◌else◌,
  ◌==◌, length,
}
use helix_memory.Prelude.Int.{pos, sub_ℕ, ltb_ℤ}
use helix_memory.Runtime.{Floats}
use helix_memory.Types.{MemoryEntry, SearchRequest, Instant}
use helix_memory.Types.MemoryType
use helix_memory.Types.MemoryType.{MemoryType}
use helix_memory.Types.MemorySource
use helix_memory.Types.MemorySource.{MemorySource}

-- time.Hour in nanoseconds
abbrev hour : ℕ
hour = 3_600_000_000_000

module _ (fl : Floats) where
  open fl use {F64, F32, lt, ge, eq, add, mul, div, sqrt, widen, decimal}

  -- `m[k]` of a map of floats: a missing key reads as 0.
  or_zero : Option F64 → F64
  or_zero none = decimal 0 1
  or_zero (some w) = w

  -- `w := m[k]; if w == 0 { w = 1.0 }`
  weight_of : String → Dict F64 → F64
  unfolding or_zero lookup
  weight_of k m = let w = or_zero (lookup k m) in if eq w (decimal 0 1) then decimal 10 1 else w

  abbrev source_weights : Dict F64
  source_weights =
      (MemorySource.cognee, decimal 12 1)
      ∷ (MemorySource.mem0, decimal 10 1)
      ∷ (MemorySource.letta, decimal 11 1)
      ∷ []

  abbrev type_weights : Dict F64
  type_weights =
      (MemoryType.core, decimal 125 2)
      ∷ (MemoryType.fact, decimal 110 2)
      ∷ (MemoryType.procedural, decimal 110 2)
      ∷ (MemoryType.graph, decimal 105 2)
      ∷ (MemoryType.temporal, decimal 100 2)
      ∷ (MemoryType.episodic, decimal 95 2)
      ∷ []

  -- The loop over the requested types.
  requested_weight : MemoryType → List MemoryType → F64
  requested_weight type [] = decimal 10 1
  requested_weight type (t ∷ ts) = if str_eq type t then decimal 135 2 else requested_weight type ts

  -- A request is never nil here: FuseResults has read its fields before.
  type_weight_in : List MemoryType → MemoryType → F64
  unfolding requested_weight weight_of
  type_weight_in [] type = weight_of type type_weights
  type_weight_in (t ∷ ts) type = requested_weight type (t ∷ ts)

  unfoldable pub calculate_type_weight : MemoryEntry fl → SearchRequest fl → F64
  unfolding type_weight_in
  calculate_type_weight entry req = type_weight_in req.types entry.type

  unfoldable pub calculate_recency_boost : MemoryEntry fl → (now : Instant) → F64
  calculate_recency_boost entry now =
      let age = sub_ℕ now entry.created_at in
      if ltb_ℤ age (pos hour)
      then decimal 15 2
      else if ltb_ℤ age (pos (hour * 24))
      then decimal 10 2
      else if ltb_ℤ age (pos (hour * 24 * 7))
      then decimal 5 2
      else if ltb_ℤ age (pos (hour * 24 * 30))
      then decimal 2 2
      else decimal 0 1

  unfoldable pub calculate_fusion_score :
      MemoryEntry fl → MemorySource → SearchRequest fl → (now : Instant) → F64
  unfolding weight_of calculate_type_weight calculate_recency_boost
  calculate_fusion_score entry source req now =
      add
        (add
          (mul (mul entry.relevance (weight_of source source_weights))
            (calculate_type_weight entry req))
          (calculate_recency_boost entry now))
        (mul entry.confidence (decimal 1 1))

  -- The loop of cosineSimilarity: (dot, normA, normB).
  dot_and_norms : F64 → F64 → F64 → List F32 → List F32 → F64 × F64 × F64
  dot_and_norms dot norm_a norm_b (x ∷ a) (y ∷ b) =
      dot_and_norms (add dot (mul (widen x) (widen y))) (add norm_a (mul (widen x) (widen x)))
        (add norm_b (mul (widen y) (widen y))) a b
  dot_and_norms dot norm_a norm_b _ _ = (dot, norm_a, norm_b)

  unfoldable pub cosine_similarity : List F32 → List F32 → F64
  unfolding dot_and_norms
  cosine_similarity a b =
      let zero = decimal 0 1 in
      let (dot, norm_a, norm_b) = dot_and_norms zero zero zero a b in
      if length a == 0 || length b == 0 || not (length a == length b)
      then zero
      else if eq norm_a zero || eq norm_b zero
      then zero
      else div dot (mul (sqrt norm_a) (sqrt norm_b))
