-- ===== src/Confidence.antt =====
-- pkg/features/confidence/scoring.go: the score of a memory and its provenance. Package math and the
-- conversion of a duration to hours are parameters. `age` is what time.Since gives.
pub mod Range
use helix_memory.Prelude.{
  ℕ, String, Bool, List, [], ◌∷◌, ◌++◌, Option, none, some, str_eq, if◌then◌else◌, ltb, ◌==◌,
}
use helix_memory.Prelude.Int.{ℤ, pos, leb_ℤ, ltb_ℤ}
use helix_memory.Runtime.{Floats, Runtime}
use helix_memory.Types.{MemoryEntry, Instant}
use helix_memory.Types.MemorySource
use helix_memory.Types.MemorySource.{MemorySource}

-- math.Exp, math.Log10, negation, and Duration.Hours.
pub record MathModule (fl : Floats) : Type 0 where
  pub exp : fl.F64 → fl.F64
  pub log10 : fl.F64 → fl.F64
  pub neg : fl.F64 → fl.F64
  pub hours : (duration : ℤ) → fl.F64

pub record ScoreWeights (fl : Floats) : Type 0 where
  pub source_reliability : fl.F64
  pub cross_validation : fl.F64
  pub recency_decay : fl.F64
  pub access_frequency : fl.F64
  pub content_coherence : fl.F64

abbrev pub default_weights : (fl : Floats) → ScoreWeights fl
default_weights fl = record {
  source_reliability = fl.decimal 30 2;
  cross_validation = fl.decimal 25 2;
  recency_decay = fl.decimal 20 2;
  access_frequency = fl.decimal 15 2;
  content_coherence = fl.decimal 10 2;
}

-- The weights of a new scorer, where the argument may be nil.
abbrev pub new_scorer : {fl : Floats} → Option (ScoreWeights fl) → ScoreWeights fl
new_scorer {fl} none = default_weights fl
new_scorer (some weights) = weights

module _ (fl : Floats) where
  abbrev pub zero_f : fl.F64
  zero_f = fl.decimal 0 1

  abbrev pub one_f : fl.F64
  one_f = fl.decimal 10 1

  unfoldable pub source_reliability_score : MemorySource → fl.F64
  source_reliability_score source =
      if str_eq source MemorySource.letta
      then fl.decimal 95 2
      else if str_eq source MemorySource.mem0
      then fl.decimal 85 2
      else if str_eq source MemorySource.graphiti
      then fl.decimal 85 2
      else if str_eq source MemorySource.cognee
      then fl.decimal 80 2
      else if str_eq source MemorySource.fusion
      then fl.decimal 90 2
      else fl.decimal 50 2

  unfoldable pub cross_validation_score : (validations : ℤ) → fl.F64
  cross_validation_score validations =
      if leb_ℤ validations (pos 0)
      then fl.decimal 3 1
      else if leb_ℤ (pos 3) validations
      then one_f
      else fl.add (fl.decimal 3 1) (fl.mul (fl.of_int validations) (fl.decimal 233 3))

  unfoldable pub recency_decay_score : MathModule fl → (age : ℤ) → fl.F64
  recency_decay_score math age =
      let since = math.hours age in
      let hours = if fl.lt since zero_f then zero_f else since in
      math.exp (fl.mul (math.neg (fl.decimal 413 5)) hours)

  unfoldable pub access_frequency_score : MathModule fl → (access_count : ℤ) → fl.F64
  access_frequency_score math access_count =
      let score =
        fl.div (math.log10 (fl.add (fl.of_int access_count) (fl.decimal 1 0))) (fl.decimal 30 1) in
      if leb_ℤ access_count (pos 0)
      then fl.decimal 1 1
      else if fl.lt one_f score
      then one_f
      else score

  unfoldable pub content_coherence_score : Runtime → String → fl.F64
  content_coherence_score rt content =
      if rt.len content == 0
      then zero_f
      else if ltb (rt.len content) 10
      then fl.decimal 3 1
      else if ltb 5000 (rt.len content)
      then fl.decimal 7 1
      else fl.decimal 8 1

  -- The two tests at the end of Score.
  unfoldable pub clamp : fl.F64 → fl.F64
  clamp score =
      let low = if fl.lt one_f score then one_f else score in
      if fl.lt low zero_f then zero_f else low

  unfoldable pub weighted_sum :
      Runtime
      → MathModule fl
      → ScoreWeights fl
      → (age : ℤ) → MemoryEntry fl
      → (cross_validations : ℤ) → fl.F64
  unfolding source_reliability_score cross_validation_score recency_decay_score
      access_frequency_score content_coherence_score
  weighted_sum rt math weights age entry cross_validations =
      fl.add
        (fl.add
          (fl.add
            (fl.add (fl.mul (source_reliability_score entry.source) weights.source_reliability)
              (fl.mul (cross_validation_score cross_validations) weights.cross_validation))
            (fl.mul (recency_decay_score math age) weights.recency_decay))
          (fl.mul (access_frequency_score math entry.access_count) weights.access_frequency))
        (fl.mul (content_coherence_score rt entry.content) weights.content_coherence)

  unfoldable pub score :
      Runtime
      → MathModule fl
      → ScoreWeights fl
      → (age : ℤ) → MemoryEntry fl
      → (cross_validations : ℤ) → fl.F64
  unfolding weighted_sum clamp
  score rt math weights age entry cross_validations =
      clamp (weighted_sum rt math weights age entry cross_validations)

pub record Transformation : Type 0 where
  pub type : String
  pub timestamp : Instant
  pub details : String

pub record Provenance : Type 0 where
  pub original_source : MemorySource
  pub original_id : String
  pub created_at : Instant
  pub transformations : List Transformation

unfoldable pub new_provenance : {fl : Floats} → MemoryEntry fl → Provenance
new_provenance entry = record {
  original_source = entry.source;
  original_id = entry.id;
  created_at = entry.created_at;
  transformations = [];
}

unfoldable pub add_transformation :
    (now : Instant) → Provenance → (type details : String) → Provenance
add_transformation now p type details = record p {
  transformations =
      p.transformations ++ record { type = type; timestamp = now; details = details } ∷ [];
}
