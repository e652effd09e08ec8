-- ===== src/CodebaseDna/Detect.antt =====
-- The detectors of pkg/features/codebase_dna/dna.go.
use helix_memory.Prelude.{
  ℕ, String, str_append, str_eq, Bool, not, ◌&&◌, ◌||◌, List, [], ◌∷◌, ◌++◌, if◌then◌else◌, ltb,
  leb, length,
}
use helix_memory.Prelude.Int.{pos}
use helix_memory.Runtime.{Floats, Runtime}
use helix_memory.I18n.{Translator, bundle_prefix}

-- strings.Count(s, substr), and strings.Split at the ends of lines.
pub record CodeTexts : Type 0 where
  pub occurrences : (s substr : String) → ℕ
  pub lines : String → List String

pub record Pattern (fl : Floats) : Type 0 where
  pub name : String
  pub description : String
  pub frequency : ℕ
  pub confidence : fl.F64
  pub examples : List String

pub record Preference : Type 0 where
  pub category : String
  pub key : String
  pub value : String

pub record Convention : Type 0 where
  pub rule : String
  pub scope : String
  pub enforcement : String

unfoldable pub dna_text : {fl : Floats} → Translator fl → (key : String) → String
dna_text words key = words.translate "" (str_append bundle_prefix key) []

abbrev pub when {ℓ} : {A : Type ℓ} → Bool → A → List A
when b a = if b then a ∷ [] else []

abbrev pub is_go : (language : String) → Bool
is_go language = str_eq language "go" || str_eq language "golang"

module _ {fl : Floats} (rt : Runtime) (tx : CodeTexts) (words : Translator fl) (code : String) where
  pattern_named : (name key : String) → (frequency : ℕ) → (confidence : fl.F64) → Pattern fl
  unfolding dna_text
  pattern_named name key frequency confidence = record {
    name = name;
    description = dna_text words key;
    frequency = frequency;
    confidence = confidence;
    examples = [];
  }

  unfoldable pub go_patterns : List (Pattern fl)
  unfolding pattern_named
  go_patterns =
      when (rt.contains code "interface {" || rt.contains code "interface{") (
        pattern_named "interface_abstraction" "dna_pattern_interface_abstraction"
          (tx.occurrences code "interface") (fl.decimal 9 1))
      ++ when (rt.contains code "func Test") (
          pattern_named "table_driven_tests" "dna_pattern_table_driven_tests"
            (tx.occurrences code "func Test") (fl.decimal 85 2))
      ++ when (rt.contains code "context.Context") (
          pattern_named "context_propagation" "dna_pattern_context_propagation"
            (tx.occurrences code "context.Context") (fl.decimal 95 2))
      ++ when (rt.contains code "sync.Mutex" || rt.contains code "sync.RWMutex") (
          pattern_named "mutex_concurrency" "dna_pattern_mutex_concurrency"
            (tx.occurrences code "sync.") (fl.decimal 9 1))
      ++ when (rt.contains code "fmt.Errorf" && rt.contains code "%w") (
          pattern_named "error_wrapping" "dna_pattern_error_wrapping" (tx.occurrences code "%w")
            (fl.decimal 9 1))

  unfoldable pub python_patterns : List (Pattern fl)
  unfolding pattern_named
  python_patterns = when (rt.contains code "class " && rt.contains code "ABC") (
      pattern_named "abstract_base_classes" "dna_pattern_abstract_base_classes" 1 (fl.decimal 85 2))

  unfoldable pub detect_patterns : (language : String) → List (Pattern fl)
  unfolding go_patterns python_patterns
  detect_patterns language =
      if is_go language
      then go_patterns
      else if str_eq language "python"
      then python_patterns
      else []

  -- The longest line, as the loop finds it.
  unfoldable pub max_line_len : List String → ℕ → ℕ
  max_line_len [] longest = longest
  max_line_len (line ∷ rest) longest =
      max_line_len rest (if ltb longest (rt.len line) then rt.len line else longest)

  unfoldable pub detect_conventions : List Convention
  unfolding max_line_len dna_text
  detect_conventions = when (leb (max_line_len (tx.lines code) 0) 100) (record {
    rule = dna_text words "dna_convention_line_length";
    scope = "file";
    enforcement = "recommended";
  })

unfoldable pub detect_preferences : Runtime → (code language : String) → List Preference
detect_preferences rt code language =
    let prefs =
      when (rt.contains code "testify")
        (record { category = "testing"; key = "test_framework"; value = "testify" })
      ++ when (rt.contains code "camelCase" || not (rt.contains code "snake_case"))
          (record { category = "naming"; key = "convention"; value = "camelCase" }) in
    if is_go language then prefs else []

unfoldable pub calculate_confidence :
    (fl : Floats) → CodeTexts → (code : String) → List (Pattern fl) → fl.F64
calculate_confidence fl tx code patterns =
    let one = fl.decimal 10 1 in
    let lines = fl.div (fl.of_int (pos (tx.occurrences code "\n"))) (fl.decimal 10000 1) in
    let line_score = if fl.lt one lines then one else lines in
    let found = fl.div (fl.of_int (pos (length patterns))) (fl.decimal 100 1) in
    let pattern_score = if fl.lt one found then one else found in
    fl.add (fl.mul line_score (fl.decimal 4 1)) (fl.mul pattern_score (fl.decimal 6 1))
