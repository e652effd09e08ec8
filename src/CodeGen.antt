-- ===== src/CodeGen.antt =====
-- pkg/features/code_gen/codegen.go: the context of a task, and the prompt that is made of it. A search
-- that fails leaves its part empty; a provider that returns neither a result nor an error makes
-- GetCodeContext panic, which is `none`.
pub mod Total
use helix_memory.Prelude.{
  ℕ, String, str_append, Bool, List, [], ◌∷◌, ◌++◌, map, Option, none, some, length, ltb, leb,
  if◌then◌else◌,
}
use helix_memory.Runtime.{Floats, Runtime}
use helix_memory.Types.{MemoryEntry}
use helix_memory.Types.MemoryType
use helix_memory.Types.Provider.{MemoryProvider}
use helix_memory.DebateMemory.{request_of, search_optional, concat}

pub record CodeContext (fl : Floats) : Type 0 where
  pub patterns : List (MemoryEntry fl)
  pub conventions : List (MemoryEntry fl)
  pub examples : List (MemoryEntry fl)
  pub related : List (MemoryEntry fl)
  pub prompt : String

unfoldable pub truncate : Runtime → String → (max_len : ℕ) → String
truncate rt s max_len = if leb (rt.len s) max_len then s else str_append (rt.prefix s max_len) "..."

module _ {fl : Floats} (rt : Runtime) where
  unfoldable pub item_line : (max_len : ℕ) → MemoryEntry fl → String
  unfolding truncate
  item_line max_len e = concat ("- " ∷ truncate rt e.content max_len ∷ "\n" ∷ [])

  -- The lines of a section; none for no memories.
  section_of :
      (heading : String) → (max_len : ℕ) → List (MemoryEntry fl) → (end : List String) → List String
  unfolding item_line
  section_of heading max_len [] end = []
  section_of heading max_len (e ∷ es) end = heading ∷ map (item_line max_len) (e ∷ es) ++ end

  unfoldable pub prompt_pieces :
      (task language project : String)
      → (patterns conventions examples : List (MemoryEntry fl)) → List String
  unfolding section_of
  prompt_pieces task language project patterns conventions examples =
      concat ("Task: " ∷ task ∷ "\nLanguage: " ∷ language ∷ "\nProject: " ∷ project ∷ "\n\n" ∷ [])
        ∷ section_of "Known Patterns:\n" 200 patterns ("\n" ∷ [])
      ++ section_of "Conventions:\n" 200 conventions ("\n" ∷ [])
      ++ section_of "Related Examples:\n" 300 examples []

  unfoldable pub build_prompt :
      (task language project : String)
      → (patterns conventions examples : List (MemoryEntry fl)) → String
  unfolding prompt_pieces
  build_prompt task language project patterns conventions examples =
      concat (prompt_pieces task language project patterns conventions examples)

module _ {fl : Floats} (mp : MemoryProvider fl) (rt : Runtime) where
  with_examples :
      (task language project : String)
      → (patterns conventions : List (MemoryEntry fl)) → Option (mp.State × List (MemoryEntry fl))
      → Option (mp.State × CodeContext fl)
  unfolding build_prompt
  with_examples task language project patterns conventions none = none
  with_examples task language project patterns conventions (some (s, examples)) = some (
    s,
    record {
      patterns = patterns;
      conventions = conventions;
      examples = examples;
      related = [];
      prompt = build_prompt rt task language project patterns conventions examples;
    },
  )

  with_conventions :
      (task language project : String)
      → (patterns : List (MemoryEntry fl)) → Option (mp.State × List (MemoryEntry fl))
      → Option (mp.State × CodeContext fl)
  unfolding with_examples search_optional request_of
  with_conventions task language project patterns none = none
  with_conventions task language project patterns (some (s, conventions)) =
      with_examples task language project patterns conventions
        (search_optional mp (request_of mp task 5 []) s)

  with_patterns :
      (task language project : String)
      → Option (mp.State × List (MemoryEntry fl))
      → Option (mp.State × CodeContext fl)
  unfolding with_conventions search_optional request_of
  with_patterns task language project none = none
  with_patterns task language project (some (s, patterns)) =
      with_conventions task language project patterns (
        search_optional mp
          (request_of mp (concat ("convention style " ∷ language ∷ " " ∷ project ∷ [])) 10 []) s)

  -- The error is always nil.
  unfoldable pub get_code_context :
      mp.State → (task language project : String) → Option (mp.State × CodeContext fl)
  unfolding with_patterns search_optional request_of
  get_code_context s task language project = with_patterns task language project (
      search_optional mp
        (request_of mp (concat ("pattern " ∷ language ∷ " " ∷ project ∷ [])) 10
          (MemoryType.procedural ∷ []))
        s)
