-- ===== src/CodeGen/Total.antt =====
-- GetCodeContext gives a context whatever the searches do.
use helix_memory.Prelude.{◌≡◌, refl, String, List, Option, none, some}
use helix_memory.Runtime.{Floats, Runtime}
use helix_memory.Types.{MemoryEntry}
use helix_memory.Types.Provider.{MemoryProvider}
use helix_memory.DebateMemory.Retrieval.{Answers, Found, search_optional-Found}
use helix_memory.CodeGen.{
  CodeContext, build_prompt, with_examples, with_conventions, with_patterns, get_code_context,
}

module _ {fl : Floats} (mp : MemoryProvider fl) (answers : Answers mp) (rt : Runtime)
    (task language project : String) where
  -- A context whose prompt is made of its parts.
  abbrev pub IsPrompted : Option (mp.State × CodeContext fl) → Type 0
  IsPrompted o =
      (s : mp.State) × (c : CodeContext fl) × (o ≡ some (s, c))
      × (c.prompt ≡ build_prompt rt task language project c.patterns c.conventions c.examples)

  with_examples-IsPrompted :
      (ps cs : List (MemoryEntry fl)) (o : Option (mp.State × List (MemoryEntry fl)))
      → Found mp o
      → IsPrompted (with_examples mp rt task language project ps cs o)
  unfolding with_examples
  with_examples-IsPrompted ps cs none h = absurd (cc h.1)
  with_examples-IsPrompted ps cs (some (s, es)) h = (s, _, refl, refl)

  with_conventions-IsPrompted :
      (ps : List (MemoryEntry fl)) (o : Option (mp.State × List (MemoryEntry fl)))
      → Found mp o
      → IsPrompted (with_conventions mp rt task language project ps o)
  unfolding with_conventions
  with_conventions-IsPrompted ps none h = absurd (cc h.1)
  with_conventions-IsPrompted ps (some (s, cs)) h =
      with_examples-IsPrompted ps cs _ (search_optional-Found mp answers _ s)

  with_patterns-IsPrompted :
      (o : Option (mp.State × List (MemoryEntry fl)))
      → Found mp o
      → IsPrompted (with_patterns mp rt task language project o)
  unfolding with_patterns
  with_patterns-IsPrompted none h = absurd (cc h.1)
  with_patterns-IsPrompted (some (s, ps)) h =
      with_conventions-IsPrompted ps _ (search_optional-Found mp answers _ s)

  -- Where every search of the provider gives a result or an error, GetCodeContext gives a context,
  -- whichever of its searches fail, with the prompt that is built of the memories in it.
  pub get_code_context-IsPrompted :
      (s : mp.State) → IsPrompted (get_code_context mp rt s task language project)
  unfolding get_code_context
  get_code_context-IsPrompted s = with_patterns-IsPrompted _ (search_optional-Found mp answers _ s)
