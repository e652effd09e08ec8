-- ===== src/Samples/Windows.antt =====
-- A context window with room for some of the memories found.
use helix_memory.Prelude.{true, ◌+◌, ◌≡◌, List, [], ◌∷◌, String, length}
use helix_memory.Prelude.Int.{pos}
use helix_memory.ContextWindow.{ContextWindow, available, sorted_blocks, managed_of}
use helix_memory.ContextWindow.Packing.{IsPacking, managed_of-IsPacking}
use helix_memory.Samples.World.{plain, plain-IsGo, thousandths-IsFloatOrder}
use helix_memory.Samples.Data.{tea, cocoa}
use helix_memory.Samples.Engines.{counting}

-- A word for each text.
abbrev one_word : String → List String
one_word s = s ∷ []

abbrev narrow : ContextWindow counting
narrow = record { provider = (true, 0); max_tokens = pos 2001; reserved = pos 2000 }

managed_of-IsPacking_example :
    IsPacking
      (available narrow)
      (sorted_blocks plain one_word (tea ∷ cocoa ∷ []))
      (managed_of plain one_word narrow (tea ∷ cocoa ∷ []))
    × (length (managed_of plain one_word narrow (tea ∷ cocoa ∷ [])).blocks
          + (managed_of plain one_word narrow (tea ∷ cocoa ∷ [])).dropped
        ≡ length (tea ∷ cocoa ∷ []))
managed_of-IsPacking_example =
    managed_of-IsPacking plain plain-IsGo thousandths-IsFloatOrder one_word (tea ∷ cocoa ∷ [])
      narrow
