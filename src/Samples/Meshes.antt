-- ===== src/Samples/Meshes.antt =====
-- A mesh with one agent, over a system that answers with all that it holds.
use helix_memory.Prelude.{
  ◌≡◌, refl, true, List, [], ◌∷◌, map, none, some, str_eq, lookup, All, keep, length, if◌then◌else◌,
}
use helix_memory.Prelude.Int.{pos}
use helix_memory.Types.{MemoryEntry, text}
use helix_memory.Types.Provider.{MemoryProvider, ok, operate_all}
use helix_memory.Mesh.{
  AgentInfo, Mesh, is_visible, handed_over, left_behind, search_mesh_memories, hand_over_all,
  share_memory,
}
use helix_memory.Mesh.Visibility.{
  Post, has_map, allowed, shared, stored_copies, search_mesh_memories-allowed,
  hand_over_all_takes_away,
}
use helix_memory.Samples.World.{thousandths}
use helix_memory.Samples.Data.{tea, cocoa, result}

abbrev pub answering : MemoryProvider thousandths
answering = record {
  State = List (MemoryEntry thousandths);
  add = λ s e. (e ∷ s, none);
  search = λ s r. (s, ok (some (result s)));
  get = λ s id. (s, ok none);
  update = λ s e. (s, none);
  delete = λ s id. (s, none);
  get_history = λ s u n. (s, ok s);
  health = λ s. (s, none);
}

abbrev ann : AgentInfo
ann = record { id = "ann"; name = "Ann"; role = "coder"; joined_at = 0; team = "red" }

-- An entry that its owner keeps private.
abbrev secret : MemoryEntry thousandths
secret = record tea {
  metadata = some (("mesh_scope", text "private") ∷ ("mesh_owner", text "ann") ∷ []);
}

abbrev meeting : Mesh answering
meeting = record { agents = ("ann", ann) ∷ []; provider = secret ∷ [] }

abbrev ben : AgentInfo
ben = record { id = "ben"; name = "Ben"; role = "tester"; joined_at = 0; team = "red" }

-- Ann shares a private memory, and one with her team.
abbrev posts : List (Post thousandths)
posts =
    record { owner = "ann"; agent = ann; scope = "private"; entry = tea }
    ∷ record { owner = "ann"; agent = ann; scope = "team"; entry = cocoa }
    ∷ []

abbrev empty_mesh : Mesh answering
empty_mesh = record { agents = ("ann", ann) ∷ ("ben", ben) ∷ []; provider = [] }

abbrev posted : Mesh answering
posted = record empty_mesh { provider = map (shared empty_mesh) posts }

search_mesh_memories-allowed_example :
    search_mesh_memories posted "ben" "tea" (pos 5)
    ≡ some (posted, ok (map (shared posted) (keep (allowed "ben" "red") posts)))
unfolding lookup share_memory
search_mesh_memories-allowed_example =
    search_mesh_memories-allowed posted "ben" ben "tea" (pos 5) posted.provider
      (result posted.provider) posts refl (refl, (refl, tt)) refl refl

ben_sees_one : length (keep (allowed "ben" "red") posts) ≡ 1
ben_sees_one = refl

hand_over_all_takes_away_example :
    ((hand_over_all meeting "ann" "bob" (secret ∷ [])).0.provider
      ≡ operate_all answering (secret ∷ []) (stored_copies answering "ann" "bob" (secret ∷ [])))
    × ((hand_over_all meeting "ann" "bob" (secret ∷ [])).2
        ≡ map (left_behind "ann" "bob") (secret ∷ []))
    × All
        (λ e.
          (is_visible (handed_over "ann" "bob" e) "ann" "red" ≡ str_eq "bob" "ann")
          × (is_visible (left_behind "ann" "bob" e) "ann" "red"
              ≡ (if has_map e.metadata then str_eq "bob" "ann" else true)))
        (secret ∷ [])
hand_over_all_takes_away_example =
    hand_over_all_takes_away meeting "ann" "bob" (secret ∷ []) "ann" "red"
