-- ===== src/Mesh/Visibility.antt =====
-- Who sees a memory of the mesh.
use helix_memory.Prelude.{
  ◌≡◌, refl, ◌∙◌, String, Bool, true, false, List, [], ◌∷◌, map, ap, Option, none, some, Dict,
  lookup, insert, lookup-insert, str_eq, if◌then◌else◌, All, keep, Bool-cases, inl, inr,
}
use helix_memory.Prelude.Int.{ℤ}
use helix_memory.Runtime.{Floats}
use helix_memory.Types.{
  MemoryEntry, SearchRequest, SearchResult, Value, text, default_search_request,
}
use helix_memory.Types.Provider.{MemoryProvider, ok, Operation, adds, operate, operate_all}
use helix_memory.Mesh.{
  MeshScope, scope_private, scope_team, AgentInfo, Mesh, made_map, is_visible, shared_by,
  transfer_marks, handed_over, left_behind, search_mesh_memories, search_as, visible_of,
  share_memory, hand_over_all,
}

-- The request of a search in the mesh.
abbrev pub mesh_request : (fl : Floats) (agent_id query : String) → (top_k : ℤ) → SearchRequest fl
mesh_request fl agent_id query top_k = record (default_search_request fl query) {
  agent_id = agent_id;
  top_k = top_k;
}

-- Who may see a memory that an agent shares: the agent, its team, or everyone.
abbrev pub may_see : MeshScope → (owner owner_team agent_id team : String) → Bool
may_see scope owner owner_team agent_id team =
    if str_eq scope scope_private
    then str_eq owner agent_id
    else if str_eq scope scope_team
    then str_eq owner_team team
    else true

abbrev pub has_map : {A : Type 0} → Option A → Bool
has_map none = false
has_map (some m) = true

-- A memory before it is shared: the agent that shares it, as registered, the scope and the entry.
pub record Post (fl : Floats) : Type 0 where
  pub owner : String
  pub agent : AgentInfo
  pub scope : MeshScope
  pub entry : MemoryEntry fl

abbrev pub allowed : {fl : Floats} → (agent_id team : String) → Post fl → Bool
allowed agent_id team p = may_see p.scope p.owner p.agent.team agent_id team

module _ {fl : Floats} where
  -- The scope, the owner and the team stand under their keys.
  abbrev HasMarks : Dict (Value fl) → (scope owner team : String) → Type 0
  HasMarks m scope owner team =
      (lookup "mesh_scope" m ≡ some (text scope))
      × (lookup "mesh_owner" m ≡ some (text owner))
      × (lookup "mesh_team" m ≡ some (text team))

  shared_marks :
      (scope owner team : String) (m : Dict (Value fl))
      → let scoped = insert "mesh_scope" (text scope) m in
        let owned = insert "mesh_owner" (text owner) scoped in
        HasMarks (insert "mesh_team" (text team) owned) scope owner team
  shared_marks scope owner team m =
      let scoped = insert "mesh_scope" (text scope) m in
      let owned = insert "mesh_owner" (text owner) scoped in
      (
        lookup-insert "mesh_team" "mesh_scope" (text team) owned
            ∙ lookup-insert "mesh_owner" "mesh_scope" (text owner) scoped
            ∙ lookup-insert "mesh_scope" "mesh_scope" (text scope) m,
        lookup-insert "mesh_team" "mesh_owner" (text team) owned
            ∙ lookup-insert "mesh_owner" "mesh_owner" (text owner) scoped,
        lookup-insert "mesh_team" "mesh_team" (text team) owned,
      )

  is_visible-shared_by :
      (agent : AgentInfo) (owner : String) (scope : MeshScope) (entry : MemoryEntry fl)
      (agent_id team : String)
      → is_visible (shared_by agent owner scope entry) agent_id team
        ≡ may_see scope owner agent.team agent_id team
  unfolding is_visible shared_by
  is_visible-shared_by agent owner scope entry agent_id team =
      let (s, o, t) = shared_marks scope owner agent.team (made_map entry.metadata) in
      rw s (rw o (rw t refl))

  -- A private mark with a new owner hides the entry from all others.
  marked_private :
      (from to agent_id team : String) (m : Dict (Value fl)) (entry : MemoryEntry fl)
      → made_map entry.metadata ≡ transfer_marks from to m
      → is_visible entry agent_id team ≡ str_eq to agent_id
  unfolding is_visible transfer_marks
  marked_private from to agent_id team m entry h =
      let moved = insert "mesh_transferred_from" (text from) m in
      let hidden = insert "mesh_scope" (text scope_private) moved in
      let scope =
        lookup-insert "mesh_owner" "mesh_scope" (text to) hidden
        ∙ lookup-insert "mesh_scope" "mesh_scope" (text scope_private) moved in
      let owner = lookup-insert "mesh_owner" "mesh_owner" (text to) hidden in
      rw h (rw scope (rw owner refl))

  unmarked_visible :
      (agent_id team : String) (entry : MemoryEntry fl)
      → entry.metadata ≡ none
      → is_visible entry agent_id team ≡ true
  unfolding is_visible
  unmarked_visible agent_id team entry h = rw h refl

  is_visible-left_behind :
      (from to agent_id team : String) (entry : MemoryEntry fl)
      (metadata : Option (Dict (Value fl)))
      → entry.metadata ≡ metadata
      → is_visible (left_behind from to entry) agent_id team
        ≡ (if has_map metadata then str_eq to agent_id else true)
  unfolding left_behind
  is_visible-left_behind from to agent_id team entry none h =
      unmarked_visible agent_id team (left_behind from to entry) (rw h refl)
  is_visible-left_behind from to agent_id team entry (some m) h =
      marked_private from to agent_id team m (left_behind from to entry) (rw h refl)

module _ {fl : Floats} {mp : MemoryProvider fl} (m : Mesh mp) where
  -- A memory that a registered agent shares is seen by those that the scope allows: the agent, its
  -- team, or everyone, whatever metadata the entry had.
  pub share_memory-is_visible :
      (owner : String) (agent : AgentInfo) (entry : MemoryEntry fl) (scope : MeshScope)
      (agent_id team : String)
      → lookup owner m.agents ≡ some agent
      → is_visible (share_memory m owner entry scope).1 agent_id team
        ≡ may_see scope owner agent.team agent_id team
  unfolding share_memory
  share_memory-is_visible owner agent entry scope agent_id team registered =
      rw registered (is_visible-shared_by agent owner scope entry agent_id team)

  -- What ShareMemory makes of a post, which is what it stores.
  abbrev pub shared : Post fl → MemoryEntry fl
  shared p = (share_memory m p.owner p.entry p.scope).1

  visible-allowed :
      (agent_id team : String) (posts : List (Post fl))
      → All (λ p. lookup p.owner m.agents ≡ some p.agent) posts
      → keep (λ e. is_visible e agent_id team) (map shared posts)
        ≡ map shared (keep (allowed agent_id team) posts)
  visible-allowed agent_id team [] h = refl
  visible-allowed agent_id team (p ∷ ps) (registered, h) =
      let seen = share_memory-is_visible p.owner p.agent p.entry p.scope agent_id team registered in
      let rest = visible-allowed agent_id team ps h in
      rw seen (elim (Bool-cases (allowed agent_id team p)) [
        | inl e ↦ rw e (ap (λ es. shared p ∷ es) rest)
        | inr e ↦ rw e rest
      ])

  -- If the provider finds memories that registered agents have shared, then the search of a
  -- registered agent returns exactly those that the scopes allow, in the order in which they were
  -- found: its own where the scope is private, those of its team, and all that are for everyone.
  pub search_mesh_memories-allowed :
      (agent_id : String) (agent : AgentInfo) (query : String) (top_k : ℤ) (s : mp.State)
      (result : SearchResult fl) (posts : List (Post fl))
      → lookup agent_id m.agents ≡ some agent
      → All (λ p. lookup p.owner m.agents ≡ some p.agent) posts
      → mp.search m.provider (mesh_request fl agent_id query top_k) ≡ (s, ok (some result))
      → result.entries ≡ map shared posts
      → search_mesh_memories m agent_id query top_k
        ≡ some
            (record m { provider = s }, ok (map shared (keep (allowed agent_id agent.team) posts)))
  unfolding search_mesh_memories search_as visible_of
  search_mesh_memories-allowed agent_id agent query top_k s result posts registered owners found
        entries =
      rw registered (
        rw found (
          rw entries (
            ap (λ es. some (record m { provider = s }, ok es))
              (visible-allowed agent_id agent.team posts owners))))

-- The copies, added to the provider in order.
abbrev pub stored_copies :
    {fl : Floats} (mp : MemoryProvider fl) (from to : String)
    → List (MemoryEntry fl)
    → List (Operation fl)
stored_copies mp from to entries = map (λ e. adds (handed_over from to e)) entries

-- A transfer goes through all entries that it is given. It calls Add of the provider with one copy of
-- each, in order, and nothing else; each copy is visible to the receiver only; and so is, from then
-- on, the entry that was found, if it has metadata. An entry without metadata stays visible to everyone.
pub hand_over_all_takes_away :
    {fl : Floats} {mp : MemoryProvider fl} (m : Mesh mp) (from to : String)
    (entries : List (MemoryEntry fl)) (agent_id team : String)
    → ((hand_over_all m from to entries).0.provider
        ≡ operate_all mp m.provider (stored_copies mp from to entries))
      × ((hand_over_all m from to entries).2 ≡ map (left_behind from to) entries)
      × All
          (λ e.
            (is_visible (handed_over from to e) agent_id team ≡ str_eq to agent_id)
            × (is_visible (left_behind from to e) agent_id team
                ≡ (if has_map e.metadata then str_eq to agent_id else true)))
          entries
unfolding hand_over_all handed_over operate_all operate
hand_over_all_takes_away {mp} m from to [] agent_id team = (refl, refl, tt)
hand_over_all_takes_away {mp} m from to (e ∷ es) agent_id team =
    let m' = record m { provider = (mp.add m.provider (handed_over from to e)).0 } in
    let (stored, left, hidden) = hand_over_all_takes_away {mp = mp} m' from to es agent_id team in
    (
      stored,
      ap (λ r. left_behind from to e ∷ r) left,
      (
        (
          marked_private from to agent_id team (made_map e.metadata) (handed_over from to e) refl,
          is_visible-left_behind from to agent_id team e e.metadata refl,
        ),
        hidden,
      ),
    )
