-- ===== src/Mesh.antt =====
-- pkg/features/mesh/mesh.go: memories that agents share, with a scope. A provider that returns
-- neither a result nor an error makes the search panic, which is `none`. The entries that a transfer
-- found come back, since it writes to their metadata: the copy that it stores shares the map.
pub mod Visibility
use helix_memory.Prelude.{
  ℕ, suc, String, Bool, true, false, List, [], ◌∷◌, Option, none, some, Dict, lookup, insert,
  remove, str_eq, if◌then◌else◌, keep, map,
}
use helix_memory.Prelude.Int.{ℤ}
use helix_memory.Runtime.{Floats, Runtime}
use helix_memory.Types.{
  MemoryEntry, SearchRequest, SearchResult, Instant, Value, text, default_search_request,
}
use helix_memory.Types.Provider.{MemoryProvider, Error, Result, ok, err, succeeded}

abbrev pub MeshScope : Type 0
MeshScope = String

abbrev pub scope_private : MeshScope
scope_private = "private"

abbrev pub scope_team : MeshScope
scope_team = "team"

abbrev pub scope_global : MeshScope
scope_global = "global"

pub record AgentInfo : Type 0 where
  pub id : String
  pub name : String
  pub role : String
  pub joined_at : Instant
  pub team : String

pub record Mesh {fl : Floats} (mp : MemoryProvider fl) : Type 0 where
  pub agents : Dict AgentInfo
  pub provider : mp.State

abbrev pub made_map : {A : Type 0} → Option (Dict A) → Dict A
made_map none = []
made_map (some m) = m

-- `s, _ := v.(string)`
abbrev pub text_of : {fl : Floats} → Option (Value fl) → String
text_of (some (text s)) = s
text_of v = ""

module _ {fl : Floats} where
  unfoldable pub is_visible : MemoryEntry fl → (agent_id team : String) → Bool
  unfolding lookup
  is_visible entry agent_id team =
      let m = made_map entry.metadata in
      let scope = text_of (lookup "mesh_scope" m) in
      let owner = text_of (lookup "mesh_owner" m) in
      let entry_team = text_of (lookup "mesh_team" m) in
      if str_eq scope scope_private
      then str_eq owner agent_id
      else if str_eq scope scope_team
      then str_eq entry_team team
      else true

  -- The writes of ShareMemory.
  unfoldable pub shared_by :
      AgentInfo → (agent_id : String) → MeshScope → MemoryEntry fl → MemoryEntry fl
  unfolding insert
  shared_by agent agent_id scope entry =
      let scoped = insert "mesh_scope" (text scope) (made_map entry.metadata) in
      let owned = insert "mesh_owner" (text agent_id) scoped in
      record entry {
        metadata = some (insert "mesh_team" (text agent.team) owned);
        agent_id = agent_id;
      }

  -- The writes of TransferKnowledge to a metadata map.
  unfoldable pub transfer_marks : (from to : String) → Dict (Value fl) → Dict (Value fl)
  unfolding insert
  transfer_marks from to m =
      insert "mesh_owner" (text to)
        (insert "mesh_scope" (text scope_private) (insert "mesh_transferred_from" (text from) m))

  unfoldable pub handed_over : (from to : String) → MemoryEntry fl → MemoryEntry fl
  unfolding transfer_marks
  handed_over from to entry = record entry {
    agent_id = to;
    metadata = some (transfer_marks from to (made_map entry.metadata));
  }

  marks_in_place : (from to : String) → Option (Dict (Value fl)) → Option (Dict (Value fl))
  unfolding transfer_marks
  marks_in_place from to none = none
  marks_in_place from to (some m) = some (transfer_marks from to m)

  -- The entry that was found, after the writes to the map that its copy shares.
  unfoldable pub left_behind : (from to : String) → MemoryEntry fl → MemoryEntry fl
  unfolding marks_in_place
  left_behind from to entry = record entry { metadata = marks_in_place from to entry.metadata }

module _ {fl : Floats} {mp : MemoryProvider fl} where
  unfoldable pub register_agent : Mesh mp → AgentInfo → (now : Instant) → Mesh mp
  unfolding insert
  register_agent m agent now = record m {
    agents = insert agent.id (record agent { joined_at = now }) m.agents;
  }

  unfoldable pub unregister_agent : Mesh mp → String → Mesh mp
  unfolding remove
  unregister_agent m agent_id = record m { agents = remove agent_id m.agents }

  abbrev pub get_agents : Runtime → Mesh mp → List AgentInfo
  get_agents rt m = map (λ a. a.1) (rt.range_order (String × AgentInfo) m.agents)

  share_as :
      Mesh mp
      → (agent_id : String) → MemoryEntry fl
      → MeshScope
      → Option AgentInfo
      → Mesh mp × MemoryEntry fl × Option Error
  unfolding shared_by
  share_as m agent_id entry scope none = (m, entry, some "agent not registered")
  share_as m agent_id entry scope (some agent) =
      let shared = shared_by agent agent_id scope entry in
      let (s, error) = mp.add m.provider shared in (record m { provider = s }, shared, error)

  -- The entry comes back with what is written to it.
  unfoldable pub share_memory :
      Mesh mp
      → (agent_id : String) → MemoryEntry fl
      → MeshScope
      → Mesh mp × MemoryEntry fl × Option Error
  unfolding share_as lookup
  share_memory m agent_id entry scope = share_as m agent_id entry scope (lookup agent_id m.agents)

  visible_of :
      Mesh mp
      → (agent_id team : String) → Result (Option (SearchResult fl))
      → Option (Mesh mp × Result (List (MemoryEntry fl)))
  unfolding is_visible
  visible_of m agent_id team (err e) = some (m, err "search failed")
  visible_of m agent_id team (ok none) = none
  visible_of m agent_id team (ok (some result)) =
      some (m, ok (keep (λ e. is_visible e agent_id team) result.entries))

  search_as :
      Mesh mp
      → SearchRequest fl
      → (agent_id : String) → Option AgentInfo
      → Option (Mesh mp × Result (List (MemoryEntry fl)))
  unfolding visible_of
  search_as m req agent_id none = some (m, err "agent not registered")
  search_as m req agent_id (some agent) =
      let (s, answer) = mp.search m.provider req in
      visible_of (record m { provider = s }) agent_id agent.team answer

  unfoldable pub search_mesh_memories :
      Mesh mp
      → (agent_id query : String) → (top_k : ℤ) → Option (Mesh mp × Result (List (MemoryEntry fl)))
  unfolding search_as lookup
  search_mesh_memories m agent_id query top_k =
      let req = record (default_search_request fl query) { agent_id = agent_id; top_k = top_k } in
      search_as m req agent_id (lookup agent_id m.agents)

  -- The loop of TransferKnowledge: the mesh, the number of entries stored, and the entries found.
  unfoldable pub hand_over_all :
      Mesh mp → (from to : String) → List (MemoryEntry fl) → Mesh mp × ℕ × List (MemoryEntry fl)
  unfolding handed_over left_behind
  hand_over_all m from to [] = (m, 0, [])
  hand_over_all m from to (e ∷ es) =
      let (s, error) = mp.add m.provider (handed_over from to e) in
      let (m', transferred, left) = hand_over_all (record m { provider = s }) from to es in
      (m', if succeeded error then suc transferred else transferred, left_behind from to e ∷ left)

  hand_over :
      (from to : String)
      → Option (Mesh mp × Result (List (MemoryEntry fl)))
      → Option (Mesh mp × Result (ℕ × List (MemoryEntry fl)))
  unfolding hand_over_all
  hand_over from to none = none
  hand_over from to (some (m, err e)) = some (m, err "transfer search")
  hand_over from to (some (m, ok entries)) =
      let (m', transferred, left) = hand_over_all m from to entries in
      some (m', ok (transferred, left))

  unfoldable pub transfer_knowledge :
      Mesh mp
      → (from to query : String) → (top_k : ℤ)
      → Option (Mesh mp × Result (ℕ × List (MemoryEntry fl)))
  unfolding hand_over search_mesh_memories
  transfer_knowledge m from to query top_k =
      hand_over from to (search_mesh_memories m from query top_k)
