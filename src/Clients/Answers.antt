-- ===== src/Clients/Answers.antt =====
-- pkg/clients: what several clients do with their answers.
use helix_memory.Prelude.{
  ◌-◌, String, str_eq, List, [], ◌∷◌, Option, none, some, Dict, if◌then◌else◌, length,
}
use helix_memory.Runtime.{Floats}
use helix_memory.Types.{MemoryEntry, SearchResult, Instant}
use helix_memory.Types.MemorySource.{MemorySource}
use helix_memory.Types.Provider.{Error, Result, ok, err}
use helix_memory.Clients.{Http, Session, map_ok, read_clock}

abbrev pub made_map : {A : Type 0} → Option (Dict A) → Dict A
made_map none = []
made_map (some m) = m

module _ {fl : Floats} {http : Http fl} where
  -- `if entry.ID == "" { entry.ID = uuid.New().String() }`
  unfoldable pub id_or_new : Session http → String → Session http × String
  id_or_new s id =
      let (w, new) = http.new_id s.world in
      if str_eq id "" then (record s { world = w }, new) else (s, id)

  -- The result of a search that began at `start`.
  unfoldable pub search_result :
      MemorySource
      → (start : Instant) → Session http × Result (List (MemoryEntry fl))
      → Session http × Result (SearchResult fl)
  unfolding read_clock
  search_result source start (s, err e) = (s, err e)
  search_result source start (s, ok entries) =
      let (s', end) = read_clock s in
      (
        s',
        ok (record {
          entries = entries;
          total = length entries;
          duration = end - start;
          sources = source ∷ [];
        }),
      )

  -- A pointer to the result.
  abbrev pub pointed : {A : Type 0} → Session http × Result A → Session http × Result (Option A)
  pointed (s, r) = (s, map_ok some r)

  -- `if err := validateID(id); err != nil { return … }` in front of a call.
  abbrev pub if_valid :
      {A : Type 0} → Session http → Option Error → Session http × Result A → Session http × Result A
  if_valid s none rest = rest
  if_valid s (some e) rest = (s, err e)
