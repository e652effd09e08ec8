-- ===== src/LocalStore.antt =====
-- pkg/localstore/sqlite_store.go: the store of package digital.vasic.memory over one SQLite file. The
-- statements that the code sends are operations of a database, which is a parameter; so are package
-- store and the encoding of JSON. The lock of the writers is held through each writing operation.
pub mod Rows
pub mod Kept
pub mod Ranked
pub mod Opening
use helix_memory.Prelude.{
  ℕ, String, Bool, str_eq, List, [], ◌∷◌, map, keep, take, length, Option, none, some,
  if◌then◌else◌, ◌==◌, ◌&&◌, ltb,
}
use helix_memory.Prelude.Int.{ℤ, pos, negsuc, pos_part, ltb_ℤ}
use helix_memory.Runtime.{Floats, Runtime}
use helix_memory.Types.{Instant}
use helix_memory.Types.Provider.{Error, Result, ok, err}
use helix_memory.Provider.Adapter.{StoreModule}
use helix_memory.LocalStore.Rows.{
  Row, StoreJson, Database, StoreOptions, filled, on_conflict, row_of, memory_of, match_score,
  with_score,
}

-- What is sorted, and sort.SliceStable.
pub record StableSort : Type 1 where
  pub sort_stable : (A : Type 0) → (A → A → Bool) → List A → List A

-- The ORDER BY of a list, and its LIMIT and OFFSET.
abbrev pub order_of : (order_by : String) → String
order_of order_by =
    if str_eq order_by "updated_at"
    then "updated_at ASC"
    else if str_eq order_by "score"
    then "score DESC"
    else "created_at ASC"

abbrev pub window_of : (limit offset : ℤ) → Option (ℤ × ℤ)
window_of limit offset =
    if ltb_ℤ (pos 0) limit
    then some (limit, offset)
    else if ltb_ℤ (pos 0) offset
    then some (negsuc 0, offset)
    else none

module _ {fl : Floats} (store : StoreModule fl) (json : StoreJson fl) (db : Database fl) where
  put_row : db.State → Result (Row fl) → db.State × Option Error
  put_row s (err e) = (s, some e)
  put_row s (ok row) = db.upsert s on_conflict row

  -- Add, with the new identifier and the reading of the clock. A memory may be nil; its fields are set
  -- in place, so the memory comes back.
  unfoldable pub add :
      (new_id : String)
      → (now : Instant) → db.State
      → Option store.Memory
      → db.State × Option store.Memory × Option Error
  unfolding put_row filled row_of
  add new_id now s none = (s, none, some "Add nil memory")
  add new_id now s (some m) =
      let m' = filled store new_id now m in
      let (s', error) = put_row s (row_of store json m') in (s', some m', error)

  found_row : Result (Option (Row fl)) → Result store.Memory
  unfolding memory_of
  found_row (err e) = err e
  found_row (ok none) = err "memory not found"
  found_row (ok (some row)) = memory_of store json row

  unfoldable pub get : db.State → (id : String) → Result store.Memory
  unfolding found_row
  get s id = found_row (db.select_by_id s id)

  -- The answer of a statement that tells how many rows it changed.
  changed_some : db.State × Result ℕ → db.State × Option Error
  changed_some (s, err e) = (s, some e)
  changed_some (s, ok n) = (s, if n == 0 then some "memory not found" else none)

  update_row : db.State → Result (Row fl) → db.State × Option Error
  unfolding changed_some
  update_row s (err e) = (s, some e)
  update_row s (ok row) = changed_some (db.update_by_id s row)

  abbrev pub stamped : (now : Instant) → store.Memory → store.Memory
  stamped now m =
      store.memory (store.id m) (store.content m) (store.metadata m) (store.scope m)
        (store.created_at m) now (store.score m) (store.embedding m)

  unfoldable pub update :
      (now : Instant)
      → db.State
      → Option store.Memory
      → db.State × Option store.Memory × Option Error
  unfolding update_row row_of
  update now s none = (s, none, some "Update nil memory")
  update now s (some m) =
      let (s', error) = update_row s (row_of store json (stamped now m)) in
      (s', some (stamped now m), error)

  unfoldable pub delete : db.State → (id : String) → db.State × Option Error
  unfolding changed_some
  delete s id = changed_some (db.delete_by_id s id)

  read_next : Result store.Memory → Result (List store.Memory) → Result (List store.Memory)
  read_next (err e) rest = err e
  read_next (ok m) (err e) = err e
  read_next (ok m) (ok ms) = ok (m ∷ ms)

  -- The loop over the rows; the first that does not decode ends it.
  unfoldable pub read_rows : List (Row fl) → Result (List store.Memory)
  unfolding read_next memory_of
  read_rows [] = ok []
  read_rows (row ∷ rows) = read_next (memory_of store json row) (read_rows rows)

  read_all : Result (List (Row fl)) → Result (List store.Memory)
  unfolding read_rows
  read_all (err e) = err e
  read_all (ok rows) = read_rows rows

  -- Count, from the database's own count of the rows.
  unfoldable pub count_memories : db.State → Result ℕ
  count_memories s = db.count_rows s

module _ {fl : Floats} (store : StoreModule fl) (options : StoreOptions store) (json : StoreJson fl)
    (db : Database fl) (rt : Runtime) (stable : StableSort) (fields : String → List String) where
  abbrev pub search_options_or : Option store.SearchOptions → store.SearchOptions
  search_options_or none = options.default_search_options
  search_options_or (some opts) = opts

  abbrev pub list_options_or : Option store.ListOptions → store.ListOptions
  list_options_or none = options.default_list_options
  list_options_or (some opts) = opts

  -- The memories that match, in the order of the rows, with their new scores.
  unfoldable pub matching :
      (query : String) → store.SearchOptions → List store.Memory → List store.Memory
  unfolding match_score
  matching query opts ms =
      keep (λ m. fl.ge (store.score m) (store.min_score opts))
        (map
          (λ m.
            with_score store m (match_score fl rt (fields (rt.to_lower query)) (store.content m)))
          ms)

  by_score : store.Memory → store.Memory → Bool
  by_score a b = fl.lt (store.score b) (store.score a)

  unfoldable pub best : store.SearchOptions → List store.Memory → List store.Memory
  unfolding by_score
  best opts ms =
      let sorted = stable.sort_stable store.Memory by_score ms in
      let k = store.top_k opts in
      if ltb_ℤ (pos 0) k && ltb (pos_part k) (length sorted)
      then take (pos_part k) sorted
      else sorted

  ranked :
      (query : String)
      → store.SearchOptions
      → Result (List store.Memory)
      → Result (List store.Memory)
  unfolding matching best
  ranked query opts (err e) = err e
  ranked query opts (ok ms) = ok (best opts (matching query opts ms))

  unfoldable pub search :
      db.State → (query : String) → Option store.SearchOptions → Result (List store.Memory)
  unfolding ranked read_all
  search s query given =
      let opts = search_options_or given in
      ranked query opts
        (read_all store json db (db.select_where s (store.scope_of opts) (store.time_range opts)))

  unfoldable pub list :
      db.State → (scope : String) → Option store.ListOptions → Result (List store.Memory)
  unfolding read_all
  list s scope given =
      let opts = list_options_or given in
      let wanted = if str_eq scope "" then options.list_scope opts else scope in
      read_all store json db (
        db.list_where s wanted (order_of (options.order_by opts))
          (window_of (store.limit opts) (options.offset opts)))
