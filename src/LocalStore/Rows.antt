-- ===== src/LocalStore/Rows.antt =====
-- The rows of pkg/localstore/sqlite_store.go, their encoding, and the database.
use helix_memory.Prelude.{
  ℕ, String, str_eq, List, [], ◌∷◌, Dict, Option, none, some, if◌then◌else◌, length, count, ◌==◌,
}
use helix_memory.Prelude.Int.{ℤ, pos}
use helix_memory.Runtime.{Floats, Runtime}
use helix_memory.Types.{Instant, Value}
use helix_memory.Types.Provider.{Error, Result, ok, err}
use helix_memory.Provider.Adapter.{StoreModule, nonzero_or}

-- The columns of the table; an embedding may be NULL.
pub record Row (fl : Floats) : Type 0 where
  pub id : String
  pub content : String
  pub scope : String
  pub metadata : String
  pub embedding : Option String
  pub score : fl.F64
  pub created_at : Instant
  pub updated_at : Instant

-- json.Marshal and json.Unmarshal of a map and of a slice of float32.
pub record StoreJson (fl : Floats) : Type 0 where
  pub marshal_map : Option (Dict (Value fl)) → Result String
  pub unmarshal_map : String → Result (Option (Dict (Value fl)))
  pub marshal_floats : List fl.F32 → Result String
  pub unmarshal_floats : String → Result (List fl.F32)

-- The SET list of INSERT … ON CONFLICT(id) DO UPDATE: `old` is the row that is there, `excluded` the
-- one that was to be inserted.
unfoldable pub on_conflict : {fl : Floats} → (old excluded : Row fl) → Row fl
on_conflict old excluded = record old {
  content = excluded.content;
  scope = excluded.scope;
  metadata = excluded.metadata;
  embedding = excluded.embedding;
  score = excluded.score;
  updated_at = excluded.updated_at;
}

-- The statements: INSERT … ON CONFLICT(id) DO UPDATE with its SET list, UPDATE … WHERE id, DELETE … WHERE id with the
-- number of rows, SELECT … WHERE id, SELECT with a scope (none for the empty text) and a time range,
-- SELECT with a scope, an order, and a LIMIT with an OFFSET or neither, and SELECT COUNT(*).
pub record Database (fl : Floats) : Type 1 where
  pub State : Type 0
  pub upsert : State → (set : Row fl → Row fl → Row fl) → Row fl → State × Option Error
  pub update_by_id : State → Row fl → State × Result ℕ
  pub delete_by_id : State → (id : String) → State × Result ℕ
  pub select_by_id : State → (id : String) → Result (Option (Row fl))
  pub select_where : State → (scope : String) → Option (Instant × Instant) → Result (List (Row fl))
  pub list_where : State → (scope order : String) → Option (ℤ × ℤ) → Result (List (Row fl))
  pub count_rows : State → Result ℕ

-- The options of package store that the adapter does not read.
pub record StoreOptions {fl : Floats} (store : StoreModule fl) : Type 0 where
  pub default_search_options : store.SearchOptions
  pub default_list_options : store.ListOptions
  pub list_scope : store.ListOptions → String
  pub order_by : store.ListOptions → String
  pub offset : store.ListOptions → ℤ

module _ {fl : Floats} (store : StoreModule fl) where
  -- The defaults that Add sets.
  unfoldable pub filled : (new_id : String) → (now : Instant) → store.Memory → store.Memory
  filled new_id now m =
      store.memory (if str_eq (store.id m) "" then new_id else store.id m) (store.content m)
        (store.metadata m) (if str_eq (store.scope m) "" then store.scope_user else store.scope m)
        (nonzero_or now (store.created_at m)) (nonzero_or now (store.updated_at m)) (store.score m)
        (store.embedding m)

  abbrev pub with_score : store.Memory → fl.F64 → store.Memory
  with_score m x =
      store.memory (store.id m) (store.content m) (store.metadata m) (store.scope m)
        (store.created_at m) (store.updated_at m) x (store.embedding m)

module _ {fl : Floats} (store : StoreModule fl) (json : StoreJson fl) where
  as_blob : Result String → Result (Option String)
  as_blob (err e) = err e
  as_blob (ok text) = ok (some text)

  -- An empty embedding is NULL.
  unfoldable pub marshal_embedding : List fl.F32 → Result (Option String)
  unfolding as_blob
  marshal_embedding [] = ok none
  marshal_embedding (x ∷ xs) = as_blob (json.marshal_floats (x ∷ xs))

  unfoldable pub unmarshal_embedding : Option String → Result (List fl.F32)
  unmarshal_embedding none = ok []
  unmarshal_embedding (some text) = if str_eq text "" then ok [] else json.unmarshal_floats text

  unfoldable pub row_with : store.Memory → Result String → Result (Option String) → Result (Row fl)
  row_with m (err e) blob = err "marshal metadata"
  row_with m (ok metadata) (err e) = err "marshal embedding"
  row_with m (ok metadata) (ok blob) = ok (record {
    id = store.id m;
    content = store.content m;
    scope = store.scope m;
    metadata = metadata;
    embedding = blob;
    score = store.score m;
    created_at = store.created_at m;
    updated_at = store.updated_at m;
  })

  unfoldable pub row_of : store.Memory → Result (Row fl)
  unfolding row_with marshal_embedding
  row_of m =
      row_with m (json.marshal_map (store.metadata m)) (marshal_embedding (store.embedding m))

  unfoldable pub memory_with :
      Row fl → Result (Option (Dict (Value fl))) → Result (List fl.F32) → Result store.Memory
  memory_with row (err e) embedding = err "unmarshal metadata"
  memory_with row (ok metadata) (err e) = err "unmarshal embedding"
  memory_with row (ok metadata) (ok embedding) = ok (
      store.memory row.id row.content metadata row.scope row.created_at row.updated_at row.score
        embedding)

  -- scanMemory
  unfoldable pub memory_of : Row fl → Result store.Memory
  unfolding memory_with unmarshal_embedding
  memory_of row =
      let metadata = if str_eq row.metadata "" then ok none else json.unmarshal_map row.metadata in
      memory_with row metadata (unmarshal_embedding row.embedding)

-- The part of the words of a query that a content contains.
unfoldable pub match_score :
    (fl : Floats) → Runtime → (query_words : List String) → (content : String) → fl.F64
match_score fl rt query_words content =
    let matches = count (λ w. rt.contains (rt.to_lower content) w) query_words in
    if length query_words == 0
    then fl.decimal 0 1
    else fl.div (fl.of_int (pos matches)) (fl.of_int (pos (length query_words)))
