-- ===== src/LocalStore/Opening.antt =====
-- DefaultDBPath, Open and Close of pkg/localstore/sqlite_store.go. The environment, the paths, the
-- directories and package database/sql are parameters.
use helix_memory.Prelude.{
  String, str_append, str_eq, List, [], ◌∷◌, Option, none, some, if◌then◌else◌,
}
use helix_memory.Runtime.{Floats}
use helix_memory.Types.Provider.{Error, Result, ok, err}
use helix_memory.LocalStore.Rows.{Database}

pub record Files {fl : Floats} (db : Database fl) : Type 0 where
  -- strings.TrimSpace, os.Getenv, os.UserConfigDir, os.UserHomeDir, filepath.Join and filepath.Dir
  pub trim_space : String → String
  pub getenv : String → String
  pub user_config_dir : Result String
  pub user_home_dir : Result String
  pub join : List String → String
  pub dir : String → String
  -- os.MkdirAll, sql.Open, the schema, the checkpoint and the closing of the database
  pub mkdir_all : String → Option Error
  pub open_sql : (dsn : String) → Result db.State
  pub exec_schema : db.State → db.State × Option Error
  pub checkpoint : db.State → db.State
  pub close_sql : db.State → Option Error

pub record SqliteStore {fl : Floats} (db : Database fl) : Type 0 where
  pub state : db.State
  pub path : String

module _ {fl : Floats} {db : Database fl} (files : Files db) where
  abbrev pub in_home : Result String → String
  in_home (err e) = "."
  in_home (ok home) = if str_eq home "" then "." else files.join (home ∷ ".config" ∷ [])

  abbrev pub config_dir : Result String → String
  config_dir (err e) = in_home files.user_home_dir
  config_dir (ok cfg_dir) =
      if str_eq (files.trim_space cfg_dir) "" then in_home files.user_home_dir else cfg_dir

  -- The error is always nil.
  unfoldable pub default_db_path : String
  default_db_path =
      let override = files.trim_space (files.getenv "HELIX_MEMORY_DB") in
      if str_eq override ""
      then files.join (config_dir files.user_config_dir ∷ "helix_memory" ∷ "memory.db" ∷ [])
      else override

  unfoldable pub dsn_of : (path : String) → String
  dsn_of path =
      if str_eq path ":memory:"
      then path
      else str_append "file:" (
          str_append path
            "?_pragma=journal_mode(WAL)&_pragma=busy_timeout(5000)&_pragma=foreign_keys(ON)")

  unfoldable pub migrate : db.State → db.State × Option Error
  migrate s = files.exec_schema s

  migrated : (path : String) → db.State × Option Error → Result (SqliteStore db)
  migrated path (s, none) = ok (record { state = s; path = path })
  migrated path (s, some e) = err "migrate"

  opened_at : (path : String) → Result db.State → Result (SqliteStore db)
  unfolding migrated migrate
  opened_at path (err e) = err "open sqlite"
  opened_at path (ok s) = migrated path (migrate s)

  open_in : (path : String) → Option Error → Result (SqliteStore db)
  unfolding opened_at dsn_of
  open_in path (some e) = err "create db dir"
  open_in path none = opened_at path (files.open_sql (dsn_of path))

  unfoldable pub open_store : (path : String) → Result (SqliteStore db)
  unfolding open_in default_db_path
  open_store given =
      let path = if str_eq (files.trim_space given) "" then default_db_path else given in
      open_in path (if str_eq path ":memory:" then none else files.mkdir_all (files.dir path))

  unfoldable pub close : SqliteStore db → Option Error
  close s =
      if str_eq s.path ":memory:"
      then files.close_sql s.state
      else files.close_sql (files.checkpoint s.state)
