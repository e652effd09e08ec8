-- ===== src/Config/Environment.antt =====
-- pkg/config/config.go: how the configuration is read from the environment. os.Getenv and the parsers
-- of packages strconv and time are parameters.
use helix_memory.Prelude.{String, ◌*◌, Bool, true, Option, none, some, str_eq, if◌then◌else◌}
use helix_memory.Prelude.Int.{ℤ, pos}
use helix_memory.Runtime.{Floats}
use helix_memory.Types.Provider.{Error, Result, ok, err}
use helix_memory.Config.{Config, second, minute, default_config, validate}

-- The environment of the process, and the parsers, with `none` for an error.
pub record Env (fl : Floats) : Type 0 where
  pub getenv : String → String
  pub atoi : String → Option ℤ
  pub parse_float : String → Option fl.F64
  pub parse_bool : String → Option Bool
  pub parse_duration : String → Option ℤ

abbrev pub parsed_or {ℓ} : {A : Type ℓ} → A → Option A → A
parsed_or otherwise none = otherwise
parsed_or otherwise (some a) = a

module _ {fl : Floats} where
  abbrev pub valid_or_error : Config fl → Option Error → Result (Config fl)
  valid_or_error c none = ok c
  valid_or_error c (some e) = err "config validation failed"

  abbrev pub config_or : Config fl → Result (Config fl) → Config fl
  config_or otherwise (ok c) = c
  config_or otherwise (err e) = otherwise

module _ {fl : Floats} (env : Env fl) where
  unfoldable pub get_env : (key default : String) → String
  get_env key default = let value = env.getenv key in if str_eq value "" then default else value

  -- The shape of the four helpers that parse.
  abbrev pub parsed_env {ℓ} : {A : Type ℓ} → (String → Option A) → (key : String) → A → A
  parsed_env parse key default =
      let value = env.getenv key in
      if str_eq value "" then default else parsed_or default (parse value)

  unfoldable pub get_env_int : (key : String) → ℤ → ℤ
  get_env_int key default = parsed_env env.atoi key default

  unfoldable pub get_env_float : (key : String) → fl.F64 → fl.F64
  get_env_float key default = parsed_env env.parse_float key default

  unfoldable pub get_env_bool : (key : String) → Bool → Bool
  get_env_bool key default = parsed_env env.parse_bool key default

  unfoldable pub get_env_duration : (key : String) → ℤ → ℤ
  get_env_duration key default = parsed_env env.parse_duration key default

  -- The fields that LoadConfig reads, before it validates them.
  unfoldable pub read_config : Config fl
  unfolding get_env get_env_int get_env_float get_env_bool get_env_duration
  read_config = record {
    mode = get_env "HELIX_MEMORY_MODE" "local";
    cognee_endpoint = get_env "HELIX_MEMORY_COGNEE_ENDPOINT" "http://localhost:8000";
    mem0_endpoint = get_env "HELIX_MEMORY_MEM0_ENDPOINT" "http://localhost:8001";
    letta_endpoint = get_env "HELIX_MEMORY_LETTA_ENDPOINT" "http://localhost:8283";
    graphiti_endpoint = get_env "HELIX_MEMORY_GRAPHITI_ENDPOINT" "http://localhost:8003";
    cognee_api_key = get_env "HELIX_MEMORY_COGNEE_API_KEY" "";
    mem0_api_key = get_env "HELIX_MEMORY_MEM0_API_KEY" "";
    letta_api_key = get_env "HELIX_MEMORY_LETTA_API_KEY" "";
    cognee_cloud_endpoint = get_env "HELIX_MEMORY_COGNEE_CLOUD_ENDPOINT" "https://api.cognee.ai";
    mem0_cloud_endpoint = get_env "HELIX_MEMORY_MEM0_CLOUD_ENDPOINT" "https://api.mem0.ai";
    letta_cloud_endpoint = get_env "HELIX_MEMORY_LETTA_CLOUD_ENDPOINT" "https://api.letta.com";
    mem0_org_id = get_env "HELIX_MEMORY_MEM0_ORG_ID" "";
    mem0_project_id = get_env "HELIX_MEMORY_MEM0_PROJECT_ID" "";
    qdrant_endpoint = get_env "HELIX_MEMORY_QDRANT_ENDPOINT" "http://localhost:6333";
    neo4j_endpoint = get_env "HELIX_MEMORY_NEO4J_ENDPOINT" "bolt://localhost:7687";
    neo4j_user = get_env "HELIX_MEMORY_NEO4J_USER" "neo4j";
    neo4j_password = get_env "HELIX_MEMORY_NEO4J_PASSWORD" "helixmemory";
    redis_endpoint = get_env "HELIX_MEMORY_REDIS_ENDPOINT" "localhost:6379";
    redis_password = get_env "HELIX_MEMORY_REDIS_PASSWORD" "";
    fusion_dedup_threshold = get_env_float "HELIX_MEMORY_FUSION_DEDUP_THRESHOLD" (fl.decimal 92 2);
    fusion_relevance_weight =
        get_env_float "HELIX_MEMORY_FUSION_RELEVANCE_WEIGHT" (fl.decimal 40 2);
    fusion_recency_weight = get_env_float "HELIX_MEMORY_FUSION_RECENCY_WEIGHT" (fl.decimal 25 2);
    fusion_source_weight = get_env_float "HELIX_MEMORY_FUSION_SOURCE_WEIGHT" (fl.decimal 20 2);
    fusion_type_weight = get_env_float "HELIX_MEMORY_FUSION_TYPE_WEIGHT" (fl.decimal 15 2);
    default_top_k = get_env_int "HELIX_MEMORY_DEFAULT_TOP_K" (pos 10);
    request_timeout = get_env_duration "HELIX_MEMORY_REQUEST_TIMEOUT" (pos (10 * second));
    consolidation_enabled = get_env_bool "HELIX_MEMORY_CONSOLIDATION_ENABLED" true;
    consolidation_interval =
        get_env_duration "HELIX_MEMORY_CONSOLIDATION_INTERVAL" (pos (30 * minute));
    consolidation_batch_size = get_env_int "HELIX_MEMORY_CONSOLIDATION_BATCH_SIZE" (pos 100);
    max_concurrent_queries = get_env_int "HELIX_MEMORY_MAX_CONCURRENT_QUERIES" (pos 10);
    circuit_breaker_threshold = get_env_int "HELIX_MEMORY_CIRCUIT_BREAKER_THRESHOLD" (pos 5);
    circuit_breaker_timeout =
        get_env_duration "HELIX_MEMORY_CIRCUIT_BREAKER_TIMEOUT" (pos (30 * second));
    embedding_model = get_env "HELIX_MEMORY_EMBEDDING_MODEL" "text-embedding-3-small";
    embedding_endpoint = get_env "HELIX_MEMORY_EMBEDDING_ENDPOINT" "http://localhost:8100/v1";
    embedding_dimension = get_env_int "HELIX_MEMORY_EMBEDDING_DIMENSION" (pos 1536);
    enable_metrics = get_env_bool "HELIX_MEMORY_ENABLE_METRICS" true;
  }

  unfoldable pub load_config : Result (Config fl)
  unfolding read_config validate
  load_config = valid_or_error read_config (validate read_config)

  unfoldable pub from_env : Config fl
  unfolding load_config default_config
  from_env = config_or (default_config fl) load_config
