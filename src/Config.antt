-- ===== src/Config.antt =====
-- pkg/config/config.go: the configuration, its defaults and the questions that it answers.
pub mod Environment
pub mod Loading
pub mod Services
use helix_memory.Prelude.{
  ℕ, ◌*◌, String, Bool, true, false, not, ◌&&◌, ◌||◌, List, [], ◌∷◌, ◌++◌, Option, none, some,
  str_eq, if◌then◌else◌,
}
use helix_memory.Prelude.Int.{ℤ, pos}
use helix_memory.Runtime.{Floats}
use helix_memory.Types.Provider.{Error}

-- Nanoseconds.
abbrev pub second : ℕ
second = 1000000000

abbrev pub minute : ℕ
minute = 60 * second

pub record Config (fl : Floats) : Type 0 where
  pub mode : String
  pub cognee_endpoint : String
  pub mem0_endpoint : String
  pub letta_endpoint : String
  pub graphiti_endpoint : String
  pub cognee_api_key : String
  pub mem0_api_key : String
  pub letta_api_key : String
  pub cognee_cloud_endpoint : String
  pub mem0_cloud_endpoint : String
  pub letta_cloud_endpoint : String
  pub mem0_org_id : String
  pub mem0_project_id : String
  pub qdrant_endpoint : String
  pub neo4j_endpoint : String
  pub neo4j_user : String
  pub neo4j_password : String
  pub redis_endpoint : String
  pub redis_password : String
  pub fusion_dedup_threshold : fl.F64
  pub fusion_relevance_weight : fl.F64
  pub fusion_recency_weight : fl.F64
  pub fusion_source_weight : fl.F64
  pub fusion_type_weight : fl.F64
  pub default_top_k : ℤ
  pub request_timeout : ℤ
  pub consolidation_enabled : Bool
  pub consolidation_interval : ℤ
  pub consolidation_batch_size : ℤ
  pub max_concurrent_queries : ℤ
  pub circuit_breaker_threshold : ℤ
  pub circuit_breaker_timeout : ℤ
  pub embedding_model : String
  pub embedding_endpoint : String
  pub embedding_dimension : ℤ
  pub enable_metrics : Bool

unfoldable pub default_config : (fl : Floats) → Config fl
default_config fl = record {
  mode = "local";
  cognee_endpoint = "http://localhost:8000";
  mem0_endpoint = "http://localhost:8001";
  letta_endpoint = "http://localhost:8283";
  graphiti_endpoint = "http://localhost:8003";
  cognee_api_key = "";
  mem0_api_key = "";
  letta_api_key = "";
  cognee_cloud_endpoint = "https://api.cognee.ai";
  mem0_cloud_endpoint = "https://api.mem0.ai";
  letta_cloud_endpoint = "https://api.letta.com";
  mem0_org_id = "";
  mem0_project_id = "";
  qdrant_endpoint = "http://localhost:6333";
  neo4j_endpoint = "bolt://localhost:7687";
  neo4j_user = "neo4j";
  neo4j_password = "helixmemory";
  redis_endpoint = "localhost:6379";
  redis_password = "";
  fusion_dedup_threshold = fl.decimal 92 2;
  fusion_relevance_weight = fl.decimal 40 2;
  fusion_recency_weight = fl.decimal 25 2;
  fusion_source_weight = fl.decimal 20 2;
  fusion_type_weight = fl.decimal 15 2;
  default_top_k = pos 10;
  request_timeout = pos (10 * second);
  consolidation_enabled = true;
  consolidation_interval = pos (30 * minute);
  consolidation_batch_size = pos 100;
  max_concurrent_queries = pos 4;
  circuit_breaker_threshold = pos 5;
  circuit_breaker_timeout = pos (30 * second);
  embedding_model = "text-embedding-3-small";
  embedding_endpoint = "http://localhost:8100/v1";
  embedding_dimension = pos 1536;
  enable_metrics = true;
}

abbrev pub is_set : String → Bool
is_set s = not (str_eq s "")

abbrev pub listed_if : Bool → String → List String
listed_if b name = if b then name ∷ [] else []

module _ {fl : Floats} where
  -- In the source the test of the Cognee key is nested in that of the other two.
  unfoldable pub validate : Config fl → Option Error
  validate c =
      let keyless =
        str_eq c.mode "cloud" && str_eq c.mem0_api_key "" && str_eq c.letta_api_key "" in
      if not (str_eq c.mode "local") && not (str_eq c.mode "cloud")
      then some "invalid mode"
      else if keyless
      then (if str_eq c.cognee_api_key "" then some "cloud mode requires an API key" else none)
      else none

  unfoldable pub get_cognee_endpoint : Config fl → String
  get_cognee_endpoint c =
      if str_eq c.cognee_api_key "" then c.cognee_endpoint else c.cognee_cloud_endpoint

  unfoldable pub get_mem0_endpoint : Config fl → String
  get_mem0_endpoint c =
      if str_eq c.mode "cloud" && is_set c.mem0_api_key
      then c.mem0_cloud_endpoint
      else c.mem0_endpoint

  unfoldable pub get_letta_endpoint : Config fl → String
  get_letta_endpoint c =
      if str_eq c.mode "cloud" && is_set c.letta_api_key
      then c.letta_cloud_endpoint
      else c.letta_endpoint

  abbrev pub is_cloud_mode : Config fl → Bool
  is_cloud_mode c = str_eq c.mode "cloud"

  abbrev pub use_cloud_cognee : Config fl → Bool
  use_cloud_cognee c = str_eq c.mode "cloud" && is_set c.cognee_api_key

  abbrev pub use_cloud_mem0 : Config fl → Bool
  use_cloud_mem0 c = str_eq c.mode "cloud" && is_set c.mem0_api_key

  abbrev pub use_cloud_letta : Config fl → Bool
  use_cloud_letta c = str_eq c.mode "cloud" && is_set c.letta_api_key

  abbrev pub has_cognee : Config fl → Bool
  has_cognee c = str_eq c.mode "local" || is_set c.cognee_api_key

  abbrev pub has_mem0 : Config fl → Bool
  has_mem0 c = str_eq c.mode "local" || is_set c.mem0_api_key

  abbrev pub has_letta : Config fl → Bool
  has_letta c = str_eq c.mode "local" || is_set c.letta_api_key

  unfoldable pub get_active_services : Config fl → List String
  get_active_services c =
      listed_if (has_cognee c) "cognee"
      ++ listed_if (has_mem0 c) "mem0"
      ++ listed_if (has_letta c) "letta"

  unfoldable pub is_hybrid_mode : Config fl → Bool
  is_hybrid_mode c =
      let has_cloud = is_set c.cognee_api_key || is_set c.mem0_api_key || is_set c.letta_api_key in
      let needs_local = str_eq c.cognee_api_key "" in
      if not (str_eq c.mode "cloud") then false else has_cloud && needs_local
