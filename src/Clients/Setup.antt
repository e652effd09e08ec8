-- ===== src/Clients/Setup.antt =====
-- NewClient of pkg/clients/mem0, cognee, letta and graphiti: the settings and the breaker that a
-- configuration gives a client. The time limit of the HTTP client is not part of a session.
use helix_memory.Prelude.{String}
use helix_memory.Runtime.{Floats}
use helix_memory.Types.{Instant}
use helix_memory.CircuitBreaker.{CircuitBreaker}
use helix_memory.CircuitBreaker
use helix_memory.Config.{Config}
use helix_memory.Clients.{Settings}

-- What NewClient sets: the address and key, the breaker, and the identifiers of the Mem0 client.
pub record NewClient : Type 0 where
  pub settings : Settings
  pub breaker : CircuitBreaker
  pub org_id : String
  pub project_id : String

module _ {fl : Floats} (now : Instant) (cfg : Config fl) where
  new_breaker : CircuitBreaker
  new_breaker = CircuitBreaker.new cfg.circuit_breaker_threshold cfg.circuit_breaker_timeout now

  unfoldable pub new_mem0_client : NewClient
  unfolding new_breaker
  new_mem0_client = record {
    settings = record { endpoint = cfg.mem0_endpoint; api_key = cfg.mem0_api_key };
    breaker = new_breaker;
    org_id = cfg.mem0_org_id;
    project_id = cfg.mem0_project_id;
  }

  unfoldable pub new_cognee_client : NewClient
  unfolding new_breaker
  new_cognee_client = record {
    settings = record { endpoint = cfg.cognee_endpoint; api_key = cfg.cognee_api_key };
    breaker = new_breaker;
    org_id = "";
    project_id = "";
  }

  unfoldable pub new_letta_client : NewClient
  unfolding new_breaker
  new_letta_client = record {
    settings = record { endpoint = cfg.letta_endpoint; api_key = cfg.letta_api_key };
    breaker = new_breaker;
    org_id = "";
    project_id = "";
  }

  -- Graphiti takes no key.
  unfoldable pub new_graphiti_client : NewClient
  unfolding new_breaker
  new_graphiti_client = record {
    settings = record { endpoint = cfg.graphiti_endpoint; api_key = "" };
    breaker = new_breaker;
    org_id = "";
    project_id = "";
  }
