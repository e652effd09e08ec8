-- ===== src/Infra.antt =====
-- pkg/infra: the services and their endpoints (infra.go), and the provider that runs them by docker
-- compose (compose.go). The file system, the command and the network are parameters.
pub mod Health
use helix_memory.Prelude.{
  ℕ, ◌+◌, String, Bool, true, false, List, [], ◌∷◌, Option, none, some, Dict, lookup, insert,
  str_eq, str_append, if◌then◌else◌, ltb, ◌==◌,
}
use helix_memory.Runtime.{Runtime}
use helix_memory.Types.{Instant}
use helix_memory.Types.Provider.{Error, Result, ok, err}

abbrev pub ServiceName : Type 0
ServiceName = String

pub record ServiceEndpoint : Type 0 where
  pub name : ServiceName
  pub host : String
  pub port : ℕ
  pub protocol : String
  pub healthy : Bool

pub record HealthStatus : Type 0 where
  pub services : Dict ServiceEndpoint
  pub healthy : ℕ
  pub total : ℕ
  pub checked_at : Instant

unfoldable pub all_healthy : HealthStatus → Bool
all_healthy h = h.healthy == h.total

-- `decimal_text` writes a number.
unfoldable pub url : (decimal_text : ℕ → String) → ServiceEndpoint → String
url decimal_text e =
    let address = str_append e.host (str_append ":" (decimal_text e.port)) in
    if str_eq e.protocol "bolt"
    then str_append "bolt://" address
    else if str_eq e.protocol "tcp"
    then address
    else str_append "http://" address

endpoint : ServiceName → (port : ℕ) → (protocol : String) → ServiceName × ServiceEndpoint
endpoint name port protocol = (
  name,
  record { name = name; host = "localhost"; port = port; protocol = protocol; healthy = false },
)

unfoldable pub default_endpoints : Dict ServiceEndpoint
unfolding endpoint
default_endpoints =
    endpoint "letta-server" 8283 "http"
    ∷ endpoint "mem0-api" 8001 "http"
    ∷ endpoint "cognee-api" 8000 "http"
    ∷ endpoint "qdrant" 6333 "http"
    ∷ endpoint "neo4j" 7687 "bolt"
    ∷ endpoint "redis" 6379 "tcp"
    ∷ endpoint "postgres" 5432 "tcp"
    ∷ []

-- The outside: filepath.Abs, `docker compose -f path` with more arguments, the status of a GET (an error
-- of making the request included) and the dialling of a host and port.
pub record Outside : Type 1 where
  pub World : Type 0
  pub abs : World → String → Result String
  pub compose : World → (path : String) → (args : List String) → World × Option Error
  pub get_status : World → (host : String) → (port : ℕ) → World × Result ℕ
  pub dial : World → (host : String) → (port : ℕ) → World × Option Error

pub record ComposeProvider : Type 0 where
  pub compose_file : String
  pub endpoints : Dict ServiceEndpoint

unfoldable pub new_compose_provider : (compose_file : String) → ComposeProvider
unfolding default_endpoints
new_compose_provider compose_file = record {
  compose_file = compose_file;
  endpoints = default_endpoints;
}

abbrev pub known : Option ServiceEndpoint → Result ServiceEndpoint
known none = err "unknown service"
known (some e) = ok e

unfoldable pub get_endpoint : ComposeProvider → ServiceName → Result ServiceEndpoint
unfolding lookup
get_endpoint c name = known (lookup name c.endpoints)

module _ (out : Outside) where
  run_in : out.World → (args : List String) → Result String → out.World × Option Error
  run_in w args (err e) = (w, some "resolve compose path")
  run_in w args (ok path) = out.compose w path args

  unfoldable pub start : ComposeProvider → out.World → out.World × Option Error
  unfolding run_in
  start c w = run_in w ("up" ∷ "-d" ∷ []) (out.abs w c.compose_file)

  unfoldable pub stop : ComposeProvider → out.World → out.World × Option Error
  unfolding run_in
  stop c w = run_in w ("down" ∷ []) (out.abs w c.compose_file)

  below_500 : Result ℕ → Bool
  below_500 (err e) = false
  below_500 (ok status) = ltb status 500

  unfoldable pub check_http : out.World → ServiceEndpoint → out.World × Bool
  unfolding below_500
  check_http w e = let (w', status) = out.get_status w e.host e.port in (w', below_500 status)

  connected : Option Error → Bool
  connected none = true
  connected (some e) = false

  unfoldable pub check_tcp : out.World → ServiceEndpoint → out.World × Bool
  unfolding connected
  check_tcp w e = let (w', error) = out.dial w e.host e.port in (w', connected error)

  unfoldable pub check_service : out.World → ServiceEndpoint → out.World × Bool
  unfolding check_http check_tcp
  check_service w e = if str_eq e.protocol "http" then check_http w e else check_tcp w e

  unfoldable pub note_endpoint :
      ServiceName → ServiceEndpoint → (healthy : Bool) → HealthStatus → HealthStatus
  unfolding insert
  note_endpoint name e healthy status = record status {
    services = insert name (record e { healthy = healthy }) status.services;
    total = status.total + 1;
    healthy = if healthy then status.healthy + 1 else status.healthy;
  }

  unfoldable pub check_all :
      Dict ServiceEndpoint → out.World × HealthStatus → out.World × HealthStatus
  unfolding check_service note_endpoint
  check_all [] r = r
  check_all ((name, e) ∷ rest) (w, status) =
      let (w', healthy) = check_service w e in
      check_all rest (w', note_endpoint name e healthy status)

  unfoldable pub health_check :
      Runtime → ComposeProvider → (now : Instant) → out.World → out.World × HealthStatus
  unfolding check_all
  health_check rt c now w =
      check_all (rt.range_order (ServiceName × ServiceEndpoint) c.endpoints)
        (w, record { services = []; healthy = 0; total = 0; checked_at = now })
