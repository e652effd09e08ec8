-- ===== src/Samples/Wire.antt =====
-- The clients over a network whose servers answer 500, with a clock that counts its readings.
use helix_memory.Prelude.{ℕ, ◌+◌, ◌≡◌, refl, true, false, List, [], ◌∷◌, none, some}
use helix_memory.Prelude.Int.{pos}
use helix_memory.Types.{text}
use helix_memory.Types.Provider.{
  Operation, gets, adds, searches, gets_history, deletes, checks_health, operate_all,
}
use helix_memory.CircuitBreaker.{CircuitBreaker, closed, open_circuit, allow}
use helix_memory.Clients.{Http, Settings, Session, read_clock, ask_breaker}
use helix_memory.Clients.Refusal.{Refuses, IsQuiet}
use helix_memory.Clients.Refusal.Further.{Mem0Refuses, GraphitiRefuses, CogneeRefuses}
use helix_memory.Clients.Refusal.All.{clients_refuse}
use helix_memory.Clients.Mem0
use helix_memory.Clients.Mem0.Wire.{Mem0Json}
use helix_memory.Clients.Graphiti
use helix_memory.Clients.Graphiti.Wire.{GraphitiJson}
use helix_memory.Clients.Cognee
use helix_memory.Clients.Cognee.Wire.{CogneeJson}
use helix_memory.Clients.Letta.{Letta, ensure_agent}
use helix_memory.Clients.Letta
use helix_memory.Clients.Letta.Wire.{LettaJson}
use helix_memory.Clients.Letta.Stuck.{ensure_agent_is_final}
use helix_memory.Samples.World.{thousandths}
use helix_memory.Samples.Data.{tea, request}

abbrev pub failing_http : Http thousandths
failing_http = record {
  World = ℕ;
  now = λ w. (w + 1, w);
  new_id = λ w. (w, "new");
  accepts = λ r. true;
  send = λ w r. (w, some (record { status = 500; body = "" }));
  path_unescape = λ s. some s;
  has_prefix = λ s p. false;
  contains = λ s t. false;
  decimal_text = λ i. "10";
  boxed_map = λ m. text "map";
}

abbrev pub cfg : Settings
cfg = record { endpoint = "http://localhost"; api_key = "key" }

abbrev pub mem0_json : Mem0Json thousandths
mem0_json = record {
  marshal = λ p. some "body";
  decode_memory = λ s. none;
  decode_memories = λ s. none;
  decode_results = λ s. none;
  decode_history = λ s. none;
  decode_user = λ s. none;
  decode_agent = λ s. none;
  decode_webhook = λ s. none;
}

abbrev graphiti_json : GraphitiJson thousandths
graphiti_json = record {
  marshal = λ p. some "body";
  decode_search = λ s. none;
  decode_node = λ s. none;
}

abbrev cognee_json : CogneeJson thousandths
cognee_json = record {
  marshal = λ p. some "body";
  decode_add = λ s. none;
  decode_results = λ s. none;
  decode_result = λ s. none;
  decode_dataset = λ s. none;
  decode_datasets = λ s. none;
  health_status = λ s. "ok";
  boxed_connections = λ cs. text "connections";
}

abbrev letta_json : LettaJson thousandths
letta_json = record {
  marshal = λ p. some "body";
  form_file = λ name content. none;
  decode_agent = λ s. none;
  decode_agents = λ s. none;
  decode_sent = λ s. none;
  decode_messages = λ s. none;
  decode_block = λ s. none;
  decode_memory = λ s. none;
  decode_source = λ s. none;
  decode_passage = λ s. none;
  decode_passages = λ s. none;
}

abbrev breaker : CircuitBreaker
breaker = record {
  state = closed;
  failures = 2;
  threshold = pos 3;
  timeout = pos 100;
  last_failure = 0;
  last_state_change = 0;
  half_open_success = 0;
  half_open_max = 2;
}

abbrev tripped : CircuitBreaker
tripped = record breaker { state = open_circuit; failures = 3; last_failure = 1 }

pub session : Session failing_http
session = record { breaker = breaker; world = 0 }

abbrev refused : Session failing_http
refused = record { breaker = tripped; world = 10 }

abbrev agentless : Session failing_http → Letta failing_http
agentless s = record { session = s; ensured = false; cached_agent_id = ""; ensure_error = none }

abbrev pub calls : List (Operation thousandths)
calls = gets "1" ∷ adds tea ∷ searches (request "tea") ∷ deletes "1" ∷ checks_health ∷ []

-- The third of four calls opens the circuit.
abbrev attempts : List (Operation thousandths)
attempts = adds tea ∷ searches (request "tea") ∷ gets_history "ann" (pos 5) ∷ adds tea ∷ []

abbrev fresh : Session failing_http
fresh = record { breaker = record breaker { failures = 0 }; world = 0 }

clients_refuse_example :
    Refuses (Mem0.provider failing_http cfg mem0_json) refused (IsQuiet refused)
    × Refuses (Graphiti.provider failing_http cfg graphiti_json) refused (IsQuiet refused)
    × Refuses (Cognee.provider failing_http cfg cognee_json) refused (IsQuiet refused)
    × Refuses
        (Letta.provider failing_http cfg letta_json)
        (agentless refused)
        (λ after. after ≡ record (agentless refused) { session = (ask_breaker refused).0 })
    × Mem0Refuses cfg refused mem0_json
    × GraphitiRefuses cfg refused graphiti_json
    × CogneeRefuses cfg refused cognee_json
unfolding ask_breaker read_clock allow
clients_refuse_example =
    clients_refuse failing_http cfg mem0_json graphiti_json cognee_json letta_json refused
      (agentless refused) refl refl

-- The first search for the agent meets a server that fails; the error stays.
ensure_agent_is_final_example :
    (ensure_agent cfg letta_json (
      operate_all
        (Letta.provider failing_http cfg letta_json)
        (ensure_agent cfg letta_json (agentless session)).0
        calls)).1
    ≡ (ensure_agent cfg letta_json (agentless session)).1
ensure_agent_is_final_example = ensure_agent_is_final cfg letta_json (agentless session) calls
