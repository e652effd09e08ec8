-- ===== src/Clients.antt =====
-- pkg/clients: what the clients of the four systems share. Every call of a client has the same
-- shape: it asks the circuit breaker, sends one request, and reports to the breaker by the answer.
-- net/http, encoding/json, net/url, the clock and the making of identifiers are parameters, over the
-- state `World` of everything outside the program. A reading of the clock that only one branch uses
-- is taken on every branch.
pub mod Answers
pub mod Mem0
pub mod Graphiti
pub mod Cognee
pub mod Letta
pub mod Refusal
pub mod Tripping
pub mod Trips
pub mod Setup
use helix_memory.Prelude.{
  ℕ, String, str_append, str_eq, Bool, true, false, not, ◌&&◌, ◌||◌, List, [], ◌∷◌, Option, none,
  some, Dict, if◌then◌else◌, leb, ◌==◌,
}
use helix_memory.Prelude.Int.{ℤ}
use helix_memory.Runtime.{Floats}
use helix_memory.Types.{Instant, Value}
use helix_memory.Types.Provider.{Error, Result, ok, err}
use helix_memory.CircuitBreaker.{CircuitBreaker, allow, record_success, record_failure}

pub record Request : Type 0 where
  pub method : String
  pub url : String
  pub headers : Dict String
  pub body : Option String

pub record Response : Type 0 where
  pub status : ℕ
  pub body : String

-- The outside. `accepts` is whether http.NewRequest can make the request, `send` is Client.Do with
-- `none` for an error, `path_unescape` is url.PathUnescape, `has_prefix` and `contains` are those
-- of package strings, and `boxed_map` is a map as a dynamic value.
pub record Http (fl : Floats) : Type 1 where
  pub World : Type 0
  pub now : World → World × Instant
  pub new_id : World → World × String
  pub accepts : Request → Bool
  pub send : World → Request → World × Option Response
  pub path_unescape : String → Option String
  pub has_prefix : (s prefix : String) → Bool
  pub contains : (s substr : String) → Bool
  pub decimal_text : ℤ → String
  pub boxed_map : Option (Dict (Value fl)) → Value fl

-- The fields of a client that do not change.
pub record Settings : Type 0 where
  pub endpoint : String
  pub api_key : String

-- A client's breaker, and the outside.
pub record Session {fl : Floats} (http : Http fl) : Type 0 where
  pub breaker : CircuitBreaker
  pub world : http.World

-- What a call makes of a response: an error that the breaker counts, one that it counts as a
-- success, one that it does not hear of, or a result.
pub data Verdict {ℓ} (A : Type ℓ) : Type ℓ where
  failed : Error → Verdict A
  refused : Error → Verdict A
  unread : Error → Verdict A
  answered : A → Verdict A

-- The body that a call sends: none, or what json.Marshal returns.
pub data Body : Type 0 where
  no_body : Body
  marshalled : Option String → Body

-- The parts of a URL, joined.
abbrev pub joined : List String → String
joined [] = ""
joined (s ∷ ss) = str_append s (joined ss)

abbrev pub read_as : {A : Type 0} → Option A → Verdict A
read_as none = unread "decode"
read_as (some a) = answered a

-- `resp.StatusCode >= 400`
abbrev pub done_by_status : Response → Verdict (Unit {0})
done_by_status r = if leb 400 r.status then failed "API error" else answered tt

-- `resp.StatusCode >= 400 && resp.StatusCode != http.StatusNotFound`
abbrev pub done_or_missing : Response → Verdict (Unit {0})
done_or_missing r =
    if leb 400 r.status && not (r.status == 404) then failed "API error" else answered tt

abbrev pub decoded_by : {A : Type 0} → (String → Option A) → Response → Verdict A
decoded_by decode r = if leb 400 r.status then failed "API error" else read_as (decode r.body)

abbrev pub decoded_or_missing : {A : Type 0} → (String → Option A) → Response → Verdict A
decoded_or_missing decode r = if r.status == 404 then refused "not found" else decoded_by decode r

abbrev pub error_of : Result (Unit {0}) → Option Error
error_of (ok done) = none
error_of (err e) = some e

-- What follows a call that succeeded.
abbrev pub map_ok : {A B : Type 0} → (A → B) → Result A → Result B
map_ok f (ok a) = ok (f a)
map_ok f (err e) = err e

abbrev pub result_of_verdict : {A : Type 0} → Verdict A → Result A
result_of_verdict (failed e) = err e
result_of_verdict (refused e) = err e
result_of_verdict (unread e) = err e
result_of_verdict (answered a) = ok a

abbrev pub result_of : {A : Type 0} → (Response → Verdict A) → Option Response → Result A
result_of judge none = err "request failed"
result_of judge (some r) = result_of_verdict (judge r)

-- `validateID`, which the clients of Mem0, Cognee and Graphiti declare with the same text: whether
-- it returns an error.
abbrev pub is_traversal : {fl : Floats} → Http fl → Option String → Bool
is_traversal http none = true
is_traversal http (some decoded) = http.contains decoded ".."

unfoldable pub validate_id : {fl : Floats} → Http fl → String → Option Error
validate_id http id =
    if http.contains id "\\" || http.has_prefix id "/"
    then some "invalid id: path traversal detected"
    else if is_traversal http (http.path_unescape id)
    then some "invalid id"
    else none

module _ {fl : Floats} {http : Http fl} where
  -- `time.Now()`
  unfoldable pub read_clock : Session http → Session http × Instant
  read_clock s = let (w, now) = http.now s.world in (record s { world = w }, now)

  unfoldable pub ask_breaker : Session http → Session http × Bool
  unfolding read_clock allow
  ask_breaker s =
      let (s1, now) = read_clock s in
      let (s2, changed) = read_clock s1 in
      let (breaker, allowed) = allow s.breaker now changed in
      (record s2 { breaker = breaker }, allowed)

  unfoldable pub report_success : Session http → Session http
  unfolding read_clock record_success
  report_success s =
      let (s1, changed) = read_clock s in record s1 { breaker = record_success s.breaker changed }

  unfoldable pub report_failure : Session http → Session http
  unfolding read_clock record_failure
  report_failure s =
      let (s1, now) = read_clock s in
      let (s2, changed) = read_clock s1 in
      record s2 { breaker = record_failure s.breaker now changed }

  -- The report of a verdict.
  unfoldable pub settle : {A : Type 0} → Session http → Verdict A → Session http × Result A
  unfolding report_success report_failure
  settle s (failed e) = (report_failure s, err e)
  settle s (refused e) = (report_success s, err e)
  settle s (unread e) = (s, err e)
  settle s (answered a) = (report_success s, ok a)

  judge_response :
      {A : Type 0}
      → (Response → Verdict A)
      → Session http
      → Option Response
      → Session http × Result A
  unfolding settle
  judge_response judge s none = settle s (failed "request failed")
  judge_response judge s (some r) = settle s (judge r)

  -- http.NewRequest and Client.Do, and what is made of the answer.
  unfoldable pub exchange :
      {A : Type 0} → (Response → Verdict A) → Session http → Request → Session http × Result A
  unfolding judge_response
  exchange judge s request =
      let (w, answer) = http.send s.world request in
      if http.accepts request
      then judge_response judge (record s { world = w }) answer
      else (s, err "create request")

  unfoldable pub with_body :
      {A : Type 0}
      → (Response → Verdict A)
      → Session http
      → (Option String → Request)
      → Body
      → Session http × Result A
  unfolding exchange
  with_body judge s request no_body = exchange judge s (request none)
  with_body judge s request (marshalled none) = (s, err "marshal")
  with_body judge s request (marshalled (some body)) = exchange judge s (request (some body))

  -- The guard at the head of a call: what follows is only done when the breaker allows it.
  unfoldable pub if_allowed :
      {A : Type 0}
      → Session http
      → (Session http → Session http × Result A)
      → Session http × Result A
  unfolding ask_breaker
  if_allowed s rest =
      let (s1, allowed) = ask_breaker s in
      if allowed then rest s1 else (s1, err "circuit breaker open")

  unfoldable pub guarded_call :
      {A : Type 0}
      → (Response → Verdict A)
      → Session http
      → (Option String → Request)
      → Body
      → Session http × Result A
  unfolding if_allowed with_body
  guarded_call judge s request body = if_allowed s (λ s1. with_body judge s1 request body)

  -- Health: no breaker is asked or told.
  unfoldable pub unguarded_call :
      {A : Type 0} → (Response → Verdict A) → Session http → Request → Session http × Result A
  unguarded_call judge s request =
      let (w, answer) = http.send s.world request in
      if http.accepts request
      then (record s { world = w }, result_of judge answer)
      else (s, err "create request")
