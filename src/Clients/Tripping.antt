-- ===== src/Clients/Tripping.antt =====
-- The clients against a server that is down: what a call does to the circuit breaker when no request
-- succeeds.
use helix_memory.Prelude.{
  ℕ, suc, ◌≡◌, ◌≤◌, ◌<◌, refl, Bool, true, List, Option, none, some, String, leb, arith, ap, false,
  subst, sym, if◌then◌else◌,
}
use helix_memory.Prelude.Int.{pos}
use helix_memory.Runtime.{Floats}
use helix_memory.Types.{MemoryEntry, Instant}
use helix_memory.Types.MemorySource.{MemorySource}
use helix_memory.Types.Provider.{Error, Result, err}
use helix_memory.CircuitBreaker.{
  CircuitBreaker, closed, open_circuit, half_open, allow, record_failure,
}
use helix_memory.Clients.Answers.{search_result}
use helix_memory.Clients.{
  Request, Response, Http, Session, Verdict, failed, Body, no_body, marshalled, done_by_status,
  decoded_by, ask_breaker, read_clock, report_failure, settle, judge_response, exchange, with_body,
  if_allowed, guarded_call,
}

-- No answer, or an error status.
abbrev pub is_failure : Option Response → Bool
is_failure none = true
is_failure (some r) = leb 400 r.status

-- Requests can be made, and each fails.
pub record IsDown {fl : Floats} (http : Http fl) : Type 0 where
  pub accepting : (r : Request) → http.accepts r ≡ true
  pub failing_all : (w : http.World) (r : Request) → is_failure (http.send w r).1 ≡ true

-- A body that can be sent, and an encoder that encodes everything.
abbrev pub IsSendable : Body → Type 0
IsSendable no_body = Unit
IsSendable (marshalled none) = ⊥
IsSendable (marshalled (some body)) = Unit

abbrev pub IsTotal : {P : Type 0} → (P → Option String) → Type 0
IsTotal {P} marshal = (p : P) → IsSendable (marshalled (marshal p))

-- After `n` failed calls: a closed breaker has counted them all, and is below the threshold `k`.
pub record Counted (k n : ℕ) (b : CircuitBreaker) : Type 0 where
  pub limit : b.threshold ≡ pos k
  pub probing : b.state ≡ half_open → n ≡ 0
  pub counting : b.state ≡ closed → n ≤ b.failures
  pub below : b.state ≡ closed → 0 < n → b.failures < k

-- A call that the breaker allows and that fails, or that it does not allow.
abbrev after_failure : CircuitBreaker × Bool → (now changed : Instant) → CircuitBreaker
after_failure (b, allowed) now changed = if allowed then record_failure b now changed else b

after_failure-Counted :
    {k n : ℕ} (b : CircuitBreaker) (t u now changed : Instant)
    → Counted k n b
    → Counted k (suc n) (after_failure (allow b t u) now changed)
unfolding allow record_failure
after_failure-Counted b t u now changed h = ground arith

-- With as many failed calls as the threshold, the breaker is open.
pub Counted-open :
    {k n : ℕ} (b : CircuitBreaker) → Counted k n b → 0 < k → k ≤ n → b.state ≡ open_circuit
Counted-open b h positive enough = ground arith

-- A call that takes an error status for a failure.
abbrev pub IsStrict : {A : Type 0} → (Response → Verdict A) → Type 0
IsStrict judge = (r : Response) → leb 400 r.status ≡ true → (e : Error) × (judge r ≡ failed e)

pub done_by_status-IsStrict : IsStrict done_by_status
done_by_status-IsStrict r h = ("API error", rw h refl)

pub decoded_by-IsStrict : {A : Type 0} (decode : String → Option A) → IsStrict (decoded_by decode)
decoded_by-IsStrict decode r h = ("API error", rw h refl)

module _ {fl : Floats} {http : Http fl} where
  -- A failure is reported, after something was sent.
  abbrev pub FailsFrom : {A : Type 0} → Session http → Session http × Result A → Type 0
  FailsFrom s x =
      (w : http.World) × (e : Error) × (x ≡ (report_failure (record s { world = w }), err e))

  judge_response_fails :
      {A : Type 0} (judge : Response → Verdict A) (s : Session http) (w : http.World)
      (answer : Option Response)
      → IsStrict judge
      → is_failure answer ≡ true
      → FailsFrom s (judge_response judge (record s { world = w }) answer)
  unfolding judge_response settle
  judge_response_fails judge s w none strict h = (w, "request failed", refl)
  judge_response_fails judge s w (some r) strict h =
      let (e, same) = strict r h in (w, e, ap (settle (record s { world = w })) same)

  module _ (down : IsDown http) where
    exchange_fails :
        {A : Type 0} (judge : Response → Verdict A) (s : Session http) (request : Request)
        → IsStrict judge
        → FailsFrom s (exchange judge s request)
    unfolding exchange
    exchange_fails judge s request strict =
        rw (down.accepting request)
          (judge_response_fails judge s _ _ strict (down.failing_all s.world request))

    pub with_body_fails :
        {A : Type 0} (judge : Response → Verdict A) (s : Session http)
        (request : Option String → Request) (body : Body)
        → IsStrict judge
        → IsSendable body
        → FailsFrom s (with_body judge s request body)
    unfolding with_body
    with_body_fails judge s request no_body strict h = exchange_fails judge s (request none) strict
    with_body_fails judge s request (marshalled none) strict h = absurd h
    with_body_fails judge s request (marshalled (some text)) strict h =
        exchange_fails judge s (request (some text)) strict

  by_answer-Counted :
      {A : Type 0} {k n : ℕ} (allowed : Bool) (s1 : Session http) (x : Session http × Result A)
      (b : CircuitBreaker)
      → x.0.breaker ≡ b
      → Counted k n (if allowed then b else s1.breaker)
      → Counted k n (if allowed then x else (s1, err "circuit breaker open")).0.breaker
  by_answer-Counted {k} {n} true s1 x b same h = subst (Counted k n) (sym same) h
  by_answer-Counted false s1 x b same h = h

  -- What follows the guard reports a failure: the guarded call is one more failed call.
  pub if_allowed-Counted :
      {A : Type 0} {k n : ℕ} (s : Session http) (rest : Session http → Session http × Result A)
      → ((s1 : Session http)
          → (now : Instant) × (changed : Instant) × ((rest s1).0.breaker
              ≡ record_failure s1.breaker now changed))
      → Counted k n s.breaker
      → Counted k (suc n) (if_allowed s rest).0.breaker
  unfolding if_allowed ask_breaker read_clock
  if_allowed-Counted s rest fails h =
      let (w, t) = http.now s.world in
      let (v, u) = http.now w in
      let (b, allowed) = allow s.breaker t u in
      let s1 : Session http = record { breaker = b; world = v } in
      let (now, changed, same) = fails s1 in
      by_answer-Counted allowed s1 (rest s1) (record_failure b now changed) same
        (after_failure-Counted s.breaker t u now changed h)

  -- A reported failure, as the breaker sees it.
  pub report_failure_lem :
      (s : Session http)
      → (now : Instant) × (changed : Instant) × ((report_failure s).breaker
          ≡ record_failure s.breaker now changed)
  unfolding report_failure read_clock
  report_failure_lem s = let (w, now) = http.now s.world in (now, (http.now w).1, refl)

  -- The common shape of the calls: one request under the guard, with a reading of the clock or none in
  -- between, and something made of the answer that leaves the session of an error alone.
  pub guarded_call-Counted :
      {A : Type 0} {k n : ℕ} (down : IsDown http) (judge : Response → Verdict A) (s : Session http)
      (request : Option String → Request) (body : Body)
      → IsStrict judge
      → IsSendable body
      → Counted k n s.breaker
      → Counted k (suc n) (guarded_call judge s request body).0.breaker
  unfolding guarded_call
  guarded_call-Counted down judge s request body strict h counted =
      if_allowed-Counted s (λ s1. with_body judge s1 request body)
        (λ s1.
          let (w, e, same) = with_body_fails down judge s1 request body strict h in
          rw same (report_failure_lem (record s1 { world = w })))
        counted

  by_answer_errs :
      {A : Type 0} (allowed : Bool) (s1 : Session http) (x : Session http × Result A)
      → (s2 : Session http) × (e : Error) × (x ≡ (s2, err e))
      → (s2 : Session http) × (e : Error) × ((if allowed
            then x
            else (s1, err "circuit breaker open"))
          ≡ (s2, err e))
  by_answer_errs true s1 x h = h
  by_answer_errs false s1 x h = (s1, "circuit breaker open", refl)

  guarded_call_errs :
      {A : Type 0} (down : IsDown http) (judge : Response → Verdict A) (s : Session http)
      (request : Option String → Request) (body : Body)
      → IsStrict judge
      → IsSendable body
      → (s2 : Session http) × (e : Error) × (guarded_call judge s request body ≡ (s2, err e))
  unfolding guarded_call if_allowed
  guarded_call_errs down judge s request body strict h =
      let (s1, allowed) = ask_breaker s in
      let (w, e, same) = with_body_fails down judge s1 request body strict h in
      by_answer_errs allowed s1 (with_body judge s1 request body)
        (report_failure (record s1 { world = w }), e, same)

  -- A call of which `after` makes something.
  pub call_after-Counted :
      {A B : Type 0} {k n : ℕ} (down : IsDown http)
      (after : Session http × Result A → Session http × Result B) (judge : Response → Verdict A)
      (s : Session http) (request : Option String → Request) (body : Body)
      → ((s1 : Session http) (e : Error) → after (s1, err e) ≡ (s1, err e))
      → IsStrict judge
      → IsSendable body
      → Counted k n s.breaker
      → Counted k (suc n) (after (guarded_call judge s request body)).0.breaker
  call_after-Counted {A} {B} {k} {n} down after judge s request body keeps strict h counted =
      let (s2, e, same) = guarded_call_errs down judge s request body strict h in
      let called : Counted k (suc n) s2.breaker =
        subst (λ (x : Session http × Result A). Counted k (suc n) x.0.breaker) same
          (guarded_call-Counted down judge s request body strict h counted) in
      rw same (rw (keeps s2 e) called)

  -- A search: the clock is read in between, and `after` makes entries of the answer.
  pub search-Counted :
      {B : Type 0} {k n : ℕ} (down : IsDown http) (source : MemorySource)
      (after : Session http × Result B → Session http × Result (List (MemoryEntry fl)))
      (judge : Response → Verdict B) (s : Session http) (request : Option String → Request)
      (body : Body)
      → ((s1 : Session http) (e : Error) → after (s1, err e) ≡ (s1, err e))
      → IsStrict judge
      → IsSendable body
      → Counted k n s.breaker
      → Counted k
          (suc n)
          (if_allowed s (λ s1.
            let (s2, start) = read_clock s1 in
            search_result source start (after (with_body judge s2 request body)))).0.breaker
  unfolding read_clock search_result report_failure
  search-Counted down source after judge s request body keeps strict h counted =
      if_allowed-Counted s _
        (λ s1.
          let s2 : Session http = (read_clock s1).0 in
          let (w, e, same) = with_body_fails down judge s2 request body strict h in
          rw same (
            rw (keeps (report_failure (record s2 { world = w })) e)
              (report_failure_lem (record s2 { world = w }))))
        counted
