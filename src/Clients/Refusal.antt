-- ===== src/Clients/Refusal.antt =====
-- The clients while the circuit breaker allows nothing.
pub mod Mem0
pub mod Graphiti
pub mod Cognee
pub mod Letta
pub mod Further
pub mod All
use helix_memory.Prelude.{◌≡◌, refl, Bool, true, false, Option, none, some, String, ◌⊎◌, inl, inr}
use helix_memory.Prelude.Int.{ℤ}
use helix_memory.Runtime.{Floats}
use helix_memory.Types.{MemoryEntry, SearchRequest}
use helix_memory.Types.Provider.{MemoryProvider, Error, Result, ok, err, succeeded}
use helix_memory.Clients.Answers.{if_valid}
use helix_memory.Clients.{
  Request, Response, Http, Session, Verdict, Body, ask_breaker, with_body, if_allowed, guarded_call,
  error_of,
}

abbrev pub is_ok : {A : Type 0} → Result A → Bool
is_ok (ok a) = true
is_ok (err e) = false

-- Every operation but Health fails, and leaves a state that `P` holds of.
pub record Refuses {fl : Floats} (mp : MemoryProvider fl) (s : mp.State) (P : mp.State → Type 0)
    : Type 0 where
  pub add_refused : (e : MemoryEntry fl) → P (mp.add s e).0 × (succeeded (mp.add s e).1 ≡ false)
  pub search_refused :
      (r : SearchRequest fl) → P (mp.search s r).0 × (is_ok (mp.search s r).1 ≡ false)
  pub get_refused : (id : String) → P (mp.get s id).0 × (is_ok (mp.get s id).1 ≡ false)
  pub update_refused :
      (e : MemoryEntry fl) → P (mp.update s e).0 × (succeeded (mp.update s e).1 ≡ false)
  pub delete_refused : (id : String) → P (mp.delete s id).0 × (succeeded (mp.delete s id).1 ≡ false)
  pub get_history_refused :
      (user_id : String) (limit : ℤ)
      → P (mp.get_history s user_id limit).0 × (is_ok (mp.get_history s user_id limit).1 ≡ false)

module _ {fl : Floats} {http : Http fl} where
  -- Nothing was sent: at most the breaker was asked.
  abbrev pub IsQuiet : (before after : Session http) → Type 0
  IsQuiet before after = (after ≡ before) ⊎ (after ≡ (ask_breaker before).0)

  module _ {A : Type 0} (s : Session http) (shut : (ask_breaker s).1 ≡ false) where
    pub if_allowed_refuses :
        (rest : Session http → Session http × Result A)
        → if_allowed s rest ≡ ((ask_breaker s).0, err "circuit breaker open")
    unfolding if_allowed
    if_allowed_refuses rest = rw shut refl

    pub guarded_call_refuses :
        (judge : Response → Verdict A) (request : Option String → Request) (body : Body)
        → guarded_call judge s request body ≡ ((ask_breaker s).0, err "circuit breaker open")
    unfolding guarded_call
    guarded_call_refuses judge request body =
        if_allowed_refuses (λ s1. with_body judge s1 request body)

  -- A call that failed, and sent nothing.
  abbrev pub IsRefusal : {A : Type 0} → Session http → Session http × Result A → Type 0
  IsRefusal before x = IsQuiet before x.0 × (is_ok x.1 ≡ false)

  pub if_valid-IsRefusal :
      {A : Type 0} (s : Session http) (e : Option Error) (rest : Session http × Result A)
      → IsRefusal s rest
      → IsRefusal s (if_valid s e rest)
  if_valid-IsRefusal s none rest h = h
  if_valid-IsRefusal s (some e) rest h = (inl refl, refl)

  -- The error that a refused call without a result returns.
  pub error_of_refusal :
      (s : Session http) (x : Session http × Result (Unit {0}))
      → IsRefusal s x
      → IsQuiet s x.0 × (succeeded (error_of x.1) ≡ false)
  error_of_refusal s (s', ok done) h = h
  error_of_refusal s (s', err e) h = h
