-- ===== src/Types/Provider.antt =====
-- The interface `MemoryProvider` of pkg/types/types.go: what a memory system does, over a state of
-- its own. Every call may change the state. An error is a text, and `none` is a nil error.
use helix_memory.Prelude.{String, Bool, true, false, List, [], ◌∷◌, Option, none, some}
use helix_memory.Prelude.Int.{ℤ}
use helix_memory.Runtime.{Floats}
use helix_memory.Types.{MemoryEntry, SearchRequest, SearchResult}

abbrev pub Error : Type 0
Error = String

-- A pair (value, err) of which one part counts.
pub data Result {ℓ} (A : Type ℓ) : Type ℓ where
  ok : A → Result A
  err : Error → Result A

-- The values that are pointers may be nil.
pub record MemoryProvider (fl : Floats) : Type 1 where
  pub State : Type 0
  pub add : State → MemoryEntry fl → State × Option Error
  pub search : State → SearchRequest fl → State × Result (Option (SearchResult fl))
  pub get : State → String → State × Result (Option (MemoryEntry fl))
  pub update : State → MemoryEntry fl → State × Option Error
  pub delete : State → String → State × Option Error
  pub get_history : State → String → ℤ → State × Result (List (MemoryEntry fl))
  pub health : State → State × Option Error

abbrev pub succeeded : Option Error → Bool
succeeded none = true
succeeded (some e) = false

-- What every operation of a memory system keeps.
pub record IsInvariant {fl : Floats} (mp : MemoryProvider fl) (Q : mp.State → Type 0) : Type 0 where
  pub add_keeps : (s : mp.State) (e : MemoryEntry fl) → Q s → Q (mp.add s e).0
  pub search_keeps : (s : mp.State) (r : SearchRequest fl) → Q s → Q (mp.search s r).0
  pub get_keeps : (s : mp.State) (id : String) → Q s → Q (mp.get s id).0
  pub update_keeps : (s : mp.State) (e : MemoryEntry fl) → Q s → Q (mp.update s e).0
  pub delete_keeps : (s : mp.State) (id : String) → Q s → Q (mp.delete s id).0
  pub get_history_keeps :
      (s : mp.State) (user_id : String) (limit : ℤ) → Q s → Q (mp.get_history s user_id limit).0
  pub health_keeps : (s : mp.State) → Q s → Q (mp.health s).0

-- A call of an operation, and the state after a sequence of calls.
pub data Operation (fl : Floats) : Type 0 where
  adds updates : MemoryEntry fl → Operation fl
  searches : SearchRequest fl → Operation fl
  gets deletes : (id : String) → Operation fl
  gets_history : (user_id : String) → (limit : ℤ) → Operation fl
  checks_health : Operation fl

module _ {fl : Floats} (mp : MemoryProvider fl) where
  unfoldable pub operate : mp.State → Operation fl → mp.State
  operate s (adds e) = (mp.add s e).0
  operate s (updates e) = (mp.update s e).0
  operate s (searches r) = (mp.search s r).0
  operate s (gets id) = (mp.get s id).0
  operate s (deletes id) = (mp.delete s id).0
  operate s (gets_history user_id limit) = (mp.get_history s user_id limit).0
  operate s checks_health = (mp.health s).0

  unfoldable pub operate_all : mp.State → List (Operation fl) → mp.State
  unfolding operate
  operate_all s [] = s
  operate_all s (o ∷ os) = operate_all (operate s o) os

  module _ (Q : mp.State → Type 0) (kept : IsInvariant mp Q) where
    operate-IsInvariant : (s : mp.State) (o : Operation fl) → Q s → Q (operate s o)
    unfolding operate
    operate-IsInvariant s (adds e) h = kept.add_keeps s e h
    operate-IsInvariant s (updates e) h = kept.update_keeps s e h
    operate-IsInvariant s (searches r) h = kept.search_keeps s r h
    operate-IsInvariant s (gets id) h = kept.get_keeps s id h
    operate-IsInvariant s (deletes id) h = kept.delete_keeps s id h
    operate-IsInvariant s (gets_history u n) h = kept.get_history_keeps s u n h
    operate-IsInvariant s checks_health h = kept.health_keeps s h

    -- An invariant holds after every sequence of calls.
    pub operate_all-IsInvariant :
        (s : mp.State) (os : List (Operation fl)) → Q s → Q (operate_all s os)
    unfolding operate_all
    operate_all-IsInvariant s [] h = h
    operate_all-IsInvariant s (o ∷ os) h =
        operate_all-IsInvariant (operate s o) os (operate-IsInvariant s o h)
