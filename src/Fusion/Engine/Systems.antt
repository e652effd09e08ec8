-- ===== src/Fusion/Engine/Systems.antt =====
-- The clients of the engine, by name: a call on one of them leaves the others alone.
use helix_memory.Prelude.{
  false, ◌≡◌, ◌≢◌, sym, ◌∙◌, str_eq, str_eq-false, eq_iff, Bool-cases, inl, inr,
}
use helix_memory.Runtime.{Floats}
use helix_memory.Types.MemorySource
use helix_memory.Types.MemorySource.{MemorySource}
use helix_memory.Types.Provider.{MemoryProvider}
use helix_memory.Fusion.Engine.{FusionEngine, is_healthy, client, set_client, available}

-- A case split on a system's name, as in the engine's switches.
pub data System (s : MemorySource) : Type 0 where
  is_cognee : s ≡ MemorySource.cognee → System s
  is_mem0 : s ≡ MemorySource.mem0 → System s
  is_letta : s ≡ MemorySource.letta → System s
  is_unknown :
      str_eq s MemorySource.cognee ≡ false
      → str_eq s MemorySource.mem0 ≡ false
      → str_eq s MemorySource.letta ≡ false
      → System s

pub system : (s : MemorySource) → System s
system s = elim (Bool-cases (str_eq s MemorySource.cognee)) [
  | inl c ↦ is_cognee ((eq_iff s _).0 c)
  | inr c ↦ elim (Bool-cases (str_eq s MemorySource.mem0)) [
    | inl m ↦ is_mem0 ((eq_iff s _).0 m)
    | inr m ↦ elim (Bool-cases (str_eq s MemorySource.letta)) [
      | inl l ↦ is_letta ((eq_iff s _).0 l)
      | inr l ↦ is_unknown c m l
    ]
  ]
]

apart : (s t k : MemorySource) → s ≢ t → s ≡ k → str_eq t k ≡ false
apart s t k other e = str_eq-false t k (λ q. other (e ∙ sym q))

module _ {fl : Floats} {mp : MemoryProvider fl} where
  set_client_at :
      (e : FusionEngine mp) {s : MemorySource} (t : MemorySource) (c : mp.State)
      → s ≢ t
      → System s
      → available (set_client e s c) t ≡ available e t
  unfolding available client set_client is_healthy
  set_client_at e {s} t c other (is_cognee q) = rw (q, apart s t _ other q)
  set_client_at e {s} t c other (is_mem0 q) = rw (q, apart s t _ other q)
  set_client_at e {s} t c other (is_letta q) = rw (q, apart s t _ other q)
  set_client_at e t c other (is_unknown a b d) = rw (a, b, d)

  pub available-set_client_ne :
      (e : FusionEngine mp) (s t : MemorySource) (c : mp.State)
      → s ≢ t
      → available (set_client e s c) t ≡ available e t
  available-set_client_ne e s t c other = set_client_at e t c other (system s)
