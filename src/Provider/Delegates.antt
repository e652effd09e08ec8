-- ===== src/Provider/Delegates.antt =====
-- pkg/provider/unified.go: the calls that go to the systems which offer more than MemoryProvider.
-- Whether the dynamic type of a system has such an interface is a test on its state.
use helix_memory.Prelude.{String, Bool, List, Option, none, some, lookup, if◌then◌else◌}
use helix_memory.Runtime.{Floats, Runtime}
use helix_memory.Types.{MemoryEntry, CoreMemoryBlock, Instant}
use helix_memory.Types.MemorySource
use helix_memory.Types.Provider.{MemoryProvider, Error, Result, ok, err}
use helix_memory.Provider.{UnifiedMemoryProvider, register_provider, call_each, ranged}

-- CoreMemoryProvider, ConsolidationProvider and TemporalProvider, as far as the provider calls them.
pub record Extensions {fl : Floats} (mp : MemoryProvider fl) : Type 0 where
  pub has_core_memory : mp.State → Bool
  pub get_core_memory : mp.State → (agent_id : String) → mp.State × Result (List CoreMemoryBlock)
  pub update_core_memory :
      mp.State → (agent_id : String) → CoreMemoryBlock → mp.State × Option Error
  pub has_consolidation : mp.State → Bool
  pub trigger_consolidation : mp.State → (user_id : String) → mp.State × Option Error
  pub has_temporal : mp.State → Bool
  pub search_temporal :
      mp.State → (query : String) → Instant → mp.State × Result (List (MemoryEntry fl))

abbrev pub done_or_error : Option Error → Result (Unit {0})
done_or_error none = ok tt
done_or_error (some e) = err e

module _ {fl : Floats} {mp : MemoryProvider fl} where
  -- A call of the system registered under a name, if it is registered and offers the call.
  unfoldable pub delegate :
      {A : Type 0} (name : String) (offers : mp.State → Bool)
      (call : mp.State → mp.State × Result A)
      → UnifiedMemoryProvider mp
      → Option mp.State
      → UnifiedMemoryProvider mp × Result A
  unfolding register_provider
  delegate name offers call u none = (u, err "provider not registered")
  delegate name offers call u (some s) =
      let (s', result) = call s in
      if offers s then (register_provider u name s', result) else (u, err "not supported")

module _ {fl : Floats} {mp : MemoryProvider fl} (ext : Extensions mp) where
  unfoldable pub get_core_memory :
      UnifiedMemoryProvider mp
      → (agent_id : String) → UnifiedMemoryProvider mp × Result (List CoreMemoryBlock)
  unfolding delegate lookup
  get_core_memory u agent_id =
      delegate MemorySource.letta ext.has_core_memory (λ s. ext.get_core_memory s agent_id) u
        (lookup MemorySource.letta u.providers)

  unfoldable pub update_core_memory :
      UnifiedMemoryProvider mp
      → (agent_id : String) → CoreMemoryBlock
      → UnifiedMemoryProvider mp × Result (Unit {0})
  unfolding delegate lookup
  update_core_memory u agent_id block =
      delegate MemorySource.letta ext.has_core_memory
        (λ s.
          let (s', error) = ext.update_core_memory s agent_id block in (s', done_or_error error))
        u (lookup MemorySource.letta u.providers)

  -- The errors of the systems are passed over.
  unfoldable pub trigger_consolidation :
      Runtime
      → UnifiedMemoryProvider mp
      → (user_id : String) → UnifiedMemoryProvider mp × Option Error
  unfolding call_each
  trigger_consolidation rt u user_id =
      let trigger = λ (s : mp.State).
        let (s', error) = ext.trigger_consolidation s user_id in
        if ext.has_consolidation s then (s', error) else (s, none) in
      let (u', errors) = call_each trigger u (ranged rt u) in (u', none)

  unfoldable pub search_temporal :
      UnifiedMemoryProvider mp
      → (query : String) → (at : Instant)
      → UnifiedMemoryProvider mp × Result (List (MemoryEntry fl))
  unfolding delegate lookup
  search_temporal u query at =
      delegate MemorySource.graphiti ext.has_temporal (λ s. ext.search_temporal s query at) u
        (lookup MemorySource.graphiti u.providers)
