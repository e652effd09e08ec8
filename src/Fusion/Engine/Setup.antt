-- ===== src/Fusion/Engine/Setup.antt =====
-- NewFusionEngine of pkg/fusion/engine.go: which clients a new engine has. The constructors of the
-- clients are an argument, by the client's name.
use helix_memory.Prelude.{
  ◌≡◌, Bool, true, false, ◌&&◌, [], ◌∷◌, Option, none, some, str_eq, is_seen, arith, if◌then◌else◌,
  exists_none, str_eq_comm, ◌∙◌,
}
use helix_memory.Runtime.{Floats, Runtime, IsGo}
use helix_memory.Types.{MemoryEntry}
use helix_memory.Types.MemorySource
use helix_memory.Types.MemorySource.{MemorySource}
use helix_memory.Types.Provider.{MemoryProvider, succeeded}
use helix_memory.Config.{Config, is_set, get_active_services}
use helix_memory.Config.Services.{get_active_services_lem, one_mode}
use helix_memory.Fusion.Router.{select_systems_for_write}
use helix_memory.Fusion.Engine.{FusionEngine, available, client, is_healthy, store}
use helix_memory.Fusion.Engine.Stores.{accepts, store-accepts}
use helix_memory.Fusion.Engine.Systems.{System, system, is_cognee, is_mem0, is_letta, is_unknown}

module _ {fl : Floats} (mp : MemoryProvider fl)
    (new_client : MemorySource → Config fl → mp.State) where
  unfoldable pub new_fusion_engine : Config fl → FusionEngine mp
  new_fusion_engine cfg = record {
    cognee =
        if is_set cfg.cognee_endpoint && is_set cfg.cognee_api_key
        then some (new_client MemorySource.cognee cfg)
        else none;
    mem0 =
        if is_set cfg.mem0_endpoint && is_set cfg.mem0_api_key
        then some (new_client MemorySource.mem0 cfg)
        else none;
    letta =
        if is_set cfg.letta_endpoint && is_set cfg.letta_api_key
        then some (new_client MemorySource.letta cfg)
        else none;
    cognee_healthy = true;
    mem0_healthy = true;
    letta_healthy = true;
  }

  -- The constructors of the clients give no error, so the panic is never reached.
  unfoldable pub new_engine : Config fl → FusionEngine mp
  unfolding new_fusion_engine
  new_engine cfg = new_fusion_engine cfg

abbrev pub is_there {ℓ} : {A : Type ℓ} → Option A → Bool
is_there none = false
is_there (some a) = true

-- The endpoints that NewFusionEngine asks for.
pub record HasAddresses {fl : Floats} (cfg : Config fl) : Type 0 where
  pub cognee_there : is_set cfg.cognee_endpoint ≡ true
  pub mem0_there : is_set cfg.mem0_endpoint ≡ true
  pub letta_there : is_set cfg.letta_endpoint ≡ true

module _ {fl : Floats} (mp : MemoryProvider fl) (new_client : MemorySource → Config fl → mp.State)
    (cfg : Config fl) where
  keyed : MemorySource → Bool
  keyed s =
      if str_eq s MemorySource.cognee
      then is_set cfg.cognee_api_key
      else if str_eq s MemorySource.mem0
      then is_set cfg.mem0_api_key
      else if str_eq s MemorySource.letta
      then is_set cfg.letta_api_key
      else false

  available-keyed :
      (s : MemorySource)
      → HasAddresses cfg
      → is_there (available (new_engine mp new_client cfg) s) ≡ keyed s
  unfolding available client is_healthy new_engine keyed
  available-keyed s h = ground arith

  keyed-active :
      {s : MemorySource}
      → System s
      → str_eq cfg.mode "cloud" ≡ true
      → keyed s ≡ is_seen s (get_active_services cfg)
  unfolding keyed
  keyed-active (is_cognee e) cloud =
      rw e (ground (arith, get_active_services_lem cfg MemorySource.cognee, one_mode cfg.mode))
  keyed-active (is_mem0 e) cloud =
      rw e (ground (arith, get_active_services_lem cfg MemorySource.mem0, one_mode cfg.mode))
  keyed-active (is_letta e) cloud =
      rw e (ground (arith, get_active_services_lem cfg MemorySource.letta, one_mode cfg.mode))
  keyed-active {s} (is_unknown a b c) cloud = ground (
    arith,
    get_active_services_lem cfg s,
    str_eq_comm "cognee" s,
    str_eq_comm "mem0" s,
    str_eq_comm "letta" s,
  )

  -- In cloud mode, with the endpoints set, a new engine has a client for exactly the services that the
  -- configuration calls active, and each is taken for healthy.
  pub new_engine-active :
      (s : MemorySource)
      → HasAddresses cfg
      → str_eq cfg.mode "cloud" ≡ true
      → is_there (available (new_engine mp new_client cfg) s) ≡ is_seen s (get_active_services cfg)
  new_engine-active s h cloud = available-keyed s h ∙ keyed-active (system s) cloud

  keyless_refuses :
      (entry : MemoryEntry fl)
      → is_set cfg.cognee_api_key ≡ false
      → is_set cfg.mem0_api_key ≡ false
      → is_set cfg.letta_api_key ≡ false
      → (s : MemorySource) → accepts entry (new_engine mp new_client cfg) s ≡ false
  unfolding new_engine available client is_healthy
  keyless_refuses entry c m l s = ground arith

  -- With no API key, a configuration in local mode calls three services active, and a new engine
  -- refuses every entry.
  pub keyless_engine_refuses :
      (rt : Runtime) (go : IsGo rt) (entry : MemoryEntry fl)
      → str_eq cfg.mode "local" ≡ true
      → is_set cfg.cognee_api_key ≡ false
      → is_set cfg.mem0_api_key ≡ false
      → is_set cfg.letta_api_key ≡ false
      → (get_active_services cfg ≡ "cognee" ∷ "mem0" ∷ "letta" ∷ [])
        × (succeeded (store rt (new_engine mp new_client cfg) entry).1 ≡ false)
  unfolding get_active_services
  keyless_engine_refuses rt go entry mode c m l = (
    ground (arith),
    store-accepts entry rt go (new_engine mp new_client cfg)
        ∙ exists_none (accepts entry (new_engine mp new_client cfg))
            (select_systems_for_write entry) (keyless_refuses entry c m l),
  )
