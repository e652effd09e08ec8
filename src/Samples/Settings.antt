-- ===== src/Samples/Settings.antt =====
-- Configurations, and the engines that they give.
use helix_memory.Prelude.{◌≡◌, refl, true, false, ◌&&◌, [], ◌∷◌, ltb, length, is_seen}
use helix_memory.Types.MemorySource
use helix_memory.Types.Provider.{succeeded}
use helix_memory.Config.{Config, default_config, validate, get_active_services}
use helix_memory.Config.Services.{known_mode, validate-active}
use helix_memory.Fusion.Engine.{available, store}
use helix_memory.Fusion.Engine.Setup.{
  new_engine, is_there, HasAddresses, new_engine-active, keyless_engine_refuses,
}
use helix_memory.Samples.World.{thousandths, plain, plain-IsGo}
use helix_memory.Samples.Data.{tea}
use helix_memory.Samples.Engines.{counting}

-- Cloud mode, with a key for Letta only.
abbrev letta_cloud : Config thousandths
unfolding default_config
letta_cloud = record (default_config thousandths) { mode = "cloud"; letta_api_key = "key" }

letta_cloud-HasAddresses : HasAddresses letta_cloud
unfolding letta_cloud default_config
letta_cloud-HasAddresses = record { cognee_there = refl; mem0_there = refl; letta_there = refl }

validate-active_example :
    succeeded (validate letta_cloud)
    ≡ (known_mode letta_cloud && ltb 0 (length (get_active_services letta_cloud)))
validate-active_example = validate-active letta_cloud

new_engine-active_example :
    is_there
      (available (new_engine counting (λ name cfg. (true, 0)) letta_cloud) MemorySource.letta)
    ≡ is_seen MemorySource.letta (get_active_services letta_cloud)
unfolding letta_cloud default_config
new_engine-active_example =
    new_engine-active counting (λ name cfg. (true, 0)) letta_cloud MemorySource.letta
      letta_cloud-HasAddresses refl

keyless_engine_refuses_example :
    (get_active_services (default_config thousandths) ≡ "cognee" ∷ "mem0" ∷ "letta" ∷ [])
    × (succeeded
          (store plain
            (new_engine counting (λ name cfg. (true, 0)) (default_config thousandths))
            tea).1
        ≡ false)
unfolding default_config
keyless_engine_refuses_example =
    keyless_engine_refuses counting (λ name cfg. (true, 0)) (default_config thousandths) plain
      plain-IsGo tea refl refl refl refl
