-- ===== src/Config/Loading.antt =====
-- What a configuration that was read from the environment satisfies.
use helix_memory.Prelude.{
  String, ◌≡◌, true, Option, none, some, refl, arith, Bool, if◌then◌else◌, if_keeps,
}
use helix_memory.Runtime.{Floats}
use helix_memory.Types.Provider.{Error}
use helix_memory.Config.{
  Config, default_config, validate, get_cognee_endpoint, get_mem0_endpoint, get_letta_endpoint,
  is_set,
}
use helix_memory.Config.Environment.{
  Env, get_env, read_config, valid_or_error, config_or, load_config, from_env,
}

-- The endpoints that the getters may choose are not empty.
pub record HasEndpoints {fl : Floats} (c : Config fl) : Type 0 where
  pub cognee_set : is_set (get_cognee_endpoint c) ≡ true
  pub mem0_set : is_set (get_mem0_endpoint c) ≡ true
  pub letta_set : is_set (get_letta_endpoint c) ≡ true

default_config-valid : (fl : Floats) → validate (default_config fl) ≡ none
unfolding validate default_config
default_config-valid fl = refl

default_config-HasEndpoints : (fl : Floats) → HasEndpoints (default_config fl)
unfolding default_config get_cognee_endpoint get_mem0_endpoint get_letta_endpoint
default_config-HasEndpoints fl = record { cognee_set = refl; mem0_set = refl; letta_set = refl }

module _ {fl : Floats} where
  config_or-valid :
      (c : Config fl) (e : Option Error)
      → validate c ≡ e
      → validate (config_or (default_config fl) (valid_or_error c e)) ≡ none
  config_or-valid c none h = h
  config_or-valid c (some e) h = default_config-valid fl

  config_or-HasEndpoints :
      (c : Config fl) (e : Option Error)
      → HasEndpoints c
      → HasEndpoints (config_or (default_config fl) (valid_or_error c e))
  config_or-HasEndpoints c none h = h
  config_or-HasEndpoints c (some e) h = default_config-HasEndpoints fl

chosen_set :
    (b : Bool) (s t : String)
    → is_set s ≡ true
    → is_set t ≡ true
    → is_set (if b then s else t) ≡ true
chosen_set b s t h k = if_keeps (λ (r : String). is_set r ≡ true) b s t h k

module _ {fl : Floats} (env : Env fl) where
  get_env_set :
      (key default : String) → is_set default ≡ true → is_set (get_env env key default) ≡ true
  unfolding get_env
  get_env_set key default h = ground arith

  read_config-HasEndpoints : HasEndpoints (read_config env)
  unfolding read_config get_cognee_endpoint get_mem0_endpoint get_letta_endpoint
  read_config-HasEndpoints = record {
    cognee_set =
        chosen_set _ _ _ (get_env_set "HELIX_MEMORY_COGNEE_ENDPOINT" "http://localhost:8000" refl)
          (get_env_set "HELIX_MEMORY_COGNEE_CLOUD_ENDPOINT" "https://api.cognee.ai" refl);
    mem0_set =
        chosen_set _ _ _ (get_env_set "HELIX_MEMORY_MEM0_CLOUD_ENDPOINT" "https://api.mem0.ai" refl)
          (get_env_set "HELIX_MEMORY_MEM0_ENDPOINT" "http://localhost:8001" refl);
    letta_set =
        chosen_set _ _ _
          (get_env_set "HELIX_MEMORY_LETTA_CLOUD_ENDPOINT" "https://api.letta.com" refl)
          (get_env_set "HELIX_MEMORY_LETTA_ENDPOINT" "http://localhost:8283" refl);
  }

  -- Whatever the environment holds, FromEnv gives a configuration that passes Validate, and whose
  -- endpoints, as the getters choose them, are not empty.
  pub from_env_valid : (validate (from_env env) ≡ none) × HasEndpoints (from_env env)
  unfolding from_env load_config
  from_env_valid = (
    config_or-valid (read_config env) (validate (read_config env)) refl,
    config_or-HasEndpoints (read_config env) (validate (read_config env)) read_config-HasEndpoints,
  )
