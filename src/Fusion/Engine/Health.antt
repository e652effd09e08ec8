-- ===== src/Fusion/Engine/Health.antt =====
-- What a health check leaves behind.
use helix_memory.Prelude.{Bool, ◌≡◌, refl, ◌∙◌, ap₂, Option, none, some}
use helix_memory.Runtime.{Floats}
use helix_memory.Types.MemorySource
use helix_memory.Types.MemorySource.{MemorySource}
use helix_memory.Types.Provider.{MemoryProvider, succeeded}
use helix_memory.Fusion.Engine.{FusionEngine, is_healthy, client, check_health, health_check}
use helix_memory.Fusion.Engine.Systems.{System, is_cognee, is_mem0, is_letta, is_unknown, system}

-- The flag that a check leaves: that of the answer, or the old one if there is no client.
abbrev pub checked : {fl : Floats} (mp : MemoryProvider fl) → Bool → Option mp.State → Bool
checked mp old none = old
checked mp old (some s) = succeeded (mp.health s).1

module _ {fl : Floats} {mp : MemoryProvider fl} where
  check_cognee :
      (e : FusionEngine mp) (c : Option mp.State)
      → let e' = (check_health e MemorySource.cognee c).0 in
        (e'.cognee_healthy ≡ checked mp e.cognee_healthy c)
        × (e'.mem0_healthy ≡ e.mem0_healthy)
        × (e'.letta_healthy ≡ e.letta_healthy)
        × (e'.mem0 ≡ e.mem0)
        × (e'.letta ≡ e.letta)
  unfolding check_health
  check_cognee e none = (refl, refl, refl, refl, refl)
  check_cognee e (some s) = (refl, refl, refl, refl, refl)

  check_mem0 :
      (e : FusionEngine mp) (c : Option mp.State)
      → let e' = (check_health e MemorySource.mem0 c).0 in
        (e'.mem0_healthy ≡ checked mp e.mem0_healthy c)
        × (e'.cognee_healthy ≡ e.cognee_healthy)
        × (e'.letta_healthy ≡ e.letta_healthy)
        × (e'.letta ≡ e.letta)
  unfolding check_health
  check_mem0 e none = (refl, refl, refl, refl)
  check_mem0 e (some s) = (refl, refl, refl, refl)

  check_letta :
      (e : FusionEngine mp) (c : Option mp.State)
      → let e' = (check_health e MemorySource.letta c).0 in
        (e'.letta_healthy ≡ checked mp e.letta_healthy c)
        × (e'.cognee_healthy ≡ e.cognee_healthy)
        × (e'.mem0_healthy ≡ e.mem0_healthy)
  unfolding check_health
  check_letta e none = (refl, refl, refl)
  check_letta e (some s) = (refl, refl, refl)

  health_check_fields :
      (e : FusionEngine mp)
      → let e' = (health_check e).0 in
        (e'.cognee_healthy ≡ checked mp e.cognee_healthy e.cognee)
        × (e'.mem0_healthy ≡ checked mp e.mem0_healthy e.mem0)
        × (e'.letta_healthy ≡ checked mp e.letta_healthy e.letta)
  unfolding health_check
  health_check_fields e =
      let e1 = (check_health e MemorySource.cognee e.cognee).0 in
      let e2 = (check_health e1 MemorySource.mem0 e1.mem0).0 in
      let c = check_cognee e e.cognee in
      let m = check_mem0 e1 e1.mem0 in
      let l = check_letta e2 e2.letta in
      (
        l.1 ∙ (m.1 ∙ c.0),
        l.2 ∙ (m.0 ∙ ap₂ (checked mp) c.1 c.3),
        l.0 ∙ ap₂ (checked mp) (m.2 ∙ c.2) (m.3 ∙ c.4),
      )

  sets_at :
      (e : FusionEngine mp) {s : MemorySource}
      → System s
      → is_healthy (health_check e).0 s ≡ checked mp (is_healthy e s) (client e s)
  unfolding is_healthy client
  sets_at e (is_cognee q) = rw q (health_check_fields e).0
  sets_at e (is_mem0 q) = rw q (health_check_fields e).1
  sets_at e (is_letta q) = rw q (health_check_fields e).2
  sets_at e (is_unknown a b c) = rw (a, b, c)

  -- After a health check a system counts as healthy exactly if its client answered without an error;
  -- a system that has no client keeps its flag.
  pub health_check_sets :
      (e : FusionEngine mp) (s : MemorySource)
      → is_healthy (health_check e).0 s ≡ checked mp (is_healthy e s) (client e s)
  health_check_sets e s = sets_at e (system s)
