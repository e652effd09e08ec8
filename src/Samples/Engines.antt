-- ===== src/Samples/Engines.antt =====
-- A fusion engine with Mem0 and Cognee, where Cognee refuses.
use helix_memory.Prelude.{ℕ, suc, ◌≡◌, Bool, true, false, [], none, some, exists}
use helix_memory.Types.Provider.{MemoryProvider, ok, err, succeeded}
use helix_memory.Fusion.Router.{select_systems_for_write}
use helix_memory.Fusion.Engine.{FusionEngine, store}
use helix_memory.Fusion.Engine.Stores.{accepts, store-accepts}
use helix_memory.Samples.World.{thousandths, plain, plain-IsGo}
use helix_memory.Samples.Data.{tea}

-- A backend that is up or down, and counts the entries that it took.
abbrev pub counting : MemoryProvider thousandths
counting = record {
  State = Bool × ℕ;
  add = λ s e. elim s.0 [ true ↦ ((true, suc s.1), none) | false ↦ (s, some "down") ];
  search = λ s r. (s, err "down");
  get = λ s id. (s, ok none);
  update = λ s e. (s, none);
  delete = λ s id. (s, elim s.0 [ true ↦ none | false ↦ some "down" ]);
  get_history = λ s u n. (s, ok []);
  health = λ s. (s, elim s.0 [ true ↦ none | false ↦ some "down" ]);
}

abbrev engine : FusionEngine counting
engine = record {
  cognee = some (false, 0);
  mem0 = some (true, 0);
  letta = none;
  cognee_healthy = true;
  mem0_healthy = true;
  letta_healthy = true;
}

store-accepts_example :
    succeeded (store plain engine tea).1
    ≡ exists (accepts tea engine) (select_systems_for_write tea)
store-accepts_example = store-accepts tea plain plain-IsGo engine
