-- ===== src/Samples/Stores.antt =====
-- A memory of package store, as a record.
use helix_memory.Prelude.{
  ℕ, ◌≡◌, ◌≢◌, refl, List, [], ◌∷◌, Option, none, some, Dict, String, All, lookup, ne_of_str_eq,
  arith,
}
use helix_memory.Prelude.Int.{ℤ}
use helix_memory.Types.{Instant, Value, text}
use helix_memory.Provider.Adapter.{
  StoreModule, entries_of_map, module_memory_to_entry, entry_to_module_memory,
}
use helix_memory.Provider.Adapter.RoundTrip.{IsStruct, reserved, round_trip}
use helix_memory.Samples.World.{thousandths}

pub record Memory : Type 0 where
  pub id : String
  pub content : String
  pub metadata : Option (Dict (Value thousandths))
  pub scope : String
  pub created_at : Instant
  pub updated_at : Instant
  pub score : ℕ
  pub embedding : List ℕ

abbrev pub store_module : StoreModule thousandths
store_module = record {
  Memory = Memory;
  memory = λ i c m s t u x e. record {
    id = i;
    content = c;
    metadata = m;
    scope = s;
    created_at = t;
    updated_at = u;
    score = x;
    embedding = e;
  };
  id = λ m. m.id;
  content = λ m. m.content;
  metadata = λ m. m.metadata;
  scope = λ m. m.scope;
  created_at = λ m. m.created_at;
  updated_at = λ m. m.updated_at;
  score = λ m. m.score;
  embedding = λ m. m.embedding;
  scope_user = "user";
  SearchOptions = ℤ;
  top_k = λ k. k;
  min_score = λ k. 0;
  scope_of = λ k. "";
  time_range = λ k. none;
  ListOptions = ℤ;
  limit = λ k. k;
}

pub store_module-IsStruct : IsStruct store_module
store_module-IsStruct = record {
  fields = λ i c m s t u x e. (refl, refl, refl, refl, refl, refl, refl, refl);
}

abbrev pub note : Memory
note = record {
  id = "n1";
  content = "likes tea";
  metadata = some (("topic", text "tea") ∷ []);
  scope = "team";
  created_at = 5;
  updated_at = 6;
  score = 700;
  embedding = [];
}

round_trip_example :
    let r =
      entry_to_module_memory store_module (1, 2) (module_memory_to_entry store_module "new" note) in
    (r.id ≡ "n1")
    × (r.content ≡ "likes tea")
    × (r.scope ≡ "team")
    × (r.created_at ≡ 5)
    × (r.updated_at ≡ 6)
    × (r.score ≡ 700)
    × (r.embedding ≡ [])
    × ((k : String)
        → All (λ j. j ≢ k) reserved
        → lookup k (entries_of_map r.metadata) ≡ lookup k (("topic", text "tea") ∷ []))
round_trip_example =
    round_trip store_module store_module-IsStruct "new" (1, 2) note (ne_of_str_eq "n1" "" refl)
      (λ e. ground (arith, e)) (λ e. ground (arith, e)) (tt, tt)
