-- ===== src/Samples/LocalStores.antt =====
-- The local store over a table of rows, and with a codec that knows one memory.
use helix_memory.Prelude.{
  String, str_eq, ◌≡◌, ◌∙◌, sym, refl, ap, Bool-cases, inl, inr, eq_iff, arith, if◌then◌else◌, List,
  [], ◌∷◌, Option, none, some, eq_refl, length,
}
use helix_memory.Prelude.Int.{pos}
use helix_memory.Types.{text}
use helix_memory.Types.Provider.{Error, Result, ok, err}
use helix_memory.LocalStore.Rows.{
  Row, StoreJson, Database, StoreOptions, on_conflict, memory_of, unmarshal_embedding,
}
use helix_memory.LocalStore.{StableSort, add, get, search, matching, read_rows}
use helix_memory.LocalStore.Kept.{IsTable, merged, add-get}
use helix_memory.LocalStore.Ranked.{SortsStably, IsBest, search-IsBest}
use helix_memory.Samples.World.{thousandths, thousandths-IsStrictWeak, plain, plain-IsGo}
use helix_memory.Samples.Stores.{Memory, store_module, store_module-IsStruct, note}

abbrev find_row : (k : String) → List (Row thousandths) → Option (Row thousandths)
find_row k [] = none
find_row k (r ∷ rs) = if str_eq r.id k then some r else find_row k rs

abbrev put :
    (set : Row thousandths → Row thousandths → Row thousandths)
    → Row thousandths
    → List (Row thousandths)
    → List (Row thousandths)
put set row [] = row ∷ []
put set row (r ∷ rs) = if str_eq r.id row.id then set r row ∷ rs else r ∷ put set row rs

-- A table as a list of rows.
abbrev table : Database thousandths
table = record {
  State = List (Row thousandths);
  upsert = λ s set row. (put set row s, none);
  update_by_id = λ s row. (s, ok 0);
  delete_by_id = λ s id. (s, ok 0);
  select_by_id = λ s id. ok (find_row id s);
  select_where = λ s scope range. ok s;
  list_where = λ s scope order window. ok s;
  count_rows = λ s. ok (length s);
}

unwrapped : Option (Row thousandths) → Result (Option (Row thousandths)) → Option (Row thousandths)
unwrapped otherwise (ok old) = old
unwrapped otherwise (err e) = otherwise

find_row-put :
    (set : Row thousandths → Row thousandths → Row thousandths) (row : Row thousandths)
    (s : List (Row thousandths))
    → ((a b : Row thousandths) → (set a b).id ≡ a.id)
    → find_row row.id (put set row s) ≡ some (merged set row (find_row row.id s))
find_row-put set row [] keeps = rw (eq_refl row.id) refl
find_row-put set row (r ∷ rs) keeps = elim (Bool-cases (str_eq r.id row.id)) [
  | inl e ↦ rw e (rw (keeps r row) (rw e refl))
  | inr e ↦ rw e (rw e (find_row-put set row rs keeps))
]

table_keyed :
    (s : List (Row thousandths)) (k : String) (row : Row thousandths)
    → find_row k s ≡ some row
    → row.id ≡ k
table_keyed [] k row h = ground arith
table_keyed (r ∷ rs) k row h = ground (arith, eq_iff r.id k, table_keyed rs k row)

table-IsTable : IsTable table
unfolding unwrapped
table-IsTable = record {
  upserted = λ s s' set row old held keeps wrote.
      let before : find_row row.id s ≡ old = ap (unwrapped none) held in
      let after : put set row s ≡ s' =
        ap (λ (p : List (Row thousandths) × Option Error). p.0) wrote in
      ap (λ (t : List (Row thousandths)). table.select_by_id t row.id) (sym after)
      ∙ ap ok (
          find_row-put set row s keeps
          ∙ ap (λ (o : Option (Row thousandths)). some (merged set row o)) before);
  keyed = λ s k row held. table_keyed s k row (ap (unwrapped none) held);
}

-- The codec that knows one map and one list of numbers.
abbrev braces : StoreJson thousandths
braces = record {
  marshal_map = λ m. ok "{topic}";
  unmarshal_map = λ t. ok (some (("topic", text "tea") ∷ []));
  marshal_floats = λ xs. ok "[1,2]";
  unmarshal_floats = λ t. ok (1 ∷ 2 ∷ []);
}

abbrev embedded : Memory
embedded = record note { embedding = 1 ∷ 2 ∷ []; updated_at = 8; content = "likes green tea" }

-- What was there before, with another creation time.
abbrev kept_row : Row thousandths
kept_row = record {
  id = "n1";
  content = "likes tea";
  scope = "team";
  metadata = "{topic}";
  embedding = none;
  score = 700;
  created_at = 3;
  updated_at = 4;
}

abbrev changed_row : Row thousandths
changed_row = record kept_row {
  content = "likes green tea";
  embedding = some "[1,2]";
  updated_at = 8;
}

add-get_example :
    (r : Memory) × (get store_module braces table (changed_row ∷ []) "n1" ≡ ok r)
    × (r.id ≡ "n1")
    × (r.content ≡ "likes green tea")
    × (r.scope ≡ "team")
    × (r.score ≡ 700)
    × (r.metadata ≡ some (("topic", text "tea") ∷ []))
    × (r.embedding ≡ 1 ∷ 2 ∷ [])
    × (r.created_at ≡ 3)
    × (r.updated_at ≡ 8)
unfolding add on_conflict
add-get_example =
    add-get store_module store_module-IsStruct braces table table-IsTable "new" 9 (kept_row ∷ [])
      (changed_row ∷ []) embedded (some kept_row) refl
      (record { encoded = "{topic}"; marshals = refl; not_empty = refl; reads_back = refl })
      (record { encoded = "[1,2]"; marshals = refl; not_empty = refl; reads_back = refl }) refl refl

abbrev options : StoreOptions store_module
options = record {
  default_search_options = pos 1;
  default_list_options = pos 1;
  list_scope = λ k. "";
  order_by = λ k. "";
  offset = λ k. pos 0;
}

abbrev by_insertion : StableSort
by_insertion = record { sort_stable = plain.sort_slice }

by_insertion-SortsStably : SortsStably by_insertion
by_insertion-SortsStably = record {
  sort_stable-perm = plain-IsGo.sort_slice-perm;
  sort_stable_sorts = plain-IsGo.sort_slice_sorts;
}

search-IsBest_example :
    (ms : List Memory) × (search store_module options braces table plain by_insertion
        (λ s. s ∷ [])
        (kept_row ∷ [])
        "tea"
        none
      ≡ ok ms)
    × IsBest thousandths-IsStrictWeak store_module options braces table plain by_insertion
        by_insertion-SortsStably
        (λ s. s ∷ [])
        (pos 1)
        (matching store_module options braces table plain by_insertion
          (λ s. s ∷ [])
          "tea"
          (pos 1)
          (record note { created_at = 3; updated_at = 4 } ∷ []))
        ms
unfolding read_rows memory_of unmarshal_embedding
search-IsBest_example =
    search-IsBest thousandths-IsStrictWeak store_module options braces table plain by_insertion
      by_insertion-SortsStably (λ s. s ∷ []) (kept_row ∷ []) "tea" none (kept_row ∷ [])
      (record note { created_at = 3; updated_at = 4 } ∷ []) refl refl
