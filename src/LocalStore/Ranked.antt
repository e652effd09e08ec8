-- ===== src/LocalStore/Ranked.antt =====
-- What Search returns.
use helix_memory.Prelude.{
  ℕ, ◌≡◌, ap, ◌∙◌, String, Bool, true, false, ◌&&◌, List, map, take, length, length-take, drop,
  take-append-drop, take-IsChained-drop, ◌++◌, [], All-of_Mem, refl, length-Perm, Option, All,
  All-Perm, All-take, keep_passes, IsChained, IsChained-take, IsChained-of_Pairwise, Pairwise, Perm,
  Bool-cases, inl, inr, if◌then◌else◌, ltb, swap_sides, arith,
}
use mathlib.Core.List.Perm
use mathlib.Core.List.{append-nil}
use helix_memory.Prelude.Int.{ℤ, pos, pos_part, ltb_ℤ}
use helix_memory.Runtime.{Floats, Runtime, IsStrictWeak}
use helix_memory.Types.Provider.{Result, ok}
use helix_memory.Provider.Adapter.{StoreModule}
use helix_memory.LocalStore.Rows.{Row, StoreJson, Database, StoreOptions}
use helix_memory.LocalStore.{
  StableSort, read_rows, read_all, search_options_or, matching, by_score, best, ranked, search,
}

-- What the Go documentation says of sort.SliceStable; that it is stable is not used.
pub record SortsStably (stable : StableSort) : Type 1 where
  pub sort_stable-perm :
      (A : Type 0) (less : A → A → Bool) (xs : List A) → Perm (stable.sort_stable A less xs) xs
  pub sort_stable_sorts :
      (A : Type 0) (less : A → A → Bool) (xs : List A)
      → IsStrictWeak less
      → Pairwise (λ a b. less b a ≡ false) (stable.sort_stable A less xs)

-- A positive limit cuts.
abbrev pub limited : (top_k : ℤ) → ℕ → ℕ
limited top_k n = if ltb_ℤ (pos 0) top_k && ltb (pos_part top_k) n then pos_part top_k else n

module _ {fl : Floats} (strict : IsStrictWeak fl.lt) (store : StoreModule fl)
    (options : StoreOptions store) (json : StoreJson fl) (db : Database fl) (rt : Runtime)
    (stable : StableSort) (sorts : SortsStably stable) (fields : String → List String) where
  -- No later memory has the higher score.
  abbrev pub NotBelow : store.Memory → store.Memory → Type 0
  NotBelow a b = fl.lt (store.score a) (store.score b) ≡ false

  by_score-IsStrictWeak : IsStrictWeak (by_score store options json db rt stable fields)
  unfolding by_score
  by_score-IsStrictWeak = record {
    irrefl = λ a. strict.irrefl (store.score a);
    trans = λ a b c p q. strict.trans (store.score c) (store.score b) (store.score a) q p;
    cotrans =
        λ a b c p. swap_sides (strict.cotrans (store.score c) (store.score b) (store.score a) p);
  }

  -- `ms` is a part of `found` of the size that the limit allows, in order, and what is dropped scores
  -- above nothing that is kept; no score in `ms` is below the least that is asked for.
  abbrev pub IsBest : store.SearchOptions → (found ms : List store.Memory) → Type 0
  IsBest opts found ms =
      (dropped : List store.Memory) × Perm (ms ++ dropped) found
      × IsChained NotBelow ms
      × All (λ k. All (NotBelow k) dropped) ms
      × All (λ m. fl.ge (store.score m) (store.min_score opts) ≡ true) ms
      × (length ms ≡ limited (store.top_k opts) (length found))

  cut-IsBest :
      (top_k : ℤ) (opts : store.SearchOptions) (found sorted : List store.Memory)
      → top_k ≡ store.top_k opts
      → IsChained NotBelow sorted
      → Perm sorted found
      → All (λ m. fl.ge (store.score m) (store.min_score opts) ≡ true) sorted
      → IsBest opts found (
          if ltb_ℤ (pos 0) top_k && ltb (pos_part top_k) (length sorted)
          then take (pos_part top_k) sorted
          else sorted)
  cut-IsBest top_k opts found sorted k c p passes =
      let n = pos_part top_k in
      let size = length-take n sorted in
      let same = length-Perm p in
      elim (Bool-cases (ltb_ℤ (pos 0) top_k && ltb n (length sorted))) [
        | inl e ↦ rw e (
          drop n sorted,
          rw (take-append-drop n sorted) p,
          IsChained-take NotBelow n sorted c,
          take-IsChained-drop NotBelow n sorted c,
          All-take _ n sorted passes,
          ground (arith, size, same, e, k),
        )
        | inr e ↦ rw e (
          [],
          rw (append-nil sorted) p,
          c,
          All-of_Mem (λ k. All (NotBelow k) []) sorted (λ k m. tt),
          passes,
          ground (arith, same, e, k),
        )
      ]

  best-IsBest :
      (opts : store.SearchOptions) (found : List store.Memory)
      → All (λ m. fl.ge (store.score m) (store.min_score opts) ≡ true) found
      → IsBest opts found (best store options json db rt stable fields opts found)
  unfolding best
  best-IsBest opts found passes =
      let less = by_score store options json db rt stable fields in
      let sorted = stable.sort_stable store.Memory less found in
      let order = sorts.sort_stable-perm store.Memory less found in
      cut-IsBest (store.top_k opts) opts found sorted refl
        (IsChained-of_Pairwise NotBelow sorted
          (sorts.sort_stable_sorts store.Memory less found by_score-IsStrictWeak))
        order (All-Perm _ (λ m. hlevel) (Perm.symm order) passes)

  matching_passes :
      (query : String) (opts : store.SearchOptions) (es : List store.Memory)
      → All
          (λ m. fl.ge (store.score m) (store.min_score opts) ≡ true)
          (matching store options json db rt stable fields query opts es)
  unfolding matching
  matching_passes query opts es = keep_passes _ (map _ es)

  -- If the rows of the query decode, Search returns a part of the memories that match: as many as a
  -- positive limit allows, the best first, none below the least score that is asked for, and none
  -- that scores below a memory that is left out.
  pub search-IsBest :
      (s : db.State) (query : String) (given : Option store.SearchOptions) (rows : List (Row fl))
      (es : List store.Memory)
      → let opts = search_options_or store options json db rt stable fields given in
        db.select_where s (store.scope_of opts) (store.time_range opts) ≡ ok rows
        → read_rows store json db rows ≡ ok es
        → (ms : List store.Memory) × (search store options json db rt stable fields s query given
            ≡ ok ms)
          × IsBest opts (matching store options json db rt stable fields query opts es) ms
  unfolding search ranked read_all
  search-IsBest s query given rows es found read =
      let opts = search_options_or store options json db rt stable fields given in
      let matches = matching store options json db rt stable fields query opts es in
      (
        best store options json db rt stable fields opts matches,
        ap
              (λ (r : Result (List (Row fl))).
                ranked store options json db rt stable fields query opts (read_all store json db r))
              found
            ∙ ap (ranked store options json db rt stable fields query opts) read,
        best-IsBest opts matches (matching_passes query opts es),
      )
