-- ===== src/Consolidation/Pass.antt =====
-- What one pass of the consolidation engine does: what it counts and what it marks.
use helix_memory.Prelude.{
  ℕ, suc, ◌+◌, ◌≡◌, ◌≢◌, refl, sym, ap, String, true, List, [], ◌∷◌, ◌++◌, none, some, lookup,
  insert, lookup-insert, length, length-append, if◌then◌else◌, ltb, is_seen, unseen, has_key,
  has_key-unseen, unseen-distinct, All, All-map, All-of_Mem, ◌||◌, IsChained, IsChained-map, map,
  length-map, arith, Bool-cases, inl, inr, str_eq,
}
use helix_memory.Prelude.Int.{ℤ, pos}
use helix_memory.Runtime.{Floats}
use helix_memory.Types.{MemoryEntry, Instant, int, text}
use helix_memory.Types.Provider.{MemoryProvider}
use helix_memory.Consolidation.{
  Stats, finish, Engine, recent_of, or_made, drop_seen, mark, mark_all, collect_recent, consolidate,
  run_once,
}

-- The entries that the systems answer with.
abbrev pub recent :
    {fl : Floats} (mp : MemoryProvider fl) → ℤ → List mp.State → List (MemoryEntry fl)
recent mp batch_size [] = []
recent mp batch_size (s ∷ ss) =
    recent_of (mp.get_history s "" batch_size).1 ++ recent mp batch_size ss

collect_recent_lem :
    {fl : Floats} (mp : MemoryProvider fl) (n : ℤ) (ss : List mp.State)
    → ((collect_recent mp n ss).1 ≡ recent mp n ss)
      × ((collect_recent mp n ss).2 ≡ length (recent mp n ss))
      × (length (collect_recent mp n ss).0 ≡ length ss)
unfolding collect_recent
collect_recent_lem mp n [] = (refl, refl, refl)
collect_recent_lem mp n (s ∷ ss) =
    let (entries, count, size) = collect_recent_lem mp n ss in
    (
      ap (λ r. recent_of (mp.get_history s "" n).1 ++ r) entries,
      omega (arith, count, length-append (recent_of (mp.get_history s "" n).1) (recent mp n ss)),
      ap suc size,
    )

module _ {fl : Floats} where
  abbrev key : MemoryEntry fl → String
  key e = e.id

  drop_seen-unseen :
      (seen : List String) (es : List (MemoryEntry fl))
      → (drop_seen seen es).0 ≡ unseen (λ e. e.id) seen es
  unfolding drop_seen unseen
  drop_seen-unseen seen [] = refl
  drop_seen-unseen seen (e ∷ es) = elim (Bool-cases (is_seen e.id seen)) [
    | inl b ↦ rw b (drop_seen-unseen seen es)
    | inr b ↦ rw b (ap (λ r. e ∷ r) (drop_seen-unseen (e.id ∷ seen) es))
  ]

  drop_seen-length :
      (seen : List String) (es : List (MemoryEntry fl))
      → length (drop_seen seen es).0 + (drop_seen seen es).1 ≡ length es
  unfolding drop_seen
  drop_seen-length seen [] = refl
  drop_seen-length seen (e ∷ es) =
      ground (arith, drop_seen-length seen es, drop_seen-length (e.id ∷ seen) es)

  mark_all-map :
      (stamp : MemoryEntry fl → String) (n : ℕ) (es : List (MemoryEntry fl))
      → ((mark_all stamp n es).0 ≡ map (mark stamp n) es) × ((mark_all stamp n es).1 ≡ length es)
  unfolding mark_all
  mark_all-map stamp n [] = (refl, refl)
  mark_all-map stamp n (e ∷ es) =
      let (marked, count) = mark_all-map stamp n es in
      (ap (λ r. mark stamp n e ∷ r) marked, ap suc count)

  -- The entry records how many systems took part.
  abbrev pub HasSourceCount : ℕ → MemoryEntry fl → Type 0
  HasSourceCount n e = lookup "consolidation_source_count" (or_made e.metadata) ≡ some (int (pos n))

  mark-HasSourceCount :
      (stamp : MemoryEntry fl → String) (n : ℕ) (e : MemoryEntry fl)
      → HasSourceCount n (mark stamp n e)
  unfolding mark
  mark-HasSourceCount stamp n e =
      lookup-insert "consolidation_source_count" "consolidation_source_count" (int (pos n))
        (insert "consolidated_at" (text (stamp e)) (or_made e.metadata))

-- What a pass over `all` entries of `sources` systems does: the statistics before and after, and the
-- marked entries. It counts each entry once, as consolidated or as a duplicate; a pass without
-- entries is no run. The marked entries have distinct identifiers, those of `all`, and record how
-- many systems took part.
pub record IsPass {fl : Floats} (sources : ℕ) (before after : Stats)
    (all marked : List (MemoryEntry fl)) : Type 0 where
  pub processed : after.memories_processed ≡ before.memories_processed + length all
  pub consolidated : after.consolidated ≡ before.consolidated + length marked
  pub counted :
      after.deduplicated + after.consolidated
      ≡ before.deduplicated + before.consolidated + length all
  pub runs : after.total_runs ≡ before.total_runs + (if ltb 0 (length all) then 1 else 0)
  pub distinct : IsChained (λ x y. x.id ≢ y.id) marked
  pub same_ids : (id : String) → has_key (λ x. x.id) id marked ≡ has_key (λ x. x.id) id all
  pub sourced : All (HasSourceCount sources) marked

module _ {fl : Floats} {mp : MemoryProvider fl} (stamp : MemoryEntry fl → String) (now : Instant)
    (duration : ℕ) (e : Engine mp) where
  has_key-mark :
      (id : String) (n : ℕ) (xs : List (MemoryEntry fl))
      → has_key (λ x. x.id) id (map (mark stamp n) xs) ≡ has_key (λ x. x.id) id xs
  unfolding mark
  has_key-mark id n [] = refl
  has_key-mark id n (x ∷ xs) = ap (λ b. str_eq x.id id || b) (has_key-mark id n xs)

  consolidate-IsPass :
      (all : List (MemoryEntry fl))
      → ltb 0 (length all) ≡ true
      → let (e', marked) = consolidate stamp now duration e all (length all) in
        IsPass (length e.providers) e.stats e'.stats all marked
  unfolding consolidate
  consolidate-IsPass all busy =
      let unique = unseen (λ y. y.id) [] all in
      let n = length e.providers in
      let marked = mark_all-map stamp n unique in
      rw (drop_seen-unseen [] all) (
        rw marked.0 (record {
          processed = refl;
          consolidated = omega (arith, marked.1, length-map (mark stamp n) unique);
          counted =
              omega (arith, marked.1, drop_seen-length [] all, ap length (drop_seen-unseen [] all));
          runs = rw busy refl;
          distinct = IsChained-map _ (mark stamp n) unique (unseen-distinct (λ y. y.id) [] all);
          same_ids =
              λ id. ground (arith, has_key-mark id n unique, has_key-unseen (λ y. y.id) id [] all);
          sourced =
              All-map (HasSourceCount n) (mark stamp n) unique
                (All-of_Mem _ unique (λ x m. mark-HasSourceCount stamp n x));
        }))

  finish-IsPass :
      (all : List (MemoryEntry fl))
      → let (e', marked, error) = finish stamp now duration e all (length all) in
        IsPass (length e.providers) e.stats e'.stats all marked × (error ≡ none)
  unfolding finish
  finish-IsPass [] = (
    record {
      processed = omega arith;
      consolidated = omega arith;
      counted = omega arith;
      runs = omega arith;
      distinct = tt;
      same_ids = λ id. refl;
      sourced = tt;
    },
    refl,
  )
  finish-IsPass (x ∷ xs) = (consolidate-IsPass (x ∷ xs) (ground arith), refl)

-- RunOnce never fails, and is a pass over what the systems answer.
pub run_once-IsPass :
    {fl : Floats} {mp : MemoryProvider fl} (stamp : MemoryEntry fl → String) (now : Instant)
    (duration : ℕ) (e : Engine mp)
    → let (e', marked, error) = run_once stamp now duration e in
      IsPass (length e.providers) e.stats e'.stats (recent mp e.batch_size e.providers) marked
      × (error ≡ none)
unfolding run_once
run_once-IsPass {mp} stamp now duration e =
    let (entries, count, size) = collect_recent_lem mp e.batch_size e.providers in
    let e1 = record e { providers = (collect_recent mp e.batch_size e.providers).0 } in
    rw (sym size) (
      rw entries
        (rw count (finish-IsPass stamp now duration e1 (recent mp e.batch_size e.providers))))
