-- ===== src/Provider/History.antt =====
-- pkg/provider/unified.go: `GetHistory`: the entries of all systems, newest first, up to a limit.
use mathlib.Core.List.Perm
use native.Mathlib.Bridge.{le_prop}
use helix_memory.Prelude.{
  ℕ, zero, suc, ◌≡◌, ◌≤◌, refl, sym, ap, String, List, [], ◌∷◌, ◌++◌, map, Dict, if◌then◌else◌, ltb,
  length, length-Perm, take, drop, take-append-drop, length-take, IsChained-take,
  take-IsChained-drop, Perm, All, All-Perm, IsChained, arith, Bool-cases, inl, inr, ◌&&◌,
}
use helix_memory.Prelude.Int.{ℤ, pos, ltb_ℤ, pos_part}
use helix_memory.Runtime.{Floats, Runtime}
use helix_memory.Types.{MemoryEntry}
use helix_memory.Types.MemorySource.{MemorySource}
use helix_memory.Types.Provider.{MemoryProvider}
use helix_memory.Provider.{UnifiedMemoryProvider, call_each, entries_of}
use helix_memory.Provider.Loops.{call_each-map}

-- The `append`s of the goroutines.
abbrev pub join : {A : Type 0} → Dict (List A) → List A
join [] = []
join ((source, xs) ∷ rest) = xs ++ join rest

module _ {fl : Floats} where
  -- The inner loop: what stands at index `i` after it, and what stands behind.
  unfoldable pub bubble :
      MemoryEntry fl → List (MemoryEntry fl) → MemoryEntry fl × List (MemoryEntry fl)
  bubble x [] = (x, [])
  bubble x (y ∷ ys) =
      let swapped = bubble y ys in
      let kept = bubble x ys in
      if ltb x.created_at y.created_at then (swapped.0, x ∷ swapped.1) else (kept.0, y ∷ kept.1)

  -- The outer loop, for the `n` entries that are left.
  unfoldable pub sort_newest : (n : ℕ) → List (MemoryEntry fl) → List (MemoryEntry fl)
  unfolding bubble
  sort_newest zero xs = xs
  sort_newest (suc n) [] = []
  sort_newest (suc n) (x ∷ xs) = let (newest, rest) = bubble x xs in newest ∷ sort_newest n rest

  abbrev pub up_to : ℤ → List (MemoryEntry fl) → List (MemoryEntry fl)
  up_to limit xs =
      if ltb_ℤ (pos 0) limit && ltb (pos_part limit) (length xs)
      then take (pos_part limit) xs
      else xs

  -- `a` may stand before `b`: it is not older.
  abbrev pub NotOlder : MemoryEntry fl → MemoryEntry fl → Type 0
  NotOlder a b = b.created_at ≤ a.created_at

module _ {fl : Floats} {mp : MemoryProvider fl} where
  -- What the goroutines append: nothing for a system that fails.
  unfoldable pub collect :
      Runtime
      → UnifiedMemoryProvider mp
      → (user_id : String) → (limit : ℤ) → UnifiedMemoryProvider mp × List (MemoryEntry fl)
  unfolding call_each
  collect rt u user_id limit =
      let (u', answers) =
        call_each
          (λ s. let (s', entries) = mp.get_history s user_id limit in (s', entries_of entries)) u
          (rt.interleave (MemorySource × mp.State) u.providers) in
      (u', join answers)

  unfoldable pub get_history :
      Runtime
      → UnifiedMemoryProvider mp
      → (user_id : String) → (limit : ℤ) → UnifiedMemoryProvider mp × List (MemoryEntry fl)
  unfolding collect sort_newest
  get_history rt u user_id limit =
      let (u', all) = collect rt u user_id limit in (u', up_to limit (sort_newest (length all) all))

module _ {fl : Floats} where
  bubble-perm :
      (x : MemoryEntry fl) (xs : List (MemoryEntry fl))
      → Perm ((bubble x xs).0 ∷ (bubble x xs).1) (x ∷ xs)
  unfolding bubble
  bubble-perm x [] = Perm.refl (x ∷ [])
  bubble-perm x (y ∷ ys) = elim (Bool-cases (ltb x.created_at y.created_at)) [
    | inl b ↦ rw b (Perm.trans (Perm.swap x _ _) (Perm.cons x (bubble-perm y ys)))
    | inr b ↦ rw b (
        Perm.trans (Perm.swap y _ _)
          (Perm.trans (Perm.cons y (bubble-perm x ys)) (Perm.swap x y ys)))
  ]

  length-bubble :
      (x : MemoryEntry fl) (xs : List (MemoryEntry fl)) → length (bubble x xs).1 ≡ length xs
  length-bubble x xs = omega (arith, length-Perm (bubble-perm x xs))

  -- The entry in front is as new as what stood there, and as all that stand behind.
  bubble-newest :
      (x : MemoryEntry fl) (xs : List (MemoryEntry fl))
      → NotOlder (bubble x xs).0 x × All (NotOlder (bubble x xs).0) (bubble x xs).1
  unfolding bubble
  bubble-newest x [] = (omega arith, tt)
  bubble-newest x (y ∷ ys) = elim (Bool-cases (ltb x.created_at y.created_at)) [
    | inl b ↦ rw b (
      ground (arith, (bubble-newest y ys).0),
      (ground (arith, (bubble-newest y ys).0), (bubble-newest y ys).1),
    )
    | inr b ↦
        rw b
          ((bubble-newest x ys).0, (ground (arith, (bubble-newest x ys).0), (bubble-newest x ys).1))
  ]

  pub sort_newest-perm : (n : ℕ) (xs : List (MemoryEntry fl)) → Perm (sort_newest n xs) xs
  unfolding sort_newest
  sort_newest-perm zero xs = Perm.refl xs
  sort_newest-perm (suc n) [] = Perm.refl []
  sort_newest-perm (suc n) (x ∷ xs) =
      Perm.trans (Perm.cons _ (sort_newest-perm n _)) (bubble-perm x xs)

  pub sort_newest_sorts :
      (n : ℕ) (xs : List (MemoryEntry fl)) → length xs ≤ n → IsChained NotOlder (sort_newest n xs)
  unfolding sort_newest
  sort_newest_sorts zero [] h = tt
  sort_newest_sorts zero (x ∷ xs) h = absurd (omega arith)
  sort_newest_sorts (suc n) [] h = tt
  sort_newest_sorts (suc n) (x ∷ xs) h = (
    All-Perm (NotOlder (bubble x xs).0) (λ e. le_prop)
        (Perm.symm (sort_newest-perm n (bubble x xs).1)) (bubble-newest x xs).1,
    sort_newest_sorts n (bubble x xs).1 (omega (arith, length-bubble x xs)),
  )

-- The entries that the systems answer with, in the order in which the goroutines run.
abbrev pub answers :
    {fl : Floats} {mp : MemoryProvider fl}
    → Runtime
    → UnifiedMemoryProvider mp
    → (user_id : String) → (limit : ℤ) → List (MemoryEntry fl)
answers {mp} rt u user_id limit = join (
    map (λ e. (e.0, entries_of (mp.get_history e.1 user_id limit).1))
      (rt.interleave (MemorySource × mp.State) u.providers))

abbrev pub shown : (limit : ℤ) (count : ℕ) → ℕ
shown limit count =
    if ltb_ℤ (pos 0) limit && ltb (pos_part limit) count then pos_part limit else count

shown_le : (limit : ℤ) (count : ℕ) → shown limit count ≤ count
shown_le limit count = ground arith

take_all {ℓ} : {A : Type ℓ} (xs : List A) → take (length xs) xs ≡ xs
take_all [] = refl
take_all (x ∷ xs) = ap (λ r. x ∷ r) (take_all xs)

up_to-take :
    {fl : Floats} (limit : ℤ) (xs : List (MemoryEntry fl))
    → up_to limit xs ≡ take (shown limit (length xs)) xs
up_to-take limit xs = elim (Bool-cases (ltb_ℤ (pos 0) limit && ltb (pos_part limit) (length xs))) [
  | inl b ↦ rw b refl
  | inr b ↦ rw b (sym (take_all xs))
]

module _ {fl : Floats} {mp : MemoryProvider fl} (rt : Runtime) (u : UnifiedMemoryProvider mp)
    (user_id : String) (limit : ℤ) where
  collect-answers : (collect rt u user_id limit).1 ≡ answers rt u user_id limit
  unfolding collect
  collect-answers =
      ap join (call_each-map _ (rt.interleave (MemorySource × mp.State) u.providers) u)

  -- GetHistory returns the newest of the answers, newest first: all of them, or as many as a
  -- positive limit allows, and none that was dropped is newer than one that was kept.
  pub get_history_newest :
      let out = (get_history rt u user_id limit).1 in
      (dropped : List (MemoryEntry fl)) × Perm (out ++ dropped) (answers rt u user_id limit)
      × IsChained NotOlder out
      × All (λ k. All (NotOlder k) dropped) out
      × (length out ≡ shown limit (length (answers rt u user_id limit)))
  unfolding get_history
  get_history_newest =
      let all = answers rt u user_id limit in
      let sorted = sort_newest (length all) all in
      let permuted = sort_newest-perm (length all) all in
      let chained = sort_newest_sorts (length all) all (omega arith) in
      let n = shown limit (length sorted) in
      rw collect-answers (
        rw (up_to-take limit sorted) (
          drop n sorted,
          rw (take-append-drop n sorted) permuted,
          IsChained-take NotOlder n sorted chained,
          take-IsChained-drop NotOlder n sorted chained,
          ground (
            arith,
            length-take n sorted,
            shown_le limit (length sorted),
            length-Perm permuted,
            ap (shown limit) (length-Perm permuted),
          ),
        ))
