-- ===== src/Prelude/Dicts.antt =====
-- Go's maps with text keys, as association lists. The order in which the code ranges over a map is
-- a parameter of the code (Runtime.antt).
use Prim.Native.String.{String}
use text.Mathlib.Text.{◌==◌}
use text.Mathlib.TextEquality.{eq_iff}
use mathlib.Core.Path.{◌≡◌, refl}
use mathlib.Core.Option.{Option, none, some}
use mathlib.Core.Logic.{◌≢◌, inl, inr}
use mathlib.Core.List.{List, [], ◌∷◌, Memᴰ}
use native.Mathlib.Omega.{arith}
use helix_memory.Prelude.Tests.{if◌then◌else◌, Bool-cases, ne_of_str_eq}
use helix_memory.Prelude.Membership.{All, IsChained}

abbrev pub Dict {ℓ} : Type ℓ → Type ℓ
Dict V = List (String × V)

module _ {ℓ} {V : Type ℓ} where
  -- `v, ok := dict[key]`
  unfoldable pub lookup : String → Dict V → Option V
  lookup key [] = none
  lookup key ((first, held) ∷ rest) = if first == key then some held else lookup key rest

  -- `dict[key] = value`: an old value is replaced where it stands.
  unfoldable pub insert : String → V → Dict V → Dict V
  insert key value [] = (key, value) ∷ []
  insert key value ((first, held) ∷ rest) =
      let others = insert key value rest in
      if first == key then (key, value) ∷ rest else (first, held) ∷ others

  -- `delete(dict, key)`
  unfoldable pub remove : String → Dict V → Dict V
  remove key [] = []
  remove key ((first, held) ∷ rest) =
      let others = remove key rest in if first == key then others else (first, held) ∷ others

  pub lookup-insert :
      (key asked : String) (value : V) (dict : Dict V)
      → lookup asked (insert key value dict)
        ≡ (if key == asked then some value else lookup asked dict)
  unfolding lookup insert
  lookup-insert key asked value [] = refl
  lookup-insert key asked value ((first, held) ∷ rest) = ground (
    arith,
    lookup-insert key asked value rest,
    eq_iff first key,
    eq_iff first asked,
    eq_iff key asked,
  )

  pub lookup-remove :
      (k j : String) (m : Dict V) → lookup j (remove k m) ≡ (if k == j then none else lookup j m)
  unfolding lookup remove
  lookup-remove k j [] = ground arith
  lookup-remove k j ((i, w) ∷ m) =
      ground (arith, eq_iff k j, eq_iff i k, eq_iff i j, lookup-remove k j m)

module _ {ℓ κ} {V : Type ℓ} (P : String × V → Type κ) where
  -- What holds of every entry and of the new one holds after an assignment.
  pub All-insert : (k : String) (v : V) (m : Dict V) → P (k, v) → All P m → All P (insert k v m)
  unfolding insert
  All-insert k v [] p h = (p, tt)
  All-insert k v ((j, w) ∷ m) p h = elim (Bool-cases (j == k)) [
    | inl same ↦ rw same (p, h.1)
    | inr other ↦ rw other (h.0, All-insert k v m p h.1)
  ]

module _ {ℓ} {V : Type ℓ} where
  -- No key stands twice.
  abbrev pub HasDistinctKeys : Dict V → Type 0
  HasDistinctKeys m = IsChained (λ (a b : String × V). a.0 ≢ b.0) m

  pub insert-HasDistinctKeys :
      (k : String) (v : V) (m : Dict V) → HasDistinctKeys m → HasDistinctKeys (insert k v m)
  unfolding insert
  insert-HasDistinctKeys k v [] h = (tt, tt)
  insert-HasDistinctKeys k v ((j, w) ∷ m) h = elim (Bool-cases (j == k)) [
    | inl same ↦ rw same (rw ((eq_iff j k).0 same) at h.0, h.1)
    | inr other ↦ rw other (
      All-insert (λ b. j ≢ b.0) k v m (ne_of_str_eq j k other) h.0,
      insert-HasDistinctKeys k v m h.1,
    )
  ]

  -- A value that is found stands in the list.
  pub lookup-Memᴰ : (k : String) {v : V} (m : Dict V) → lookup k m ≡ some v → Memᴰ (k, v) m
  unfolding lookup
  lookup-Memᴰ k [] h = cc
  lookup-Memᴰ k {v} ((j, w) ∷ m) h = elim (Bool-cases (j == k)) [
    | inl same ↦ Memᴰ.head (ground (arith, (eq_iff j k).0 same, h))
    | inr other ↦ Memᴰ.tail (lookup-Memᴰ k m (rw other at h))
  ]
