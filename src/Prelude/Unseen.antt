-- ===== src/Prelude/Unseen.antt =====
-- The loop `if seen[key] { continue }; seen[key] = true; out = append(out, x)`, which several parts
-- of the program have, and its laws.
use Prim.Native.Nat.{◌≤◌}
use Prim.Native.String.{String}
use text.Mathlib.Text.{◌==◌}
use text.Mathlib.TextEquality.{eq_iff}
use mathlib.Core.Path.{◌≡◌, refl, ap, ap₂, ◌∙◌}
use mathlib.Core.Logic.{◌≢◌, inl, inr, ∥∥₁_elim}
use mathlib.Core.Bool.{Bool, false, not, ◌&&◌, ◌||◌}
use mathlib.Core.List.{List, [], ◌∷◌, ◌++◌, Perm, Permᴰ}
use native.Mathlib.Omega.{arith}
use helix_memory.Prelude.Tests.{if◌then◌else◌, Bool-cases}
use helix_memory.Prelude.Lists.{length}
use helix_memory.Prelude.Membership.{All, All-mono, IsChained}

-- `seen[k]`, for a set of the keys that were put in
abbrev pub is_seen : String → List String → Bool
is_seen k [] = false
is_seen k (j ∷ seen) = j == k || is_seen k seen

ne_of_fresh :
    (k j : String) (seen : List String)
    → is_seen k (j ∷ seen) ≡ false
    → (j ≢ k) × (is_seen k seen ≡ false)
ne_of_fresh k j seen h = (λ e. ground (arith, eq_iff j k), ground arith)

module _ {ℓ} {A : Type ℓ} (key : A → String) where
  unfoldable pub unseen : List String → List A → List A
  unseen seen [] = []
  unseen seen (x ∷ xs) =
      let old = is_seen (key x) seen in
      let rest = unseen (if old then seen else key x ∷ seen) xs in if old then rest else x ∷ rest

  abbrev pub has_key : String → List A → Bool
  has_key k [] = false
  has_key k (x ∷ xs) = key x == k || has_key k xs

  -- The keys of the output are those of the input that were not seen before.
  pub has_key-unseen :
      (k : String) (seen : List String) (xs : List A)
      → has_key k (unseen seen xs) ≡ (has_key k xs && not (is_seen k seen))
  unfolding unseen
  has_key-unseen k seen [] = refl
  has_key-unseen k seen (x ∷ xs) =
      ground (arith, eq_iff (key x) k, has_key-unseen k seen xs, has_key-unseen k (key x ∷ seen) xs)

  unseen_fresh :
      (seen : List String) (xs : List A) → All (λ y. is_seen (key y) seen ≡ false) (unseen seen xs)
  unfolding unseen
  unseen_fresh seen [] = tt
  unseen_fresh seen (x ∷ xs) = elim (Bool-cases (is_seen (key x) seen)) [
    | inl old ↦ rw old (unseen_fresh seen xs)
    | inr new ↦ rw new (
      new,
      All-mono _ _ (unseen (key x ∷ seen) xs) (λ y h. (ne_of_fresh (key y) (key x) seen h).1)
          (unseen_fresh (key x ∷ seen) xs),
    )
  ]

  -- No key stands twice.
  pub unseen-distinct :
      (seen : List String) (xs : List A) → IsChained (λ x y. key x ≢ key y) (unseen seen xs)
  unfolding unseen
  unseen-distinct seen [] = tt
  unseen-distinct seen (x ∷ xs) = elim (Bool-cases (is_seen (key x) seen)) [
    | inl old ↦ rw old (unseen-distinct seen xs)
    | inr new ↦ rw new (
      All-mono _ _ (unseen (key x ∷ seen) xs) (λ y h. (ne_of_fresh (key y) (key x) seen h).0)
          (unseen_fresh (key x ∷ seen) xs),
      unseen-distinct (key x ∷ seen) xs,
    )
  ]

  pub length-unseen : (seen : List String) (xs : List A) → length (unseen seen xs) ≤ length xs
  unfolding unseen
  length-unseen seen [] = ground arith
  length-unseen seen (x ∷ xs) =
      ground (arith, length-unseen (key x ∷ seen) xs, length-unseen seen xs)

  pub All-unseen {κ} :
      (P : A → Type κ) (seen : List String) (xs : List A) → All P xs → All P (unseen seen xs)
  unfolding unseen
  All-unseen P seen [] h = tt
  All-unseen P seen (x ∷ xs) h = elim (Bool-cases (is_seen (key x) seen)) [
    | inl old ↦ rw old (All-unseen P seen xs h.1)
    | inr new ↦ rw new (h.0, All-unseen P (key x ∷ seen) xs h.1)
  ]

is_seen-Permᴰ : (k : String) {xs ys : List String} → Permᴰ xs ys → is_seen k xs ≡ is_seen k ys
is_seen-Permᴰ k Permᴰ.nil = refl
is_seen-Permᴰ k (Permᴰ.cons e p) = ap₂ (λ x b. x == k || b) e (is_seen-Permᴰ k p)
is_seen-Permᴰ k (Permᴰ.swap {a = a} {b = b} {l = l} e f) =
    ground (arith, ap (λ x. x == k) e, ap (λ x. x == k) f)
is_seen-Permᴰ k (Permᴰ.trans p q) = is_seen-Permᴰ k p ∙ is_seen-Permᴰ k q

pub is_seen-Perm : (k : String) {xs ys : List String} → Perm xs ys → is_seen k xs ≡ is_seen k ys
is_seen-Perm k p = ∥∥₁_elim p (hlevel) (is_seen-Permᴰ k)

pub is_seen-append :
    (k : String) (xs ys : List String) → is_seen k (xs ++ ys) ≡ (is_seen k xs || is_seen k ys)
is_seen-append k [] ys = refl
is_seen-append k (x ∷ xs) ys = ground (arith, is_seen-append k xs ys)

-- For texts that are their own keys.
pub is_seen-unseen :
    (k : String) (xs : List String) → is_seen k (unseen (λ s. s) [] xs) ≡ is_seen k xs
is_seen-unseen k xs = ground (
  arith,
  has_key-is_seen k xs,
  has_key-is_seen k (unseen (λ s. s) [] xs),
  has_key-unseen (λ s. s) k [] xs,
)
  where
    has_key-is_seen : (j : String) (ss : List String) → has_key (λ s. s) j ss ≡ is_seen j ss
    has_key-is_seen j [] = refl
    has_key-is_seen j (s ∷ ss) = ground (arith, has_key-is_seen j ss)
