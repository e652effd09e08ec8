-- ===== src/Prelude/Membership.antt =====
-- Predicates over the elements of a list, by recursion, and how they follow a permutation.
use mathlib.Core.Path.{◌≡◌, refl, subst, sym, ap, ◌∙◌}
use mathlib.Core.Bool.{Bool, true}
use mathlib.Core.Logic.{∥∥₁_elim}
use mathlib.Core.List.{List, [], ◌∷◌, ◌++◌, map, Mem, Memᴰ, Perm, Permᴰ, Pairwise}
use mathlib.Core.List.{mem-cons_self, mem-cons_of_mem, Pairwise-cons}
use mathlib.Core.HLevel.{×_prop}
use native.Mathlib.Nat.{ℕ_set}
use native.Mathlib.Omega.{arith}
use helix_memory.Prelude.Lists.{keep, take, drop, length, count, exists}
use helix_memory.Prelude.Tests.{ltb}
use Prim.Native.Nat.{ℕ, zero, suc, ◌+◌}

-- Every element satisfies the predicate.
abbrev pub All {ℓ κ} : {A : Type ℓ} → (A → Type κ) → List A → Type κ
All P [] = Unit
All P (x ∷ xs) = P x × All P xs

-- Some element satisfies the predicate; the element is kept.
abbrev pub Some {ℓ κ} : {A : Type ℓ} → (A → Type κ) → List A → Type (ℓ ⊔ κ)
Some {A} P xs = (x : A) × Memᴰ x xs × P x

module _ {ℓ κ} {A : Type ℓ} (P : A → Type κ) where
  pub All-append : (xs ys : List A) → All P xs → All P ys → All P (xs ++ ys)
  All-append [] ys front back = back
  All-append (x ∷ xs) ys front back = (front.0, All-append xs ys front.1 back)

  pub All-of_append : (xs ys : List A) → All P (xs ++ ys) → All P xs × All P ys
  All-of_append [] ys h = (tt, h)
  All-of_append (x ∷ xs) ys h = let (l, r) = All-of_append xs ys h.1 in ((h.0, l), r)

  pub All-Memᴰ : (xs : List A) (x : A) → All P xs → Memᴰ x xs → P x
  All-Memᴰ [] x h m = elim m [ ]
  All-Memᴰ (y ∷ ys) x h (Memᴰ.head e) = subst P (sym e) h.0
  All-Memᴰ (y ∷ ys) x h (Memᴰ.tail m) = All-Memᴰ ys x h.1 m

  pub All-of_Mem : (xs : List A) → ((x : A) → Mem x xs → P x) → All P xs
  All-of_Mem [] h = tt
  All-of_Mem (x ∷ xs) h = (h x mem-cons_self, All-of_Mem xs (λ y m. h y (mem-cons_of_mem x m)))

  pub All-Permᴰ : {xs ys : List A} → Permᴰ xs ys → All P xs → All P ys
  All-Permᴰ Permᴰ.nil h = h
  All-Permᴰ (Permᴰ.cons e p) h = (subst P e h.0, All-Permᴰ p h.1)
  All-Permᴰ (Permᴰ.swap e f) h = (subst P f h.1.0, (subst P e h.0, h.1.1))
  All-Permᴰ (Permᴰ.trans p q) h = All-Permᴰ q (All-Permᴰ p h)

  pub All-prop : ((x : A) → IsProp (P x)) → (xs : List A) → IsProp (All P xs)
  All-prop hP [] = λ a b. refl
  All-prop hP (x ∷ xs) = ×_prop (hP x) (All-prop hP xs)

  pub All-Perm : ((x : A) → IsProp (P x)) → {xs ys : List A} → Perm xs ys → All P xs → All P ys
  All-Perm hP {ys} p h = ∥∥₁_elim p (All-prop hP ys) (λ q. All-Permᴰ q h)

  pub All-take : (n : ℕ) (xs : List A) → All P xs → All P (take n xs)
  All-take zero xs h = tt
  All-take (suc n) [] h = tt
  All-take (suc n) (x ∷ xs) h = (h.0, All-take n xs h.1)

  pub All-keep : (p : A → Bool) (xs : List A) → All P xs → All P (keep p xs)
  All-keep p [] h = tt
  All-keep p (x ∷ xs) h = ground (arith, All-keep p xs h.1)

-- What passes the test satisfies it.
pub keep_passes {ℓ} : {A : Type ℓ} (p : A → Bool) (xs : List A) → All (λ x. p x ≡ true) (keep p xs)
keep_passes p [] = tt
keep_passes p (x ∷ xs) = ground (arith, keep_passes p xs)

pub All-map {ℓ κ μ} :
    {A : Type ℓ} {B : Type κ} (P : B → Type μ) (f : A → B) (xs : List A)
    → All (λ x. P (f x)) xs
    → All P (map f xs)
All-map P f [] h = tt
All-map P f (x ∷ xs) h = (h.0, All-map P f xs h.1)

pub All-mono {ℓ κ μ} :
    {A : Type ℓ} (P : A → Type κ) (Q : A → Type μ) (xs : List A)
    → ((x : A) → P x → Q x)
    → All P xs
    → All Q xs
All-mono P Q [] f h = tt
All-mono P Q (x ∷ xs) f h = (f x h.0, All-mono P Q xs f h.1)

-- Each element is related to all behind it.
abbrev pub IsChained {ℓ κ} : {A : Type ℓ} → (A → A → Type κ) → List A → Type κ
IsChained R [] = Unit
IsChained R (x ∷ xs) = All (R x) xs × IsChained R xs

module _ {ℓ κ} {A : Type ℓ} (R : A → A → Type κ) where
  pub IsChained-of_Pairwise : (xs : List A) → Pairwise R xs → IsChained R xs
  IsChained-of_Pairwise [] p = tt
  IsChained-of_Pairwise (x ∷ xs) p =
      let (h, t) = Pairwise-cons.0 p in (All-of_Mem (R x) xs h, IsChained-of_Pairwise xs t)

  pub IsChained-take : (n : ℕ) (xs : List A) → IsChained R xs → IsChained R (take n xs)
  IsChained-take zero xs h = tt
  IsChained-take (suc n) [] h = tt
  IsChained-take (suc n) (x ∷ xs) h = (All-take (R x) n xs h.0, IsChained-take n xs h.1)

  -- What is taken is related to what is dropped.
  pub take-IsChained-drop :
      (n : ℕ) (xs : List A) → IsChained R xs → All (λ x. All (R x) (drop n xs)) (take n xs)
  take-IsChained-drop zero xs h = tt
  take-IsChained-drop (suc n) [] h = tt
  take-IsChained-drop (suc n) (x ∷ xs) h = (All-drop n xs h.0, take-IsChained-drop n xs h.1)
    where
      All-drop : (k : ℕ) (ys : List A) → All (R x) ys → All (R x) (drop k ys)
      All-drop zero ys a = a
      All-drop (suc k) [] a = tt
      All-drop (suc k) (y ∷ ys) a = All-drop k ys a.1

length-Permᴰ {ℓ} : {A : Type ℓ} {xs ys : List A} → Permᴰ xs ys → length xs ≡ length ys
length-Permᴰ Permᴰ.nil = refl
length-Permᴰ (Permᴰ.cons e p) = omega (arith, length-Permᴰ p)
length-Permᴰ (Permᴰ.swap e f) = refl
length-Permᴰ (Permᴰ.trans p q) = omega (arith, length-Permᴰ p, length-Permᴰ q)

pub length-Perm {ℓ} : {A : Type ℓ} {xs ys : List A} → Perm xs ys → length xs ≡ length ys
length-Perm p = ∥∥₁_elim p (ℕ_set _ _) length-Permᴰ

module _ {ℓ κ} {A : Type ℓ} (P : A → Type κ) where
  pub Some-append : (xs ys : List A) → Some P xs → Some P (xs ++ ys)
  Some-append xs ys (x, m, h) = (x, grow xs m, h)
    where
      grow : (zs : List A) → Memᴰ x zs → Memᴰ x (zs ++ ys)
      grow [] m = elim m [ ]
      grow (z ∷ zs) (Memᴰ.head e) = Memᴰ.head e
      grow (z ∷ zs) (Memᴰ.tail m) = Memᴰ.tail (grow zs m)

  pub Some-append_one : (xs : List A) (y : A) → P y → Some P (xs ++ y ∷ [])
  Some-append_one xs y h = (y, last xs, h)
    where
      last : (zs : List A) → Memᴰ y (zs ++ y ∷ [])
      last [] = Memᴰ.head refl
      last (z ∷ zs) = Memᴰ.tail (last zs)

pub All-of_map {ℓ κ μ} :
    {A : Type ℓ} {B : Type κ} (P : B → Type μ) (f : A → B) (xs : List A)
    → All P (map f xs)
    → All (λ x. P (f x)) xs
All-of_map P f [] h = tt
All-of_map P f (x ∷ xs) h = (h.0, All-of_map P f xs h.1)

module _ {ℓ κ} {A : Type ℓ} (R : A → A → Type κ) where
  IsChained-prop : ((a b : A) → IsProp (R a b)) → (xs : List A) → IsProp (IsChained R xs)
  IsChained-prop h [] = λ a b. refl
  IsChained-prop h (x ∷ xs) = ×_prop (All-prop (R x) (h x) xs) (IsChained-prop h xs)

  IsChained-Permᴰ :
      ((a b : A) → R a b → R b a) → {xs ys : List A} → Permᴰ xs ys → IsChained R xs → IsChained R ys
  IsChained-Permᴰ s Permᴰ.nil h = h
  IsChained-Permᴰ s (Permᴰ.cons {l₂ = l₂} e p) h =
      (subst (λ a. All (R a) l₂) e (All-Permᴰ (R _) p h.0), IsChained-Permᴰ s p h.1)
  IsChained-Permᴰ s (Permᴰ.swap {a = a} {b = b} {a' = a'} {b' = b'} {l = l} e f) h = (
    (subst (λ y. R a' y) e (subst (λ z. R z a) f (s a b h.0.0)), subst (λ z. All (R z) l) f h.1.0),
    (subst (λ y. All (R y) l) e h.0.1, h.1.1),
  )
  IsChained-Permᴰ s (Permᴰ.trans p q) h = IsChained-Permᴰ s q (IsChained-Permᴰ s p h)

  pub IsChained-Perm :
      ((a b : A) → R a b → R b a)
      → ((a b : A) → IsProp (R a b))
      → {xs ys : List A} → Perm xs ys
      → IsChained R xs
      → IsChained R ys
  IsChained-Perm s hP {ys} p h = ∥∥₁_elim p (IsChained-prop hP ys) (λ q. IsChained-Permᴰ s q h)

pub IsChained-map {ℓ κ μ} :
    {A : Type ℓ} {B : Type κ} (R : B → B → Type μ) (f : A → B) (xs : List A)
    → IsChained (λ x y. R (f x) (f y)) xs
    → IsChained R (map f xs)
IsChained-map R f [] h = tt
IsChained-map R f (x ∷ xs) h = (All-map (R (f x)) f xs h.0, IsChained-map R f xs h.1)

-- A chained relation that follows from another one, for elements that satisfy `P`.
pub IsChained-mono {ℓ κ μ ν} :
    {A : Type ℓ} (P : A → Type ν) (R : A → A → Type κ) (S : A → A → Type μ) (xs : List A)
    → ((x y : A) → P x → P y → R x y → S x y)
    → All P xs
    → IsChained R xs
    → IsChained S xs
IsChained-mono P R S [] f p h = tt
IsChained-mono P R S (x ∷ xs) f p h = (go xs p.1 h.0, IsChained-mono P R S xs f p.1 h.1)
  where
    go : (ys : List _) → All P ys → All (R x) ys → All (S x) ys
    go [] q r = tt
    go (y ∷ ys) q r = (f x y p.0 q.0 r.0, go ys q.1 r.1)

module _ {ℓ} {A : Type ℓ} (p : A → Bool) where
  count-Permᴰ : {xs ys : List A} → Permᴰ xs ys → count p xs ≡ count p ys
  count-Permᴰ Permᴰ.nil = refl
  count-Permᴰ (Permᴰ.cons e q) = ground (arith, count-Permᴰ q, ap p e)
  count-Permᴰ (Permᴰ.swap e f) = ground (arith, ap p e, ap p f)
  count-Permᴰ (Permᴰ.trans q r) = count-Permᴰ q ∙ count-Permᴰ r

  -- A permutation does not change how many pass, and so not whether one passes.
  pub count-Perm : {xs ys : List A} → Perm xs ys → count p xs ≡ count p ys
  count-Perm q = ∥∥₁_elim q (ℕ_set _ _) count-Permᴰ

  pub exists-count : (xs : List A) → exists p xs ≡ ltb 0 (count p xs)
  exists-count [] = refl
  exists-count (x ∷ xs) = ground (arith, exists-count xs)

  pub exists-Perm : {xs ys : List A} → Perm xs ys → exists p xs ≡ exists p ys
  exists-Perm {xs} {ys} q = ground (arith, exists-count xs, exists-count ys, count-Perm q)

pub Pairwise-of_IsChained {ℓ κ} :
    {A : Type ℓ} (R : A → A → Type κ)
    → ((a b : A) → IsProp (R a b))
    → (xs : List A) → IsChained R xs
    → Pairwise R xs
Pairwise-of_IsChained R h [] c = Pairwise.nil
Pairwise-of_IsChained R h (x ∷ xs) c =
    Pairwise.cons (λ a m. ∥∥₁_elim m (h x a) (λ t. All-Memᴰ (R x) xs a c.0 t))
      (Pairwise-of_IsChained R h xs c.1)

module _ {ℓ} {A : Type ℓ} (f : A → ℕ) where
  abbrev pub sum_of : List A → ℕ
  sum_of [] = 0
  sum_of (x ∷ xs) = f x + sum_of xs

  sum_of-Permᴰ : {xs ys : List A} → Permᴰ xs ys → sum_of xs ≡ sum_of ys
  sum_of-Permᴰ Permᴰ.nil = refl
  sum_of-Permᴰ (Permᴰ.cons e q) = omega (arith, sum_of-Permᴰ q, ap f e)
  sum_of-Permᴰ (Permᴰ.swap e g) = omega (arith, ap f e, ap f g)
  sum_of-Permᴰ (Permᴰ.trans q r) = sum_of-Permᴰ q ∙ sum_of-Permᴰ r

  -- A permutation does not change a sum.
  pub sum_of-Perm : {xs ys : List A} → Perm xs ys → sum_of xs ≡ sum_of ys
  sum_of-Perm q = ∥∥₁_elim q (ℕ_set _ _) sum_of-Permᴰ
