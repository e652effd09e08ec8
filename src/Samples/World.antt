-- ===== src/Samples/World.antt =====
-- Floats as thousandths, and a runtime: maps are walked in the order of the list, and sort.Slice is
-- insertion sort. They meet the laws that the theorems assume.
use mathlib.Core.List.Perm
use Prim.Native.String.{len, slice}
use text.Mathlib.Text.{find?}
use helix_memory.Prelude.{
  ℕ, ◌+◌, ◌*◌, ◌/◌, ◌^◌, ◌≡◌, Bool, true, false, List, [], ◌∷◌, none, some, ltb, leb, ◌==◌, Perm,
  if◌then◌else◌, Bool-cases, inl, inr, arith, All, All-mono, IsChained, Pairwise-of_IsChained,
}
use helix_memory.Prelude.Int.{pos, pos_part}
use helix_memory.Runtime.{Floats, Runtime, IsGo, IsStrictWeak, IsFloatOrder}

abbrev pub thousandths : Floats
thousandths = record {
  F64 = ℕ;
  F32 = ℕ;
  lt = ltb;
  ge = λ a b. leb b a;
  eq = ◌==◌;
  add = ◌+◌;
  mul = λ a b. a * b / 1000;
  div = λ a b. a * 1000 / b;
  sqrt = λ a. a;
  widen = λ a. a;
  of_int = λ i. pos_part i * 1000;
  to_int = λ a. pos (a / 1000);
  decimal = λ m k. m * 1000 / 10 ^ k;
}

pub thousandths-IsStrictWeak : IsStrictWeak {A = ℕ} ltb
thousandths-IsStrictWeak = record {
  irrefl = λ a. ground arith;
  trans = λ a b c p q. ground arith;
  cotrans = λ a b c p. ground arith;
}

pub thousandths-IsFloatOrder : IsFloatOrder thousandths
thousandths-IsFloatOrder = record {
  strict = thousandths-IsStrictWeak;
  eq_lem = λ a b p. ground arith;
  eq_of_not_lt = λ a b p q. ground arith;
}

module _ {A : Type 0} (less : A → A → Bool) where
  unfoldable pub insert_sorted : A → List A → List A
  insert_sorted x [] = x ∷ []
  insert_sorted x (y ∷ ys) = if less y x then y ∷ insert_sorted x ys else x ∷ y ∷ ys

  unfoldable pub insertion_sort : List A → List A
  unfolding insert_sorted
  insertion_sort [] = []
  insertion_sort (x ∷ xs) = insert_sorted x (insertion_sort xs)

  insert_sorted-perm : (x : A) (ys : List A) → Perm (insert_sorted x ys) (x ∷ ys)
  unfolding insert_sorted
  insert_sorted-perm x [] = Perm.refl (x ∷ [])
  insert_sorted-perm x (y ∷ ys) = elim (Bool-cases (less y x)) [
    | inl b ↦ rw b (Perm.trans (Perm.cons y (insert_sorted-perm x ys)) (Perm.swap x y ys))
    | inr b ↦ rw b (Perm.refl (x ∷ y ∷ ys))
  ]

  insertion_sort-perm : (xs : List A) → Perm (insertion_sort xs) xs
  unfolding insertion_sort
  insertion_sort-perm [] = Perm.refl []
  insertion_sort-perm (x ∷ xs) =
      Perm.trans (insert_sorted-perm x (insertion_sort xs)) (Perm.cons x (insertion_sort-perm xs))

  module _ (order : IsStrictWeak less) where
    abbrev NotAfter : A → A → Type 0
    NotAfter a b = less b a ≡ false

    asym : (a b : A) → less a b ≡ true → less b a ≡ false
    asym a b h = ground (arith, order.trans a b a h, order.irrefl a)

    NotAfter-trans : (a b c : A) → NotAfter a b → NotAfter b c → NotAfter a c
    NotAfter-trans a b c p q = elim (Bool-cases (less c a)) [
      | inl h ↦ ground (arith, order.cotrans c b a h)
      | inr h ↦ h
    ]

    All-insert_sorted :
        (P : A → Type 0) (x : A) (ys : List A) → P x → All P ys → All P (insert_sorted x ys)
    unfolding insert_sorted
    All-insert_sorted P x [] p h = (p, tt)
    All-insert_sorted P x (y ∷ ys) p h = elim (Bool-cases (less y x)) [
      | inl b ↦ rw b (h.0, All-insert_sorted P x ys p h.1)
      | inr b ↦ rw b (p, h)
    ]

    insert_sorted_sorts :
        (x : A) (ys : List A) → IsChained NotAfter ys → IsChained NotAfter (insert_sorted x ys)
    unfolding insert_sorted
    insert_sorted_sorts x [] h = (tt, tt)
    insert_sorted_sorts x (y ∷ ys) h = elim (Bool-cases (less y x)) [
      | inl b ↦
          rw b (All-insert_sorted (NotAfter y) x ys (asym y x b) h.0, insert_sorted_sorts x ys h.1)
      | inr b ↦
          rw b ((b, All-mono (NotAfter y) (NotAfter x) ys (λ z. NotAfter-trans x y z b) h.0), h)
    ]

    insertion_sort_sorts : (xs : List A) → IsChained NotAfter (insertion_sort xs)
    unfolding insertion_sort
    insertion_sort_sorts [] = tt
    insertion_sort_sorts (x ∷ xs) =
        insert_sorted_sorts x (insertion_sort xs) (insertion_sort_sorts xs)

abbrev pub plain : Runtime
plain = record {
  range_order = λ A xs. xs;
  interleave = λ A xs. xs;
  sort_slice = λ A less xs. insertion_sort less xs;
  contains = λ s t. elim (find? s t) [ none ↦ false | some i ↦ true ];
  to_lower = λ s. s;
  len = len;
  prefix = λ s n. slice s 0 n;
  source_label = λ i. "source";
}

pub plain-IsGo : IsGo plain
plain-IsGo = record {
  range_order-perm = λ A xs. Perm.refl xs;
  interleave-perm = λ A xs. Perm.refl xs;
  sort_slice-perm = λ A less xs. insertion_sort-perm less xs;
  sort_slice_sorts = λ A less xs order.
      Pairwise-of_IsChained _ (λ a b. hlevel) (insertion_sort less xs)
        (insertion_sort_sorts less order xs);
}
