-- ===== src/Provider/Slots.antt =====
-- Jobs that fill the slots of a list, each its own, in any order.
use helix_memory.Prelude.{
  ℕ, zero, suc, ◌+◌, ◌-◌, ◌≡◌, ◌≢◌, ◌≤◌, ◌<◌, ◌==◌, ◌&&◌, refl, sym, ap, subst, ◌∙◌, String, str_eq,
  eq_iff, Bool, true, false, List, [], ◌∷◌, map, Option, none, some, length, count, exists, All,
  All-mono, All-Perm, IsChained, Perm, exists-Perm, leb, arith, if◌then◌else◌, length-map,
}
use mathlib.Core.List.Perm
use helix_memory.Provider.Search.{set_at, blank, numbered}

abbrev nth {ℓ} : {A : Type ℓ} → ℕ → List A → Option A
nth k [] = none
nth zero (x ∷ xs) = some x
nth (suc k) (x ∷ xs) = nth k xs

or_else {ℓ} : {A : Type ℓ} → A → Option A → A
or_else a none = a
or_else a (some b) = b

nth_ext {ℓ} :
    {A : Type ℓ} (xs ys : List A)
    → length xs ≡ length ys
    → ((k : ℕ) → k < length xs → nth k xs ≡ nth k ys)
    → xs ≡ ys
unfolding or_else
nth_ext [] [] h same = refl
nth_ext [] (y ∷ ys) h same = ground (arith, h)
nth_ext (x ∷ xs) [] h same = ground (arith, h)
nth_ext (x ∷ xs) (y ∷ ys) h same =
    let first : x ≡ y = ap (or_else x) (same 0 (omega arith)) in
    let rest : xs ≡ ys =
      nth_ext xs ys (omega (arith, h)) (λ k lt. same (suc k) (omega (arith, lt))) in
    λ i. first i ∷ rest i

module _ {A : Type 0} where
  length-set_at : (i : ℕ) (a : A) (xs : List A) → length (set_at i a xs) ≡ length xs
  unfolding set_at
  length-set_at i a [] = refl
  length-set_at zero a (x ∷ xs) = refl
  length-set_at (suc i) a (x ∷ xs) = omega (arith, length-set_at i a xs)

  nth-set_at :
      (k i : ℕ) (a : A) (xs : List A)
      → k < length xs
      → nth k (set_at i a xs) ≡ (if i == k then some a else nth k xs)
  unfolding set_at
  nth-set_at k i a [] lt = ground (arith, lt)
  nth-set_at zero zero a (x ∷ xs) lt = refl
  nth-set_at (suc k) zero a (x ∷ xs) lt = ground arith
  nth-set_at zero (suc i) a (x ∷ xs) lt = ground arith
  nth-set_at (suc k) (suc i) a (x ∷ xs) lt = ground (arith, nth-set_at k i a xs (omega (arith, lt)))

-- The slots that goroutines with the answers `f` fill.
abbrev pub fill : {B : Type 0} → (f : String → B) → List (ℕ × String) → List B → List B
fill f [] bs = bs
fill f (e ∷ es) bs = fill f es (set_at e.0 (f e.1) bs)

-- The name at a place, and whether a job has it.
abbrev names : ℕ → List String → String → Bool
names k [] s = false
names zero (x ∷ xs) s = str_eq x s
names (suc k) (x ∷ xs) s = names k xs s

nth-names :
    {B : Type 0} (f : String → B) (k : ℕ) (ss : List String) (s : String)
    → names k ss s ≡ true
    → nth k (map f ss) ≡ some (f s)
nth-names f k [] s h = ground (arith, h)
nth-names f zero (x ∷ xs) s h = ap (λ y. some (f y)) ((eq_iff x s).0 h)
nth-names f (suc k) (x ∷ xs) s h = nth-names f k xs s h

length-fill :
    {B : Type 0} (f : String → B) (es : List (ℕ × String)) (bs : List B)
    → length (fill f es bs) ≡ length bs
length-fill f [] bs = refl
length-fill f (e ∷ es) bs = length-fill f es _ ∙ length-set_at e.0 (f e.1) bs

-- A slot that a job names holds its answer, any other what it held.
nth-fill :
    {B : Type 0} (f : String → B) (ss : List String) (es : List (ℕ × String)) (bs : List B) (k : ℕ)
    → All (λ e. names e.0 ss e.1 ≡ true) es
    → k < length bs
    → nth k (fill f es bs) ≡ (if exists (λ e. e.0 == k) es then nth k (map f ss) else nth k bs)
nth-fill f ss [] bs k h lt = refl
nth-fill f ss ((i, s) ∷ es) bs k h lt =
    let rest =
      nth-fill f ss es (set_at i (f s) bs) k h.1 (omega (arith, lt, length-set_at i (f s) bs)) in
    let set = nth-set_at k i (f s) bs lt in
    let named = nth-names f i ss s h.0 in
    let moved : (i == k) ≡ true → nth i (map f ss) ≡ nth k (map f ss) =
      λ e. ap (λ j. nth j (map f ss)) (ground (arith, e)) in
    ground (arith, rest, set, named, moved)

minus_self : (i : ℕ) → i - i ≡ 0
minus_self i = omega arith

-- What holds of the jobs in the order of the sources.
numbered-names :
    (i : ℕ) (ss : List String)
    → All (λ e. leb i e.0 && names (e.0 - i) ss e.1 ≡ true) (numbered i ss)
numbered-names i [] = tt
numbered-names i (x ∷ xs) = (
  rw (minus_self i) (ground (arith, eq_iff x x)),
  All-mono (λ e. leb (suc i) e.0 && names (e.0 - suc i) xs e.1 ≡ true)
      (λ e. leb i e.0 && names (e.0 - i) (x ∷ xs) e.1 ≡ true) (numbered (suc i) xs)
      (λ e h.
        let above : suc i ≤ e.0 = ground (arith, h) in
        let shift : e.0 - i ≡ suc (e.0 - suc i) = omega (arith, above) in
        rw shift (ground (arith, h)))
      (numbered-names (suc i) xs),
)

numbered-exists :
    (i : ℕ) (ss : List String) (k : ℕ)
    → k < length ss
    → exists (λ e. e.0 == i + k) (numbered i ss) ≡ true
numbered-exists i [] k lt = ground (arith, lt)
numbered-exists i (x ∷ xs) zero lt = ground arith
numbered-exists i (x ∷ xs) (suc k) lt =
    ground (arith, numbered-exists (suc i) xs k (omega (arith, lt)))

pub count-numbered :
    (i : ℕ) (ss : List String) (s : String)
    → count (λ e. str_eq e.1 s) (numbered i ss) ≡ count (λ x. str_eq x s) ss
count-numbered i [] s = refl
count-numbered i (x ∷ xs) s = ground (arith, count-numbered (suc i) xs s)

count_none :
    (x s : String) (xs : List String)
    → All (λ y. x ≢ y) xs
    → str_eq x s ≡ true
    → count (λ y. str_eq y s) xs ≡ 0
count_none x s [] h e = refl
count_none x s (y ∷ ys) h e = ground (arith, h.0, count_none x s ys h.1 e, eq_iff x s, eq_iff y s)

pub count_once : (s : String) (ss : List String) → IsChained ◌≢◌ ss → count (λ x. str_eq x s) ss ≤ 1
count_once s [] h = omega arith
count_once s (x ∷ xs) h = ground (arith, count_once s xs h.1, count_none x s xs h.0)

names_from_zero :
    (ss : List String) (e : ℕ × String)
    → (leb 0 e.0 && names (e.0 - 0) ss e.1) ≡ true
    → names e.0 ss e.1 ≡ true
names_from_zero ss e h =
    let same : e.0 - 0 ≡ e.0 = omega arith in ground (arith, h, ap (λ k. names k ss e.1) same)

length-blank : (B : Type 0) (xs : List String) → length (blank {A = String} {B = B} xs) ≡ length xs
length-blank B [] = refl
length-blank B (x ∷ xs) = omega (arith, length-blank B xs)

exists-from_zero :
    (ss : List String) (k : ℕ) → k < length ss → exists (λ e. e.0 == k) (numbered 0 ss) ≡ true
exists-from_zero ss k lt =
    let same : 0 + k ≡ k = omega arith in
    subst (λ j. exists (λ e. e.0 == j) (numbered 0 ss) ≡ true) same (numbered-exists 0 ss k lt)

-- In whatever order the jobs are done, each slot ends up with its own answer.
pub fill_all :
    {B : Type 0} (f : String → Option B) (ss : List String) (jobs : List (ℕ × String))
    → Perm jobs (numbered 0 ss)
    → fill f jobs (blank ss) ≡ map f ss
fill_all {B} f ss jobs order =
    let named =
      All-Perm (λ e. names e.0 ss e.1 ≡ true) (λ e. hlevel) (Perm.symm order)
        (All-mono _ (λ e. names e.0 ss e.1 ≡ true) (numbered 0 ss) (names_from_zero ss)
          (numbered-names 0 ss)) in
    let size = length-fill f jobs (blank ss) ∙ length-blank B ss in
    nth_ext _ _ (size ∙ sym (length-map f ss)) (λ k lt.
      let below : k < length ss = omega (arith, lt, size) in
      let there : exists (λ e. e.0 == k) jobs ≡ true =
        exists-Perm (λ e. e.0 == k) order ∙ exists-from_zero ss k below in
      nth-fill f ss jobs (blank ss) k named (omega (arith, below, length-blank B ss))
      ∙ rw there refl)
