-- ===== src/Runtime.antt =====
-- What the program takes from Go and its standard library, as parameters: float64 and float32
-- arithmetic, the order in which `range` walks a map, sort.Slice, and package strings. The laws
-- that a theorem relies on are records of their own, which the theorem takes as hypotheses.
use helix_memory.Prelude.{ℕ, String, Bool, true, false, List, ◌≡◌, ◌⊎◌, Perm, Pairwise}
use helix_memory.Prelude.Int.{ℤ}

-- float64 and float32, with the operations that the code uses.
pub record Floats : Type 1 where
  pub F64 : Type 0
  pub F32 : Type 0
  pub lt : F64 → F64 → Bool
  pub ge : F64 → F64 → Bool
  pub eq : F64 → F64 → Bool
  pub add : F64 → F64 → F64
  pub mul : F64 → F64 → F64
  pub div : F64 → F64 → F64
  pub sqrt : F64 → F64
  -- `float64(x)` of a float32 and of an int
  pub widen : F32 → F64
  pub of_int : ℤ → F64
  -- `int(x)` of a float64
  pub to_int : F64 → ℤ
  -- the literal m / 10 ^ k: 1.25 is `decimal 125 2`
  pub decimal : (m k : ℕ) → F64

-- A comparison that sorts: what sort.Slice asks of its `less`.
pub record IsStrictWeak {A : Type 0} (less : A → A → Bool) : Type 0 where
  pub irrefl : (a : A) → less a a ≡ false
  pub trans : (a b c : A) → less a b ≡ true → less b c ≡ true → less a c ≡ true
  pub cotrans : (a b c : A) → less a c ≡ true → (less a b ≡ true) ⊎ (less b c ≡ true)

-- Map order, sorting and text functions.
pub record Runtime : Type 1 where
  -- the order in which a `range` loop walks the entries of a map
  pub range_order : (A : Type 0) → List A → List A
  -- sort.Slice
  pub sort_slice : (A : Type 0) → (A → A → Bool) → List A → List A
  -- the order in which goroutines that run at once take effect
  pub interleave : (A : Type 0) → List A → List A
  -- strings.Contains(s, substr) and strings.ToLower
  pub contains : (s substr : String) → Bool
  pub to_lower : String → String
  -- len(s) and s[:n], in bytes
  pub len : String → ℕ
  pub prefix : String → ℕ → String
  -- fmt.Sprintf("source_%d", i)
  pub source_label : ℕ → String

-- What the Go documentation says of these.
pub record IsGo (rt : Runtime) : Type 1 where
  -- A `range` loop over a map visits each entry once.
  pub range_order-perm : (A : Type 0) (xs : List A) → Perm (rt.range_order A xs) xs
  -- Each goroutine takes effect once.
  pub interleave-perm : (A : Type 0) (xs : List A) → Perm (rt.interleave A xs) xs
  -- sort.Slice permutes the slice,
  pub sort_slice-perm :
      (A : Type 0) (less : A → A → Bool) (xs : List A) → Perm (rt.sort_slice A less xs) xs
  -- and sorts it, when `less` is a strict weak order.
  pub sort_slice_sorts :
      (A : Type 0) (less : A → A → Bool) (xs : List A)
      → IsStrictWeak less
      → Pairwise (λ a b. less b a ≡ false) (rt.sort_slice A less xs)

-- Comparison of float64 values other than NaN.
pub record IsFloatOrder (fl : Floats) : Type 0 where
  pub strict : IsStrictWeak fl.lt
  -- Equal values are those that compare neither way.
  pub eq_lem : (a b : fl.F64) → fl.eq a b ≡ true → (fl.lt a b ≡ false) × (fl.lt b a ≡ false)
  pub eq_of_not_lt : (a b : fl.F64) → fl.lt a b ≡ false → fl.lt b a ≡ false → fl.eq a b ≡ true
