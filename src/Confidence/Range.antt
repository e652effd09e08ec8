-- ===== src/Confidence/Range.antt =====
-- The range of a score, and what the parts of it are compared with.
use helix_memory.Prelude.{◌≡◌, true, false, if◌then◌else◌, arith}
use helix_memory.Prelude.Int.{ℤ}
use helix_memory.Runtime.{Floats, Runtime, IsFloatOrder}
use helix_memory.Types.{MemoryEntry}
use helix_memory.Confidence.{MathModule, ScoreWeights, zero_f, one_f, clamp, weighted_sum, score}

module _ {fl : Floats} (order : IsFloatOrder fl)
    (zero_lt_one : fl.lt (zero_f fl) (one_f fl) ≡ true) where
  clamp_bounds :
      (x : fl.F64)
      → (fl.lt (one_f fl) (clamp fl x) ≡ false) × (fl.lt (clamp fl x) (zero_f fl) ≡ false)
  unfolding clamp
  clamp_bounds x = (
    ground (
      arith,
      order.strict.irrefl (one_f fl),
      order.strict.trans (zero_f fl) (one_f fl) (zero_f fl) zero_lt_one,
      order.strict.irrefl (zero_f fl),
    ),
    ground (
      arith,
      order.strict.irrefl (zero_f fl),
      order.strict.trans (zero_f fl) (one_f fl) (zero_f fl) zero_lt_one,
    ),
  )

  clamp_lem :
      (x : fl.F64)
      → clamp fl x
        ≡ (if fl.lt (one_f fl) x then one_f fl else if fl.lt x (zero_f fl) then zero_f fl else x)
  unfolding clamp
  clamp_lem x = ground (
    arith,
    order.strict.irrefl (zero_f fl),
    order.strict.trans (zero_f fl) (one_f fl) (zero_f fl) zero_lt_one,
  )

  -- Where 0 is below 1 and the order of floats is a strict weak order, a score is not above 1 and not
  -- below 0; it is 1 for a weighted sum above 1, 0 for one below 0, and else the sum.
  pub score_bounds :
      (rt : Runtime) (math : MathModule fl) (weights : ScoreWeights fl) (age : ℤ)
      (entry : MemoryEntry fl) (cross_validations : ℤ)
      → let total = weighted_sum fl rt math weights age entry cross_validations in
        let s = score fl rt math weights age entry cross_validations in
        (fl.lt (one_f fl) s ≡ false)
        × (fl.lt s (zero_f fl) ≡ false)
        × (s ≡ (
            if fl.lt (one_f fl) total
            then one_f fl
            else if fl.lt total (zero_f fl)
            then zero_f fl
            else total))
  unfolding score
  score_bounds rt math weights age entry cross_validations =
      let total = weighted_sum fl rt math weights age entry cross_validations in
      ((clamp_bounds total).0, (clamp_bounds total).1, clamp_lem total)
