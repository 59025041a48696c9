-- ===== src/Prelude/Arith.antt =====
-- Laws of products and quotients of native numbers that the components share.
use native.Mathlib.Nat.{div-lt_iff_lt-mul}
use nimble_cas.Prelude.{ℕ, ◌+◌, ◌*◌, ◌/◌, ◌≤◌, ◌<◌, arith}

pub mul_le_mul : (a b c d : ℕ) → a ≤ b → c ≤ d → a * c ≤ b * d
mul_le_mul a b c d h k = grind arith

-- Long division by d in base b: the digit is below the base.
pub digit-lt : (r x b d : ℕ) → r < d → x < b → (r * b + x) / d < b
digit-lt r x b d hr hx =
    (div-lt_iff_lt-mul {k = d} (omega arith)).1
      (omega (arith, mul_le_mul (r + 1) d b b (omega arith) (omega arith)))
