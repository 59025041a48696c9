-- ===== src/Magnitude/Order.antt =====
-- `mag_cmp` decides the order of the numbers, on trimmed magnitudes.
use native.Mathlib.Decide.{dec_le}
use nimble_cas.Prelude.{ℕ, zero, suc, ◌≤◌, ◌<◌, ◌≡◌, compare, [], ◌∷◌, arith, length}
use nimble_cas.Magnitude.{Limbs, limbs_cmp, mag_cmp}
use nimble_cas.Magnitude.Value.{value, IsLimbs, IsTrimmed, weight, value-lt-weight, weight-le-value}

-- Vectors of one size: what the highest differing limbs say is what the numbers say.
limbs_cmp-value :
    (a b : Limbs)
    → IsLimbs a
    → IsLimbs b
    → length a ≡ length b
    → limbs_cmp a b ≡ compare (value a) (value b)
unfolding limbs_cmp
limbs_cmp-value [] [] ha hb e = ground arith
limbs_cmp-value [] (y ∷ ys) ha hb e = ground arith
limbs_cmp-value (x ∷ xs) [] ha hb e = ground arith
limbs_cmp-value (x ∷ xs) (y ∷ ys) ha hb e = ground (arith, limbs_cmp-value xs ys ha.1 hb.1)

weight_mono : (m n : ℕ) → m ≤ n → weight m ≤ weight n
weight_mono zero zero h = omega arith
weight_mono zero (suc n) h = omega (arith, weight_mono zero n)
weight_mono (suc m) zero h = omega arith
weight_mono (suc m) (suc n) h = omega (arith, weight_mono m n)

-- Of trimmed magnitudes the shorter one stands for the smaller number.
value-lt_of_shorter :
    (a b : Limbs) → IsLimbs a → IsTrimmed b → length a < length b → value a < value b
value-lt_of_shorter a [] ha hb h = omega arith
value-lt_of_shorter a (y ∷ ys) ha hb h =
    omega (arith, value-lt-weight a ha, weight-le-value y ys hb, weight_mono (length a) (length ys))

-- For trimmed magnitudes of 32-bit limbs, mag_cmp is the comparison of the values.
pub mag_cmp-value :
    (a b : Limbs)
    → IsLimbs a
    → IsLimbs b
    → IsTrimmed a
    → IsTrimmed b
    → mag_cmp a b ≡ compare (value a) (value b)
unfolding mag_cmp
mag_cmp-value a b ha hb ta tb =
    ground (
      arith,
      limbs_cmp-value a b ha hb,
      value-lt_of_shorter a b ha tb,
      value-lt_of_shorter b a hb ta,
    )

-- Of trimmed magnitudes the larger number has no fewer limbs.
pub length-le_of_value-le :
    (a b : Limbs) → IsLimbs a → IsTrimmed b → value b ≤ value a → length b ≤ length a
length-le_of_value-le a b ha tb h = elim (dec_le (length b) (length a)) [
  | yes le ↦ le
  | no gt ↦ absurd (omega (arith, value-lt_of_shorter a b ha tb (omega arith)))
]
