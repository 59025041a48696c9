-- ===== src/Tests/Integers.antt =====
-- The theorems on magnitudes and on BigInt at concrete values.
use nimble_cas.Prelude.{ℕ, ◌^◌, ◌%◌, ◌≡◌, ◌↔◌, ◌⊎◌, refl, ap, true, false, arith}
use nimble_cas.Prelude.Int.{pos, nat_abs, ◌+ℤ◌, ◌*ℤ◌}
use nimble_cas.Core.{ok, err, domain_error}
use nimble_cas.Knuth.{mag_divmod}
use nimble_cas.Knuth.Correct.{DivMod, mag_divmod_lem}
use nimble_cas.BigInt.{BigInt, cmp, add, multiply, divmod, pow, gcd, modpow}
use nimble_cas.BigInt.Value.{to_ℤ, IsValid}
use nimble_cas.BigInt.Arith.{Is, add_lem, multiply_lem}
use nimble_cas.BigInt.Order.{compare_ℤ, cmp_lem}
use nimble_cas.BigInt.Division.{Truncated, divmod_lem, residue, AtMostZero}
use nimble_cas.BigInt.Power.{pow_ℤ, pow_lem}
use nimble_cas.BigInt.Gcd.{IsGcd, gcd_lem}
use nimble_cas.BigInt.Modular.{modpow_lem}
use nimble_cas.BigInt.Modulus.{modpow-err_iff}
use nimble_cas.Tests.Data.{
  wide, wide-IsLimbs, wide-IsTrimmed, two_limbs, two_limbs-IsLimbs, two_limbs-IsTrimmed, minus_wide,
  minus_wide-IsValid, middle, middle-IsValid, small, small-IsValid, minus_small,
  minus_small-IsValid,
}

mag_divmod_example : DivMod wide two_limbs (mag_divmod wide two_limbs)
mag_divmod_example =
    mag_divmod_lem wide two_limbs wide-IsLimbs two_limbs-IsLimbs wide-IsTrimmed two_limbs-IsTrimmed
      (λ e. cc)

add_example : Is (add minus_wide middle) (to_ℤ minus_wide +ℤ to_ℤ middle)
add_example = add_lem minus_wide middle minus_wide-IsValid middle-IsValid

multiply_example : Is (multiply minus_wide middle) (to_ℤ minus_wide *ℤ to_ℤ middle)
multiply_example = multiply_lem minus_wide middle minus_wide-IsValid middle-IsValid

cmp_example : cmp minus_wide middle ≡ compare_ℤ (to_ℤ minus_wide) (to_ℤ middle)
cmp_example = cmp_lem minus_wide middle minus_wide-IsValid middle-IsValid

divmod_example :
    (q : BigInt) × (r : BigInt) × (divmod minus_wide middle ≡ ok (q, r))
    × IsValid q
    × IsValid r
    × Truncated (to_ℤ minus_wide) (to_ℤ middle) (to_ℤ q) (to_ℤ r)
divmod_example =
    divmod_lem minus_wide middle minus_wide-IsValid middle-IsValid
      (λ e. absurd (omega (arith, ap nat_abs e)))

pow_example : Is (pow minus_wide 5) (pow_ℤ (to_ℤ minus_wide) 5)
pow_example = pow_lem minus_wide 5 (omega arith) minus_wide-IsValid

gcd_example :
    (g : ℕ) × Is (gcd minus_wide middle) (pos g)
    × IsGcd (nat_abs (to_ℤ minus_wide)) (nat_abs (to_ℤ middle)) g
gcd_example = gcd_lem minus_wide middle minus_wide-IsValid middle-IsValid

modpow_example :
    (r : BigInt) × (modpow minus_wide (small 10) (small 7) ≡ ok r)
    × Is r (pos (residue (to_ℤ minus_wide) 7 ^ 10 % 7))
modpow_example =
    modpow_lem minus_wide (small 10) (small 7) 10 7 minus_wide-IsValid
      (small-IsValid 10 (omega arith) (omega arith)) (small-IsValid 7 (omega arith) (omega arith))
      refl refl (omega arith)

modpow-err_iff_example :
    (modpow middle (small 2) (minus_small 7) ≡ err domain_error)
    ↔ ((false ≡ true) ⊎ AtMostZero (to_ℤ (minus_small 7)))
modpow-err_iff_example =
    modpow-err_iff middle (small 2) (minus_small 7)
      (minus_small-IsValid 7 (omega arith) (omega arith))
