-- ===== src/Tests/Fractions.antt =====
-- The theorems on BigRational at concrete values.
use nimble_cas.Prelude.{◌≡◌, ◌↔◌, ap, true, arith}
use nimble_cas.Prelude.Int.{pos, negsuc, nat_abs, ◌+ℤ◌, ◌*ℤ◌}
use nimble_cas.BigInt.Power.{pow_ℤ}
use nimble_cas.BigRational.{normalise, add, pow, eq}
use nimble_cas.BigRational.Reduced.{IsFraction, IsQuotient, normalise_lem}
use nimble_cas.BigRational.Field.{rational-add}
use nimble_cas.BigRational.Power.{IsPower, rational-pow, rational-pow-negative}
use nimble_cas.BigRational.Compare.{rational-eq_iff}
use nimble_cas.Tests.Data.{
  small, small-IsValid, minus_small, minus_small-IsValid, minus_five, minus_five-IsReduced, sixth,
  sixth-IsReduced,
}

normalise_example : IsFraction (normalise (small 4) (minus_small 6)) (pos 4) (negsuc 5)
normalise_example =
    normalise_lem (small 4) (minus_small 6) (small-IsValid 4 (omega arith) (omega arith))
      (minus_small-IsValid 6 (omega arith) (omega arith))
      (λ e. absurd (omega (arith, ap nat_abs e)))

rational-add_example :
    IsFraction (add minus_five sixth) (negsuc 4 *ℤ pos 6 +ℤ pos 1 *ℤ pos 1) (pos 1 *ℤ pos 6)
rational-add_example = rational-add minus_five sixth minus_five-IsReduced sixth-IsReduced

rational-pow_example : IsPower (pow minus_five (pos 3)) minus_five 3
rational-pow_example = rational-pow minus_five 3 minus_five-IsReduced (omega arith)

rational-pow-negative_example :
    IsQuotient (pow minus_five (negsuc 2)) (negsuc 4) (pow_ℤ (pos 1) 3) (pow_ℤ (negsuc 4) 3)
rational-pow-negative_example =
    rational-pow-negative minus_five 2 minus_five-IsReduced (omega arith)

rational-eq_iff_example : (eq minus_five sixth ≡ true) ↔ (negsuc 4 *ℤ pos 6 ≡ pos 1 *ℤ pos 1)
rational-eq_iff_example = rational-eq_iff minus_five sixth minus_five-IsReduced sixth-IsReduced
