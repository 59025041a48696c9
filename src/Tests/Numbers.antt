-- ===== src/Tests/Numbers.antt =====
-- The theorems on number theory at concrete values.
use nimble_cas.Prelude.{ℕ, ◌<◌, ◌%◌, ◌≡◌, ◌≢◌, ◌⊎◌, refl, arith}
use nimble_cas.Prelude.Int.{pos, nat_abs, ◌*ℤ◌}
use nimble_cas.Core.{ok, err, domain_error}
use nimble_cas.BigInt.{BigInt}
use nimble_cas.BigInt.Value.{to_ℤ}
use nimble_cas.BigInt.Arith.{Is}
use nimble_cas.BigInt.Division.{residue}
use nimble_cas.BigInt.Gcd.{IsGcd}
use nimble_cas.NumberTheory.{extended_gcd, mod_inverse}
use nimble_cas.NumberTheory.Euclid.{Row, extended_gcd_lem}
use nimble_cas.NumberTheory.Inverse.{mod_inverse_lem}
use nimble_cas.Tests.Data.{
  minus_wide, minus_wide-IsValid, middle, middle-IsValid, small, small-IsValid,
}

extended_gcd_example :
    Row
      (to_ℤ minus_wide)
      (to_ℤ middle)
      (extended_gcd minus_wide middle).g
      (extended_gcd minus_wide middle).x
      (extended_gcd minus_wide middle).y
    × (g : ℕ) × (to_ℤ (extended_gcd minus_wide middle).g ≡ pos g)
    × IsGcd (nat_abs (to_ℤ minus_wide)) (nat_abs (to_ℤ middle)) g
extended_gcd_example = extended_gcd_lem minus_wide middle minus_wide-IsValid middle-IsValid

mod_inverse_example :
    (IsGcd 3 7 1
      × ((t : BigInt) × (v : ℕ) × (mod_inverse (small 3) (small 7) ≡ ok t)
          × Is t (pos v)
          × (v < 7)
          × (residue (pos 3 *ℤ pos v) 7 ≡ 1 % 7)))
    ⊎ ((g : ℕ) × IsGcd 3 7 g × (g ≢ 1) × (mod_inverse (small 3) (small 7) ≡ err domain_error))
mod_inverse_example =
    mod_inverse_lem (small 3) (small 7) 7 (small-IsValid 3 (omega arith) (omega arith))
      (small-IsValid 7 (omega arith) (omega arith)) refl (omega arith)
