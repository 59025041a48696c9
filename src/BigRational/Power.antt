-- ===== src/BigRational/Power.antt =====
-- pow of BigRational, for every exponent of 64 bits, negative ones included.
use native.Mathlib.Nat.{pow-zero, pow-succ', one-le-pow}
use nimble_cas.Prelude.{
  ℕ, zero, suc, ◌*◌, ◌^◌, ◌<◌, ◌≡◌, ◌≢◌, refl, ap, subst, sym, ◌∙◌, arith, suc-==-zero, Option,
  some,
}
use nimble_cas.Prelude.Int.{ℤ, pos, negsuc, nat_abs, ◌*ℤ◌, nat_abs-*ℤ}
use nimble_cas.Core.{Result, ok}
use nimble_cas.BigInt.{pow as int_pow}
use nimble_cas.BigInt.Value.{to_ℤ, IsInt64, from_i64_lem, from_u64_lem}
use nimble_cas.BigInt.Power.{pow_ℤ, pow_lem}
use nimble_cas.BigRational.{BigRational, pow, is_zero, exp_size, from_int, from_bigint}
use nimble_cas.BigRational.Exact.{Coprime, Coprime-pow, Coprime-one}
use nimble_cas.BigRational.Reduced.{IsReduced, IsQuotient, quotient}
use nimble_cas.BigRational.Field.{normalise-Is, product-nonzero}

exp_size-pos : (n : ℕ) → IsInt64 (pos n) → exp_size (pos n) ≡ n
exp_size-pos n h = omega arith

exp_size-negsuc : (n : ℕ) → IsInt64 (negsuc n) → exp_size (negsuc n) ≡ suc n
exp_size-negsuc n h = omega arith

pow_ℤ-pos : (k n : ℕ) → pow_ℤ (pos k) n ≡ pos (k ^ n)
unfolding ◌*ℤ◌
pow_ℤ-pos k zero = ap pos (sym (pow-zero k))
pow_ℤ-pos k (suc n) = ap (λ t. pos k *ℤ t) (pow_ℤ-pos k n) ∙ ap pos (sym (pow-succ' k n))

nat_abs-pow_ℤ : (a : ℤ) (n : ℕ) → nat_abs (pow_ℤ a n) ≡ nat_abs a ^ n
nat_abs-pow_ℤ a zero = sym (pow-zero (nat_abs a))
nat_abs-pow_ℤ a (suc n) =
    nat_abs-*ℤ a (pow_ℤ a n)
    ∙ ap (λ (t : ℕ). nat_abs a * t) (nat_abs-pow_ℤ a n)
    ∙ sym (pow-succ' (nat_abs a) n)

pow_ℤ-nonzero : (a : ℤ) (n : ℕ) → a ≢ pos 0 → pow_ℤ a n ≢ pos 0
pow_ℤ-nonzero a zero h = λ e. absurd (omega (arith, ap nat_abs e))
pow_ℤ-nonzero a (suc n) h = product-nonzero a (pow_ℤ a n) h (pow_ℤ-nonzero a n h)

-- The powers of a fraction in lowest terms are in lowest terms.
powers-IsReduced :
    (a : BigRational) (n : ℕ)
    → n < 2 ^ 64
    → IsReduced a
    → IsReduced (record { num = int_pow a.num n; den = int_pow a.den n })
powers-IsReduced a n h ha =
    let p = pow_lem a.num n h ha.num_valid in
    let q = pow_lem a.den n h ha.den_valid in
    record {
      num_valid = p.0;
      den_valid = q.0;
      below = ha.below ^ n;
      den_is = q.1 ∙ ap (λ t. pow_ℤ t n) ha.den_is ∙ pow_ℤ-pos ha.below n;
      den_pos = one-le-pow n ha.below ha.den_pos;
      coprime =
          subst (λ m. Coprime m (ha.below ^ n))
            (sym (ap nat_abs p.1 ∙ nat_abs-pow_ℤ (to_ℤ a.num) n))
            (Coprime-pow _ ha.below n ha.coprime);
    }

-- What a power of at least zero owes: the powers of both parts.
abbrev pub IsPower : Option (Result BigRational) → BigRational → ℕ → Type 0
IsPower o a n =
    (r : BigRational) × (o ≡ some (ok r))
    × IsReduced r
    × (to_ℤ r.num ≡ pow_ℤ (to_ℤ a.num) n)
    × (to_ℤ r.den ≡ pow_ℤ (to_ℤ a.den) n)

from_int_one :
    IsReduced (from_int (pos 1))
    × (to_ℤ (from_int (pos 1)).num ≡ pos 1)
    × (to_ℤ (from_int (pos 1)).den ≡ pos 1)
unfolding from_int from_bigint
from_int_one =
    let n = from_i64_lem (pos 1) (omega arith) in
    let d = from_u64_lem 1 (omega arith) in
    (
      record {
        num_valid = n.0;
        den_valid = d.0;
        below = 1;
        den_is = d.1;
        den_pos = omega arith;
        coprime = Coprime-one _;
      },
      n.1,
      d.1,
    )

-- For a fraction in lowest terms and a 64-bit exponent n of at least zero, pow returns the
-- fraction of the n-th powers of numerator and denominator, which is in lowest terms without a
-- further reduction.
pub rational-pow :
    (a : BigRational) (n : ℕ) → IsReduced a → IsInt64 (pos n) → IsPower (pow a (pos n)) a n
unfolding pow is_zero
rational-pow a zero ha h = (from_int (pos 1), refl, from_int_one.0, from_int_one.1, from_int_one.2)
rational-pow a (suc n) ha h =
    let size = exp_size-pos (suc n) h in
    let e : ℕ = exp_size (pos (suc n)) in
    let p = pow_lem a.num e (omega (arith, size)) ha.num_valid in
    let q = pow_lem a.den e (omega (arith, size)) ha.den_valid in
    (
      record { num = int_pow a.num e; den = int_pow a.den e },
      rw (suc-==-zero n) refl,
      powers-IsReduced a e (omega (arith, size)) ha,
      p.1 ∙ ap (pow_ℤ (to_ℤ a.num)) size,
      q.1 ∙ ap (pow_ℤ (to_ℤ a.den)) size,
    )

-- For a fraction in lowest terms and a 64-bit exponent -(n + 1), INT64_MIN included, pow returns
-- division_by_zero exactly when the numerator is zero, and otherwise the fraction in lowest terms
-- that equals den ^ (n + 1) / num ^ (n + 1).
pub rational-pow-negative :
    (a : BigRational) (n : ℕ)
    → IsReduced a
    → IsInt64 (negsuc n)
    → IsQuotient
        (pow a (negsuc n))
        (to_ℤ a.num)
        (pow_ℤ (to_ℤ a.den) (suc n))
        (pow_ℤ (to_ℤ a.num) (suc n))
unfolding pow is_zero
rational-pow-negative a n ha h =
    let p = pow_lem a.num (exp_size (negsuc n)) (omega (arith, exp_size-negsuc n h)) ha.num_valid in
    let q = pow_lem a.den (exp_size (negsuc n)) (omega (arith, exp_size-negsuc n h)) ha.den_valid in
    let size = exp_size-negsuc n h in
    quotient a.num _ _ _ ha.num_valid (λ ne.
      normalise-Is _ _ _ _ (q.0, q.1 ∙ ap (pow_ℤ (to_ℤ a.den)) size)
        (p.0, p.1 ∙ ap (pow_ℤ (to_ℤ a.num)) size) (pow_ℤ-nonzero (to_ℤ a.num) (suc n) ne))
