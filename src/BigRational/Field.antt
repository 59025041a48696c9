-- ===== src/BigRational/Field.antt =====
-- The field operations of BigRational: each result is the rational result in lowest terms.
use nimble_cas.Prelude.{ℕ, zero, suc, ◌*◌, ◌<◌, ◌≡◌, ◌≢◌, refl, ap, ap₂, subst, sym, ◌∙◌, arith}
use nimble_cas.Prelude.Int.{ℤ, pos, negsuc, neg_ℤ, nat_abs, ◌+ℤ◌, ◌-ℤ◌, ◌*ℤ◌, nat_abs-*ℤ}
use nimble_cas.BigInt.{BigInt, multiply as int_multiply}
use nimble_cas.BigInt.Value.{to_ℤ, IsValid, negate_lem}
use nimble_cas.BigInt.Arith.{Is, add_lem, subtract_lem, multiply_lem}
use nimble_cas.BigRational.{
  BigRational, normalise, add, subtract, multiply, negate, divide, reciprocal, is_zero,
}
use nimble_cas.BigRational.Exact.{Coprime}
use nimble_cas.BigRational.Reduced.{IsReduced, IsFraction, IsQuotient, quotient, normalise_lem}

pub den-nonzero : (a : BigRational) → IsReduced a → to_ℤ a.den ≢ pos 0
den-nonzero a h e = absurd (omega (arith, h.den_pos, ap nat_abs (sym h.den_is ∙ e)))

pub product-nonzero : (a b : ℤ) → a ≢ pos 0 → b ≢ pos 0 → a *ℤ b ≢ pos 0
product-nonzero a b ha hb e =
    nonzero (nat_abs a) (nat_abs b) (positive a ha) (positive b hb)
      (sym (nat_abs-*ℤ a b) ∙ ap nat_abs e)
  where
    positive : (c : ℤ) → c ≢ pos 0 → 0 < nat_abs c
    positive (pos zero) h = absurd (h refl)
    positive (pos (suc n)) h = omega arith
    positive (negsuc n) h = omega arith

    nonzero : (m n : ℕ) → 0 < m → 0 < n → m * n ≡ 0 → ⊥
    nonzero zero n hm hn e = omega arith
    nonzero (suc m) n hm hn e = omega arith

-- normalise of operands that stand for n and d.
pub normalise-Is :
    (num den : BigInt) (n d : ℤ)
    → Is num n
    → Is den d
    → d ≢ pos 0
    → IsFraction (normalise num den) n d
normalise-Is num den n d hn hd ne =
    let p = normalise_lem num den hn.0 hd.0 (λ z. ne (sym hd.1 ∙ z)) in
    (p.0, p.1, p.2, ap (λ t. to_ℤ p.0.num *ℤ t) (sym hd.1) ∙ p.3 ∙ ap (λ t. t *ℤ to_ℤ p.0.den) hn.1)

product : (a b : BigInt) → IsValid a → IsValid b → Is (int_multiply a b) (to_ℤ a *ℤ to_ℤ b)
product = multiply_lem

-- The common denominator of two fractions.
denominators :
    (a b : BigRational)
    → IsReduced a
    → IsReduced b
    → Is (int_multiply a.den b.den) (to_ℤ a.den *ℤ to_ℤ b.den) × (to_ℤ a.den *ℤ to_ℤ b.den ≢ pos 0)
denominators a b ha hb = (
  multiply_lem a.den b.den ha.den_valid hb.den_valid,
  product-nonzero (to_ℤ a.den) (to_ℤ b.den) (den-nonzero a ha) (den-nonzero b hb),
)

-- For fractions in lowest terms, add fails no assertion and returns the fraction in lowest terms
-- that equals (a.num * b.den + b.num * a.den) / (a.den * b.den).
pub rational-add :
    (a b : BigRational)
    → IsReduced a
    → IsReduced b
    → IsFraction
        (add a b)
        (to_ℤ a.num *ℤ to_ℤ b.den +ℤ to_ℤ b.num *ℤ to_ℤ a.den)
        (to_ℤ a.den *ℤ to_ℤ b.den)
unfolding add
rational-add a b ha hb =
    let l = multiply_lem a.num b.den ha.num_valid hb.den_valid in
    let r = multiply_lem b.num a.den hb.num_valid ha.den_valid in
    let s = add_lem _ _ l.0 r.0 in
    let d = denominators a b ha hb in normalise-Is _ _ _ _ (s.0, s.1 ∙ ap₂ ◌+ℤ◌ l.1 r.1) d.0 d.1

-- For fractions in lowest terms, subtract fails no assertion and returns the fraction in lowest
-- terms that equals (a.num * b.den - b.num * a.den) / (a.den * b.den).
pub rational-subtract :
    (a b : BigRational)
    → IsReduced a
    → IsReduced b
    → IsFraction
        (subtract a b)
        (to_ℤ a.num *ℤ to_ℤ b.den -ℤ to_ℤ b.num *ℤ to_ℤ a.den)
        (to_ℤ a.den *ℤ to_ℤ b.den)
unfolding subtract
rational-subtract a b ha hb =
    let l = multiply_lem a.num b.den ha.num_valid hb.den_valid in
    let r = multiply_lem b.num a.den hb.num_valid ha.den_valid in
    let s = subtract_lem _ _ l.0 r.0 in
    let d = denominators a b ha hb in normalise-Is _ _ _ _ (s.0, s.1 ∙ ap₂ ◌-ℤ◌ l.1 r.1) d.0 d.1

-- For fractions in lowest terms, multiply fails no assertion and returns the fraction in lowest
-- terms that equals (a.num * b.num) / (a.den * b.den).
pub rational-multiply :
    (a b : BigRational)
    → IsReduced a
    → IsReduced b
    → IsFraction (multiply a b) (to_ℤ a.num *ℤ to_ℤ b.num) (to_ℤ a.den *ℤ to_ℤ b.den)
unfolding multiply
rational-multiply a b ha hb =
    let n = multiply_lem a.num b.num ha.num_valid hb.num_valid in
    let d = denominators a b ha hb in normalise-Is _ _ _ _ n d.0 d.1

nat_abs-neg_ℤ : (a : ℤ) → nat_abs (neg_ℤ a) ≡ nat_abs a
nat_abs-neg_ℤ a = ground arith

-- For a fraction in lowest terms, negate returns one in lowest terms with the negated numerator
-- and the same denominator.
pub rational-negate :
    (a : BigRational)
    → IsReduced a
    → IsReduced (negate a) × (to_ℤ (negate a).num ≡ neg_ℤ (to_ℤ a.num)) × ((negate a).den ≡ a.den)
unfolding negate
rational-negate a h =
    let n = negate_lem a.num h.num_valid in
    (
      record {
        num_valid = n.0;
        den_valid = h.den_valid;
        below = h.below;
        den_is = h.den_is;
        den_pos = h.den_pos;
        coprime =
            subst (λ m. Coprime m h.below) (sym (ap nat_abs n.1 ∙ nat_abs-neg_ℤ (to_ℤ a.num)))
              h.coprime;
      },
      n.1,
      refl,
    )

-- For fractions in lowest terms, divide returns division_by_zero exactly when the divisor's
-- numerator is zero, and otherwise the fraction in lowest terms that equals (a.num * b.den) /
-- (a.den * b.num).
pub rational-divide :
    (a b : BigRational)
    → IsReduced a
    → IsReduced b
    → IsQuotient (divide a b) (to_ℤ b.num) (to_ℤ a.num *ℤ to_ℤ b.den) (to_ℤ a.den *ℤ to_ℤ b.num)
unfolding divide is_zero
rational-divide a b ha hb = quotient b.num _ _ _ hb.num_valid (λ ne.
    normalise-Is _ _ _ _ (multiply_lem a.num b.den ha.num_valid hb.den_valid)
      (multiply_lem a.den b.num ha.den_valid hb.num_valid)
      (product-nonzero (to_ℤ a.den) (to_ℤ b.num) (den-nonzero a ha) ne))

-- For a fraction in lowest terms, reciprocal returns division_by_zero exactly when the numerator
-- is zero, and otherwise the fraction in lowest terms that equals den / num.
pub rational-reciprocal :
    (a : BigRational)
    → IsReduced a
    → IsQuotient (reciprocal a) (to_ℤ a.num) (to_ℤ a.den) (to_ℤ a.num)
unfolding reciprocal is_zero
rational-reciprocal a ha =
    quotient a.num _ _ _ ha.num_valid
      (λ ne. normalise-Is _ _ _ _ (ha.den_valid, refl) (ha.num_valid, refl) ne)
