-- ===== src/BigRational/Reduced.antt =====
-- normalise and make: the result is the given fraction in lowest terms, and no assertion fails.
use native.Mathlib.Nat.{pos_of_dvd_of_pos, eq_of_mul-eq-mul_right}
use nimble_cas.Prelude.{
  ℕ, zero, suc, ◌*◌, ◌<◌, ◌≡◌, ◌≢◌, ◌⊎◌, refl, ap, ap₂, subst, sym, ◌∙◌, Bool, true, false, arith,
  inl, inr, Option, some, if◌then◌else◌,
}
use nimble_cas.Prelude.Int.{
  ℤ, pos, negsuc, pos_part, neg_part, neg_ℤ, nat_abs, ◌*ℤ◌, eq_of_parts, pos_part-*ℤ, neg_part-*ℤ,
  nat_abs-*ℤ, *ℤ_assoc, *ℤ_comm,
}
use nimble_cas.Core.{Result, ok, err, division_by_zero}
use nimble_cas.Magnitude.Value.{value}
use nimble_cas.BigInt.{BigInt, negate as int_negate, gcd, is_zero as int_is_zero}
use nimble_cas.BigInt.Value.{to_ℤ, IsValid, signed, negate_lem, nonempty-value, neg_ℤ-signed}
use nimble_cas.BigInt.Arith.{Is}
use nimble_cas.BigInt.Division.{nonzero-mag, zero-cases}
use nimble_cas.BigInt.Gcd.{gcd_lem}
use nimble_cas.BigRational.{
  BigRational, divide_checked, sign_num, sign_den, normalise, returned, make,
}
use nimble_cas.BigRational.Exact.{Coprime, IsGcd→Coprime, divide_checked_lem}

-- The class invariant: the denominator is above zero, and the fraction in lowest terms.
pub record IsReduced (a : BigRational) : Type 0 where
  pub num_valid : IsValid a.num
  pub den_valid : IsValid a.den
  pub below : ℕ
  pub den_is : to_ℤ a.den ≡ pos below
  pub den_pos : 0 < below
  pub coprime : Coprime (nat_abs (to_ℤ a.num)) below

-- The fraction is n / d.
abbrev pub StandsFor : BigRational → ℤ → ℤ → Type 0
StandsFor a n d = to_ℤ a.num *ℤ d ≡ n *ℤ to_ℤ a.den

-- What an operation owes: the fraction n / d in lowest terms.
abbrev pub IsFraction : Option BigRational → ℤ → ℤ → Type 0
IsFraction o n d = (r : BigRational) × (o ≡ some r) × IsReduced r × StandsFor r n d

-- The sign moves to the numerator.
neg-signed : (n : ℤ) (v : ℕ) → neg_ℤ n *ℤ signed true v ≡ n *ℤ pos v
unfolding ◌*ℤ◌
neg-signed n v = ground arith

signs :
    (num den : BigInt) (s : Bool)
    → den.negative ≡ s
    → IsValid num
    → IsValid den
    → to_ℤ den ≢ pos 0
    → (k : ℕ) × (0 < k)
      × Is (sign_den den) (pos k)
      × IsValid (sign_num num den)
      × (to_ℤ (sign_num num den) *ℤ to_ℤ den ≡ to_ℤ num *ℤ pos k)
signs num den true e hn hd ne =
    let same_den : sign_den den ≡ int_negate den = ap (λ s. if s then int_negate den else den) e in
    let same_num : sign_num num den ≡ int_negate num =
      ap (λ s. if s then int_negate num else num) e in
    let minus : to_ℤ den ≡ signed true (value den.mag) = ap (λ s. signed s (value den.mag)) e in
    let d = negate_lem den hd in
    let n = negate_lem num hn in
    (
      value den.mag,
      nonempty-value den.mag hd.trimmed (nonzero-mag den ne),
      subst (λ t. Is t (pos (value den.mag))) (sym same_den)
          (d.0, d.1 ∙ ap neg_ℤ minus ∙ neg_ℤ-signed true (value den.mag)),
      subst IsValid (sym same_num) n.0,
      ap₂ (λ u v. to_ℤ u *ℤ v) same_num minus
          ∙ ap (λ t. t *ℤ signed true (value den.mag)) n.1
          ∙ neg-signed (to_ℤ num) (value den.mag),
    )
signs num den false e hn hd ne =
    let same_den : sign_den den ≡ den = ap (λ s. if s then int_negate den else den) e in
    let same_num : sign_num num den ≡ num = ap (λ s. if s then int_negate num else num) e in
    let is_pos : to_ℤ den ≡ pos (value den.mag) = ap (λ s. signed s (value den.mag)) e in
    (
      value den.mag,
      nonempty-value den.mag hd.trimmed (nonzero-mag den ne),
      subst (λ t. Is t (pos (value den.mag))) (sym same_den) (hd, is_pos),
      subst IsValid (sym same_num) hn,
      ap₂ (λ u v. to_ℤ u *ℤ v) same_num is_pos,
    )

-- A factor of a positive number by a positive number is positive.
factor_pos :
    (a : ℤ) (g k : ℕ) → 0 < k → a *ℤ pos g ≡ pos k → (a ≡ pos (nat_abs a)) × (0 < nat_abs a)
unfolding ◌*ℤ◌
factor_pos (pos n) g k h e = (refl, positive n e)
  where
    positive : (n : ℕ) → pos (n * g) ≡ pos k → 0 < n
    positive zero e = absurd (omega (arith, ap nat_abs e))
    positive (suc n) e = omega arith
factor_pos (negsuc n) g k h e = absurd (negative (suc n * g) e)
  where
    negative : (m : ℕ) → neg_ℤ (pos m) ≡ pos k → ⊥
    negative zero e = omega (arith, ap nat_abs e)
    negative (suc m) e = omega (arith, ap pos_part e)

pub *ℤ-cancel : (a b : ℤ) (g : ℕ) → 0 < g → a *ℤ pos g ≡ b *ℤ pos g → a ≡ b
*ℤ-cancel a b g h e =
    let p = eq_of_mul-eq-mul_right g h _ _ (sym (parts a) ∙ ap pos_part e ∙ parts b) in
    let n = eq_of_mul-eq-mul_right g h _ _ (sym (negs a) ∙ ap neg_part e ∙ negs b) in
    eq_of_parts a b (omega arith)
  where
    parts : (c : ℤ) → pos_part (c *ℤ pos g) ≡ pos_part c * g
    parts c = pos_part-*ℤ c (pos g) ∙ omega arith

    negs : (c : ℤ) → neg_part (c *ℤ pos g) ≡ neg_part c * g
    negs c = neg_part-*ℤ c (pos g) ∙ omega arith

-- Dividing a fraction through by g keeps it.
cross :
    (l r n d num den : ℤ) (g : ℕ)
    → 0 < g
    → l *ℤ pos g ≡ n
    → r *ℤ pos g ≡ d
    → n *ℤ den ≡ num *ℤ d
    → l *ℤ den ≡ num *ℤ r
cross l r n d num den g h el er e = *ℤ-cancel (l *ℤ den) (num *ℤ r) g h (
    *ℤ_assoc l den (pos g)
    ∙ ap (λ t. l *ℤ t) (*ℤ_comm den (pos g))
    ∙ sym (*ℤ_assoc l (pos g) den)
    ∙ ap (λ t. t *ℤ den) el
    ∙ e
    ∙ ap (λ t. num *ℤ t) (sym er)
    ∙ sym (*ℤ_assoc num r (pos g)))

normalise-eq :
    (num den n d : BigInt)
    → divide_checked (sign_num num den) (gcd (sign_num num den) (sign_den den)) ≡ some n
    → divide_checked (sign_den den) (gcd (sign_num num den) (sign_den den)) ≡ some d
    → normalise num den ≡ some (record { num = n; den = d })
unfolding normalise
normalise-eq num den n d en ed = rw (normalise, en, ed) refl

-- For valid operands and a denominator that is not zero, normalise fails no assertion and returns
-- a fraction in lowest terms with a denominator above zero that equals num / den by cross
-- multiplication.
pub normalise_lem :
    (num den : BigInt)
    → IsValid num
    → IsValid den
    → to_ℤ den ≢ pos 0
    → IsFraction (normalise num den) (to_ℤ num) (to_ℤ den)
normalise_lem num den hn hd ne =
    let s = signs num den den.negative refl hn hd ne in
    let n : BigInt = sign_num num den in
    let d : BigInt = sign_den den in
    let g = gcd_lem n d s.3 s.2.0 in
    let size : nat_abs (to_ℤ d) ≡ s.0 = ap nat_abs s.2.1 in
    let g_pos : 0 < g.0 = pos_of_dvd_of_pos g.2.right (omega (arith, size, s.1)) in
    let left = divide_checked_lem n (gcd n d) g.0 s.3 g.1.0 g.1.1 g_pos g.2.left in
    let right = divide_checked_lem d (gcd n d) g.0 s.2.0 g.1.0 g.1.1 g_pos g.2.right in
    let below = factor_pos (to_ℤ right.0) g.0 s.0 s.1 (right.3 ∙ s.2.1) in
    (
      record { num = left.0; den = right.0 },
      normalise-eq num den left.0 right.0 left.1 right.1,
      record {
        num_valid = left.2;
        den_valid = right.2;
        below = nat_abs (to_ℤ right.0);
        den_is = below.0;
        den_pos = below.1;
        coprime =
            IsGcd→Coprime _ _ g.0 _ _ g.2 g_pos
              (sym (nat_abs-*ℤ (to_ℤ left.0) (pos g.0)) ∙ ap nat_abs left.3)
              (sym (nat_abs-*ℤ (to_ℤ right.0) (pos g.0)) ∙ ap nat_abs right.3);
      },
      cross _ _ _ _ (to_ℤ num) (to_ℤ den) g.0 g_pos left.3 (right.3 ∙ s.2.1) s.4,
    )

-- What a division owes: the error for a zero divisor c, the fraction n / d otherwise.
abbrev pub IsQuotient : Option (Result BigRational) → ℤ → ℤ → ℤ → Type 0
IsQuotient o c n d =
    ((c ≡ pos 0) × (o ≡ some (err division_by_zero)))
    ⊎ ((c ≢ pos 0) × ((r : BigRational) × (o ≡ some (ok r)) × IsReduced r × StandsFor r n d))

pub quotient :
    (c : BigInt) (o : Option BigRational) (n d : ℤ)
    → IsValid c
    → (to_ℤ c ≢ pos 0 → IsFraction o n d)
    → IsQuotient (if int_is_zero c then some (err division_by_zero) else returned o) (to_ℤ c) n d
unfolding int_is_zero
quotient c o n d hc h = elim (zero-cases c hc) [
  | inl z ↦ inl (z.1, rw z.0 refl)
  | inr z ↦ let p = h z.1 in inr (z.1, (p.0, rw z.0 (ap returned p.1), p.2, p.3))
]

-- For valid operands, make returns division_by_zero exactly when the denominator stands for zero,
-- and otherwise a fraction in lowest terms that equals num / den.
pub make_lem :
    (num den : BigInt)
    → IsValid num
    → IsValid den
    → IsQuotient (make num den) (to_ℤ den) (to_ℤ num) (to_ℤ den)
unfolding make
make_lem num den hn hd = quotient den _ _ _ hd (normalise_lem num den hn hd)
