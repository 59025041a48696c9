-- ===== src/BigRational/Exact.antt =====
-- Coprime numbers, and the exact quotients that normalise takes.
use Prim.Native.Nat.{◌∣◌}
use native.Mathlib.Nat.{
  mul-dvd-mul_right, dvd_of_mul-dvd-mul_right, mod-eq-zero_of_dvd, dvd-mul_right_of_dvd,
  dvd-mul_left, dvd-mul_right, dvd_antisymm, pow-succ', pow-zero,
}
use nimble_cas.Prelude.{
  ℕ, zero, suc, ◌*◌, ◌%◌, ◌^◌, ◌<◌, ◌≡◌, ◌≢◌, refl, ap, subst, sym, ◌∙◌, Bool, false, not, arith,
  some,
}
use nimble_cas.Prelude.Int.{pos, nat_abs, ◌*ℤ◌}
use nimble_cas.Magnitude.{Limbs}
use nimble_cas.Magnitude.Value.{value}
use nimble_cas.Knuth.{mag_divmod}
use nimble_cas.Knuth.Correct.{mag_divmod_lem}
use nimble_cas.BigInt.{BigInt, bool_eq, from_mag, is_empty, divmod, divide}
use nimble_cas.BigInt.Value.{signed, to_ℤ, IsValid, nat_abs-signed, nonempty-ne}
use nimble_cas.BigInt.Arith.{from_mag-Is}
use nimble_cas.BigInt.Division.{mod_unique, nonzero-mag}
use nimble_cas.BigInt.Gcd.{IsGcd}
use nimble_cas.BigInt.Order.{not_negative}
use nimble_cas.BigRational.{divide_checked}

-- No common factor: whatever divides the multiples of both by c divides c.
abbrev pub Coprime : ℕ → ℕ → Type 0
Coprime a b = (k c : ℕ) → k ∣ a * c → k ∣ b * c → k ∣ c

pub IsGcd→Coprime :
    (a b g a' b' : ℕ) → IsGcd a b g → 0 < g → a' * g ≡ a → b' * g ≡ b → Coprime a' b'
IsGcd→Coprime a b g a' b' h g_pos ea eb k c ka kb =
    dvd_of_mul-dvd-mul_right k g_pos
      (subst (◌∣◌ (k * g)) (omega arith) (h.scaled (k * g) c (times a a' ea ka) (times b b' eb kb)))
  where
    times : (n n' : ℕ) → n' * g ≡ n → k ∣ n' * c → k * g ∣ n * c
    times n n' e d =
        let same : n' * c * g ≡ n * c = omega (arith, ap (λ (t : ℕ). t * c) e) in
        subst (◌∣◌ (k * g)) same (mul-dvd-mul_right k d g)

Coprime-comm : (a b : ℕ) → Coprime a b → Coprime b a
Coprime-comm a b h k c ka kb = h k c kb ka

pub Coprime-one : (a : ℕ) → Coprime a 1
Coprime-one a k c ka kb = subst (◌∣◌ k) (omega arith) kb

Coprime-pow_right : (a b n : ℕ) → Coprime a b → Coprime a (b ^ n)
Coprime-pow_right a b zero h k c ka kb = subst (◌∣◌ k) (rw (pow-zero b) (omega arith)) kb
Coprime-pow_right a b (suc n) h k c ka kb = Coprime-pow_right a b n h k c ka (
    h k (b ^ n * c) (reassoc ka)
      (subst (◌∣◌ k) (omega (arith, ap (λ (t : ℕ). t * c) (pow-succ' b n))) kb))
  where
    reassoc : k ∣ a * c → k ∣ a * (b ^ n * c)
    reassoc d =
        let same : a * c * b ^ n ≡ a * (b ^ n * c) = omega arith in
        subst (◌∣◌ k) same (dvd-mul_right_of_dvd k d (b ^ n))

pub Coprime-pow : (a b n : ℕ) → Coprime a b → Coprime (a ^ n) (b ^ n)
Coprime-pow a b n h =
    Coprime-comm (b ^ n) (a ^ n)
      (Coprime-pow_right (b ^ n) a n (Coprime-comm a (b ^ n) (Coprime-pow_right a b n h)))

-- Equal fractions in lowest terms have equal denominators.
pub lowest_terms_unique : (a b c d : ℕ) → Coprime a b → Coprime c d → a * d ≡ c * b → b ≡ d
lowest_terms_unique a b c d hab hcd e =
    dvd_antisymm (hab b d (subst (◌∣◌ b) (sym e) (dvd-mul_left b c)) (dvd-mul_right b d))
      (hcd d b (subst (◌∣◌ d) e (dvd-mul_left d a)) (dvd-mul_right d b))

divide_checked-eq :
    (a g : BigInt)
    → is_empty g.mag ≡ false
    → divide_checked a g
      ≡ some (from_mag (mag_divmod a.mag g.mag).0 (not (bool_eq a.negative g.negative)))
unfolding divide_checked divide divmod
divide_checked-eq a g h = rw (h, divide_checked) refl

exact_product :
    (s t : Bool) (n k q : ℕ)
    → t ≡ false
    → q * k ≡ n
    → signed (not (bool_eq s t)) q *ℤ pos k ≡ signed s n
unfolding ◌*ℤ◌
exact_product s t n k q h e = ground arith

-- The quotient by a divisor above zero that divides is exact.
pub divide_checked_lem :
    (a g : BigInt) (k : ℕ)
    → IsValid a
    → IsValid g
    → to_ℤ g ≡ pos k
    → 0 < k
    → k ∣ nat_abs (to_ℤ a)
    → (q : BigInt) × (divide_checked a g ≡ some q) × IsValid q × (to_ℤ q *ℤ pos k ≡ to_ℤ a)
divide_checked_lem a g k ha hg e k_pos d =
    let ne : to_ℤ g ≢ pos 0 = λ z. absurd (omega (arith, ap nat_abs (sym e ∙ z))) in
    let some_limb = nonzero-mag g ne in
    let size : value g.mag ≡ k = sym (nat_abs-signed g.negative (value g.mag)) ∙ ap nat_abs e in
    let p =
      mag_divmod_lem a.mag g.mag ha.limbs hg.limbs ha.trimmed hg.trimmed
        (nonempty-ne g.mag some_limb) in
    let qm : Limbs = (mag_divmod a.mag g.mag).0 in
    let r = mod_unique (value a.mag) (value g.mag) _ _ p.0 p.1 in
    let exact = mod-eq-zero_of_dvd k (subst (◌∣◌ k) (nat_abs-signed a.negative (value a.mag)) d) in
    let s : Bool = not (bool_eq a.negative g.negative) in
    let q = from_mag-Is qm s (signed s (value qm)) p.2 refl in
    (
      from_mag qm s,
      divide_checked-eq a g some_limb,
      q.0,
      ap (λ t. t *ℤ pos k) q.1
          ∙ exact_product a.negative g.negative (value a.mag) k (value qm) (not_negative g hg k e) (
              omega (
                arith,
                p.0,
                r,
                exact,
                ap (λ (t : ℕ). value qm * t) size,
                ap (λ (t : ℕ). value a.mag % t) size,
              )),
    )
