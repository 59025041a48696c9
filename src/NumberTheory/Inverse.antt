-- ===== src/NumberTheory/Inverse.antt =====
-- mod_inverse: the inverse modulo m, or domain_error when there is none.
use native.Mathlib.Nat.{mod-eq_of_lt}
use nimble_cas.Prelude.{
  ℕ, ◌*◌, ◌%◌, ◌<◌, ◌≡◌, ◌≢◌, ◌⊎◌, ap, subst, sym, ◌∙◌, Bool, true, false, not, arith, ◌==◌, ==_iff,
  inl, inr, Bool-cases, if◌then◌else◌,
}
use nimble_cas.Prelude.Int.{
  ℤ, pos, nat_abs, ◌+ℤ◌, ◌-ℤ◌, ◌*ℤ◌, eq_of_parts, +ℤ_parts, -ℤ_parts, pos_part, neg_part, mul_laws,
}
use mathlib.Core.Bool.{false≢true}
use nimble_cas.Core.{ok, err, domain_error}
use nimble_cas.BigInt.{BigInt, from_u64, eq}
use nimble_cas.BigInt.Value.{to_ℤ, IsValid, from_u64_lem}
use nimble_cas.BigInt.Arith.{Is}
use nimble_cas.BigInt.Order.{eq_iff}
use nimble_cas.BigInt.Division.{residue, residue-lt, AtMostZero}
use nimble_cas.BigInt.Gcd.{IsGcd}
use nimble_cas.BigInt.Modulus.{sign_pos, sign-AtMostZero}
use nimble_cas.NumberTheory.{extended_gcd, mod_floor, mod_inverse}
use nimble_cas.NumberTheory.Integers.{residue_unique, multiple_parts}
use nimble_cas.NumberTheory.Floor.{mod_floor_quotient}
use nimble_cas.NumberTheory.Euclid.{extended_gcd_lem}

-- A modulus at most zero is refused.
pub mod_inverse-modulus :
    (a m : BigInt) → IsValid m → AtMostZero (to_ℤ m) → mod_inverse a m ≡ err domain_error
unfolding mod_inverse
mod_inverse-modulus a m hm h =
    ap
      (λ b.
        if b
        then err domain_error
        else if not (eq (extended_gcd a m).g (from_u64 1))
        then err domain_error
        else ok (mod_floor (extended_gcd a m).x m))
      (sign-AtMostZero m hm h)

-- With a modulus above zero, the test on the gcd decides.
decided :
    (a m : BigInt) (k : ℕ) (b : Bool)
    → IsValid m
    → 0 < k
    → to_ℤ m ≡ pos k
    → eq (extended_gcd a m).g (from_u64 1) ≡ b
    → mod_inverse a m ≡ (if not b then err domain_error else ok (mod_floor (extended_gcd a m).x m))
unfolding mod_inverse
decided a m k b hm k_pos em e =
    ap
      (λ t.
        if t
        then err domain_error
        else if not (eq (extended_gcd a m).g (from_u64 1))
        then err domain_error
        else ok (mod_floor (extended_gcd a m).x m))
      (sign_pos m hm k k_pos em)
    ∙ ap (λ t. if not t then err domain_error else ok (mod_floor (extended_gcd a m).x m)) e

-- a * x + k * y = 1 and x = c * k + v, so a * v = -(y + a * c) * k + 1.
inverse_multiple :
    (a x y c : ℤ) (v k : ℕ)
    → a *ℤ x +ℤ pos k *ℤ y ≡ pos 1
    → x ≡ c *ℤ pos k +ℤ pos v
    → a *ℤ pos v ≡ (pos 0 -ℤ (y +ℤ a *ℤ c)) *ℤ pos k +ℤ pos 1
inverse_multiple a x y c v k e f =
    let bezout = simp mul_laws at (+ℤ_parts (a *ℤ x) (pos k *ℤ y)) in
    let p = multiple_parts x c v k f in
    let pa = ap (λ (t : ℕ). pos_part a * t) p in
    let na = ap (λ (t : ℕ). neg_part a * t) p in
    let inner = ap (λ (t : ℕ). t * k) (simp mul_laws at (+ℤ_parts y (a *ℤ c))) in
    let outer = ap (λ (t : ℕ). t * k) (-ℤ_parts (pos 0) (y +ℤ a *ℤ c)) in
    let right = simp mul_laws at (+ℤ_parts ((pos 0 -ℤ (y +ℤ a *ℤ c)) *ℤ pos k) (pos 1)) in
    eq_of_parts _ _ (simp mul_laws (omega (arith, ap pos_part e, ap neg_part e)))

residue-mod_one : (a : ℤ) → residue a 1 ≡ 1 % 1
residue-mod_one a = omega (arith, residue-lt a 1 (omega arith))

-- The product of a and the reduced coefficient is 1 modulo k.
inverse_residue :
    (a x y c : ℤ) (v k : ℕ)
    → 0 < k
    → a *ℤ x +ℤ pos k *ℤ y ≡ pos 1
    → x ≡ c *ℤ pos k +ℤ pos v
    → residue (a *ℤ pos v) k ≡ 1 % k
inverse_residue a x y c v k k_pos e f =
    let multiple = inverse_multiple a x y c v k e f in
    let q : ℤ = pos 0 -ℤ (y +ℤ a *ℤ c) in
    elim (Bool-cases (k == 1)) [
      | inl one ↦
          let k_one = (==_iff k 1).0 one in
          subst (λ (n : ℕ). residue (a *ℤ pos v) n ≡ 1 % n) (sym k_one)
            (residue-mod_one (a *ℤ pos v))
      | inr more ↦
          let big : 1 < k = ground arith in
          residue_unique (a *ℤ pos v) q 1 k multiple big ∙ sym (mod-eq_of_lt big)
    ]

-- For valid arguments and a modulus k above zero, either the greatest common divisor of |a| and k
-- is 1 and mod_inverse returns a valid value that stands for a v below k with residue of a * v
-- modulo k equal to 1 % k, or it is not 1 and mod_inverse returns domain_error.
pub mod_inverse_lem :
    (a m : BigInt) (k : ℕ)
    → IsValid a
    → IsValid m
    → to_ℤ m ≡ pos k
    → 0 < k
    → (IsGcd (nat_abs (to_ℤ a)) k 1
        × ((t : BigInt) × (v : ℕ) × (mod_inverse a m ≡ ok t)
            × Is t (pos v)
            × (v < k)
            × (residue (to_ℤ a *ℤ pos v) k ≡ 1 % k)))
      ⊎ ((g : ℕ) × IsGcd (nat_abs (to_ℤ a)) k g × (g ≢ 1) × (mod_inverse a m ≡ err domain_error))
mod_inverse_lem a m k ha hm em k_pos =
    let (row, g, eg, gcd_g) = extended_gcd_lem a m ha hm in
    let one = from_u64_lem 1 (omega arith) in
    let test = eq_iff (extended_gcd a m).g (from_u64 1) row.r_valid one.0 in
    let is_gcd : IsGcd (nat_abs (to_ℤ a)) k g =
      subst (λ n. IsGcd (nat_abs (to_ℤ a)) n g) (ap nat_abs em) gcd_g in
    elim (Bool-cases (eq (extended_gcd a m).g (from_u64 1))) [
      | inl y ↦
          let is_one : to_ℤ (extended_gcd a m).g ≡ pos 1 = test.0 y ∙ one.1 in
          let g_one : g ≡ 1 = ap nat_abs (sym eg ∙ is_one) in
          let (c, v, fl, split, lt) =
            mod_floor_quotient (extended_gcd a m).x m k row.s_valid hm em k_pos in
          let bezout : to_ℤ a *ℤ to_ℤ (extended_gcd a m).x +ℤ pos k *ℤ to_ℤ (extended_gcd a m).y
              ≡ pos 1 =
            ap (λ u. to_ℤ a *ℤ to_ℤ (extended_gcd a m).x +ℤ u *ℤ to_ℤ (extended_gcd a m).y) (sym em)
            ∙ row.bezout
            ∙ is_one in
          inl (
            subst (λ n. IsGcd (nat_abs (to_ℤ a)) k n) g_one is_gcd,
            (
              mod_floor (extended_gcd a m).x m,
              v,
              decided a m k true hm k_pos em y,
              fl,
              lt,
              inverse_residue (to_ℤ a) _ _ c v k k_pos bezout split,
            ),
          )
      | inr n ↦ inr (
        g,
        is_gcd,
        (λ g_one. absurd (false≢true (sym n ∙ test.1 (eg ∙ ap pos g_one ∙ sym one.1)))),
        decided a m k false hm k_pos em n,
      )
    ]
