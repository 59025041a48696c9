-- ===== src/BigInt/Gcd.antt =====
-- gcd is the greatest common divisor: Euclid's loop on the magnitudes, with fuel enough.
use Prim.Native.Nat.{◌∣◌}
use native.Mathlib.Nat.{
  dvd_refl, dvd-zero, dvd-mod_iff, dvd-add_iff_right, dvd-mul_right_of_dvd, div-add-mod,
}
use nimble_cas.Prelude.{
  ℕ, zero, suc, ◌+◌, ◌*◌, ◌/◌, ◌%◌, ◌<◌, ◌≡◌, refl, ap, subst, sym, false, arith, inl, inr,
  Bool-cases,
}
use nimble_cas.Prelude.Int.{pos, nat_abs}
use nimble_cas.Magnitude.{Limbs}
use nimble_cas.Magnitude.Value.{value, IsLimbs, IsTrimmed}
use nimble_cas.Knuth.{mag_divmod}
use nimble_cas.Knuth.Correct.{mag_divmod_lem}
use nimble_cas.BigInt.{BigInt, is_empty, gcd_loop, gcd}
use nimble_cas.BigInt.Value.{to_ℤ, IsValid, nat_abs-signed, empty-value, nonempty-ne}
use nimble_cas.BigInt.Division.{mod_unique}
use nimble_cas.BigInt.Arith.{Is, from_mag-Is}

-- g divides both numbers, and every common divisor divides g.
pub record IsGcd (a b g : ℕ) : Type 0 where
  pub left : g ∣ a
  pub right : g ∣ b
  pub greatest : (k : ℕ) → k ∣ a → k ∣ b → k ∣ g
  -- The same for the multiples by c.
  pub scaled : (k c : ℕ) → k ∣ a * c → k ∣ b * c → k ∣ g * c

pub IsGcd-zero : (a : ℕ) → IsGcd a 0 a
IsGcd-zero a = record {
  left = dvd_refl a;
  right = dvd-zero a;
  greatest = λ k h _. h;
  scaled = λ k c h _. h;
}

dvd-mod-mul : (k a b c : ℕ) → k ∣ a * c → k ∣ b * c → k ∣ a % b * c
dvd-mod-mul k a b c ha hb =
    let split : a * c ≡ b * c * (a / b) + a % b * c =
      omega (arith, ap (λ (t : ℕ). t * c) (div-add-mod a b)) in
    let multiple : k ∣ b * c * (a / b) = dvd-mul_right_of_dvd k hb (a / b) in
    (dvd-add_iff_right k multiple).1 (subst (◌∣◌ k) split ha)

-- Euclid's step.
pub IsGcd-step : (a b g : ℕ) → IsGcd b (a % b) g → IsGcd a b g
IsGcd-step a b g h = record {
  left = (dvd-mod_iff g h.left).0 h.right;
  right = h.left;
  greatest = λ k ka kb. h.greatest k kb ((dvd-mod_iff k kb).1 ka);
  scaled = λ k c ka kb. h.scaled k c kb (dvd-mod-mul k a b c ka kb);
}

gcd_loop_lem :
    (fuel : ℕ) (x y : Limbs)
    → value y < fuel
    → IsLimbs x
    → IsTrimmed x
    → IsLimbs y
    → IsTrimmed y
    → IsGcd (value x) (value y) (value (gcd_loop fuel x y)) × IsLimbs (gcd_loop fuel x y)
unfolding gcd_loop
gcd_loop_lem zero x y h hx tx hy ty = absurd (omega arith)
gcd_loop_lem (suc fuel) x y h hx tx hy ty = elim (Bool-cases (is_empty y)) [
  | inl e ↦
      rw e (
        subst (λ n. IsGcd (value x) n (value x)) (sym (empty-value y e)) (IsGcd-zero (value x)),
        hx,
      )
  | inr ne ↦
      let p = mag_divmod_lem x y hx hy tx ty (nonempty-ne y ne) in
      let r : Limbs = (mag_divmod x y).1 in
      let m = mod_unique (value x) (value y) _ (value r) p.0 p.1 in
      let next = gcd_loop_lem fuel y r (omega arith) hy ty p.4 p.5 in
      rw ne (
        IsGcd-step (value x) (value y) _
            (subst (λ n. IsGcd (value y) n (value (gcd_loop fuel y r))) m next.0),
        next.1,
      )
]

-- For valid operands, gcd returns a valid value that stands for a number g which divides both
-- absolute values and which every common divisor of them divides, also after scaling by a factor
-- c.
pub gcd_lem :
    (a b : BigInt)
    → IsValid a
    → IsValid b
    → (g : ℕ) × Is (gcd a b) (pos g) × IsGcd (nat_abs (to_ℤ a)) (nat_abs (to_ℤ b)) g
unfolding gcd
gcd_lem a b ha hb =
    let r : Limbs = gcd_loop (suc (value b.mag)) a.mag b.mag in
    let p =
      gcd_loop_lem (suc (value b.mag)) a.mag b.mag (omega arith) ha.limbs ha.trimmed hb.limbs
        hb.trimmed in
    (
      value r,
      from_mag-Is r false _ p.1 refl,
      rw (nat_abs-signed a.negative, nat_abs-signed b.negative) p.0,
    )
