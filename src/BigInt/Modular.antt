-- ===== src/BigInt/Modular.antt =====
-- modpow is exponentiation modulo m: the bits of the exponent are scanned from the top down.
use native.Mathlib.Nat.{pow-succ', pow-zero, lt_of_mul-lt-mul_right, mod-eq_of_lt, mul_comm}
use nimble_cas.Prelude.{
  ℕ, zero, suc, ◌+◌, ◌-◌, ◌*◌, ◌/◌, ◌%◌, ◌^◌, ◌<◌, ◌≡◌, refl, ap, ap₂, subst, sym, ◌∙◌, [], ◌∷◌,
  arith, if◌then◌else◌, ◌==◌, ==_iff, inl, inr, Bool-cases,
}
use nimble_cas.Prelude.Int.{pos, nat_abs, ◌*ℤ◌}
use nimble_cas.Core.{ok}
use nimble_cas.Magnitude.{Limbs}
use nimble_cas.Magnitude.Value.{value, IsLimbs, IsTrimmed}
use nimble_cas.Knuth.{countl_zero}
use nimble_cas.Knuth.Shift.{countl_zero_lem, pow_split}
use nimble_cas.BigInt.{
  BigInt, is_empty, from_u64, multiply, reduce_mod, bit_loop, limb_loop, modpow,
}
use nimble_cas.BigInt.Value.{to_ℤ, IsValid, from_u64_lem, nat_abs-signed}
use nimble_cas.BigInt.Arith.{Is, multiply_lem}
use nimble_cas.BigInt.Division.{reduce_mod_lem, residue}
use nimble_cas.BigInt.Order.{not_negative}
use nimble_cas.BigInt.Residues.{mul-mod-mod, mod-mul-mod, pow-add, low_bits-suc, pos-*}
use nimble_cas.BigInt.Modulus.{sign_pos}

module _ (modulus base : BigInt) (c : ℕ) (hm : IsValid modulus) (m_pos : 0 < value modulus.mag)
    (hb : Is base (pos c)) where
  -- One modular product.
  product_step :
      (x y : BigInt) (u v : ℕ)
      → Is x (pos u)
      → Is y (pos v)
      → Is (reduce_mod (multiply x y) modulus) (pos (u * v % value modulus.mag))
  product_step x y u v hx hy =
      let p = multiply_lem x y hx.0 hy.0 in
      let r = reduce_mod_lem (multiply x y) modulus p.0 hm m_pos in
      (
        r.0,
        r.1 ∙ ap (λ t. pos (residue t (value modulus.mag))) (p.1 ∙ ap₂ ◌*ℤ◌ hx.1 hy.1 ∙ pos-* u v),
      )

  -- The result holds the base to the power e, reduced.
  abbrev Holds : BigInt → ℕ → Type 0
  Holds result e = Is result (pos (c ^ e % value modulus.mag))

  square-Holds :
      (result : BigInt) (e : ℕ)
      → Holds result e
      → Holds (reduce_mod (multiply result result) modulus) (e + e)
  square-Holds result e h =
      let p = product_step result result _ _ h h in
      (
        p.0,
        p.1
            ∙ ap pos (
                mod-mul-mod (c ^ e) (c ^ e) (value modulus.mag)
                ∙ ap (λ (t : ℕ). t % value modulus.mag) (sym (pow-add c e e))),
      )

  multiply-Holds :
      (result : BigInt) (e : ℕ)
      → Holds result e
      → Holds (reduce_mod (multiply result base) modulus) (suc e)
  multiply-Holds result e h =
      let p = product_step result base _ _ h hb in
      (
        p.0,
        p.1
            ∙ ap pos (
                ap (λ (t : ℕ). t % value modulus.mag) (mul_comm (c ^ e % value modulus.mag) c)
                ∙ mul-mod-mod c (c ^ e) (value modulus.mag)
                ∙ ap (λ (t : ℕ). t % value modulus.mag) (sym (pow-succ' c e))),
      )

  -- One bit of the exponent.
  bit_step :
      (bit limb e : ℕ) (result : BigInt)
      → Holds result e
      → let squared = reduce_mod (multiply result result) modulus in
        Holds
          (if limb / 2 ^ bit % 2 == 0 then squared else reduce_mod (multiply squared base) modulus)
          (e + e + limb / 2 ^ bit % 2)
  bit_step bit limb e result h = elim (Bool-cases (limb / 2 ^ bit % 2 == 0)) [
    | inl even ↦
        let z = (==_iff (limb / 2 ^ bit % 2) 0).0 even in
        let same : e + e ≡ e + e + limb / 2 ^ bit % 2 = omega arith in
        rw even (
          subst (Holds (reduce_mod (multiply result result) modulus)) same
            (square-Holds result e h))
    | inr odd ↦
        let o : limb / 2 ^ bit % 2 ≡ 1 = ground arith in
        let same : suc (e + e) ≡ e + e + limb / 2 ^ bit % 2 = omega arith in
        rw odd (
          subst
            (Holds
              (reduce_mod (multiply (reduce_mod (multiply result result) modulus) base) modulus))
            same (multiply-Holds _ (e + e) (square-Holds result e h)))
  ]

  bit_loop_lem :
      (n limb e : ℕ) (result : BigInt)
      → Holds result e
      → Holds (bit_loop base modulus n limb result) (e * 2 ^ n + limb % 2 ^ n)
  unfolding bit_loop
  bit_loop_lem zero limb e result h =
      let same : e ≡ e * 2 ^ 0 + limb % 2 ^ 0 = omega arith in subst (Holds result) same h
  bit_loop_lem (suc n) limb e result h =
      let b : ℕ = limb / 2 ^ n % 2 in
      let two = pow-succ' 2 n in
      let same : (e + e + b) * 2 ^ n + limb % 2 ^ n ≡ e * 2 ^ suc n + limb % 2 ^ suc n =
        omega (arith, low_bits-suc limb n, ap (λ (t : ℕ). e * t) two) in
      subst (Holds _) same (bit_loop_lem n limb (e + e + b) _ (bit_step n limb e result h))

  -- The whole exponent.
  limb_loop_lem :
      (xs : Limbs) (result : BigInt)
      → IsLimbs xs
      → IsTrimmed xs
      → Holds result 0
      → Holds (limb_loop base modulus xs result) (value xs)
  unfolding limb_loop
  limb_loop_lem [] result hx tx h = h
  limb_loop_lem (x ∷ []) result hx tx h =
      let z = countl_zero_lem 32 x (omega arith) hx.0 in
      let n : ℕ = 32 - countl_zero 32 x in
      let fits : x < 2 ^ n =
        lt_of_mul-lt-mul_right (2 ^ countl_zero 32 x)
          (omega (arith, pow_split (countl_zero 32 x) 32 (omega arith))) in
      let same : 0 * 2 ^ n + x % 2 ^ n ≡ value (x ∷ []) = omega (arith, mod-eq_of_lt fits) in
      subst (Holds _) same (bit_loop_lem n x 0 result h)
  limb_loop_lem (x ∷ y ∷ ys) result hx tx h =
      let ih = limb_loop_lem (y ∷ ys) result hx.1 tx h in
      let same : value (y ∷ ys) * 2 ^ 32 + x % 2 ^ 32 ≡ value (x ∷ y ∷ ys) = omega arith in
      subst (Holds _) same (bit_loop_lem 32 x (value (y ∷ ys)) _ ih)

-- With no bits to scan the loop returns what it is given.
skip :
    (xs : Limbs) (base modulus result : BigInt)
    → (if is_empty xs then result else limb_loop base modulus xs result)
      ≡ limb_loop base modulus xs result
unfolding limb_loop
skip [] base modulus result = refl
skip (x ∷ xs) base modulus result = refl

-- For valid arguments, an exponent e of at least zero and a modulus k above zero, modpow returns a
-- valid value that stands for (residue of a modulo k) ^ e % k.
pub modpow_lem :
    (a exp modulus : BigInt) (e k : ℕ)
    → IsValid a
    → IsValid exp
    → IsValid modulus
    → to_ℤ exp ≡ pos e
    → to_ℤ modulus ≡ pos k
    → 0 < k
    → (r : BigInt) × (modpow a exp modulus ≡ ok r) × Is r (pos (residue (to_ℤ a) k ^ e % k))
unfolding modpow
modpow_lem a exp modulus e k ha he hm ee ek k_pos =
    let en = not_negative exp he e ee in
    let ms = sign_pos modulus hm k k_pos ek in
    let size : value modulus.mag ≡ k =
      sym (nat_abs-signed modulus.negative (value modulus.mag)) ∙ ap nat_abs ek in
    let esize : value exp.mag ≡ e =
      sym (nat_abs-signed exp.negative (value exp.mag)) ∙ ap nat_abs ee in
    let m_pos : 0 < value modulus.mag = omega arith in
    let base = reduce_mod a modulus in
    let one = from_u64_lem 1 (omega arith) in
    let start = reduce_mod_lem (from_u64 1) modulus one.0 hm m_pos in
    let b = reduce_mod_lem a modulus ha hm m_pos in
    let c : ℕ = residue (to_ℤ a) (value modulus.mag) in
    let first : to_ℤ (reduce_mod (from_u64 1) modulus) ≡ pos (c ^ 0 % value modulus.mag) =
      start.1
      ∙ ap (λ t. pos (residue t (value modulus.mag))) one.1
      ∙ ap (λ (t : ℕ). pos (t % value modulus.mag)) (sym (pow-zero c)) in
    let loop =
      limb_loop_lem modulus base c hm m_pos b exp.mag (reduce_mod (from_u64 1) modulus) he.limbs
        he.trimmed (start.0, first) in
    (
      limb_loop base modulus exp.mag (reduce_mod (from_u64 1) modulus),
      rw (en, ms) (ap ok (skip exp.mag base modulus (reduce_mod (from_u64 1) modulus))),
      (loop.0, loop.1 ∙ ap₂ (λ x y. pos (residue (to_ℤ a) x ^ y % x)) size esize),
    )
