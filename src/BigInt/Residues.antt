-- ===== src/BigInt/Residues.antt =====
-- Laws of products, powers and bits modulo a number, for modpow.
use native.Mathlib.Nat.{
  pow-succ', pow-zero, zero-add, suc-add, one-le-pow, mod-lt, add-mul-mod_self_left, div-add-mod,
  mul_assoc, mul_comm,
}
use nimble_cas.Prelude.{ℕ, zero, suc, ◌+◌, ◌*◌, ◌/◌, ◌%◌, ◌^◌, ◌≤◌, ◌≡◌, refl, ap, sym, ◌∙◌, arith}
use nimble_cas.Prelude.Int.{pos, ◌*ℤ◌}
use nimble_cas.Prelude.Arith.{mul_le_mul}
use nimble_cas.BigInt.Division.{mod_unique}

pub mul-mod-mod : (a b m : ℕ) → a * (b % m) % m ≡ a * b % m
mul-mod-mod a b m =
    sym (add-mul-mod_self_left (a * (b % m)) m (a * (b / m)))
    ∙ ap (λ (t : ℕ). t % m) (omega (arith, ap (λ (t : ℕ). a * t) (div-add-mod b m)))

pub mod-mul-mod : (a b m : ℕ) → (a % m) * (b % m) % m ≡ a * b % m
mod-mul-mod a b m =
    mul-mod-mod (a % m) b m
    ∙ ap (λ (t : ℕ). t % m) (mul_comm (a % m) b)
    ∙ mul-mod-mod b a m
    ∙ ap (λ (t : ℕ). t % m) (mul_comm b a)

pub pow-add : (a m n : ℕ) → a ^ (m + n) ≡ a ^ m * a ^ n
pow-add a zero n = rw (zero-add, pow-zero) (omega arith)
pow-add a (suc m) n =
    rw (suc-add, pow-succ', pow-succ') (rw (pow-add a m n) (sym (mul_assoc a (a ^ m) (a ^ n))))

-- The low n + 1 bits of x: bit n, and the n bits below it.
pub low_bits-suc : (x n : ℕ) → x % 2 ^ suc n ≡ x / 2 ^ n % 2 * 2 ^ n + x % 2 ^ n
low_bits-suc x n =
    let p : ℕ = 2 ^ n in
    let r_lt = mod-lt x {m = p} (one-le-pow n 2 (omega arith)) in
    let split = div-add-mod x p in
    let halves : p * (x / p) ≡ p * (2 * (x / p / 2) + x / p % 2) =
      ap (λ (t : ℕ). p * t) (omega arith) in
    let bit : x / p % 2 * p ≤ 1 * p = mul_le_mul (x / p % 2) 1 p p (omega arith) (omega arith) in
    let two : 2 ^ suc n ≡ 2 * p = pow-succ' 2 n in
    rw two
      (sym (mod_unique x (2 * p) (x / p / 2) (x / p % 2 * p + x % p) (omega arith) (omega arith)))

pub pos-* : (m n : ℕ) → pos m *ℤ pos n ≡ pos (m * n)
unfolding ◌*ℤ◌
pos-* m n = refl
