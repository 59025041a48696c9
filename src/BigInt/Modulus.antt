-- ===== src/BigInt/Modulus.antt =====
-- The errors of modpow: the sign of the exponent and of the modulus decide.
use nimble_cas.Prelude.{
  ℕ, zero, suc, ◌<◌, ◌≡◌, ◌≢◌, ◌⊎◌, ◌↔◌, refl, ap, sym, ◌∙◌, Bool, true, false, arith,
  if◌then◌else◌, inl, inr, Bool-cases,
}
use nimble_cas.Prelude.Int.{ℤ, pos, negsuc, nat_abs}
use nimble_cas.Core.{ok, err, domain_error}
use nimble_cas.Magnitude.Value.{value}
use nimble_cas.BigInt.{BigInt, is_empty, modpow, sign, is_at_most_zero}
use nimble_cas.BigInt.Value.{to_ℤ, IsValid, signed, empty-value, nonempty-value, nat_abs-signed}
use nimble_cas.BigInt.Division.{AtMostZero}

pub sign_pos :
    (a : BigInt) → IsValid a → (k : ℕ) → 0 < k → to_ℤ a ≡ pos k → is_at_most_zero (sign a) ≡ false
unfolding sign
sign_pos a ha k h e = elim (Bool-cases (is_empty a.mag)) [
  | inl z ↦ absurd (
      omega
        (arith, empty-value a.mag z, sym (nat_abs-signed a.negative (value a.mag)) ∙ ap nat_abs e))
  | inr nz ↦ rw nz (by_sign a.negative (value a.mag) e)
]
  where
    by_sign :
        (s : Bool) (n : ℕ)
        → signed s n ≡ pos k
        → is_at_most_zero (if s then negsuc 0 else pos 1) ≡ false
    by_sign true zero e = absurd (omega (arith, ap nat_abs e))
    by_sign true (suc n) e = cc
    by_sign false n e = refl

-- A negative exponent is refused.
pub modpow-negative_exp :
    (a exp modulus : BigInt) → exp.negative ≡ true → modpow a exp modulus ≡ err domain_error
unfolding modpow
modpow-negative_exp a exp modulus h = rw h refl

pub sign-AtMostZero :
    (a : BigInt) → IsValid a → AtMostZero (to_ℤ a) → is_at_most_zero (sign a) ≡ true
unfolding sign
sign-AtMostZero a ha h = elim (Bool-cases (is_empty a.mag)) [
  | inl z ↦ rw z refl
  | inr nz ↦ rw nz (by_sign a.negative (value a.mag) (nonempty-value a.mag ha.trimmed nz) h)
]
  where
    by_sign :
        (s : Bool) (n : ℕ)
        → 0 < n
        → AtMostZero (signed s n)
        → is_at_most_zero (if s then negsuc 0 else pos 1) ≡ true
    by_sign true n p h = refl
    by_sign false zero p h = absurd (omega arith)
    by_sign false (suc n) p h = absurd (omega arith)

-- A modulus that is not above zero is refused.
pub modpow-modulus :
    (a exp modulus : BigInt)
    → IsValid modulus
    → AtMostZero (to_ℤ modulus)
    → modpow a exp modulus ≡ err domain_error
unfolding modpow
modpow-modulus a exp modulus hm h = elim (Bool-cases exp.negative) [
  | inl n ↦ rw n refl
  | inr nn ↦ rw (nn, sign-AtMostZero modulus hm h) refl
]

ok-ne-err : {r : BigInt} → ok r ≡ err domain_error → ⊥
ok-ne-err e = cc

modpow-returns :
    (a exp modulus : BigInt) (k : ℕ)
    → IsValid modulus
    → 0 < k
    → to_ℤ modulus ≡ pos k
    → exp.negative ≡ false
    → modpow a exp modulus ≢ err domain_error
unfolding modpow
modpow-returns a exp modulus k hm k_pos e p =
    λ h. ok-ne-err (rw (p, sign_pos modulus hm k k_pos e) at h)

-- For a valid modulus, modpow returns domain_error exactly when the exponent's sign is negative or
-- the modulus is at most zero.
pub modpow-err_iff :
    (a exp modulus : BigInt)
    → IsValid modulus
    → (modpow a exp modulus ≡ err domain_error)
      ↔ ((exp.negative ≡ true) ⊎ AtMostZero (to_ℤ modulus))
modpow-err_iff a exp modulus hm = (to (to_ℤ modulus) refl, from)
  where
    to :
        (m : ℤ)
        → to_ℤ modulus ≡ m
        → modpow a exp modulus ≡ err domain_error
        → (exp.negative ≡ true) ⊎ AtMostZero m
    to (pos zero) e h = inr refl
    to (negsuc k) e h = inr tt
    to (pos (suc k)) e h = elim (Bool-cases exp.negative) [
      | inl n ↦ inl n
      | inr p ↦ absurd (modpow-returns a exp modulus (suc k) hm (omega arith) e p h)
    ]

    from :
        (exp.negative ≡ true) ⊎ AtMostZero (to_ℤ modulus) → modpow a exp modulus ≡ err domain_error
    from (inl n) = modpow-negative_exp a exp modulus n
    from (inr z) = modpow-modulus a exp modulus hm z
