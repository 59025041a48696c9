-- ===== src/BigInt/Arith.antt =====
-- Addition, subtraction and multiplication are exact and keep the invariant.
use nimble_cas.Prelude.{
  ℕ, ◌+◌, ◌*◌, ◌≤◌, ◌≡◌, refl, ap, sym, ◌∙◌, Bool, true, false, not, arith, compare, Ordering, inl,
  inr, Bool-cases,
}
use nimble_cas.Prelude.Int.{ℤ, pos, neg_ℤ, ◌+ℤ◌, ◌-ℤ◌, ◌*ℤ◌}
use nimble_cas.Magnitude.{Limbs, mag_cmp, mag_add, mag_sub, mag_mul}
use nimble_cas.Magnitude.Value.{value, IsLimbs}
use nimble_cas.Magnitude.Order.{mag_cmp-value}
use nimble_cas.Magnitude.Sum.{value-mag_add, mag_add-IsLimbs, value-mag_sub, mag_sub-IsLimbs}
use nimble_cas.Magnitude.Product.{value-mag_mul, mag_mul-IsLimbs}
use nimble_cas.BigInt.{
  BigInt, zero_int, is_empty, bool_eq, from_mag, add_unlike, add, negate, subtract, multiply,
}
use nimble_cas.BigInt.Value.{
  signed, to_ℤ, IsValid, from_mag-IsValid, to_ℤ-from_mag, negate_lem, empty-value, signed_zero,
}

-- What an operation owes: a canonical result that stands for the integer n.
abbrev pub Is : BigInt → ℤ → Type 0
Is r n = IsValid r × (to_ℤ r ≡ n)

pub zero_int-Is : Is zero_int (pos 0)
zero_int-Is = (record { limbs = tt; trimmed = tt; no_minus_zero = λ e. refl }, refl)

pub from_mag-Is :
    (xs : Limbs) (s : Bool) (n : ℤ) → IsLimbs xs → signed s (value xs) ≡ n → Is (from_mag xs s) n
from_mag-Is xs s n h e = (from_mag-IsValid xs s h, to_ℤ-from_mag xs s ∙ e)

signed_add_like :
    (s t : Bool) (m n : ℕ) → bool_eq s t ≡ true → signed s (m + n) ≡ signed s m +ℤ signed t n
unfolding ◌+ℤ◌
signed_add_like s t m n h = ground arith

signed_add_unlike :
    (s t : Bool) (m n d : ℕ)
    → bool_eq s t ≡ false
    → d + n ≡ m
    → signed s d ≡ signed s m +ℤ signed t n
unfolding ◌+ℤ◌
signed_add_unlike s t m n d h e = ground arith

+ℤ_comm : (a b : ℤ) → a +ℤ b ≡ b +ℤ a
unfolding ◌+ℤ◌
+ℤ_comm a b = ground arith

bool_eq_comm : (s t : Bool) → bool_eq s t ≡ bool_eq t s
bool_eq_comm s t = ground arith

by_order :
    (a b : BigInt)
    → IsValid a
    → IsValid b
    → bool_eq a.negative b.negative ≡ false
    → (o : Ordering) → compare (value a.mag) (value b.mag) ≡ o
    → Is
        (elim o [
          | Ordering.eq ↦ zero_int
          | Ordering.gt ↦ from_mag (mag_sub a.mag b.mag) a.negative
          | Ordering.lt ↦ from_mag (mag_sub b.mag a.mag) b.negative
        ])
        (to_ℤ a +ℤ to_ℤ b)
by_order a b ha hb h Ordering.eq e = (
  zero_int-Is.0,
  sym (signed_zero a.negative) ∙ signed_add_unlike a.negative b.negative _ _ 0 h (ground arith),
)
by_order a b ha hb h Ordering.gt e =
    let le : value b.mag ≤ value a.mag = ground arith in
    from_mag-Is (mag_sub a.mag b.mag) a.negative _
      (mag_sub-IsLimbs a.mag b.mag ha.limbs hb.limbs le)
      (signed_add_unlike a.negative b.negative _ _ _ h
        (value-mag_sub a.mag b.mag ha.limbs hb.limbs le))
by_order a b ha hb h Ordering.lt e =
    let le : value a.mag ≤ value b.mag = ground arith in
    from_mag-Is (mag_sub b.mag a.mag) b.negative _
      (mag_sub-IsLimbs b.mag a.mag hb.limbs ha.limbs le)
      (signed_add_unlike b.negative a.negative _ _ _ (bool_eq_comm b.negative a.negative ∙ h)
          (value-mag_sub b.mag a.mag hb.limbs ha.limbs le)
        ∙ +ℤ_comm (to_ℤ b) (to_ℤ a))

-- For valid operands of any signs, add returns a valid value that stands for the sum.
pub add_lem : (a b : BigInt) → IsValid a → IsValid b → Is (add a b) (to_ℤ a +ℤ to_ℤ b)
unfolding add add_unlike
add_lem a b ha hb = elim (Bool-cases (bool_eq a.negative b.negative)) [
  | inl like ↦ rw like (
      from_mag-Is (mag_add a.mag b.mag) a.negative _ (mag_add-IsLimbs a.mag b.mag) (
        ap (signed a.negative) (value-mag_add a.mag b.mag ha.limbs hb.limbs)
        ∙ signed_add_like a.negative b.negative _ _ like))
  | inr unlike ↦ rw unlike (
      by_order a b ha hb unlike (mag_cmp a.mag b.mag)
        (sym (mag_cmp-value a.mag b.mag ha.limbs hb.limbs ha.trimmed hb.trimmed)))
]

+ℤ-neg_ℤ : (a b : ℤ) → a +ℤ neg_ℤ b ≡ a -ℤ b
unfolding ◌+ℤ◌ ◌-ℤ◌
+ℤ-neg_ℤ a b = ground arith

-- For valid operands of any signs, subtract returns a valid value that stands for the difference.
pub subtract_lem : (a b : BigInt) → IsValid a → IsValid b → Is (subtract a b) (to_ℤ a -ℤ to_ℤ b)
unfolding subtract
subtract_lem a b ha hb =
    let n = negate_lem b hb in
    let s = add_lem a (negate b) ha n.0 in
    (s.0, s.1 ∙ ap (λ t. to_ℤ a +ℤ t) n.1 ∙ +ℤ-neg_ℤ (to_ℤ a) (to_ℤ b))

signed_mul : (s t : Bool) (m n : ℕ) → signed (not (bool_eq s t)) (m * n) ≡ signed s m *ℤ signed t n
unfolding ◌*ℤ◌
signed_mul s t m n = ground arith

product_zero : (s t : Bool) (m n : ℕ) → m * n ≡ 0 → Is zero_int (signed s m *ℤ signed t n)
product_zero s t m n z = (
  zero_int-Is.0,
  sym (signed_zero (not (bool_eq s t)))
      ∙ ap (signed (not (bool_eq s t))) (sym z)
      ∙ signed_mul s t m n,
)

-- For valid operands of any signs, multiply returns a valid value that stands for the product.
pub multiply_lem : (a b : BigInt) → IsValid a → IsValid b → Is (multiply a b) (to_ℤ a *ℤ to_ℤ b)
unfolding multiply
multiply_lem a b ha hb =
    let none = product_zero a.negative b.negative (value a.mag) (value b.mag) in
    let s : Bool = not (bool_eq a.negative b.negative) in
    elim (Bool-cases (is_empty a.mag)) [
      | inl ea ↦ rw ea (none (rw (empty-value a.mag ea) (omega arith)))
      | inr na ↦ rw na (elim (Bool-cases (is_empty b.mag)) [
        | inl eb ↦ rw eb (none (rw (empty-value b.mag eb) (omega arith)))
        | inr nb ↦ rw nb (
            from_mag-Is (mag_mul a.mag b.mag) s _ (mag_mul-IsLimbs a.mag b.mag ha.limbs hb.limbs) (
              ap (signed s) (value-mag_mul a.mag b.mag ha.limbs hb.limbs)
              ∙ signed_mul a.negative b.negative (value a.mag) (value b.mag)))
      ])
    ]
