-- ===== src/BigInt/Order.antt =====
-- operator<=> is the order of the integers, and operator== their equality.
use nimble_cas.Prelude.{
  ℕ, zero, suc, ◌+◌, ◌<◌, ◌≡◌, ◌↔◌, refl, ap₂, subst, sym, ◌∙◌, [], ◌∷◌, Bool, true, false, ◌&&◌,
  arith, compare, Ordering, inl, inr, Bool-cases,
}
use nimble_cas.Prelude.Int.{ℤ, pos, pos_part, neg_part}
use mathlib.Core.Bool.{false≢true}
use nimble_cas.Magnitude.{Limbs}
use nimble_cas.Magnitude.Value.{value}
use nimble_cas.Magnitude.Order.{mag_cmp-value}
use nimble_cas.BigInt.{BigInt, bool_eq, cmp, eq, limbs_eq, is_empty}
use nimble_cas.BigInt.Value.{signed, to_ℤ, IsValid, to_ℤ-injective, nonempty-value}

-- The order of two integers.
abbrev pub compare_ℤ : ℤ → ℤ → Ordering
compare_ℤ a b = compare (pos_part a + neg_part b) (pos_part b + neg_part a)

compare_same :
    (s : Bool) (m n : ℕ)
    → (compare_ℤ (signed s m) (signed s n)) ≡ (elim s [ true ↦ compare n m | false ↦ compare m n ])
compare_same s m n = ground arith

compare_unlike :
    (s t : Bool) (m n : ℕ)
    → bool_eq s t ≡ false
    → (s ≡ true → 0 < m)
    → (t ≡ true → 0 < n)
    → compare_ℤ (signed s m) (signed t n) ≡ (elim s [ true ↦ Ordering.lt | false ↦ Ordering.gt ])
compare_unlike s t m n h hs ht = ground arith

-- A negative value has a magnitude above zero.
pub negative_pos : (a : BigInt) → IsValid a → a.negative ≡ true → 0 < value a.mag
negative_pos a h e = elim (Bool-cases (is_empty a.mag)) [
  | inl z ↦ absurd (false≢true (sym (h.no_minus_zero (empty-nil a.mag z)) ∙ e))
  | inr nz ↦ nonempty-value a.mag h.trimmed nz
]
  where
    empty-nil : (xs : Limbs) → is_empty xs ≡ true → xs ≡ []
    empty-nil [] h = refl
    empty-nil (x ∷ xs) h = cc

-- A value of at least zero carries no sign.
pub not_negative : (a : BigInt) → IsValid a → (e : ℕ) → to_ℤ a ≡ pos e → a.negative ≡ false
not_negative a ha e h = by_sign a.negative refl
  where
    minus_ne : (v e : ℕ) → 0 < v → signed true v ≡ pos e → ⊥
    minus_ne zero e h k = absurd (omega arith)
    minus_ne (suc v) e h k = cc

    by_sign : (s : Bool) → a.negative ≡ s → a.negative ≡ false
    by_sign true n = absurd (
        minus_ne (value a.mag) e (negative_pos a ha n)
          (subst (λ s. signed s (value a.mag) ≡ pos e) n h))
    by_sign false n = n

-- For valid operands, operator<=> is the order of the integers they stand for.
pub cmp_lem : (a b : BigInt) → IsValid a → IsValid b → cmp a b ≡ compare_ℤ (to_ℤ a) (to_ℤ b)
unfolding cmp
cmp_lem a b ha hb = ground (
  arith,
  mag_cmp-value a.mag b.mag ha.limbs hb.limbs ha.trimmed hb.trimmed,
  mag_cmp-value b.mag a.mag hb.limbs ha.limbs hb.trimmed ha.trimmed,
  negative_pos a ha,
  negative_pos b hb,
)

limbs_eq→eq : (a b : Limbs) → limbs_eq a b ≡ true → a ≡ b
unfolding limbs_eq
limbs_eq→eq [] [] h = refl
limbs_eq→eq [] (y ∷ ys) h = cc
limbs_eq→eq (x ∷ xs) [] h = cc
limbs_eq→eq (x ∷ xs) (y ∷ ys) h = ground (arith, limbs_eq→eq xs ys)

limbs_eq_refl : (a : Limbs) → limbs_eq a a ≡ true
unfolding limbs_eq
limbs_eq_refl [] = refl
limbs_eq_refl (x ∷ xs) = ground (arith, limbs_eq_refl xs)

bool_eq→eq : (s t : Bool) → bool_eq s t ≡ true → s ≡ t
bool_eq→eq s t h = ground arith

bool_eq_refl : (s : Bool) → bool_eq s s ≡ true
bool_eq_refl s = ground arith

and-split : (p q : Bool) → (p && q) ≡ true → (p ≡ true) × (q ≡ true)
and-split p q h = ground arith

-- For valid operands, operator== is true exactly when they stand for the same integer.
pub eq_iff : (a b : BigInt) → IsValid a → IsValid b → (eq a b ≡ true) ↔ (to_ℤ a ≡ to_ℤ b)
unfolding eq
eq_iff a b ha hb = (to, from)
  where
    to : (bool_eq a.negative b.negative && limbs_eq a.mag b.mag) ≡ true → to_ℤ a ≡ to_ℤ b
    to h =
        let p = and-split (bool_eq a.negative b.negative) (limbs_eq a.mag b.mag) h in
        ap₂ (λ s m. signed s (value m)) (bool_eq→eq a.negative b.negative p.0)
          (limbs_eq→eq a.mag b.mag p.1)

    from : to_ℤ a ≡ to_ℤ b → (bool_eq a.negative b.negative && limbs_eq a.mag b.mag) ≡ true
    from e =
        subst (λ c. (bool_eq a.negative c.negative && limbs_eq a.mag c.mag) ≡ true)
          (to_ℤ-injective a b ha hb e) (rw (bool_eq_refl a.negative, limbs_eq_refl a.mag) refl)
