-- ===== src/BigInt/Value.antt =====
-- The integer that a BigInt stands for, and its invariant: no zero limb on top, and no "-0".
use nimble_cas.Prelude.{
  ℕ, zero, suc, ◌+◌, ◌-◌, ◌%◌, ◌^◌, ◌<◌, ◌≡◌, ◌≢◌, refl, ap, ap₂, sym, ◌∙◌, [], ◌∷◌, Bool, true,
  false, not, arith,
}
use nimble_cas.Prelude.Int.{ℤ, pos, negsuc, neg_ℤ, nat_abs}
use nimble_cas.Magnitude.{Limbs, trim, limbs_from_u64}
use nimble_cas.Magnitude.Value.{
  value, IsLimbs, IsTrimmed, value-trim, trim-IsTrimmed, trim-IsLimbs, value-limbs_from_u64,
  value_pos,
}
use nimble_cas.BigInt.{BigInt, is_empty, drop_sign, from_mag, from_u64, from_i64, negate, abs}

-- n with a sign.
abbrev pub signed : Bool → ℕ → ℤ
signed true n = neg_ℤ (pos n)
signed false n = pos n

abbrev pub to_ℤ : BigInt → ℤ
to_ℤ a = signed a.negative (value a.mag)

pub record IsValid (a : BigInt) : Type 0 where
  pub limbs : IsLimbs a.mag
  pub trimmed : IsTrimmed a.mag
  pub no_minus_zero : a.mag ≡ [] → a.negative ≡ false

drop_sign-IsValid : (s : Bool) (xs : Limbs) → IsLimbs xs → IsTrimmed xs → IsValid (drop_sign s xs)
drop_sign-IsValid s [] h t = record { limbs = h; trimmed = t; no_minus_zero = λ e. refl }
drop_sign-IsValid s (x ∷ xs) h t = record { limbs = h; trimmed = t; no_minus_zero = λ e. cc }

to_ℤ-drop_sign : (s : Bool) (xs : Limbs) → to_ℤ (drop_sign s xs) ≡ signed s (value xs)
to_ℤ-drop_sign true [] = refl
to_ℤ-drop_sign false [] = refl
to_ℤ-drop_sign s (x ∷ xs) = refl

-- What `from_mag` assembles is canonical and stands for the signed magnitude.
pub from_mag-IsValid : (xs : Limbs) (s : Bool) → IsLimbs xs → IsValid (from_mag xs s)
unfolding from_mag
from_mag-IsValid xs s h = drop_sign-IsValid s (trim xs) (trim-IsLimbs xs h) (trim-IsTrimmed xs)

pub to_ℤ-from_mag : (xs : Limbs) (s : Bool) → to_ℤ (from_mag xs s) ≡ signed s (value xs)
unfolding from_mag
to_ℤ-from_mag xs s = rw (to_ℤ-drop_sign, value-trim)

pub nat_abs-signed : (s : Bool) (n : ℕ) → nat_abs (signed s n) ≡ n
nat_abs-signed true zero = refl
nat_abs-signed true (suc n) = refl
nat_abs-signed false n = refl

pub neg_ℤ-signed : (s : Bool) (n : ℕ) → neg_ℤ (signed s n) ≡ signed (not s) n
neg_ℤ-signed s n = ground arith

pub signed_zero : (s : Bool) → signed s 0 ≡ pos 0
signed_zero true = refl
signed_zero false = refl

-- A magnitude is empty exactly when its number is zero.
pub empty-value : (xs : Limbs) → is_empty xs ≡ true → value xs ≡ 0
empty-value [] h = refl
empty-value (x ∷ xs) h = cc

pub nonempty-value : (xs : Limbs) → IsTrimmed xs → is_empty xs ≡ false → 0 < value xs
nonempty-value [] t h = cc
nonempty-value (x ∷ xs) t h = value_pos x xs t

pub nonempty-ne : (xs : Limbs) → is_empty xs ≡ false → xs ≢ []
nonempty-ne [] h = cc
nonempty-ne (x ∷ xs) h = cc

limbs_from_u64-IsLimbs : (v : ℕ) → IsLimbs (limbs_from_u64 v)
unfolding limbs_from_u64
limbs_from_u64-IsLimbs v = ground arith

from_mag_at :
    (n : ℕ) (s : Bool) (v : ℕ)
    → v < 2 ^ 64
    → v ≡ n
    → IsValid (from_mag (limbs_from_u64 v) s) × (to_ℤ (from_mag (limbs_from_u64 v) s) ≡ signed s n)
from_mag_at n s v h e = (
  from_mag-IsValid (limbs_from_u64 v) s (limbs_from_u64-IsLimbs v),
  to_ℤ-from_mag (limbs_from_u64 v) s ∙ ap (signed s) (value-limbs_from_u64 v h ∙ e),
)

-- from_u64 on every 64-bit value.
pub from_u64_lem : (v : ℕ) → v < 2 ^ 64 → IsValid (from_u64 v) × (to_ℤ (from_u64 v) ≡ pos v)
unfolding from_u64
from_u64_lem v h = (
  from_mag-IsValid (limbs_from_u64 v) false (limbs_from_u64-IsLimbs v),
  to_ℤ-from_mag (limbs_from_u64 v) false ∙ ap pos (value-limbs_from_u64 v h),
)

-- A value of `std::int64_t`.
abbrev pub IsInt64 : ℤ → Type 0
IsInt64 (pos n) = n < 2 ^ 63
IsInt64 (negsuc n) = n < 2 ^ 63

-- For every 64-bit signed integer, INT64_MIN included, from_i64 returns a valid value that stands
-- for it.
pub from_i64_lem : (v : ℤ) → IsInt64 v → IsValid (from_i64 v) × (to_ℤ (from_i64 v) ≡ v)
unfolding from_i64
from_i64_lem (pos n) h = from_mag_at n false (n % 2 ^ 64) (omega arith) (omega arith)
from_i64_lem (negsuc n) h =
    from_mag_at (suc n) true ((0 + 2 ^ 64 - (2 ^ 64 - 1 - n % 2 ^ 64)) % 2 ^ 64) (omega arith)
      (omega arith)

-- negate is exact: there is no value without a negative.
pub negate_lem : (a : BigInt) → IsValid a → IsValid (negate a) × (to_ℤ (negate a) ≡ neg_ℤ (to_ℤ a))
unfolding negate
negate_lem a h = (
  from_mag-IsValid a.mag (not a.negative) h.limbs,
  to_ℤ-from_mag a.mag (not a.negative) ∙ sym (neg_ℤ-signed a.negative (value a.mag)),
)

pub abs_lem : (a : BigInt) → IsValid a → IsValid (abs a) × (to_ℤ (abs a) ≡ pos (nat_abs (to_ℤ a)))
unfolding abs
abs_lem a h = (
  from_mag-IsValid a.mag false h.limbs,
  to_ℤ-from_mag a.mag false ∙ ap pos (sym (nat_abs-signed a.negative (value a.mag))),
)

tail-IsTrimmed : (x : ℕ) (xs : Limbs) → IsTrimmed (x ∷ xs) → IsTrimmed xs
tail-IsTrimmed x [] t = tt
tail-IsTrimmed x (y ∷ ys) t = t

-- A number has one trimmed magnitude.
pub value-injective :
    (a b : Limbs) → IsLimbs a → IsLimbs b → IsTrimmed a → IsTrimmed b → value a ≡ value b → a ≡ b
value-injective [] [] ha hb ta tb e = refl
value-injective [] (y ∷ ys) ha hb ta tb e = absurd (omega (arith, value_pos y ys tb))
value-injective (x ∷ xs) [] ha hb ta tb e = absurd (omega (arith, value_pos x xs ta))
value-injective (x ∷ xs) (y ∷ ys) ha hb ta tb e =
    let rest =
      value-injective xs ys ha.1 hb.1 (tail-IsTrimmed x xs ta) (tail-IsTrimmed y ys tb)
        (omega arith) in
    let head : x ≡ y = omega arith in ap₂ (λ u v. u ∷ v) head rest

signed-eq : (s t : Bool) (m n : ℕ) → m ≡ n → 0 < m → signed s m ≡ signed t n → s ≡ t
signed-eq s t m n e m_pos h = ground arith

same_sign :
    (s t : Bool) (a b : Limbs)
    → IsTrimmed a
    → (a ≡ [] → s ≡ false)
    → (b ≡ [] → t ≡ false)
    → a ≡ b
    → value a ≡ value b
    → signed s (value a) ≡ signed t (value b)
    → s ≡ t
same_sign s t [] b ta ha hb e v h = ha refl ∙ sym (hb (sym e))
same_sign s t (x ∷ xs) b ta ha hb e v h = signed-eq s t _ _ v (value_pos x xs ta) h

-- Two valid values that stand for the same integer are equal, field by field: the representation
-- is canonical.
pub to_ℤ-injective : (a b : BigInt) → IsValid a → IsValid b → to_ℤ a ≡ to_ℤ b → a ≡ b
to_ℤ-injective a b ha hb e =
    let same = ap nat_abs e in
    let values : value a.mag ≡ value b.mag =
      sym (nat_abs-signed a.negative (value a.mag))
      ∙ same
      ∙ nat_abs-signed b.negative (value b.mag) in
    let mags = value-injective a.mag b.mag ha.limbs hb.limbs ha.trimmed hb.trimmed values in
    let signs =
      same_sign a.negative b.negative a.mag b.mag ha.trimmed ha.no_minus_zero hb.no_minus_zero mags
        values e in
    λ i. record { negative = signs i; mag = mags i }
