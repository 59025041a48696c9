-- ===== src/Magnitude/Value.antt =====
-- The number that a magnitude stands for, and its two invariants: every limb is below the base, and
-- the top limb is not zero.
use nimble_cas.Prelude.{
  ℕ, zero, suc, ◌+◌, ◌*◌, ◌^◌, ◌≤◌, ◌<◌, ◌≡◌, ◌≢◌, refl, ap, inl, inr, ◌==◌, Bool-cases, [], ◌∷◌,
  arith, length, All, replicate,
}
use nimble_cas.Magnitude.{Limbs, limb_base, trim, trim_cons, limbs_from_u64, push_carry}

abbrev pub value : Limbs → ℕ
value [] = 0
value (x ∷ xs) = x + limb_base * value xs

abbrev pub IsLimbs : Limbs → Type 0
IsLimbs = All (λ x. x < limb_base)

-- No zero limb at the significant end.
abbrev pub IsTrimmed : Limbs → Type 0
IsTrimmed [] = Unit
IsTrimmed (x ∷ []) = x ≢ 0
IsTrimmed (x ∷ y ∷ ys) = IsTrimmed (y ∷ ys)

-- limb_base ^ n
abbrev pub weight : ℕ → ℕ
weight zero = 1
weight (suc n) = limb_base * weight n

pub weight_pos : (n : ℕ) → 0 < weight n
weight_pos zero = omega arith
weight_pos (suc n) = omega (arith, weight_pos n)

pub value-lt-weight : (xs : Limbs) → IsLimbs xs → value xs < weight (length xs)
value-lt-weight [] h = omega arith
value-lt-weight (x ∷ xs) h = omega (arith, value-lt-weight xs h.1)

pub weight-le-value :
    (x : ℕ) (xs : Limbs) → IsTrimmed (x ∷ xs) → weight (length xs) ≤ value (x ∷ xs)
weight-le-value x [] h = omega arith
weight-le-value x (y ∷ ys) h = omega (arith, weight-le-value y ys h)

pub value_pos : (x : ℕ) (xs : Limbs) → IsTrimmed (x ∷ xs) → 0 < value (x ∷ xs)
value_pos x xs h = omega (arith, weight-le-value x xs h, weight_pos (length xs))

pub value-trim : (xs : Limbs) → value (trim xs) ≡ value xs
unfolding trim
value-trim [] = refl
value-trim (x ∷ xs) = ground (arith, value-trim xs)

trim_cons-IsTrimmed : (x : ℕ) (xs : Limbs) → IsTrimmed xs → IsTrimmed (trim_cons x xs)
trim_cons-IsTrimmed zero [] h = tt
trim_cons-IsTrimmed zero (y ∷ ys) h = h
trim_cons-IsTrimmed (suc x) [] h = omega arith
trim_cons-IsTrimmed (suc x) (y ∷ ys) h = h

pub trim-IsTrimmed : (xs : Limbs) → IsTrimmed (trim xs)
unfolding trim
trim-IsTrimmed [] = tt
trim-IsTrimmed (x ∷ xs) = trim_cons-IsTrimmed x (trim xs) (trim-IsTrimmed xs)

trim_cons-IsLimbs : (x : ℕ) (xs : Limbs) → x < limb_base → IsLimbs xs → IsLimbs (trim_cons x xs)
trim_cons-IsLimbs zero [] h k = tt
trim_cons-IsLimbs zero (y ∷ ys) h k = (h, k)
trim_cons-IsLimbs (suc x) xs h k = (h, k)

pub trim-IsLimbs : (xs : Limbs) → IsLimbs xs → IsLimbs (trim xs)
unfolding trim
trim-IsLimbs [] h = tt
trim-IsLimbs (x ∷ xs) h = trim_cons-IsLimbs x (trim xs) h.0 (trim-IsLimbs xs h.1)

-- A trimmed magnitude is left alone.
pub trim_idem : (xs : Limbs) → IsTrimmed xs → trim xs ≡ xs
unfolding trim
trim_idem [] h = refl
trim_idem (zero ∷ []) h = absurd (h refl)
trim_idem (suc x ∷ []) h = refl
trim_idem (zero ∷ y ∷ ys) h = rw (trim_idem (y ∷ ys) h)
trim_idem (suc x ∷ y ∷ ys) h = ap (λ t. suc x ∷ t) (trim_idem (y ∷ ys) h)

pub value-push_carry : (c : ℕ) → c < limb_base → value (push_carry c) ≡ c
value-push_carry c h = ground arith

pub push_carry-IsLimbs : (c : ℕ) → IsLimbs (push_carry c)
push_carry-IsLimbs c = elim (Bool-cases (c == 0)) [
  | inl e ↦ rw e tt
  | inr e ↦ rw e (omega arith, tt)
]

pub push_carry-IsTrimmed : (c : ℕ) → c < limb_base → IsTrimmed (push_carry c)
push_carry-IsTrimmed c h = elim (Bool-cases (c == 0)) [
  | inl e ↦ rw e tt
  | inr e ↦ rw e (ground arith)
]

pub value-replicate_zero : (n : ℕ) → value (replicate n 0) ≡ 0
value-replicate_zero zero = refl
value-replicate_zero (suc n) = omega (arith, value-replicate_zero n)

pub replicate_zero-IsLimbs : (n : ℕ) → IsLimbs (replicate n 0)
replicate_zero-IsLimbs zero = tt
replicate_zero-IsLimbs (suc n) = (omega arith, replicate_zero-IsLimbs n)

pub value-limbs_from_u64 : (v : ℕ) → v < 2 ^ 64 → value (limbs_from_u64 v) ≡ v
unfolding limbs_from_u64
value-limbs_from_u64 v h = ground arith
