-- ===== src/Knuth/Shift.antt =====
-- D1 and D8: the shift that sets the divisor's top bit multiplies both operands by one power of two,
-- and the shift back divides the remainder by it.
use native.Mathlib.Nat.{
  pow-suc, zero-add, suc-add, one-le-pow, mod-lt, div-add-mod', div-eq_of_lt, div-lt_iff_lt-mul,
  mod-le, mul_comm, div-add-mod, add-zero, mul-add-div, mul-div_right, lt_of_mul-lt-mul_right,
  pow-le-pow_right,
}
use nimble_cas.Prelude.{
  ℕ, zero, suc, ◌+◌, ◌-◌, ◌*◌, ◌/◌, ◌%◌, ◌^◌, ◌≤◌, ◌<◌, ◌≡◌, refl, sym, ap, ◌∙◌, [], ◌∷◌, ◌++◌,
  arith, length, length-append, inl, inr, Bool-cases, leb, suc-==-zero,
}
use nimble_cas.Prelude.Arith.{mul_le_mul}
use nimble_cas.Magnitude.{Limbs, limb_base, low32}
use nimble_cas.Magnitude.Value.{value, IsLimbs, weight}
use nimble_cas.Knuth.{limb, countl_zero, shl_loop, shift_divisor, shift_dividend, shr_loop}

-- Shifting a word by its leading zeros sets its top bit and loses none.
pub countl_zero_lem :
    (w x : ℕ)
    → 0 < x
    → x < 2 ^ w
    → (countl_zero w x < w)
      × (2 ^ w ≤ x * 2 ^ countl_zero w x * 2)
      × (x * 2 ^ countl_zero w x < 2 ^ w)
unfolding countl_zero
countl_zero_lem zero x h lt = absurd (omega arith)
countl_zero_lem (suc w) x h lt = elim (Bool-cases (leb (2 ^ w) x)) [
  | inl e ↦
      rw e
        (omega arith, (let t : 2 ^ w ≤ x = ground arith in rw pow-suc (omega arith)), omega arith)
  | inr e ↦
      let ih = countl_zero_lem w x h (ground arith) in
      rw e (omega arith, simp pow-suc (omega arith), simp pow-suc (omega arith))
]

pow_add : (a b : ℕ) → 2 ^ a * 2 ^ b ≡ 2 ^ (a + b)
pow_add zero b = rw (zero-add) (omega arith)
pow_add (suc a) b = rw (suc-add, pow-suc, pow-suc) (omega (arith, pow_add a b))

-- The two shift amounts of a limb divide the base between them.
pub pow_split : (s k : ℕ) → s ≤ k → 2 ^ s * 2 ^ (k - s) ≡ 2 ^ k
pow_split s k h = pow_add s (k - s) ∙ ap (λ (t : ℕ). 2 ^ t) (omega arith)

factor_pos : (p p' : ℕ) → p * p' ≡ limb_base → 0 < p'
factor_pos p zero e = absurd (omega arith)
factor_pos p (suc q) e = omega arith

-- One limb times p, where p * p' is the base: what stays in its place and what is carried out.
shift_limb :
    (x p p' : ℕ)
    → p * p' ≡ limb_base
    → 0 < p
    → x < limb_base
    → (low32 (x * p) + limb_base * (x / p') ≡ x * p)
      × (low32 (x * p) + p ≤ limb_base)
      × (x / p' < p)
      × (low32 (x * p) ≡ (x % p') * p)
shift_limb x p p' e hp hx =
    let pos' : 0 < p' = factor_pos p p' e in
    let split : x * p ≡ x / p' * limb_base + x % p' * p =
      rw (← e) (ap (λ (t : ℕ). t * p) (sym (div-add-mod' x p')) ∙ omega arith) in
    let below : (x % p' + 1) * p ≤ p' * p =
      mul_le_mul (x % p' + 1) p' p p (omega (arith, mod-lt x pos')) (omega arith) in
    (omega arith, omega arith, (div-lt_iff_lt-mul pos').1 (omega arith), omega arith)

-- One limb shifted back: its low bits go, and the next limb's low bits come in at the top.
shr_limb :
    (x y p p' r v : ℕ)
    → p * p' ≡ limb_base
    → 0 < p
    → x < limb_base
    → y < limb_base
    → p * r + y % p ≡ v
    → (p * (x / p + low32 (y * p') + limb_base * r) + x % p ≡ x + limb_base * v)
      × (x / p + low32 (y * p') < limb_base)
shr_limb x y p p' r v e hp hx hy h =
    let turned : p' * p ≡ limb_base = mul_comm p' p ∙ e in
    let low = shift_limb y p' p turned (factor_pos p p' e) hy in
    let high : x / p < p' = (div-lt_iff_lt-mul hp).1 (omega arith) in
    let back : (y % p) * (p * p') ≡ (y % p) * limb_base = ap (λ (t : ℕ). (y % p) * t) e in
    (rw low.3 (omega (arith, div-add-mod x p)), omega arith)

module _ (s : ℕ) (s_le : s ≤ 32) where
  p_pos : 0 < 2 ^ s
  p_pos = one-le-pow s 2 (omega arith)

  split_p : 2 ^ s * 2 ^ (32 - s) ≡ limb_base
  split_p = pow_split s 32 s_le

  -- The shifted limbs and the carry out together are the number times 2 ^ s.
  pub shl_loop_lem :
      (c : ℕ) (xs : Limbs)
      → c < 2 ^ s
      → IsLimbs xs
      → (value (shl_loop s c xs).0 + weight (length xs) * (shl_loop s c xs).1
          ≡ value xs * 2 ^ s + c)
        × IsLimbs (shl_loop s c xs).0
        × (length (shl_loop s c xs).0 ≡ length xs)
        × ((shl_loop s c xs).1 < 2 ^ s)
  unfolding shl_loop
  shl_loop_lem c [] hc h = (omega arith, tt, refl, hc)
  shl_loop_lem c (x ∷ xs) hc h =
      let l = shift_limb x (2 ^ s) (2 ^ (32 - s)) split_p p_pos h.0 in
      let ih = shl_loop_lem (x / 2 ^ (32 - s)) xs l.2 h.1 in
      (omega arith, (omega arith, ih.1), ap suc ih.2, ih.3)

  -- The top limb of the shifted list, and what is carried out of it.
  shl_loop-top :
      (c : ℕ) (xs : Limbs) (k : ℕ)
      → length xs ≡ suc k
      → (low32 (limb xs k * 2 ^ s) ≤ limb (shl_loop s c xs).0 k)
        × ((shl_loop s c xs).1 ≡ limb xs k / 2 ^ (32 - s))
  unfolding shl_loop
  shl_loop-top c [] k l = absurd (omega arith)
  shl_loop-top c (x ∷ []) zero l = (omega arith, refl)
  shl_loop-top c (x ∷ []) (suc k) l = absurd (omega arith)
  shl_loop-top c (x ∷ y ∷ ys) zero l = absurd (omega arith)
  shl_loop-top c (x ∷ y ∷ ys) (suc k) l = shl_loop-top (x / 2 ^ (32 - s)) (y ∷ ys) k (omega arith)

  -- Shifting back: the limbs hold the number divided by 2 ^ s, apart from the lowest bits.
  pub shr_loop_lem :
      (n : ℕ) (us : Limbs)
      → IsLimbs us
      → n < length us
      → value us < weight n
      → (2 ^ s * value (shr_loop s n us) + limb us 0 % 2 ^ s ≡ value us) × IsLimbs (shr_loop s n us)
  unfolding shr_loop
  shr_loop_lem n [] h l small = absurd (omega arith)
  shr_loop_lem zero (x ∷ us) h l small = (omega (arith, mod-le x (2 ^ s)), tt)
  shr_loop_lem (suc n) (x ∷ []) h l small = absurd (omega arith)
  shr_loop_lem (suc n) (x ∷ y ∷ ys) h l small =
      let ih = shr_loop_lem n (y ∷ ys) h.1 (omega arith) (omega arith) in
      let one = shr_limb x y (2 ^ s) (2 ^ (32 - s)) _ _ split_p p_pos h.0 h.1.0 ih.0 in
      (one.0, (one.1, ih.1))

-- A multiple of p with less than p added is a multiple of p: nothing was added.
pub multiple_lem : (p a b t : ℕ) → t < p → p * a + t ≡ p * b → a ≡ b
multiple_lem p a b t h e =
    sym (add-zero a)
    ∙ sym (ap (λ (k : ℕ). a + k) (div-eq_of_lt h))
    ∙ sym (mul-add-div (omega arith) a t)
    ∙ ap (λ (k : ℕ). k / p) e
    ∙ mul-div_right b (omega arith)

-- Every limb of a vector of limbs is one.
pub limb-lt : (xs : Limbs) (i : ℕ) → IsLimbs xs → limb xs i < limb_base
limb-lt [] i h = omega arith
limb-lt (x ∷ xs) zero h = h.0
limb-lt (x ∷ xs) (suc i) h = limb-lt xs i h.1

-- The shifted divisor is the divisor times 2 ^ s, of the same size, its top bit set.
abbrev pub Normalised : Limbs → ℕ → ℕ → Limbs → Type 0
Normalised v k s vn =
    (value vn ≡ value v * 2 ^ s) × IsLimbs vn × (length vn ≡ suc k) × (2 ^ 31 ≤ limb vn k)

shift_by :
    (s : ℕ) (v : Limbs) (k : ℕ)
    → IsLimbs v
    → length v ≡ suc k
    → s < 32
    → 2 ^ 32 ≤ limb v k * 2 ^ s * 2
    → limb v k * 2 ^ s < 2 ^ 32
    → Normalised v k s (shift_divisor s v)
unfolding shift_divisor
shift_by zero v k h l lt big small = (omega arith, h, l, omega arith)
shift_by (suc s') v k h l lt big small =
    let s : ℕ = suc s' in
    let le : s ≤ 32 = omega arith in
    let shl = shl_loop_lem s le 0 v (p_pos s le) h in
    let t = shl_loop-top s le 0 v k l in
    let fits : limb v k < 2 ^ (32 - s) =
      lt_of_mul-lt-mul_right (2 ^ s) (omega (arith, split_p s le)) in
    let none_out : (shl_loop s 0 v).1 ≡ 0 = t.1 ∙ div-eq_of_lt fits in
    let no_carry : weight (length v) * (shl_loop s 0 v).1 ≡ 0 = rw none_out (omega arith) in
    rw (suc-==-zero s') (omega arith, shl.1, shl.2 ∙ l, omega arith)

pub shift_divisor_lem :
    (v : Limbs) (k : ℕ)
    → IsLimbs v
    → length v ≡ suc k
    → 0 < limb v k
    → (countl_zero 32 (limb v k) < 32)
      × Normalised v k (countl_zero 32 (limb v k)) (shift_divisor (countl_zero 32 (limb v k)) v)
shift_divisor_lem v k h l pos =
    let z = countl_zero_lem 32 (limb v k) pos (limb-lt v k h) in
    (z.0, shift_by (countl_zero 32 (limb v k)) v k h l z.0 z.1 z.2)

value-append : (xs : Limbs) (c : ℕ) → value (xs ++ c ∷ []) ≡ value xs + weight (length xs) * c
value-append [] c = omega arith
value-append (x ∷ xs) c = omega (arith, value-append xs c)

append-IsLimbs : (xs : Limbs) (c : ℕ) → IsLimbs xs → c < limb_base → IsLimbs (xs ++ c ∷ [])
append-IsLimbs [] c h hc = (hc, tt)
append-IsLimbs (x ∷ xs) c h hc = (h.0, append-IsLimbs xs c h.1 hc)

-- The shifted dividend is the dividend times 2 ^ s, in one limb more.
pub shift_dividend_lem :
    (s : ℕ) (u : Limbs)
    → s < 32
    → IsLimbs u
    → (value (shift_dividend s u) ≡ value u * 2 ^ s)
      × IsLimbs (shift_dividend s u)
      × (length (shift_dividend s u) ≡ suc (length u))
unfolding shift_dividend
shift_dividend_lem zero u lt h = (
  omega (arith, value-append u 0),
  append-IsLimbs u 0 h (omega arith),
  omega (arith, length-append u (0 ∷ [])),
)
shift_dividend_lem (suc s') u lt h =
    let s : ℕ = suc s' in
    let le : s ≤ 32 = omega arith in
    let shl = shl_loop_lem s le 0 u (p_pos s le) h in
    let p_le : 2 ^ s ≤ limb_base = pow-le-pow_right (omega arith) le in
    let out = (shl_loop s 0 u).1 in
    let sized : weight (length (shl_loop s 0 u).0) * out ≡ weight (length u) * out =
      ap (λ (t : ℕ). weight t * out) shl.2 in
    rw (suc-==-zero s') (
      omega (arith, value-append (shl_loop s 0 u).0 out),
      append-IsLimbs _ out shl.1 (omega arith),
      omega (arith, length-append (shl_loop s 0 u).0 (out ∷ [])),
    )
