-- ===== src/Magnitude/Product.antt =====
-- `mag_mul` is multiplication: each row adds one limb's multiple into the result in place.
use nimble_cas.Prelude.{
  ℕ, zero, suc, ◌+◌, ◌-◌, ◌*◌, ◌/◌, ◌^◌, ◌≤◌, ◌<◌, ◌≡◌, refl, ap, subst, ◌∙◌, length-replicate, [],
  ◌∷◌, arith, length, replicate, All,
}
use nimble_cas.Prelude.Arith.{mul_le_mul}
use nimble_cas.Magnitude.{Limbs, limb_base, u64, mul_row, mul_rows, mag_mul}
use nimble_cas.Magnitude.Value.{
  value, IsLimbs, value-trim, trim-IsLimbs, value-replicate_zero, replicate_zero-IsLimbs,
}

abbrev IsZero : ℕ → Type 0
IsZero x = x ≡ 0

-- From index n up every limb is zero: the part of the result that no row has reached.
abbrev ZeroFrom : ℕ → Limbs → Type 0
ZeroFrom zero r = All IsZero r
ZeroFrom (suc n) [] = Unit
ZeroFrom (suc n) (x ∷ xs) = ZeroFrom n xs

-- The 64-bit intermediate of one step does not wrap, and its high half is a limb.
pub limb_product :
    (r x y c : ℕ)
    → r < limb_base
    → x < limb_base
    → y < limb_base
    → c < limb_base
    → (u64 (u64 (r + u64 (x * y)) + c) ≡ r + x * y + c) × ((r + x * y + c) / 2 ^ 32 < limb_base)
limb_product r x y c hr hx hy hc =
    let top : x * y ≤ (limb_base - 1) * (limb_base - 1) =
      mul_le_mul x (limb_base - 1) y (limb_base - 1) (omega arith) (omega arith) in
    (omega arith, omega arith)

abbrev RowResult : ℕ → Limbs → ℕ → Limbs → Limbs → Type 0
RowResult x b c r r' =
    (value r' ≡ value r + x * value b + c)
    × IsLimbs r'
    × (length r' ≡ length r)
    × ZeroFrom (suc (length b)) r'

mul_row_lem :
    (x : ℕ) (b : Limbs) (c : ℕ) (r : Limbs)
    → x < limb_base
    → IsLimbs b
    → c < limb_base
    → IsLimbs r
    → ZeroFrom (length b) r
    → length b < length r
    → RowResult x b c r (mul_row x b c r)
unfolding mul_row
mul_row_lem x b c [] hx hb hc hr z l = absurd (omega arith)
mul_row_lem x [] c (r ∷ rs) hx hb hc hr z l = (omega arith, (omega arith, hr.1), refl, z.1)
mul_row_lem x (y ∷ ys) c (r ∷ rs) hx hb hc hr z l =
    let p = limb_product r x y c hr.0 hx hb.0 hc in
    let cur : ℕ = u64 (u64 (r + u64 (x * y)) + c) in
    let ih = mul_row_lem x ys (cur / 2 ^ 32) rs hx hb.1 (omega arith) hr.1 z (omega arith) in
    (omega arith, (omega arith, ih.1), ap suc ih.2, ih.3)

uncons : (xs : Limbs) (n : ℕ) → length xs ≡ suc n → (h : ℕ) × (t : Limbs) × (xs ≡ h ∷ t)
uncons [] n e = absurd (omega arith)
uncons (x ∷ xs) n e = (x, xs, refl)

mul_rows_lem :
    (a b r : Limbs)
    → IsLimbs a
    → IsLimbs b
    → IsLimbs r
    → ZeroFrom (length b) r
    → length r ≡ length a + length b
    → (value (mul_rows a b r) ≡ value r + value a * value b) × IsLimbs (mul_rows a b r)
unfolding mul_rows
mul_rows_lem [] b r ha hb hr z l = (omega arith, hr)
mul_rows_lem (x ∷ xs) b r ha hb hr z l =
    let row = mul_row_lem x b 0 r ha.0 hb (omega arith) hr z (omega arith) in
    let (h, t, e) = uncons (mul_row x b 0 r) (length xs + length b) (omega (arith, row.2)) in
    let row' : RowResult x b 0 r (h ∷ t) = subst (RowResult x b 0 r) e row in
    let ih = mul_rows_lem xs b t ha.1 hb row'.1.1 row'.3 (omega arith) in
    rw (e, mul_rows) (omega arith, (row'.1.0, ih.1))

All-IsZero : (n : ℕ) → All IsZero (replicate n 0)
All-IsZero zero = tt
All-IsZero (suc n) = (refl, All-IsZero n)

ZeroFrom-replicate : (k n : ℕ) → ZeroFrom k (replicate n 0)
ZeroFrom-replicate zero n = All-IsZero n
ZeroFrom-replicate (suc k) zero = tt
ZeroFrom-replicate (suc k) (suc n) = ZeroFrom-replicate k n

mul_rows_zero :
    (a b : Limbs)
    → IsLimbs a
    → IsLimbs b
    → let r = mul_rows a b (replicate (length a + length b) 0) in
      (value r ≡ value a * value b) × IsLimbs r
mul_rows_zero a b ha hb =
    let n : ℕ = length a + length b in
    let p =
      mul_rows_lem a b (replicate n 0) ha hb (replicate_zero-IsLimbs n)
        (ZeroFrom-replicate (length b) n) (length-replicate n 0) in
    (omega (arith, value-replicate_zero n), p.1)

-- For magnitudes of 32-bit limbs, the value of mag_mul is the product of the values: no 64-bit
-- product or carry is lost.
pub value-mag_mul : (a b : Limbs) → IsLimbs a → IsLimbs b → value (mag_mul a b) ≡ value a * value b
unfolding mag_mul
value-mag_mul [] b ha hb = omega arith
value-mag_mul (x ∷ xs) [] ha hb = omega arith
value-mag_mul (x ∷ xs) (y ∷ ys) ha hb = value-trim _ ∙ (mul_rows_zero (x ∷ xs) (y ∷ ys) ha hb).0

pub mag_mul-IsLimbs : (a b : Limbs) → IsLimbs a → IsLimbs b → IsLimbs (mag_mul a b)
unfolding mag_mul
mag_mul-IsLimbs [] b ha hb = tt
mag_mul-IsLimbs (x ∷ xs) [] ha hb = tt
mag_mul-IsLimbs (x ∷ xs) (y ∷ ys) ha hb = trim-IsLimbs _ (mul_rows_zero (x ∷ xs) (y ∷ ys) ha hb).1
