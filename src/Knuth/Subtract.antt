-- ===== src/Knuth/Subtract.antt =====
-- D4 and D6: the multiply-and-subtract and the add-back loops, as equations between numbers.
use nimble_cas.Prelude.{
  ℕ, zero, suc, ◌+◌, ◌-◌, ◌*◌, ◌/◌, ◌^◌, ◌≤◌, ◌<◌, ◌≡◌, refl, ap, [], ◌∷◌, arith, length, take,
}
use nimble_cas.Prelude.Arith.{mul_le_mul}
use nimble_cas.Prelude.Int.{ℤ, pos, negsuc, pos_part, neg_part, ◌-ℤ◌, -ℤ_parts}
use nimble_cas.Magnitude.{Limbs, limb_base, u64, low32, high32}
use nimble_cas.Magnitude.Value.{value, IsLimbs, weight, weight_pos}
use nimble_cas.Knuth.{limb, sar32, low32_ℤ, mul_sub, add_back}

-- `S = (uint32)S + 2^32 * (S >> 32)` holds for any S.
sar32_lem :
    (x : ℤ)
    → low32_ℤ x + limb_base * pos_part (sar32 x) + neg_part x
      ≡ pos_part x + limb_base * neg_part (sar32 x)
sar32_lem (pos n) = omega arith
sar32_lem (negsuc n) = omega arith

low32_ℤ-lt : (x : ℤ) → low32_ℤ x < limb_base
low32_ℤ-lt (pos n) = omega arith
low32_ℤ-lt (negsuc n) = omega arith

product_fits : (q v : ℕ) → q < limb_base → v < limb_base → u64 (q * v) ≡ q * v
product_fits q v hq hv =
    let le : q * v ≤ (limb_base - 1) * (limb_base - 1) =
      mul_le_mul q (limb_base - 1) v (limb_base - 1) (omega arith) (omega arith) in
    omega arith

-- D4 as an equation, over the whole window and over its limbs up to the top one: what is left, with
-- the signed `sub_top` in the top limb's place, is the window less k and less q * v.
abbrev pub Subtracted : ℕ → ℤ → Limbs → Limbs → Limbs → ℤ → Type 0
Subtracted q k vs us r top =
    (value r + limb_base * (weight (length vs) * pos_part (sar32 top)) + pos_part k + q * value vs
      ≡ value us + limb_base * (weight (length vs) * neg_part (sar32 top)) + neg_part k)
    × (value (take (length vs) r) + weight (length vs) * pos_part top + pos_part k + q * value vs
        ≡ value (take (length vs) us)
          + weight (length vs) * limb us (length vs)
          + weight (length vs) * neg_part top
          + neg_part k)
    × IsLimbs r
    × (length r ≡ length us)

pub mul_sub_lem :
    (q : ℕ) (k : ℤ) (vs us : Limbs)
    → q < limb_base
    → IsLimbs vs
    → IsLimbs us
    → length vs < length us
    → Subtracted q k vs us (mul_sub q k vs us).0 (mul_sub q k vs us).1
unfolding mul_sub
mul_sub_lem q k vs [] hq hv hu l = absurd (omega arith)
mul_sub_lem q k [] (u ∷ us) hq hv hu l =
    let s = sar32_lem (pos u -ℤ k) in
    let e = -ℤ_parts (pos u) k in (omega arith, omega arith, (low32_ℤ-lt (pos u -ℤ k), hu.1), refl)
mul_sub_lem q k (v ∷ vs) (u ∷ us) hq hv hu l =
    let p : ℕ = u64 (q * v) in
    let sub : ℤ = (pos u -ℤ k) -ℤ pos (low32 p) in
    let k' : ℤ = pos (high32 p) -ℤ sar32 sub in
    let whole = product_fits q v hq hv.0 in
    let s = sar32_lem sub in
    let e = -ℤ_parts (pos u) k in
    let e' = -ℤ_parts (pos u -ℤ k) (pos (low32 p)) in
    let e'' = -ℤ_parts (pos (high32 p)) (sar32 sub) in
    let ih = mul_sub_lem q k' vs us hq hv.1 hu.1 (omega arith) in
    (omega arith, omega arith, (low32_ℤ-lt sub, ih.2), ap suc ih.3)

-- D6 as an equation, with what is carried out of the top limb.
pub add_back_lem :
    (c : ℕ) (vs us : Limbs)
    → c ≤ 1
    → IsLimbs vs
    → IsLimbs us
    → length vs < length us
    → (o : ℕ) × (value (add_back c vs us) + limb_base * (weight (length vs) * o)
        ≡ value us + value vs + c)
      × (value (take (suc (length vs)) (add_back c vs us)) + limb_base * (weight (length vs) * o)
          ≡ value (take (suc (length vs)) us) + value vs + c)
      × (o ≤ 1)
      × IsLimbs (add_back c vs us)
      × (length (add_back c vs us) ≡ length us)
unfolding add_back
add_back_lem c vs [] hc hv hu l = absurd (omega arith)
add_back_lem c [] (u ∷ us) hc hv hu l =
    ((u + c) / 2 ^ 32, omega arith, omega arith, omega arith, (omega arith, hu.1), refl)
add_back_lem c (v ∷ vs) (u ∷ us) hc hv hu l =
    let sum : ℕ = u64 (u64 (u + v) + c) in
    let (o, whole, low, le, limbs, len) =
      add_back_lem (high32 sum) vs us (omega arith) hv.1 hu.1 (omega arith) in
    (o, omega arith, omega arith, le, (omega arith, limbs), ap suc len)

-- The limbs below index n, and the number that stands above them.
pub value-take :
    (n : ℕ) (xs : Limbs)
    → IsLimbs xs
    → (d : ℕ) × (value xs ≡ value (take n xs) + weight n * d) × (value (take n xs) < weight n)
value-take zero xs h = (value xs, omega arith, omega arith)
value-take (suc n) [] h = (0, omega arith, omega (arith, weight_pos n))
value-take (suc n) (x ∷ xs) h = let (d, e, l) = value-take n xs h.1 in (d, omega arith, omega arith)
