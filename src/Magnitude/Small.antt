-- ===== src/Magnitude/Small.antt =====
-- The routines with a one-limb operand: `mul_small`, `add_small` and `divmod_small`.
use nimble_cas.Prelude.{
  ℕ, ◌+◌, ◌*◌, ◌/◌, ◌%◌, ◌^◌, ◌<◌, ◌≡◌, ◌∙◌, [], ◌∷◌, arith, inl, inr, Bool-cases, ◌==◌,
}
use native.Mathlib.Nat.{mod-eq_of_lt, mod-lt, div-add-mod'}
use nimble_cas.Prelude.Arith.{digit-lt}
use nimble_cas.Magnitude.{
  Limbs, limb_base, u64, low32, join32, mul_small_loop, mul_small, add_small, div_loop,
  divmod_small,
}
use nimble_cas.Magnitude.Value.{
  value, IsLimbs, IsTrimmed, value-trim, trim-IsTrimmed, trim-IsLimbs, value-push_carry,
  push_carry-IsLimbs,
}
use nimble_cas.Magnitude.Product.{limb_product}

mul_small_loop_lem :
    (c : ℕ) (v : Limbs) (m : ℕ)
    → c < limb_base
    → IsLimbs v
    → m < limb_base
    → (value (mul_small_loop c v m) ≡ value v * m + c) × IsLimbs (mul_small_loop c v m)
unfolding mul_small_loop
mul_small_loop_lem c [] m hc hv hm = (omega (arith, value-push_carry c), push_carry-IsLimbs c)
mul_small_loop_lem c (x ∷ xs) m hc hv hm =
    let p = limb_product 0 x m c (omega arith) hv.0 hm hc in
    let cur : ℕ = u64 (u64 (x * m) + c) in
    let ih = mul_small_loop_lem (cur / 2 ^ 32) xs m (omega arith) hv.1 hm in
    (omega arith, (omega arith, ih.1))

pub mul_small_lem :
    (v : Limbs) (m : ℕ)
    → IsLimbs v
    → m < limb_base
    → (value (mul_small v m) ≡ value v * m) × IsLimbs (mul_small v m)
unfolding mul_small
mul_small_lem [] m hv hm = (omega arith, tt)
mul_small_lem (x ∷ xs) m hv hm =
    let p = mul_small_loop_lem 0 (x ∷ xs) m (omega arith) hv hm in
    elim (Bool-cases (m == 0)) [ inl e ↦ rw e (grind arith, tt) | inr e ↦ rw e (omega arith, p.1) ]

pub add_small_lem :
    (v : Limbs) (c : ℕ)
    → IsLimbs v
    → c < limb_base
    → (value (add_small v c) ≡ value v + c) × IsLimbs (add_small v c)
unfolding add_small
add_small_lem [] c hv hc = (omega (arith, value-push_carry c), push_carry-IsLimbs c)
add_small_lem (x ∷ xs) c hv hc =
    let cur : ℕ = u64 (x + c) in
    let ih = add_small_lem xs (cur / 2 ^ 32) hv.1 (omega arith) in
    elim (Bool-cases (c == 0)) [
      | inl e ↦ rw e (ground arith, hv)
      | inr e ↦ rw e (omega arith, (omega arith, ih.1))
    ]

-- One step of the long division by a limb d: what is left is below d, the digit is a limb.
div_step :
    (rem x d : ℕ)
    → rem < d
    → x < limb_base
    → d < limb_base
    → (low32 (join32 rem x / d) * d + join32 rem x % d ≡ rem * limb_base + x)
      × (join32 rem x % d < d)
div_step rem x d hr hx hd =
    let e : join32 rem x ≡ rem * limb_base + x = omega arith in
    let small : low32 (join32 rem x / d) ≡ join32 rem x / d =
      mod-eq_of_lt (rw e (digit-lt rem x limb_base d hr hx)) in
    (rw small (div-add-mod' _ d ∙ e), mod-lt _ (omega arith))

div_loop_lem :
    (u : Limbs) (d : ℕ)
    → IsLimbs u
    → 0 < d
    → d < limb_base
    → (value (div_loop u d).0 * d + (div_loop u d).1 ≡ value u)
      × ((div_loop u d).1 < d)
      × IsLimbs (div_loop u d).0
unfolding div_loop
div_loop_lem [] d hu h0 hd = (omega arith, h0, tt)
div_loop_lem (x ∷ xs) d hu h0 hd =
    let ih = div_loop_lem xs d hu.1 h0 hd in
    let p = div_step (div_loop xs d).1 x d ih.1 hu.0 hd in (omega arith, p.1, (omega arith, ih.2))

-- For a magnitude of 32-bit limbs and a limb d above zero, divmod_small returns a trimmed quotient
-- of limbs and a remainder below d with value q * d + rem = value u.
pub divmod_small_lem :
    (u : Limbs) (d : ℕ)
    → IsLimbs u
    → 0 < d
    → d < limb_base
    → (value (divmod_small u d).0 * d + (divmod_small u d).1 ≡ value u)
      × ((divmod_small u d).1 < d)
      × IsLimbs (divmod_small u d).0
      × IsTrimmed (divmod_small u d).0
unfolding divmod_small
divmod_small_lem u d hu h0 hd =
    let p = div_loop_lem u d hu h0 hd in
    let e = value-trim (div_loop u d).0 in
    let small : (div_loop u d).1 % 2 ^ 32 ≡ (div_loop u d).1 = omega arith in
    (rw (e, small) p.0, rw small p.1, trim-IsLimbs _ p.2, trim-IsTrimmed (div_loop u d).0)
