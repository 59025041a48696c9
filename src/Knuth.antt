-- ===== src/Knuth.antt =====
-- src/bigint/bigint.cppm: `divmod_knuth`, Knuth's Algorithm D (TAOCP vol. 2, 4.3.1) for a divisor of
-- two limbs or more, and `mag_divmod`, which dispatches to it. The array `un` from index j up is the
-- list that a round works on, so `un[j + i]` is its limb i. Arithmetic in `std::int64_t` is over the
-- integers, and `>>` on it rounds down.
pub mod Shift
pub mod Estimate
pub mod Subtract
pub mod Step
pub mod Correct
use nimble_cas.Prelude.{
  ℕ, zero, suc, ◌+◌, ◌-◌, ◌*◌, ◌/◌, ◌%◌, ◌^◌, Ordering, List, [], ◌∷◌, ◌++◌, Bool, true, false,
  ◌||◌, ltb, leb, ◌==◌, if◌then◌else◌, length, take, get_or,
}
use nimble_cas.Prelude.Int.{ℤ, pos, negsuc, ◌-ℤ◌}
use nimble_cas.Prelude.{◌≡◌, refl}
use nimble_cas.Magnitude.{Limbs, limb_base, u64, low32, high32, join32, trim, mag_cmp, divmod_small}

-- `v[i]`
abbrev pub limb : Limbs → ℕ → ℕ
limb v i = get_or v i 0

-- `std::countl_zero` of a word of w bits: the zero bits above the highest one.
unfoldable pub countl_zero : ℕ → ℕ → ℕ
countl_zero zero x = 0
countl_zero (suc w) x = if leb (2 ^ w) x then 0 else suc (countl_zero w x)

-- The loops that shift left by 0 < s < 32: the limbs, and the carry out of the last one.
unfoldable pub shl_loop : ℕ → ℕ → Limbs → Limbs × ℕ
shl_loop s carry [] = ([], carry)
shl_loop s carry (x ∷ xs) =
    let (r, out) = shl_loop s (x / 2 ^ (32 - s)) xs in ((low32 (x * 2 ^ s) + carry) ∷ r, out)

-- The divisor shifted; what is carried out of its top limb is dropped (it is 0).
unfoldable pub shift_divisor : ℕ → Limbs → Limbs
unfolding shl_loop
shift_divisor s v = if s == 0 then v else (shl_loop s 0 v).0

-- The dividend shifted, with one more limb.
unfoldable pub shift_dividend : ℕ → Limbs → Limbs
unfolding shl_loop
shift_dividend s u = let (r, out) = shl_loop s 0 u in if s == 0 then u ++ 0 ∷ [] else r ++ out ∷ []

-- `--qhat` in `std::uint64_t`.
abbrev pub dec64 : ℕ → ℕ
dec64 n = u64 (n + (2 ^ 64 - 1))

-- D3, the loop that corrects qhat. It makes two rounds at most, each adds v1 ≥ 2^31 to rhat.
unfoldable pub correct : ℕ → ℕ → ℕ → ℕ → ℕ → ℕ → ℕ
correct zero v1 v2 u2 qhat rhat = qhat
correct (suc f) v1 v2 u2 qhat rhat =
    let next = correct f v1 v2 u2 (dec64 qhat) (u64 (rhat + v1)) in
    if leb limb_base qhat || ltb (join32 rhat u2) (u64 (qhat * v2))
    then (if leb limb_base (u64 (rhat + v1)) then dec64 qhat else next)
    else qhat

-- D3: the quotient digit estimated from the top limbs.
unfoldable pub estimate : ℕ → ℕ → ℕ → ℕ → ℕ → ℕ
unfolding correct
estimate v1 v2 u0 u1 u2 = let num = join32 u0 u1 in correct 2 v1 v2 u2 (num / v1) (num % v1)

-- `sub >> 32U` on `std::int64_t`.
abbrev pub sar32 : ℤ → ℤ
sar32 (pos n) = pos (n / 2 ^ 32)
sar32 (negsuc n) = negsuc (n / 2 ^ 32)

-- `static_cast<std::uint32_t>(sub)`
abbrev pub low32_ℤ : ℤ → ℕ
low32_ℤ (pos n) = n % 2 ^ 32
low32_ℤ (negsuc n) = 2 ^ 32 - 1 - n % 2 ^ 32

-- D4: subtract qhat * vn from the window in place; the second result is `sub_top`.
unfoldable pub mul_sub : ℕ → ℤ → Limbs → Limbs → Limbs × ℤ
mul_sub qhat k vs [] = ([], pos 0)
mul_sub qhat k [] (u ∷ us) = let sub_top = pos u -ℤ k in (low32_ℤ sub_top ∷ us, sub_top)
mul_sub qhat k (v ∷ vs) (u ∷ us) =
    let p = u64 (qhat * v) in
    let sub = (pos u -ℤ k) -ℤ pos (low32 p) in
    let (r, top) = mul_sub qhat (pos (high32 p) -ℤ sar32 sub) vs us in (low32_ℤ sub ∷ r, top)

-- D6: add the divisor back into the window.
unfoldable pub add_back : ℕ → Limbs → Limbs → Limbs
add_back carry vs [] = []
add_back carry [] (u ∷ us) = low32 (u64 (u + carry)) ∷ us
add_back carry (v ∷ vs) (u ∷ us) =
    let sum = u64 (u64 (u + v) + carry) in low32 sum ∷ add_back (high32 sum) vs us

abbrev pub is_negative : ℤ → Bool
is_negative (pos n) = false
is_negative (negsuc n) = true

-- D4 to D6 for the estimate qhat: the quotient digit, and the window.
unfoldable pub subtract_digit : ℕ → Limbs → Limbs → ℕ × Limbs
unfolding mul_sub add_back
subtract_digit qhat vn w =
    let (w', sub_top) = mul_sub qhat (pos 0) vn w in
    if is_negative sub_top
    then (low32 (low32 qhat + (2 ^ 32 - 1)), add_back 0 vn w')
    else (low32 qhat, w')

-- One round at j: the quotient digit, and `un` from index j up.
unfoldable pub knuth_step : Limbs → Limbs → ℕ × Limbs
unfolding estimate subtract_digit
knuth_step vn w =
    let n = length vn in
    subtract_digit
      (estimate (limb vn (n - 1)) (limb vn (n - 2)) (limb w n) (limb w (n - 1)) (limb w (n - 2))) vn
      w

-- The rounds, from the highest j down to 0: the quotient limbs, and `un` behind them.
unfoldable pub knuth_loop : ℕ → Limbs → Limbs → Limbs × Limbs
unfolding knuth_step
knuth_loop zero vn us = ([], us)
knuth_loop (suc r) vn [] = ([], [])
knuth_loop (suc r) vn (x ∷ us) =
    let (q, us') = knuth_loop r vn us in let (d, w) = knuth_step vn (x ∷ us') in (d ∷ q, w)

-- D8: n limbs shifted right by 0 < s < 32.
unfoldable pub shr_loop : ℕ → ℕ → Limbs → Limbs
shr_loop s zero us = []
shr_loop s (suc n) [] = []
shr_loop s (suc n) (x ∷ us) = (x / 2 ^ s + low32 (limb us 0 * 2 ^ (32 - s))) ∷ shr_loop s n us

unfoldable pub divmod_knuth : Limbs → Limbs → Limbs × Limbs
unfolding countl_zero shift_divisor shift_dividend knuth_loop shr_loop trim
divmod_knuth u v =
    let n = length v in
    let m = length u - n in
    let shift = countl_zero 32 (limb v (n - 1)) in
    let (q, un) = knuth_loop (m + 1) (shift_divisor shift v) (shift_dividend shift u) in
    (trim q, trim (if shift == 0 then take n un else shr_loop shift n un))

-- The cases of `mag_divmod` where the dividend is not the smaller one.
unfoldable pub divmod_large : Limbs → Limbs → Limbs × Limbs
divmod_large u v =
    let (q, rem) = divmod_small u (limb v 0) in
    let large = divmod_knuth u v in
    if length v == 1 then (q, (if rem == 0 then [] else rem ∷ [])) else large

-- Unsigned division; the code's precondition is that v is not empty.
unfoldable pub mag_divmod : Limbs → Limbs → Limbs × Limbs
mag_divmod u v = elim (mag_cmp u v) [ Ordering.lt ↦ ([], u) | _ ↦ divmod_large u v ]

-- (2^64 + 5) / (2^32 + 3), with the remainder.
divmod_knuth_runs : divmod_knuth (5 ∷ 0 ∷ 1 ∷ []) (3 ∷ 1 ∷ []) ≡ (4294967293 ∷ [], 14 ∷ [])
unfolding divmod_knuth ◌-ℤ◌
divmod_knuth_runs = refl
