-- ===== src/Knuth/Step.antt =====
-- One round of Algorithm D, and the loop over the rounds, divide exactly.
use nimble_cas.Prelude.{
  ℕ, zero, suc, ◌+◌, ◌-◌, ◌*◌, ◌/◌, ◌^◌, ◌≤◌, ◌<◌, ◌≡◌, refl, ap, sym, ◌∙◌, [], ◌∷◌, arith, length,
  take, drop, subst, if◌then◌else◌,
}
use nimble_cas.Prelude.Int.{ℤ, pos, negsuc}
use nimble_cas.Magnitude.{Limbs, limb_base, low32}
use nimble_cas.Magnitude.Value.{value, IsLimbs, weight, value-lt-weight}
use nimble_cas.Knuth.{
  is_negative, limb, mul_sub, add_back, subtract_digit, estimate, knuth_step, knuth_loop,
}
use nimble_cas.Knuth.Shift.{limb-lt}
use nimble_cas.Knuth.Estimate.{estimate_lem}
use nimble_cas.Knuth.Subtract.{mul_sub_lem, add_back_lem, value-take, Subtracted}

-- What a round owes: the window is digit * divisor + what is left, which is below the divisor.
abbrev pub Divides : Limbs → Limbs → ℕ × Limbs → Type 0
Divides vn w r =
    (value r.1 + r.0 * value vn ≡ value w)
    × (value r.1 < value vn)
    × (r.0 < limb_base)
    × IsLimbs r.1
    × (length r.1 ≡ length w)

value-take-suc :
    (n : ℕ) (xs : Limbs) → value (take (suc n) xs) ≡ value (take n xs) + weight n * limb xs n
value-take-suc zero [] = omega arith
value-take-suc zero (x ∷ xs) = omega arith
value-take-suc (suc n) [] = omega arith
value-take-suc (suc n) (x ∷ xs) = omega (arith, value-take-suc n xs)

take-all : (xs : Limbs) → take (length xs) xs ≡ xs
take-all [] = refl
take-all (x ∷ xs) = ap (λ t. x ∷ t) (take-all xs)

zero_of_mul_lt : (a d : ℕ) → a * d < a → d ≡ 0
zero_of_mul_lt a zero h = refl
zero_of_mul_lt a (suc d) h = absurd (omega arith)

-- In a number below weight n no limb stands from index n up.
pub value-below :
    (n : ℕ) (xs : Limbs) → IsLimbs xs → value xs < weight n → value xs ≡ value (take n xs)
value-below n xs h lt =
    let (d, e, l) = value-take n xs h in
    let none = zero_of_mul_lt (weight n) d (omega arith) in
    let gone : weight n * d ≡ 0 = rw none (omega arith) in omega arith

value-two_parts :
    (n : ℕ) (xs : Limbs)
    → IsLimbs xs
    → value xs < weight (suc n)
    → value xs ≡ value (take n xs) + weight n * limb xs n
value-two_parts n xs h lt = value-below (suc n) xs h lt ∙ value-take-suc n xs

module _ (q : ℕ) (vn w : Limbs) (hv : IsLimbs vn) (hw : IsLimbs w) (len : length vn < length w)
    (fits : value w < limb_base * weight (length vn)) (q_limb : q < limb_base)
    (q_up : q * value vn < value w + value vn) (q_low : value w < (q + 1) * value vn) where
  -- Nothing to correct: q is the digit.
  exact_digit :
      (r : Limbs) (t : ℕ) → Subtracted q (pos 0) vn w r (pos t) → Divides vn w (low32 q, r)
  exact_digit r t s =
      let v_lt = value-lt-weight vn hv in
      let parts = value-two_parts (length vn) w hw fits in
      let t_zero = zero_of_mul_lt (weight (length vn)) t (omega arith) in
      let no_high : t / 2 ^ 32 ≡ 0 = omega arith in
      let no_carry : weight (length vn) * (t / 2 ^ 32) ≡ 0 = rw no_high (omega arith) in
      let q_same : low32 q ≡ q = omega arith in
      rw q_same (omega arith, omega arith, q_limb, s.2, s.3)

  -- The subtraction went below zero: q was one too large, and the divisor is added back.
  one_too_large :
      (r : Limbs) (t : ℕ)
      → Subtracted q (pos 0) vn w r (negsuc t)
      → Divides vn w (low32 (low32 q + (2 ^ 32 - 1)), add_back 0 vn r)
  one_too_large r t s =
      let n : ℕ = length vn in
      let v_lt = value-lt-weight vn hv in
      let parts = value-two_parts n w hw fits in
      let (d, e, low_lt) = value-take n r s.2 in
      let t_zero = zero_of_mul_lt (weight n) t (omega arith) in
      let no_high : suc (t / 2 ^ 32) ≡ 1 = omega arith in
      let borrow : weight n * suc (t / 2 ^ 32) ≡ weight n = rw no_high (omega arith) in
      let below : value r < weight (suc n) = omega arith in
      let (o, whole, low, o_le, limbs, l) =
        add_back_lem 0 vn r (omega arith) hv s.2 (omega arith) in
      let (d', e', low_lt') = value-take (suc n) (add_back 0 vn r) limbs in
      let r_low = value-below (suc n) r s.2 below in
      let o_one = one_of n o (value (take (suc n) (add_back 0 vn r))) o_le (omega arith) low_lt' in
      let carried : weight n * o ≡ weight n = rw o_one (omega arith) in
      let q_pos : 0 < q = pos_of q (omega arith) in
      let q_same : low32 (low32 q + (2 ^ 32 - 1)) ≡ q - 1 = omega arith in
      let product : q * value vn ≡ (q - 1 + 1) * value vn =
        ap (λ (k : ℕ). k * value vn) (omega arith) in
      rw q_same (omega arith, omega arith, omega arith, limbs, l ∙ s.3)
    where
      -- A sum that reaches weight (suc n) is carried out of the top limb.
      one_of :
          (n o x : ℕ)
          → o ≤ 1
          → weight (suc n) ≤ x + limb_base * (weight n * o)
          → x < weight (suc n)
          → o ≡ 1
      one_of n zero x h k l = absurd (omega arith)
      one_of n (suc o) x h k l = omega arith

      pos_of : (k : ℕ) → 0 < k * value vn → 0 < k
      pos_of zero h = absurd (omega arith)
      pos_of (suc k) h = omega arith

  by_sign :
      (r : Limbs) (top : ℤ)
      → Subtracted q (pos 0) vn w r top
      → Divides vn w (
          if is_negative top
          then (low32 (low32 q + (2 ^ 32 - 1)), add_back 0 vn r)
          else (low32 q, r))
  by_sign r (pos t) s = exact_digit r t s
  by_sign r (negsuc t) s = one_too_large r t s

  subtract_digit_lem : Divides vn w (subtract_digit q vn w)
  unfolding subtract_digit
  subtract_digit_lem =
      by_sign (mul_sub q (pos 0) vn w).0 (mul_sub q (pos 0) vn w).1
        (mul_sub_lem q (pos 0) vn w q_limb hv hw len)

module _ (vn : Limbs) (k : ℕ) (hv : IsLimbs vn) (l : length vn ≡ suc (suc k))
    (high : 2 ^ 31 ≤ limb vn (suc k)) where
  -- The divisor by its two top limbs.
  value_top_two :
      value vn ≡ value (take k vn) + weight k * (limb vn k + limb_base * limb vn (suc k))
  value_top_two =
      let lt : value vn < weight (suc (suc k)) =
        subst (λ n. value vn < weight n) l (value-lt-weight vn hv) in
      omega (arith, value-two_parts (suc k) vn hv lt, value-take-suc k vn)

  estimate_digit :
      (w : Limbs)
      → IsLimbs w
      → value w < limb_base * value vn
      → value w < limb_base * weight (suc (suc k))
      → let q =
          estimate
            (limb vn (suc k))
            (limb vn k)
            (limb w (suc (suc k)))
            (limb w (suc k))
            (limb w k) in
        (q < limb_base) × (q * value vn < value w + value vn) × (value w < (q + 1) * value vn)
  estimate_digit w hw bound fits =
      let e_v = value_top_two in
      let e_w : value w
          ≡ value (take k w)
            + weight k
              * (limb w k + limb_base * (limb w (suc k) + limb_base * limb w (suc (suc k)))) =
        omega (
          arith,
          value-two_parts (suc (suc k)) w hw fits,
          value-take-suc (suc k) w,
          value-take-suc k w,
        ) in
      let (_, _, low_v) = value-take k vn hv in
      let (_, _, low_w) = value-take k w hw in
      rw (e_v, e_w)
        (estimate_lem (weight k) (value (take k vn)) (limb vn (suc k)) (limb vn k)
          (value (take k w)) (limb w (suc (suc k))) (limb w (suc k)) (limb w k) low_v low_w
          (limb-lt vn (suc k) hv) high (limb-lt vn k hv) (limb-lt w (suc k) hw) (limb-lt w k hw)
          (omega arith))

  -- One round divides a window below base * divisor.
  pub knuth_step_lem :
      (w : Limbs)
      → IsLimbs w
      → length vn < length w
      → value w < limb_base * value vn
      → Divides vn w (knuth_step vn w)
  unfolding knuth_step
  knuth_step_lem w hw len bound =
      let small : value w < limb_base * weight (length vn) = omega (arith, value-lt-weight vn hv) in
      let e1 : length vn - 1 ≡ suc k = omega arith in
      let e2 : length vn - 2 ≡ k = omega arith in
      let e = estimate_digit w hw bound (subst (λ n. value w < limb_base * weight n) l small) in
      let q : ℕ =
        estimate (limb vn (suc k)) (limb vn k) (limb w (suc (suc k))) (limb w (suc k)) (limb w k) in
      let same : estimate (limb vn (length vn - 1)) (limb vn (length vn - 2)) (limb w (length vn))
            (limb w (length vn - 1)) (limb w (length vn - 2))
          ≡ q =
        rw (e1, e2, l) refl in
      subst (λ d. Divides vn w (subtract_digit d vn w)) (sym same)
        (subtract_digit_lem q vn w hv hw len small e.0 e.1 e.2)

  -- All rounds: the dividend is quotient * divisor + what is left.
  pub knuth_loop_lem :
      (r : ℕ) (us : Limbs)
      → IsLimbs us
      → length us ≡ r + length vn
      → value (drop r us) < value vn
      → (value (knuth_loop r vn us).1 + value (knuth_loop r vn us).0 * value vn ≡ value us)
        × (value (knuth_loop r vn us).1 < value vn)
        × IsLimbs (knuth_loop r vn us).0
        × IsLimbs (knuth_loop r vn us).1
        × (length (knuth_loop r vn us).1 ≡ length us)
  unfolding knuth_loop
  knuth_loop_lem zero us hu len lt = (omega arith, lt, tt, hu, refl)
  knuth_loop_lem (suc r) [] hu len lt = absurd (omega arith)
  knuth_loop_lem (suc r) (x ∷ us) hu len lt =
      let ih = knuth_loop_lem r us hu.1 (omega arith) lt in
      let w : Limbs = x ∷ (knuth_loop r vn us).1 in
      let d = knuth_step_lem w (hu.0, ih.3) (omega arith) (omega arith) in
      (omega arith, d.1, (d.2, ih.2), d.3, omega arith)
