-- ===== src/Knuth/Estimate.antt =====
-- D3: the corrected estimate is the quotient digit, or one more (Knuth's Theorem B), and the loop
-- ends by its own test.
use native.Mathlib.Nat.{div-add-mod', mod-lt, lt_of_mul-lt-mul_right}
use nimble_cas.Prelude.{
  ap, ℕ, zero, suc, ◌+◌, ◌-◌, ◌*◌, ◌/◌, ◌%◌, ◌^◌, ◌≤◌, ◌<◌, ◌≡◌, ◌⊎◌, inl, inr, arith, leb, ltb,
  Bool-cases, ◌||◌, true, false, leb→le, leb→lt,
}
use native.Mathlib.Decide.{dec_le}
use nimble_cas.Prelude.Arith.{mul_le_mul}
use nimble_cas.Magnitude.{limb_base, u64, join32}
use nimble_cas.Knuth.{correct, estimate, dec64}

-- What holds of an estimate q with remainder r when the loop has ended: it is a limb, the two top
-- limbs of the divisor do not refute it, and it is not below the digit: w < (q + 1) * v.
abbrev Corrected : ℕ → ℕ → ℕ → ℕ → ℕ → ℕ → ℕ → Type 0
Corrected v1 v2 u2 num w v q =
    (r : ℕ) × (q * v1 + r ≡ num)
    × (q < limb_base)
    × (q * v2 ≤ r * limb_base + u2)
    × (w < (q + 1) * v)

module _ (v1 v2 u2 num w v : ℕ) (v1_limb : v1 < limb_base) (v1_high : 2 ^ 31 ≤ v1)
    (v2_limb : v2 < limb_base) (u2_limb : u2 < limb_base)
    (num_small : num < v1 * limb_base + limb_base)
    (over : (q r : ℕ)
      → q * v1 + r ≡ num
      → (limb_base ≤ q) ⊎ (r * limb_base + u2 < q * v2)
      → w < q * v) where
  q_bound : (q r : ℕ) → q * v1 + r ≡ num → q ≤ limb_base + 1
  q_bound q r e = grind arith

  no_wrap : (q : ℕ) → q < limb_base → u64 (q * v2) ≡ q * v2
  no_wrap q h =
      let le : q * v2 ≤ (limb_base - 1) * (limb_base - 1) =
        mul_le_mul q (limb_base - 1) v2 (limb_base - 1) (omega arith) (omega arith) in
      omega arith

  -- The loop's test, over the numbers.
  refuted :
      (q r : ℕ)
      → r < limb_base
      → (leb limb_base q || ltb (join32 r u2) (u64 (q * v2))) ≡ true
      → (limb_base ≤ q) ⊎ (r * limb_base + u2 < q * v2)
  refuted q r h t = elim (Bool-cases (leb limb_base q)) [
    | inl big ↦ inl (leb→le _ _ big)
    | inr small ↦ inr (ground (arith, no_wrap q))
  ]

  passed :
      (q r : ℕ)
      → r < limb_base
      → (leb limb_base q || ltb (join32 r u2) (u64 (q * v2))) ≡ false
      → (q < limb_base) × (q * v2 ≤ r * limb_base + u2)
  passed q r h t = (ground arith, ground (arith, no_wrap q))

  -- One round takes one off an estimate that is too large.
  round :
      (q r : ℕ)
      → q * v1 + r ≡ num
      → r < limb_base
      → (limb_base ≤ q) ⊎ (r * limb_base + u2 < q * v2)
      → (dec64 q * v1 + u64 (r + v1) ≡ num) × (w < (dec64 q + 1) * v) × (u64 (r + v1) ≡ r + v1)
  round zero r e h (inl c) = absurd (omega arith)
  round zero r e h (inr c) = absurd (omega arith)
  round (suc q) r e h c =
      let b = q_bound (suc q) r e in
      let d : dec64 (suc q) ≡ q = omega arith in
      let s : u64 (r + v1) ≡ r + v1 = omega arith in
      let o = over (suc q) r e c in (rw (d, s) (omega arith), rw d (omega arith), s)

  -- The break: with a remainder above the limbs the estimate can be refuted no more.
  broke :
      (q r : ℕ) → q * v1 + r ≡ num → limb_base ≤ r → (q < limb_base) × (q * v2 ≤ r * limb_base + u2)
  broke q r e h =
      let small : q < limb_base = lt_of_mul-lt-mul_right v1 (omega arith) in
      let le : q * v2 ≤ limb_base * limb_base =
        mul_le_mul q limb_base v2 limb_base (omega arith) (omega arith) in
      (small, omega arith)

  correct_lem :
      (f q r : ℕ)
      → q * v1 + r ≡ num
      → r < limb_base
      → limb_base ≤ r + f * 2 ^ 31
      → w < (q + 1) * v
      → Corrected v1 v2 u2 num w v (correct f v1 v2 u2 q r)
  unfolding correct
  correct_lem zero q r e h fuel up = absurd (omega arith)
  correct_lem (suc f) q r e h fuel up =
      elim (Bool-cases (leb limb_base q || ltb (join32 r u2) (u64 (q * v2)))) [
        | inr done ↦ rw done (let p = passed q r h done in (r, e, p.0, p.1, up))
        | inl again ↦
            let n = round q r e h (refuted q r h again) in
            rw again (elim (Bool-cases (leb limb_base (u64 (r + v1)))) [
              | inl stop ↦
                  let p = broke (dec64 q) (u64 (r + v1)) n.0 (leb→le _ _ stop) in
                  rw stop (u64 (r + v1), n.0, p.0, p.1, n.1)
              | inr next ↦
                  rw next
                    (correct_lem f (dec64 q) (u64 (r + v1)) n.0 (leb→lt _ _ next) (omega arith) n.1)
            ])
      ]

-- The numbers by their limbs: V = lv + wt * (v2 + B * v1), and W = lw + wt * (u2 + B * (u1 + B * u0)).
module _ (wt lv v1 v2 lw u0 u1 u2 : ℕ) (lv_lt : lv < wt) (lw_lt : lw < wt)
    (v1_limb : v1 < limb_base) (v1_high : 2 ^ 31 ≤ v1) (v2_limb : v2 < limb_base)
    (u1_limb : u1 < limb_base) (u2_limb : u2 < limb_base)
    (below : lw + wt * (u2 + limb_base * (u1 + limb_base * u0))
      < limb_base * (lv + wt * (v2 + limb_base * v1))) where
  abbrev pub v : ℕ
  v = lv + wt * (v2 + limb_base * v1)

  abbrev pub w : ℕ
  w = lw + wt * (u2 + limb_base * (u1 + limb_base * u0))

  -- The top limb of the window is at most the divisor's.
  top_le : u0 ≤ v1
  top_le = elim (dec_le u0 v1) [
    | yes h ↦ h
    | no h ↦
        let more : wt * (v1 + 1) ≤ wt * u0 =
          mul_le_mul wt wt (v1 + 1) u0 (omega arith) (omega arith) in
        let v2_wt : wt * v2 ≤ wt * (limb_base - 1) =
          mul_le_mul wt wt v2 (limb_base - 1) (omega arith) (omega arith) in
        absurd (omega arith)
  ]

  num_lem : join32 u0 u1 ≡ u0 * limb_base + u1
  num_lem = let le = top_le in omega arith

  over_lem :
      (q r : ℕ)
      → q * v1 + r ≡ u0 * limb_base + u1
      → (limb_base ≤ q) ⊎ (r * limb_base + u2 < q * v2)
      → w < q * v
  over_lem q r e (inl big) =
      let le =
        mul_le_mul limb_base q (lv + wt * (v2 + limb_base * v1)) (lv + wt * (v2 + limb_base * v1))
          big (omega arith) in
      omega arith
  over_lem q r e (inr more) =
      let a : wt * (r * limb_base + u2 + 1) ≤ wt * (q * v2) =
        mul_le_mul wt wt (r * limb_base + u2 + 1) (q * v2) (omega arith) (omega arith) in
      let b : wt * (q * v1 + r) ≡ wt * (u0 * limb_base + u1) = ap (λ (t : ℕ). wt * t) e in
      omega arith

  first_lem : w < (join32 u0 u1 / v1 + 1) * v
  first_lem =
      let q : ℕ = join32 u0 u1 / v1 in
      let n : ℕ = u0 * limb_base + u1 in
      let up : n + 1 ≤ (q + 1) * v1 = omega (
        arith,
        num_lem,
        div-add-mod' (join32 u0 u1) v1,
        mod-lt (join32 u0 u1) {m = v1} (omega arith),
      ) in
      let a : wt * limb_base * (n + 1) ≤ wt * limb_base * ((q + 1) * v1) =
        mul_le_mul (wt * limb_base) (wt * limb_base) (n + 1) ((q + 1) * v1) (omega arith) up in
      let b : wt * u2 ≤ wt * (limb_base - 1) =
        mul_le_mul wt wt u2 (limb_base - 1) (omega arith) (omega arith) in
      omega arith

  -- The estimate is the quotient digit or one more.
  pub estimate_lem :
      (estimate v1 v2 u0 u1 u2 < limb_base)
      × (estimate v1 v2 u0 u1 u2 * v < w + v)
      × (w < (estimate v1 v2 u0 u1 u2 + 1) * v)
  unfolding estimate
  estimate_lem =
      let n : ℕ = join32 u0 u1 in
      let le = top_le in
      let (r, e, small, fine, up) =
        correct_lem v1 v2 u2 (u0 * limb_base + u1) w v v1_limb v1_high v2_limb u2_limb (omega arith)
          over_lem 2 (n / v1) (n % v1) (omega (arith, num_lem, div-add-mod' n v1))
          (omega (arith, mod-lt n {m = v1} (omega arith))) (omega arith) first_lem in
      (small, close _ r e small fine, up)
    where
      close :
          (q r : ℕ)
          → q * v1 + r ≡ u0 * limb_base + u1
          → q < limb_base
          → q * v2 ≤ r * limb_base + u2
          → q * v < w + v
      close q r e small fine =
          let a : q * lv ≤ (limb_base - 1) * wt =
            mul_le_mul q (limb_base - 1) lv wt (omega arith) (omega arith) in
          let b : wt * (q * v2) ≤ wt * (r * limb_base + u2) =
            mul_le_mul wt wt _ _ (omega arith) fine in
          let c : wt * (q * v1 + r) ≡ wt * (u0 * limb_base + u1) = ap (λ (t : ℕ). wt * t) e in
          let d : wt * 2 ^ 31 ≤ wt * v1 = mul_le_mul wt wt (2 ^ 31) v1 (omega arith) v1_high in
          omega arith
