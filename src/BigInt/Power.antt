-- ===== src/BigInt/Power.antt =====
-- pow is exponentiation: the squaring loop ends within 64 rounds for every 64-bit exponent.
use native.Mathlib.Nat.{pow-suc}
use nimble_cas.Prelude.{
  ℕ, zero, suc, ◌+◌, ◌/◌, ◌%◌, ◌^◌, ◌<◌, ◌≡◌, refl, ap, sym, ◌∙◌, arith, if◌then◌else◌, ◌==◌,
  ==_iff, inl, inr, Bool-cases,
}
use nimble_cas.Prelude.Int.{ℤ, pos, ◌*ℤ◌, *ℤ_assoc, pos_one-*ℤ, *ℤ-pos_one}
use nimble_cas.BigInt.{BigInt, from_u64, multiply, pow_loop, pow}
use nimble_cas.BigInt.Value.{to_ℤ, IsValid, from_u64_lem}
use nimble_cas.BigInt.Arith.{Is, multiply_lem}

-- a to the n-th power.
abbrev pub pow_ℤ : ℤ → ℕ → ℤ
pow_ℤ a zero = pos 1
pow_ℤ a (suc n) = a *ℤ pow_ℤ a n

pub pow_ℤ-add : (a : ℤ) (m n : ℕ) → pow_ℤ a (m + n) ≡ pow_ℤ a m *ℤ pow_ℤ a n
pow_ℤ-add a zero n = let e : zero + n ≡ n = omega arith in rw e (sym (pos_one-*ℤ (pow_ℤ a n)))
pow_ℤ-add a (suc m) n =
    let e : suc m + n ≡ suc (m + n) = omega arith in
    rw e (ap (λ t. a *ℤ t) (pow_ℤ-add a m n) ∙ sym (*ℤ_assoc a (pow_ℤ a m) (pow_ℤ a n)))

-- The square of the base halves the exponent.
pow_ℤ-square : (a : ℤ) (n : ℕ) → pow_ℤ (a *ℤ a) n ≡ pow_ℤ a (n + n)
pow_ℤ-square a zero = refl
pow_ℤ-square a (suc n) =
    let e : suc n + suc n ≡ suc (suc (n + n)) = omega arith in
    rw e (ap (λ t. a *ℤ a *ℤ t) (pow_ℤ-square a n) ∙ *ℤ_assoc a a (pow_ℤ a (n + n)))

pow_ℤ_halves : (a : ℤ) (n : ℕ) → pow_ℤ a (n % 2) *ℤ pow_ℤ (a *ℤ a) (n / 2) ≡ pow_ℤ a n
pow_ℤ_halves a n =
    ap (λ t. pow_ℤ a (n % 2) *ℤ t) (pow_ℤ-square a (n / 2))
    ∙ sym (pow_ℤ-add a (n % 2) (n / 2 + n / 2))
    ∙ ap (pow_ℤ a) (omega arith)

-- The factor that a round takes into the result.
odd_step :
    (exp : ℕ) (result base : BigInt)
    → IsValid result
    → IsValid base
    → Is
        (if exp % 2 == 0 then result else multiply result base)
        (to_ℤ result *ℤ pow_ℤ (to_ℤ base) (exp % 2))
odd_step exp result base hr hb = elim (Bool-cases (exp % 2 == 0)) [
  | inl even ↦
      let e = (==_iff (exp % 2) 0).0 even in rw even (hr, rw e (sym (*ℤ-pos_one (to_ℤ result))))
  | inr odd ↦
      let e : exp % 2 ≡ 1 = ground arith in
      let m = multiply_lem result base hr hb in
      rw odd (m.0, m.1 ∙ rw e (ap (λ t. to_ℤ result *ℤ t) (sym (*ℤ-pos_one (to_ℤ base)))))
]

-- The base is squared unless it is not needed any more.
square_step :
    (exp : ℕ) (base : BigInt)
    → IsValid base
    → let base' = if exp / 2 == 0 then base else multiply base base in
      IsValid base' × (pow_ℤ (to_ℤ base') (exp / 2) ≡ pow_ℤ (to_ℤ base *ℤ to_ℤ base) (exp / 2))
square_step exp base hb = elim (Bool-cases (exp / 2 == 0)) [
  | inl last ↦ let e = (==_iff (exp / 2) 0).0 last in rw last (hb, rw e refl)
  | inr more ↦
      let m = multiply_lem base base hb hb in rw more (m.0, ap (λ t. pow_ℤ t (exp / 2)) m.1)
]

halved : (fuel exp : ℕ) → exp < 2 ^ suc fuel → exp / 2 < 2 ^ fuel
halved fuel exp h = let e = pow-suc 2 fuel in omega arith

pow_loop_lem :
    (fuel exp : ℕ) (result base : BigInt)
    → exp < 2 ^ fuel
    → IsValid result
    → IsValid base
    → Is (pow_loop fuel exp result base) (to_ℤ result *ℤ pow_ℤ (to_ℤ base) exp)
unfolding pow_loop
pow_loop_lem zero exp result base h hr hb =
    let e : exp ≡ 0 = omega arith in (hr, rw e (sym (*ℤ-pos_one (to_ℤ result))))
pow_loop_lem (suc fuel) exp result base h hr hb =
    let next = pow_loop_lem fuel (exp / 2) r b (halved fuel exp h) o.0 s.0 in
    elim (Bool-cases (exp == 0)) [
      | inl done ↦
          let e = (==_iff exp 0).0 done in rw done (hr, rw e (sym (*ℤ-pos_one (to_ℤ result))))
      | inr more ↦ rw more (next.0, next.1 ∙ ap (λ t. t *ℤ pow_ℤ (to_ℤ b) (exp / 2)) o.1 ∙ regroup)
    ]
  where
    r : BigInt
    r = if exp % 2 == 0 then result else multiply result base

    b : BigInt
    b = if exp / 2 == 0 then base else multiply base base

    o : Is r (to_ℤ result *ℤ pow_ℤ (to_ℤ base) (exp % 2))
    o = odd_step exp result base hr hb

    s : IsValid b × (pow_ℤ (to_ℤ b) (exp / 2) ≡ pow_ℤ (to_ℤ base *ℤ to_ℤ base) (exp / 2))
    s = square_step exp base hb

    regroup :
        to_ℤ result *ℤ pow_ℤ (to_ℤ base) (exp % 2) *ℤ pow_ℤ (to_ℤ b) (exp / 2)
        ≡ to_ℤ result *ℤ pow_ℤ (to_ℤ base) exp
    regroup =
        *ℤ_assoc _ _ _
        ∙ ap (λ t. to_ℤ result *ℤ (pow_ℤ (to_ℤ base) (exp % 2) *ℤ t)) s.1
        ∙ ap (λ t. to_ℤ result *ℤ t) (pow_ℤ_halves (to_ℤ base) exp)

-- For a valid base and an exponent below 2^64, pow returns a valid value that stands for the
-- exponent-fold product of the base (64 rounds of the loop are enough).
pub pow_lem :
    (a : BigInt) (exp : ℕ) → exp < 2 ^ 64 → IsValid a → Is (pow a exp) (pow_ℤ (to_ℤ a) exp)
unfolding pow
pow_lem a exp h ha =
    let one = from_u64_lem 1 (omega arith) in
    let p = pow_loop_lem 64 exp (from_u64 1) a h one.0 ha in
    (p.0, p.1 ∙ ap (λ t. t *ℤ pow_ℤ (to_ℤ a) exp) one.1 ∙ pos_one-*ℤ _)
