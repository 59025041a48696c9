-- ===== src/NumberTheory/Euclid.antt =====
-- extended_gcd: Bezout's identity and the greatest common divisor, with fuel enough.
use nimble_cas.Prelude.{
  ℕ, zero, suc, ◌%◌, ◌<◌, ◌≡◌, ap, ap₂, subst, sym, ◌∙◌, true, false, arith, inl, inr, Bool-cases,
  if◌then◌else◌,
}
use nimble_cas.Prelude.Int.{ℤ, pos, nat_abs, neg_ℤ, ◌+ℤ◌, ◌-ℤ◌, ◌*ℤ◌}
use nimble_cas.Magnitude.Value.{value}
use nimble_cas.BigInt.{
  BigInt, zero_int, from_u64, is_empty, is_zero, negate, subtract, multiply, divmod,
}
use nimble_cas.BigInt.Value.{
  signed, to_ℤ, IsValid, from_u64_lem, negate_lem, nat_abs-signed, neg_ℤ-signed,
}
use nimble_cas.BigInt.Arith.{Is, subtract_lem, multiply_lem, zero_int-Is}
use nimble_cas.BigInt.Division.{divmod_sizes, mod_unique, zero-cases}
use nimble_cas.BigInt.Gcd.{IsGcd, IsGcd-zero, IsGcd-step}
use nimble_cas.NumberTheory.{ExtGcd, first_or_zero, euclid_loop, normalise_triple, extended_gcd}
use nimble_cas.NumberTheory.Integers.{bezout_step, sub_of_sum, neg_ℤ-*ℤ, neg_ℤ-+ℤ}

-- A row of the algorithm: a * s + b * t = r.
pub record Row (a b : ℤ) (r s t : BigInt) : Type 0 where
  pub r_valid : IsValid r
  pub s_valid : IsValid s
  pub t_valid : IsValid t
  pub bezout : a *ℤ to_ℤ s +ℤ b *ℤ to_ℤ t ≡ to_ℤ r

-- old - q * x, on values.
step_value :
    (q x old : BigInt)
    → IsValid q
    → IsValid x
    → IsValid old
    → Is (subtract old (multiply q x)) (to_ℤ old -ℤ to_ℤ q *ℤ to_ℤ x)
step_value q x old hq hx ho =
    let p = multiply_lem q x hq hx in
    let s = subtract_lem old (multiply q x) ho p.0 in (s.0, s.1 ∙ ap (λ u. to_ℤ old -ℤ u) p.1)

-- The next row.
Row-step :
    (a b : ℤ) (q old_r r old_s s old_t t : BigInt)
    → IsValid q
    → Row a b old_r old_s old_t
    → Row a b r s t
    → Row a b
        (subtract old_r (multiply q r))
        (subtract old_s (multiply q s))
        (subtract old_t (multiply q t))
Row-step a b q old_r r old_s s old_t t hq ho hr =
    let nr = step_value q r old_r hq hr.r_valid ho.r_valid in
    let ns = step_value q s old_s hq hr.s_valid ho.s_valid in
    let nt = step_value q t old_t hq hr.t_valid ho.t_valid in
    record {
      r_valid = nr.0;
      s_valid = ns.0;
      t_valid = nt.0;
      bezout =
          ap₂ (λ u v. a *ℤ u +ℤ b *ℤ v) ns.1 nt.1
          ∙ bezout_step a b (to_ℤ q) (to_ℤ old_s) (to_ℤ s) (to_ℤ old_t) (to_ℤ t) (to_ℤ old_r)
              (to_ℤ r) ho.bezout hr.bezout
          ∙ sym nr.1;
    }

-- What a result owes: a row whose g is a greatest common divisor of m and n.
abbrev pub IsBezout : ℤ → ℤ → ℕ → ℕ → ExtGcd → Type 0
IsBezout a b m n e = Row a b e.g e.x e.y × IsGcd m n (nat_abs (to_ℤ e.g))

-- The loop after a round with quotient q.
abbrev after_round : ℕ → BigInt → BigInt → BigInt → BigInt → BigInt → BigInt → BigInt → ExtGcd
after_round fuel q old_r r old_s s old_t t =
    euclid_loop fuel r (subtract old_r (multiply q r)) s (subtract old_s (multiply q s)) t
      (subtract old_t (multiply q t))

euclid_loop-end :
    (fuel : ℕ) (old_r r old_s s old_t t : BigInt)
    → is_empty r.mag ≡ true
    → euclid_loop (suc fuel) old_r r old_s s old_t t ≡ record { g = old_r; x = old_s; y = old_t }
unfolding euclid_loop is_zero
euclid_loop-end fuel old_r r old_s s old_t t h =
    ap
      (λ b.
        if b
        then record { g = old_r; x = old_s; y = old_t }
        else after_round fuel (first_or_zero (divmod old_r r)) old_r r old_s s old_t t)
      h

euclid_loop-round :
    (fuel : ℕ) (old_r r old_s s old_t t q : BigInt)
    → is_empty r.mag ≡ false
    → first_or_zero (divmod old_r r) ≡ q
    → euclid_loop (suc fuel) old_r r old_s s old_t t ≡ after_round fuel q old_r r old_s s old_t t
unfolding euclid_loop is_zero
euclid_loop-round fuel old_r r old_s s old_t t q h e =
    ap
      (λ b.
        if b
        then record { g = old_r; x = old_s; y = old_t }
        else after_round fuel (first_or_zero (divmod old_r r)) old_r r old_s s old_t t)
      h
    ∙ ap (λ u. after_round fuel u old_r r old_s s old_t t) e

euclid_loop_lem :
    (fuel : ℕ) (a b : ℤ) (old_r r old_s s old_t t : BigInt)
    → nat_abs (to_ℤ r) < fuel
    → Row a b old_r old_s old_t
    → Row a b r s t
    → IsBezout a b
        (nat_abs (to_ℤ old_r))
        (nat_abs (to_ℤ r))
        (euclid_loop fuel old_r r old_s s old_t t)
euclid_loop_lem zero a b old_r r old_s s old_t t h ho hr = absurd (omega arith)
euclid_loop_lem (suc fuel) a b old_r r old_s s old_t t h ho hr = elim (zero-cases r hr.r_valid) [
  | inl z ↦
      subst (IsBezout a b (nat_abs (to_ℤ old_r)) (nat_abs (to_ℤ r)))
        (sym (euclid_loop-end fuel old_r r old_s s old_t t z.0))
        (
          ho,
          subst (λ n. IsGcd (nat_abs (to_ℤ old_r)) n (nat_abs (to_ℤ old_r))) (sym (ap nat_abs z.1))
              (IsGcd-zero _),
        )
  | inr nz ↦
      let (q, rem, e, hq, hrem, t0, sizes) = divmod_sizes old_r r ho.r_valid hr.r_valid nz.1 in
      let next_row = Row-step a b q old_r r old_s s old_t t hq ho hr in
      let next_r = step_value q r old_r hq hr.r_valid ho.r_valid in
      let is_rem : to_ℤ (subtract old_r (multiply q r)) ≡ to_ℤ rem =
        next_r.1 ∙ sub_of_sum _ _ _ t0.0 in
      let size : nat_abs (to_ℤ (subtract old_r (multiply q r)))
          ≡ nat_abs (to_ℤ old_r) % nat_abs (to_ℤ r) =
        ap nat_abs is_rem ∙ mod_unique _ _ (nat_abs (to_ℤ q)) (nat_abs (to_ℤ rem)) sizes t0.1 in
      let g : ℕ = nat_abs (to_ℤ (after_round fuel q old_r r old_s s old_t t).g) in
      let ih =
        euclid_loop_lem fuel a b r (subtract old_r (multiply q r)) s (subtract old_s (multiply q s))
          t (subtract old_t (multiply q t)) (omega (arith, ap nat_abs is_rem, t0.1)) hr next_row in
      subst (IsBezout a b (nat_abs (to_ℤ old_r)) (nat_abs (to_ℤ r)))
        (sym (euclid_loop-round fuel old_r r old_s s old_t t q nz.0 (ap first_or_zero e)))
        (
          ih.0,
          IsGcd-step (nat_abs (to_ℤ old_r)) (nat_abs (to_ℤ r)) _
              (subst (λ n. IsGcd (nat_abs (to_ℤ r)) n g) size ih.1),
        )
]

-- Negating the triple keeps Bezout's identity.
negate-Row :
    (a b : ℤ) (r s t : BigInt)
    → Row a b r s t
    → Row a b (negate r) (negate s) (negate t) × (to_ℤ (negate r) ≡ neg_ℤ (to_ℤ r))
negate-Row a b r s t h =
    let nr = negate_lem r h.r_valid in
    let ns = negate_lem s h.s_valid in
    let nt = negate_lem t h.t_valid in
    (
      record {
        r_valid = nr.0;
        s_valid = ns.0;
        t_valid = nt.0;
        bezout =
            ap₂ (λ u v. a *ℤ u +ℤ b *ℤ v) ns.1 nt.1
            ∙ ap₂ ◌+ℤ◌ (neg_ℤ-*ℤ a (to_ℤ s)) (neg_ℤ-*ℤ b (to_ℤ t))
            ∙ neg_ℤ-+ℤ (a *ℤ to_ℤ s) (b *ℤ to_ℤ t)
            ∙ ap neg_ℤ h.bezout
            ∙ sym nr.1;
      },
      nr.1,
    )

-- The triple after the sign is fixed.
normalise_triple_lem :
    (a b : ℤ) (m n : ℕ) (e : ExtGcd)
    → IsBezout a b m n e
    → let f = normalise_triple e in Row a b f.g f.x f.y × (k : ℕ) × (to_ℤ f.g ≡ pos k) × IsGcd m n k
normalise_triple_lem a b m n e h = elim (Bool-cases e.g.negative) [
  | inl s ↦
      let p = negate-Row a b e.g e.x e.y h.0 in
      let size : to_ℤ (negate e.g) ≡ pos (value e.g.mag) =
        p.1 ∙ ap neg_ℤ (ap (λ u. signed u (value e.g.mag)) s) ∙ neg_ℤ-signed true (value e.g.mag) in
      subst (λ f. Row a b f.g f.x f.y × (k : ℕ) × (to_ℤ f.g ≡ pos k) × IsGcd m n k)
        (sym
          (ap (λ u. if u then record { g = negate e.g; x = negate e.x; y = negate e.y } else e) s))
        (
          p.0,
          value e.g.mag,
          size,
          subst (IsGcd m n) (nat_abs-signed e.g.negative (value e.g.mag)) h.1,
        )
  | inr s ↦
      subst (λ f. Row a b f.g f.x f.y × (k : ℕ) × (to_ℤ f.g ≡ pos k) × IsGcd m n k)
        (sym
          (ap (λ u. if u then record { g = negate e.g; x = negate e.x; y = negate e.y } else e) s))
        (
          h.0,
          value e.g.mag,
          ap (λ u. signed u (value e.g.mag)) s,
          subst (IsGcd m n) (nat_abs-signed e.g.negative (value e.g.mag)) h.1,
        )
]

one_zero : (a b : ℤ) → (a *ℤ pos 1 +ℤ b *ℤ pos 0 ≡ a) × (a *ℤ pos 0 +ℤ b *ℤ pos 1 ≡ b)
unfolding ◌+ℤ◌ ◌*ℤ◌
one_zero a b = (ground arith, ground arith)

-- For valid operands of any signs, extended_gcd returns valid g, x and y with a * x + b * y = g
-- exactly, where g stands for a number that is a greatest common divisor of |a| and |b|.
pub extended_gcd_lem :
    (a b : BigInt)
    → IsValid a
    → IsValid b
    → let e = extended_gcd a b in
      Row (to_ℤ a) (to_ℤ b) e.g e.x e.y
      × (g : ℕ) × (to_ℤ e.g ≡ pos g)
      × IsGcd (nat_abs (to_ℤ a)) (nat_abs (to_ℤ b)) g
unfolding extended_gcd
extended_gcd_lem a b ha hb =
    let one = from_u64_lem 1 (omega arith) in
    let start : Row (to_ℤ a) (to_ℤ b) a (from_u64 1) zero_int = record {
      r_valid = ha;
      s_valid = one.0;
      t_valid = zero_int-Is.0;
      bezout = ap (λ u. to_ℤ a *ℤ u +ℤ to_ℤ b *ℤ pos 0) one.1 ∙ (one_zero (to_ℤ a) (to_ℤ b)).0;
    } in
    let second : Row (to_ℤ a) (to_ℤ b) b zero_int (from_u64 1) = record {
      r_valid = hb;
      s_valid = zero_int-Is.0;
      t_valid = one.0;
      bezout = ap (λ u. to_ℤ a *ℤ pos 0 +ℤ to_ℤ b *ℤ u) one.1 ∙ (one_zero (to_ℤ a) (to_ℤ b)).1;
    } in
    normalise_triple_lem (to_ℤ a) (to_ℤ b) _ _ _ (
      euclid_loop_lem (suc (value b.mag)) (to_ℤ a) (to_ℤ b) a b (from_u64 1) zero_int zero_int
        (from_u64 1) (omega (arith, nat_abs-signed b.negative (value b.mag))) start second)
