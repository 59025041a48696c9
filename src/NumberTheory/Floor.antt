-- ===== src/NumberTheory/Floor.antt =====
-- mod_floor is the residue in [0, m), with the quotient that shows it.
use nimble_cas.Prelude.{
  ℕ, zero, suc, ◌-◌, ◌*◌, ◌<◌, ◌≡◌, ◌⊎◌, refl, ap, ap₂, subst, sym, ◌∙◌, true, false, arith, inl,
  inr, Bool-cases, if◌then◌else◌,
}
use nimble_cas.Prelude.Int.{
  ℤ, pos, negsuc, nat_abs, ◌+ℤ◌, ◌-ℤ◌, ◌*ℤ◌, eq_of_parts, +ℤ_parts, -ℤ_parts, mul_laws,
}
use nimble_cas.Core.{ok}
use nimble_cas.Magnitude.Value.{value}
use nimble_cas.BigInt.{BigInt, add}
use nimble_cas.BigInt.Value.{to_ℤ, IsValid, signed}
use nimble_cas.BigInt.Arith.{Is, add_lem}
use nimble_cas.BigInt.Order.{negative_pos}
use nimble_cas.BigInt.Division.{divmod_lem, residue}
use nimble_cas.NumberTheory.{fold_up, mod_floor}
use nimble_cas.NumberTheory.Integers.{residue_unique}

-- The value of a number by its sign.
abbrev Signed : BigInt → Type 0
Signed r =
    ((n : ℕ) × (r.negative ≡ true) × (to_ℤ r ≡ negsuc n))
    ⊎ ((n : ℕ) × (r.negative ≡ false) × (to_ℤ r ≡ pos n))

by_sign : (r : BigInt) → IsValid r → Signed r
by_sign r hr = elim (Bool-cases r.negative) [
  | inl s ↦
      let (n, e) = minus (value r.mag) (negative_pos r hr s) in
      inl (n, s, ap (λ b. signed b (value r.mag)) s ∙ e)
  | inr s ↦ inr (value r.mag, s, ap (λ b. signed b (value r.mag)) s)
]
  where
    minus : (v : ℕ) → 0 < v → (n : ℕ) × (signed true v ≡ negsuc n)
    minus zero h = absurd (omega arith)
    minus (suc v) h = (v, refl)

folded : (n k : ℕ) → suc n < k → negsuc n +ℤ pos k ≡ pos (k - suc n)
unfolding ◌+ℤ◌
folded n k h = ground arith

one_less :
    (q : ℤ) (n k : ℕ)
    → suc n < k
    → q *ℤ pos k +ℤ negsuc n ≡ (q -ℤ pos 1) *ℤ pos k +ℤ pos (k - suc n)
one_less q n k h =
    let l = simp mul_laws at (+ℤ_parts (q *ℤ pos k) (negsuc n)) in
    let r = simp mul_laws at (+ℤ_parts ((q -ℤ pos 1) *ℤ pos k) (pos (k - suc n))) in
    let scaled = ap (λ (t : ℕ). t * k) (-ℤ_parts q (pos 1)) in eq_of_parts _ _ (omega arith)

-- What the fold does: the value in [0, k) that differs from x by a multiple of k.
fold_up_lem :
    (m q r : BigInt) (x : ℤ) (k : ℕ)
    → IsValid m
    → IsValid r
    → to_ℤ m ≡ pos k
    → x ≡ to_ℤ q *ℤ pos k +ℤ to_ℤ r
    → nat_abs (to_ℤ r) < k
    → (c : ℤ) × (v : ℕ) × Is (fold_up m (ok (q, r))) (pos v) × (x ≡ c *ℤ pos k +ℤ pos v) × (v < k)
fold_up_lem m q r x k hm hr em e lt = elim (by_sign r hr) [
  | inr (n, s, p) ↦
      let same : fold_up m (ok (q, r)) ≡ r = ap (λ b. if b then add r m else r) s in
      (
        to_ℤ q,
        n,
        subst (λ t. Is t (pos n)) (sym same) (hr, p),
        e ∙ ap (λ t. to_ℤ q *ℤ pos k +ℤ t) p,
        omega (arith, lt, ap nat_abs p),
      )
  | inl (n, s, p) ↦
      let same : fold_up m (ok (q, r)) ≡ add r m = ap (λ b. if b then add r m else r) s in
      let a = add_lem r m hr hm in
      let small : suc n < k = omega (arith, lt, ap nat_abs p) in
      (
        to_ℤ q -ℤ pos 1,
        k - suc n,
        subst (λ t. Is t (pos (k - suc n))) (sym same)
            (a.0, a.1 ∙ ap₂ ◌+ℤ◌ p em ∙ folded n k small),
        e ∙ ap (λ t. to_ℤ q *ℤ pos k +ℤ t) p ∙ one_less (to_ℤ q) n k small,
        omega arith,
      )
]

pub mod_floor_quotient :
    (x m : BigInt) (k : ℕ)
    → IsValid x
    → IsValid m
    → to_ℤ m ≡ pos k
    → 0 < k
    → (c : ℤ) × (v : ℕ) × Is (mod_floor x m) (pos v) × (to_ℤ x ≡ c *ℤ pos k +ℤ pos v) × (v < k)
unfolding mod_floor
mod_floor_quotient x m k hx hm em k_pos =
    let (q, r, e, hq, hr, t) =
      divmod_lem x m hx hm (λ z. absurd (omega (arith, ap nat_abs (sym em ∙ z)))) in
    subst
      (λ d. (c : ℤ) × (v : ℕ) × Is (fold_up m d) (pos v) × (to_ℤ x ≡ c *ℤ pos k +ℤ pos v) × (v < k))
      (sym e)
      (fold_up_lem m q r (to_ℤ x) k hm hr em (t.0 ∙ ap (λ u. to_ℤ q *ℤ u +ℤ to_ℤ r) em)
        (omega (arith, t.1, ap nat_abs em)))

-- For a valid x of any sign and a valid modulus that stands for k above zero, mod_floor returns a
-- valid value that stands for the residue of x modulo k in [0, k).
pub mod_floor_lem :
    (x m : BigInt) (k : ℕ)
    → IsValid x
    → IsValid m
    → to_ℤ m ≡ pos k
    → 0 < k
    → Is (mod_floor x m) (pos (residue (to_ℤ x) k))
mod_floor_lem x m k hx hm em k_pos =
    let p = mod_floor_quotient x m k hx hm em k_pos in
    (p.2.0, p.2.1 ∙ ap pos (sym (residue_unique (to_ℤ x) p.0 p.1 k p.3 p.4)))
