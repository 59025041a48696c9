-- ===== src/BigRational/Compare.antt =====
-- operator== and operator<=> of BigRational: equality and order of the fractions.
use nimble_cas.Prelude.{◌*◌, ◌≡◌, ◌↔◌, ap, ap₂, sym, ◌∙◌, Bool, true, ◌&&◌, arith}
use nimble_cas.Prelude.Int.{pos, nat_abs, ◌*ℤ◌, nat_abs-*ℤ}
use nimble_cas.BigInt.{eq as int_eq}
use nimble_cas.BigInt.Value.{to_ℤ}
use nimble_cas.BigInt.Arith.{multiply_lem}
use nimble_cas.BigInt.Order.{compare_ℤ, cmp_lem, eq_iff}
use nimble_cas.BigRational.{BigRational, cmp, eq}
use nimble_cas.BigRational.Exact.{lowest_terms_unique}
use nimble_cas.BigRational.Reduced.{IsReduced, *ℤ-cancel}

-- For fractions in lowest terms, operator<=> is the order of the integers a.num * b.den and b.num
-- * a.den.
pub rational-cmp :
    (a b : BigRational)
    → IsReduced a
    → IsReduced b
    → cmp a b ≡ compare_ℤ (to_ℤ a.num *ℤ to_ℤ b.den) (to_ℤ b.num *ℤ to_ℤ a.den)
unfolding cmp
rational-cmp a b ha hb =
    let l = multiply_lem a.num b.den ha.num_valid hb.den_valid in
    let r = multiply_lem b.num a.den hb.num_valid ha.den_valid in
    cmp_lem _ _ l.0 r.0 ∙ ap₂ compare_ℤ l.1 r.1

and-intro : (p q : Bool) → p ≡ true → q ≡ true → (p && q) ≡ true
and-intro p q hp hq = ground arith

and-elim : (p q : Bool) → (p && q) ≡ true → (p ≡ true) × (q ≡ true)
and-elim p q h = ground arith

-- For fractions in lowest terms, the fieldwise operator== is true exactly when the cross products
-- are equal, so exactly when the fractions are.
pub rational-eq_iff :
    (a b : BigRational)
    → IsReduced a
    → IsReduced b
    → (eq a b ≡ true) ↔ (to_ℤ a.num *ℤ to_ℤ b.den ≡ to_ℤ b.num *ℤ to_ℤ a.den)
unfolding eq
rational-eq_iff a b ha hb = (to, from)
  where
    nums : (int_eq a.num b.num ≡ true) ↔ (to_ℤ a.num ≡ to_ℤ b.num)
    nums = eq_iff a.num b.num ha.num_valid hb.num_valid

    dens : (int_eq a.den b.den ≡ true) ↔ (to_ℤ a.den ≡ to_ℤ b.den)
    dens = eq_iff a.den b.den ha.den_valid hb.den_valid

    to :
        (int_eq a.num b.num && int_eq a.den b.den) ≡ true
        → to_ℤ a.num *ℤ to_ℤ b.den ≡ to_ℤ b.num *ℤ to_ℤ a.den
    to h = let p = and-elim _ _ h in ap₂ ◌*ℤ◌ (nums.0 p.0) (sym (dens.0 p.1))

    from :
        to_ℤ a.num *ℤ to_ℤ b.den ≡ to_ℤ b.num *ℤ to_ℤ a.den
        → (int_eq a.num b.num && int_eq a.den b.den) ≡ true
    from e =
        let sizes : nat_abs (to_ℤ a.num) * hb.below ≡ nat_abs (to_ℤ b.num) * ha.below =
          ap (λ t. nat_abs (to_ℤ a.num) * nat_abs t) (sym hb.den_is)
          ∙ sym (nat_abs-*ℤ (to_ℤ a.num) (to_ℤ b.den))
          ∙ ap nat_abs e
          ∙ nat_abs-*ℤ (to_ℤ b.num) (to_ℤ a.den)
          ∙ ap (λ t. nat_abs (to_ℤ b.num) * nat_abs t) ha.den_is in
        let same = lowest_terms_unique _ ha.below _ hb.below ha.coprime hb.coprime sizes in
        let den : to_ℤ a.den ≡ to_ℤ b.den = ha.den_is ∙ ap pos same ∙ sym hb.den_is in
        let num : to_ℤ a.num ≡ to_ℤ b.num =
          *ℤ-cancel (to_ℤ a.num) (to_ℤ b.num) hb.below hb.den_pos (
            ap (λ t. to_ℤ a.num *ℤ t) (sym hb.den_is)
            ∙ e
            ∙ ap (λ t. to_ℤ b.num *ℤ t) (den ∙ hb.den_is)) in
        and-intro _ _ (nums.1 num) (dens.1 den)
