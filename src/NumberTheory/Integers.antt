-- ===== src/NumberTheory/Integers.antt =====
-- Laws of the integers that Bezout's identity and residues use.
use native.Mathlib.Nat.{mod_self, mod-eq_of_lt}
use nimble_cas.Prelude.{ℕ, zero, suc, ◌+◌, ◌-◌, ◌*◌, ◌%◌, ◌<◌, ◌≡◌, ap, ap₂, sym, ◌∙◌, arith}
use nimble_cas.Prelude.Int.{
  ℤ, pos, negsuc, pos_part, neg_part, neg_ℤ, ◌+ℤ◌, ◌-ℤ◌, ◌*ℤ◌, eq_of_parts, +ℤ_parts, -ℤ_parts,
  mul_laws, *ℤ_assoc, *ℤ_comm,
}
use nimble_cas.BigInt.Division.{residue, mod_unique}

pub *ℤ-add : (a b c : ℤ) → a *ℤ (b +ℤ c) ≡ a *ℤ b +ℤ a *ℤ c
*ℤ-add a b c =
    let p = +ℤ_parts b c in
    let l = ap (λ (t : ℕ). pos_part a * t) p in
    let r = ap (λ (t : ℕ). neg_part a * t) p in
    let s = simp mul_laws at (+ℤ_parts (a *ℤ b) (a *ℤ c)) in
    eq_of_parts _ _ (simp mul_laws (omega arith))

pub *ℤ-sub : (a b c : ℤ) → a *ℤ (b -ℤ c) ≡ a *ℤ b -ℤ a *ℤ c
*ℤ-sub a b c =
    let p = -ℤ_parts b c in
    let l = ap (λ (t : ℕ). pos_part a * t) p in
    let r = ap (λ (t : ℕ). neg_part a * t) p in
    let s = simp mul_laws at (-ℤ_parts (a *ℤ b) (a *ℤ c)) in
    eq_of_parts _ _ (simp mul_laws (omega arith))

pub sub-add-sub : (w x y z : ℤ) → (w -ℤ x) +ℤ (y -ℤ z) ≡ (w +ℤ y) -ℤ (x +ℤ z)
sub-add-sub w x y z = eq_of_parts _ _ (
    omega (
      arith,
      -ℤ_parts w x,
      -ℤ_parts y z,
      +ℤ_parts (w -ℤ x) (y -ℤ z),
      +ℤ_parts w y,
      +ℤ_parts x z,
      -ℤ_parts (w +ℤ y) (x +ℤ z),
    ))

-- A round of extended Euclid keeps Bezout's identity.
pub bezout_step :
    (a b q os s ot t or r : ℤ)
    → a *ℤ os +ℤ b *ℤ ot ≡ or
    → a *ℤ s +ℤ b *ℤ t ≡ r
    → a *ℤ (os -ℤ q *ℤ s) +ℤ b *ℤ (ot -ℤ q *ℤ t) ≡ or -ℤ q *ℤ r
bezout_step a b q os s ot t or r h k =
    ap₂ ◌+ℤ◌ (*ℤ-sub a os (q *ℤ s)) (*ℤ-sub b ot (q *ℤ t))
    ∙ sub-add-sub (a *ℤ os) (a *ℤ (q *ℤ s)) (b *ℤ ot) (b *ℤ (q *ℤ t))
    ∙ ap₂ ◌-ℤ◌ h
        (ap₂ ◌+ℤ◌ (swap a s) (swap b t) ∙ sym (*ℤ-add q (a *ℤ s) (b *ℤ t)) ∙ ap (λ u. q *ℤ u) k)
  where
    swap : (c d : ℤ) → c *ℤ (q *ℤ d) ≡ q *ℤ (c *ℤ d)
    swap c d = sym (*ℤ_assoc c q d) ∙ ap (λ u. u *ℤ d) (*ℤ_comm c q) ∙ *ℤ_assoc q c d

pub sub_of_sum : (a b r : ℤ) → a ≡ b +ℤ r → a -ℤ b ≡ r
sub_of_sum a b r e =
    eq_of_parts _ _ (omega (arith, -ℤ_parts a b, +ℤ_parts b r, ap pos_part e, ap neg_part e))

pub neg_ℤ-*ℤ : (a b : ℤ) → a *ℤ neg_ℤ b ≡ neg_ℤ (a *ℤ b)
unfolding ◌*ℤ◌
neg_ℤ-*ℤ a b = ground arith

pub neg_ℤ-+ℤ : (a b : ℤ) → neg_ℤ a +ℤ neg_ℤ b ≡ neg_ℤ (a +ℤ b)
unfolding ◌+ℤ◌
neg_ℤ-+ℤ a b = ground arith

pub multiple_parts :
    (a c : ℤ) (v k : ℕ)
    → a ≡ c *ℤ pos k +ℤ pos v
    → pos_part a + neg_part c * k ≡ neg_part a + pos_part c * k + v
multiple_parts a c v k e =
    let p = simp mul_laws at (+ℤ_parts (c *ℤ pos k) (pos v)) in
    omega (arith, ap pos_part e, ap neg_part e)

residue_below : (n b v k : ℕ) → n + v ≡ b * k + k → v < k → (k - n % k) % k ≡ v
residue_below n b zero k e h =
    let z : n % k ≡ 0 = sym (mod_unique n k (suc b) 0 (omega arith) h) in
    let all : k - 0 ≡ k = omega arith in rw (z, all) (mod_self k)
residue_below n b (suc v) k e h =
    let z : n % k ≡ k - suc v = sym (mod_unique n k b (k - suc v) (omega arith) (omega arith)) in
    let all : k - (k - suc v) ≡ suc v = omega arith in rw (z, all) (mod-eq_of_lt h)

-- A number below k that differs from a by a multiple of k is the residue of a.
pub residue_unique : (a c : ℤ) (v k : ℕ) → a ≡ c *ℤ pos k +ℤ pos v → v < k → residue a k ≡ v
residue_unique (pos n) (pos b) v k e h =
    sym (mod_unique n k b v (omega (arith, multiple_parts (pos n) (pos b) v k e)) h)
residue_unique (pos n) (negsuc b) v k e h =
    absurd (omega (arith, multiple_parts (pos n) (negsuc b) v k e))
residue_unique (negsuc n) (pos b) v k e h =
    absurd (omega (arith, multiple_parts (negsuc n) (pos b) v k e))
residue_unique (negsuc n) (negsuc b) v k e h =
    residue_below (suc n) b v k (omega (arith, multiple_parts (negsuc n) (negsuc b) v k e)) h
