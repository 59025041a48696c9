-- ===== src/BigInt/Division.antt =====
-- divmod is truncated division, and reduce_mod the residue of an integer.
use native.Mathlib.Nat.{mod-eq_of_lt, mod-lt, mul-add-mod_self_right, zero-mod, mod_self}
use nimble_cas.Prelude.{
  ℕ, zero, suc, ◌+◌, ◌-◌, ◌*◌, ◌%◌, ◌≤◌, ◌<◌, ◌≡◌, ◌≢◌, ◌↔◌, ◌⊎◌, refl, ap, sym, ◌∙◌, [], ◌∷◌, Bool,
  true, false, not, arith, if◌then◌else◌, inl, inr, Bool-cases,
}
use nimble_cas.Prelude.Int.{ℤ, pos, negsuc, nat_abs, ◌+ℤ◌, ◌*ℤ◌}
use mathlib.Core.Bool.{false≢true}
use nimble_cas.Core.{ok, err, division_by_zero}
use nimble_cas.Magnitude.{Limbs, mag_sub}
use nimble_cas.Magnitude.Value.{value, IsLimbs}
use nimble_cas.Magnitude.Sum.{value-mag_sub, mag_sub-IsLimbs}
use nimble_cas.Knuth.{mag_divmod}
use nimble_cas.Knuth.Correct.{mag_divmod_lem}
use nimble_cas.BigInt.{BigInt, is_empty, bool_eq, from_mag, divmod, reduce_mod}
use nimble_cas.BigInt.Value.{
  signed, to_ℤ, IsValid, empty-value, nonempty-value, nonempty-ne, nat_abs-signed, signed_zero,
}
use nimble_cas.BigInt.Arith.{Is, from_mag-Is, zero_int-Is}

-- The integer is negative, or zero.
abbrev pub AtMostZero : ℤ → Type 0
AtMostZero (pos n) = n ≡ 0
AtMostZero (negsuc n) = Unit

-- The integer is positive, or zero.
abbrev pub AtLeastZero : ℤ → Type 0
AtLeastZero (pos n) = Unit
AtLeastZero (negsuc n) = ⊥

-- The sign of a remainder is the dividend's: it is on the same side of zero.
abbrev pub SameSide : ℤ → ℤ → Type 0
SameSide (pos n) r = AtLeastZero r
SameSide (negsuc n) r = AtMostZero r

-- C++ division: a = q * d + r, |r| < |d|, and r on the side of a.
abbrev pub Truncated : ℤ → ℤ → ℤ → ℤ → Type 0
Truncated a d q r = (a ≡ q *ℤ d +ℤ r) × (nat_abs r < nat_abs d) × SameSide a r

signed_divmod :
    (s t : Bool) (a d q r : ℕ)
    → q * d + r ≡ a
    → signed s a ≡ signed (not (bool_eq s t)) q *ℤ signed t d +ℤ signed s r
unfolding ◌*ℤ◌ ◌+ℤ◌
signed_divmod s t a d q r e = ground arith

signed-SameSide : (s : Bool) (a r : ℕ) → r ≤ a → SameSide (signed s a) (signed s r)
signed-SameSide true zero r h = let e : r ≡ 0 = omega arith in rw e tt
signed-SameSide true (suc a) zero h = refl
signed-SameSide true (suc a) (suc r) h = tt
signed-SameSide false a r h = tt

-- A divisor that is not zero has limbs.
pub nonzero-mag : (d : BigInt) → to_ℤ d ≢ pos 0 → is_empty d.mag ≡ false
nonzero-mag d ne = elim (Bool-cases (is_empty d.mag)) [
  | inl e ↦ absurd (ne (ap (signed d.negative) (empty-value d.mag e) ∙ signed_zero d.negative))
  | inr e ↦ e
]

pub zero-mag : (d : BigInt) → IsValid d → to_ℤ d ≡ pos 0 → is_empty d.mag ≡ true
zero-mag d hd e = elim (Bool-cases (is_empty d.mag)) [
  | inl z ↦ z
  | inr nz ↦ absurd (
      omega (
        arith,
        nonempty-value d.mag hd.trimmed nz,
        sym (nat_abs-signed d.negative (value d.mag)) ∙ ap nat_abs e,
      ))
]

-- A value is zero exactly when it has no limbs.
pub zero-cases :
    (a : BigInt)
    → IsValid a
    → ((is_empty a.mag ≡ true) × (to_ℤ a ≡ pos 0)) ⊎ ((is_empty a.mag ≡ false) × (to_ℤ a ≢ pos 0))
zero-cases a ha = elim (Bool-cases (is_empty a.mag)) [
  | inl z ↦ inl (z, ap (signed a.negative) (empty-value a.mag z) ∙ signed_zero a.negative)
  | inr nz ↦ inr (nz, λ e. absurd (false≢true (sym nz ∙ zero-mag a ha e)))
]

-- The quotient and the remainder, with the division of the absolute values.
pub divmod_sizes :
    (a d : BigInt)
    → IsValid a
    → IsValid d
    → to_ℤ d ≢ pos 0
    → (q : BigInt) × (r : BigInt) × (divmod a d ≡ ok (q, r))
      × IsValid q
      × IsValid r
      × Truncated (to_ℤ a) (to_ℤ d) (to_ℤ q) (to_ℤ r)
      × (nat_abs (to_ℤ q) * nat_abs (to_ℤ d) + nat_abs (to_ℤ r) ≡ nat_abs (to_ℤ a))
unfolding divmod
divmod_sizes a d ha hd ne =
    let some_limb = nonzero-mag d ne in
    let p =
      mag_divmod_lem a.mag d.mag ha.limbs hd.limbs ha.trimmed hd.trimmed
        (nonempty-ne d.mag some_limb) in
    let qm : Limbs = (mag_divmod a.mag d.mag).0 in
    let rm : Limbs = (mag_divmod a.mag d.mag).1 in
    let s : Bool = not (bool_eq a.negative d.negative) in
    let q = from_mag-Is qm s (signed s (value qm)) p.2 refl in
    let r = from_mag-Is rm a.negative (signed a.negative (value rm)) p.4 refl in
    (
      from_mag qm s,
      from_mag rm a.negative,
      rw some_limb refl,
      q.0,
      r.0,
      rw (q.1, r.1)
          (
            signed_divmod a.negative d.negative (value a.mag) (value d.mag) (value qm) (value rm)
                p.0,
            rw (nat_abs-signed, nat_abs-signed) p.1,
            signed-SameSide a.negative (value a.mag) (value rm) (omega arith),
          ),
      rw (q.1, r.1) (rw (nat_abs-signed, nat_abs-signed, nat_abs-signed, nat_abs-signed) p.0),
    )

-- For valid operands and a divisor that is not zero, divmod returns a quotient and a remainder,
-- both valid, that are C++'s truncated division: a = q * d + r, |r| < |d|, and r is zero or has
-- the sign of a.
pub divmod_lem :
    (a d : BigInt)
    → IsValid a
    → IsValid d
    → to_ℤ d ≢ pos 0
    → (q : BigInt) × (r : BigInt) × (divmod a d ≡ ok (q, r))
      × IsValid q
      × IsValid r
      × Truncated (to_ℤ a) (to_ℤ d) (to_ℤ q) (to_ℤ r)
divmod_lem a d ha hd ne =
    let (q, r, e, hq, hr, t, sizes) = divmod_sizes a d ha hd ne in (q, r, e, hq, hr, t)

-- For a valid divisor, divmod returns division_by_zero exactly when the divisor stands for zero.
pub divmod-err_iff :
    (a d : BigInt) → IsValid d → (divmod a d ≡ err division_by_zero) ↔ (to_ℤ d ≡ pos 0)
unfolding divmod
divmod-err_iff a d hd = (to, λ e. rw (zero-mag d hd e) refl)
  where
    ok-ne-err : {x : BigInt × BigInt} → ok x ≡ err division_by_zero → ⊥
    ok-ne-err e = cc

    to : divmod a d ≡ err division_by_zero → to_ℤ d ≡ pos 0
    to e = elim (Bool-cases (is_empty d.mag)) [
      | inl z ↦ ap (signed d.negative) (empty-value d.mag z) ∙ signed_zero d.negative
      | inr nz ↦ absurd (ok-ne-err (rw nz at e))
    ]

-- The residue of an integer modulo m.
abbrev pub residue : ℤ → ℕ → ℕ
residue (pos n) m = n % m
residue (negsuc n) m = (m - suc n % m) % m

pub mod_unique : (u v q r : ℕ) → q * v + r ≡ u → r < v → r ≡ u % v
mod_unique u v q r e h =
    sym (mod-eq_of_lt h) ∙ sym (mul-add-mod_self_right q v r) ∙ ap (λ (t : ℕ). t % v) e

residue-signed :
    (s : Bool) (u m : ℕ) → 0 < m → residue (signed s u) m ≡ (if s then (m - u % m) % m else u % m)
residue-signed true zero m h =
    let e : m - 0 ≡ m = omega arith in rw (zero-mod m) (rw e (sym (mod_self m)))
residue-signed true (suc u) m h = refl
residue-signed false u m h = refl

residue_none : (s : Bool) (u m : ℕ) → 0 < m → u % m ≡ 0 → residue (signed s u) m ≡ 0
residue_none s u m h e = residue-signed s u m h ∙ by_sign s
  where
    by_sign : (s : Bool) → (if s then (m - u % m) % m else u % m) ≡ 0
    by_sign true = let all : m - 0 ≡ m = omega arith in rw (e, all) (mod_self m)
    by_sign false = e

-- For a valid x of any sign and a valid modulus of a magnitude m above zero, reduce_mod returns a
-- valid value that stands for the residue of x modulo m in [0, m).
pub reduce_mod_lem :
    (x m : BigInt)
    → IsValid x
    → IsValid m
    → 0 < value m.mag
    → Is (reduce_mod x m) (pos (residue (to_ℤ x) (value m.mag)))
unfolding reduce_mod
reduce_mod_lem x m hx hm m_pos =
    let v : ℕ = value m.mag in
    let rm : Limbs = (mag_divmod x.mag m.mag).1 in
    let p =
      mag_divmod_lem x.mag m.mag hx.limbs hm.limbs hx.trimmed hm.trimmed (pos-ne m.mag m_pos) in
    let r = mod_unique (value x.mag) v _ (value rm) p.0 p.1 in
    elim (Bool-cases (is_empty rm)) [
      | inl z ↦ rw z (
        zero_int-Is.0,
        ap pos (sym (residue_none x.negative (value x.mag) v m_pos (sym r ∙ empty-value rm z))),
      )
      | inr nz ↦
          let rm_pos = nonempty-value rm p.5 nz in
          rw nz (signs x.negative (value x.mag) rm p.4 p.1 rm_pos r)
    ]
  where
    pos-ne : (xs : Limbs) → 0 < value xs → xs ≢ []
    pos-ne [] h = absurd (omega arith)
    pos-ne (y ∷ ys) h = cc

    signs :
        (s : Bool) (u : ℕ) (rm : Limbs)
        → IsLimbs rm
        → value rm < value m.mag
        → 0 < value rm
        → value rm ≡ u % value m.mag
        → Is
            (if s then from_mag (mag_sub m.mag rm) false else from_mag rm false)
            (pos (residue (signed s u) (value m.mag)))
    signs true u rm h lt rm_pos e =
        let diff = value-mag_sub m.mag rm hm.limbs h (omega arith) in
        from_mag-Is (mag_sub m.mag rm) false _ (mag_sub-IsLimbs m.mag rm hm.limbs h (omega arith)) (
          ap pos (
            omega (
              arith,
              residue-signed true u (value m.mag) m_pos,
              mod-eq_of_lt {n = value m.mag - u % value m.mag} {m = value m.mag} (omega arith),
            )))
    signs false u rm h lt rm_pos e =
        from_mag-Is rm false _ h (ap pos (e ∙ sym (residue-signed false u (value m.mag) m_pos)))

pub residue-lt : (a : ℤ) (m : ℕ) → 0 < m → residue a m < m
residue-lt (pos n) m h = mod-lt n h
residue-lt (negsuc n) m h = mod-lt _ h
