-- ===== src/Knuth/Correct.antt =====
-- Algorithm D and the dispatch in front of it divide exactly.
use native.Mathlib.Nat.{one-le-pow, mod-lt, lt_of_mul-lt-mul_left}
use nimble_cas.Prelude.{
  ℕ, zero, suc, ◌+◌, ◌-◌, ◌*◌, ◌%◌, ◌^◌, ◌≤◌, ◌<◌, ◌≡◌, ◌≢◌, refl, ap, sym, ◌∙◌, [], ◌∷◌, arith,
  length, take, drop, subst, compare, Ordering, if◌then◌else◌, ◌==◌, suc-==-zero, false, inl, inr,
  Bool-cases, ==_iff,
}
use nimble_cas.Prelude.Arith.{mul_le_mul}
use nimble_cas.Magnitude.{Limbs, limb_base, trim, mag_cmp, divmod_small}
use nimble_cas.Magnitude.Value.{
  value, IsLimbs, IsTrimmed, weight, value-lt-weight, weight-le-value, value-trim, trim-IsLimbs,
  trim-IsTrimmed,
}
use nimble_cas.Magnitude.Order.{mag_cmp-value, length-le_of_value-le}
use nimble_cas.Magnitude.Small.{divmod_small_lem}
use nimble_cas.Knuth.{
  limb, countl_zero, shift_divisor, shift_dividend, shr_loop, knuth_loop, divmod_knuth,
  divmod_large, mag_divmod,
}
use nimble_cas.Knuth.Shift.{
  shift_divisor_lem, shift_dividend_lem, shr_loop_lem, multiple_lem, Normalised,
}
use nimble_cas.Knuth.Step.{knuth_loop_lem, value-below}

-- A quotient and a remainder of u by v, in canonical form.
abbrev pub DivMod : Limbs → Limbs → Limbs × Limbs → Type 0
DivMod u v r =
    (value r.0 * value v + value r.1 ≡ value u)
    × (value r.1 < value v)
    × IsLimbs r.0
    × IsTrimmed r.0
    × IsLimbs r.1
    × IsTrimmed r.1

weight-add : (a b : ℕ) → weight (a + b) ≡ weight a * weight b
weight-add zero b = let e : zero + b ≡ b = omega arith in rw e (omega arith)
weight-add (suc a) b =
    let e : suc a + b ≡ suc (a + b) = omega arith in
    rw e (ap (λ (t : ℕ). limb_base * t) (weight-add a b) ∙ omega arith)

value-split : (n : ℕ) (xs : Limbs) → value xs ≡ value (take n xs) + weight n * value (drop n xs)
value-split zero xs = omega arith
value-split (suc n) [] = omega arith
value-split (suc n) (x ∷ xs) = omega (arith, value-split n xs)

-- The top limb of a trimmed magnitude.
top_pos : (v : Limbs) (k : ℕ) → IsTrimmed v → length v ≡ suc k → 0 < limb v k
top_pos [] k t l = absurd (omega arith)
top_pos (x ∷ []) zero t l = omega arith
top_pos (x ∷ []) (suc k) t l = absurd (omega arith)
top_pos (x ∷ y ∷ ys) zero t l = absurd (omega arith)
top_pos (x ∷ y ∷ ys) (suc k) t l = top_pos (y ∷ ys) k t (omega arith)

top_weight : (v : Limbs) (k : ℕ) → IsTrimmed v → length v ≡ suc k → weight k ≤ value v
top_weight [] k t l = absurd (omega arith)
top_weight (x ∷ xs) k t l =
    subst (λ n. weight n ≤ value (x ∷ xs)) (omega arith) (weight-le-value x xs t)

-- D8: the remainder that is shifted back is the remainder of the unshifted operands.
unshift :
    (s : ℕ) (u v q un : Limbs)
    → s < 32
    → IsLimbs un
    → length v < length un
    → IsLimbs v
    → value un + value q * (value v * 2 ^ s) ≡ value u * 2 ^ s
    → value un < value v * 2 ^ s
    → value un < weight (length v)
    → let r = if s == 0 then take (length v) un else shr_loop s (length v) un in
      (value q * value v + value r ≡ value u) × (value r < value v) × IsLimbs r
unshift zero u v q un lt hu len hv e small fits =
    let t = value-below (length v) un hu fits in
    (omega arith, omega arith, take-IsLimbs (length v) un hu)
  where
    take-IsLimbs : (n : ℕ) (xs : Limbs) → IsLimbs xs → IsLimbs (take n xs)
    take-IsLimbs zero xs h = tt
    take-IsLimbs (suc n) [] h = tt
    take-IsLimbs (suc n) (x ∷ xs) h = (h.0, take-IsLimbs n xs h.1)
unshift (suc s') u v q un lt hu len hv e small fits =
    let s : ℕ = suc s' in
    let back = shr_loop_lem s (omega arith) (length v) un hu len fits in
    let r : ℕ = value (shr_loop s (length v) un) in
    let low = mod-lt (limb un 0) (one-le-pow s 2 (omega arith)) in
    rw (suc-==-zero s') (
      multiple_lem (2 ^ s) (value q * value v + r) (value u) (limb un 0 % 2 ^ s) low (omega arith),
      lt_of_mul-lt-mul_left (2 ^ s) (omega arith),
      back.1,
    )

-- Before the first round, what stands above the window is below the divisor.
first_window :
    (u v vn un : Limbs) (s k m : ℕ)
    → IsLimbs u
    → IsTrimmed v
    → length v ≡ suc (suc k)
    → length u ≡ m + suc (suc k)
    → value vn ≡ value v * 2 ^ s
    → value un ≡ value u * 2 ^ s
    → value (drop (m + 1) un) < value vn
first_window u v vn un s k m hu t l lu ev eu =
    let u_lt : value u < weight (m + 1) * weight (suc k) =
      subst (λ (x : ℕ). value u < x) (ap weight (omega arith) ∙ weight-add (m + 1) (suc k))
        (value-lt-weight u hu) in
    let scaled : (value u + 1) * 2 ^ s ≤ weight (m + 1) * weight (suc k) * 2 ^ s =
      mul_le_mul (value u + 1) (weight (m + 1) * weight (suc k)) (2 ^ s) (2 ^ s) (omega arith)
        (omega arith) in
    let below : value (drop (m + 1) un) < weight (suc k) * 2 ^ s =
      lt_of_mul-lt-mul_left (weight (m + 1))
        (omega (arith, value-split (m + 1) un, one-le-pow s 2 (omega arith))) in
    let v_ge =
      mul_le_mul (weight (suc k)) (value v) (2 ^ s) (2 ^ s) (top_weight v (suc k) t l)
        (omega arith) in
    omega arith

-- The rounds and the shift back, with the shift and the shifted operands given.
rounds :
    (u v vn un : Limbs) (s k m : ℕ)
    → IsLimbs u
    → IsLimbs v
    → IsTrimmed v
    → length v ≡ suc (suc k)
    → length u ≡ m + suc (suc k)
    → s < 32
    → Normalised v (suc k) s vn
    → IsLimbs un
    → value un ≡ value u * 2 ^ s
    → length un ≡ suc (length u)
    → let (q, us) = knuth_loop (m + 1) vn un in
      DivMod u v (trim q, trim (if s == 0 then take (length v) us else shr_loop s (length v) us))
rounds u v vn un s k m hu hv tv lv lu lt norm hun eun lun =
    let q : Limbs = (knuth_loop (m + 1) vn un).0 in
    let us : Limbs = (knuth_loop (m + 1) vn un).1 in
    let loop =
      knuth_loop_lem vn k norm.1 norm.2 norm.3 (m + 1) un hun (omega arith)
        (first_window u v vn un s k m hu tv lv lu norm.0 eun) in
    let same : value q * value vn ≡ value q * (value v * 2 ^ s) =
      ap (λ (t : ℕ). value q * t) norm.0 in
    let small : value us < weight (length v) =
      subst (λ n. value us < weight n) (norm.2 ∙ sym lv)
        (omega (arith, value-lt-weight vn norm.1)) in
    let back = unshift s u v q us lt loop.3 (omega arith) hv (omega arith) (omega arith) small in
    (
      rw (value-trim, value-trim) back.0,
      rw value-trim back.1,
      trim-IsLimbs q loop.2,
      trim-IsTrimmed q,
      trim-IsLimbs _ back.2,
      trim-IsTrimmed (if s == 0 then take (length v) us else shr_loop s (length v) us),
    )

pub divmod_knuth_lem :
    (u v : Limbs) (k : ℕ)
    → IsLimbs u
    → IsLimbs v
    → IsTrimmed v
    → length v ≡ suc (suc k)
    → length v ≤ length u
    → DivMod u v (divmod_knuth u v)
unfolding divmod_knuth
divmod_knuth_lem u v k hu hv tv lv le =
    let e : length v - 1 ≡ suc k = omega arith in
    let norm = shift_divisor_lem v (suc k) hv lv (top_pos v (suc k) tv lv) in
    let s : ℕ = countl_zero 32 (limb v (suc k)) in
    let div = shift_dividend_lem s u norm.0 hu in
    let m : ℕ = length u - length v in
    rw e (
      rounds u v (shift_divisor s v) (shift_dividend s u) s k m hu hv tv lv (omega arith) norm.0
        norm.1 div.1 div.0 div.2)

one_limb :
    (u : Limbs) (x : ℕ)
    → IsLimbs u
    → 0 < x
    → x < limb_base
    → let small = divmod_small u x in
      DivMod u (x ∷ []) (small.0, (if small.1 == 0 then [] else small.1 ∷ []))
one_limb u x hu pos lt =
    let p = divmod_small_lem u x hu pos lt in
    elim (Bool-cases ((divmod_small u x).1 == 0)) [
      | inl z ↦ let zero_rem = (==_iff _ 0).0 z in rw z (omega arith, omega arith, p.2, p.3, tt, tt)
      | inr nz ↦ rw nz (omega arith, omega arith, p.2, p.3, (omega arith, tt), ground arith)
    ]

divmod_large_lem :
    (u v : Limbs)
    → IsLimbs u
    → IsLimbs v
    → IsTrimmed u
    → IsTrimmed v
    → v ≢ []
    → value v ≤ value u
    → DivMod u v (divmod_large u v)
unfolding divmod_large
divmod_large_lem u [] hu hv tu tv ne le = absurd (ne refl)
divmod_large_lem u (x ∷ []) hu hv tu tv ne le = one_limb u x hu (omega arith) hv.0
divmod_large_lem u (x ∷ y ∷ ys) hu hv tu tv ne le =
    let long : (length (x ∷ y ∷ ys) == 1) ≡ false = ground arith in
    rw long (
      divmod_knuth_lem u (x ∷ y ∷ ys) (length ys) hu hv tv refl
        (length-le_of_value-le u (x ∷ y ∷ ys) hu tv le))

-- For trimmed magnitudes of 32-bit limbs and a divisor that is not empty, mag_divmod (the
-- comparison, the division by one limb and Algorithm D) returns trimmed magnitudes of limbs with
-- value q * value v + value r = value u and value r < value v.
pub mag_divmod_lem :
    (u v : Limbs)
    → IsLimbs u
    → IsLimbs v
    → IsTrimmed u
    → IsTrimmed v
    → v ≢ []
    → DivMod u v (mag_divmod u v)
unfolding mag_divmod
mag_divmod_lem u v hu hv tu tv ne = by_order (mag_cmp u v) (sym (mag_cmp-value u v hu hv tu tv))
  where
    by_order :
        (o : Ordering)
        → compare (value u) (value v) ≡ o
        → DivMod u v (elim o [ Ordering.lt ↦ ([], u) | _ ↦ divmod_large u v ])
    by_order Ordering.lt e = (omega arith, ground arith, tt, tt, hu, tu)
    by_order Ordering.eq e = divmod_large_lem u v hu hv tu tv ne (ground arith)
    by_order Ordering.gt e = divmod_large_lem u v hu hv tu tv ne (ground arith)
