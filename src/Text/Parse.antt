-- ===== src/Text/Parse.antt =====
-- from_string reads decimal numbers, and refuses everything else.
use native.Mathlib.Nat.{one-le-pow, pow-succ'}
use nimble_cas.Prelude.Arith.{mul_le_mul}
use nimble_cas.BigInt.Residues.{pow-add}
use nimble_cas.Prelude.{
  ℕ, suc, ◌+◌, ◌-◌, ◌*◌, ◌^◌, ◌≤◌, ◌<◌, ◌≡◌, ◌⊎◌, refl, ap, ◌∙◌, List, [], ◌∷◌, Bool, true, false,
  ◌||◌, arith, ltb, ◌==◌, ==_iff, inl, inr, Bool-cases, All,
}
use nimble_cas.Core.{Result, ok, err, syntax_error, ◌>>=◌}
use nimble_cas.Prelude.Int.{pos}
use nimble_cas.Magnitude.{Limbs, low32, mul_small, add_small}
use nimble_cas.Magnitude.Value.{value, IsLimbs}
use nimble_cas.Magnitude.Small.{mul_small_lem, add_small_lem}
use nimble_cas.BigInt.{BigInt, from_mag}
use nimble_cas.Text.{digits_loop, parse_digits, from_string}
use nimble_cas.BigInt.Value.{signed}
use nimble_cas.BigInt.Arith.{Is, from_mag-Is}

-- A character code of '0' to '9'.
abbrev pub IsDigit : ℕ → Type 0
IsDigit c = (48 ≤ c) × (c ≤ 57)

-- The number that decimal digits write, behind what was read before.
abbrev pub decimal : ℕ → List ℕ → ℕ
decimal n [] = n
decimal n (c ∷ cs) = decimal (n * 10 + (c - 48)) cs

-- Where the loop stands: count digits are in the chunk, and the rest in the magnitude.
record IsRead (mag : Limbs) (chunk chunk_mult count n : ℕ) : Type 0 where
  limbs : IsLimbs mag
  count_small : count < 9
  mult : chunk_mult ≡ 10 ^ count
  chunk_small : chunk < chunk_mult
  number : value mag * chunk_mult + chunk ≡ n

pow_small : (count : ℕ) → count ≤ 9 → 10 ^ count ≤ 1000000000
pow_small count h =
    let split : 10 ^ 9 ≡ 10 ^ count * 10 ^ (9 - count) =
      ap (λ (t : ℕ). 10 ^ t) {x = 9} {y = count + (9 - count)} (omega arith)
      ∙ pow-add 10 count (9 - count) in
    let le : 10 ^ count * 1 ≤ 10 ^ count * 10 ^ (9 - count) =
      mul_le_mul (10 ^ count) (10 ^ count) 1 (10 ^ (9 - count)) (omega arith)
        (one-le-pow (9 - count) 10 (omega arith)) in
    omega arith

-- The chunk goes into the magnitude.
flush_lem :
    (mag : Limbs) (chunk m n : ℕ)
    → IsLimbs mag
    → m ≤ 1000000000
    → chunk < m
    → value mag * m + chunk ≡ n
    → IsLimbs (add_small (mul_small mag m) chunk) × (value (add_small (mul_small mag m) chunk) ≡ n)
flush_lem mag chunk m n h hm hc e =
    let p = mul_small_lem mag m h (omega arith) in
    let q = add_small_lem (mul_small mag m) chunk p.1 (omega arith) in
    (q.1, q.0 ∙ omega (arith, p.0))

is_digit : (c : ℕ) → 48 ≤ c → c ≤ 57 → (ltb c 48 || ltb 57 c) ≡ false
is_digit c h k = ground arith

digits_loop_lem :
    (mag : Limbs) (chunk chunk_mult count n : ℕ) (cs : List ℕ)
    → IsRead mag chunk chunk_mult count n
    → All IsDigit cs
    → (m : Limbs) × (digits_loop mag chunk chunk_mult count cs ≡ ok m)
      × IsLimbs m
      × (value m ≡ decimal n cs)
unfolding digits_loop
digits_loop_lem mag chunk chunk_mult count n [] h ds = elim (Bool-cases (ltb 0 count)) [
  | inl some_digits ↦
      let p =
        flush_lem mag chunk chunk_mult n h.limbs (omega (arith, pow_small count (omega arith)))
          h.chunk_small h.number in
      (add_small (mul_small mag chunk_mult) chunk, rw some_digits refl, p.0, p.1)
  | inr no_digits ↦
      let z : count ≡ 0 = ground arith in
      let one : chunk_mult ≡ 1 = h.mult ∙ ap (λ (t : ℕ). 10 ^ t) z in
      (mag, rw no_digits refl, h.limbs, omega (arith, ap (λ (t : ℕ). value mag * t) one))
]
digits_loop_lem mag chunk chunk_mult count n (c ∷ cs) h ds =
    let digit = is_digit c ds.0.0 ds.0.1 in
    let small = pow_small (count + 1) (omega arith) in
    let ten : 10 ^ (count + 1) ≡ 10 * 10 ^ count =
      ap (λ (t : ℕ). 10 ^ t) {x = count + 1} {y = suc count} (omega arith) ∙ pow-succ' 10 count in
    let next : low32 (chunk * 10 + (c - 48)) ≡ chunk * 10 + (c - 48) = omega arith in
    let mult : low32 (chunk_mult * 10) ≡ chunk_mult * 10 = omega arith in
    let scaled : value mag * (chunk_mult * 10) + (chunk * 10 + (c - 48)) ≡ n * 10 + (c - 48) =
      omega arith in
    elim (Bool-cases (count + 1 == 9)) [
      | inl full ↦
          let nine : count + 1 ≡ 9 = (==_iff (count + 1) 9).0 full in
          let billion : chunk_mult * 10 ≡ 1000000000 = omega (arith, ap (λ (t : ℕ). 10 ^ t) nine) in
          let p =
            flush_lem mag (low32 (chunk * 10 + (c - 48))) 1000000000 (n * 10 + (c - 48)) h.limbs
              (omega arith) (omega arith) (omega (arith, ap (λ (t : ℕ). value mag * t) billion)) in
          let ih =
            digits_loop_lem (add_small (mul_small mag 1000000000) (low32 (chunk * 10 + (c - 48)))) 0
              1 0 (n * 10 + (c - 48)) cs
              (record {
                limbs = p.0;
                count_small = omega arith;
                mult = refl;
                chunk_small = omega arith;
                number = omega (arith, p.1);
              })
              ds.1 in
          (ih.0, rw (digit, full) ih.1, ih.2, ih.3)
      | inr more ↦
          let ih =
            digits_loop_lem mag (low32 (chunk * 10 + (c - 48))) (low32 (chunk_mult * 10))
              (count + 1) (n * 10 + (c - 48)) cs
              (record {
                limbs = h.limbs;
                count_small = ground arith;
                mult = omega arith;
                chunk_small = omega arith;
                number = rw (mult, next) scaled;
              })
              ds.1 in
          (ih.0, rw (digit, more) ih.1, ih.2, ih.3)
    ]

-- The digits behind the sign.
parse_digits_lem :
    (neg : Bool) (c : ℕ) (cs : List ℕ)
    → IsDigit c
    → All IsDigit cs
    → (r : BigInt) × (parse_digits neg (c ∷ cs) ≡ ok r) × Is r (signed neg (decimal 0 (c ∷ cs)))
unfolding parse_digits
parse_digits_lem neg c cs hc hcs =
    let start : IsRead [] 0 1 0 0 = record {
      limbs = tt;
      count_small = omega arith;
      mult = refl;
      chunk_small = omega arith;
      number = refl;
    } in
    let p = digits_loop_lem [] 0 1 0 0 (c ∷ cs) start (hc, hcs) in
    (
      from_mag p.0 neg,
      ap (λ m. m >>= λ mag. ok (from_mag mag neg)) p.1,
      from_mag-Is p.0 neg _ p.2 (ap (signed neg) p.3),
    )

-- '+' or '-'
abbrev pub sign_code : Bool → ℕ
sign_code true = 45
sign_code false = 43

-- For a text of decimal digits that is not empty, from_string returns a valid value that stands
-- for the decimal number, and with a sign in front the number with that sign.
pub from_string_lem :
    (neg : Bool) (c : ℕ) (cs : List ℕ)
    → IsDigit c
    → All IsDigit cs
    → ((r : BigInt) × (from_string (c ∷ cs) ≡ ok r) × Is r (pos (decimal 0 (c ∷ cs))))
      × ((r : BigInt) × (from_string (sign_code neg ∷ c ∷ cs) ≡ ok r)
          × Is r (signed neg (decimal 0 (c ∷ cs))))
unfolding from_string
from_string_lem neg c cs hc hcs = (plain, by_sign neg)
  where
    plain : (r : BigInt) × (from_string (c ∷ cs) ≡ ok r) × Is r (pos (decimal 0 (c ∷ cs)))
    plain =
        let p = parse_digits_lem false c cs hc hcs in
        let no_plus : (c == 43) ≡ false = ground arith in
        let no_minus : (c == 45) ≡ false = ground arith in (p.0, rw (no_plus, no_minus) p.1, p.2)

    by_sign :
        (neg : Bool)
        → (r : BigInt) × (from_string (sign_code neg ∷ c ∷ cs) ≡ ok r)
          × Is r (signed neg (decimal 0 (c ∷ cs)))
    by_sign true = parse_digits_lem true c cs hc hcs
    by_sign false = parse_digits_lem false c cs hc hcs

-- Every code that the loop takes is a digit.
IsDigit-codes : (c : ℕ) → (ltb c 48 || ltb 57 c) ≡ false → IsDigit c
IsDigit-codes c h = (ground arith, ground arith)

err-ne-ok : {A : Type 0} {x : A} → err syntax_error ≡ ok x → ⊥
err-ne-ok e = cc

digits_loop-All :
    (mag : Limbs) (chunk chunk_mult count : ℕ) (cs : List ℕ) (m : Limbs)
    → digits_loop mag chunk chunk_mult count cs ≡ ok m
    → All IsDigit cs
unfolding digits_loop
digits_loop-All mag chunk chunk_mult count [] m e = tt
digits_loop-All mag chunk chunk_mult count (c ∷ cs) m e =
    let chunk' = low32 (chunk * 10 + (c - 48)) in
    let flushed = digits_loop-All (add_small (mul_small mag 1000000000) chunk') 0 1 0 cs m in
    let next = digits_loop-All mag chunk' (low32 (chunk_mult * 10)) (count + 1) cs m in
    elim (Bool-cases (ltb c 48 || ltb 57 c)) [
      | inl bad ↦ absurd (err-ne-ok (rw bad at e))
      | inr good ↦ (
        IsDigit-codes c good,
        elim (Bool-cases (count + 1 == 9)) [
          | inl full ↦ flushed (rw (good, full) at e)
          | inr more ↦ next (rw (good, more) at e)
        ],
      )
    ]

-- One digit or more.
abbrev pub IsDecimal : List ℕ → Type 0
IsDecimal [] = ⊥
IsDecimal (c ∷ cs) = All IsDigit (c ∷ cs)

parse_digits-IsDecimal :
    (neg : Bool) (cs : List ℕ) (r : BigInt) → parse_digits neg cs ≡ ok r → IsDecimal cs
unfolding parse_digits
parse_digits-IsDecimal neg [] r e = err-ne-ok e
parse_digits-IsDecimal neg (c ∷ cs) r e = from_loop (digits_loop [] 0 1 0 (c ∷ cs)) refl e
  where
    from_loop :
        (m : Result Limbs)
        → digits_loop [] 0 1 0 (c ∷ cs) ≡ m
        → (m >>= λ mag. ok (from_mag mag neg)) ≡ ok r
        → All IsDigit (c ∷ cs)
    from_loop (ok mag) loop e = digits_loop-All [] 0 1 0 (c ∷ cs) mag loop
    from_loop (err reason) loop e = cc

-- A text c, cs that from_string accepts is either a sign (code 43 or 45) in front of at least one
-- decimal digit and digits only, or at least one decimal digit and digits only.
pub from_string-ok :
    (c : ℕ) (cs : List ℕ) (r : BigInt)
    → from_string (c ∷ cs) ≡ ok r
    → (((c ≡ 43) ⊎ (c ≡ 45)) × IsDecimal cs) ⊎ IsDecimal (c ∷ cs)
unfolding from_string
from_string-ok c cs r e = elim (Bool-cases (c == 43)) [
  | inl plus ↦ inl (inl ((==_iff c 43).0 plus), parse_digits-IsDecimal false cs r (rw plus at e))
  | inr no_plus ↦ elim (Bool-cases (c == 45)) [
    | inl minus ↦
        inl
          (inr ((==_iff c 45).0 minus), parse_digits-IsDecimal true cs r (rw (no_plus, minus) at e))
    | inr no_minus ↦ inr (parse_digits-IsDecimal false (c ∷ cs) r (rw (no_plus, no_minus) at e))
  ]
]
