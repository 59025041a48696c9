-- ===== src/Text/RoundTrip.antt =====
-- to_string writes the decimal digits that from_string reads back.
use native.Mathlib.Nat.{pow-succ'}
use nimble_cas.Prelude.{
  ℕ, zero, suc, ◌+◌, ◌-◌, ◌*◌, ◌/◌, ◌%◌, ◌^◌, ◌<◌, ◌≡◌, refl, ap, subst, sym, ◌∙◌, List, [], ◌∷◌,
  ◌++◌, Bool, true, false, arith, ◌==◌, ==_iff, inl, inr, Bool-cases, if◌then◌else◌, All,
}
use nimble_cas.Core.{ok}
use nimble_cas.Prelude.Int.{pos}
use nimble_cas.Magnitude.{Limbs, divmod_small}
use nimble_cas.Magnitude.Value.{value, IsLimbs, IsTrimmed}
use nimble_cas.Magnitude.Small.{divmod_small_lem}
use nimble_cas.BigInt.{BigInt, is_empty}
use nimble_cas.Text.{from_string, to_digits, pad_digits, chunks_loop, render, to_string}
use nimble_cas.BigInt.Value.{
  signed, to_ℤ, IsValid, to_ℤ-injective, empty-value, nonempty-value, signed_zero,
}
use nimble_cas.BigInt.Arith.{Is}
use nimble_cas.Text.Parse.{IsDigit, decimal, from_string_lem}

decimal-++ : (n : ℕ) (xs ys : List ℕ) → decimal n (xs ++ ys) ≡ decimal (decimal n xs) ys
decimal-++ n [] ys = refl
decimal-++ n (x ∷ xs) ys = decimal-++ (n * 10 + (x - 48)) xs ys

All-++ : (xs ys : List ℕ) → All IsDigit xs → All IsDigit ys → All IsDigit (xs ++ ys)
All-++ [] ys hx hy = hy
All-++ (x ∷ xs) ys hx hy = (hx.0, All-++ xs ys hx.1 hy)

IsDigit-mod : (n : ℕ) → IsDigit (48 + n % 10)
IsDigit-mod n = (omega arith, omega arith)

-- Padded digits.
pad_digits_lem :
    (k a n : ℕ) (rest : List ℕ)
    → n < 10 ^ k
    → All IsDigit rest
    → (decimal a (pad_digits k n rest) ≡ decimal (a * 10 ^ k + n) rest)
      × All IsDigit (pad_digits k n rest)
unfolding pad_digits
pad_digits_lem zero a n rest h d =
    let same : a ≡ a * 10 ^ 0 + n = omega arith in (ap (λ t. decimal t rest) same, d)
pad_digits_lem (suc k) a n rest h d =
    let ten = pow-succ' 10 k in
    let ih = pad_digits_lem k a (n / 10) ((48 + n % 10) ∷ rest) (omega arith) (IsDigit-mod n, d) in
    let same : (a * 10 ^ k + n / 10) * 10 + (48 + n % 10 - 48) ≡ a * 10 ^ suc k + n =
      omega (arith, ap (λ (t : ℕ). a * t) ten) in
    (ih.0 ∙ ap (λ t. decimal t rest) same, ih.1)

-- What a text of digits owes: it is not empty, all digits, and writes n before rest.
abbrev Writes : List ℕ → ℕ → Type 0
Writes xs n =
    (c : ℕ) × (cs : List ℕ) × (xs ≡ c ∷ cs) × IsDigit c × All IsDigit cs × (decimal 0 (c ∷ cs) ≡ n)

last_digit : (n : ℕ) → n / 10 ≡ 0 → 0 * 10 + (48 + n % 10 - 48) ≡ n
last_digit n h = omega arith

to_digits_lem :
    (fuel n : ℕ) (rest : List ℕ)
    → n < 10 ^ suc fuel
    → All IsDigit rest
    → (c : ℕ) × (cs : List ℕ) × (to_digits (suc fuel) n rest ≡ c ∷ cs)
      × IsDigit c
      × All IsDigit cs
      × (decimal 0 (c ∷ cs) ≡ decimal n rest)
unfolding to_digits
to_digits_lem zero n rest h d =
    let z : n / 10 ≡ 0 = omega arith in
    (48 + n % 10, rest, rw z refl, IsDigit-mod n, d, ap (λ t. decimal t rest) (last_digit n z))
to_digits_lem (suc fuel) n rest h d =
    let ten = pow-succ' 10 (suc fuel) in
    let (c, cs, e, hc, hcs, v) =
      to_digits_lem fuel (n / 10) ((48 + n % 10) ∷ rest) (omega arith) (IsDigit-mod n, d) in
    let same : n / 10 * 10 + (48 + n % 10 - 48) ≡ n = omega arith in
    elim (Bool-cases (n / 10 == 0)) [
      | inl last ↦ (
        48 + n % 10,
        rest,
        rw last refl,
        IsDigit-mod n,
        d,
        ap (λ t. decimal t rest) (last_digit n ((==_iff (n / 10) 0).0 last)),
      )
      | inr more ↦ (c, cs, rw more e, hc, hcs, v ∙ ap (λ t. decimal t rest) same)
    ]

-- The number that chunks of nine digits write, the least significant first.
abbrev chunk_value : List ℕ → ℕ
chunk_value [] = 0
chunk_value (c ∷ cs) = c + 1000000000 * chunk_value cs

chunks_loop_lem :
    (fuel : ℕ) (tmp : Limbs)
    → value tmp < fuel
    → IsLimbs tmp
    → IsTrimmed tmp
    → (chunk_value (chunks_loop fuel tmp) ≡ value tmp)
      × All (λ c. c < 1000000000) (chunks_loop fuel tmp)
unfolding chunks_loop
chunks_loop_lem zero tmp h l t = absurd (omega arith)
chunks_loop_lem (suc fuel) tmp h l t =
    let p = divmod_small_lem tmp 1000000000 l (omega arith) (omega arith) in
    elim (Bool-cases (is_empty tmp)) [
      | inl z ↦ rw z (sym (empty-value tmp z), tt)
      | inr nz ↦
          let positive = nonempty-value tmp t nz in
          let ih = chunks_loop_lem fuel (divmod_small tmp 1000000000).0 (omega arith) p.2 p.3 in
          rw nz (omega (arith, p.0, ih.0), (p.1, ih.1))
    ]

-- The chunks are written out one behind the other.
render_lem :
    (c : ℕ) (cs : List ℕ)
    → All (λ d. d < 1000000000) (c ∷ cs)
    → Writes (render (c ∷ cs)) (chunk_value (c ∷ cs))
unfolding render
render_lem c [] h =
    let (x, xs, e, hx, hxs, v) = to_digits_lem 9 c [] (omega (arith, h.0)) tt in
    (x, xs, e, hx, hxs, v ∙ omega arith)
render_lem c (d ∷ cs) h =
    let (x, xs, e, hx, hxs, v) = render_lem d cs h.1 in
    let p = pad_digits_lem 9 (chunk_value (d ∷ cs)) c [] (omega (arith, h.0)) tt in
    (
      x,
      xs ++ pad_digits 9 c [],
      ap (λ t. t ++ pad_digits 9 c []) e,
      hx,
      All-++ xs (pad_digits 9 c []) hxs p.1,
      decimal-++ 0 (x ∷ xs) (pad_digits 9 c [])
          ∙ ap (λ t. decimal t (pad_digits 9 c [])) v
          ∙ p.0
          ∙ omega arith,
    )

-- The digits of a magnitude.
magnitude_digits :
    (mag : Limbs)
    → IsLimbs mag
    → IsTrimmed mag
    → is_empty mag ≡ false
    → Writes (render (chunks_loop (suc (value mag)) mag)) (value mag)
magnitude_digits mag l t nz =
    let p = chunks_loop_lem (suc (value mag)) mag (omega arith) l t in
    go (chunks_loop (suc (value mag)) mag) (nonempty-value mag t nz) p.0 p.1
  where
    go :
        (chunks : List ℕ)
        → 0 < value mag
        → chunk_value chunks ≡ value mag
        → All (λ c. c < 1000000000) chunks
        → Writes (render chunks) (value mag)
    go [] positive e h = absurd (omega arith)
    go (c ∷ cs) positive e h = subst (Writes (render (c ∷ cs))) e (render_lem c cs h)

-- A text that reads as the number of a canonical value reads as that value.
reads :
    (a : BigInt) (text : List ℕ)
    → IsValid a
    → (r : BigInt) × (from_string text ≡ ok r) × Is r (to_ℤ a)
    → from_string text ≡ ok a
reads a text ha p = p.1 ∙ ap ok (to_ℤ-injective p.0 a p.2.0 ha p.2.1)

-- What to_string writes, by the sign.
to_string-eq :
    (a : BigInt) (s : Bool)
    → is_empty a.mag ≡ false
    → a.negative ≡ s
    → to_string a ≡ (
        if s
        then 45 ∷ render (chunks_loop (suc (value a.mag)) a.mag)
        else render (chunks_loop (suc (value a.mag)) a.mag))
unfolding to_string
to_string-eq a s nz e =
    ap
      (λ b.
        if b
        then 48 ∷ []
        else if a.negative
        then 45 ∷ render (chunks_loop (suc (value a.mag)) a.mag)
        else render (chunks_loop (suc (value a.mag)) a.mag))
      nz
    ∙ ap
        (λ b.
          if b
          then 45 ∷ render (chunks_loop (suc (value a.mag)) a.mag)
          else render (chunks_loop (suc (value a.mag)) a.mag))
        e

to_string-zero : (a : BigInt) → is_empty a.mag ≡ true → to_string a ≡ 48 ∷ []
unfolding to_string
to_string-zero a z =
    ap
      (λ b.
        if b
        then 48 ∷ []
        else if a.negative
        then 45 ∷ render (chunks_loop (suc (value a.mag)) a.mag)
        else render (chunks_loop (suc (value a.mag)) a.mag))
      z

-- For every valid value, from_string applied to the text that to_string writes returns the value
-- itself.
pub from_string-to_string : (a : BigInt) → IsValid a → from_string (to_string a) ≡ ok a
from_string-to_string a ha = elim (Bool-cases (is_empty a.mag)) [
  | inl z ↦
      let zero_text = (from_string_lem true 48 [] (omega arith, omega arith) tt).0 in
      let is_zero : to_ℤ a ≡ pos 0 =
        ap (signed a.negative) (empty-value a.mag z) ∙ signed_zero a.negative in
      ap from_string (to_string-zero a z)
      ∙ reads a (48 ∷ []) ha
          (zero_text.0, zero_text.1, (zero_text.2.0, zero_text.2.1 ∙ sym is_zero))
  | inr nz ↦
      let (x, xs, e, hx, hxs, v) = magnitude_digits a.mag ha.limbs ha.trimmed nz in
      elim (Bool-cases a.negative) [
        | inl s ↦
            let p = (from_string_lem true x xs hx hxs).1 in
            let same : to_ℤ p.0 ≡ to_ℤ a =
              p.2.1 ∙ ap (signed true) v ∙ ap (λ b. signed b (value a.mag)) (sym s) in
            ap from_string (to_string-eq a true nz s ∙ ap (λ t. 45 ∷ t) e)
            ∙ reads a (45 ∷ x ∷ xs) ha (p.0, p.1, (p.2.0, same))
        | inr s ↦
            let p = (from_string_lem true x xs hx hxs).0 in
            let same : to_ℤ p.0 ≡ to_ℤ a =
              p.2.1 ∙ ap pos v ∙ ap (λ b. signed b (value a.mag)) (sym s) in
            ap from_string (to_string-eq a false nz s ∙ e)
            ∙ reads a (x ∷ xs) ha (p.0, p.1, (p.2.0, same))
      ]
]
