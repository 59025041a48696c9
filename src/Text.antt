-- ===== src/Text.antt =====
-- src/bigint/bigint.cppm: from_string and to_string of BigInt. A text is the list of its character
-- codes; std::to_string and std::format of a chunk are written out as digits.
pub mod Parse
pub mod RoundTrip
use nimble_cas.Prelude.{
  ℕ, zero, suc, ◌+◌, ◌-◌, ◌*◌, ◌/◌, ◌%◌, List, [], ◌∷◌, ◌++◌, Bool, true, false, ltb, ◌==◌, ◌||◌,
  if◌then◌else◌,
}
use nimble_cas.Core.{MathError, syntax_error, Result, ok, err, ◌>>=◌}
use nimble_cas.Magnitude.{Limbs, low32, mul_small, add_small, divmod_small}
use nimble_cas.Magnitude.Value.{value}
use nimble_cas.BigInt.{BigInt, is_empty, from_mag}

-- The loop of from_string over the digits, `std::string_view` as the list of its character codes:
-- nine digits at a time go into the magnitude, and the rest at the end.
unfoldable pub digits_loop : Limbs → ℕ → ℕ → ℕ → List ℕ → Result Limbs
digits_loop mag chunk chunk_mult count [] =
    ok (if ltb 0 count then add_small (mul_small mag chunk_mult) chunk else mag)
digits_loop mag chunk chunk_mult count (c ∷ cs) =
    let chunk' = low32 (chunk * 10 + (c - 48)) in
    let flushed = digits_loop (add_small (mul_small mag 1000000000) chunk') 0 1 0 cs in
    let next = digits_loop mag chunk' (low32 (chunk_mult * 10)) (count + 1) cs in
    if ltb c 48 || ltb 57 c then err syntax_error else if count + 1 == 9 then flushed else next

-- The digits behind the sign; a bare sign is malformed.
unfoldable pub parse_digits : Bool → List ℕ → Result BigInt
unfolding digits_loop
parse_digits neg [] = err syntax_error
parse_digits neg (c ∷ cs) = do mag ← digits_loop [] 0 1 0 (c ∷ cs); ok (from_mag mag neg)

-- from_string: '+' is 43 and '-' is 45.
unfoldable pub from_string : List ℕ → Result BigInt
unfolding parse_digits
from_string [] = err syntax_error
from_string (c ∷ cs) =
    if c == 43
    then parse_digits false cs
    else if c == 45
    then parse_digits true cs
    else parse_digits false (c ∷ cs)

-- `std::to_string` of a 32-bit number, which has at most 10 digits.
unfoldable pub to_digits : ℕ → ℕ → List ℕ → List ℕ
to_digits zero n rest = rest
to_digits (suc fuel) n rest =
    let more = to_digits fuel (n / 10) ((48 + n % 10) ∷ rest) in
    if n / 10 == 0 then (48 + n % 10) ∷ rest else more

-- `std::format` with "{:09}": k digits with leading zeros.
unfoldable pub pad_digits : ℕ → ℕ → List ℕ → List ℕ
pad_digits zero n rest = rest
pad_digits (suc k) n rest = pad_digits k (n / 10) ((48 + n % 10) ∷ rest)

-- The loop of to_string that divides by 10^9; the value falls in each round, and bounds the rounds.
unfoldable pub chunks_loop : ℕ → Limbs → List ℕ
chunks_loop zero tmp = []
chunks_loop (suc fuel) tmp =
    let (q, rem) = divmod_small tmp 1000000000 in
    let rest = chunks_loop fuel q in if is_empty tmp then [] else rem ∷ rest

-- The chunks from the last one down.
unfoldable pub render : List ℕ → List ℕ
unfolding to_digits pad_digits
render [] = []
render (c ∷ []) = to_digits 10 c []
render (c ∷ d ∷ cs) = render (d ∷ cs) ++ pad_digits 9 c []

unfoldable pub to_string : BigInt → List ℕ
unfolding chunks_loop render
to_string a =
    let out = render (chunks_loop (suc (value a.mag)) a.mag) in
    if is_empty a.mag then 48 ∷ [] else if a.negative then 45 ∷ out else out
