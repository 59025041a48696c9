-- ===== src/BigInt.antt =====
-- src/bigint/bigint.cppm: BigInt, the signed integer of unbounded size, as a sign and a magnitude.
-- A `std::int64_t` argument is an integer, a `std::uint64_t` one a number; std::strong_ordering is
-- `Ordering`.
pub mod Value
pub mod Arith
pub mod Order
pub mod Division
pub mod Power
pub mod Gcd
pub mod Residues
pub mod Modulus
pub mod Modular
use nimble_cas.Prelude.{
  ℕ, zero, suc, ◌+◌, ◌-◌, ◌*◌, ◌/◌, ◌%◌, ◌^◌, Ordering, List, [], ◌∷◌, Bool, true, false, not, ltb,
  leb, ◌==◌, ◌&&◌, if◌then◌else◌, length,
}
use nimble_cas.Prelude.Int.{ℤ, pos, negsuc}
use nimble_cas.Core.{MathError, division_by_zero, domain_error, Result, ok, err, ◌>>=◌}
use nimble_cas.Magnitude.{Limbs, u64, trim, mag_cmp, mag_add, mag_sub, mag_mul, limbs_from_u64}
use nimble_cas.Magnitude.Value.{value}
use nimble_cas.Knuth.{mag_divmod, countl_zero}

pub record BigInt : Type 0 where
  pub negative : Bool
  pub mag : Limbs

-- `BigInt() = default`
abbrev pub zero_int : BigInt
zero_int = record { negative = false; mag = [] }

abbrev pub is_empty : Limbs → Bool
is_empty [] = true
is_empty (x ∷ xs) = false

-- normalise, on a magnitude that is trimmed: a zero magnitude loses its sign.
abbrev pub drop_sign : Bool → Limbs → BigInt
drop_sign negative mag = record { negative = not (is_empty mag) && negative; mag = mag }

unfoldable pub from_mag : Limbs → Bool → BigInt
from_mag mag negative = drop_sign negative (trim mag)

unfoldable pub from_u64 : ℕ → BigInt
from_u64 v = from_mag (limbs_from_u64 v) false

abbrev pub is_less_zero : ℤ → Bool
is_less_zero (pos n) = false
is_less_zero (negsuc n) = true

abbrev pub is_at_most_zero : ℤ → Bool
is_at_most_zero (pos zero) = true
is_at_most_zero (pos (suc n)) = false
is_at_most_zero (negsuc n) = true

-- `static_cast<std::uint64_t>(v)`
abbrev pub to_u64 : ℤ → ℕ
to_u64 (pos n) = n % 2 ^ 64
to_u64 (negsuc n) = 2 ^ 64 - 1 - n % 2 ^ 64

unfoldable pub from_i64 : ℤ → BigInt
from_i64 v =
    let neg = is_less_zero v in
    let mag = if neg then u64 (0 + 2 ^ 64 - to_u64 v) else to_u64 v in
    from_mag (limbs_from_u64 mag) neg

unfoldable pub is_zero : BigInt → Bool
is_zero a = is_empty a.mag

unfoldable pub sign : BigInt → ℤ
sign a = if is_empty a.mag then pos 0 else if a.negative then negsuc 0 else pos 1

unfoldable pub abs : BigInt → BigInt
abs a = from_mag a.mag false

unfoldable pub negate : BigInt → BigInt
negate a = from_mag a.mag (not a.negative)

abbrev pub bool_eq : Bool → Bool → Bool
bool_eq true b = b
bool_eq false b = not b

-- operator<=>
unfoldable pub cmp : BigInt → BigInt → Ordering
cmp a b =
    if bool_eq a.negative b.negative
    then (if a.negative then mag_cmp b.mag a.mag else mag_cmp a.mag b.mag)
    else (if a.negative then Ordering.lt else Ordering.gt)

-- operator== of `std::vector<std::uint32_t>`.
unfoldable pub limbs_eq : Limbs → Limbs → Bool
limbs_eq [] [] = true
limbs_eq (x ∷ xs) (y ∷ ys) = x == y && limbs_eq xs ys
limbs_eq _ _ = false

-- operator==
unfoldable pub eq : BigInt → BigInt → Bool
unfolding limbs_eq
eq a b = bool_eq a.negative b.negative && limbs_eq a.mag b.mag

-- The sum of operands of unlike signs, by the order of the magnitudes.
unfoldable pub add_unlike : BigInt → BigInt → BigInt
add_unlike a b = elim (mag_cmp a.mag b.mag) [
  | Ordering.eq ↦ zero_int
  | Ordering.gt ↦ from_mag (mag_sub a.mag b.mag) a.negative
  | Ordering.lt ↦ from_mag (mag_sub b.mag a.mag) b.negative
]

unfoldable pub add : BigInt → BigInt → BigInt
add a b =
    if bool_eq a.negative b.negative
    then from_mag (mag_add a.mag b.mag) a.negative
    else add_unlike a b

unfoldable pub subtract : BigInt → BigInt → BigInt
subtract a b = add a (negate b)

unfoldable pub multiply : BigInt → BigInt → BigInt
multiply a b =
    if is_empty a.mag
    then zero_int
    else if is_empty b.mag
    then zero_int
    else from_mag (mag_mul a.mag b.mag) (not (bool_eq a.negative b.negative))

-- Truncated division: quotient and remainder, or division_by_zero.
unfoldable pub divmod : BigInt → BigInt → Result (BigInt × BigInt)
divmod a divisor =
    if is_empty divisor.mag
    then err division_by_zero
    else ok (
      from_mag (mag_divmod a.mag divisor.mag).0 (not (bool_eq a.negative divisor.negative)),
      from_mag (mag_divmod a.mag divisor.mag).1 a.negative,
    )

unfoldable pub divide : BigInt → BigInt → Result BigInt
divide a divisor = do dm ← divmod a divisor; ok dm.0

unfoldable pub mod_by : BigInt → BigInt → Result BigInt
mod_by a divisor = do dm ← divmod a divisor; ok dm.1

-- The loop of pow, squaring and multiplying; 64 rounds are enough for a 64-bit exponent.
unfoldable pub pow_loop : ℕ → ℕ → BigInt → BigInt → BigInt
pow_loop zero exp result base = result
pow_loop (suc fuel) exp result base =
    let result' = if exp % 2 == 0 then result else multiply result base in
    let base' = if exp / 2 == 0 then base else multiply base base in
    let next = pow_loop fuel (exp / 2) result' base' in if exp == 0 then result else next

unfoldable pub pow : BigInt → ℕ → BigInt
unfolding pow_loop
pow a exp = pow_loop 64 exp (from_u64 1) a

-- Euclid's loop on magnitudes; the divisor falls in each round, so its value bounds the rounds.
unfoldable pub gcd_loop : ℕ → Limbs → Limbs → Limbs
gcd_loop zero x y = x
gcd_loop (suc fuel) x y =
    let next = gcd_loop fuel y (mag_divmod x y).1 in if is_empty y then x else next

unfoldable pub gcd : BigInt → BigInt → BigInt
unfolding gcd_loop
gcd a b = from_mag (gcd_loop (suc (value b.mag)) a.mag b.mag) false

-- x reduced into [0, modulus), for a modulus above zero.
unfoldable pub reduce_mod : BigInt → BigInt → BigInt
reduce_mod x modulus =
    let rmag = (mag_divmod x.mag modulus.mag).1 in
    if is_empty rmag
    then zero_int
    else if x.negative
    then from_mag (mag_sub modulus.mag rmag) false
    else from_mag rmag false

-- The inner loop of modpow over the bits of one limb, from bit n - 1 down to bit 0.
unfoldable pub bit_loop : BigInt → BigInt → ℕ → ℕ → BigInt → BigInt
bit_loop base modulus zero limb result = result
bit_loop base modulus (suc bit) limb result =
    let squared = reduce_mod (multiply result result) modulus in
    bit_loop base modulus bit limb
      (if limb / 2 ^ bit % 2 == 0 then squared else reduce_mod (multiply squared base) modulus)

-- The outer loop, from the top limb of the exponent down; the top limb's leading zeros are skipped.
unfoldable pub limb_loop : BigInt → BigInt → Limbs → BigInt → BigInt
unfolding bit_loop
limb_loop base modulus [] result = result
limb_loop base modulus (x ∷ []) result = bit_loop base modulus (32 - countl_zero 32 x) x result
limb_loop base modulus (x ∷ y ∷ ys) result =
    bit_loop base modulus 32 x (limb_loop base modulus (y ∷ ys) result)

unfoldable pub modpow : BigInt → BigInt → BigInt → Result BigInt
unfolding limb_loop sign
modpow a exp modulus =
    if exp.negative
    then err domain_error
    else if is_at_most_zero (sign modulus)
    then err domain_error
    else let base = reduce_mod a modulus in
      let result = reduce_mod (from_u64 1) modulus in
      ok (if is_empty exp.mag then result else limb_loop base modulus exp.mag result)
