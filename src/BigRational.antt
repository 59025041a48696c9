-- ===== src/BigRational.antt =====
-- src/bigrational/bigrational.cppm: BigRational, exact fractions of BigInt in lowest terms.
-- `none` is a failed assertion of divide_checked, which the theorems exclude.
pub mod Exact
pub mod Reduced
pub mod Field
pub mod Power
pub mod Compare
use nimble_cas.Prelude.{
  ℕ, ◌+◌, ◌-◌, ◌%◌, ◌^◌, Ordering, Bool, true, false, ◌&&◌, if◌then◌else◌, Option, some, none, ◌==◌,
}
use nimble_cas.Prelude.Int.{ℤ, pos, negsuc}
use nimble_cas.Core.{MathError, division_by_zero, Result, ok, err}
use nimble_cas.Magnitude.{u64}
use nimble_cas.BigInt.{
  BigInt, from_u64, from_i64, is_zero as int_is_zero, negate as int_negate, cmp as int_cmp,
  eq as int_eq, add as int_add, subtract as int_subtract, multiply as int_multiply,
  divide as int_divide, pow as int_pow, gcd, to_u64, is_less_zero,
}

pub record BigRational : Type 0 where
  pub num : BigInt
  pub den : BigInt

-- A division whose result the source asserts.
unfoldable pub divide_checked : BigInt → BigInt → Option BigInt
divide_checked a b = elim (int_divide a b) [ ok q ↦ some q | err e ↦ none ]

unfoldable pub from_bigint : BigInt → BigRational
from_bigint n = record { num = n; den = from_u64 1 }

unfoldable pub from_int : ℤ → BigRational
from_int v = from_bigint (from_i64 v)

-- Lines 1 to 4 of normalise: the sign is moved onto the numerator.
abbrev pub sign_num : BigInt → BigInt → BigInt
sign_num num den = if den.negative then int_negate num else num

abbrev pub sign_den : BigInt → BigInt
sign_den den = if den.negative then int_negate den else den

unfoldable pub normalise : BigInt → BigInt → Option BigRational
normalise num den =
    let g = gcd (sign_num num den) (sign_den den) in
    elim (divide_checked (sign_num num den) g) [
      | none ↦ none
      | some n ↦ elim (divide_checked (sign_den den) g) [
        | none ↦ none
        | some d ↦ some (record { num = n; den = d })
      ]
    ]

-- A value as a Result.
abbrev pub returned : Option BigRational → Option (Result BigRational)
returned (some r) = some (ok r)
returned none = none

unfoldable pub make : BigInt → BigInt → Option (Result BigRational)
make num den = if int_is_zero den then some (err division_by_zero) else returned (normalise num den)

unfoldable pub is_zero : BigRational → Bool
is_zero a = int_is_zero a.num

unfoldable pub is_integer : BigRational → Bool
is_integer a = int_eq a.den (from_u64 1)

unfoldable pub add : BigRational → BigRational → Option BigRational
add a o =
    normalise (int_add (int_multiply a.num o.den) (int_multiply o.num a.den))
      (int_multiply a.den o.den)

unfoldable pub subtract : BigRational → BigRational → Option BigRational
subtract a o =
    normalise (int_subtract (int_multiply a.num o.den) (int_multiply o.num a.den))
      (int_multiply a.den o.den)

unfoldable pub multiply : BigRational → BigRational → Option BigRational
multiply a o = normalise (int_multiply a.num o.num) (int_multiply a.den o.den)

unfoldable pub negate : BigRational → BigRational
negate a = record { num = int_negate a.num; den = a.den }

unfoldable pub divide : BigRational → BigRational → Option (Result BigRational)
divide a o =
    if is_zero o
    then some (err division_by_zero)
    else returned (normalise (int_multiply a.num o.den) (int_multiply a.den o.num))

unfoldable pub reciprocal : BigRational → Option (Result BigRational)
reciprocal a = if is_zero a then some (err division_by_zero) else returned (normalise a.den a.num)

abbrev pub is_zero_ℤ : ℤ → Bool
is_zero_ℤ (pos n) = n == 0
is_zero_ℤ (negsuc n) = false

-- |exp| of a `std::int64_t`, in the unsigned type.
abbrev pub exp_size : ℤ → ℕ
exp_size exp = if is_less_zero exp then u64 (0 + 2 ^ 64 - to_u64 exp) else to_u64 exp

unfoldable pub pow : BigRational → ℤ → Option (Result BigRational)
pow a exp =
    if is_zero_ℤ exp
    then some (ok (from_int (pos 1)))
    else if is_less_zero exp && is_zero a
    then some (err division_by_zero)
    else let np = int_pow a.num (exp_size exp) in
      let dp = int_pow a.den (exp_size exp) in
      if is_less_zero exp
      then returned (normalise dp np)
      else some (ok (record { num = np; den = dp }))

-- operator<=>
unfoldable pub cmp : BigRational → BigRational → Ordering
cmp a o = int_cmp (int_multiply a.num o.den) (int_multiply o.num a.den)

-- operator==
unfoldable pub eq : BigRational → BigRational → Bool
eq a o = int_eq a.num o.num && int_eq a.den o.den
