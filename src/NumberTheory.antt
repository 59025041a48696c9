-- ===== src/NumberTheory.antt =====
-- src/numbertheory/numbertheory.cppm: the floored remainder, extended Euclid and the inverse modulo m.
pub mod Integers
pub mod Floor
pub mod Euclid
pub mod Inverse
use nimble_cas.Prelude.{ℕ, zero, suc, Bool, true, false, not, if◌then◌else◌}
use nimble_cas.Prelude.Int.{ℤ, pos, negsuc}
use nimble_cas.Core.{Result, ok, err, domain_error}
use nimble_cas.Magnitude.Value.{value}
use nimble_cas.BigInt.{
  BigInt, zero_int, from_u64, is_zero, sign, is_at_most_zero, negate, eq, add, subtract, multiply,
  divmod,
}

-- `dm.has_value() ? dm->first : BigInt{}`
abbrev pub first_or_zero : Result (BigInt × BigInt) → BigInt
first_or_zero (ok qr) = qr.0
first_or_zero (err e) = zero_int

-- `dm.has_value() && dm->second.is_zero()`
abbrev pub second_is_zero : Result (BigInt × BigInt) → Bool
second_is_zero (ok qr) = is_zero qr.1
second_is_zero (err e) = false

unfoldable pub is_even : BigInt → Bool
is_even x = second_is_zero (divmod x (from_u64 2))

unfoldable pub halve : BigInt → BigInt
halve x = first_or_zero (divmod x (from_u64 2))

-- A remainder below zero is folded up by one modulus.
abbrev pub fold_up : BigInt → Result (BigInt × BigInt) → BigInt
fold_up m (ok qr) = if qr.1.negative then add qr.1 m else qr.1
fold_up m (err e) = zero_int

unfoldable pub mod_floor : BigInt → BigInt → BigInt
mod_floor x m = fold_up m (divmod x m)

pub record ExtGcd : Type 0 where
  pub g : BigInt
  pub x : BigInt
  pub y : BigInt

-- The loop of extended_gcd; the absolute value of r falls in each round, and bounds the rounds.
unfoldable pub euclid_loop : ℕ → BigInt → BigInt → BigInt → BigInt → BigInt → BigInt → ExtGcd
euclid_loop zero old_r r old_s s old_t t = record { g = old_r; x = old_s; y = old_t }
euclid_loop (suc fuel) old_r r old_s s old_t t =
    let q = first_or_zero (divmod old_r r) in
    let next =
      euclid_loop fuel r (subtract old_r (multiply q r)) s (subtract old_s (multiply q s)) t
        (subtract old_t (multiply q t)) in
    if is_zero r then record { g = old_r; x = old_s; y = old_t } else next

-- The triple with g at least zero.
abbrev pub normalise_triple : ExtGcd → ExtGcd
normalise_triple e =
    if e.g.negative then record { g = negate e.g; x = negate e.x; y = negate e.y } else e

unfoldable pub extended_gcd : BigInt → BigInt → ExtGcd
unfolding euclid_loop
extended_gcd a b =
    normalise_triple
      (euclid_loop (suc (value b.mag)) a b (from_u64 1) zero_int zero_int (from_u64 1))

unfoldable pub mod_inverse : BigInt → BigInt → Result BigInt
mod_inverse a m =
    let eg = extended_gcd a m in
    if is_at_most_zero (sign m)
    then err domain_error
    else if not (eq eg.g (from_u64 1))
    then err domain_error
    else ok (mod_floor eg.x m)
