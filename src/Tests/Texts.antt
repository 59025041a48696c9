-- ===== src/Tests/Texts.antt =====
-- Decimal text at concrete values, and a run of both directions.
use nimble_cas.Prelude.{ℕ, ◌⊎◌, ◌≡◌, refl, [], ◌∷◌, true, arith}
use nimble_cas.Prelude.Int.{pos}
use nimble_cas.Core.{ok, err, syntax_error}
use nimble_cas.BigInt.{BigInt, from_mag}
use nimble_cas.Magnitude.{divmod_small, mul_small, add_small, trim}
use nimble_cas.Text.{from_string, to_string}
use nimble_cas.BigInt.Value.{signed}
use nimble_cas.BigInt.Arith.{Is}
use nimble_cas.Text.Parse.{decimal, sign_code, IsDecimal, from_string_lem, from_string-ok}
use nimble_cas.Text.RoundTrip.{from_string-to_string}
use nimble_cas.Tests.Data.{minus_wide, minus_wide-IsValid, small}

-- "-18446744073709551621"
to_string_runs :
    to_string minus_wide
    ≡ 45 ∷ 49 ∷ 56 ∷ 52 ∷ 52 ∷ 54 ∷ 55 ∷ 52 ∷ 52 ∷ 48 ∷ 55 ∷ 51 ∷ 55 ∷ 48 ∷ 57 ∷ 53 ∷ 53 ∷ 49 ∷ 54
      ∷ 50 ∷ 49 ∷ []
unfolding to_string divmod_small
to_string_runs = refl

-- "-" and "1a"
from_string_refuses :
    (from_string (45 ∷ []) ≡ err syntax_error) × (from_string (49 ∷ 97 ∷ []) ≡ err syntax_error)
unfolding from_string
from_string_refuses = (refl, refl)

from_string_example :
    ((r : BigInt) × (from_string (52 ∷ 50 ∷ []) ≡ ok r) × Is r (pos (decimal 0 (52 ∷ 50 ∷ []))))
    × ((r : BigInt) × (from_string (sign_code true ∷ 52 ∷ 50 ∷ []) ≡ ok r)
        × Is r (signed true (decimal 0 (52 ∷ 50 ∷ []))))
from_string_example =
    from_string_lem true 52 (50 ∷ []) (omega arith, omega arith) ((omega arith, omega arith), tt)

from_string-to_string_example : from_string (to_string minus_wide) ≡ ok minus_wide
from_string-to_string_example = from_string-to_string minus_wide minus_wide-IsValid

-- '1'
abbrev digit_one : ℕ
digit_one = 49

one_read : from_string (digit_one ∷ []) ≡ ok (small 1)
unfolding from_string mul_small add_small from_mag trim
one_read = refl

from_string-ok_example :
    (((digit_one ≡ 43) ⊎ (digit_one ≡ 45)) × IsDecimal []) ⊎ IsDecimal (digit_one ∷ [])
from_string-ok_example = from_string-ok digit_one [] (small 1) one_read
