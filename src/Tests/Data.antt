-- ===== src/Tests/Data.antt =====
-- Values of src/bigint/bigint.cppm and src/bigrational/bigrational.cppm for the tests.
use Prim.Native.Nat.{◌∣◌}
use nimble_cas.Prelude.{ℕ, ◌<◌, ◌≢◌, refl, subst, [], ◌∷◌, true, false, arith}
use nimble_cas.Magnitude.{Limbs, limb_base}
use nimble_cas.Magnitude.Value.{IsLimbs, IsTrimmed}
use nimble_cas.BigInt.{BigInt}
use nimble_cas.BigInt.Value.{IsValid}
use nimble_cas.BigRational.{BigRational}
use nimble_cas.BigRational.Exact.{Coprime-one}
use nimble_cas.BigRational.Reduced.{IsReduced}

-- 2^64 + 5
abbrev pub wide : Limbs
wide = 5 ∷ 0 ∷ 1 ∷ []

pub wide-IsLimbs : IsLimbs wide
wide-IsLimbs = (omega arith, (omega arith, (omega arith, tt)))

pub wide-IsTrimmed : IsTrimmed wide
wide-IsTrimmed h = absurd (omega (arith, h))

-- 2^32 + 3
abbrev pub two_limbs : Limbs
two_limbs = 3 ∷ 1 ∷ []

pub two_limbs-IsLimbs : IsLimbs two_limbs
two_limbs-IsLimbs = (omega arith, (omega arith, tt))

pub two_limbs-IsTrimmed : IsTrimmed two_limbs
two_limbs-IsTrimmed h = absurd (omega (arith, h))

abbrev pub minus_wide : BigInt
minus_wide = record { negative = true; mag = wide }

cons-ne : (x : ℕ) (xs : Limbs) → x ∷ xs ≢ []
cons-ne x xs h = cc

pub minus_wide-IsValid : IsValid minus_wide
minus_wide-IsValid = record {
  limbs = wide-IsLimbs;
  trimmed = wide-IsTrimmed;
  no_minus_zero = λ e. absurd (cons-ne _ _ e);
}

abbrev pub middle : BigInt
middle = record { negative = false; mag = two_limbs }

pub middle-IsValid : IsValid middle
middle-IsValid = record {
  limbs = two_limbs-IsLimbs;
  trimmed = two_limbs-IsTrimmed;
  no_minus_zero = λ e. refl;
}

-- A value of one limb.
abbrev pub small : ℕ → BigInt
small n = record { negative = false; mag = n ∷ [] }

pub small-IsValid : (n : ℕ) → 0 < n → n < limb_base → IsValid (small n)
small-IsValid n h l = record {
  limbs = (l, tt);
  trimmed = λ z. absurd (omega (arith, z));
  no_minus_zero = λ e. refl;
}

abbrev pub minus_small : ℕ → BigInt
minus_small n = record { negative = true; mag = n ∷ [] }

pub minus_small-IsValid : (n : ℕ) → 0 < n → n < limb_base → IsValid (minus_small n)
minus_small-IsValid n h l = record {
  limbs = (l, tt);
  trimmed = λ z. absurd (omega (arith, z));
  no_minus_zero = λ e. absurd (cons-ne _ _ e);
}

-- -5, as a fraction.
abbrev pub minus_five : BigRational
minus_five = record { num = minus_small 5; den = small 1 }

-- 1 / 6.
abbrev pub sixth : BigRational
sixth = record { num = small 1; den = small 6 }

pub minus_five-IsReduced : IsReduced minus_five
minus_five-IsReduced = record {
  num_valid = minus_small-IsValid 5 (omega arith) (omega arith);
  den_valid = small-IsValid 1 (omega arith) (omega arith);
  below = 1;
  den_is = refl;
  den_pos = omega arith;
  coprime = Coprime-one 5;
}

pub sixth-IsReduced : IsReduced sixth
sixth-IsReduced = record {
  num_valid = small-IsValid 1 (omega arith) (omega arith);
  den_valid = small-IsValid 6 (omega arith) (omega arith);
  below = 6;
  den_is = refl;
  den_pos = omega arith;
  coprime = λ k c h _. subst (λ (t : ℕ). k ∣ t) (omega arith) h;
}
