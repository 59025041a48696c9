-- ===== src/Core.antt =====
-- src/core/core.cppm: the error values of the engine, and `Result`.

-- enum class MathError
pub data MathError : Type 0 where
  division_by_zero undefined_value overflow domain_error syntax_error : MathError
  not_implemented gpu_error inexact not_converged distributed_error : MathError

-- template <typename T> using Result = std::expected<T, MathError>
pub data Result {ℓ} (T : Type ℓ) : Type ℓ where
  ok : T → Result T
  err : MathError → Result T

-- `if (!x) return make_error(x.error())`, and the code below it.
infixl 5 ◌>>=◌
abbrev pub ◌>>=◌ {ℓ κ} : {T : Type ℓ} {U : Type κ} → Result T → (T → Result U) → Result U
x >>= continue = elim x [ err reason ↦ err reason | ok v ↦ continue v ]
