-- ===== src/Tests/Prices.antt =====
-- The theorems on the batches of options, run on a device of the tests with numbers for doubles.
use nimble_cas.Prelude.{ℕ, ◌+◌, ◌-◌, ◌*◌, ◌/◌, ◌≡◌, refl, List, [], ◌∷◌, map, max, ltb, ◌==◌}
use nimble_cas.Prelude.Int.{pos}
use nimble_cas.Cuda.Calls.{done, ◌>>=◌, pure, call, checked}
use nimble_cas.Cuda.Host.{with_buffers, allocate, free_all, release, launch_and_read}
use nimble_cas.Cuda.Device as CurrentDevice
use nimble_cas.Cuda.Memory.{contents, read, overlay}
use nimble_cas.Cuda.Grid.{strided, run_units}
use nimble_cas.Cuda.Wrap.{int_strided}
use nimble_cas.Cuda.Ledger.{IsSettled}
use nimble_cas.Gpu.Options.{BsOption, Slot, value, option_kernel, option_body, option_batch}
use nimble_cas.Gpu.BlackScholes.{
  Formulas, BsGreeks, bs_blocks, bs_norm_cdf, discounted_intrinsic, black_scholes_price,
  degenerate_greeks, analytic_greeks, bs_greeks, black_scholes_batch, bs_greeks_batch,
}
use nimble_cas.Gpu.BlackScholes.Result.{black_scholes_batch-IsSettled}
use nimble_cas.Tests.Device.{device, up_to, highest}

abbrev formulas : Formulas ℕ
formulas = record {
  add = ◌+◌;
  sub = ◌-◌;
  mul = ◌*◌;
  div = ◌/◌;
  mul_add = λ x y c. x * y + c;
  mul_less = λ x y c. x * y - c;
  less_mul = λ c x y. c - x * y;
  mul_less_mul = λ a x b y. a * x - b * y;
  mul_add_mul = λ a x b y. a * x + b * y;
  fmax = max;
  neg = λ x. x;
  exp = λ x. x + 1;
  log = λ x. x;
  sqrt = λ x. x;
  erfc = λ x. x;
  equals = ◌==◌;
  below = ltb;
  nought = 0;
  half = 1;
  one = 1;
  two = 2;
  inv_sqrt_2 = 1;
  inv_sqrt_2_pi = 1;
  bump = 1;
}

-- A call, a put, and a call that expires at once.
abbrev book : List (BsOption ℕ)
book =
    record { spot = 6; strike = 2; rate = 3; dividend = 1; volatility = 2; time = 1; is_call = 1 }
    ∷ record { spot = 5; strike = 9; rate = 2; dividend = 1; volatility = 1; time = 1; is_call = 0 }
    ∷ record { spot = 7; strike = 3; rate = 1; dividend = 1; volatility = 1; time = 0; is_call = 1 }
    ∷ []

abbrev no_price : Slot (BsOption ℕ) ℕ
no_price = value 0

abbrev no_greeks : Slot (BsOption ℕ) (BsGreeks ℕ)
no_greeks = value (record { price = 0; delta = 0; gamma = 0; vega = 0; theta = 0; rho = 0 })

black_scholes_batch-IsSettled_example :
    IsSettled [] (black_scholes_batch formulas book (pos 3) (device no_price) []).1
black_scholes_batch-IsSettled_example =
    black_scholes_batch-IsSettled formulas book (pos 3) (device no_price) []

-- All three options, on the device.
prices_run :
    (black_scholes_batch formulas book (pos 3) (device no_price) []).0
    ≡ done (map (λ o. value (black_scholes_price formulas o)) book)
unfolding black_scholes_batch black_scholes_price discounted_intrinsic bs_norm_cdf bs_blocks
    option_batch option_body option_kernel ◌>>=◌ pure call checked with_buffers allocate free_all
    release launch_and_read contents read overlay int_strided run_units device up_to highest
prices_run = refl

greeks_run :
    (bs_greeks_batch formulas book (pos 3) (device no_greeks) []).0
    ≡ done (map (λ o. value (bs_greeks formulas o)) book)
unfolding bs_greeks_batch bs_greeks degenerate_greeks analytic_greeks discounted_intrinsic
    CurrentDevice.choose_blocks option_batch option_body option_kernel ◌>>=◌ pure call checked
    with_buffers allocate free_all release launch_and_read contents read overlay strided run_units
    device up_to highest
greeks_run = refl
