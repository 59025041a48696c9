-- ===== src/Gpu/BlackScholes/Result.antt =====
-- The batches of Black-Scholes prices and derivatives: their use of device memory.
use nimble_cas.Prelude.{◌≡◌, List}
use nimble_cas.Prelude.Int.{ℤ}
use nimble_cas.Cuda.Calls.{Runtime, Trace, done}
use nimble_cas.Cuda.Ledger.{IsSettled}
use nimble_cas.Cuda.Healthy.{IsHealthy}
use nimble_cas.Gpu.Options.{BsOption, Slot}
use nimble_cas.Gpu.Options.Result.{option_batch-IsSettled, option_batch-completes}
use nimble_cas.Gpu.BlackScholes.{Formulas, black_scholes_price, blank_option, black_scholes_batch}
use nimble_cas.Gpu.BlackScholes.Grid.{bs_blocks-IsChoice}

module _ {D : Type 0} (ops : Formulas D) where
  -- On any CUDA runtime, whichever calls fail: from before nimblecas_gpu_black_scholes_batch to
  -- after it, each non-null device pointer is freed as often as it was allocated, and each host
  -- buffer is unregistered as often as it was registered.
  pub black_scholes_batch-IsSettled :
      (opts : List (BsOption D)) (n : ℤ) (cuda : Runtime (Slot (BsOption D) D))
      (log : Trace (Slot (BsOption D) D))
      → IsSettled log (black_scholes_batch ops opts n cuda log).1
  unfolding black_scholes_batch
  black_scholes_batch-IsSettled opts n cuda log =
      option_batch-IsSettled (blank_option ops) _ (black_scholes_price ops)
        (λ work threads. bs_blocks-IsChoice work threads) 56 8 opts n cuda log

  -- completes
  pub black_scholes_batch-completes :
      (opts : List (BsOption D)) (n : ℤ) (cuda : Runtime (Slot (BsOption D) D))
      (log : Trace (Slot (BsOption D) D))
      → IsHealthy cuda
      → (v : List (Slot (BsOption D) D)) × ((black_scholes_batch ops opts n cuda log).0 ≡ done v)
  unfolding black_scholes_batch
  black_scholes_batch-completes opts n cuda log healthy =
      option_batch-completes (blank_option ops) _ (black_scholes_price ops)
        (λ work threads. bs_blocks-IsChoice work threads) 56 8 opts n cuda log healthy
