-- ===== src/Gpu/Options.antt =====
-- src/gpu/gpu_kernels.cu and src/gpu/gpu_pricing_kernels.cu: the host functions that compute one
-- value for each option of a batch. They differ in their kernel's formula, in the size of a value
-- and in their choice of the grid.
pub mod Result
use nimble_cas.Prelude.{ℕ, ◌*◌, List, [], ◌∷◌, ◌==◌, if◌then◌else◌, get_or, map}
use nimble_cas.Prelude.Int.{ℤ, pos_part}
use nimble_cas.Cuda.Calls.{extent_of, Memory, store, Call, Gpu, pure, ◌>>=◌, ◌>>◌, checked}
use nimble_cas.Cuda.Host.{with_buffers, launch_and_read}
use nimble_cas.Cuda.Grid.{grid_stride}

-- struct NimblecasBsOption
pub record BsOption (D : Type 0) : Type 0 where
  pub spot : D
  pub strike : D
  pub rate : D
  pub dividend : D
  pub volatility : D
  pub time : D
  pub is_call : ℕ

-- A cell of device memory: an option or a result.
pub data Slot (O R : Type 0) : Type 0 where
  option : O → Slot O R
  value : R → Slot O R

abbrev pub as_option : {O R : Type 0} → O → Slot O R → O
as_option blank (option o) = o
as_option blank (value r) = blank

-- The loop of a kernel: over an `int` or over a `long long`.
abbrev pub Loop : Type 0 → Type 0
Loop M = ℕ → ℕ → (ℕ → M → M) → ℕ → M → M

module _ {O R : Type 0} (blank : O) (loop : Loop (Memory (Slot O R))) (point : O → R) where
  unfoldable pub option_kernel : ℕ → ℕ → ℕ → ℕ → ℕ → Memory (Slot O R) → Memory (Slot O R)
  option_kernel opts out n stride =
      loop stride n λ i memory. store out i (value (point (as_option blank (memory opts i)))) memory

  unfoldable pub option_body :
      (ℕ → ℕ → Gpu (Slot O R) ℕ)
      → ℕ
      → ℕ
      → List (Slot O R)
      → ℕ
      → List ℕ
      → Gpu (Slot O R) (List (Slot O R))
  option_body blocks_for in_width out_width opts n pointers = do
    let dev_opts = get_or pointers 0 0
    let dev_out = get_or pointers 1 0
    checked (Call.copy_in dev_opts 0 opts (extent_of n in_width))
    blocks ← blocks_for n 256
    launch_and_read blocks 256 (blocks * 256) (option_kernel dev_opts dev_out n (blocks * 256))
        dev_out (extent_of n out_width)

  -- The cells written to `out`.
  unfoldable pub option_batch :
      (ℕ → ℕ → Gpu (Slot O R) ℕ) → ℕ → ℕ → List O → ℤ → Gpu (Slot O R) (List (Slot O R))
  option_batch blocks_for in_width out_width opts n =
      if pos_part n == 0
      then pure []
      else with_buffers (extent_of (pos_part n) in_width ∷ extent_of (pos_part n) out_width ∷ [])
          (option_body blocks_for in_width out_width (map option opts) (pos_part n))
