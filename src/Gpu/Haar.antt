-- ===== src/Gpu/Haar.antt =====
-- src/gpu/gpu_kernels.cu: haar_dwt_batch_kernel and nimblecas_gpu_haar_dwt_batch. The `double`s are
-- a parameter, with their operations and the constant inv_sqrt2.
pub mod Result
use nimble_cas.Prelude.{
  ℕ, zero, suc, ◌+◌, ◌-◌, ◌*◌, ◌/◌, ◌%◌, ◌^◌, List, [], ◌∷◌, ◌||◌, ◌==◌, if◌then◌else◌, get_or,
}
use nimble_cas.Prelude.Int.{ℤ, pos_part}
use nimble_cas.Cuda.Calls.{extent_of, Memory, store, Call, Gpu, pure, fail, ◌>>=◌, ◌>>◌, checked}
use nimble_cas.Cuda.Host.{HostBuffer, with_pinned, with_buffers, choose_blocks, launch_and_read}
use nimble_cas.Cuda.Wrap.{int_grid_stride}

-- cudaErrorInvalidValue
abbrev pub invalid_value : ℕ
invalid_value = 1

module _ {D : Type 0} (add sub mul : D → D → D) (inv_sqrt2 : D) where
  -- One round. No offset wraps when batch * len fits in an `int`.
  unfoldable pub haar_pair : ℕ → ℕ → ℕ → ℕ → ℕ → Memory D → Memory D
  haar_pair input len half out idx memory =
      let blk = idx / half in
      let k = idx - blk * half in
      let base = blk * len in
      let e = memory input (base + 2 * k) in
      let o = memory input (base + 2 * k + 1) in
      store out (base + half + k) (mul (sub e o) inv_sqrt2)
        (store out (base + k) (mul (add e o) inv_sqrt2) memory)

  unfoldable pub haar_dwt_batch_kernel : ℕ → ℕ → ℕ → ℕ → ℕ → ℕ → ℕ → Memory D → Memory D
  haar_dwt_batch_kernel input batch len half out stride =
      int_grid_stride stride (batch * half % 2 ^ 32) (haar_pair input len half out)

  unfoldable pub haar_body : List D → ℕ → ℕ → List ℕ → Gpu D (List D)
  haar_body signal batch len pointers = do
    let half = len / 2
    let dev_in = get_or pointers 0 0
    let dev_out = get_or pointers 1 0
    checked (Call.copy_in dev_in 0 signal (extent_of (batch * len) 8))
    blocks ← choose_blocks (batch * half) 256
    launch_and_read blocks 256 (blocks * 256)
        (haar_dwt_batch_kernel dev_in batch len half dev_out (blocks * 256)) dev_out
        (extent_of (batch * len) 8)

  unfoldable pub haar_on_device : HostBuffer D → ℕ → ℕ → ℕ → Gpu D (List D)
  haar_on_device signal batch len out = with_pinned signal.address (extent_of (batch * len) 8) (
      with_pinned out (extent_of (batch * len) 8) (
        with_buffers (extent_of (batch * len) 8 ∷ extent_of (batch * len) 8 ∷ [])
          (haar_body signal.content batch len)))

  -- The cells written to `out`, whose address is the last argument.
  unfoldable pub haar_dwt_batch : HostBuffer D → ℤ → ℤ → ℕ → Gpu D (List D)
  haar_dwt_batch signal batch len out =
      if ((pos_part batch == 0) || (pos_part len == 0))
      then pure []
      else if pos_part len % 2 == 0
      then haar_on_device signal (pos_part batch) (pos_part len) out
      else fail invalid_value
