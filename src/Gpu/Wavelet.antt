-- ===== src/Gpu/Wavelet.antt =====
-- src/gpu/gpu_wavelet_kernels.cu: the decimated and the stationary wavelet transform of a batch of
-- signals, kernels and host functions. The `double`s are a parameter, with fma and 0.0.
pub mod Result
pub mod Buffers
use nimble_cas.Prelude.{
  ℕ, zero, suc, ◌+◌, ◌-◌, ◌*◌, ◌/◌, ◌%◌, List, [], ◌∷◌, ◌||◌, ◌==◌, if◌then◌else◌, get_or,
}
use nimble_cas.Prelude.Int.{ℤ, pos_part}
use nimble_cas.Cuda.Calls.{extent_of, Memory, store, Call, Gpu, pure, fail, ◌>>=◌, ◌>>◌, checked}
use nimble_cas.Cuda.Host.{HostBuffer, with_pinned, with_buffers, launch_and_read}
use nimble_cas.Cuda.Device.{choose_blocks}
use nimble_cas.Cuda.Grid.{grid_stride}
use nimble_cas.Gpu.Haar.{invalid_value}

module _ {D : Type 0} (nought : D) (fma : D → D → D → D) where
  -- for (int k = 0; k < flen; ++k) { s = fma(filter[k], x, s); }
  unfoldable pub filtered : (ℕ → D) → (ℕ → D) → ℕ → D
  filtered taps x zero = nought
  filtered taps x (suc k) = fma (taps k) (x k) (filtered taps x k)

  unfoldable pub dwt_pair : ℕ → ℕ → ℕ → ℕ → ℕ → ℕ → ℕ → ℕ → Memory D → Memory D
  dwt_pair input len half lo hi flen out idx memory =
      let blk = idx / half in
      let i = idx - blk * half in
      let base = blk * len in
      let x = λ (k : ℕ). memory input (base + (2 * i + k) % len) in
      let sa = filtered (memory lo) x flen in
      let sd = filtered (memory hi) x flen in
      store out (base + half + i) sd (store out (base + i) sa memory)

  unfoldable pub dwt_batch_kernel : ℕ → ℕ → ℕ → ℕ → ℕ → ℕ → ℕ → ℕ → ℕ → ℕ → Memory D → Memory D
  dwt_batch_kernel input batch len half lo hi flen out stride =
      grid_stride stride (batch * half) (dwt_pair input len half lo hi flen out)

  unfoldable pub swt_pair : ℕ → ℕ → ℕ → ℕ → ℕ → ℕ → ℕ → Memory D → Memory D
  swt_pair input len lo hi flen out idx memory =
      let blk = idx / len in
      let i = idx - blk * len in
      let base_in = blk * len in
      let base_out = blk * (2 * len) in
      let x = λ (k : ℕ). memory input (base_in + (i + k) % len) in
      let sa = filtered (memory lo) x flen in
      let sd = filtered (memory hi) x flen in
      store out (base_out + len + i) sd (store out (base_out + i) sa memory)

  unfoldable pub swt_batch_kernel : ℕ → ℕ → ℕ → ℕ → ℕ → ℕ → ℕ → ℕ → ℕ → Memory D → Memory D
  swt_batch_kernel input batch len lo hi flen out stride =
      grid_stride stride (batch * len) (swt_pair input len lo hi flen out)

  -- The buffers in the order of their declarations: the samples, the output, the two filters.
  unfoldable pub dwt_body : List D → ℕ → ℕ → List D → List D → ℕ → List ℕ → Gpu D (List D)
  dwt_body signal batch len lo hi flen pointers = do
    let half = len / 2
    let dev_in = get_or pointers 0 0
    let dev_out = get_or pointers 1 0
    let dev_lo = get_or pointers 2 0
    let dev_hi = get_or pointers 3 0
    checked (Call.copy_in dev_in 0 signal (extent_of (batch * len) 8))
    checked (Call.copy_in dev_lo 0 lo (extent_of flen 8))
    checked (Call.copy_in dev_hi 0 hi (extent_of flen 8))
    blocks ← choose_blocks (batch * half) 256
    launch_and_read blocks 256 (blocks * 256)
        (dwt_batch_kernel dev_in batch len half dev_lo dev_hi flen dev_out (blocks * 256)) dev_out
        (extent_of (batch * len) 8)

  unfoldable pub dwt_on_device :
      HostBuffer D → ℕ → ℕ → HostBuffer D → HostBuffer D → ℕ → ℕ → Gpu D (List D)
  dwt_on_device signal batch len lo hi flen out =
      with_pinned signal.address (extent_of (batch * len) 8) (
        with_pinned out (extent_of (batch * len) 8) (
          with_pinned lo.address (extent_of flen 8) (
            with_pinned hi.address (extent_of flen 8) (
              with_buffers
                (extent_of (batch * len) 8
                  ∷ extent_of (batch * len) 8
                  ∷ extent_of flen 8
                  ∷ extent_of flen 8
                  ∷ [])
                (dwt_body signal.content batch len lo.content hi.content flen)))))

  -- The cells written to `out`, whose address is the last argument.
  unfoldable pub dwt_batch :
      HostBuffer D → ℤ → ℤ → HostBuffer D → HostBuffer D → ℤ → ℕ → Gpu D (List D)
  dwt_batch signal batch len lo hi flen out =
      if ((pos_part batch == 0) || ((pos_part len == 0) || (pos_part flen == 0)))
      then pure []
      else if pos_part len % 2 == 0
      then (if ((signal.address == 0) || ((lo.address == 0) || ((hi.address == 0) || (out == 0))))
          then fail invalid_value
          else dwt_on_device signal (pos_part batch) (pos_part len) lo hi (pos_part flen) out)
      else fail invalid_value

  unfoldable pub swt_body : List D → ℕ → ℕ → List D → List D → ℕ → List ℕ → Gpu D (List D)
  swt_body signal batch len lo hi flen pointers = do
    let dev_in = get_or pointers 0 0
    let dev_out = get_or pointers 1 0
    let dev_lo = get_or pointers 2 0
    let dev_hi = get_or pointers 3 0
    checked (Call.copy_in dev_in 0 signal (extent_of (batch * len) 8))
    checked (Call.copy_in dev_lo 0 lo (extent_of flen 8))
    checked (Call.copy_in dev_hi 0 hi (extent_of flen 8))
    blocks ← choose_blocks (batch * len) 256
    launch_and_read blocks 256 (blocks * 256)
        (swt_batch_kernel dev_in batch len dev_lo dev_hi flen dev_out (blocks * 256)) dev_out
        (extent_of (batch * (2 * len)) 8)

  unfoldable pub swt_on_device :
      HostBuffer D → ℕ → ℕ → HostBuffer D → HostBuffer D → ℕ → ℕ → Gpu D (List D)
  swt_on_device signal batch len lo hi flen out =
      with_pinned signal.address (extent_of (batch * len) 8) (
        with_pinned out (extent_of (batch * (2 * len)) 8) (
          with_pinned lo.address (extent_of flen 8) (
            with_pinned hi.address (extent_of flen 8) (
              with_buffers
                (extent_of (batch * len) 8
                  ∷ extent_of (batch * (2 * len)) 8
                  ∷ extent_of flen 8
                  ∷ extent_of flen 8
                  ∷ [])
                (swt_body signal.content batch len lo.content hi.content flen)))))

  unfoldable pub swt_batch :
      HostBuffer D → ℤ → ℤ → HostBuffer D → HostBuffer D → ℤ → ℕ → Gpu D (List D)
  swt_batch signal batch len lo hi flen out =
      if ((pos_part batch == 0) || ((pos_part len == 0) || (pos_part flen == 0)))
      then pure []
      else if ((signal.address == 0) || ((lo.address == 0) || ((hi.address == 0) || (out == 0))))
      then fail invalid_value
      else swt_on_device signal (pos_part batch) (pos_part len) lo hi (pos_part flen) out
