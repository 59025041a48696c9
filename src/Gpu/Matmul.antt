-- ===== src/Gpu/Matmul.antt =====
-- src/gpu/gpu_kernels.cu: batched_matmul_kernel and nimblecas_gpu_batched_matmul. The `double`s are
-- a parameter, with the operation x * y + c, that nvcc may fuse.
pub mod Index
pub mod Result
use nimble_cas.Prelude.{
  ℕ, zero, suc, ◌+◌, ◌-◌, ◌*◌, ◌/◌, ◌%◌, ◌^◌, List, [], ◌∷◌, ◌||◌, ◌==◌, if◌then◌else◌, get_or,
}
use nimble_cas.Prelude.Int.{ℤ, pos_part}
use nimble_cas.Cuda.Calls.{extent_of, Memory, store, Call, Gpu, pure, ◌>>=◌, ◌>>◌, checked}
use nimble_cas.Cuda.Host.{HostBuffer, with_pinned, with_buffers, choose_blocks, launch_and_read}
use nimble_cas.Cuda.Wrap.{int_grid_stride}

module _ {D : Type 0} (nought : D) (mul_add : D → D → D → D) where
  -- for (int l = 0; l < k; ++l) { acc += ...; }
  unfoldable pub dot : (ℕ → D) → (ℕ → D) → ℕ → D
  dot row column zero = nought
  dot row column (suc l) = mul_add (row l) (column l) (dot row column l)

  -- The scalar that the thread of an output index computes. The offsets do not wrap, since they
  -- are below the arrays' lengths, when those fit in an `int`.
  unfoldable pub matmul_at : (ℕ → D) → (ℕ → D) → ℕ → ℕ → ℕ → ℕ → D
  matmul_at a b m k n idx =
      let mn = m * n % 2 ^ 32 in
      let mk = m * k % 2 ^ 32 in
      let kn = k * n % 2 ^ 32 in
      let bi = idx / mn in
      let rem = idx - bi * mn in
      let row = rem / n in
      let col = rem - row * n in
      let a_off = bi * mk + row * k in
      let b_off = bi * kn + col in dot (λ l. a (a_off + l)) (λ l. b (b_off + l * n)) k

  unfoldable pub batched_matmul_kernel : ℕ → ℕ → ℕ → ℕ → ℕ → ℕ → ℕ → ℕ → ℕ → Memory D → Memory D
  batched_matmul_kernel a b c batch m k n stride =
      int_grid_stride stride (batch * m * n % 2 ^ 32)
        λ idx memory. store c idx (matmul_at (memory a) (memory b) m k n idx) memory

  unfoldable pub matmul_body : List D → List D → ℕ → ℕ → ℕ → ℕ → List ℕ → Gpu D (List D)
  matmul_body a b batch m k n pointers = do
    let dev_a = get_or pointers 0 0
    let dev_b = get_or pointers 1 0
    let dev_c = get_or pointers 2 0
    checked (Call.copy_in dev_a 0 a (extent_of (batch * m * k) 8))
    checked (Call.copy_in dev_b 0 b (extent_of (batch * k * n) 8))
    blocks ← choose_blocks (batch * m * n) 256
    launch_and_read blocks 256 (blocks * 256)
        (batched_matmul_kernel dev_a dev_b dev_c batch m k n (blocks * 256)) dev_c
        (extent_of (batch * m * n) 8)

  unfoldable pub matmul_on_device : HostBuffer D → HostBuffer D → ℕ → ℕ → ℕ → ℕ → ℕ → Gpu D (List D)
  matmul_on_device a b c batch m k n = with_pinned a.address (extent_of (batch * m * k) 8) (
      with_pinned b.address (extent_of (batch * k * n) 8) (
        with_pinned c (extent_of (batch * m * n) 8) (
          with_buffers
            (extent_of (batch * m * k) 8
              ∷ extent_of (batch * k * n) 8
              ∷ extent_of (batch * m * n) 8
              ∷ [])
            (matmul_body a.content b.content batch m k n))))

  -- The cells written to `c`, whose address is the third argument.
  unfoldable pub batched_matmul : HostBuffer D → HostBuffer D → ℕ → ℤ → ℤ → ℤ → ℤ → Gpu D (List D)
  batched_matmul a b c batch m k n =
      if ((pos_part batch == 0) || ((pos_part m == 0) || ((pos_part k == 0) || (pos_part n == 0))))
      then pure []
      else matmul_on_device a b c (pos_part batch) (pos_part m) (pos_part k) (pos_part n)
