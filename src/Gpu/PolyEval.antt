-- ===== src/Gpu/PolyEval.antt =====
-- src/gpu/gpu_kernels.cu: poly_eval_kernel and nimblecas_gpu_poly_eval.
-- The `double`s are a parameter, with the operation acc * x + c, that nvcc may fuse.
pub mod Result
use nimble_cas.Prelude.{
  ℕ, zero, suc, ◌+◌, ◌*◌, ◌≤◌, ◌<◌, ◌≡◌, ◌≢◌, refl, sym, ap, subst, ◌∙◌, List, [], ◌∷◌, ◌==◌,
  if◌then◌else◌, arith, length, get_or, take, drop, replicate,
}
use nimble_cas.Prelude.Int.{ℤ, pos_part}
use nimble_cas.Cuda.Calls.{
  extent_of, Extent, Memory, store, Call, Reply, Gpu, Runtime, Trace, pure, ◌>>=◌, ◌>>◌, checked,
}
use nimble_cas.Cuda.Host.{HostBuffer, with_pinned, with_buffers, choose_blocks, launch_and_read}
use nimble_cas.Cuda.Memory.{
  IsFaithful, read, contents, overlay, copied_cell, overlay_other, store_same, store_other,
  store_beside,
}
use nimble_cas.Cuda.Wrap.{int_choose_blocks, int_grid_stride}
use nimble_cas.Cuda.Ledger.{
  Settles, IsSettled, >>=-Settles, checked-Settles, pure-Settles, if-Settles, choose_blocks-Settles,
  with_pinned-Settles, launch_and_read-Settles,
}
use nimble_cas.Cuda.Release.{with_buffers-Settles}

module _ {D : Type 0} (nought : D) (mul_add : D → D → D → D) where
  -- for (int k = n_coeffs - 1; k >= 0; --k) { acc = acc * xi + coeffs[k]; }
  unfoldable pub horner_loop : (ℕ → D) → D → ℕ → D → D
  horner_loop coeffs xi zero acc = acc
  horner_loop coeffs xi (suc k) acc = horner_loop coeffs xi k (mul_add acc xi (coeffs k))

  unfoldable pub poly_eval_kernel : ℕ → ℕ → ℕ → ℕ → ℕ → ℕ → ℕ → Memory D → Memory D
  poly_eval_kernel coeffs n_coeffs x out n stride =
      int_grid_stride stride n
        λ i memory. store out i (horner_loop (memory coeffs) (memory x i) n_coeffs nought) memory

  unfoldable pub poly_eval_body : List D → ℕ → List D → ℕ → List ℕ → Gpu D (List D)
  poly_eval_body coeffs n_coeffs x n pointers = do
    let coeff_bytes = extent_of n_coeffs 8
    let point_bytes = extent_of n 8
    let dev_coeffs = get_or pointers 0 0
    let dev_x = get_or pointers 1 0
    let dev_out = get_or pointers 2 0
    checked (Call.copy_in dev_coeffs 0 coeffs coeff_bytes)
    checked (Call.copy_in dev_x 0 x point_bytes)
    blocks ← int_choose_blocks n 256
    launch_and_read blocks 256 (blocks * 256)
        (poly_eval_kernel dev_coeffs n_coeffs dev_x dev_out n (blocks * 256)) dev_out point_bytes

  unfoldable pub poly_eval_on_device : HostBuffer D → ℕ → HostBuffer D → ℕ → ℕ → Gpu D (List D)
  poly_eval_on_device coeffs n_coeffs x out n = with_pinned coeffs.address (extent_of n_coeffs 8) (
      with_pinned x.address (extent_of n 8) (
        with_pinned out (extent_of n 8) (
          with_buffers (extent_of n_coeffs 8 ∷ extent_of n 8 ∷ extent_of n 8 ∷ [])
            (poly_eval_body coeffs.content n_coeffs x.content n))))

  -- The cells written to `out`, whose address is the last argument but one.
  unfoldable pub poly_eval : HostBuffer D → ℤ → HostBuffer D → ℕ → ℤ → Gpu D (List D)
  poly_eval coeffs n_coeffs x out n =
      if pos_part n == 0
      then pure []
      else if pos_part n_coeffs == 0
      then pure (replicate (pos_part n) nought)
      else poly_eval_on_device coeffs (pos_part n_coeffs) x out (pos_part n)
