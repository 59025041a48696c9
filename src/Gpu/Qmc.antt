-- ===== src/Gpu/Qmc.antt =====
-- src/gpu/gpu_kernels.cu: qmc_poly_integrate_kernel, reduce_partials_kernel and
-- nimblecas_gpu_qmc_poly_integrate. The `double`s are a parameter, with the operation x * y + c, and
-- the division of a sum by a count.
pub mod Result
use nimble_cas.Prelude.{ℕ, ◌+◌, ◌*◌, List, [], ◌∷◌, ◌==◌, if◌then◌else◌, get_or}
use nimble_cas.Prelude.Int.{ℤ, pos_part}
use nimble_cas.Cuda.Calls.{extent_of, Memory, Call, Gpu, pure, ◌>>=◌, ◌>>◌, call, checked}
use nimble_cas.Cuda.Host.{HostBuffer, with_pinned, with_buffers, choose_blocks}
use nimble_cas.Gpu.PolyEval.{horner_loop}
use nimble_cas.Gpu.Reduce.{Word, real, as_real, Orders, partials_kernel, reduce_partials_kernel}

module _ {D : Type 0} (nought : D) (add : D → D → D) (mul_add : D → D → D → D)
    (average : D → ℕ → D) where
  -- One sample: local += acc, where acc is Horner's rule at x[i].
  abbrev pub add_sample : ℕ → ℕ → ℕ → Memory (Word D) → D → ℕ → D
  add_sample coeffs n_coeffs x memory local i = add local (
      horner_loop nought mul_add (λ k. as_real nought (memory coeffs k))
        (as_real nought (memory x i)) n_coeffs nought)

  unfoldable pub qmc_poly_integrate_kernel :
      Orders → ℕ → ℕ → ℕ → ℕ → ℕ → ℕ → ℕ → ℕ → Memory (Word D) → Memory (Word D)
  qmc_poly_integrate_kernel orders coeffs n_coeffs x n threads stride partials =
      partials_kernel nought add orders (add_sample coeffs n_coeffs x) n threads stride partials

  unfoldable pub qmc_body :
      Orders → List (Word D) → ℕ → List (Word D) → ℕ → ℕ → List ℕ → Gpu (Word D) D
  qmc_body orders coeffs n_coeffs x n blocks pointers = do
    let dev_coeffs = get_or pointers 0 0
    let dev_x = get_or pointers 1 0
    let dev_partials = get_or pointers 2 0
    let dev_sum = get_or pointers 3 0
    checked (Call.copy_in dev_coeffs 0 coeffs (extent_of n_coeffs 8))
    checked (Call.copy_in dev_x 0 x (extent_of n 8))
    call (
        Call.launch blocks 256 blocks (
          qmc_poly_integrate_kernel orders dev_coeffs n_coeffs dev_x n 256 (blocks * 256)
            dev_partials))
    checked Call.get_last_error
    checked Call.synchronize
    call (
        Call.launch 1 256 1
          (reduce_partials_kernel nought add orders dev_partials blocks 256 dev_sum))
    checked Call.get_last_error
    checked Call.synchronize
    reply ← checked (Call.copy_out dev_sum (extent_of 1 8))
    pure (average (as_real nought (get_or reply.cells 0 (real nought))) n)

  unfoldable pub qmc_on_device :
      Orders → HostBuffer (Word D) → ℕ → HostBuffer (Word D) → ℕ → Gpu (Word D) D
  qmc_on_device orders coeffs n_coeffs x n = do
    blocks ← choose_blocks n 256
    with_pinned coeffs.address (extent_of n_coeffs 8) (
        with_pinned x.address (extent_of n 8) (
          with_buffers
            (extent_of n_coeffs 8 ∷ extent_of n 8 ∷ extent_of blocks 8 ∷ extent_of 1 8 ∷ [])
            (qmc_body orders coeffs.content n_coeffs x.content n blocks)))

  -- What is written to `out_mean`.
  unfoldable pub qmc_poly_integrate :
      Orders → HostBuffer (Word D) → ℤ → HostBuffer (Word D) → ℤ → Gpu (Word D) D
  qmc_poly_integrate orders coeffs n_coeffs x n =
      if pos_part n == 0
      then pure nought
      else if pos_part n_coeffs == 0
      then pure nought
      else qmc_on_device orders coeffs (pos_part n_coeffs) x (pos_part n)
