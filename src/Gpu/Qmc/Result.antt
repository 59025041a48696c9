-- ===== src/Gpu/Qmc/Result.antt =====
-- nimblecas_gpu_qmc_poly_integrate: its use of device memory.
use nimble_cas.Prelude.{ℕ, refl, ◌==◌}
use nimble_cas.Prelude.Int.{ℤ, pos_part}
use nimble_cas.Cuda.Calls.{Runtime, Trace}
use nimble_cas.Cuda.Host.{HostBuffer}
use nimble_cas.Cuda.Ledger.{
  IsSettled, >>=-Settles, call-Settles, checked-Settles, pure-Settles, if-Settles,
  choose_blocks-Settles, with_pinned-Settles,
}
use nimble_cas.Cuda.Release.{with_buffers-Settles}
use nimble_cas.Gpu.Reduce.{Word, Orders}
use nimble_cas.Gpu.Qmc.{qmc_body, qmc_on_device, qmc_poly_integrate}

module _ {D : Type 0} (nought : D) (add : D → D → D) (mul_add : D → D → D → D)
    (average : D → ℕ → D) where
  module _ (orders : Orders) (coeffs : HostBuffer (Word D)) (n_coeffs : ℤ) (x : HostBuffer (Word D))
      (n : ℤ) (cuda : Runtime (Word D)) (log : Trace (Word D)) where
    -- On any CUDA runtime, whichever calls fail: from before nimblecas_gpu_qmc_poly_integrate to
    -- after it, each non-null device pointer is freed as often as it was allocated, and each host
    -- buffer is unregistered as often as it was registered.
    pub qmc_poly_integrate-IsSettled :
        IsSettled log
          (qmc_poly_integrate nought add mul_add average orders coeffs n_coeffs x n cuda log).1
    unfolding qmc_poly_integrate qmc_on_device qmc_body
    qmc_poly_integrate-IsSettled =
        (if-Settles (pos_part n == 0) (pure-Settles _) (
            if-Settles (pos_part n_coeffs == 0) (pure-Settles _) (
              >>=-Settles (choose_blocks-Settles _ _) λ blocks. with_pinned-Settles _ _ (
                with_pinned-Settles _ _ (
                  with_buffers-Settles _ λ pointers.
                    >>=-Settles (checked-Settles _ (λ y r. refl)) λ _.
                      >>=-Settles (checked-Settles _ (λ y r. refl)) λ _.
                        >>=-Settles (call-Settles _ (λ y r. refl)) λ _.
                          >>=-Settles (checked-Settles _ (λ y r. refl)) λ _.
                            >>=-Settles (checked-Settles _ (λ y r. refl)) λ _.
                              >>=-Settles (call-Settles _ (λ y r. refl)) λ _.
                                >>=-Settles (checked-Settles _ (λ y r. refl)) λ _.
                                  >>=-Settles (checked-Settles _ (λ y r. refl)) λ _.
                                    >>=-Settles (checked-Settles _ (λ y r. refl))
                                      λ _. pure-Settles _))))).settles
          cuda log
