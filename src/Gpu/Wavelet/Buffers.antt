-- ===== src/Gpu/Wavelet/Buffers.antt =====
-- nimblecas_gpu_dwt_batch and nimblecas_gpu_swt_batch: their use of device memory.
use nimble_cas.Prelude.{ℕ, ◌%◌, refl, ◌||◌, ◌==◌}
use nimble_cas.Prelude.Int.{ℤ, pos_part}
use nimble_cas.Cuda.Calls.{Runtime, Trace}
use nimble_cas.Cuda.Host.{HostBuffer}
use nimble_cas.Cuda.Ledger.{
  IsSettled, >>=-Settles, checked-Settles, pure-Settles, fail-Settles, if-Settles,
  with_pinned-Settles, launch_and_read-Settles,
}
use nimble_cas.Cuda.Release.{with_buffers-Settles}
use nimble_cas.Cuda.Device.{choose_blocks-IsChoice}
use nimble_cas.Gpu.Wavelet.{dwt_body, dwt_on_device, dwt_batch, swt_body, swt_on_device, swt_batch}

module _ {D : Type 0} (nought : D) (fma : D → D → D → D) (signal : HostBuffer D) (batch len : ℤ)
    (lo hi : HostBuffer D) (flen : ℤ) (out : ℕ) (cuda : Runtime D) (log : Trace D) where
  -- settled
  pub dwt_batch-IsSettled :
      IsSettled log (dwt_batch nought fma signal batch len lo hi flen out cuda log).1
  unfolding dwt_batch dwt_on_device dwt_body
  dwt_batch-IsSettled =
      (if-Settles ((pos_part batch == 0) || ((pos_part len == 0) || (pos_part flen == 0)))
          (pure-Settles _)
          (if-Settles (pos_part len % 2 == 0)
            (if-Settles _ (fail-Settles _) (
              with_pinned-Settles _ _ (
                with_pinned-Settles _ _ (
                  with_pinned-Settles _ _ (
                    with_pinned-Settles _ _ (
                      with_buffers-Settles _ λ pointers.
                        >>=-Settles (checked-Settles _ (λ y r. refl)) λ _.
                          >>=-Settles (checked-Settles _ (λ y r. refl)) λ _.
                            >>=-Settles (checked-Settles _ (λ y r. refl)) λ _.
                              >>=-Settles (choose_blocks-IsChoice _ _).settled
                                λ blocks. launch_and_read-Settles _ _ _ _ _ _))))))
            (fail-Settles _))).settles
        cuda log

  -- settled
  pub swt_batch-IsSettled :
      IsSettled log (swt_batch nought fma signal batch len lo hi flen out cuda log).1
  unfolding swt_batch swt_on_device swt_body
  swt_batch-IsSettled =
      (if-Settles ((pos_part batch == 0) || ((pos_part len == 0) || (pos_part flen == 0)))
          (pure-Settles _)
          (if-Settles _ (fail-Settles _) (
            with_pinned-Settles _ _ (
              with_pinned-Settles _ _ (
                with_pinned-Settles _ _ (
                  with_pinned-Settles _ _ (
                    with_buffers-Settles _ λ pointers.
                      >>=-Settles (checked-Settles _ (λ y r. refl)) λ _.
                        >>=-Settles (checked-Settles _ (λ y r. refl)) λ _.
                          >>=-Settles (checked-Settles _ (λ y r. refl)) λ _.
                            >>=-Settles (choose_blocks-IsChoice _ _).settled
                              λ blocks. launch_and_read-Settles _ _ _ _ _ _))))))).settles
        cuda log
