-- ===== src/Gpu/EditDistance/Buffers.antt =====
-- nimblecas_gpu_edit_distance_batch: its use of device memory, and a run without failures.
use nimble_cas.Prelude.{ℕ, ◌≡◌, refl, List, ◌==◌}
use nimble_cas.Prelude.Int.{ℤ, pos_part}
use nimble_cas.Cuda.Calls.{Runtime, Trace, done}
use nimble_cas.Cuda.Host.{HostBuffer}
use nimble_cas.Cuda.Ledger.{
  IsSettled, >>=-Settles, checked-Settles, pure-Settles, if-Settles, choose_blocks-Settles,
  with_pinned-Settles, launch_and_read-Settles,
}
use nimble_cas.Cuda.Release.{with_buffers-Settles}
use nimble_cas.Cuda.Healthy.{
  IsHealthy, if-Completes, pure-Completes, with_pinned-Completes, with_buffers-Completes,
  >>=-Completes, checked-Completes, choose_blocks-Completes, launch_and_read-Completes,
}
use nimble_cas.Gpu.EditDistance.{edit_distance_body, edit_distance_on_device, edit_distance_batch}

module _ (a_flat : HostBuffer ℕ) (a_off : List ℕ) (b_flat : HostBuffer ℕ) (b_off : List ℕ)
    (pairs : ℤ) (out : ℕ) (cuda : Runtime ℕ) (log : Trace ℕ) where
  -- On any CUDA runtime, whichever calls fail: from before nimblecas_gpu_edit_distance_batch to
  -- after it, each non-null device pointer is freed as often as it was allocated, and each host
  -- buffer is unregistered as often as it was registered.
  pub edit_distance_batch-IsSettled :
      IsSettled log (edit_distance_batch a_flat a_off b_flat b_off pairs out cuda log).1
  unfolding edit_distance_batch edit_distance_on_device edit_distance_body
  edit_distance_batch-IsSettled =
      (if-Settles (pos_part pairs == 0) (pure-Settles _) (
          with_pinned-Settles _ _ (
            with_pinned-Settles _ _ (
              with_pinned-Settles _ _ (
                with_buffers-Settles _ λ pointers.
                  >>=-Settles (checked-Settles _ (λ y r. refl)) λ _.
                    >>=-Settles (checked-Settles _ (λ y r. refl)) λ _.
                      >>=-Settles (checked-Settles _ (λ y r. refl)) λ _.
                        >>=-Settles (checked-Settles _ (λ y r. refl)) λ _.
                          >>=-Settles (choose_blocks-Settles _ _)
                            λ blocks. launch_and_read-Settles _ _ _ _ _ _))))).settles
        cuda log

  -- On a CUDA runtime on which every call succeeds, nimblecas_gpu_edit_distance_batch returns 0.
  pub edit_distance_batch-completes :
      IsHealthy cuda
      → (v : List ℕ) × ((edit_distance_batch a_flat a_off b_flat b_off pairs out cuda log).0
          ≡ done v)
  unfolding edit_distance_batch edit_distance_on_device edit_distance_body
  edit_distance_batch-completes healthy =
      (if-Completes (pos_part pairs == 0) (pure-Completes _) (
          with_pinned-Completes _ _ (
            with_pinned-Completes _ _ (
              with_pinned-Completes _ _ (
                with_buffers-Completes _ healthy λ pointers.
                  >>=-Completes (checked-Completes _ healthy) λ _.
                    >>=-Completes (checked-Completes _ healthy) λ _.
                      >>=-Completes (checked-Completes _ healthy) λ _.
                        >>=-Completes (checked-Completes _ healthy) λ _.
                          >>=-Completes (choose_blocks-Completes _ _)
                            λ blocks. launch_and_read-Completes _ _ _ _ _ _ healthy))))).completes
        log
