-- ===== src/Gpu/Bfs/Buffers.antt =====
-- nimblecas_gpu_bfs: its use of device memory, and a run without failures.
use nimble_cas.Prelude.{ℕ, zero, suc, refl, ◌==◌}
use nimble_cas.Prelude.Int.{ℤ, pos_part}
use nimble_cas.Cuda.Calls.{Runtime, Trace}
use nimble_cas.Cuda.Host.{HostBuffer}
use nimble_cas.Cuda.Ledger.{
  Settles, IsSettled, >>=-Settles, call-Settles, checked-Settles, pure-Settles, if-Settles,
  choose_blocks-Settles, with_pinned-Settles,
}
use nimble_cas.Cuda.Release.{with_buffers-Settles}
use nimble_cas.Gpu.Bfs.{bfs_levels, copy_edges, seed_source, bfs_body, bfs}

module _ (row_offsets col_indices num_vertices dist changed blocks : ℕ) where
  bfs_levels-Settles :
      (level left : ℕ)
      → Settles (bfs_levels row_offsets col_indices num_vertices dist changed blocks level left)
  unfolding bfs_levels
  bfs_levels-Settles level zero = pure-Settles tt
  bfs_levels-Settles level (suc left) = >>=-Settles (checked-Settles _ (λ y r. refl)) λ _.
      >>=-Settles (call-Settles _ (λ y r. refl)) λ _.
        >>=-Settles (checked-Settles _ (λ y r. refl)) λ _.
          >>=-Settles (checked-Settles _ (λ y r. refl)) λ _.
            >>=-Settles (checked-Settles _ (λ y r. refl))
              λ reply. if-Settles _ (pure-Settles tt) (bfs_levels-Settles (suc level) left)

module _ (row_offsets col_indices : HostBuffer ℕ) (num_vertices : ℤ) (num_edges : ℕ) (source : ℤ)
    (dist : ℕ) (cuda : Runtime ℕ) (log : Trace ℕ) where
  -- On any CUDA runtime, whichever calls fail: from before nimblecas_gpu_bfs to after it, each
  -- non-null device pointer is freed as often as it was allocated, and each host buffer is
  -- unregistered as often as it was registered.
  pub bfs-IsSettled :
      IsSettled log (bfs row_offsets col_indices num_vertices num_edges source dist cuda log).1
  unfolding bfs bfs_body copy_edges seed_source
  bfs-IsSettled =
      (if-Settles (pos_part num_vertices == 0) (pure-Settles _) (
          with_pinned-Settles _ _ (
            with_pinned-Settles _ _ (
              with_pinned-Settles _ _ (
                with_buffers-Settles _ λ pointers.
                  >>=-Settles (checked-Settles _ (λ y r. refl)) λ _.
                    >>=-Settles
                      (if-Settles _
                        (>>=-Settles (checked-Settles _ (λ y r. refl)) λ _. pure-Settles tt)
                        (pure-Settles tt))
                      λ _. >>=-Settles (checked-Settles _ (λ y r. refl)) λ _.
                        >>=-Settles
                          (if-Settles _
                            (>>=-Settles (checked-Settles _ (λ y r. refl)) λ _. pure-Settles tt)
                            (pure-Settles tt))
                          λ _. >>=-Settles (choose_blocks-Settles _ _) λ blocks.
                            >>=-Settles (bfs_levels-Settles _ _ _ _ _ _ _ _) λ _.
                              >>=-Settles (checked-Settles _ (λ y r. refl))
                                λ _. pure-Settles _))))).settles
        cuda log
