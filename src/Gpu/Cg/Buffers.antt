-- ===== src/Gpu/Cg/Buffers.antt =====
-- nimblecas_gpu_cg_csr: its use of device memory, and a run without failures.
use nimble_cas.Prelude.{ℕ, zero, suc, refl, List}
use nimble_cas.Prelude.Int.{ℤ}
use nimble_cas.Cuda.Calls.{Memory, Runtime, Trace}
use nimble_cas.Cuda.Host.{HostBuffer}
use nimble_cas.Cuda.Ledger.{
  Settles, IsSettled, >>=-Settles, call-Settles, checked-Settles, pure-Settles, fail-Settles,
  if-Settles, choose_blocks-Settles,
}
use nimble_cas.Cuda.Release.{with_buffers-Settles}
use nimble_cas.Gpu.Reduce.{Word, Orders}
use nimble_cas.Gpu.Cg.{
  Solver, System, Outcome, cg_device_dot, launched, dot, cg_start, cg_rounds, cg_solve,
  copy_entries, cg_body, cg_on_device, cg_csr,
}

module _ {D : Type 0} (ops : Solver D) where
  cg_device_dot-Settles :
      (orders : Orders) (a b n blocks threads partials scalar : ℕ)
      → Settles (cg_device_dot ops orders a b n blocks threads partials scalar)
  unfolding cg_device_dot
  cg_device_dot-Settles orders a b n blocks threads partials scalar =
      >>=-Settles (call-Settles _ (λ y r. refl)) λ _.
        >>=-Settles (checked-Settles _ (λ y r. refl)) λ _.
          >>=-Settles (call-Settles _ (λ y r. refl)) λ _.
            >>=-Settles (checked-Settles _ (λ y r. refl)) λ _.
              >>=-Settles (checked-Settles _ (λ y r. refl))
                λ _. >>=-Settles (checked-Settles _ (λ y r. refl)) λ _. pure-Settles _

  module _ (orders : Orders) (dev : System) (n blocks : ℕ) where
    launched-Settles :
        (kernel : ℕ → ℕ → Memory (Word D) → Memory (Word D))
        → Settles (launched ops orders dev n blocks kernel)
    unfolding launched
    launched-Settles kernel =
        >>=-Settles (call-Settles _ (λ y r. refl))
          λ _. >>=-Settles (checked-Settles _ (λ y r. refl)) λ _. pure-Settles tt

    dot-Settles : (a b : ℕ) → Settles (dot ops orders dev n blocks a b)
    unfolding dot
    dot-Settles a b = cg_device_dot-Settles orders a b n blocks 256 dev.partials dev.scalar

    cg_start-Settles : Settles (cg_start ops orders dev n blocks)
    unfolding cg_start
    cg_start-Settles = >>=-Settles (launched-Settles _) λ _.
        >>=-Settles (checked-Settles _ (λ y r. refl)) λ _. >>=-Settles (launched-Settles _) λ _.
          >>=-Settles (checked-Settles _ (λ y r. refl)) λ _.
            >>=-Settles (dot-Settles _ _) λ _. >>=-Settles (dot-Settles _ _) λ _. pure-Settles _

    cg_rounds-Settles :
        (threshold : D) (it left : ℕ) (rsold : D) (outcome : Outcome D)
        → Settles (cg_rounds ops orders dev n blocks threshold it left rsold outcome)
    unfolding cg_rounds
    cg_rounds-Settles threshold it zero rsold outcome = pure-Settles _
    cg_rounds-Settles threshold it (suc left) rsold outcome =
        if-Settles _
          (>>=-Settles (launched-Settles _) λ _. >>=-Settles (dot-Settles _ _) λ pap.
            if-Settles _
              (>>=-Settles (launched-Settles _) λ _. >>=-Settles (launched-Settles _) λ _.
                >>=-Settles (dot-Settles _ _) λ rsnew. if-Settles _ (pure-Settles _) (
                  >>=-Settles (launched-Settles _)
                    λ _. cg_rounds-Settles threshold (suc it) left rsnew _))
              (pure-Settles _))
          (pure-Settles _)

    cg_solve-Settles :
        (max_iters : ℕ) (tol : D) → Settles (cg_solve ops orders dev n blocks max_iters tol)
    unfolding cg_solve
    cg_solve-Settles max_iters tol =
        >>=-Settles cg_start-Settles λ _. cg_rounds-Settles _ 0 max_iters _ _

  copy_entries-Settles :
      (p : ℕ) (cells : List (Word D)) (nnz width : ℕ) → Settles (copy_entries ops p cells nnz width)
  unfolding copy_entries
  copy_entries-Settles p cells nnz width =
      if-Settles _ (>>=-Settles (checked-Settles _ (λ y r. refl)) λ _. pure-Settles tt)
        (pure-Settles tt)

module _ {D : Type 0} (ops : Solver D) (orders : Orders)
    (row_offsets col_indices values : HostBuffer (Word D)) (n nnz : ℤ) (b x : HostBuffer (Word D))
    (max_iters : ℤ) (tol : D) (outputs : ℕ × ℕ × ℕ) (cuda : Runtime (Word D))
    (log : Trace (Word D)) where
  -- On any CUDA runtime, whichever calls fail: from before nimblecas_gpu_cg_csr to after it, each
  -- non-null device pointer is freed as often as it was allocated, and each host buffer is
  -- unregistered as often as it was registered.
  pub cg_csr-IsSettled :
      IsSettled log
        (cg_csr ops orders row_offsets col_indices values n nnz b x max_iters tol outputs cuda
          log).1
  unfolding cg_csr cg_on_device cg_body
  cg_csr-IsSettled =
      (if-Settles _ (fail-Settles _) (
          >>=-Settles (choose_blocks-Settles _ _) λ blocks. with_buffers-Settles _ λ pointers.
            >>=-Settles (checked-Settles _ (λ y r. refl)) λ _.
              >>=-Settles (copy_entries-Settles ops _ _ _ _) λ _.
                >>=-Settles (copy_entries-Settles ops _ _ _ _) λ _.
                  >>=-Settles (checked-Settles _ (λ y r. refl)) λ _.
                    >>=-Settles (checked-Settles _ (λ y r. refl)) λ _.
                      >>=-Settles (cg_solve-Settles ops orders _ _ _ _ _) λ _.
                        >>=-Settles (checked-Settles _ (λ y r. refl)) λ _. pure-Settles _)).settles
        cuda log
