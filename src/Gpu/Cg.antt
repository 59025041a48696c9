-- ===== src/Gpu/Cg.antt =====
-- src/gpu/gpu_kernels.cu: csr_spmv_kernel, dot_partials_kernel, axpy_kernel, xpby_kernel,
-- cg_device_dot and nimblecas_gpu_cg_csr. The `double`s are a parameter.
pub mod Buffers
use nimble_cas.Prelude.{
  ℕ, zero, suc, ◌+◌, ◌-◌, ◌*◌, ◌/◌, List, [], ◌∷◌, Bool, ◌&&◌, ◌||◌, not, ltb, ◌==◌, if◌then◌else◌,
  get_or,
}
use nimble_cas.Prelude.Int.{ℤ, pos_part, neg_part}
use nimble_cas.Cuda.Calls.{
  extent_of, Memory, store, Call, Gpu, pure, fail, ◌>>=◌, ◌>>◌, call, checked,
}
use nimble_cas.Cuda.Host.{HostBuffer, with_buffers, choose_blocks}
use nimble_cas.Cuda.Wrap.{int_grid_stride, int_rounds, int_suc}
use nimble_cas.Gpu.Haar.{invalid_value}
use nimble_cas.Gpu.Reduce.{
  Word, real, as_int, as_real, Orders, partials_kernel, reduce_partials_kernel,
}

pub record Solver (D : Type 0) : Type 0 where
  pub nought : D
  pub minus_one : D
  pub add : D → D → D
  pub mul : D → D → D
  -- x * y + c
  pub mul_add : D → D → D → D
  pub div : D → D → D
  pub neg : D → D
  pub sqrt : D → D
  pub at_most : D → D → Bool
  -- pap > 1e-300
  pub is_definite : D → Bool

-- The device pointers, in the order of their allocation.
pub record System : Type 0 where
  pub row : ℕ
  pub col : ℕ
  pub val : ℕ
  pub b : ℕ
  pub x : ℕ
  pub r : ℕ
  pub p : ℕ
  pub ap : ℕ
  pub partials : ℕ
  pub scalar : ℕ

abbrev pub system_of : List ℕ → System
system_of pointers = record {
  row = get_or pointers 0 0;
  col = get_or pointers 1 0;
  val = get_or pointers 2 0;
  b = get_or pointers 3 0;
  x = get_or pointers 4 0;
  r = get_or pointers 5 0;
  p = get_or pointers 6 0;
  ap = get_or pointers 7 0;
  partials = get_or pointers 8 0;
  scalar = get_or pointers 9 0;
}

-- What the host function writes beside x.
pub record Outcome (D : Type 0) : Type 0 where
  pub iters : ℕ
  pub converged : ℕ
  pub resid : D

module _ {D : Type 0} (ops : Solver D) where
  abbrev pub real_at : Memory (Word D) → ℕ → ℕ → D
  real_at memory p i = as_real ops.nought (memory p i)

  -- for (int e = begin; e < end; ++e) { acc += values[e] * x[col_indices[e]]; }
  unfoldable pub row_sum : Memory (Word D) → ℕ → ℕ → ℕ → ℕ → ℕ → D → D
  row_sum memory col val x e zero acc = acc
  row_sum memory col val x e (suc left) acc =
      row_sum memory col val x (int_suc e) left
        (ops.mul_add (real_at memory val e) (real_at memory x (as_int (memory col e))) acc)

  unfoldable pub csr_spmv_kernel : ℕ → ℕ → ℕ → ℕ → ℕ → ℕ → ℕ → ℕ → Memory (Word D) → Memory (Word D)
  csr_spmv_kernel row_offsets col val n x y stride = int_grid_stride stride n λ row memory.
      let begin = as_int (memory row_offsets row) in
      let end = as_int (memory row_offsets (row + 1)) in
      store y row (real (row_sum memory col val x begin (int_rounds begin end) ops.nought)) memory

  unfoldable pub axpy_kernel : D → ℕ → ℕ → ℕ → ℕ → ℕ → Memory (Word D) → Memory (Word D)
  axpy_kernel alpha x y n stride = int_grid_stride stride n λ i memory.
      store y i (real (ops.mul_add alpha (real_at memory x i) (real_at memory y i))) memory

  unfoldable pub xpby_kernel : ℕ → D → ℕ → ℕ → ℕ → ℕ → Memory (Word D) → Memory (Word D)
  xpby_kernel r beta p n stride = int_grid_stride stride n λ i memory.
      store p i (real (ops.mul_add beta (real_at memory p i) (real_at memory r i))) memory

  unfoldable pub dot_partials_kernel :
      Orders → ℕ → ℕ → ℕ → ℕ → ℕ → ℕ → ℕ → Memory (Word D) → Memory (Word D)
  dot_partials_kernel orders a b n threads stride partials =
      partials_kernel ops.nought ops.add orders
        (λ memory local i. ops.mul_add (real_at memory a i) (real_at memory b i) local) n threads
        stride partials

  unfoldable pub cg_device_dot : Orders → ℕ → ℕ → ℕ → ℕ → ℕ → ℕ → ℕ → Gpu (Word D) D
  cg_device_dot orders a b n blocks threads partials scalar = do
    call (
        Call.launch blocks threads blocks
          (dot_partials_kernel orders a b n threads (blocks * threads) partials))
    checked Call.get_last_error
    call (
        Call.launch 1 threads 1
          (reduce_partials_kernel ops.nought ops.add orders partials blocks threads scalar))
    checked Call.get_last_error
    checked Call.synchronize
    reply ← checked (Call.copy_out scalar (extent_of 1 8))
    pure (as_real ops.nought (get_or reply.cells 0 (real ops.nought)))

  module _ (orders : Orders) (dev : System) (n blocks : ℕ) where
    -- A launch on the grid, and its error.
    unfoldable pub launched : (ℕ → ℕ → Memory (Word D) → Memory (Word D)) → Gpu (Word D) (Unit {0})
    launched kernel = do
      call (Call.launch blocks 256 (blocks * 256) (kernel (blocks * 256)))
      checked Call.get_last_error
      pure tt

    unfoldable pub dot : ℕ → ℕ → Gpu (Word D) D
    dot a b = cg_device_dot orders a b n blocks 256 dev.partials dev.scalar

    -- r = b - A*x and p = r; then b . b and r . r.
    unfoldable pub cg_start : Gpu (Word D) (D × D)
    cg_start = do
      launched (csr_spmv_kernel dev.row dev.col dev.val n dev.x dev.ap)
      checked (Call.copy_device dev.r dev.b (extent_of n 8))
      launched (axpy_kernel ops.minus_one dev.ap dev.r n)
      checked (Call.copy_device dev.p dev.r (extent_of n 8))
      bnorm2 ← dot dev.b dev.b
      rsold ← dot dev.r dev.r
      pure (bnorm2, rsold)

    -- The loop of the iterations, with those that are left.
    unfoldable pub cg_rounds : D → ℕ → ℕ → D → Outcome D → Gpu (Word D) (Outcome D)
    cg_rounds threshold it zero rsold outcome = pure outcome
    cg_rounds threshold it (suc left) rsold outcome =
        if outcome.converged == 0
        then (do
          launched (csr_spmv_kernel dev.row dev.col dev.val n dev.p dev.ap)
          pap ← dot dev.p dev.ap
          if ops.is_definite pap
              then (do
                let alpha = ops.div rsold pap
                launched (axpy_kernel alpha dev.p dev.x n)
                launched (axpy_kernel (ops.neg alpha) dev.ap dev.r n)
                rsnew ← dot dev.r dev.r
                let resid = ops.sqrt rsnew
                if ops.at_most resid threshold
                    then pure (record { iters = it + 1; converged = 1; resid = resid })
                    else (do
                      launched (xpby_kernel dev.r (ops.div rsnew rsold) dev.p n)
                      cg_rounds threshold (suc it) left rsnew
                          (record { iters = it + 1; converged = 0; resid = resid })))
              else pure outcome)
        else pure outcome

    unfoldable pub cg_solve : ℕ → D → Gpu (Word D) (Outcome D)
    cg_solve max_iters tol = do
      start ← cg_start
      let threshold = ops.mul tol (ops.sqrt start.0)
      let resid = ops.sqrt start.1
      cg_rounds threshold 0 max_iters start.1 (record {
        iters = 0;
        converged = if ops.at_most resid threshold then 1 else 0;
        resid = resid;
      })

  -- `nnz > 0 && (err = cudaMemcpy(...)) != cudaSuccess`
  unfoldable pub copy_entries : ℕ → List (Word D) → ℕ → ℕ → Gpu (Word D) (Unit {0})
  copy_entries p cells nnz width =
      if ltb 0 nnz
      then (do checked (Call.copy_in p 0 cells (extent_of nnz width)); pure tt)
      else pure tt

  unfoldable pub cg_body :
      Orders
      → List (Word D)
      → List (Word D)
      → List (Word D)
      → ℕ
      → ℕ
      → List (Word D)
      → List (Word D)
      → ℕ
      → D
      → ℕ
      → List ℕ
      → Gpu (Word D) (List (Word D) × Outcome D)
  cg_body orders row_offsets col_indices values n nnz b x max_iters tol blocks pointers = do
    let dev = system_of pointers
    checked (Call.copy_in dev.row 0 row_offsets (extent_of (n + 1) 4))
    copy_entries dev.col col_indices nnz 4
    copy_entries dev.val values nnz 8
    checked (Call.copy_in dev.b 0 b (extent_of n 8))
    checked (Call.copy_in dev.x 0 x (extent_of n 8))
    outcome ← cg_solve orders dev n blocks max_iters tol
    reply ← checked (Call.copy_out dev.x (extent_of n 8))
    pure (reply.cells, outcome)

  unfoldable pub cg_on_device :
      Orders
      → List (Word D)
      → List (Word D)
      → List (Word D)
      → ℕ
      → ℕ
      → List (Word D)
      → List (Word D)
      → ℕ
      → D
      → Gpu (Word D) (List (Word D) × Outcome D)
  cg_on_device orders row_offsets col_indices values n nnz b x max_iters tol = do
    blocks ← choose_blocks n 256
    with_buffers
        (extent_of (n + 1) 4
          ∷ extent_of (if nnz == 0 then 1 else nnz) 4
          ∷ extent_of (if nnz == 0 then 1 else nnz) 8
          ∷ extent_of n 8
          ∷ extent_of n 8
          ∷ extent_of n 8
          ∷ extent_of n 8
          ∷ extent_of n 8
          ∷ extent_of blocks 8
          ∷ extent_of 1 8
          ∷ [])
        (cg_body orders row_offsets col_indices values n nnz b x max_iters tol blocks)

  -- A degenerate shape or a null buffer. The last argument lists the three outputs' addresses.
  unfoldable pub is_refused :
      HostBuffer (Word D)
      → HostBuffer (Word D)
      → HostBuffer (Word D)
      → ℤ
      → ℤ
      → HostBuffer (Word D)
      → HostBuffer (Word D)
      → ℕ × ℕ × ℕ
      → Bool
  is_refused row_offsets col_indices values n nnz b x (out_iters, out_converged, out_resid) =
      (pos_part n == 0)
      || ((not (neg_part nnz == 0))
          || ((row_offsets.address == 0)
              || ((b.address == 0)
                  || ((x.address == 0)
                      || ((out_iters == 0)
                          || ((out_converged == 0)
                              || ((out_resid == 0)
                                  || (ltb 0 (pos_part nnz)
                                      && ((col_indices.address == 0)
                                          || (values.address == 0))))))))))

  -- The cells of `x`, and what is written to the three outputs. A negative `max_iters` is as 0.
  unfoldable pub cg_csr :
      Orders
      → HostBuffer (Word D)
      → HostBuffer (Word D)
      → HostBuffer (Word D)
      → ℤ
      → ℤ
      → HostBuffer (Word D)
      → HostBuffer (Word D)
      → ℤ
      → D
      → ℕ × ℕ × ℕ
      → Gpu (Word D) (List (Word D) × Outcome D)
  cg_csr orders row_offsets col_indices values n nnz b x max_iters tol outputs =
      if is_refused row_offsets col_indices values n nnz b x outputs
      then fail invalid_value
      else cg_on_device orders row_offsets.content col_indices.content values.content (pos_part n)
          (pos_part nnz) b.content x.content (pos_part max_iters) tol
