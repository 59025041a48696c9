-- ===== src/Tests/Solvers.antt =====
-- The theorems on the conjugate gradients, run on a device of the tests with integers for doubles.
use nimble_cas.Prelude.{◌*◌, ℕ, ◌≡◌, refl, [], ◌∷◌, ltb, leb, ◌+◌, ◌/◌}
use nimble_cas.Prelude.Int.{ℤ, pos, negsuc, pos_part, neg_part, neg_ℤ, ◌+ℤ◌, ◌*ℤ◌}
use nimble_cas.Cuda.Calls.{done, ◌>>=◌, pure, call, checked}
use nimble_cas.Cuda.Host.{HostBuffer, with_buffers, allocate, free_all, release, choose_blocks}
use nimble_cas.Cuda.Memory.{contents, read, overlay}
use nimble_cas.Cuda.Grid.{run_units}
use nimble_cas.Cuda.Wrap.{int_strided}
use nimble_cas.Gpu.Qmc.{qmc_poly_integrate}
use nimble_cas.Gpu.Qmc.Result.{qmc_poly_integrate-IsSettled}
use nimble_cas.Cuda.Ledger.{IsSettled}
use nimble_cas.Gpu.Reduce.{
  Word, int, real, Orders, strided_fold, fold_thread, fold_rounds, block_total, partials_kernel,
  reduce_partials_kernel,
}
use nimble_cas.Gpu.Cg.{
  Solver, cg_csr, is_refused, cg_on_device, cg_body, cg_solve, cg_start, cg_rounds, copy_entries,
  launched, dot, cg_device_dot, dot_partials_kernel, csr_spmv_kernel, axpy_kernel, xpby_kernel,
  row_sum,
}
use nimble_cas.Gpu.Cg.Buffers.{cg_csr-IsSettled}
use nimble_cas.Tests.Device.{device, up_to, highest}

abbrev solver : Solver ℤ
solver = record {
  nought = pos 0;
  minus_one = negsuc 0;
  add = ◌+ℤ◌;
  mul = ◌*ℤ◌;
  mul_add = λ x y c. c +ℤ x *ℤ y;
  div = λ x y. pos (pos_part x / pos_part y);
  neg = neg_ℤ;
  sqrt = λ x. x;
  at_most = λ x y. leb (pos_part x + neg_part y) (pos_part y + neg_part x);
  is_definite = λ x. ltb 0 (pos_part x);
}

-- The matrix with rows (1 0) and (0 1), and the right-hand side (3 -2), from (0 0).
abbrev offsets : HostBuffer (Word ℤ)
offsets = record { address = 50; content = int 0 ∷ int 1 ∷ int 2 ∷ [] }

abbrev columns : HostBuffer (Word ℤ)
columns = record { address = 51; content = int 0 ∷ int 1 ∷ [] }

abbrev entries : HostBuffer (Word ℤ)
entries = record { address = 52; content = real (pos 1) ∷ real (pos 1) ∷ [] }

abbrev right_side : HostBuffer (Word ℤ)
right_side = record { address = 53; content = real (pos 3) ∷ real (negsuc 1) ∷ [] }

abbrev guess : HostBuffer (Word ℤ)
guess = record { address = 54; content = real (pos 0) ∷ real (pos 0) ∷ [] }

abbrev outputs : ℕ × ℕ × ℕ
outputs = (55, 56, 57)

abbrev in_turn : Orders
in_turn block s = up_to 256

cg_csr-IsSettled_example :
    IsSettled []
      (cg_csr solver in_turn offsets columns entries
        (pos 2)
        (pos 2)
        right_side
        guess
        (pos 5)
        (pos 1)
        outputs
        (device (int 0))
        []).1
cg_csr-IsSettled_example =
    cg_csr-IsSettled solver in_turn offsets columns entries (pos 2) (pos 2) right_side guess (pos 5)
      (pos 1) outputs (device (int 0)) []

-- One round solves it.
cg_run :
    (cg_csr solver in_turn offsets columns entries
      (pos 2)
      (pos 2)
      right_side
      guess
      (pos 5)
      (pos 0)
      outputs
      (device (int 0))
      []).0
    ≡ done (real (pos 3) ∷ real (negsuc 1) ∷ [], record { iters = 1; converged = 1; resid = pos 0 })
unfolding cg_csr cg_on_device cg_body cg_solve cg_start cg_rounds copy_entries is_refused launched
    dot cg_device_dot dot_partials_kernel csr_spmv_kernel axpy_kernel xpby_kernel row_sum
    strided_fold fold_thread fold_rounds block_total partials_kernel reduce_partials_kernel ◌>>=◌
    pure call checked with_buffers allocate free_all release choose_blocks contents read overlay
    run_units device up_to highest ◌+ℤ◌ ◌*ℤ◌ int_strided
cg_run = refl

-- The average of 1 + 2 x at 3 and at 4 is 8.
abbrev line : HostBuffer (Word ℕ)
line = record { address = 40; content = real 1 ∷ real 2 ∷ [] }

abbrev nodes : HostBuffer (Word ℕ)
nodes = record { address = 41; content = real 3 ∷ real 4 ∷ [] }

abbrev mul_add : ℕ → ℕ → ℕ → ℕ
mul_add x y c = x * y + c

qmc_poly_integrate-IsSettled_example :
    IsSettled []
      (qmc_poly_integrate 0 ◌+◌ mul_add ◌/◌ in_turn line
        (pos 2)
        nodes
        (pos 2)
        (device (real 0))
        []).1
qmc_poly_integrate-IsSettled_example =
    qmc_poly_integrate-IsSettled 0 ◌+◌ mul_add ◌/◌ in_turn line (pos 2) nodes (pos 2)
      (device (real 0)) []
