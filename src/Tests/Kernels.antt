-- ===== src/Tests/Kernels.antt =====
-- The theorems on the kernels and their host functions, run on a device of the tests.
use nimble_cas.Prelude.{
  ◌-◌, ℕ, ◌+◌, ◌*◌, ◌/◌, ◌%◌, ◌^◌, ◌≤◌, ◌≡◌, refl, List, [], ◌∷◌, arith, length, get_or, map, max,
}
use nimble_cas.Prelude.Int.{pos}
use nimble_cas.Cuda.Calls.{Memory, Trace, done, ◌>>=◌, pure, fail, call, checked}
use nimble_cas.Cuda.Host.{
  HostBuffer, finally, or_return, host_register, host_unregister, with_pinned, with_buffers, unpin,
  allocate, free_all, release, choose_blocks, launch_and_read,
}
use nimble_cas.Cuda.Memory.{contents, read, overlay, fill}
use nimble_cas.Cuda.Grid.{strided, run_units}
use nimble_cas.Cuda.Wrap.{int_strided}
use nimble_cas.Cuda.Ledger.{IsSettled}
use nimble_cas.Gpu.PolyEval.{
  poly_eval, poly_eval_on_device, poly_eval_body, poly_eval_kernel, horner_loop,
}
use nimble_cas.Gpu.PolyEval.Result.{horner, poly_eval-horner}
use nimble_cas.Cuda.Success.{choose_blocks-done}
use nimble_cas.Gpu.Bfs.{
  bfs, bfs_body, bfs_levels, copy_edges, seed_source, bfs_kernel, bfs_vertex, relax_edges, claim,
  unvisited,
}
use nimble_cas.Gpu.Bfs.Buffers.{bfs-IsSettled}
use nimble_cas.Gpu.Probe.{
  index_probe_batch, probe_on_device, probe_body, index_probe_kernel, probe_row, probe_word, ballot,
  candidate, may_match,
}
use nimble_cas.Gpu.Probe.Buffers.{index_probe_batch-IsSettled}
use nimble_cas.Gpu.Probe.Batch.{index_probe_batch-bit}
use nimble_cas.Cuda.Device as CurrentDevice
use nimble_cas.Gpu.Sweep.{
  Doubles, SweepLeg, FuturesSweepLeg, Cell, leg, price, futures_grid, sweep, sweep_body, copy_legs,
  grid_kernel, futures_point, each_leg, blank_future,
}
use nimble_cas.Gpu.Sweep.Grids.{futures_value, futures_grid-futures_value}
use nimble_cas.Gpu.Matmul.{
  batched_matmul, matmul_on_device, matmul_body, batched_matmul_kernel, matmul_at, dot,
}
use nimble_cas.Gpu.Matmul.Result.{entry_of, batched_matmul-entry_of, batched_matmul-IsSettled}
use nimble_cas.Gpu.Haar.{
  haar_dwt_batch, haar_on_device, haar_body, haar_dwt_batch_kernel, haar_pair,
}
use nimble_cas.Gpu.Haar.Result.{haar_dwt_batch-pairs}
use nimble_cas.Tests.Device.{device, device-IsFaithful, device-IsNullOnFailure, up_to, highest}

abbrev step : ℕ → ℕ → ℕ → ℕ
step acc x c = acc * x + c

abbrev coeffs : HostBuffer ℕ
coeffs = record { address = 7; content = 1 ∷ 2 ∷ 3 ∷ [] }

abbrev points : HostBuffer ℕ
points = record { address = 8; content = 2 ∷ 10 ∷ [] }

-- 1 + 2 x + 3 x ^ 2 at 2 and at 10.
poly_eval_run :
    (poly_eval 0 step coeffs (pos 3) points 9 (pos 2) (device 0) []).0 ≡ done (17 ∷ 321 ∷ [])
unfolding poly_eval poly_eval_on_device poly_eval_body poly_eval_kernel horner_loop ◌>>=◌ pure fail
    call checked host_register host_unregister with_pinned with_buffers unpin allocate free_all
    release choose_blocks launch_and_read contents read overlay strided int_strided run_units device
    up_to highest
poly_eval_run = refl

poly_eval-horner_example : 17 ∷ 321 ∷ [] ≡ map (horner 0 step (1 ∷ 2 ∷ 3 ∷ [])) (2 ∷ 10 ∷ [])
poly_eval-horner_example =
    poly_eval-horner 0 step coeffs (pos 3) points 9 (pos 2) (device 0) [] (device-IsFaithful 0)
      (omega arith) (omega arith) (omega arith) poly_eval_run

choose_blocks_example :
    (blocks : ℕ) × (after : Trace ℕ) × (choose_blocks 1000 256 (device 0) [] ≡ (done blocks, after))
    × ((initial : Memory ℕ) → contents initial after ≡ contents initial [])
    × (1 ≤ blocks)
    × (blocks ≤ max 1 ((1000 + 256 - 1) / 256))
choose_blocks_example = choose_blocks-done 1000 256 (device 0) []

-- "kit" and "ab" against "sits" and "b".
abbrev firsts : HostBuffer ℕ
firsts = record { address = 10; content = 107 ∷ 105 ∷ 116 ∷ 97 ∷ 98 ∷ [] }

abbrev seconds : HostBuffer ℕ
seconds = record { address = 11; content = 115 ∷ 105 ∷ 116 ∷ 115 ∷ 98 ∷ [] }

abbrev first_offsets : List ℕ
first_offsets = 0 ∷ 3 ∷ 5 ∷ []

abbrev second_offsets : List ℕ
second_offsets = 0 ∷ 4 ∷ 5 ∷ []

-- The path 0 - 1 - 2, and a vertex apart.
abbrev graph_rows : HostBuffer ℕ
graph_rows = record { address = 13; content = 0 ∷ 1 ∷ 3 ∷ 4 ∷ 4 ∷ [] }

abbrev graph_columns : HostBuffer ℕ
graph_columns = record { address = 14; content = 1 ∷ 0 ∷ 2 ∷ 1 ∷ [] }

bfs_run :
    (bfs graph_rows graph_columns (pos 4) 4 (pos 0) 15 (device 0) []).0
    ≡ done (0 ∷ 1 ∷ 2 ∷ unvisited ∷ [])
unfolding bfs bfs_body bfs_levels copy_edges seed_source bfs_kernel bfs_vertex relax_edges claim
    ◌>>=◌ pure fail call checked host_register host_unregister with_pinned with_buffers unpin
    allocate free_all release choose_blocks contents read overlay fill strided int_strided run_units
    device up_to highest
bfs_run = refl

bfs-IsSettled_example :
    IsSettled [] (bfs graph_rows graph_columns (pos 4) 4 (pos 0) 15 (device 0) []).1
bfs-IsSettled_example = bfs-IsSettled graph_rows graph_columns (pos 4) 4 (pos 0) 15 (device 0) []

-- Three clauses and two goals; the key 0 matches everything.
abbrev clause_keys : HostBuffer ℕ
clause_keys = record { address = 16; content = 5 ∷ 0 ∷ 6 ∷ [] }

abbrev goal_keys : HostBuffer ℕ
goal_keys = record { address = 17; content = 6 ∷ 0 ∷ [] }

probe_run :
    (index_probe_batch clause_keys (pos 3) goal_keys (pos 2) 18 (device 0) []).0 ≡ done (6 ∷ 7 ∷ [])
unfolding index_probe_batch probe_on_device probe_body index_probe_kernel probe_row probe_word
    ballot candidate may_match finally or_return ◌>>=◌ pure fail call checked launch_and_read
    contents read overlay run_units device up_to highest
probe_run = refl

index_probe_batch-bit_example :
    get_or {A = ℕ} (6 ∷ 7 ∷ []) (0 * ((3 + 63) / 64) + 2 / 64) 0 / 2 ^ (2 % 64) % 2 ≡ 1
index_probe_batch-bit_example =
    index_probe_batch-bit clause_keys 3 goal_keys 2 18 (device 0) [] 0 2 (device-IsFaithful 0)
      (omega arith) (omega arith) (omega arith) probe_run (omega arith) (omega arith)

index_probe_batch-IsSettled_example :
    IsSettled [] (index_probe_batch clause_keys (pos 3) goal_keys (pos 2) 18 (device 0) []).1
index_probe_batch-IsSettled_example =
    index_probe_batch-IsSettled clause_keys (pos 3) goal_keys (pos 2) 18 (device 0) []
      (device-IsNullOnFailure 0)

abbrev natural_doubles : Doubles ℕ
natural_doubles = record {
  nought = 0;
  dsub = λ a b. a - b;
  dadd = λ a b. a + b;
  dmul = λ a b. a * b;
  fmax = max;
}

-- Two calls at 10, and one unit of the underlying.
abbrev legs : List (SweepLeg ℕ)
legs =
    record { strike = 10; quantity = 2; premium = 1; right = 0 }
    ∷ record { strike = 0; quantity = 1; premium = 3; right = 2 }
    ∷ []

abbrev futures : List (FuturesSweepLeg ℕ)
futures = record { scaled_quantity = 5; entry_price = 8 } ∷ []

abbrev strategy_cell : ℕ → Cell (SweepLeg ℕ) ℕ
strategy_cell = price

abbrev futures_cell : ℕ → Cell (FuturesSweepLeg ℕ) ℕ
futures_cell = price

futures_grid_run :
    (futures_grid natural_doubles futures 1 (9 ∷ 12 ∷ []) (pos 2) (device (futures_cell 0)) []).0
    ≡ done (futures_cell 5 ∷ futures_cell 20 ∷ [])
unfolding futures_grid sweep sweep_body copy_legs grid_kernel futures_point each_leg
    CurrentDevice.choose_blocks ◌>>=◌ pure fail call checked with_buffers allocate free_all release
    launch_and_read contents read overlay strided int_strided run_units device up_to highest
futures_grid_run = refl

futures_grid-futures_value_example :
    (length {A = Cell (FuturesSweepLeg ℕ) ℕ} (futures_cell 5 ∷ futures_cell 20 ∷ []) ≡ 2)
    × (get_or (futures_cell 5 ∷ futures_cell 20 ∷ []) 1 (leg (blank_future natural_doubles))
        ≡ price (futures_value natural_doubles futures 12))
futures_grid-futures_value_example =
    futures_grid-futures_value natural_doubles futures 1 (9 ∷ 12 ∷ []) (pos 2)
      (device (futures_cell 0)) [] 1 (device-IsFaithful (futures_cell 0)) (omega arith)
      (omega arith) futures_grid_run (omega arith)

-- Two problems of 1 x 2 by 2 x 2.
abbrev left_matrices : HostBuffer ℕ
left_matrices = record { address = 20; content = 1 ∷ 2 ∷ 3 ∷ 4 ∷ [] }

abbrev right_matrices : HostBuffer ℕ
right_matrices = record { address = 21; content = 1 ∷ 0 ∷ 0 ∷ 1 ∷ 5 ∷ 6 ∷ 7 ∷ 8 ∷ [] }

matmul_run :
    (batched_matmul 0
      (λ x y c. x * y + c)
      left_matrices
      right_matrices
      22
      (pos 2)
      (pos 1)
      (pos 2)
      (pos 2)
      (device 0)
      []).0
    ≡ done (1 ∷ 2 ∷ 43 ∷ 50 ∷ [])
unfolding batched_matmul matmul_on_device matmul_body batched_matmul_kernel matmul_at dot ◌>>=◌ pure
    fail call checked host_register host_unregister with_pinned with_buffers unpin allocate free_all
    release choose_blocks launch_and_read contents read overlay strided int_strided run_units device
    up_to highest
matmul_run = refl

batched_matmul-entry_of_example :
    (length {A = ℕ} (1 ∷ 2 ∷ 43 ∷ 50 ∷ []) ≡ 2 * 1 * 2)
    × (get_or (1 ∷ 2 ∷ 43 ∷ 50 ∷ []) (1 * (1 * 2) + (0 * 2 + 1)) 0
        ≡ entry_of 0
            (λ x y c. x * y + c)
            (left_matrices.content)
            (right_matrices.content)
            1
            2
            2
            1
            0
            1)
batched_matmul-entry_of_example =
    batched_matmul-entry_of 0 (λ x y c. x * y + c) left_matrices right_matrices 22 2 1 2 2
      (device 0) [] 1 0 1 (device-IsFaithful 0) (omega arith) (omega arith) (omega arith)
      (omega arith) (omega arith) (omega arith) matmul_run (omega arith) (omega arith) (omega arith)

abbrev haar_signal : HostBuffer ℕ
haar_signal = record { address = 23; content = 9 ∷ 1 ∷ 8 ∷ 2 ∷ [] }

haar_run :
    (haar_dwt_batch ◌+◌ ◌-◌ ◌*◌ 3 haar_signal (pos 1) (pos 4) 24 (device 0) []).0
    ≡ done (30 ∷ 30 ∷ 24 ∷ 18 ∷ [])
unfolding haar_dwt_batch haar_on_device haar_body haar_dwt_batch_kernel haar_pair ◌>>=◌ pure fail
    call checked host_register host_unregister with_pinned with_buffers unpin allocate free_all
    release choose_blocks launch_and_read contents read overlay strided int_strided run_units device
    up_to highest
haar_run = refl

haar_dwt_batch-pairs_example :
    (length {A = ℕ} (30 ∷ 30 ∷ 24 ∷ 18 ∷ []) ≡ 1 * (2 * 2))
    × (get_or (30 ∷ 30 ∷ 24 ∷ 18 ∷ []) (0 * (2 * 2) + 1) 0 ≡ (8 + 2) * 3)
    × (get_or (30 ∷ 30 ∷ 24 ∷ 18 ∷ []) (0 * (2 * 2) + (2 + 1)) 0 ≡ (8 - 2) * 3)
haar_dwt_batch-pairs_example =
    haar_dwt_batch-pairs ◌+◌ ◌-◌ ◌*◌ 3 0 haar_signal 1 2 24 (device 0) [] 0 1 (device-IsFaithful 0)
      (omega arith) (omega arith) haar_run (omega arith) (omega arith)

batched_matmul-IsSettled_example :
    IsSettled []
      (batched_matmul 0
        (λ x y c. x * y + c)
        left_matrices
        right_matrices
        22
        (pos 2)
        (pos 1)
        (pos 2)
        (pos 2)
        (device 0)
        []).1
batched_matmul-IsSettled_example =
    batched_matmul-IsSettled 0 (λ x y c. x * y + c) left_matrices right_matrices 22 (pos 2) (pos 1)
      (pos 2) (pos 2) (device 0) []
