-- ===== src/Gpu/Reduce.antt =====
-- src/gpu/gpu_kernels.cu: sums over a grid in two stages. Each thread adds up its share, each block
-- folds the sums of its threads in shared memory, and a launch of one block folds those of the
-- blocks. The `double`s are a parameter.
use nimble_cas.Prelude.{ℕ, zero, suc, ◌+◌, ◌*◌, ◌/◌, ◌%◌, ◌^◌, List, ltb, ◌==◌, if◌then◌else◌}
use nimble_cas.Cuda.Calls.{Memory, store}
use nimble_cas.Cuda.Grid.{run_units}
use nimble_cas.Cuda.Wrap.{signed_ltb}

-- A cell of device memory: an `int`, as its bit pattern, or a `double`.
pub data Word (D : Type 0) : Type 0 where
  int : ℕ → Word D
  real : D → Word D

abbrev pub as_int : {D : Type 0} → Word D → ℕ
as_int (int k) = k
as_int (real x) = 0

abbrev pub as_real : {D : Type 0} → D → Word D → D
as_real nought (int k) = nought
as_real nought (real x) = x

-- Shared memory of a block, a cell for each thread.
abbrev pub Shared : Type 0 → Type 0
Shared D = ℕ → D

abbrev pub put : {D : Type 0} → ℕ → D → Shared D → Shared D
put i v sdata j = if i == j then v else sdata j

-- The order in which the threads of a block run after each barrier: by the block and the number of
-- threads that still add. Any order will do.
abbrev pub Orders : Type 0
Orders = ℕ → ℕ → List ℕ

module _ {D : Type 0} (nought : D) (add : D → D → D) where
  -- for (int i = first; i < n; i += stride) { local = ...; }, on fuel: n rounds are enough while i does
  -- not wrap.
  unfoldable pub strided_fold : (D → ℕ → D) → ℕ → ℕ → ℕ → ℕ → D → D
  strided_fold accumulate zero i n stride local = local
  strided_fold accumulate (suc fuel) i n stride local =
      if signed_ltb i n
      then strided_fold accumulate fuel ((i + stride) % 2 ^ 32) n stride (accumulate local i)
      else local

  -- if (tid < s) { sdata[tid] += sdata[tid + s]; }
  unfoldable pub fold_thread : ℕ → ℕ → Shared D → Shared D
  fold_thread s tid sdata =
      if ltb tid s then put tid (add (sdata tid) (sdata (tid + s))) sdata else sdata

  -- for (int s = ...; s > 0; s >>= 1), with a barrier after each round; the fuel is a bound on s.
  unfoldable pub fold_rounds : (ℕ → List ℕ) → ℕ → ℕ → Shared D → Shared D
  fold_rounds order zero s sdata = sdata
  fold_rounds order (suc fuel) s sdata =
      if s == 0
      then sdata
      else fold_rounds order fuel (s / 2) (run_units (fold_thread s) (order s) sdata)

  -- What thread 0 of a block writes, from the sums of its threads.
  unfoldable pub block_total : (ℕ → List ℕ) → ℕ → Shared D → D
  block_total order threads locals = fold_rounds order threads (threads / 2) locals 0

  -- A first-stage kernel: each block writes its total of the threads' shares.
  unfoldable pub partials_kernel :
      Orders → (Memory (Word D) → D → ℕ → D) → ℕ → ℕ → ℕ → ℕ → ℕ → Memory (Word D) → Memory (Word D)
  partials_kernel orders accumulate n threads stride partials block memory =
      store partials block
        (real (
          block_total (orders block) threads
            λ tid. strided_fold (accumulate memory) n (block * threads + tid) n stride nought))
        memory

  unfoldable pub reduce_partials_kernel :
      Orders → ℕ → ℕ → ℕ → ℕ → ℕ → Memory (Word D) → Memory (Word D)
  reduce_partials_kernel orders partials count threads out block memory =
      store out 0
        (real (
          block_total (orders block) threads λ tid.
            strided_fold (λ local i. add local (as_real nought (memory partials i))) count tid count
              threads nought))
        memory
