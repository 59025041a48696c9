-- ===== src/Gpu/Probe.antt =====
-- src/gpu/gpu_logic_kernels.cu: the batched first-argument clause probe.
pub mod Batch
pub mod Bits
pub mod Buffers
pub mod Result
use nimble_cas.Prelude.{
  ℕ, zero, suc, ◌+◌, ◌-◌, ◌*◌, ◌/◌, ◌%◌, ◌^◌, ◌≤◌, ◌<◌, leb, ◌≡◌, ◌≢◌, refl, sym, ap, subst, ◌∙◌,
  List, [], ◌∷◌, Bool, true, false, ◌||◌, ltb, ◌==◌, if◌then◌else◌, arith, length, get_or, take,
}
use nimble_cas.Prelude.Int.{ℤ, pos, negsuc, pos_part, neg_part}
use nimble_cas.Cuda.Calls.{
  extent_of, Extent, Memory, store, Call, Reply, Gpu, Runtime, Trace, pure, fail, ◌>>=◌, ◌>>◌, call,
  checked,
}
use nimble_cas.Cuda.Host.{HostBuffer, launch_and_read, finally, or_return}

-- (gk == 0ULL) || (ck == 0ULL) || (ck == gk)
unfoldable pub may_match : ℕ → ℕ → Bool
may_match gk ck = (gk == 0) || ((ck == 0) || (ck == gk))

unfoldable pub candidate : (ℕ → ℕ) → ℕ → ℕ → ℕ → Bool
candidate clause_keys clause_count gk index =
    if ltb index clause_count then may_match gk (clause_keys index) else false

-- __ballot_sync: bit `lane` of the mask is the predicate of that lane.
unfoldable pub ballot : ℕ → (ℕ → Bool) → ℕ
ballot zero predicate = 0
ballot (suc lanes) predicate = ballot lanes predicate + (if predicate lanes then 2 ^ lanes else 0)

-- The word of 64 clauses from `base` on: two ballots of 32 lanes.
unfoldable pub probe_word : (ℕ → ℕ) → ℕ → ℕ → ℕ → ℕ
probe_word clause_keys clause_count gk base =
    ballot 32 (λ lane. candidate clause_keys clause_count gk (base + lane))
    + ballot 32 (λ lane. candidate clause_keys clause_count gk (base + 32 + lane)) * 2 ^ 32

-- for (int word = 0; word < row_words; ++word): the stores of the block's thread 0.
unfoldable pub probe_row : (ℕ → ℕ) → ℕ → ℕ → ℕ → ℕ → ℕ → Memory ℕ → Memory ℕ
probe_row clause_keys clause_count gk out row zero memory = memory
probe_row clause_keys clause_count gk out row (suc words) memory =
    store out (row + words) (probe_word clause_keys clause_count gk (words * 64))
      (probe_row clause_keys clause_count gk out row words memory)

-- One block: its 32 threads are the lanes of the ballots.
unfoldable pub index_probe_kernel : ℕ → ℕ → ℕ → ℕ → ℕ → ℕ → ℕ → Memory ℕ → Memory ℕ
index_probe_kernel clause_keys clause_count goal_keys goal_count row_words out goal memory =
    if leb goal_count goal
    then memory
    else probe_row (memory clause_keys) clause_count (memory goal_keys goal) out (goal * row_words)
        row_words memory

-- (clause_count + 63) / 64; where the sum is no `int`, which is undefined in C++, there are none.
abbrev pub words_of : ℕ → ℕ
words_of clause_count = if ltb (clause_count + 63) (2 ^ 31) then (clause_count + 63) / 64 else 0

unfoldable pub probe_body : List ℕ → ℕ → List ℕ → ℕ → ℕ → ℕ → ℕ → Gpu ℕ (List ℕ)
probe_body clause_keys clause_count goal_keys goal_count d_ck d_gk d_out = do
  let row_words = words_of clause_count
  checked (Call.copy_in d_ck 0 clause_keys (extent_of clause_count 8))
  checked (Call.copy_in d_gk 0 goal_keys (extent_of goal_count 8))
  launch_and_read goal_count 32 goal_count
      (index_probe_kernel d_ck clause_count d_gk goal_count row_words d_out) d_out
      (extent_of (goal_count * row_words) 8)

-- The three allocations, freed by hand on every way out.
unfoldable pub probe_on_device : List ℕ → ℕ → List ℕ → ℕ → Gpu ℕ (List ℕ)
probe_on_device clause_keys clause_count goal_keys goal_count = do
  ck ← call (Call.malloc (extent_of clause_count 8))
  or_return ck (pure tt) (do
    gk ← call (Call.malloc (extent_of goal_count 8))
    or_return gk (do call (Call.free ck.pointer); pure tt)
        (do
          out ← call (Call.malloc (extent_of (goal_count * words_of clause_count) 8))
          or_return out (do call (Call.free ck.pointer); call (Call.free gk.pointer); pure tt)
              (finally
                (probe_body clause_keys clause_count goal_keys goal_count ck.pointer gk.pointer
                  out.pointer)
                (do
                  call (Call.free ck.pointer)
                  call (Call.free gk.pointer)
                  call (Call.free out.pointer)
                  pure tt))))

-- The `int` -1.
abbrev pub minus_one : ℕ
minus_one = 4294967295

-- The cells written to `out_words`, whose address is the last argument.
unfoldable pub index_probe_batch : HostBuffer ℕ → ℤ → HostBuffer ℕ → ℤ → ℕ → Gpu ℕ (List ℕ)
index_probe_batch clause_keys clause_count goal_keys goal_count out_words =
    if (ltb 0 (neg_part clause_count) || ltb 0 (neg_part goal_count))
    then fail minus_one
    else if ((pos_part clause_count == 0) || (pos_part goal_count == 0))
    then pure []
    else if ((clause_keys.address == 0) || ((goal_keys.address == 0) || (out_words == 0)))
    then fail minus_one
    else probe_on_device clause_keys.content (pos_part clause_count) goal_keys.content
        (pos_part goal_count)
