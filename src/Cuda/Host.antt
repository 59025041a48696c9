-- ===== src/Cuda/Host.antt =====
-- src/gpu/gpu_kernels.cu: the helpers of its host functions, and the allocate-and-free shape
-- that they write out around a body.
use nimble_cas.Prelude.{
  ℕ, ◌+◌, ◌-◌, ◌*◌, ◌/◌, List, [], ◌∷◌, Bool, true, false, ltb, leb, ◌==◌, if◌then◌else◌, not, ◌&&◌,
  map,
}
use nimble_cas.Cuda.Calls.{
  Extent, bytes, Memory, Call, Reply, Trace, Runtime, Attempt, failed, Gpu, pure, fail, ◌>>=◌, ◌>>◌,
  call, checked,
}
use nimble_cas.Cuda.Calls.Call.{malloc, free, get_last_error, multi_processor_count}

-- A caller's buffer: its address, 0 for nullptr, and what it holds.
pub record HostBuffer (A : Type 0) : Type 0 where
  pub address : ℕ
  pub content : List A

-- struct PinnedScope
pub record PinnedScope : Type 0 where
  pub ptr : ℕ
  pub registered : Bool

-- kPinThresholdBytes
abbrev pub pin_threshold_bytes : ℕ
pin_threshold_bytes = 256 * 1024

-- `blocks < 1 ? 1 : blocks`, after the cap of 32 blocks per multiprocessor.
abbrev pub capped_blocks : ℕ → ℕ → ℕ
capped_blocks grid_cap blocks_by_work =
    let blocks = if ltb grid_cap blocks_by_work then grid_cap else blocks_by_work in
    if ltb blocks 1 then 1 else blocks

module _ {A : Type 0} where
  unfoldable pub host_register : ℕ → Extent → Gpu A PinnedScope
  host_register ptr extent =
      if (not (ptr == 0) && leb pin_threshold_bytes (bytes extent))
      then (do
        reply ← call (Call.host_register ptr extent)
        if reply.status == 0
            then pure (record { ptr = ptr; registered = true })
            else (do call get_last_error; pure (record { ptr = ptr; registered = false })))
      else pure (record { ptr = ptr; registered = false })

  unfoldable pub host_unregister : PinnedScope → Gpu A (Unit {0})
  host_unregister scope =
      if scope.registered
      then (do call (Call.host_unregister scope.ptr); call get_last_error; pure tt)
      else pure tt

  unfoldable pub choose_blocks : ℕ → ℕ → Gpu A ℕ
  choose_blocks work threads = do
    let blocks_by_work = (work + threads - 1) / threads
    reply ← call (multi_processor_count 0)
    if ((reply.status == 0) && ltb 0 reply.number)
        then pure (capped_blocks (reply.number * 32) blocks_by_work)
        else (do call get_last_error; pure (if ltb blocks_by_work 1 then 1 else blocks_by_work))

  -- The chain of `else if ((err = cudaMalloc(&p, size)) != cudaSuccess)`: the pointers in the
  -- order of their declarations, nullptr for those not reached, and the first failing status.
  unfoldable pub allocate : List Extent → Runtime A → Trace A → List ℕ × (ℕ × Trace A)
  allocate [] cuda log = ([], (0, log))
  allocate (size ∷ sizes) cuda log =
      let reply = cuda log (malloc size) in
      let (rest, after) =
        if reply.status == 0
        then allocate sizes cuda ((malloc size, reply) ∷ log)
        else (map (λ _. 0) sizes, (reply.status, (malloc size, reply) ∷ log)) in
      (reply.pointer ∷ rest, after)

  -- `if (p != nullptr) { cudaFree(p); }` for each.
  unfoldable pub free_all : List ℕ → Runtime A → Trace A → Trace A
  free_all [] cuda log = log
  free_all (p ∷ ps) cuda log =
      if p == 0 then free_all ps cuda log else free_all ps cuda ((free p, cuda log (free p)) ∷ log)

  unfoldable pub release :
      {B : Type 0} → List ℕ → Runtime A → Attempt B × Trace A → Attempt B × Trace A
  release pointers cuda (result, log) = (result, free_all pointers cuda log)

  -- Allocate, run the body when every allocation succeeded, and free what was allocated.
  unfoldable pub with_buffers : {B : Type 0} → List Extent → (List ℕ → Gpu A B) → Gpu A B
  with_buffers sizes body cuda log =
      let (pointers, (status, after)) = allocate sizes cuda log in
      release pointers cuda
        (if status == 0 then body pointers cuda after else (failed status, after))

  unfoldable pub unpin :
      {B : Type 0} → PinnedScope → Runtime A → Attempt B × Trace A → Attempt B × Trace A
  unpin scope cuda (result, log) = (result, (host_unregister scope cuda log).1)

  -- Pin a buffer around the body, whatever the body's result.
  unfoldable pub with_pinned : {B : Type 0} → ℕ → Extent → Gpu A B → Gpu A B
  with_pinned ptr extent body = do
    scope ← host_register ptr extent
    λ cuda log. unpin scope cuda (body cuda log)

  -- Launch, ask for the launch's error, wait, and copy the result out.
  unfoldable pub launch_and_read :
      ℕ → ℕ → ℕ → (ℕ → Memory A → Memory A) → ℕ → Extent → Gpu A (List A)
  launch_and_read blocks threads units kernel out extent = do
    call (Call.launch blocks threads units kernel)
    checked get_last_error
    checked Call.synchronize
    reply ← checked (Call.copy_out out extent)
    pure reply.cells

  -- The body, and then the cleaning up, whatever the body's result.
  unfoldable pub finally : {B : Type 0} → Gpu A B → Gpu A (Unit {0}) → Gpu A B
  finally body cleanup cuda log =
      let (result, after) = body cuda log in (result, (cleanup cuda after).1)

  -- `if (err != cudaSuccess) { ...; return static_cast<int>(err); }`
  unfoldable pub or_return : {B : Type 0} → Reply A → Gpu A (Unit {0}) → Gpu A B → Gpu A B
  or_return reply cleanup rest = if reply.status == 0 then rest else (do cleanup; fail reply.status)
