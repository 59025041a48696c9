-- ===== src/Cuda/Device.antt =====
-- src/gpu/gpu_sweep_kernels.cu and src/gpu/gpu_wavelet_kernels.cu: the choose_blocks that asks the
-- current device, and what it answers.
use nimble_cas.Prelude.{
  ℕ, ◌+◌, ◌-◌, ◌*◌, ◌/◌, ◌≤◌, ◌≡◌, refl, ◌∷◌, ◌&&◌, ltb, ◌==◌, if◌then◌else◌, arith, inl, inr,
  Bool-cases,
}
use nimble_cas.Cuda.Calls.{Memory, Call, Gpu, Runtime, Trace, done, pure, call, ◌>>=◌, ◌>>◌}
use nimble_cas.Cuda.Memory.{contents}
use nimble_cas.Cuda.Ledger.{Settles, >>=-Settles, call-Settles, pure-Settles, if-Settles}
use nimble_cas.Cuda.Host.{capped_blocks}
use nimble_cas.Cuda.Choice.{IsChoice}

-- choose_blocks asks the current device.
unfoldable pub choose_blocks : {A : Type 0} → ℕ → ℕ → Gpu A ℕ
choose_blocks work threads = do
  let blocks_by_work = (work + threads - 1) / threads
  device ← call Call.get_device
  if device.status == 0
      then (do
        reply ← call (Call.multi_processor_count device.number)
        if ((reply.status == 0) && ltb 0 reply.number)
            then pure (capped_blocks (reply.number * 32) blocks_by_work)
            else (do
              call Call.get_last_error
              pure (if ltb blocks_by_work 1 then 1 else blocks_by_work)))
      else (do call Call.get_last_error; pure (if ltb blocks_by_work 1 then 1 else blocks_by_work))

module _ {A : Type 0} (work threads : ℕ) where
  choose_blocks-done :
      (cuda : Runtime A) (log : Trace A)
      → (blocks : ℕ) × (after : Trace A) × (choose_blocks work threads cuda log
          ≡ (done blocks, after))
        × ((initial : Memory A) → contents initial after ≡ contents initial log)
        × (1 ≤ blocks)
  unfolding choose_blocks ◌>>=◌ call pure contents
  choose_blocks-done cuda log =
      let by_work = (work + threads - 1) / threads in
      let least = if ltb by_work 1 then 1 else by_work in
      let r1 = cuda log Call.get_device in
      let log1 = (Call.get_device, r1) ∷ log in
      let c2 = Call.multi_processor_count r1.number in
      let r2 = cuda log1 c2 in
      let log2 = (c2, r2) ∷ log1 in
      elim (Bool-cases (r1.status == 0)) [
        | inr bad ↦ (
          least,
          (Call.get_last_error, cuda log1 Call.get_last_error) ∷ log1,
          rw bad refl,
          λ _. refl,
          ground arith,
        )
        | inl good ↦ elim (Bool-cases ((r2.status == 0) && ltb 0 r2.number)) [
          | inr bad ↦ (
            least,
            (Call.get_last_error, cuda log2 Call.get_last_error) ∷ log2,
            rw (good, bad) refl,
            λ _. refl,
            ground arith,
          )
          | inl e ↦ (
            capped_blocks (r2.number * 32) by_work,
            log2,
            rw (good, e) refl,
            λ _. refl,
            ground arith,
          )
        ]
      ]

  choose_blocks-Settles : Settles (choose_blocks {A = A} work threads)
  unfolding choose_blocks
  choose_blocks-Settles = >>=-Settles (call-Settles _ (λ x r. refl)) λ device.
      if-Settles _
        (>>=-Settles (call-Settles _ (λ x r. refl)) λ reply.
          if-Settles _ (pure-Settles _)
            (>>=-Settles (call-Settles _ (λ x r. refl)) λ _. pure-Settles _))
        (>>=-Settles (call-Settles _ (λ x r. refl)) λ _. pure-Settles _)

  pub choose_blocks-IsChoice : IsChoice (choose_blocks {A = A} work threads)
  choose_blocks-IsChoice = record { answers = choose_blocks-done; settled = choose_blocks-Settles }
