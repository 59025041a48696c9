-- ===== src/Gpu/Options/Result.antt =====
-- The batches of options: their use of device memory.
use nimble_cas.Prelude.{ℕ, ◌≡◌, refl, List, ◌==◌}
use nimble_cas.Prelude.Int.{ℤ, pos_part}
use nimble_cas.Cuda.Calls.{Memory, Gpu, Runtime, Trace, done}
use nimble_cas.Cuda.Ledger.{
  IsSettled, >>=-Settles, checked-Settles, pure-Settles, if-Settles, launch_and_read-Settles,
}
use nimble_cas.Cuda.Release.{with_buffers-Settles}
use nimble_cas.Cuda.Healthy.{
  IsHealthy, if-Completes, pure-Completes, with_buffers-Completes, >>=-Completes, checked-Completes,
  launch_and_read-Completes,
}
use nimble_cas.Cuda.Choice.{IsChoice, IsChoice-Completes}
use nimble_cas.Gpu.Options.{Loop, Slot, option_body, option_batch}

module _ {O R : Type 0} (blank : O) (loop : Loop (Memory (Slot O R))) (point : O → R)
    {blocks_for : ℕ → ℕ → Gpu (Slot O R) ℕ}
    (choice : (work threads : ℕ) → IsChoice (blocks_for work threads)) where
  pub option_batch-IsSettled :
      (in_width out_width : ℕ) (opts : List O) (n : ℤ) (cuda : Runtime (Slot O R))
      (log : Trace (Slot O R))
      → IsSettled log
          (option_batch blank loop point blocks_for in_width out_width opts n cuda log).1
  unfolding option_batch option_body
  option_batch-IsSettled in_width out_width opts n cuda log =
      (if-Settles (pos_part n == 0) (pure-Settles _) (
          with_buffers-Settles _ λ pointers. >>=-Settles (checked-Settles _ (λ y r. refl)) λ _.
            >>=-Settles (choice (pos_part n) 256).settled
              λ blocks. launch_and_read-Settles _ _ _ _ _ _)).settles
        cuda log

  pub option_batch-completes :
      (in_width out_width : ℕ) (opts : List O) (n : ℤ) (cuda : Runtime (Slot O R))
      (log : Trace (Slot O R))
      → IsHealthy cuda
      → (v : List (Slot O R)) × ((option_batch blank loop point blocks_for in_width out_width opts n
            cuda log).0
          ≡ done v)
  unfolding option_batch option_body
  option_batch-completes in_width out_width opts n cuda log healthy =
      (if-Completes (pos_part n == 0) (pure-Completes _) (
          with_buffers-Completes _ healthy λ pointers.
            >>=-Completes (checked-Completes _ healthy) λ _.
              >>=-Completes (IsChoice-Completes (choice (pos_part n) 256))
                λ blocks. launch_and_read-Completes _ _ _ _ _ _ healthy)).completes
        log
