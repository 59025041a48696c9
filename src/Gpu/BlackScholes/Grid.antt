-- ===== src/Gpu/BlackScholes/Grid.antt =====
-- bs_blocks: what it answers.
use nimble_cas.Prelude.{
  ℕ, ◌+◌, ◌-◌, ◌*◌, ◌/◌, ◌≤◌, ◌≡◌, refl, ◌∷◌, ◌&&◌, ltb, ◌==◌, if◌then◌else◌, arith, inl, inr,
  Bool-cases,
}
use nimble_cas.Cuda.Calls.{Memory, Call, Runtime, Trace, done, pure, call, ◌>>=◌}
use nimble_cas.Cuda.Memory.{contents}
use nimble_cas.Cuda.Ledger.{>>=-Settles, call-Settles, pure-Settles, if-Settles}
use nimble_cas.Cuda.Host.{capped_blocks}
use nimble_cas.Cuda.Choice.{IsChoice}
use nimble_cas.Gpu.BlackScholes.{bs_blocks}

module _ {A : Type 0} (n threads : ℕ) where
  bs_blocks-done :
      (cuda : Runtime A) (log : Trace A)
      → (blocks : ℕ) × (after : Trace A) × (bs_blocks n threads cuda log ≡ (done blocks, after))
        × ((initial : Memory A) → contents initial after ≡ contents initial log)
        × (1 ≤ blocks)
  unfolding bs_blocks ◌>>=◌ call pure contents
  bs_blocks-done cuda log =
      let by_n64 = (n + threads - 1) / threads in
      let by_n = if ltb 0 by_n64 then by_n64 else 1 in
      let reply = cuda log (Call.multi_processor_count 0) in
      let asked = (Call.multi_processor_count 0, reply) ∷ log in
      elim (Bool-cases ((reply.status == 0) && ltb 0 reply.number)) [
        | inl e ↦
            (capped_blocks (reply.number * 32) by_n, asked, rw e refl, λ _. refl, ground arith)
        | inr e ↦ (
          if ltb by_n 1 then 1 else by_n,
          (Call.get_last_error, cuda asked Call.get_last_error) ∷ asked,
          rw e refl,
          λ _. refl,
          ground arith,
        )
      ]

  pub bs_blocks-IsChoice : IsChoice (bs_blocks {A = A} n threads)
  unfolding bs_blocks
  bs_blocks-IsChoice = record {
    answers = bs_blocks-done;
    settled = >>=-Settles (call-Settles _ (λ x r. refl)) λ reply.
        if-Settles _ (pure-Settles _)
          (>>=-Settles (call-Settles _ (λ x r. refl)) λ _. pure-Settles _);
  }
