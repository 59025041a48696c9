-- ===== src/Cuda/Choice.antt =====
-- src/gpu/*.cu: what the functions have in common that choose the blocks of a grid.
use nimble_cas.Prelude.{ℕ, ◌≤◌, ◌≡◌, sym, ap, subst, ◌∙◌}
use nimble_cas.Cuda.Calls.{Memory, Gpu, Runtime, Trace, done, ◌>>=◌}
use nimble_cas.Cuda.Memory.{contents}
use nimble_cas.Cuda.Ledger.{Settles}
use nimble_cas.Cuda.Success.{Returns}
use nimble_cas.Cuda.Healthy.{Completes}
use nimble_cas.Cuda.Success.{>>=-Returns, done_injective}

-- A choice of the grid: it fails never, asks for a block at least, and leaves the memory.
pub record IsChoice {A : Type 0} (m : Gpu A ℕ) : Type 0 where
  pub answers :
      (cuda : Runtime A) (log : Trace A)
      → (blocks : ℕ) × (after : Trace A) × (m cuda log ≡ (done blocks, after))
        × ((initial : Memory A) → contents initial after ≡ contents initial log)
        × (1 ≤ blocks)
  pub settled : Settles m

module _ {A : Type 0} {m : Gpu A ℕ} (choice : IsChoice m) where
  pub IsChoice-Returns :
      {B : Type 0} (initial : Memory A) {cuda : Runtime A} {log : Trace A} {next : ℕ → Gpu A B}
      {v : B}
      → Returns (m >>= next) cuda log v
      → (blocks : ℕ) × (after : Trace A) × Returns (next blocks) cuda after v
        × (1 ≤ blocks)
        × (contents initial after ≡ contents initial log)
  IsChoice-Returns initial {cuda} {log} e =
      let (chosen, first, rest) = >>=-Returns e in
      let (blocks, after, same, kept, some_blocks) = choice.answers cuda log in
      let agree : blocks ≡ chosen = done_injective (sym (ap (λ t. t.0) same) ∙ first.result) in
      (
        chosen,
        (m cuda log).1,
        rest,
        subst (λ t. 1 ≤ t) agree some_blocks,
        ap (λ t. contents initial t.1) same ∙ kept initial,
      )

  pub IsChoice-Completes : {cuda : Runtime A} → Completes cuda m
  IsChoice-Completes {cuda} = record {
    completes = λ log.
        let (blocks, _, same, _, _) = choice.answers cuda log in (blocks, ap (λ t. t.0) same);
  }
