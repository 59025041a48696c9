-- ===== src/Cuda/Fresh.antt =====
-- `with_buffers`: its allocations are apart from each other, when they all succeed.
use nimble_cas.Prelude.{
  ℕ, zero, suc, ◌<◌, ◌≡◌, ◌≢◌, refl, sym, ap, ◌∙◌, List, [], ◌∷◌, Bool, true, ◌==◌, if◌then◌else◌,
  arith, length, get_or, inl, inr, Bool-cases, ==_iff,
}
use nimble_cas.Cuda.Calls.{Extent, Memory, Call, Trace, Runtime, Attempt, failed, Gpu}
use nimble_cas.Cuda.Host.{allocate, release, with_buffers}
use nimble_cas.Cuda.Memory.{contents, is_live, IsFaithful}
use nimble_cas.Cuda.Success.{Returns, failed-≢-done}

-- The pointers of a list are apart.
abbrev pub IsApart : List ℕ → Type 0
IsApart pointers =
    (i j : ℕ) → i < j → j < length pointers → get_or pointers i 0 ≢ get_or pointers j 0

module _ {A : Type 0} where
  record IsFresh (sizes : List Extent) (initial : Memory A) (log : Trace A)
      (result : List ℕ × (ℕ × Trace A)) : Type 0 where
    off_live : (p j : ℕ) → is_live p log ≡ true → j < length result.0 → get_or result.0 j 0 ≢ p
    apart : IsApart result.0
    count : length result.0 ≡ length sizes
    same : contents initial result.1.1 ≡ contents initial log

  cons-IsFresh :
      {initial : Memory A} (cuda : Runtime A) (size : Extent) (sizes : List Extent) (log : Trace A)
      (rest : List ℕ × (ℕ × Trace A))
      → IsFaithful initial cuda
      → (cuda log (Call.malloc size)).status ≡ 0
      → IsFresh sizes initial ((Call.malloc size, cuda log (Call.malloc size)) ∷ log) rest
      → IsFresh (size ∷ sizes) initial log ((cuda log (Call.malloc size)).pointer ∷ rest.0, rest.1)
  unfolding is_live contents
  cons-IsFresh cuda size sizes log rest faithful e u = record {
    off_live = off_live;
    apart = apart;
    count = ap suc u.count;
    same = u.same;
  }
    where
      off_live :
          (p j : ℕ)
          → is_live p log ≡ true
          → j < suc (length rest.0)
          → get_or ((cuda log (Call.malloc size)).pointer ∷ rest.0) j 0 ≢ p
      off_live p zero live h same = absurd (
          omega (
            arith,
            ap {B = ℕ} (λ (t : Bool). if t then 1 else 0)
                (sym live ∙ ap (λ q. is_live q log) (sym same) ∙ faithful.fresh log size e),
          ))
      off_live p (suc j) live h same =
          elim (Bool-cases ((cuda log (Call.malloc size)).pointer == p)) [
            | inl hit ↦ u.off_live p j (rw hit refl) (omega arith) same
            | inr miss ↦ u.off_live p j (rw miss live) (omega arith) same
          ]

      apart :
          (i j : ℕ)
          → i < j
          → j < suc (length rest.0)
          → get_or ((cuda log (Call.malloc size)).pointer ∷ rest.0) i 0
            ≢ get_or ((cuda log (Call.malloc size)).pointer ∷ rest.0) j 0
      apart i zero lt h same = absurd (omega arith)
      apart zero (suc j) lt h same =
          u.off_live (cuda log (Call.malloc size)).pointer j (ground arith) (omega arith) (sym same)
      apart (suc i) (suc j) lt h same = u.apart i j (omega arith) (omega arith) same

  allocate-IsFresh :
      {initial : Memory A} (cuda : Runtime A) (sizes : List Extent) (log : Trace A)
      → IsFaithful initial cuda
      → (allocate sizes cuda log).1.0 ≡ 0
      → IsFresh sizes initial log (allocate sizes cuda log)
  unfolding allocate
  allocate-IsFresh cuda [] log faithful e = record {
    off_live = λ p j live h. absurd (omega arith);
    apart = λ i j lt h. absurd (omega arith);
    count = refl;
    same = refl;
  }
  allocate-IsFresh cuda (size ∷ sizes) log faithful e =
      elim (Bool-cases ((cuda log (Call.malloc size)).status == 0)) [
        | inl ok ↦ rw ok (
            cons-IsFresh cuda size sizes log
              (allocate sizes cuda ((Call.malloc size, cuda log (Call.malloc size)) ∷ log)) faithful
              ((==_iff _ 0).0 ok) (allocate-IsFresh cuda sizes _ faithful (rw ok at e)))
        | inr bad ↦ absurd (ground (arith, bad, e))
      ]

  -- A body that returns inside `with_buffers` ran on allocations that are apart.
  pub with_buffers-Returns :
      {B : Type 0} {initial : Memory A} (sizes : List Extent) (body : List ℕ → Gpu A B)
      (cuda : Runtime A) (log : Trace A) {v : B}
      → IsFaithful initial cuda
      → Returns (with_buffers sizes body) cuda log v
      → (pointers : List ℕ) × (start : Trace A) × (length pointers ≡ length sizes)
        × IsApart pointers
        × Returns (body pointers) cuda start v
  unfolding with_buffers release
  with_buffers-Returns {B} sizes body cuda log {v} faithful e =
      elim (Bool-cases ((allocate sizes cuda log).1.0 == 0)) [
        | inl ok ↦
            let u = allocate-IsFresh cuda sizes log faithful ((==_iff _ 0).0 ok) in
            (
              (allocate sizes cuda log).0,
              (allocate sizes cuda log).1.1,
              u.count,
              u.apart,
              record { result = sym (ap branch ok) ∙ e.result },
            )
        | inr bad ↦ absurd (failed-≢-done (sym (ap branch bad) ∙ e.result))
      ]
    where
      branch : Bool → Attempt B
      branch test =
          (if test
            then body (allocate sizes cuda log).0 cuda (allocate sizes cuda log).1.1
            else (failed (allocate sizes cuda log).1.0, (allocate sizes cuda log).1.1)).0
