-- ===== src/Cuda/Success.antt =====
-- src/gpu/*.cu: what is known when a host function has returned 0.
use nimble_cas.Prelude.{
  ◌⊎◌, ℕ, ◌+◌, ◌≤◌, max, ◌≡◌, ◌≢◌, refl, sym, ap, ◌∙◌, List, [], ◌∷◌, Bool, true, false, not, ◌&&◌,
  leb, ltb, ◌*◌, ◌-◌, ◌/◌, ◌==◌, if◌then◌else◌, arith, length, get_or, inl, inr, Bool-cases, ==_iff,
}
use nimble_cas.Cuda.Calls.{
  Extent, bytes, Memory, Call, Reply, Trace, Runtime, Attempt, done, failed, Gpu, pure, ◌>>=◌,
  continue_with, call, checked,
}
use nimble_cas.Cuda.Host.{
  PinnedScope, pin_threshold_bytes, host_register, choose_blocks, capped_blocks, unpin, with_pinned,
}
use nimble_cas.Cuda.Memory.{contents}

-- The value that a run ends with, when it ends with one.
abbrev pub value_of : {B : Type 0} → Attempt B → List B
value_of (done v) = v ∷ []
value_of (failed code) = []

pub done_injective : {B : Type 0} {u v : B} → done u ≡ done v → u ≡ v
done_injective {B} {u} e = ap (λ a. get_or (value_of a) 0 u) e

pub failed-≢-done : {B : Type 0} {code : ℕ} {v : B} → failed code ≢ done v
failed-≢-done e = absurd (omega (arith, ap (λ a. length (value_of a)) e))

module _ {A : Type 0} where
  -- A run that ends with a value.
  pub record Returns {B : Type 0} (m : Gpu A B) (cuda : Runtime A) (log : Trace A) (v : B)
      : Type 0 where
    pub result : (m cuda log).0 ≡ done v

  continue_with-done :
      {B C : Type 0} (next : B → Gpu A C) (cuda : Runtime A) (mid : Attempt B × Trace A) {v : C}
      → (continue_with next cuda mid).0 ≡ done v
      → (u : B) × (mid.0 ≡ done u) × (continue_with next cuda mid ≡ next u cuda mid.1)
  continue_with-done next cuda (done u, log) e = (u, refl, refl)
  continue_with-done next cuda (failed code, log) e = absurd (failed-≢-done e)

  -- Both halves of a sequence have succeeded.
  pub >>=-Returns :
      {B C : Type 0} {m : Gpu A B} {next : B → Gpu A C} {cuda : Runtime A} {log : Trace A} {v : C}
      → Returns (m >>= next) cuda log v
      → (u : B) × Returns m cuda log u × Returns (next u) cuda (m cuda log).1 v
  unfolding ◌>>=◌
  >>=-Returns {m} {next} {cuda} {log} e =
      let (u, first, same) = continue_with-done next cuda (m cuda log) e.result in
      (u, record { result = first }, record { result = sym (ap (λ t. t.0) same) ∙ e.result })

  pub pure-Returns :
      {B : Type 0} {u v : B} {cuda : Runtime A} {log : Trace A}
      → Returns (pure u) cuda log v
      → u ≡ v
  unfolding pure
  pure-Returns e = done_injective e.result

  continue_with_assoc :
      {B C E : Type 0} (f : B → Gpu A C) (g : C → Gpu A E) (cuda : Runtime A)
      (mid : Attempt B × Trace A)
      → continue_with g cuda (continue_with f cuda mid) ≡ continue_with (λ x. f x >>= g) cuda mid
  unfolding ◌>>=◌
  continue_with_assoc f g cuda (done u, log) = refl
  continue_with_assoc f g cuda (failed code, log) = refl

  -- A sequence of steps that stands first in another.
  pub >>=_assoc-Returns :
      {B C E : Type 0} (m : Gpu A B) (f : B → Gpu A C) (g : C → Gpu A E) {cuda : Runtime A}
      {log : Trace A} {v : E}
      → Returns (m >>= f >>= g) cuda log v
      → Returns (m >>= λ x. f x >>= g) cuda log v
  unfolding ◌>>=◌
  >>=_assoc-Returns m f g {cuda} {log} e = record {
    result = sym (ap (λ t. t.0) (continue_with_assoc f g cuda (m cuda log))) ∙ e.result;
  }

  pub pure->>=-Returns :
      {B C : Type 0} (u : B) (g : B → Gpu A C) {cuda : Runtime A} {log : Trace A} {v : C}
      → Returns (pure u >>= g) cuda log v
      → Returns (g u) cuda log v
  unfolding ◌>>=◌ pure
  pure->>=-Returns u g e = record { result = e.result }

  -- The branch that was taken.
  pub if-Returns :
      {B : Type 0} (test : Bool) {m n : Gpu A B} {cuda : Runtime A} {log : Trace A} {v : B}
      → Returns (if test then m else n) cuda log v
      → ((test ≡ true) × Returns m cuda log v) ⊎ ((test ≡ false) × Returns n cuda log v)
  if-Returns true e = inl (refl, e)
  if-Returns false e = inr (refl, e)

  pub if->>=-Returns :
      {B C : Type 0} (test : Bool) (m n : Gpu A B) (rest : B → Gpu A C) {cuda : Runtime A}
      {log : Trace A} {v : C}
      → Returns ((if test then m else n) >>= rest) cuda log v
      → ((test ≡ true) × Returns (m >>= rest) cuda log v)
        ⊎ ((test ≡ false) × Returns (n >>= rest) cuda log v)
  if->>=-Returns true m n rest e = inl (refl, e)
  if->>=-Returns false m n rest e = inr (refl, e)

  -- A checked call has succeeded: its status, its reply and its entry in the log.
  pub checked-Returns :
      {c : Call A} {cuda : Runtime A} {log : Trace A} {r : Reply A}
      → Returns (checked c) cuda log r
      → ((cuda log c).status ≡ 0)
        × (cuda log c ≡ r)
        × ((checked c cuda log).1 ≡ (c, cuda log c) ∷ log)
  unfolding checked
  checked-Returns {c} {cuda} {log} {r} e = elim (Bool-cases ((cuda log c).status == 0)) [
    | inl zero_status ↦ (
      (==_iff (cuda log c).status 0).0 zero_status,
      done_injective (
          sym (
            ap (λ (t : Bool). if t then done (cuda log c) else failed (cuda log c).status)
              zero_status)
          ∙ e.result),
      refl,
    )
    | inr bad ↦ absurd (
        failed-≢-done (
          sym (ap (λ (t : Bool). if t then done (cuda log c) else failed (cuda log c).status) bad)
          ∙ e.result))
  ]

  pub host_register-done :
      (ptr : ℕ) (extent : Extent) (cuda : Runtime A) (log : Trace A)
      → (scope : PinnedScope) × (start : Trace A) × (host_register ptr extent cuda log
          ≡ (done scope, start))
  unfolding host_register ◌>>=◌ call pure
  host_register-done ptr extent cuda log =
      elim (Bool-cases (not (ptr == 0) && leb pin_threshold_bytes (bytes extent))) [
        | inr e ↦ (record { ptr = ptr; registered = false }, log, rw e refl)
        | inl e ↦ elim (Bool-cases ((cuda log (Call.host_register ptr extent)).status == 0)) [
          | inl ok ↦ (
            record { ptr = ptr; registered = true },
            (Call.host_register ptr extent, cuda log (Call.host_register ptr extent)) ∷ log,
            rw (e, ok) refl,
          )
          | inr bad ↦ (
            record { ptr = ptr; registered = false },
            (
              Call.get_last_error,
              cuda ((Call.host_register ptr extent, cuda log (Call.host_register ptr extent)) ∷ log)
                  Call.get_last_error,
            )
                ∷ (Call.host_register ptr extent, cuda log (Call.host_register ptr extent))
                ∷ log,
            rw (e, bad) refl,
          )
        ]
      ]

  -- Pinning a buffer changes no result.
  pub with_pinned-Returns :
      {B : Type 0} (ptr : ℕ) (extent : Extent) {body : Gpu A B} {cuda : Runtime A} {log : Trace A}
      {v : B}
      → Returns (with_pinned ptr extent body) cuda log v
      → (start : Trace A) × Returns body cuda start v
  unfolding with_pinned unpin ◌>>=◌
  with_pinned-Returns ptr extent {body} {cuda} {log} e =
      let (scope, start, same) = host_register-done ptr extent cuda log in
      (
        start,
        record {
          result =
              sym (ap (λ mid. (continue_with (λ s c l. unpin s c (body c l)) cuda mid).0) same)
              ∙ e.result;
        },
      )

  -- choose_blocks always answers with at least one block and at most the larger of 1 and the
  -- number of blocks that gives each unit of work a thread, and it leaves the device's memory as
  -- it was.
  pub choose_blocks-done :
      (work threads : ℕ) (cuda : Runtime A) (log : Trace A)
      → (blocks : ℕ) × (after : Trace A) × (choose_blocks work threads cuda log
          ≡ (done blocks, after))
        × ((initial : Memory A) → contents initial after ≡ contents initial log)
        × (1 ≤ blocks)
        × (blocks ≤ max 1 ((work + threads - 1) / threads))
  unfolding choose_blocks ◌>>=◌ call pure contents
  choose_blocks-done work threads cuda log =
      let reply = cuda log (Call.multi_processor_count 0) in
      let asked = (Call.multi_processor_count 0, reply) ∷ log in
      elim (Bool-cases ((reply.status == 0) && ltb 0 reply.number)) [
        | inl e ↦ (
          capped_blocks (reply.number * 32) ((work + threads - 1) / threads),
          asked,
          rw e refl,
          λ _. refl,
          ground arith,
          ground arith,
        )
        | inr e ↦ (
          (if ltb ((work + threads - 1) / threads) 1 then 1 else (work + threads - 1) / threads),
          (Call.get_last_error, cuda asked Call.get_last_error) ∷ asked,
          rw e refl,
          λ _. refl,
          ground arith,
          ground arith,
        )
      ]
