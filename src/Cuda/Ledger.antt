-- ===== src/Cuda/Ledger.antt =====
-- Device allocations and pinned host buffers, counted along the log of a run.
use nimble_cas.Prelude.{
  ℕ, ◌+◌, ◌≡◌, ◌≢◌, refl, [], ◌∷◌, Bool, true, false, ◌==◌, if◌then◌else◌, Bool-cases, inl, inr,
  arith, not, ◌&&◌, leb,
}
use nimble_cas.Cuda.Calls.{
  Extent, bytes, Memory, Call, Reply, Trace, Runtime, Attempt, done, failed, Gpu, pure, fail, ◌>>=◌,
  continue_with, call, checked,
}
use nimble_cas.Cuda.Host.{
  PinnedScope, host_register, host_unregister, choose_blocks, launch_and_read, unpin,
  pin_threshold_bytes, with_pinned,
}

-- What the ledger counts.
pub data Entry : Type 0 where
  allocated freed pinned unpinned : ℕ → Entry

abbrev pub one_if : Bool → ℕ
one_if test = if test then 1 else 0

module _ {A : Type 0} where
  -- The entries of one call: a `cudaMalloc` that left the pointer p, a `cudaFree` of p, a
  -- `cudaHostRegister` of the address p that succeeded, a `cudaHostUnregister` of it.
  abbrev pub entry : Call A → Reply A → Entry → ℕ
  entry (Call.malloc e) r (Entry.allocated p) = one_if (r.pointer == p)
  entry (Call.free q) r (Entry.freed p) = one_if (q == p)
  entry (Call.host_register q e) r (Entry.pinned p) = one_if ((r.status == 0) && (q == p))
  entry (Call.host_unregister q) r (Entry.unpinned p) = one_if (q == p)
  entry _ r _ = 0

  unfoldable pub total : Entry → Trace A → ℕ
  total x [] = 0
  total x ((c, r) ∷ log) = entry c r x + total x log

  -- From the first log to the second, each pointer is allocated as often as it is freed, and each
  -- address is pinned as often as it is unpinned.
  pub record IsSettled (before after : Trace A) : Type 0 where
    pub memory :
        (p : ℕ)
        → p ≢ 0
        → total (Entry.allocated p) after + total (Entry.freed p) before
          ≡ total (Entry.allocated p) before + total (Entry.freed p) after
    pub pins :
        (p : ℕ)
        → total (Entry.pinned p) after + total (Entry.unpinned p) before
          ≡ total (Entry.pinned p) before + total (Entry.unpinned p) after

  pub record Settles {B : Type 0} (m : Gpu A B) : Type 0 where
    pub settles : (cuda : Runtime A) (log : Trace A) → IsSettled log (m cuda log).1

  -- A call that is not of the four that the ledger counts.
  abbrev pub IsPlain : Call A → Type 0
  IsPlain c = (x : Entry) (r : Reply A) → entry c r x ≡ 0

  pub IsSettled-refl : (log : Trace A) → IsSettled log log
  IsSettled-refl log = record { memory = λ p h. refl; pins = λ p. refl }

  pub IsSettled-trans : {a b c : Trace A} → IsSettled a b → IsSettled b c → IsSettled a c
  IsSettled-trans u v = record {
    memory = λ p h. omega (arith, u.memory p h, v.memory p h);
    pins = λ p. omega (arith, u.pins p, v.pins p);
  }

  pub IsPlain-IsSettled :
      (c : Call A) (r : Reply A) (log : Trace A) → IsPlain c → IsSettled log ((c, r) ∷ log)
  unfolding total
  IsPlain-IsSettled c r log plain = record {
    memory = λ p h. omega (arith, plain (Entry.allocated p) r, plain (Entry.freed p) r);
    pins = λ p. omega (arith, plain (Entry.pinned p) r, plain (Entry.unpinned p) r);
  }

  pub call-Settles : (c : Call A) → IsPlain c → Settles (call c)
  unfolding call
  call-Settles c plain = record { settles = λ cuda log. IsPlain-IsSettled c (cuda log c) log plain }

  pub checked-Settles : (c : Call A) → IsPlain c → Settles (checked c)
  unfolding checked
  checked-Settles c plain = record {
    settles = λ cuda log. IsPlain-IsSettled c (cuda log c) log plain;
  }

  pub pure-Settles : {B : Type 0} (v : B) → Settles (pure v)
  unfolding pure
  pure-Settles v = record { settles = λ cuda log. IsSettled-refl log }

  pub fail-Settles : {B : Type 0} (code : ℕ) → Settles {B = B} (fail code)
  unfolding fail
  fail-Settles code = record { settles = λ cuda log. IsSettled-refl log }

  continue_with-Settles :
      {B C : Type 0} (next : B → Gpu A C) (cuda : Runtime A) (log : Trace A)
      (mid : Attempt B × Trace A)
      → ((v : B) → Settles (next v))
      → IsSettled log mid.1
      → IsSettled log (continue_with next cuda mid).1
  continue_with-Settles next cuda log (done v, mid) settles h =
      IsSettled-trans h ((settles v).settles cuda mid)
  continue_with-Settles next cuda log (failed code, mid) settles h = h

  pub >>=-Settles :
      {B C : Type 0} {m : Gpu A B} {next : B → Gpu A C}
      → Settles m
      → ((v : B) → Settles (next v))
      → Settles (m >>= next)
  unfolding ◌>>=◌
  >>=-Settles {m} {next} first rest = record {
    settles =
        λ cuda log. continue_with-Settles next cuda log (m cuda log) rest (first.settles cuda log);
  }

  pub if-Settles :
      {B : Type 0} {m n : Gpu A B} (test : Bool)
      → Settles m
      → Settles n
      → Settles (if test then m else n)
  if-Settles true u v = u
  if-Settles false u v = v

  pub if-IsSettled :
      {B : Type 0} (m n : Gpu A B) {cuda : Runtime A} {log : Trace A} (test : Bool)
      → IsSettled log (m cuda log).1
      → IsSettled log (n cuda log).1
      → IsSettled log ((if test then m else n) cuda log).1
  if-IsSettled m n true u v = u
  if-IsSettled m n false u v = v

  pub choose_blocks-Settles : (work threads : ℕ) → Settles (choose_blocks work threads)
  unfolding choose_blocks
  choose_blocks-Settles work threads = >>=-Settles (call-Settles _ (λ x r. refl)) λ reply.
      if-Settles _ (pure-Settles _) (>>=-Settles (call-Settles _ (λ x r. refl)) λ _. pure-Settles _)

  -- One more pin of this scope's address, when the scope is registered.
  record IsPinned (scope : PinnedScope) (before after : Trace A) : Type 0 where
    memory :
        (p : ℕ)
        → (total (Entry.allocated p) after ≡ total (Entry.allocated p) before)
          × (total (Entry.freed p) after ≡ total (Entry.freed p) before)
    pins :
        (p : ℕ)
        → (total (Entry.pinned p) after
            ≡ one_if (scope.registered && (scope.ptr == p)) + total (Entry.pinned p) before)
          × (total (Entry.unpinned p) after ≡ total (Entry.unpinned p) before)

  total-host_unregister :
      (ptr : ℕ) (registered : Bool) (cuda : Runtime A) (log : Trace A)
      → ((p : ℕ)
          → (total
                (Entry.allocated p)
                (host_unregister (record { ptr = ptr; registered = registered }) cuda log).1
              ≡ total (Entry.allocated p) log)
            × (total
                  (Entry.freed p)
                  (host_unregister (record { ptr = ptr; registered = registered }) cuda log).1
                ≡ total (Entry.freed p) log)
            × (total
                  (Entry.pinned p)
                  (host_unregister (record { ptr = ptr; registered = registered }) cuda log).1
                ≡ total (Entry.pinned p) log)
            × (total
                  (Entry.unpinned p)
                  (host_unregister (record { ptr = ptr; registered = registered }) cuda log).1
                ≡ one_if (registered && (ptr == p)) + total (Entry.unpinned p) log))
  unfolding host_unregister total ◌>>=◌ call pure
  total-host_unregister ptr true cuda log p = (omega arith, omega arith, omega arith, omega arith)
  total-host_unregister ptr false cuda log p = (omega arith, omega arith, omega arith, omega arith)

  unpin-IsSettled :
      {B : Type 0} (scope : PinnedScope) (cuda : Runtime A) (before start : Trace A)
      (mid : Attempt B × Trace A)
      → IsPinned scope before start
      → IsSettled start mid.1
      → IsSettled before (unpin scope cuda mid).1
  unfolding unpin
  unpin-IsSettled scope cuda before start (result, log) v u = record {
    memory = λ p h.
        let (same, same', _, _) = total-host_unregister scope.ptr scope.registered cuda log p in
        omega (arith, same, same', v.memory p, u.memory p h);
    pins = λ p.
        let (_, _, same, more) = total-host_unregister scope.ptr scope.registered cuda log p in
        omega (arith, same, more, v.pins p, u.pins p);
  }

  host_register-IsPinned :
      (ptr : ℕ) (extent : Extent) (cuda : Runtime A) (log : Trace A)
      → (scope : PinnedScope) × (start : Trace A) × (host_register ptr extent cuda log
          ≡ (done scope, start))
        × IsPinned scope log start
  unfolding host_register total ◌>>=◌ call pure
  host_register-IsPinned ptr extent cuda log =
      elim (Bool-cases (not (ptr == 0) && leb pin_threshold_bytes (bytes extent))) [
        | inr e ↦ (
          record { ptr = ptr; registered = false },
          log,
          rw e refl,
          record {
            memory = λ p. (omega arith, omega arith);
            pins = λ p. (omega arith, omega arith);
          },
        )
        | inl e ↦ elim (Bool-cases ((cuda log (Call.host_register ptr extent)).status == 0)) [
          | inl ok ↦ (
            record { ptr = ptr; registered = true },
            (Call.host_register ptr extent, cuda log (Call.host_register ptr extent)) ∷ log,
            rw (e, ok) refl,
            record {
              memory = λ p. (omega arith, omega arith);
              pins = λ p. (rw ok (omega arith), omega arith);
            },
          )
          | inr bad ↦ (
            record { ptr = ptr; registered = false },
            (
              Call.get_last_error,
              cuda ((Call.host_register ptr extent, cuda log (Call.host_register ptr extent)) ∷ log)
                  Call.get_last_error,
            )
                ∷ (Call.host_register ptr extent, cuda log (Call.host_register ptr extent))
                ∷ log,
            rw (e, bad) refl,
            record {
              memory = λ p. (omega arith, omega arith);
              pins = λ p. (rw bad (omega arith), omega arith);
            },
          )
        ]
      ]

  pub with_pinned-Settles :
      {B : Type 0} (ptr : ℕ) (extent : Extent) {body : Gpu A B}
      → Settles body
      → Settles (with_pinned ptr extent body)
  unfolding with_pinned ◌>>=◌
  with_pinned-Settles ptr extent {body} u = record {
    settles = λ cuda log.
        let (scope, start, e, v) = host_register-IsPinned ptr extent cuda log in
        rw e (unpin-IsSettled scope cuda log start (body cuda start) v (u.settles cuda start));
  }

  pub launch_and_read-Settles :
      (blocks threads units : ℕ) (kernel : ℕ → Memory A → Memory A) (out : ℕ) (extent : Extent)
      → Settles (launch_and_read blocks threads units kernel out extent)
  unfolding launch_and_read
  launch_and_read-Settles blocks threads units kernel out extent =
      >>=-Settles (call-Settles _ (λ x r. refl)) λ _.
        >>=-Settles (checked-Settles _ (λ x r. refl)) λ _.
          >>=-Settles (checked-Settles _ (λ x r. refl))
            λ _. >>=-Settles (checked-Settles _ (λ x r. refl)) λ _. pure-Settles _
