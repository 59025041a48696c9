-- ===== src/Cuda/Release.antt =====
-- `with_buffers` frees exactly what it allocated.
use nimble_cas.Prelude.{
  ℕ, ◌+◌, ◌≡◌, ◌≢◌, refl, List, [], ◌∷◌, Bool, true, false, ◌==◌, if◌then◌else◌, Bool-cases, inl,
  inr, arith, map,
}
use nimble_cas.Cuda.Calls.{Extent, Call, Trace, Runtime, Attempt, failed, Gpu}
use nimble_cas.Cuda.Host.{allocate, free_all, release, with_buffers}
use nimble_cas.Cuda.Ledger.{Entry, one_if, total, IsSettled, Settles}

unfoldable pub occurrences : ℕ → List ℕ → ℕ
occurrences p [] = 0
occurrences p (q ∷ qs) = one_if (q == p) + occurrences p qs

occurrences-zeros : (p : ℕ) (sizes : List Extent) → p ≢ 0 → occurrences p (map (λ _. 0) sizes) ≡ 0
unfolding occurrences
occurrences-zeros p [] h = refl
occurrences-zeros p (size ∷ sizes) h = ground (arith, occurrences-zeros p sizes h)

module _ {A : Type 0} (cuda : Runtime A) where
  -- Only allocations are entered, one for each occurrence of a pointer.
  record IsAllocated (pointers : List ℕ) (before after : Trace A) : Type 0 where
    memory :
        (p : ℕ)
        → p ≢ 0
        → total (Entry.allocated p) after
          ≡ occurrences p pointers + total (Entry.allocated p) before
    others :
        (p : ℕ)
        → (total (Entry.freed p) after ≡ total (Entry.freed p) before)
          × (total (Entry.pinned p) after ≡ total (Entry.pinned p) before)
          × (total (Entry.unpinned p) after ≡ total (Entry.unpinned p) before)

  cons-IsAllocated :
      (size : Extent) (pointers : List ℕ) (log after : Trace A)
      → IsAllocated pointers ((Call.malloc size, cuda log (Call.malloc size)) ∷ log) after
      → IsAllocated ((cuda log (Call.malloc size)).pointer ∷ pointers) log after
  unfolding total occurrences
  cons-IsAllocated size pointers log after u = record {
    memory = λ p h. omega (arith, u.memory p h);
    others = λ p. (omega (arith, u.others p), omega (arith, u.others p), omega (arith, u.others p));
  }

  zeros-IsAllocated :
      (sizes : List Extent) (log : Trace A) → IsAllocated (map (λ _. 0) sizes) log log
  zeros-IsAllocated sizes log = record {
    memory = λ p h. omega (arith, occurrences-zeros p sizes h);
    others = λ p. (refl, refl, refl);
  }

  allocate-IsAllocated :
      (sizes : List Extent) (log : Trace A)
      → IsAllocated (allocate sizes cuda log).0 log (allocate sizes cuda log).1.1
  unfolding allocate occurrences
  allocate-IsAllocated [] log = record {
    memory = λ p h. omega arith;
    others = λ p. (refl, refl, refl);
  }
  allocate-IsAllocated (size ∷ sizes) log =
      elim (Bool-cases ((cuda log (Call.malloc size)).status == 0)) [
        | inl e ↦ rw e (
            cons-IsAllocated size _ log _
              (allocate-IsAllocated sizes ((Call.malloc size, cuda log (Call.malloc size)) ∷ log)))
        | inr e ↦ rw e (cons-IsAllocated size _ log _ (zeros-IsAllocated sizes _))
      ]

  -- Only frees are entered, one for each occurrence of a pointer that is not null.
  record IsReleased (pointers : List ℕ) (before after : Trace A) : Type 0 where
    memory :
        (p : ℕ)
        → p ≢ 0
        → total (Entry.freed p) after ≡ occurrences p pointers + total (Entry.freed p) before
    others :
        (p : ℕ)
        → (total (Entry.allocated p) after ≡ total (Entry.allocated p) before)
          × (total (Entry.pinned p) after ≡ total (Entry.pinned p) before)
          × (total (Entry.unpinned p) after ≡ total (Entry.unpinned p) before)

  free_all-IsReleased :
      (pointers : List ℕ) (log : Trace A) → IsReleased pointers log (free_all pointers cuda log)
  unfolding free_all occurrences total
  free_all-IsReleased [] log = record {
    memory = λ p h. omega arith;
    others = λ p. (refl, refl, refl);
  }
  free_all-IsReleased (q ∷ qs) log = elim (Bool-cases (q == 0)) [
    | inl e ↦ rw e (
        let u = free_all-IsReleased qs log in
        record { memory = λ p h. ground (arith, u.memory p h, e); others = u.others })
    | inr e ↦ rw e (
        let u = free_all-IsReleased qs ((Call.free q, cuda log (Call.free q)) ∷ log) in
        record {
          memory = λ p h. omega (arith, u.memory p h);
          others = λ p.
              (omega (arith, u.others p), omega (arith, u.others p), omega (arith, u.others p));
        })
  ]

  release-IsSettled :
      {B : Type 0} (pointers : List ℕ) (before start : Trace A) (mid : Attempt B × Trace A)
      → IsAllocated pointers before start
      → IsSettled start mid.1
      → IsSettled before (release pointers cuda mid).1
  unfolding release
  release-IsSettled pointers before start (result, log) u v = record {
    memory = λ p h.
        let w = free_all-IsReleased pointers log in
        omega (arith, u.memory p h, u.others p, v.memory p h, w.memory p h, w.others p);
    pins = λ p.
        let w = free_all-IsReleased pointers log in omega (arith, u.others p, v.pins p, w.others p);
  }

  if_allocated-IsSettled :
      {B : Type 0} (test : Bool) (code : ℕ) (m : Gpu A B) (start : Trace A)
      → Settles m
      → IsSettled start (if test then m cuda start else (failed code, start)).1
  if_allocated-IsSettled true code m start u = u.settles cuda start
  if_allocated-IsSettled false code m start u = record { memory = λ p h. refl; pins = λ p. refl }

pub with_buffers-Settles :
    {A B : Type 0} (sizes : List Extent) {body : List ℕ → Gpu A B}
    → ((pointers : List ℕ) → Settles (body pointers))
    → Settles (with_buffers sizes body)
unfolding with_buffers
with_buffers-Settles sizes {body} u = record {
  settles = λ cuda log.
      let (pointers, (status, start)) = allocate sizes cuda log in
      release-IsSettled cuda _ _ _ _ (allocate-IsAllocated cuda sizes log)
        (if_allocated-IsSettled cuda _ _ _ _ (u _));
}
