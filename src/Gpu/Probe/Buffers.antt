-- ===== src/Gpu/Probe/Buffers.antt =====
-- nimblecas_gpu_index_probe_batch: its use of device memory, and a run without failures.
use nimble_cas.Prelude.{
  ℕ, ◌*◌, ◌≡◌, ◌≢◌, refl, List, [], ◌∷◌, ◌||◌, ltb, ◌==◌, if◌then◌else◌, arith, inl, inr,
  Bool-cases,
}
use nimble_cas.Prelude.Int.{ℤ, pos_part, neg_part}
use nimble_cas.Cuda.Calls.{extent_of, Extent, Call, Gpu, Runtime, Trace, fail, pure, call, ◌>>=◌}
use nimble_cas.Cuda.Host.{HostBuffer}
use nimble_cas.Cuda.Ledger.{
  Settles, IsSettled, >>=-Settles, checked-Settles, pure-Settles, fail-Settles, if-IsSettled,
  launch_and_read-Settles,
}
use nimble_cas.Cuda.Host.{finally, or_return}
use nimble_cas.Cuda.Ledger.{total}
use nimble_cas.Gpu.Probe.{probe_body, probe_on_device, index_probe_batch, minus_one, words_of}

-- What the CUDA documentation promises: a `cudaMalloc` that fails leaves a null pointer.
pub record IsNullOnFailure {A : Type 0} (cuda : Runtime A) : Type 0 where
  pub null :
      (log : Trace A) (extent : Extent)
      → (cuda log (Call.malloc extent)).status ≢ 0
      → (cuda log (Call.malloc extent)).pointer ≡ 0

probe_body-Settles :
    (clause_keys : List ℕ) (clause_count : ℕ) (goal_keys : List ℕ) (goal_count d_ck d_gk d_out : ℕ)
    → Settles (probe_body clause_keys clause_count goal_keys goal_count d_ck d_gk d_out)
unfolding probe_body
probe_body-Settles clause_keys clause_count goal_keys goal_count d_ck d_gk d_out =
    >>=-Settles (checked-Settles _ (λ y r. refl))
      λ _. >>=-Settles (checked-Settles _ (λ y r. refl)) λ _. launch_and_read-Settles _ _ _ _ _ _

module _ (clause_keys : List ℕ) (clause_count : ℕ) (goal_keys : List ℕ) (goal_count : ℕ)
    (cuda : Runtime ℕ) (log : Trace ℕ) where
  probe_on_device-IsSettled :
      IsNullOnFailure cuda
      → IsSettled log (probe_on_device clause_keys clause_count goal_keys goal_count cuda log).1
  unfolding probe_on_device ◌>>=◌ call or_return finally pure fail total
  probe_on_device-IsSettled contract =
      let c1 = Call.malloc (extent_of clause_count 8) in
      let r1 = cuda log c1 in
      let log1 = (c1, r1) ∷ log in
      let c2 = Call.malloc (extent_of goal_count 8) in
      let r2 = cuda log1 c2 in
      let log2 = (c2, r2) ∷ log1 in
      let c3 = Call.malloc (extent_of (goal_count * words_of clause_count) 8) in
      let r3 = cuda log2 c3 in
      let log3 = (c3, r3) ∷ log2 in
      elim (Bool-cases (r1.status == 0)) [
        | inr bad ↦ rw bad (record {
          memory = λ p h. ground (arith, contract.null log (extent_of clause_count 8), bad, h);
          pins = λ p. omega arith;
        })
        | inl e1 ↦ elim (Bool-cases (r2.status == 0)) [
          | inr bad ↦
              rw (e1, bad)
                (record {
                  memory =
                      λ p h. ground (arith, contract.null log1 (extent_of goal_count 8), bad, h);
                  pins = λ p. omega arith;
                })
          | inl e2 ↦ elim (Bool-cases (r3.status == 0)) [
            | inr bad ↦
                rw (e1, e2, bad)
                  (record {
                    memory = λ p h. ground (
                      arith,
                      contract.null log2 (extent_of (goal_count * words_of clause_count) 8),
                      bad,
                      h,
                    );
                    pins = λ p. omega arith;
                  })
            | inl e3 ↦
                rw (e1, e2, e3)
                  (let body =
                      (probe_body-Settles clause_keys clause_count goal_keys goal_count r1.pointer
                          r2.pointer r3.pointer).settles
                        cuda log3 in
                    record {
                      memory = λ p h. omega (arith, body.memory p h);
                      pins = λ p. omega (arith, body.pins p);
                    })
          ]
        ]
      ]

module _ (clause_keys : HostBuffer ℕ) (clause_count : ℤ) (goal_keys : HostBuffer ℕ) (goal_count : ℤ)
    (out_words : ℕ) (cuda : Runtime ℕ) (log : Trace ℕ) where
  -- On any CUDA runtime whose failing cudaMalloc leaves a null pointer, whichever calls fail: from
  -- before nimblecas_gpu_index_probe_batch to after it, each non-null device pointer is freed as
  -- often as it was allocated, and each host buffer is unregistered as often as it was registered.
  pub index_probe_batch-IsSettled :
      IsNullOnFailure cuda
      → IsSettled log
          (index_probe_batch clause_keys clause_count goal_keys goal_count out_words cuda log).1
  unfolding index_probe_batch
  index_probe_batch-IsSettled contract =
      if-IsSettled (fail minus_one) batch_of_some
        (ltb 0 (neg_part clause_count) || ltb 0 (neg_part goal_count))
        ((fail-Settles _).settles cuda log)
        (if-IsSettled (pure []) batch_of_buffers
          ((pos_part clause_count == 0) || (pos_part goal_count == 0))
          ((pure-Settles _).settles cuda log)
          (if-IsSettled (fail minus_one) on_device
            ((clause_keys.address == 0) || ((goal_keys.address == 0) || (out_words == 0)))
            ((fail-Settles _).settles cuda log)
            (probe_on_device-IsSettled clause_keys.content (pos_part clause_count) goal_keys.content
              (pos_part goal_count) cuda log contract)))
    where
      on_device : Gpu ℕ (List ℕ)
      on_device =
          probe_on_device clause_keys.content (pos_part clause_count) goal_keys.content
            (pos_part goal_count)

      batch_of_buffers : Gpu ℕ (List ℕ)
      batch_of_buffers =
          if ((clause_keys.address == 0) || ((goal_keys.address == 0) || (out_words == 0)))
          then fail minus_one
          else on_device

      batch_of_some : Gpu ℕ (List ℕ)
      batch_of_some =
          if ((pos_part clause_count == 0) || (pos_part goal_count == 0))
          then pure []
          else batch_of_buffers
