-- ===== src/Gpu/Probe/Batch.antt =====
-- nimblecas_gpu_index_probe_batch: each clause of each goal, as a bit of what it returns.
use nimble_cas.Prelude.{
  ltb, ◌^◌, ◌+◌, ◌/◌, true, sym, ℕ, ◌+◌, ◌*◌, ◌/◌, ◌%◌, ◌^◌, ◌≤◌, ◌<◌, ◌≡◌, ◌≢◌, refl, sym, ap, ◌∙◌,
  List, ◌∷◌, Bool, true, ◌||◌, ◌==◌, if◌then◌else◌, arith, length, get_or, inl, inr, ==_iff, lt→ltb,
}
use nimble_cas.Prelude.Int.{pos}
use nimble_cas.Cuda.Calls.{
  extent_of, Extent, Memory, Call, Reply, Gpu, Runtime, Trace, done, fail, call, ◌>>=◌,
}
use nimble_cas.Cuda.Host.{HostBuffer}
use nimble_cas.Cuda.Memory.{IsFaithful}
use nimble_cas.Cuda.Success.{Returns, if-Returns}
use nimble_cas.Cuda.Host.{finally, or_return}
use nimble_cas.Cuda.Memory.{is_live}
use nimble_cas.Cuda.Success.{>>=-Returns, failed-≢-done}
use nimble_cas.Gpu.Probe.{may_match, candidate, probe_on_device, index_probe_batch, words_of}
use nimble_cas.Gpu.Probe.Bits.{bit_of, probe_word-bit}
use nimble_cas.Gpu.Probe.Result.{HasRows, probe_body-Returns}

module _ {A B : Type 0} {cuda : Runtime A} {v : B} where
  -- A call that is not checked, and the rest of the function.
  call-Returns :
      (log : Trace A) (c : Call A) (next : Reply A → Gpu A B)
      → Returns (call c >>= next) cuda log v
      → Returns (next (cuda log c)) cuda ((c, cuda log c) ∷ log) v
  unfolding call ◌>>=◌
  call-Returns log c next e = record { result = e.result }

  -- The rest of the function ran, after a reply that was a success.
  or_return-Returns :
      (log : Trace A) (reply : Reply A) (cleanup : Gpu A (Unit {0})) (rest : Gpu A B)
      → Returns (or_return reply cleanup rest) cuda log v
      → (reply.status ≡ 0) × Returns rest cuda log v
  unfolding or_return fail
  or_return-Returns log reply cleanup rest e = elim (if-Returns (reply.status == 0) e) [
    | inl (good, e1) ↦ ((==_iff reply.status 0).0 good, e1)
    | inr (_, e1) ↦ let (_, _, e2) = >>=-Returns e1 in absurd (failed-≢-done e2.result)
  ]

  finally-Returns :
      (log : Trace A) (body : Gpu A B) (cleanup : Gpu A (Unit {0}))
      → Returns (finally body cleanup) cuda log v
      → Returns body cuda log v
  unfolding finally
  finally-Returns log body cleanup e = record { result = e.result }

-- The pointers of one allocation after another are apart.
malloc-≢ :
    {A : Type 0} {initial : Memory A} (cuda : Runtime A) (log : Trace A) (extent : Extent) (p : ℕ)
    → IsFaithful initial cuda
    → (cuda log (Call.malloc extent)).status ≡ 0
    → is_live p log ≡ true
    → p ≢ (cuda log (Call.malloc extent)).pointer
malloc-≢ cuda log extent p faithful good live same = absurd (
    omega (
      arith,
      ap {B = ℕ} (λ (b : Bool). if b then 1 else 0)
          (sym live ∙ ap (λ q. is_live q log) same ∙ faithful.fresh log extent good),
    ))

module _ (clause_keys : List ℕ) (clause_count : ℕ) (goal_keys : List ℕ) (goal_count : ℕ)
    {initial : Memory ℕ} (cuda : Runtime ℕ) (faithful : IsFaithful initial cuda)
    (long_ck : clause_count ≤ length clause_keys) (long_gk : goal_count ≤ length goal_keys) where
  probe_on_device-Returns :
      (log : Trace ℕ) {v : List ℕ}
      → Returns (probe_on_device clause_keys clause_count goal_keys goal_count) cuda log v
      → HasRows clause_keys clause_count goal_keys goal_count faithful long_ck long_gk v
  unfolding probe_on_device call is_live
  probe_on_device-Returns log e =
      let c1 = Call.malloc (extent_of clause_count 8) in
      let r1 = cuda log c1 in
      let log1 = (c1, r1) ∷ log in
      let c2 = Call.malloc (extent_of goal_count 8) in
      let r2 = cuda log1 c2 in
      let log2 = (c2, r2) ∷ log1 in
      let c3 = Call.malloc (extent_of (goal_count * words_of clause_count) 8) in
      let r3 = cuda log2 c3 in
      let (good1, e1) = or_return-Returns log1 _ _ _ (call-Returns log c1 _ e) in
      let (good2, e2) = or_return-Returns log2 _ _ _ (call-Returns log1 c2 _ e1) in
      let (good3, e3) = or_return-Returns _ _ _ _ (call-Returns log2 c3 _ e2) in
      probe_body-Returns clause_keys clause_count goal_keys goal_count faithful long_ck long_gk
        r1.pointer r2.pointer r3.pointer
        (malloc-≢ cuda log1 (extent_of goal_count 8) r1.pointer faithful good2 (ground arith))
        (malloc-≢ cuda log2 (extent_of (goal_count * words_of clause_count) 8) r1.pointer faithful
          good3 (ground arith))
        (malloc-≢ cuda log2 (extent_of (goal_count * words_of clause_count) 8) r2.pointer faithful
          good3 (ground arith))
        (finally-Returns _ _ _ e3)

-- On a faithful CUDA runtime, with as many keys as the counts say, and with so few clauses that
-- their number plus 63 is an `int`: when nimblecas_gpu_index_probe_batch has returned 0, the bit
-- of clause c in the row of goal g is 1 exactly when the goal's key is 0, the clause's key is 0,
-- or they are equal.
pub index_probe_batch-bit :
    (clause_keys : HostBuffer ℕ) (clauses : ℕ) (goal_keys : HostBuffer ℕ) (goals out_words : ℕ)
    {initial : Memory ℕ} (cuda : Runtime ℕ) (log : Trace ℕ) {v : List ℕ} (g c : ℕ)
    → IsFaithful initial cuda
    → clauses ≤ length clause_keys.content
    → goals ≤ length goal_keys.content
    → clauses + 63 < 2 ^ 31
    → (index_probe_batch clause_keys (pos clauses) goal_keys (pos goals) out_words cuda log).0
      ≡ done v
    → g < goals
    → c < clauses
    → get_or v (g * ((clauses + 63) / 64) + c / 64) 0 / 2 ^ (c % 64) % 2
      ≡ bit_of (
          (get_or goal_keys.content g 0 == 0)
          || ((get_or clause_keys.content c 0 == 0)
              || (get_or clause_keys.content c 0 == get_or goal_keys.content g 0)))
unfolding index_probe_batch HasRows fail candidate may_match
index_probe_batch-bit clause_keys clauses goal_keys goals out_words cuda log {v} g c faithful
      long_ck long_gk room e g_below c_below =
    elim (if-Returns ((clauses == 0) || (goals == 0)) (record { result = e })) [
      | inl (none, _) ↦ absurd (ground (arith, none, g_below, c_below))
      | inr (_, e1) ↦
          elim (if-Returns
            ((clause_keys.address == 0) || ((goal_keys.address == 0) || (out_words == 0))) e1) [
              | inl (_, e2) ↦ absurd (failed-≢-done e2.result)
              | inr (_, e2) ↦
                  let no_wrap : ltb (clauses + 63) (2 ^ 31) ≡ true = lt→ltb _ _ room in
                  let words : words_of clauses ≡ (clauses + 63) / 64 = rw no_wrap refl in
                  let word =
                    probe_on_device-Returns clause_keys.content clauses goal_keys.content goals cuda
                      faithful long_ck long_gk log e2 g (c / 64) g_below (omega (arith, words)) in
                  ap (λ t. get_or v (g * t + c / 64) 0 / 2 ^ (c % 64) % 2) (sym words)
                  ∙ ap (λ w. w / 2 ^ (c % 64) % 2) word
                  ∙ probe_word-bit (λ k. get_or clause_keys.content k 0) clauses
                      (get_or goal_keys.content g 0) (c / 64 * 64) (c % 64) (omega arith)
                  ∙ ap bit_of (
                      ap
                        (candidate (λ k. get_or clause_keys.content k 0) clauses
                          (get_or goal_keys.content g 0))
                        {x = c / 64 * 64 + c % 64} {y = c} (omega arith)
                      ∙ rw (lt→ltb c clauses c_below) refl)
            ]
    ]
