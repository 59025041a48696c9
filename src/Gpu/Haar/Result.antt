-- ===== src/Gpu/Haar/Result.antt =====
-- nimblecas_gpu_haar_dwt_batch: its result and its use of device memory.
use nimble_cas.Prelude.{
  ℕ, ◌+◌, ◌*◌, ◌/◌, ◌%◌, ◌^◌, ◌≤◌, ◌<◌, ◌≡◌, ◌≢◌, refl, ap, ap₂, subst, ◌∙◌, List, ◌||◌, ◌==◌,
  arith, length, get_or, inl, inr,
}
use nimble_cas.Prelude.Int.{ℤ, pos_part}
use nimble_cas.Cuda.Calls.{extent_of, Memory, Runtime, Trace, done, fail}
use nimble_cas.Cuda.Host.{HostBuffer, launch_and_read}
use nimble_cas.Cuda.Wrap.{int_grid_stride}
use nimble_cas.Cuda.Memory.{IsFaithful, contents, copied_cell, store_other}
use nimble_cas.Cuda.Ledger.{
  IsSettled, >>=-Settles, checked-Settles, pure-Settles, fail-Settles, if-Settles,
  choose_blocks-Settles, with_pinned-Settles, launch_and_read-Settles,
}
use nimble_cas.Cuda.Release.{with_buffers-Settles}
use nimble_cas.Cuda.Fresh.{IsApart, with_buffers-Returns}
use nimble_cas.Cuda.Success.{Returns, if-Returns, with_pinned-Returns}
use nimble_cas.Cuda.Launch.{copy_in-Returns, choose_blocks-fits}
use nimble_cas.Prelude.Int.{pos}
use nimble_cas.Cuda.Success.{failed-≢-done}
use nimble_cas.Gpu.Haar.{
  haar_pair, haar_dwt_batch_kernel, haar_body, haar_on_device, haar_dwt_batch,
}
use nimble_cas.Gpu.Matmul.Index.{place-lt}
use nimble_cas.Gpu.Pairs.{IsPairing, launch_int_pairs-Returns}

module _ {D : Type 0} (add sub mul : D → D → D) (inv_sqrt2 blank : D) (signal : List D)
    (batch half : ℕ) where
  abbrev average : D → D → D
  average e o = mul (add e o) inv_sqrt2

  abbrev difference : D → D → D
  difference e o = mul (sub e o) inv_sqrt2

  HasSamples : ℕ → Memory D → Type 0
  HasSamples p_in memory = (i : ℕ) → i < batch * (2 * half) → memory p_in i ≡ get_or signal i blank

  -- A sample's place in its block, and the samples themselves.
  abbrev even_of : ℕ → ℕ → ℕ → Memory D → D
  even_of p_in blk k memory = memory p_in (blk * (2 * half) + 2 * k)

  abbrev odd_of : ℕ → ℕ → ℕ → Memory D → D
  odd_of p_in blk k memory = memory p_in (blk * (2 * half) + 2 * k + 1)

  abbrev even_at : ℕ → ℕ → D
  even_at blk k = get_or signal (blk * (2 * half) + 2 * k) blank

  abbrev odd_at : ℕ → ℕ → D
  odd_at blk k = get_or signal (blk * (2 * half) + (2 * k + 1)) blank

  haar-IsPairing :
      (p_in p_out : ℕ)
      → p_in ≢ p_out
      → IsPairing
          (λ blk k memory. average (even_of p_in blk k memory) (odd_of p_in blk k memory))
          (λ blk k memory. difference (even_of p_in blk k memory) (odd_of p_in blk k memory))
          p_out
          half
          batch
          (λ blk k. average (even_at blk k) (odd_at blk k))
          (λ blk k. difference (even_at blk k) (odd_at blk k))
          (HasSamples p_in)
  unfolding HasSamples
  haar-IsPairing p_in p_out off = record {
    stable = λ i v memory held j h. store_other p_out i v memory p_in j off ∙ held j h;
    right = λ blk k memory hb hk held.
        let even_lt : blk * (2 * half) + 2 * k < batch * (2 * half) =
          place-lt blk (2 * k) batch (2 * half) hb (omega arith) in
        let odd_lt : blk * (2 * half) + (2 * k + 1) < batch * (2 * half) =
          place-lt blk (2 * k + 1) batch (2 * half) hb (omega arith) in
        let even : even_of p_in blk k memory ≡ even_at blk k = held _ even_lt in
        let odd : odd_of p_in blk k memory ≡ odd_at blk k =
          ap (memory p_in) (omega arith) ∙ held _ odd_lt in
        (ap₂ average even odd, ap₂ difference even odd);
  }

  haar_body-Returns :
      {initial : Memory D} {cuda : Runtime D} {log : Trace D} {v : List D} (pointers : List ℕ)
      → IsFaithful initial cuda
      → length pointers ≡ 2
      → IsApart pointers
      → 0 < half
      → batch * (2 * half) ≤ length signal
      → batch * (2 * half) + 256 ≤ 2 ^ 31
      → Returns (haar_body add sub mul inv_sqrt2 signal batch (2 * half) pointers) cuda log v
      → (length v ≡ batch * (2 * half))
        × ((blk k : ℕ) (d : D)
            → blk < batch
            → k < half
            → (get_or v (blk * (2 * half) + k) d ≡ average (even_at blk k) (odd_at blk k))
              × (get_or v (blk * (2 * half) + (half + k)) d
                  ≡ difference (even_at blk k) (odd_at blk k)))
  unfolding haar_body haar_dwt_batch_kernel haar_pair HasSamples
  haar_body-Returns {initial} {cuda} {log} {v} pointers faithful two apart some_half long room e =
      let p_in = get_or pointers 0 0 in
      let p_out = get_or pointers 1 0 in
      let off : p_in ≢ p_out = apart 0 1 (omega arith) (omega arith) in
      let halves : 2 * half / 2 ≡ half = omega arith in
      let (_, _, e1, c1) = copy_in-Returns initial _ _ _ _ e in
      let (blocks, after, e2, some_blocks, fits, c2) = choose_blocks-fits initial _ e1 in
      let no_wrap : batch * half % 2 ^ 32 ≡ batch * half = omega (arith, room) in
      launch_int_pairs-Returns _ _ p_out half batch _ _ (HasSamples p_in) blocks 256 8 faithful
        (haar-IsPairing p_in p_out off) some_half (omega arith)
        (omega (arith, room, subst (λ h. blocks * 256 ≤ batch * h + 256) halves fits))
        (λ i h.
          ap (λ (memory : Memory D). memory p_in i) (c2 ∙ c1)
          ∙ copied_cell p_in (batch * (2 * half)) i signal (contents initial log) blank h long)
        (subst
          (λ t.
            Returns
              (launch_and_read blocks 256 (blocks * 256)
                (int_grid_stride (blocks * 256) t
                  (haar_pair add sub mul inv_sqrt2 p_in (2 * half) half p_out))
                p_out (extent_of (batch * (2 * half)) 8))
              cuda after v)
          no_wrap
          (subst
            (λ h.
              Returns
                (launch_and_read blocks 256 (blocks * 256)
                  (haar_dwt_batch_kernel add sub mul inv_sqrt2 p_in batch (2 * half) h p_out
                    (blocks * 256))
                  p_out (extent_of (batch * (2 * half)) 8))
                cuda after v)
            halves e2))

-- On a faithful CUDA runtime, with as many samples as batch and the even length say, and with
-- batch * len + 256 <= 2^31, so that no `int` wraps: when nimblecas_gpu_haar_dwt_batch has
-- returned 0, it has written as many cells, and in each block the cell k of the first half is (e +
-- o) * inv_sqrt2 and the cell k of the second half (e - o) * inv_sqrt2, for the block's samples 2k
-- and 2k + 1.
pub haar_dwt_batch-pairs :
    {D : Type 0} (add sub mul : D → D → D) (inv_sqrt2 blank : D) (signal : HostBuffer D)
    (batch half out : ℕ) {initial : Memory D} (cuda : Runtime D) (log : Trace D) {v : List D}
    (blk k : ℕ)
    → IsFaithful initial cuda
    → batch * (2 * half) ≤ length signal.content
    → batch * (2 * half) + 256 ≤ 2 ^ 31
    → (haar_dwt_batch add sub mul inv_sqrt2 signal (pos batch) (pos (2 * half)) out cuda log).0
      ≡ done v
    → blk < batch
    → k < half
    → (length v ≡ batch * (2 * half))
      × (get_or v (blk * (2 * half) + k) blank
          ≡ mul
              (add
                (get_or signal.content (blk * (2 * half) + 2 * k) blank)
                (get_or signal.content (blk * (2 * half) + (2 * k + 1)) blank))
              inv_sqrt2)
      × (get_or v (blk * (2 * half) + (half + k)) blank
          ≡ mul
              (sub
                (get_or signal.content (blk * (2 * half) + 2 * k) blank)
                (get_or signal.content (blk * (2 * half) + (2 * k + 1)) blank))
              inv_sqrt2)
unfolding haar_dwt_batch haar_on_device fail
haar_dwt_batch-pairs add sub mul inv_sqrt2 blank signal batch half out cuda log {v} blk k faithful
      long room e hb hk =
    elim (if-Returns ((batch == 0) || (2 * half == 0)) (record { result = e })) [
      | inl (none, _) ↦ absurd (ground (arith, none, hb, hk))
      | inr (_, e1) ↦ elim (if-Returns (2 * half % 2 == 0) e1) [
        | inr (_, e2) ↦ absurd (failed-≢-done e2.result)
        | inl (_, e2) ↦
            let (_, e3) = with_pinned-Returns _ _ e2 in
            let (_, e4) = with_pinned-Returns _ _ e3 in
            let (pointers, _, two, apart, e5) = with_buffers-Returns _ _ cuda _ faithful e4 in
            let (len, all) =
              haar_body-Returns add sub mul inv_sqrt2 blank signal.content batch half pointers
                faithful two apart (omega arith) long room e5 in
            let (low, high) = all blk k blank hb hk in (len, low, high)
      ]
    ]

-- On any CUDA runtime, whichever calls fail: from before nimblecas_gpu_haar_dwt_batch to after it,
-- each non-null device pointer is freed as often as it was allocated, and each host buffer is
-- unregistered as often as it was registered.
pub haar_dwt_batch-IsSettled :
    {D : Type 0} (add sub mul : D → D → D) (inv_sqrt2 : D) (signal : HostBuffer D) (batch len : ℤ)
    (out : ℕ) (cuda : Runtime D) (log : Trace D)
    → IsSettled log (haar_dwt_batch add sub mul inv_sqrt2 signal batch len out cuda log).1
unfolding haar_dwt_batch haar_on_device haar_body
haar_dwt_batch-IsSettled add sub mul inv_sqrt2 signal batch len out cuda log =
    (if-Settles ((pos_part batch == 0) || (pos_part len == 0)) (pure-Settles _) (
        if-Settles (pos_part len % 2 == 0)
          (with_pinned-Settles _ _ (
            with_pinned-Settles _ _ (
              with_buffers-Settles _ λ pointers. >>=-Settles (checked-Settles _ (λ y r. refl)) λ _.
                >>=-Settles (choose_blocks-Settles _ _)
                  λ blocks. launch_and_read-Settles _ _ _ _ _ _)))
          (fail-Settles _))).settles
      cuda log
