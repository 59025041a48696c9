-- ===== src/Gpu/Wavelet/Result.antt =====
-- nimblecas_gpu_dwt_batch and nimblecas_gpu_swt_batch: their results.
use nimble_cas.Prelude.{
  ℕ, zero, suc, ◌+◌, ◌*◌, ◌/◌, ◌%◌, ◌≤◌, ◌<◌, ◌≡◌, ◌≢◌, refl, sym, ap, ap₂, subst, ◌∙◌, List, ◌||◌,
  ◌==◌, arith, length, get_or, take, inl, inr,
}
use nimble_cas.Cuda.Calls.{extent_of, Memory, store, Runtime, Trace, done, fail}
use nimble_cas.Cuda.Host.{HostBuffer, launch_and_read}
use nimble_cas.Cuda.Memory.{IsFaithful, contents, overlay, copied_cell, overlay_other, store_other}
use nimble_cas.Cuda.Fresh.{IsApart, with_buffers-Returns}
use nimble_cas.Cuda.Success.{Returns, if-Returns, with_pinned-Returns}
use nimble_cas.Cuda.Launch.{copy_in-Returns}
use nimble_cas.Prelude.Int.{pos}
use nimble_cas.Cuda.Choice.{IsChoice-Returns}
use nimble_cas.Cuda.Device.{choose_blocks-IsChoice}
use nimble_cas.Cuda.Success.{failed-≢-done}
use nimble_cas.Gpu.Wavelet.{
  filtered, dwt_pair, dwt_batch_kernel, dwt_body, dwt_on_device, dwt_batch, swt_pair,
  swt_batch_kernel, swt_body, swt_on_device, swt_batch,
}
use nimble_cas.Gpu.Matmul.Index.{place-lt}
use nimble_cas.Gpu.Pairs.{IsPairing, launch_pairs-Returns}
use native.Mathlib.Nat.{mod-lt}

module _ {D : Type 0} (nought : D) (fma : D → D → D → D) where
  filtered_ext :
      (f g x y : ℕ → D) (n : ℕ)
      → ((k : ℕ) → k < n → f k ≡ g k)
      → ((k : ℕ) → k < n → x k ≡ y k)
      → filtered nought fma f x n ≡ filtered nought fma g y n
  unfolding filtered
  filtered_ext f g x y zero u v = refl
  filtered_ext f g x y (suc n) u v =
      ap (fma (f n) (x n))
        (filtered_ext f g x y n (λ k h. u k (omega arith)) (λ k h. v k (omega arith)))
      ∙ ap₂ (λ s t. fma s t (filtered nought fma g y n)) (u n (omega arith)) (v n (omega arith))

  -- A filter on a block's samples from a place on, the block read as a circle.
  abbrev pub convolution : List D → ℕ → List D → ℕ → ℕ → ℕ → D
  convolution taps flen signal len blk start =
      filtered nought fma (λ k. get_or taps k nought)
        (λ k. get_or signal (blk * len + (start + k) % len) nought) flen

  module _ (signal lo hi : List D) (batch len flen : ℕ) where
    record HasInputs (p_in p_lo p_hi : ℕ) (memory : Memory D) : Type 0 where
      sample_at : (i : ℕ) → i < batch * len → memory p_in i ≡ get_or signal i nought
      lo_at : (k : ℕ) → k < flen → memory p_lo k ≡ get_or lo k nought
      hi_at : (k : ℕ) → k < flen → memory p_hi k ≡ get_or hi k nought

    module _ (p_in p_lo p_hi p_out : ℕ) where
      HasInputs-store :
          (i : ℕ) (v : D) (memory : Memory D)
          → p_in ≢ p_out
          → p_lo ≢ p_out
          → p_hi ≢ p_out
          → HasInputs p_in p_lo p_hi memory
          → HasInputs p_in p_lo p_hi (store p_out i v memory)
      HasInputs-store i v memory u w z held = record {
        sample_at = λ j h. store_other p_out i v memory p_in j u ∙ held.sample_at j h;
        lo_at = λ j h. store_other p_out i v memory p_lo j w ∙ held.lo_at j h;
        hi_at = λ j h. store_other p_out i v memory p_hi j z ∙ held.hi_at j h;
      }

    overlay-HasInputs :
        (p_in p_lo p_hi : ℕ) (memory : Memory D)
        → p_in ≢ p_lo
        → p_in ≢ p_hi
        → p_lo ≢ p_hi
        → batch * len ≤ length signal
        → flen ≤ length lo
        → flen ≤ length hi
        → HasInputs p_in p_lo p_hi (
            overlay p_hi 0
              (take flen hi)
              (overlay p_lo 0 (take flen lo) (overlay p_in 0 (take (batch * len) signal) memory)))
    overlay-HasInputs p_in p_lo p_hi memory off_lo off_hi apart long long_lo long_hi =
        let first = overlay p_in 0 (take (batch * len) signal) memory in
        let second = overlay p_lo 0 (take flen lo) first in
        record {
          sample_at = λ i h.
              overlay_other p_hi 0 (take flen hi) second p_in i off_hi
              ∙ overlay_other p_lo 0 (take flen lo) first p_in i off_lo
              ∙ copied_cell p_in (batch * len) i signal memory nought h long;
          lo_at = λ k h.
              overlay_other p_hi 0 (take flen hi) second p_lo k apart
              ∙ copied_cell p_lo flen k lo first nought h long_lo;
          hi_at = λ k h. copied_cell p_hi flen k hi second nought h long_hi;
        }

    -- What a kernel's sum over one filter is, while the inputs are in place.
    filtered-convolution :
        (p_in blk start : ℕ) (memory : Memory D) (f : ℕ → D) (taps : List D)
        → 0 < len
        → blk < batch
        → ((i : ℕ) → i < batch * len → memory p_in i ≡ get_or signal i nought)
        → ((k : ℕ) → k < flen → f k ≡ get_or taps k nought)
        → filtered nought fma f (λ k. memory p_in (blk * len + (start + k) % len)) flen
          ≡ convolution taps flen signal len blk start
    filtered-convolution p_in blk start memory f taps some_len hb samples same =
        filtered_ext _ _ _ _ flen same (λ k h.
          samples _ (place-lt blk ((start + k) % len) batch len hb (mod-lt (start + k) some_len)))

    -- The sum that a round stores, of one filter from a place of the round's on.
    abbrev sum_of : ℕ → ℕ → (ℕ → ℕ) → ℕ → ℕ → Memory D → D
    sum_of p_in p_taps start blk k memory =
        filtered nought fma (memory p_taps) (λ j. memory p_in (blk * len + (start k + j) % len))
          flen

    wavelet-IsPairing :
        (p_in p_lo p_hi p_out half : ℕ) (start : ℕ → ℕ)
        → 0 < len
        → p_in ≢ p_out
        → p_lo ≢ p_out
        → p_hi ≢ p_out
        → IsPairing
            (sum_of p_in p_lo start)
            (sum_of p_in p_hi start)
            p_out
            half
            batch
            (λ blk k. convolution lo flen signal len blk (start k))
            (λ blk k. convolution hi flen signal len blk (start k))
            (HasInputs p_in p_lo p_hi)
    wavelet-IsPairing p_in p_lo p_hi p_out half start some_len u w z = record {
      stable = λ i v memory held. HasInputs-store p_in p_lo p_hi p_out i v memory u w z held;
      right = λ blk k memory hb hk held. (
        filtered-convolution p_in blk (start k) memory (memory p_lo) lo some_len hb held.sample_at
            held.lo_at,
        filtered-convolution p_in blk (start k) memory (memory p_hi) hi some_len hb held.sample_at
            held.hi_at,
      );
    }

module _ {D : Type 0} (nought : D) (fma : D → D → D → D) (signal lo hi : List D)
    (batch flen : ℕ) where
  -- The cells that a transform leaves: half cells of the low filter, half of the high, per block.
  abbrev pub IsFiltered : ℕ → ℕ → (ℕ → ℕ) → List D → Type 0
  IsFiltered len half start v =
      (length v ≡ batch * (2 * half))
      × ((blk k : ℕ) (d : D)
          → blk < batch
          → k < half
          → (get_or v (blk * (2 * half) + k) d
              ≡ convolution nought fma lo flen signal len blk (start k))
            × (get_or v (blk * (2 * half) + (half + k)) d
                ≡ convolution nought fma hi flen signal len blk (start k)))

  module _ {initial : Memory D} {cuda : Runtime D} {log : Trace D} {v : List D} (pointers : List ℕ)
      (faithful : IsFaithful initial cuda) (four : length pointers ≡ 4) (apart : IsApart pointers)
      (long_lo : flen ≤ length lo) (long_hi : flen ≤ length hi) where
    dwt_body-Returns :
        (half : ℕ)
        → 0 < half
        → batch * (2 * half) ≤ length signal
        → Returns (dwt_body nought fma signal batch (2 * half) lo hi flen pointers) cuda log v
        → IsFiltered (2 * half) half (λ k. 2 * k) v
    unfolding dwt_body dwt_batch_kernel dwt_pair
    dwt_body-Returns half some_half long e =
        let p_in = get_or pointers 0 0 in
        let p_out = get_or pointers 1 0 in
        let p_lo = get_or pointers 2 0 in
        let p_hi = get_or pointers 3 0 in
        let halves : 2 * half / 2 ≡ half = omega arith in
        let (_, _, e1, c1) = copy_in-Returns initial _ _ _ _ e in
        let (_, _, e2, c2) = copy_in-Returns initial _ _ _ _ e1 in
        let (_, _, e3, c3) = copy_in-Returns initial _ _ _ _ e2 in
        let (blocks, after, e4, some_blocks, c4) =
          IsChoice-Returns (choose_blocks-IsChoice _ _) initial e3 in
        launch_pairs-Returns _ _ p_out half batch _ _
          (HasInputs nought fma signal lo hi batch (2 * half) flen p_in p_lo p_hi) blocks 256 8
          faithful
          (wavelet-IsPairing nought fma signal lo hi batch (2 * half) flen p_in p_lo p_hi p_out half
            (λ k. 2 * k) (omega arith) (apart 0 1 (omega arith) (omega arith))
            (λ same. apart 1 2 (omega arith) (omega arith) (sym same))
            (λ same. apart 1 3 (omega arith) (omega arith) (sym same)))
          some_half (omega arith)
          (subst (HasInputs nought fma signal lo hi batch (2 * half) flen p_in p_lo p_hi)
            (sym (
              c4
              ∙ c3
              ∙ ap (overlay p_hi 0 (take flen hi)) (c2 ∙ ap (overlay p_lo 0 (take flen lo)) c1)))
            (overlay-HasInputs nought fma signal lo hi batch (2 * half) flen p_in p_lo p_hi
              (contents initial log) (apart 0 2 (omega arith) (omega arith))
              (apart 0 3 (omega arith) (omega arith)) (apart 2 3 (omega arith) (omega arith)) long
              long_lo long_hi))
          (subst
            (λ h.
              Returns
                (launch_and_read blocks 256 (blocks * 256)
                  (dwt_batch_kernel nought fma p_in batch (2 * half) h p_lo p_hi flen p_out
                    (blocks * 256))
                  p_out (extent_of (batch * (2 * half)) 8))
                cuda after v)
            halves e4)

    swt_body-Returns :
        (len : ℕ)
        → 0 < len
        → batch * len ≤ length signal
        → Returns (swt_body nought fma signal batch len lo hi flen pointers) cuda log v
        → IsFiltered len len (λ k. k) v
    unfolding swt_body swt_batch_kernel swt_pair
    swt_body-Returns len some_len long e =
        let p_in = get_or pointers 0 0 in
        let p_out = get_or pointers 1 0 in
        let p_lo = get_or pointers 2 0 in
        let p_hi = get_or pointers 3 0 in
        let (_, _, e1, c1) = copy_in-Returns initial _ _ _ _ e in
        let (_, _, e2, c2) = copy_in-Returns initial _ _ _ _ e1 in
        let (_, _, e3, c3) = copy_in-Returns initial _ _ _ _ e2 in
        let (blocks, after, e4, some_blocks, c4) =
          IsChoice-Returns (choose_blocks-IsChoice _ _) initial e3 in
        launch_pairs-Returns _ _ p_out len batch _ _
          (HasInputs nought fma signal lo hi batch len flen p_in p_lo p_hi) blocks 256 8 faithful
          (wavelet-IsPairing nought fma signal lo hi batch len flen p_in p_lo p_hi p_out len
            (λ k. k) some_len (apart 0 1 (omega arith) (omega arith))
            (λ same. apart 1 2 (omega arith) (omega arith) (sym same))
            (λ same. apart 1 3 (omega arith) (omega arith) (sym same)))
          some_len (omega arith)
          (subst (HasInputs nought fma signal lo hi batch len flen p_in p_lo p_hi)
            (sym (
              c4
              ∙ c3
              ∙ ap (overlay p_hi 0 (take flen hi)) (c2 ∙ ap (overlay p_lo 0 (take flen lo)) c1)))
            (overlay-HasInputs nought fma signal lo hi batch len flen p_in p_lo p_hi
              (contents initial log) (apart 0 2 (omega arith) (omega arith))
              (apart 0 3 (omega arith) (omega arith)) (apart 2 3 (omega arith) (omega arith)) long
              long_lo long_hi))
          e4

-- On a faithful CUDA runtime, with a batch, a length 2 * half and a filter length above 0 and with
-- as many samples and taps as they say: when nimblecas_gpu_dwt_batch has returned 0, it has
-- written batch * 2 * half cells, and in each block the cell k of the first half is the low
-- filter, and the cell k of the second half the high filter, on the block's samples from 2k on,
-- the block read as a circle.
pub dwt_batch-IsFiltered :
    {D : Type 0} (nought : D) (fma : D → D → D → D) (signal lo hi : HostBuffer D)
    (batch half flen out : ℕ) {initial : Memory D} (cuda : Runtime D) (log : Trace D) {v : List D}
    → IsFaithful initial cuda
    → 0 < batch
    → 0 < half
    → 0 < flen
    → batch * (2 * half) ≤ length signal.content
    → flen ≤ length lo.content
    → flen ≤ length hi.content
    → (dwt_batch nought fma signal (pos batch) (pos (2 * half)) lo hi (pos flen) out cuda log).0
      ≡ done v
    → IsFiltered nought fma signal.content lo.content hi.content batch flen
        (2 * half)
        half
        (λ k. 2 * k)
        v
unfolding dwt_batch dwt_on_device fail
dwt_batch-IsFiltered nought fma signal lo hi batch half flen out cuda log faithful hb hh hf long
      long_lo long_hi e =
    elim (if-Returns ((batch == 0) || ((2 * half == 0) || (flen == 0))) (record { result = e })) [
      | inl (none, _) ↦ absurd (ground (arith, none, hb, hh, hf))
      | inr (_, e1) ↦ elim (if-Returns (2 * half % 2 == 0) e1) [
        | inr (_, e2) ↦ absurd (failed-≢-done e2.result)
        | inl (_, e2) ↦
            elim (if-Returns
              ((signal.address == 0) || ((lo.address == 0) || ((hi.address == 0) || (out == 0))))
              e2) [
                | inl (_, e3) ↦ absurd (failed-≢-done e3.result)
                | inr (_, e3) ↦
                    let (_, e4) = with_pinned-Returns _ _ e3 in
                    let (_, e5) = with_pinned-Returns _ _ e4 in
                    let (_, e6) = with_pinned-Returns _ _ e5 in
                    let (_, e7) = with_pinned-Returns _ _ e6 in
                    let (pointers, _, four, apart, e8) =
                      with_buffers-Returns _ _ cuda _ faithful e7 in
                    dwt_body-Returns nought fma signal.content lo.content hi.content batch flen
                      pointers faithful four apart long_lo long_hi half hh long e8
              ]
      ]
    ]

-- On a faithful CUDA runtime, with a batch, a length and a filter length above 0 and with as many
-- samples and taps as they say: when nimblecas_gpu_swt_batch has returned 0, it has written 2 *
-- len cells for each block, the cell k of the first len being the low filter, and the cell k of
-- the second len the high filter, on the block's samples from k on, the block read as a circle.
pub swt_batch-IsFiltered :
    {D : Type 0} (nought : D) (fma : D → D → D → D) (signal lo hi : HostBuffer D)
    (batch len flen out : ℕ) {initial : Memory D} (cuda : Runtime D) (log : Trace D) {v : List D}
    → IsFaithful initial cuda
    → 0 < batch
    → 0 < len
    → 0 < flen
    → batch * len ≤ length signal.content
    → flen ≤ length lo.content
    → flen ≤ length hi.content
    → (swt_batch nought fma signal (pos batch) (pos len) lo hi (pos flen) out cuda log).0 ≡ done v
    → IsFiltered nought fma signal.content lo.content hi.content batch flen len len (λ k. k) v
unfolding swt_batch swt_on_device fail
swt_batch-IsFiltered nought fma signal lo hi batch len flen out cuda log faithful hb hl hf long
      long_lo long_hi e =
    elim (if-Returns ((batch == 0) || ((len == 0) || (flen == 0))) (record { result = e })) [
      | inl (none, _) ↦ absurd (ground (arith, none, hb, hl, hf))
      | inr (_, e1) ↦
          elim (if-Returns
            ((signal.address == 0) || ((lo.address == 0) || ((hi.address == 0) || (out == 0))))
            e1) [
              | inl (_, e2) ↦ absurd (failed-≢-done e2.result)
              | inr (_, e2) ↦
                  let (_, e3) = with_pinned-Returns _ _ e2 in
                  let (_, e4) = with_pinned-Returns _ _ e3 in
                  let (_, e5) = with_pinned-Returns _ _ e4 in
                  let (_, e6) = with_pinned-Returns _ _ e5 in
                  let (pointers, _, four, apart, e7) =
                    with_buffers-Returns _ _ cuda _ faithful e6 in
                  swt_body-Returns nought fma signal.content lo.content hi.content batch flen
                    pointers faithful four apart long_lo long_hi len hl long e7
            ]
    ]
