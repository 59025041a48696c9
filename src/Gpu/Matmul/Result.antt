-- ===== src/Gpu/Matmul/Result.antt =====
-- nimblecas_gpu_batched_matmul: its result and its use of device memory.
use nimble_cas.Prelude.{
  ℕ, zero, suc, ◌+◌, ◌-◌, ◌*◌, ◌/◌, ◌%◌, ◌^◌, ◌≤◌, ◌<◌, ◌≡◌, ◌≢◌, refl, sym, ap, ap₂, subst, ◌∙◌,
  List, ◌||◌, ◌==◌, arith, length, get_or, take, inl, inr,
}
use nimble_cas.Prelude.Int.{pos, ℤ, pos_part}
use nimble_cas.Cuda.Wrap.{int_grid_stride}
use nimble_cas.Cuda.Calls.{extent_of, Memory, store, Runtime, Trace, done}
use nimble_cas.Cuda.Host.{launch_and_read, HostBuffer}
use nimble_cas.Cuda.Memory.{IsFaithful, contents, overlay, copied_cell, overlay_other, store_other}
use nimble_cas.Cuda.Ledger.{
  IsSettled, >>=-Settles, checked-Settles, pure-Settles, if-Settles, choose_blocks-Settles,
  with_pinned-Settles, launch_and_read-Settles,
}
use nimble_cas.Cuda.Release.{with_buffers-Settles}
use nimble_cas.Cuda.Fresh.{IsApart, with_buffers-Returns}
use nimble_cas.Cuda.Success.{Returns, if-Returns, with_pinned-Returns}
use nimble_cas.Cuda.Healthy.{
  IsHealthy, if-Completes, pure-Completes, with_pinned-Completes, with_buffers-Completes,
  >>=-Completes, checked-Completes, choose_blocks-Completes, launch_and_read-Completes,
}
use nimble_cas.Cuda.Launch.{copy_in-Returns, choose_blocks-fits, launch_int_store-Returns}
use nimble_cas.Gpu.Matmul.{
  dot, matmul_at, batched_matmul_kernel, matmul_body, matmul_on_device, batched_matmul,
}
use native.Mathlib.Nat.{mul_assoc}
use nimble_cas.Gpu.Matmul.Index.{place-lt, row-lt, rest-lt, row_of_place}
use nimble_cas.Prelude.Arith.{mul_le_mul}

-- The count of one problem is at most that of all.
one_problem : (batch m n : ℕ) → 0 < batch → batch * m * n < 2 ^ 31 → m * n < 2 ^ 31
one_problem batch m n some small =
    let all : batch * (m * n) < 2 ^ 31 = subst (λ t. t < 2 ^ 31) (mul_assoc batch m n) small in
    omega (arith, all, mul_le_mul 1 batch (m * n) (m * n) some (omega arith))

module _ {D : Type 0} (nought : D) (mul_add : D → D → D → D) where
  dot_ext :
      (f g f' g' : ℕ → D) (k : ℕ)
      → ((l : ℕ) → l < k → f l ≡ f' l)
      → ((l : ℕ) → l < k → g l ≡ g' l)
      → dot nought mul_add f g k ≡ dot nought mul_add f' g' k
  unfolding dot
  dot_ext f g f' g' zero u v = refl
  dot_ext f g f' g' (suc k) u v =
      ap (λ c. mul_add (f k) (g k) c)
        (dot_ext f g f' g' k (λ l h. u l (omega arith)) (λ l h. v l (omega arith)))
      ∙ ap₂ (λ x y. mul_add x y (dot nought mul_add f' g' k)) (u k (omega arith))
          (v k (omega arith))

  -- Row i of matrix bi of a, times column j of matrix bi of b.
  abbrev pub entry_of : List D → List D → ℕ → ℕ → ℕ → ℕ → ℕ → ℕ → D
  entry_of a b m k n bi i j =
      dot nought mul_add (λ l. get_or a (bi * (m * k) + (i * k + l)) nought)
        (λ l. get_or b (bi * (k * n) + (l * n + j)) nought) k

  module _ (a b : List D) (batch m k n : ℕ) where
    record HasMatrices (p_a p_b : ℕ) (memory : Memory D) : Type 0 where
      a_at : (i : ℕ) → i < batch * m * k → memory p_a i ≡ get_or a i nought
      b_at : (i : ℕ) → i < batch * k * n → memory p_b i ≡ get_or b i nought

    -- The entry that an output index names.
    abbrev IsEntry : ℕ → D → Type 0
    IsEntry idx v =
        v
        ≡ entry_of a b m k n (idx / (m * n)) ((idx - idx / (m * n) * (m * n)) / n)
            ((idx - idx / (m * n) * (m * n)) - (idx - idx / (m * n) * (m * n)) / n * n)

    matmul_at-IsEntry :
        (p_a p_b idx : ℕ) (memory : Memory D)
        → 0 < m * n
        → 0 < n
        → HasMatrices p_a p_b memory
        → idx < batch * m * n
        → m * n < 2 ^ 31
        → m * k < 2 ^ 31
        → k * n < 2 ^ 31
        → IsEntry idx (matmul_at nought mul_add (memory p_a) (memory p_b) m k n idx)
    unfolding matmul_at
    matmul_at-IsEntry p_a p_b idx memory pos_mn pos_n held below small_mn small_mk small_kn =
        let no_wrap_mn : m * n % 2 ^ 32 ≡ m * n = omega (arith, small_mn) in
        let no_wrap_mk : m * k % 2 ^ 32 ≡ m * k = omega (arith, small_mk) in
        let no_wrap_kn : k * n % 2 ^ 32 ≡ k * n = omega (arith, small_kn) in
        let bi = idx / (m * n) in
        let rem = idx - bi * (m * n) in
        let row = rem / n in
        let col = rem - row * n in
        let bi_lt : bi < batch =
          row-lt idx batch (m * n) pos_mn (subst (λ t. idx < t) (mul_assoc batch m n) below) in
        let rem_lt : rem < m * n = rest-lt idx (m * n) pos_mn in
        let row_lt : row < m = row-lt rem m n pos_n rem_lt in
        let col_lt : col < n = rest-lt rem n pos_n in
        rw (no_wrap_mn, no_wrap_mk, no_wrap_kn)
          (dot_ext _ _ _ _ k
            (λ l h.
              let inside : bi * (m * k) + (row * k + l) < batch * m * k =
                subst (λ t. bi * (m * k) + (row * k + l) < t) (sym (mul_assoc batch m k))
                  (place-lt bi (row * k + l) batch (m * k) bi_lt (place-lt row l m k row_lt h)) in
              ap (memory p_a) (omega arith) ∙ held.a_at _ inside)
            (λ l h.
              let inside : bi * (k * n) + (l * n + col) < batch * k * n =
                subst (λ t. bi * (k * n) + (l * n + col) < t) (sym (mul_assoc batch k n))
                  (place-lt bi (l * n + col) batch (k * n) bi_lt (place-lt l col k n h col_lt)) in
              ap (memory p_b) (omega arith) ∙ held.b_at _ inside))

    -- Index (bi, i, j) names entry (i, j) of matrix bi.
    entry_of_index :
        (bi i j : ℕ) (v : D)
        → i < m
        → j < n
        → IsEntry (bi * (m * n) + (i * n + j)) v
        → v ≡ entry_of a b m k n bi i j
    entry_of_index bi i j v hi hj e =
        let idx = bi * (m * n) + (i * n + j) in
        let inside : i * n + j < m * n = place-lt i j m n hi hj in
        let first : idx / (m * n) ≡ bi = row_of_place bi (i * n + j) (m * n) inside in
        let rest : idx - idx / (m * n) * (m * n) ≡ i * n + j =
          ap (λ t. idx - t * (m * n)) first ∙ omega arith in
        let second : (idx - idx / (m * n) * (m * n)) / n ≡ i =
          ap (λ t. t / n) rest ∙ row_of_place i j n hj in
        let third : (idx - idx / (m * n) * (m * n)) - (idx - idx / (m * n) * (m * n)) / n * n ≡ j =
          ap₂ (λ r s. r - s * n) rest second ∙ omega arith in
        e
        ∙ ap
            (λ t.
              entry_of a b m k n t ((idx - idx / (m * n) * (m * n)) / n)
                ((idx - idx / (m * n) * (m * n)) - (idx - idx / (m * n) * (m * n)) / n * n))
            first
        ∙ ap₂ (λ s t. entry_of a b m k n bi s t) second third

    HasMatrices-store :
        (p_a p_b out i : ℕ) (v : D) (memory : Memory D)
        → p_a ≢ out
        → p_b ≢ out
        → HasMatrices p_a p_b memory
        → HasMatrices p_a p_b (store out i v memory)
    HasMatrices-store p_a p_b out i v memory off_a off_b held = record {
      a_at = λ j h. store_other out i v memory p_a j off_a ∙ held.a_at j h;
      b_at = λ j h. store_other out i v memory p_b j off_b ∙ held.b_at j h;
    }

    overlay-HasMatrices :
        (p_a p_b : ℕ) (memory : Memory D)
        → p_a ≢ p_b
        → batch * m * k ≤ length a
        → batch * k * n ≤ length b
        → HasMatrices p_a p_b
            (overlay p_b 0 (take (batch * k * n) b) (overlay p_a 0 (take (batch * m * k) a) memory))
    overlay-HasMatrices p_a p_b memory apart long_a long_b = record {
      a_at = λ i h.
          overlay_other p_b 0 (take (batch * k * n) b)
            (overlay p_a 0 (take (batch * m * k) a) memory) p_a i apart
          ∙ copied_cell p_a (batch * m * k) i a memory nought h long_a;
      b_at = λ i h. copied_cell p_b (batch * k * n) i b _ nought h long_b;
    }

    matmul_body-Returns :
        {initial : Memory D} {cuda : Runtime D} {log : Trace D} {v : List D} (pointers : List ℕ)
        → IsFaithful initial cuda
        → length pointers ≡ 3
        → IsApart pointers
        → 0 < m * n
        → 0 < n
        → batch * m * k ≤ length a
        → batch * k * n ≤ length b
        → (m * n < 2 ^ 31) × (m * k < 2 ^ 31) × (k * n < 2 ^ 31)
        → 2 * (batch * m * n) + 256 ≤ 2 ^ 31
        → Returns (matmul_body nought mul_add a b batch m k n pointers) cuda log v
        → (length v ≡ batch * m * n)
          × ((idx : ℕ) → idx < batch * m * n → IsEntry idx (get_or v idx nought))
    unfolding matmul_body batched_matmul_kernel
    matmul_body-Returns {initial} {cuda} {log} {v} pointers faithful three apart pos_mn pos_n long_a
          long_b (small_mn, small_mk, small_kn) room e =
        let p_a = get_or pointers 0 0 in
        let p_b = get_or pointers 1 0 in
        let p_c = get_or pointers 2 0 in
        let (_, _, e1, c1) = copy_in-Returns initial _ _ _ _ e in
        let (_, _, e2, c2) = copy_in-Returns initial _ _ _ _ e1 in
        let (blocks, after, e3, some_blocks, fits, c3) = choose_blocks-fits initial _ e2 in
        let no_wrap : batch * m * n % 2 ^ 32 ≡ batch * m * n = omega (arith, room) in
        let (len, all) =
          launch_int_store-Returns p_c (batch * m * n)
            (λ idx memory. matmul_at nought mul_add (memory p_a) (memory p_b) m k n idx) IsEntry
            {Kept = HasMatrices p_a p_b} blocks 256 8 faithful
            (λ i y memory.
              HasMatrices-store p_a p_b p_c i y memory (apart 0 2 (omega arith) (omega arith))
                (apart 1 2 (omega arith) (omega arith)))
            (λ idx memory below held.
              matmul_at-IsEntry p_a p_b idx memory pos_mn pos_n held below small_mn small_mk
                small_kn)
            (omega arith) (omega (arith, fits, room))
            (subst (HasMatrices p_a p_b)
              (sym (c3 ∙ c2 ∙ ap (overlay p_b 0 (take (batch * k * n) b)) c1))
              (overlay-HasMatrices p_a p_b (contents initial log)
                (apart 0 1 (omega arith) (omega arith)) long_a long_b))
            (subst
              (λ t.
                Returns
                  (launch_and_read blocks 256 (blocks * 256)
                    (int_grid_stride (blocks * 256) t λ idx memory.
                      store p_c idx (matmul_at nought mul_add (memory p_a) (memory p_b) m k n idx)
                        memory)
                    p_c (extent_of (batch * m * n) 8))
                  cuda after v)
              no_wrap e3) in
        (len, λ idx below. all idx nought below)

  -- On a faithful CUDA runtime, with arrays of the sizes that the dimensions say and a shared
  -- dimension above 0, when the three counts fit in an `int` and that of the results leaves room
  -- for a step of the grid, 2 * batch * m * n + 256 <= 2^31: when nimblecas_gpu_batched_matmul has
  -- returned 0, it has written batch * m * n cells, and the cell of matrix bi, row i, column j is
  -- the sum, in order, of the products of row i of A_bi and column j of B_bi.
  pub batched_matmul-entry_of :
      (a b : HostBuffer D) (c batch m k n : ℕ) {initial : Memory D} (cuda : Runtime D)
      (log : Trace D) {v : List D} (bi i j : ℕ)
      → IsFaithful initial cuda
      → batch * m * k ≤ length a.content
      → batch * k * n ≤ length b.content
      → 0 < k
      → batch * m * k < 2 ^ 31
      → batch * k * n < 2 ^ 31
      → 2 * (batch * m * n) + 256 ≤ 2 ^ 31
      → (batched_matmul nought mul_add a b c (pos batch) (pos m) (pos k) (pos n) cuda log).0
        ≡ done v
      → bi < batch
      → i < m
      → j < n
      → (length v ≡ batch * m * n)
        × (get_or v (bi * (m * n) + (i * n + j)) nought ≡ entry_of a.content b.content m k n bi i j)
  unfolding batched_matmul matmul_on_device
  batched_matmul-entry_of a b c batch m k n cuda log {v} bi i j faithful long_a long_b pos_k fits_a
        fits_b room e hb hi hj =
      elim (if-Returns ((batch == 0) || ((m == 0) || ((k == 0) || (n == 0))))
        (record { result = e })) [
          | inl (none, _) ↦ absurd (ground (arith, none, hb, hi, hj, pos_k))
          | inr (_, e1) ↦
              let (_, e2) = with_pinned-Returns _ _ e1 in
              let (_, e3) = with_pinned-Returns _ _ e2 in
              let (_, e4) = with_pinned-Returns _ _ e3 in
              let (pointers, _, three, apart, e5) = with_buffers-Returns _ _ cuda _ faithful e4 in
              let inside : i * n + j < m * n = place-lt i j m n hi hj in
              let (len, all) =
                matmul_body-Returns a.content b.content batch m k n pointers faithful three apart
                  (omega arith) (omega arith) long_a long_b
                  (
                    one_problem batch m n (omega arith) (omega (arith, room)),
                    one_problem batch m k (omega arith) fits_a,
                    one_problem batch k n (omega arith) fits_b,
                  )
                  room e5 in
              let below : bi * (m * n) + (i * n + j) < batch * m * n =
                subst (λ t. bi * (m * n) + (i * n + j) < t) (sym (mul_assoc batch m n))
                  (place-lt bi (i * n + j) batch (m * n) hb inside) in
              (len, entry_of_index a.content b.content batch m k n bi i j _ hi hj (all _ below))
        ]

  -- On any CUDA runtime, whichever calls fail: from before nimblecas_gpu_batched_matmul to after
  -- it, each non-null device pointer is freed as often as it was allocated, and each host buffer
  -- is unregistered as often as it was registered.
  pub batched_matmul-IsSettled :
      (a b : HostBuffer D) (c : ℕ) (batch m k n : ℤ) (cuda : Runtime D) (log : Trace D)
      → IsSettled log (batched_matmul nought mul_add a b c batch m k n cuda log).1
  unfolding batched_matmul matmul_on_device matmul_body
  batched_matmul-IsSettled a b c batch m k n cuda log =
      (if-Settles
          ((pos_part batch == 0) || ((pos_part m == 0) || ((pos_part k == 0) || (pos_part n == 0))))
          (pure-Settles _)
          (with_pinned-Settles _ _ (
            with_pinned-Settles _ _ (
              with_pinned-Settles _ _ (
                with_buffers-Settles _ λ pointers.
                  >>=-Settles (checked-Settles _ (λ y r. refl)) λ _.
                    >>=-Settles (checked-Settles _ (λ y r. refl)) λ _.
                      >>=-Settles (choose_blocks-Settles _ _)
                        λ blocks. launch_and_read-Settles _ _ _ _ _ _))))).settles
        cuda log

  -- completes
  pub batched_matmul-completes :
      (a b : HostBuffer D) (c : ℕ) (batch m k n : ℤ) (cuda : Runtime D) (log : Trace D)
      → IsHealthy cuda
      → (v : List D) × ((batched_matmul nought mul_add a b c batch m k n cuda log).0 ≡ done v)
  unfolding batched_matmul matmul_on_device matmul_body
  batched_matmul-completes a b c batch m k n cuda log healthy =
      (if-Completes
          ((pos_part batch == 0) || ((pos_part m == 0) || ((pos_part k == 0) || (pos_part n == 0))))
          (pure-Completes _)
          (with_pinned-Completes _ _ (
            with_pinned-Completes _ _ (
              with_pinned-Completes _ _ (
                with_buffers-Completes _ healthy λ pointers.
                  >>=-Completes (checked-Completes _ healthy) λ _.
                    >>=-Completes (checked-Completes _ healthy) λ _.
                      >>=-Completes (choose_blocks-Completes _ _)
                        λ blocks. launch_and_read-Completes _ _ _ _ _ _ healthy))))).completes
        log
