-- ===== src/Gpu/Pairs.antt =====
-- src/gpu/*.cu: kernels whose rounds each store a pair of cells, one in either half of a block of
-- the output, and what is read back after their launch.
use nimble_cas.Prelude.{
  ℕ, ◌+◌, ◌-◌, ◌*◌, ◌/◌, ◌^◌, ◌≤◌, ◌<◌, ◌≡◌, ◌≢◌, refl, sym, ap, subst, ◌∙◌, List, ◌==◌, arith,
  length, get_or, inl, inr, Bool-cases, ==_iff,
}
use nimble_cas.Cuda.Calls.{extent_of, Memory, store, Runtime, Trace}
use nimble_cas.Cuda.Host.{launch_and_read}
use nimble_cas.Cuda.Memory.{
  IsFaithful, contents, store_same, store_beside, get_or-read, length-read,
}
use nimble_cas.Cuda.Grid.{grid_stride, run_units, IsSchedule, IsRound, grid_stride-covers}
use nimble_cas.Cuda.Wrap.{int_grid_stride, run_int_units}
use nimble_cas.Cuda.Success.{Returns}
use nimble_cas.Cuda.Launch.{launch_and_read-Returns}
use native.Mathlib.Nat.{div-add-mod'}
use nimble_cas.Gpu.Matmul.Index.{place-lt, row-lt, rest-lt, row_of_place}

-- Two places of blocks of one length are the same block and the same offset.
same_block : (b c p q len : ℕ) → p < len → q < len → b * len + p ≡ c * len + q → b ≡ c
same_block b c p q len hp hq e =
    sym (row_of_place b p len hp) ∙ ap (λ t. t / len) e ∙ row_of_place c q len hq

same_offset : (b c p q len : ℕ) → p < len → q < len → b * len + p ≡ c * len + q → p ≡ q
same_offset b c p q len hp hq e =
    let blocks = ap (λ t. t * len) (same_block b c p q len hp hq e) in omega (arith, blocks, e)

same_index :
    (half i j : ℕ) → i / half ≡ j / half → i - i / half * half ≡ j - j / half * half → i ≡ j
same_index half i j blocks offsets =
    let scaled = ap (λ t. t * half) blocks in
    omega (arith, scaled, offsets, div-add-mod' i half, div-add-mod' j half)

module _ {D : Type 0} (low high : ℕ → ℕ → Memory D → D) (p_out half : ℕ) where
  -- The cells that are written for place k of block blk, in the kernels' order.
  abbrev pub store_pair : ℕ → ℕ → Memory D → Memory D
  store_pair blk k memory =
      store p_out (blk * (2 * half) + half + k) (high blk k memory)
        (store p_out (blk * (2 * half) + k) (low blk k memory) memory)

  abbrev pub pair_round : ℕ → Memory D → Memory D
  pair_round idx = store_pair (idx / half) (idx - idx / half * half)

  -- A store beside the two cells of a round leaves them.
  store_pair-beside :
      (blk k j : ℕ) (memory : Memory D)
      → j ≢ blk * (2 * half) + k
      → j ≢ blk * (2 * half) + (half + k)
      → store_pair blk k memory p_out j ≡ memory p_out j
  store_pair-beside blk k j memory u v =
      store_beside p_out (blk * (2 * half) + half + k) (high blk k memory)
        (store p_out (blk * (2 * half) + k) (low blk k memory) memory) j
        (λ same. absurd (v (omega (arith, same))))
      ∙ store_beside p_out (blk * (2 * half) + k) (low blk k memory) memory j u

  module _ (low_at high_at : ℕ → ℕ → D) where
    record HasPair (blk k : ℕ) (memory : Memory D) : Type 0 where
      low_cell : memory p_out (blk * (2 * half) + k) ≡ low_at blk k
      high_cell : memory p_out (blk * (2 * half) + (half + k)) ≡ high_at blk k

    store_pair-HasPair :
        (blk k : ℕ) (memory : Memory D)
        → k < half
        → (low blk k memory ≡ low_at blk k) × (high blk k memory ≡ high_at blk k)
        → HasPair blk k (store_pair blk k memory)
    store_pair-HasPair blk k memory hk (is_low, is_high) = record {
      low_cell =
          store_beside p_out (blk * (2 * half) + half + k) (high blk k memory)
            (store p_out (blk * (2 * half) + k) (low blk k memory) memory) (blk * (2 * half) + k)
            (λ same. absurd (omega (arith, same)))
          ∙ store_same p_out (blk * (2 * half) + k) (low blk k memory) memory
          ∙ is_low;
      high_cell =
          ap (store_pair blk k memory p_out) (omega arith)
          ∙ store_same p_out (blk * (2 * half) + half + k) (high blk k memory)
              (store p_out (blk * (2 * half) + k) (low blk k memory) memory)
          ∙ is_high;
    }

    -- The rounds of different pairs write different cells.
    store_pair-keeps :
        (blk k b c : ℕ) (memory : Memory D)
        → k < half
        → c < half
        → (blk ≡ b → k ≢ c)
        → HasPair b c memory
        → HasPair b c (store_pair blk k memory)
    store_pair-keeps blk k b c memory hk hc differ p = record {
      low_cell =
          store_pair-beside blk k _ memory
            (λ e. absurd (
              differ (sym (same_block b blk c k (2 * half) (omega arith) (omega arith) e))
                (sym (same_offset b blk c k (2 * half) (omega arith) (omega arith) e))))
            (λ e. absurd (
              omega
                (arith, same_offset b blk c (half + k) (2 * half) (omega arith) (omega arith) e)))
          ∙ p.low_cell;
      high_cell =
          store_pair-beside blk k _ memory
            (λ e. absurd (
              omega
                (arith, same_offset b blk (half + c) k (2 * half) (omega arith) (omega arith) e)))
            (λ e. absurd (
              differ
                (sym
                  (same_block b blk (half + c) (half + k) (2 * half) (omega arith) (omega arith) e))
                (omega (
                  arith,
                  same_offset b blk (half + c) (half + k) (2 * half) (omega arith) (omega arith) e,
                ))))
          ∙ p.high_cell;
    }

    index_of_pair :
        (blk k : ℕ) (memory : Memory D)
        → k < half
        → HasPair
            ((blk * half + k) / half)
            ((blk * half + k) - (blk * half + k) / half * half)
            memory
        → HasPair blk k memory
    index_of_pair blk k memory hk d =
        let block : (blk * half + k) / half ≡ blk = row_of_place blk k half hk in
        let place : (blk * half + k) - (blk * half + k) / half * half ≡ k =
          ap (λ t. (blk * half + k) - t * half) block ∙ omega arith in
        subst (λ t. HasPair blk t memory) place
          (subst (λ t. HasPair t ((blk * half + k) - (blk * half + k) / half * half) memory) block
            d)

  module _ (batch : ℕ) (low_at high_at : ℕ → ℕ → D) (Kept : Memory D → Type 0) where
    -- What such a kernel needs of the memory, and that its values are right while that holds.
    pub record IsPairing : Type 0 where
      pub stable : (i : ℕ) (v : D) (memory : Memory D) → Kept memory → Kept (store p_out i v memory)
      pub right :
          (blk k : ℕ) (memory : Memory D)
          → blk < batch
          → k < half
          → Kept memory
          → (low blk k memory ≡ low_at blk k) × (high blk k memory ≡ high_at blk k)

    pair_round-IsRound :
        0 < half
        → IsPairing
        → IsRound
            (batch * half)
            pair_round
            Kept
            (λ idx. HasPair low_at high_at (idx / half) (idx - idx / half * half))
    pair_round-IsRound pos pairing = record {
      keeps = λ i memory below held. pairing.stable _ _ _ (pairing.stable _ _ memory held);
      does = λ i memory below held. written i memory below held;
      undoes_none = λ i j memory below held d. elim (Bool-cases (i == j)) [
        | inl e ↦
            subst
              (λ t. HasPair low_at high_at (t / half) (t - t / half * half) (pair_round i memory))
              ((==_iff i j).0 e) (written i memory below held)
        | inr e ↦
            store_pair-keeps low_at high_at (i / half) (i - i / half * half) (j / half)
              (j - j / half * half) memory (rest-lt i half pos) (rest-lt j half pos)
              (λ blocks offsets. absurd (ground (arith, e, same_index half i j blocks offsets))) d
      ];
    }
      where
        written :
            (i : ℕ) (memory : Memory D)
            → i < batch * half
            → Kept memory
            → HasPair low_at high_at (i / half) (i - i / half * half) (pair_round i memory)
        written i memory below held =
            store_pair-HasPair low_at high_at (i / half) (i - i / half * half) memory
              (rest-lt i half pos)
              (pairing.right _ _ memory (row-lt i batch half pos below) (rest-lt i half pos) held)

    -- A launch on a grid of threads that do the rounds of such a kernel.
    launched_pairs-Returns :
        {initial : Memory D} {cuda : Runtime D} {log : Trace D} (blocks threads width : ℕ)
        {v : List D} (kernel : ℕ → Memory D → Memory D)
        → ((order : List ℕ)
            → IsSchedule (blocks * threads) order
            → run_units kernel order (contents initial log)
              ≡ run_units
                  (grid_stride (blocks * threads) (batch * half) pair_round)
                  order
                  (contents initial log))
        → IsFaithful initial cuda
        → IsPairing
        → 0 < half
        → 0 < blocks * threads
        → Kept (contents initial log)
        → Returns
            (launch_and_read blocks threads
              (blocks * threads)
              kernel
              p_out
              (extent_of (batch * (2 * half)) width))
            cuda
            log
            v
        → (length v ≡ batch * (2 * half))
          × ((blk k : ℕ) (d : D)
              → blk < batch
              → k < half
              → (get_or v (blk * (2 * half) + k) d ≡ low_at blk k)
                × (get_or v (blk * (2 * half) + (half + k)) d ≡ high_at blk k))
    launched_pairs-Returns {initial} {log} blocks threads width {v} kernel same faithful pairing pos
          some_threads held e =
        let (order, schedule, read_back) =
          launch_and_read-Returns initial blocks threads (blocks * threads) _ p_out _ faithful e in
        let (_, all) =
          grid_stride-covers (batch * half) (blocks * threads) (pair_round-IsRound pos pairing)
            order (contents initial log) schedule some_threads held in
        let final =
          run_units (grid_stride (blocks * threads) (batch * half) pair_round) order
            (contents initial log) in
        let cell : (i : ℕ) (d : D) → i < batch * (2 * half) → get_or v i d ≡ final p_out i =
          λ i d below.
            ap (λ cells. get_or cells i d) read_back
            ∙ get_or-read _ p_out 0 (batch * (2 * half)) i d below
            ∙ ap (run_units kernel order (contents initial log) p_out) (omega arith)
            ∙ ap (λ (memory : Memory D). memory p_out i) (same order schedule) in
        (
          ap length read_back ∙ length-read _ p_out 0 (batch * (2 * half)),
          λ blk k d hb hk.
              let both =
                index_of_pair low_at high_at blk k final hk
                  (all (blk * half + k) (place-lt blk k batch half hb hk)) in
              (
                cell _ d (place-lt blk k batch (2 * half) hb (omega arith)) ∙ both.low_cell,
                cell _ d (place-lt blk (half + k) batch (2 * half) hb (omega arith))
                    ∙ both.high_cell,
              ),
        )

    -- Such a kernel, launched on a grid and read back.
    pub launch_pairs-Returns :
        {initial : Memory D} {cuda : Runtime D} {log : Trace D} (blocks threads width : ℕ)
        {v : List D}
        → IsFaithful initial cuda
        → IsPairing
        → 0 < half
        → 0 < blocks * threads
        → Kept (contents initial log)
        → Returns
            (launch_and_read blocks threads
              (blocks * threads)
              (grid_stride (blocks * threads) (batch * half) pair_round)
              p_out
              (extent_of (batch * (2 * half)) width))
            cuda
            log
            v
        → (length v ≡ batch * (2 * half))
          × ((blk k : ℕ) (d : D)
              → blk < batch
              → k < half
              → (get_or v (blk * (2 * half) + k) d ≡ low_at blk k)
                × (get_or v (blk * (2 * half) + (half + k)) d ≡ high_at blk k))
    launch_pairs-Returns blocks threads width =
        launched_pairs-Returns blocks threads width _ (λ order schedule. refl)

    -- The same, where the kernel's index is an `int`.
    pub launch_int_pairs-Returns :
        {initial : Memory D} {cuda : Runtime D} {log : Trace D} (blocks threads width : ℕ)
        {v : List D}
        → IsFaithful initial cuda
        → IsPairing
        → 0 < half
        → 0 < blocks * threads
        → batch * half + blocks * threads ≤ 2 ^ 31
        → Kept (contents initial log)
        → Returns
            (launch_and_read blocks threads
              (blocks * threads)
              (int_grid_stride (blocks * threads) (batch * half) pair_round)
              p_out
              (extent_of (batch * (2 * half)) width))
            cuda
            log
            v
        → (length v ≡ batch * (2 * half))
          × ((blk k : ℕ) (d : D)
              → blk < batch
              → k < half
              → (get_or v (blk * (2 * half) + k) d ≡ low_at blk k)
                × (get_or v (blk * (2 * half) + (half + k)) d ≡ high_at blk k))
    launch_int_pairs-Returns blocks threads width faithful pairing pos some_threads room =
        launched_pairs-Returns blocks threads width _
          (λ order schedule.
            run_int_units (batch * half) (blocks * threads) pair_round order _ room some_threads
              schedule.no_other)
          faithful pairing pos some_threads
