-- ===== src/Gpu/Probe/Result.antt =====
-- nimblecas_gpu_index_probe_batch: the bits it returns.
use nimble_cas.Prelude.{
  ℕ, zero, suc, ◌+◌, ◌*◌, ◌≤◌, ◌<◌, ◌≡◌, ◌≢◌, ◌⊎◌, refl, sym, ap, subst, ◌∙◌, List, false, ltb, leb,
  ◌==◌, arith, length, get_or, take, inl, inr, Bool-cases, ==_iff, ltb→lt,
}
use nimble_cas.Cuda.Calls.{Memory, store, Runtime, Trace}
use nimble_cas.Cuda.Memory.{
  IsFaithful, contents, overlay, copied_cell, get_or-read, overlay_other, store_same, store_other,
  store_beside,
}
use nimble_cas.Cuda.Grid.{run_units, IsRound}
use nimble_cas.Cuda.Success.{Returns}
use nimble_cas.Cuda.Launch.{launch_and_read-Returns, copy_in-Returns}
use nimble_cas.Prelude.Arith.{mul_le_mul}
use nimble_cas.Cuda.Grid.{units-cover}
use nimble_cas.Gpu.Probe.{probe_word, probe_row, index_probe_kernel, probe_body, words_of}
use nimble_cas.Gpu.Probe.Bits.{probe_word_ext}

module _ (clause_keys : List ℕ) (clause_count : ℕ) (goal_keys : List ℕ)
    (goal_count d_ck d_gk d_out : ℕ) (off_ck : d_ck ≢ d_out) (off_gk : d_gk ≢ d_out) where
  record HasKeys (memory : Memory ℕ) : Type 0 where
    clauses_at : (k : ℕ) → k < clause_count → memory d_ck k ≡ get_or clause_keys k 0
    goals_at : (g : ℕ) → g < goal_count → memory d_gk g ≡ get_or goal_keys g 0

  -- The words of one goal.
  IsProbed : ℕ → Memory ℕ → Type 0
  IsProbed goal memory =
      (word : ℕ)
      → word < words_of clause_count
      → memory d_out (goal * words_of clause_count + word)
        ≡ probe_word (λ k. get_or clause_keys k 0) clause_count (get_or goal_keys goal 0)
            (word * 64)

  module _ (keys : ℕ → ℕ) (gk row : ℕ) where
    probe_row_other :
        (words : ℕ) (memory : Memory ℕ) (q j : ℕ)
        → q ≢ d_out
        → probe_row keys clause_count gk d_out row words memory q j ≡ memory q j
    unfolding probe_row
    probe_row_other zero memory q j h = refl
    probe_row_other (suc words) memory q j h =
        store_other d_out _ _ (probe_row keys clause_count gk d_out row words memory) q j h
        ∙ probe_row_other words memory q j h

    probe_row_beside :
        (words : ℕ) (memory : Memory ℕ) (j : ℕ)
        → (j < row) ⊎ (row + words ≤ j)
        → probe_row keys clause_count gk d_out row words memory d_out j ≡ memory d_out j
    unfolding probe_row
    probe_row_beside zero memory j h = refl
    probe_row_beside (suc words) memory j h =
        store_beside d_out (row + words) _ (probe_row keys clause_count gk d_out row words memory) j
          (λ same. ground (arith, h, same))
        ∙ probe_row_beside words memory j (ground (arith, h))

    probe_row_at :
        (words word : ℕ) (memory : Memory ℕ)
        → word < words
        → probe_row keys clause_count gk d_out row words memory d_out (row + word)
          ≡ probe_word keys clause_count gk (word * 64)
    unfolding probe_row
    probe_row_at zero word memory h = absurd (omega arith)
    probe_row_at (suc words) word memory h = elim (Bool-cases (word == words)) [
      | inl e ↦
          let same : word ≡ words = (==_iff word words).0 e in
          subst
            (λ t.
              store d_out (row + words) (probe_word keys clause_count gk (words * 64))
                (probe_row keys clause_count gk d_out row words memory) d_out (row + t)
              ≡ probe_word keys clause_count gk (t * 64))
            (sym same)
            (store_same d_out (row + words) _
              (probe_row keys clause_count gk d_out row words memory))
      | inr e ↦
          store_beside d_out (row + words) _ (probe_row keys clause_count gk d_out row words memory)
            (row + word) (λ same. absurd (ground (arith, e, same)))
          ∙ probe_row_at words word memory (ground (arith, e, h))
    ]

  kernel : ℕ → Memory ℕ → Memory ℕ
  kernel = index_probe_kernel d_ck clause_count d_gk goal_count (words_of clause_count) d_out

  not_past : (g : ℕ) → g < goal_count → leb goal_count g ≡ false
  not_past g below = ground arith

  kernel-IsProbed :
      (g : ℕ) (memory : Memory ℕ) → g < goal_count → HasKeys memory → IsProbed g (kernel g memory)
  unfolding index_probe_kernel IsProbed kernel
  kernel-IsProbed g memory below k word h = rw (not_past g below) (
      probe_row_at (memory d_ck) (memory d_gk g) _ _ word memory h
      ∙ probe_word_ext (memory d_ck) (λ j. get_or clause_keys j 0) clause_count (memory d_gk g)
          (word * 64) k.clauses_at
      ∙ ap (λ gk. probe_word (λ j. get_or clause_keys j 0) clause_count gk (word * 64))
          (k.goals_at g below))

  rows_apart :
      (i j width word : ℕ)
      → word < width
      → (i == j) ≡ false
      → (j * width + word < i * width) ⊎ (i * width + width ≤ j * width + word)
  rows_apart i j width word h differ = elim (Bool-cases (ltb i j)) [
    | inl e ↦ inr (
        omega (
          arith,
          ltb→lt i j e,
          mul_le_mul (i + 1) j width width (omega (arith, ltb→lt i j e)) (omega arith),
        ))
    | inr e ↦ inl (
        omega
          (arith, mul_le_mul (j + 1) i width width (ground (arith, e, differ)) (omega arith), h))
  ]

  kernel-IsRound : IsRound goal_count kernel HasKeys IsProbed
  unfolding index_probe_kernel IsProbed kernel
  kernel-IsRound = record {
    keeps = λ g memory below k. rw (not_past g below) (record {
      clauses_at = λ j h.
          probe_row_other (memory d_ck) (memory d_gk g) _ _ memory d_ck j off_ck ∙ k.clauses_at j h;
      goals_at = λ j h.
          probe_row_other (memory d_ck) (memory d_gk g) _ _ memory d_gk j off_gk ∙ k.goals_at j h;
    });
    does = kernel-IsProbed;
    undoes_none = λ i j memory below k d word h. elim (Bool-cases (i == j)) [
      | inl e ↦
          subst (λ t. IsProbed t (kernel i memory)) ((==_iff i j).0 e)
            (kernel-IsProbed i memory below k) word h
      | inr e ↦ rw (not_past i below) (
          probe_row_beside (memory d_ck) (memory d_gk i) _ _ memory _
            (rows_apart i j (words_of clause_count) word h e)
          ∙ d word h)
    ];
  }

module _ (clause_keys : List ℕ) (clause_count : ℕ) (goal_keys : List ℕ) (goal_count : ℕ)
    {initial : Memory ℕ} {cuda : Runtime ℕ} (faithful : IsFaithful initial cuda)
    (long_ck : clause_count ≤ length clause_keys) (long_gk : goal_count ≤ length goal_keys) where
  -- Each word of each row, as it is read back.
  unfoldable pub HasRows : List ℕ → Type 0
  HasRows v =
      (g word : ℕ)
      → g < goal_count
      → word < words_of clause_count
      → get_or v (g * words_of clause_count + word) 0
        ≡ probe_word (λ k. get_or clause_keys k 0) clause_count (get_or goal_keys g 0) (word * 64)

  pub probe_body-Returns :
      (d_ck d_gk d_out : ℕ) {log : Trace ℕ} {v : List ℕ}
      → d_ck ≢ d_gk
      → d_ck ≢ d_out
      → d_gk ≢ d_out
      → Returns
          (probe_body clause_keys clause_count goal_keys goal_count d_ck d_gk d_out)
          cuda
          log
          v
      → HasRows v
  unfolding probe_body kernel IsProbed HasRows
  probe_body-Returns d_ck d_gk d_out {log} apart off_ck off_gk e g word below inside =
      let (_, _, e1, c1) = copy_in-Returns initial _ _ _ _ e in
      let (_, _, e2, c2) = copy_in-Returns initial _ _ _ _ e1 in
      let (order, schedule, read_back) =
        launch_and_read-Returns initial _ _ _ _ d_out _ faithful e2 in
      let start =
        overlay d_gk 0 (take goal_count goal_keys)
          (overlay d_ck 0 (take clause_count clause_keys) (contents initial log)) in
      let ready : HasKeys clause_keys clause_count goal_keys goal_count d_ck d_gk d_out off_ck
          off_gk start =
        record {
          clauses_at = λ k h.
              overlay_other d_gk 0 (take goal_count goal_keys) _ d_ck k apart
              ∙ copied_cell d_ck clause_count k clause_keys _ 0 h long_ck;
          goals_at = λ j h. copied_cell d_gk goal_count j goal_keys _ 0 h long_gk;
        } in
      let done_all =
        units-cover goal_count
          (kernel-IsRound clause_keys clause_count goal_keys goal_count d_ck d_gk d_out off_ck
            off_gk)
          order _ schedule
          (subst
            (HasKeys clause_keys clause_count goal_keys goal_count d_ck d_gk d_out off_ck off_gk)
            (sym (c2 ∙ ap (overlay d_gk 0 (take goal_count goal_keys)) c1)) ready)
          g below in
      ap (λ cells. get_or cells (g * words_of clause_count + word) 0) read_back
      ∙ get_or-read _ d_out 0 _ _ 0 (
          omega (
            arith,
            mul_le_mul (g + 1) goal_count (words_of clause_count) (words_of clause_count)
                (omega arith) (omega arith),
            inside,
          ))
      ∙ ap (run_units {M = Memory ℕ} _ order _ d_out) (omega arith)
      ∙ done_all word inside
