-- ===== src/Gpu/Sweep/Result.antt =====
-- nimblecas_gpu_strategy_grid and nimblecas_gpu_futures_grid: their results and buffers.
use nimble_cas.Prelude.{
  ℕ, zero, suc, ◌≤◌, ◌<◌, ◌≡◌, ◌≢◌, refl, sym, ap, subst, ◌∙◌, List, [], ◌∷◌, ltb, ◌==◌, arith,
  length, get_or, take, inl, inr,
}
use nimble_cas.Prelude.Int.{ℤ, pos_part}
use nimble_cas.Cuda.Calls.{Memory, store, Gpu, Runtime, Trace, done}
use nimble_cas.Cuda.Memory.{IsFaithful, contents, overlay, copied_cell, overlay_other, store_other}
use nimble_cas.Cuda.Ledger.{
  Settles, IsSettled, >>=-Settles, checked-Settles, pure-Settles, if-Settles,
  launch_and_read-Settles,
}
use nimble_cas.Cuda.Release.{with_buffers-Settles}
use nimble_cas.Cuda.Fresh.{IsApart}
use nimble_cas.Cuda.Success.{Returns, if-Returns}
use nimble_cas.Cuda.Healthy.{
  IsHealthy, Completes, if-Completes, pure-Completes, with_buffers-Completes, >>=-Completes,
  checked-Completes, launch_and_read-Completes,
}
use nimble_cas.Cuda.Launch.{copy_in-Returns, launch_store-Returns}
use nimble_cas.Gpu.Sweep.{
  Cell, leg, price, as_leg, as_price, each_leg, grid_kernel, copy_legs, sweep_body, sweep,
}
use nimble_cas.Cuda.Choice.{IsChoice-Returns, IsChoice-Completes}
use nimble_cas.Cuda.Device.{choose_blocks-IsChoice}

-- The legs of a list, one after the other.
unfoldable pub fold_left {ℓ κ} : {S : Type ℓ} {L : Type κ} → (S → L → S) → S → List L → S
fold_left add sums [] = sums
fold_left add sums (l ∷ ls) = fold_left add (add sums l) ls

each_leg-suc :
    {S L : Type 0} (add : S → L → S) (f : ℕ → L) (n : ℕ) (sums : S)
    → each_leg add f (suc n) sums ≡ each_leg add (λ k. f (suc k)) n (add sums (f 0))
unfolding each_leg
each_leg-suc add f zero sums = refl
each_leg-suc add f (suc n) sums = ap (λ t. add t (f (suc n))) (each_leg-suc add f n sums)

pub each_leg-fold_left :
    {S L : Type 0} (add : S → L → S) (f : ℕ → L) (legs : List L) (d : L) (n : ℕ) (sums : S)
    → n ≤ length legs
    → ((k : ℕ) → k < n → f k ≡ get_or legs k d)
    → each_leg add f n sums ≡ fold_left add sums (take n legs)
unfolding fold_left each_leg
each_leg-fold_left add f legs d zero sums h same = refl
each_leg-fold_left add f [] d (suc n) sums h same = absurd (omega arith)
each_leg-fold_left add f (l ∷ legs) d (suc n) sums h same =
    each_leg-suc add f n sums
    ∙ each_leg-fold_left add (λ k. f (suc k)) legs d n (add sums (f 0)) (omega arith)
        (λ k below. same (suc k) (omega arith))
    ∙ ap (λ t. fold_left add (add sums t) (take n legs)) (same 0 (omega arith))

-- Two sums kept together are the two sums.
pub fold_left-pair :
    {S L : Type 0} (f g : S → L → S) (a b : S) (legs : List L)
    → fold_left (λ (t : S × S) l. (f t.0 l, g t.1 l)) (a, b) legs
      ≡ (fold_left f a legs, fold_left g b legs)
unfolding fold_left
fold_left-pair f g a b [] = refl
fold_left-pair f g a b (l ∷ legs) = fold_left-pair f g (f a l) (g b l) legs

module _ {L D : Type 0} (blank : L) (nought : D) (point : (ℕ → L) → ℕ → D → D)
    (legs : List (Cell L D)) (n_legs width : ℕ) where
  copy_legs-Settles :
      {B : Type 0} (dev_legs : ℕ) {rest : Gpu (Cell L D) B}
      → Settles rest
      → Settles (copy_legs blank nought point dev_legs legs n_legs width rest)
  unfolding copy_legs
  copy_legs-Settles dev_legs u =
      if-Settles _ (>>=-Settles (checked-Settles _ (λ y r. refl)) λ _. u) u

  copy_legs-Completes :
      {B : Type 0} {cuda : Runtime (Cell L D)} (dev_legs : ℕ) {rest : Gpu (Cell L D) B}
      → IsHealthy cuda
      → Completes cuda rest
      → Completes cuda (copy_legs blank nought point dev_legs legs n_legs width rest)
  unfolding copy_legs
  copy_legs-Completes dev_legs healthy u =
      if-Completes _ (>>=-Completes (checked-Completes _ healthy) λ _. u) u

module _ {L D : Type 0} (blank : L) (nought : D) (point : (ℕ → L) → ℕ → D → D) (width : ℕ)
    (legs : List (Cell L D)) (n_legs : ℕ) (grid : List (Cell L D)) (n_grid : ℤ)
    (cuda : Runtime (Cell L D)) (log : Trace (Cell L D)) where
  pub sweep-IsSettled :
      IsSettled log (sweep blank nought point width legs n_legs grid n_grid cuda log).1
  unfolding sweep sweep_body
  sweep-IsSettled =
      (if-Settles (pos_part n_grid == 0) (pure-Settles _) (
          with_buffers-Settles _ λ pointers.
            copy_legs-Settles blank nought point legs n_legs width _ (
              >>=-Settles (checked-Settles _ (λ y r. refl)) λ _.
                >>=-Settles (choose_blocks-IsChoice _ _).settled
                  λ blocks. launch_and_read-Settles _ _ _ _ _ _))).settles
        cuda log

  pub sweep-completes :
      IsHealthy cuda
      → (v : List (Cell L D)) × ((sweep blank nought point width legs n_legs grid n_grid cuda log).0
          ≡ done v)
  unfolding sweep sweep_body
  sweep-completes healthy =
      (if-Completes (pos_part n_grid == 0) (pure-Completes _) (
          with_buffers-Completes _ healthy λ pointers.
            copy_legs-Completes blank nought point legs n_legs width _ healthy (
              >>=-Completes (checked-Completes _ healthy) λ _.
                >>=-Completes (IsChoice-Completes (choose_blocks-IsChoice _ _))
                  λ blocks. launch_and_read-Completes _ _ _ _ _ _ healthy))).completes
        log

module _ {L D : Type 0} (blank : L) (nought : D) (point : (ℕ → L) → ℕ → D → D)
    (legs : List (Cell L D)) (n_legs : ℕ) (grid : List (Cell L D)) (n_grid : ℕ) where
  -- The legs and the prices are on the device.
  record HasGrid (p_legs p_grid : ℕ) (memory : Memory (Cell L D)) : Type 0 where
    leg_at : (k : ℕ) → k < n_legs → memory p_legs k ≡ get_or legs k (leg blank)
    price_at : (j : ℕ) → j < n_grid → memory p_grid j ≡ get_or grid j (leg blank)

  HasGrid-store :
      (p_legs p_grid out i : ℕ) (v : Cell L D) (memory : Memory (Cell L D))
      → p_legs ≢ out
      → p_grid ≢ out
      → HasGrid p_legs p_grid memory
      → HasGrid p_legs p_grid (store out i v memory)
  HasGrid-store p_legs p_grid out i v memory off_legs off_grid k = record {
    leg_at = λ j h. store_other out i v memory p_legs j off_legs ∙ k.leg_at j h;
    price_at = λ j h. store_other out i v memory p_grid j off_grid ∙ k.price_at j h;
  }

  overlay-HasGrid :
      (p_legs p_grid : ℕ) (memory : Memory (Cell L D))
      → p_legs ≢ p_grid
      → n_legs ≤ length legs
      → n_grid ≤ length grid
      → HasGrid p_legs p_grid
          (overlay p_grid 0 (take n_grid grid) (overlay p_legs 0 (take n_legs legs) memory))
  overlay-HasGrid p_legs p_grid memory apart long_legs long_grid = record {
    leg_at = λ k h.
        overlay_other p_grid 0 (take n_grid grid) (overlay p_legs 0 (take n_legs legs) memory)
          p_legs k apart
        ∙ copied_cell p_legs n_legs k legs memory (leg blank) h long_legs;
    price_at = λ j h. copied_cell p_grid n_grid j grid _ (leg blank) h long_grid;
  }

  copy_legs-Returns :
      {B : Type 0} (initial : Memory (Cell L D)) {cuda : Runtime (Cell L D)}
      {log : Trace (Cell L D)} (dev_legs width : ℕ) (rest : Gpu (Cell L D) B) {v : B}
      → Returns (copy_legs blank nought point dev_legs legs n_legs width rest) cuda log v
      → (after : Trace (Cell L D)) × Returns rest cuda after v
        × (contents initial after ≡ overlay dev_legs 0 (take n_legs legs) (contents initial log))
  unfolding copy_legs overlay
  copy_legs-Returns initial {log} dev_legs width rest e = elim (if-Returns (ltb 0 n_legs) e) [
    | inl (_, e1) ↦ let (_, after, e2, c) = copy_in-Returns initial _ _ _ _ e1 in (after, e2, c)
    | inr (no_legs, e1) ↦
        (let none : 0 ≡ n_legs = ground (arith, no_legs) in
          (log, e1, ap (λ n. overlay dev_legs 0 (take n legs) (contents initial log)) none))
  ]

  pub sweep_body-Returns :
      {initial : Memory (Cell L D)} (cuda : Runtime (Cell L D)) {log : Trace (Cell L D)}
      {v : List (Cell L D)} (width : ℕ) (pointers : List ℕ)
      → IsFaithful initial cuda
      → length pointers ≡ 3
      → IsApart pointers
      → n_legs ≤ length legs
      → n_grid ≤ length grid
      → (at : D → D)
      → ((f : ℕ → L) (s : D)
          → ((k : ℕ) → k < n_legs → f k ≡ as_leg blank (get_or legs k (leg blank)))
          → point f n_legs s ≡ at s)
      → Returns (sweep_body blank nought point width legs n_legs grid n_grid pointers) cuda log v
      → (length v ≡ n_grid)
        × ((j : ℕ)
            → j < n_grid
            → get_or v j (leg blank) ≡ price (at (as_price nought (get_or grid j (leg blank)))))
  unfolding sweep_body grid_kernel
  sweep_body-Returns {initial} cuda {log} {v} width pointers faithful three apart long_legs
        long_grid at right e =
      let p_legs = get_or pointers 0 0 in
      let p_grid = get_or pointers 1 0 in
      let p_out = get_or pointers 2 0 in
      let (log1, e1, c1) = copy_legs-Returns initial _ _ _ e in
      let (_, log2, e2, c2) = copy_in-Returns initial _ _ _ _ e1 in
      let (chosen, after, e3, some_blocks, c3) =
        IsChoice-Returns (choose_blocks-IsChoice n_grid 256) initial e2 in
      let Kept = HasGrid p_legs p_grid in
      let (len, all) =
        launch_store-Returns p_out n_grid
          (λ j memory. price (
            point (λ i. as_leg blank (memory p_legs i)) n_legs (as_price nought (memory p_grid j))))
          (λ j y. y ≡ price (at (as_price nought (get_or grid j (leg blank))))) {Kept = Kept} chosen
          256 8 faithful
          (λ i y memory.
            HasGrid-store p_legs p_grid p_out i y memory (apart 0 2 (omega arith) (omega arith))
              (apart 1 2 (omega arith) (omega arith)))
          (λ j memory below k. ap price (
            right (λ i. as_leg blank (memory p_legs i)) (as_price nought (memory p_grid j))
              (λ i h. ap (as_leg blank) (k.leg_at i h))
            ∙ ap (λ y. at (as_price nought y)) (k.price_at j below)))
          (omega arith)
          (subst Kept (sym (c3 ∙ c2 ∙ ap (overlay p_grid 0 (take n_grid grid)) c1)) (
            overlay-HasGrid p_legs p_grid (contents initial log)
              (apart 0 1 (omega arith) (omega arith)) long_legs long_grid))
          e3 in
      (len, λ j below. all j (leg blank) below)
