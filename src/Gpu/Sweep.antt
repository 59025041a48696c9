-- ===== src/Gpu/Sweep.antt =====
-- src/gpu/gpu_sweep_kernels.cu: the strategy and futures grids. The two host functions differ in
-- their leg and their kernel alone; `sweep` is what they share. The `double`s are a parameter, with
-- the round-to-nearest intrinsics that the kernels call.
pub mod Grids
pub mod Result
use nimble_cas.Prelude.{
  map, ℕ, zero, suc, ◌+◌, ◌-◌, ◌*◌, ◌/◌, List, [], ◌∷◌, ◌&&◌, ltb, ◌==◌, if◌then◌else◌, get_or,
}
use nimble_cas.Prelude.Int.{ℤ, pos_part}
use nimble_cas.Cuda.Calls.{extent_of, Memory, store, Call, Gpu, pure, ◌>>=◌, ◌>>◌, call, checked}
use nimble_cas.Cuda.Host.{capped_blocks, with_buffers, launch_and_read}
use nimble_cas.Cuda.Grid.{grid_stride}
use nimble_cas.Cuda.Device.{choose_blocks}

-- __dsub_rn, __dadd_rn, __dmul_rn and fmax, and the constant 0.0.
pub record Doubles (D : Type 0) : Type 0 where
  pub nought : D
  pub dsub : D → D → D
  pub dadd : D → D → D
  pub dmul : D → D → D
  pub fmax : D → D → D

-- struct NimblecasSweepLeg
pub record SweepLeg (D : Type 0) : Type 0 where
  pub strike : D
  pub quantity : D
  pub premium : D
  pub right : ℕ

-- struct NimblecasFuturesSweepLeg
pub record FuturesSweepLeg (D : Type 0) : Type 0 where
  pub scaled_quantity : D
  pub entry_price : D

-- A cell of device memory: a leg or a double.
pub data Cell (L D : Type 0) : Type 0 where
  leg : L → Cell L D
  price : D → Cell L D

abbrev pub as_leg : {L D : Type 0} → L → Cell L D → L
as_leg blank (leg l) = l
as_leg blank (price x) = blank

abbrev pub as_price : {L D : Type 0} → D → Cell L D → D
as_price nought (leg l) = nought
as_price nought (price x) = x

-- for (int i = 0; i < n_legs; ++i), with the sums so far.
unfoldable pub each_leg : {S L : Type 0} → (S → L → S) → (ℕ → L) → ℕ → S → S
each_leg add legs zero sums = sums
each_leg add legs (suc i) sums = add (each_leg add legs i sums) (legs i)

module _ {D : Type 0} (ops : Doubles D) where
  abbrev pub terminal_value : SweepLeg D → D → D
  terminal_value l s =
      if l.right == 0
      then ops.fmax (ops.dsub s l.strike) ops.nought
      else if l.right == 1
      then ops.fmax (ops.dsub l.strike s) ops.nought
      else s

  -- One round of the strategy kernel: the payoff and the cost.
  abbrev pub add_leg : D → D × D → SweepLeg D → D × D
  add_leg s (payoff, cost) l = (
    ops.dadd payoff (ops.dmul l.quantity (terminal_value l s)),
    ops.dadd cost (ops.dmul l.quantity l.premium),
  )

  unfoldable pub strategy_point : ℕ → (ℕ → SweepLeg D) → ℕ → D → D
  strategy_point net_of_premium legs n_legs s =
      let (payoff, cost) = each_leg (add_leg s) legs n_legs (ops.nought, ops.nought) in
      if net_of_premium == 0 then payoff else ops.dsub payoff cost

  unfoldable pub futures_point : (ℕ → FuturesSweepLeg D) → ℕ → D → D
  futures_point legs n_legs s =
      each_leg (λ total l. ops.dadd total (ops.dmul l.scaled_quantity (ops.dsub s l.entry_price)))
        legs n_legs ops.nought

module _ {L D : Type 0} (blank : L) (nought : D) (point : (ℕ → L) → ℕ → D → D) where
  -- The kernels: each thread stores the value at its grid prices.
  unfoldable pub grid_kernel : ℕ → ℕ → ℕ → ℕ → ℕ → ℕ → ℕ → Memory (Cell L D) → Memory (Cell L D)
  grid_kernel legs n_legs grid n_grid out stride = grid_stride stride n_grid λ j memory.
      store out j
        (price (point (λ i. as_leg blank (memory legs i)) n_legs (as_price nought (memory grid j))))
        memory

  -- `n_legs > 0 && (err = cudaMemcpy(...)) != cudaSuccess`, and the rest of the function.
  unfoldable pub copy_legs :
      {B : Type 0} → ℕ → List (Cell L D) → ℕ → ℕ → Gpu (Cell L D) B → Gpu (Cell L D) B
  copy_legs dev_legs legs n_legs width rest =
      if ltb 0 n_legs
      then (do checked (Call.copy_in dev_legs 0 legs (extent_of n_legs width)); rest)
      else rest

  unfoldable pub sweep_body :
      ℕ → List (Cell L D) → ℕ → List (Cell L D) → ℕ → List ℕ → Gpu (Cell L D) (List (Cell L D))
  sweep_body width legs n_legs grid n_grid pointers = do
    let dev_legs = get_or pointers 0 0
    let dev_grid = get_or pointers 1 0
    let dev_out = get_or pointers 2 0
    copy_legs dev_legs legs n_legs width (do
      checked (Call.copy_in dev_grid 0 grid (extent_of n_grid 8))
      blocks ← choose_blocks n_grid 256
      launch_and_read blocks 256 (blocks * 256)
          (grid_kernel dev_legs n_legs dev_grid n_grid dev_out (blocks * 256)) dev_out
          (extent_of n_grid 8))

  -- The cells written to `out`. The number of legs is not negative.
  unfoldable pub sweep :
      ℕ → List (Cell L D) → ℕ → List (Cell L D) → ℤ → Gpu (Cell L D) (List (Cell L D))
  sweep width legs n_legs grid n_grid =
      if pos_part n_grid == 0
      then pure []
      else with_buffers
          (extent_of (if n_legs == 0 then 1 else n_legs) width
            ∷ extent_of (pos_part n_grid) 8
            ∷ extent_of (pos_part n_grid) 8
            ∷ [])
          (sweep_body width legs n_legs grid (pos_part n_grid))

module _ {D : Type 0} (ops : Doubles D) where
  abbrev pub blank_leg : SweepLeg D
  blank_leg = record { strike = ops.nought; quantity = ops.nought; premium = ops.nought; right = 0 }

  unfoldable pub strategy_grid :
      List (SweepLeg D)
      → ℕ
      → List D
      → ℤ
      → ℕ
      → Gpu (Cell (SweepLeg D) D) (List (Cell (SweepLeg D) D))
  strategy_grid legs n_legs grid n_grid net_of_premium =
      sweep blank_leg ops.nought (strategy_point ops net_of_premium) 32 (map leg legs) n_legs
        (map price grid) n_grid

  abbrev pub blank_future : FuturesSweepLeg D
  blank_future = record { scaled_quantity = ops.nought; entry_price = ops.nought }

  unfoldable pub futures_grid :
      List (FuturesSweepLeg D)
      → ℕ
      → List D
      → ℤ
      → Gpu (Cell (FuturesSweepLeg D) D) (List (Cell (FuturesSweepLeg D) D))
  futures_grid legs n_legs grid n_grid =
      sweep blank_future ops.nought (futures_point ops) 16 (map leg legs) n_legs (map price grid)
        n_grid
