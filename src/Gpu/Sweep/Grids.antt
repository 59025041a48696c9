-- ===== src/Gpu/Sweep/Grids.antt =====
-- nimblecas_gpu_strategy_grid and nimblecas_gpu_futures_grid: the values that they return.
use nimble_cas.Prelude.{
  ℕ, zero, suc, ◌≤◌, ◌<◌, ◌≡◌, refl, ap, ◌∙◌, List, [], ◌∷◌, ◌==◌, if◌then◌else◌, arith, length,
  get_or, take, map, inl, inr,
}
use nimble_cas.Prelude.Int.{ℤ, pos_part}
use nimble_cas.Cuda.Calls.{Memory, Runtime, Trace, done}
use nimble_cas.Cuda.Memory.{IsFaithful}
use nimble_cas.Cuda.Ledger.{IsSettled}
use nimble_cas.Cuda.Fresh.{with_buffers-Returns}
use nimble_cas.Cuda.Success.{if-Returns}
use nimble_cas.Cuda.Healthy.{IsHealthy}
use nimble_cas.Gpu.Sweep.{
  Doubles, SweepLeg, FuturesSweepLeg, Cell, leg, price, as_leg, as_price, terminal_value,
  futures_point, sweep, strategy_grid, blank_future, futures_grid,
}
use nimble_cas.Gpu.Sweep.Result.{
  fold_left, each_leg-fold_left, sweep_body-Returns, sweep-IsSettled, sweep-completes,
}

get_or-map :
    {L C : Type 0} (f : L → C) (xs : List L) (d : L) (k : ℕ)
    → get_or (map f xs) k (f d) ≡ f (get_or xs k d)
get_or-map f [] d k = refl
get_or-map f (x ∷ xs) d zero = refl
get_or-map f (x ∷ xs) d (suc k) = get_or-map f xs d k

length-map : {L C : Type 0} (f : L → C) (xs : List L) → length (map f xs) ≡ length xs
length-map f [] = refl
length-map f (x ∷ xs) = ap suc (length-map f xs)

get_or-map_price :
    {L D : Type 0} (blank : L) (nought : D) (xs : List D) (j : ℕ)
    → as_price nought (get_or (map price xs) j (leg blank)) ≡ get_or xs j nought
get_or-map_price blank nought [] j = refl
get_or-map_price blank nought (x ∷ xs) zero = refl
get_or-map_price blank nought (x ∷ xs) (suc j) = get_or-map_price blank nought xs j

module _ {D : Type 0} (ops : Doubles D) where
  -- The payoff of a list of legs at a price, and their cost, each summed in the list's order.
  unfoldable pub payoff_at : List (SweepLeg D) → D → D
  payoff_at legs s =
      fold_left (λ sum l. ops.dadd sum (ops.dmul l.quantity (terminal_value ops l s))) ops.nought
        legs

  unfoldable pub cost_of : List (SweepLeg D) → D
  cost_of legs = fold_left (λ sum l. ops.dadd sum (ops.dmul l.quantity l.premium)) ops.nought legs

  abbrev pub strategy_value : ℕ → List (SweepLeg D) → D → D
  strategy_value net_of_premium legs s =
      if net_of_premium == 0 then payoff_at legs s else ops.dsub (payoff_at legs s) (cost_of legs)

  -- The profit of a list of futures at a price, summed in the list's order.
  unfoldable pub futures_value : List (FuturesSweepLeg D) → D → D
  futures_value legs s =
      fold_left (λ sum l. ops.dadd sum (ops.dmul l.scaled_quantity (ops.dsub s l.entry_price)))
        ops.nought legs

  -- On a faithful CUDA runtime, with as many legs and prices as the counts say: when
  -- nimblecas_gpu_futures_grid has returned 0, it has written one value for each price, and value
  -- j is the sum in the legs' order of the scaled quantity times the difference of price j and the
  -- entry price.
  pub futures_grid-futures_value :
      (legs : List (FuturesSweepLeg D)) (n_legs : ℕ) (grid : List D) (n_grid : ℤ)
      {initial : Memory (Cell (FuturesSweepLeg D) D)} (cuda : Runtime (Cell (FuturesSweepLeg D) D))
      (log : Trace (Cell (FuturesSweepLeg D) D)) {v : List (Cell (FuturesSweepLeg D) D)} (j : ℕ)
      → IsFaithful initial cuda
      → n_legs ≤ length legs
      → pos_part n_grid ≤ length grid
      → (futures_grid ops legs n_legs grid n_grid cuda log).0 ≡ done v
      → j < pos_part n_grid
      → (length v ≡ pos_part n_grid)
        × (get_or v j (leg (blank_future ops))
            ≡ price (futures_value (take n_legs legs) (get_or grid j ops.nought)))
  unfolding futures_grid sweep futures_value futures_point
  futures_grid-futures_value legs n_legs grid n_grid cuda log {v} j faithful long_legs long_grid e
        below =
      elim (if-Returns (pos_part n_grid == 0) (record { result = e })) [
        | inl (none, _) ↦ absurd (ground (arith, none, below))
        | inr (_, e1) ↦
            let (pointers, _, three, apart, e2) = with_buffers-Returns _ _ cuda _ faithful e1 in
            let (len, all) =
              sweep_body-Returns (blank_future ops) ops.nought (futures_point ops) (map leg legs)
                n_legs (map price grid) (pos_part n_grid) cuda 16 pointers faithful three apart
                (omega (arith, length-map {C = Cell (FuturesSweepLeg D) D} leg legs))
                (omega (arith, length-map {C = Cell (FuturesSweepLeg D) D} price grid))
                (futures_value (take n_legs legs))
                (λ f s same.
                  each_leg-fold_left
                    (λ sum l. ops.dadd sum (ops.dmul l.scaled_quantity (ops.dsub s l.entry_price)))
                    f legs (blank_future ops) n_legs ops.nought long_legs
                    λ k h.
                      same k h
                      ∙ ap (as_leg (blank_future ops)) (get_or-map leg legs (blank_future ops) k))
                e2 in
            (
              len,
              all j below
                  ∙ ap (λ s. price (futures_value (take n_legs legs) s))
                      (get_or-map_price (blank_future ops) ops.nought grid j),
            )
      ]

  -- On any CUDA runtime, whichever calls fail: from before nimblecas_gpu_strategy_grid to after
  -- it, each non-null device pointer is freed as often as it was allocated, and each host buffer
  -- is unregistered as often as it was registered.
  pub strategy_grid-IsSettled :
      (legs : List (SweepLeg D)) (n_legs : ℕ) (grid : List D) (n_grid : ℤ) (net_of_premium : ℕ)
      (cuda : Runtime (Cell (SweepLeg D) D)) (log : Trace (Cell (SweepLeg D) D))
      → IsSettled log (strategy_grid ops legs n_legs grid n_grid net_of_premium cuda log).1
  unfolding strategy_grid
  strategy_grid-IsSettled legs n_legs grid n_grid net_of_premium cuda log =
      sweep-IsSettled _ _ _ _ _ _ _ _ cuda log

  -- grid
  pub strategy_grid-completes :
      (legs : List (SweepLeg D)) (n_legs : ℕ) (grid : List D) (n_grid : ℤ) (net_of_premium : ℕ)
      (cuda : Runtime (Cell (SweepLeg D) D)) (log : Trace (Cell (SweepLeg D) D))
      → IsHealthy cuda
      → (v : List (Cell (SweepLeg D) D)) × ((strategy_grid ops legs n_legs grid n_grid
            net_of_premium cuda log).0
          ≡ done v)
  unfolding strategy_grid
  strategy_grid-completes legs n_legs grid n_grid net_of_premium cuda log healthy =
      sweep-completes _ _ _ _ _ _ _ _ cuda log healthy

  futures_grid-IsSettled :
      (legs : List (FuturesSweepLeg D)) (n_legs : ℕ) (grid : List D) (n_grid : ℤ)
      (cuda : Runtime (Cell (FuturesSweepLeg D) D)) (log : Trace (Cell (FuturesSweepLeg D) D))
      → IsSettled log (futures_grid ops legs n_legs grid n_grid cuda log).1
  unfolding futures_grid
  futures_grid-IsSettled legs n_legs grid n_grid cuda log = sweep-IsSettled _ _ _ _ _ _ _ _ cuda log

  futures_grid-completes :
      (legs : List (FuturesSweepLeg D)) (n_legs : ℕ) (grid : List D) (n_grid : ℤ)
      (cuda : Runtime (Cell (FuturesSweepLeg D) D)) (log : Trace (Cell (FuturesSweepLeg D) D))
      → IsHealthy cuda
      → (v : List (Cell (FuturesSweepLeg D) D)) × ((futures_grid ops legs n_legs grid n_grid cuda
            log).0
          ≡ done v)
  unfolding futures_grid
  futures_grid-completes legs n_legs grid n_grid cuda log healthy =
      sweep-completes _ _ _ _ _ _ _ _ cuda log healthy
