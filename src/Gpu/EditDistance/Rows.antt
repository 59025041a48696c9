-- ===== src/Gpu/EditDistance/Rows.antt =====
-- The rolling rows of edit_distance_batch_kernel hold Levenshtein's table.
use nimble_cas.Prelude.{
  ℕ, zero, suc, ◌+◌, ◌≤◌, ◌<◌, ◌≡◌, ◌≢◌, sym, ap, ap₂, subst, ◌∙◌, arith, ◌^◌, true, ltb, lt→ltb,
  ◌==◌, Bool-cases, inl, inr, ==_iff,
}
use nimble_cas.Cuda.Wrap.{int_rounds, signed_ltb-small}
use nimble_cas.Gpu.EditDistance.{
  Row, set_cell, least, first_row, next_cell, fill_cells, roll_rows, pair_distance,
}
use nimble_cas.Gpu.EditDistance.Script.{cost, lev, IsLeast, IsLeast-flip, lev-IsLeast}

set_cell_same : (row : Row) (j v : ℕ) → j ≤ 256 → set_cell row j v j ≡ v
set_cell_same row j v h = ground arith

set_cell_other : (row : Row) (j v k : ℕ) → k ≢ j → set_cell row j v k ≡ row k
set_cell_other row j v k h = ground arith

first_row_lem : (m : ℕ) (row : Row) (k : ℕ) → m ≤ 256 → k ≤ m → first_row m row k ≡ k
unfolding first_row
first_row_lem zero row k small h = ground arith
first_row_lem (suc m) row k small h =
    let inside : ltb (suc m) 257 ≡ true = lt→ltb _ _ (omega arith) in
    elim (Bool-cases (k == suc m)) [
      | inl e ↦ rw (inside, e) (sym ((==_iff k (suc m)).0 e))
      | inr e ↦ rw (inside, e) (first_row_lem m row k (omega arith) (ground arith))
    ]

module _ (f g : ℕ → ℕ) (m : ℕ) (small : m ≤ 256) where
  -- A row whose cells hold row i of the table, up to a column.
  IsRow : ℕ → ℕ → Row → Type 0
  IsRow i upto row = (k : ℕ) → k ≤ upto → row k ≡ lev f g i k

  next_cell-lev :
      (i j : ℕ) (prev left : Row)
      → j < m
      → IsRow i m prev
      → IsRow (suc i) j left
      → next_cell (f i) g prev left j ≡ lev f g (suc i) (suc j)
  unfolding next_cell lev IsRow
  next_cell-lev i j prev left h above beside =
      ap₂ least
        (ap₂ (λ a b. least (a + 1) (b + 1)) (above (suc j) (omega arith)) (beside j (omega arith)))
        (ap (λ a. a + cost (f i) (g j)) (above j (omega arith)))

  fill_cells-IsRow :
      (i c : ℕ) (prev curr : Row)
      → c ≤ m
      → IsRow i m prev
      → curr 0 ≡ suc i
      → IsRow (suc i) c (fill_cells (f i) g prev c curr)
  unfolding fill_cells IsRow lev
  fill_cells-IsRow i zero prev curr h above first k below =
      subst (λ t. curr t ≡ lev f g (suc i) t) (omega arith) first
  fill_cells-IsRow i (suc c) prev curr h above first k below =
      let beside = fill_cells-IsRow i c prev curr (omega arith) above first in
      let inside : ltb (suc c) 257 ≡ true = lt→ltb _ _ (omega (arith, small, h)) in
      elim (Bool-cases (k == suc c)) [
        | inl e ↦
            rw (inside, e)
              (next_cell-lev i c prev _ (omega arith) above beside
                ∙ ap (lev f g (suc i)) (sym ((==_iff k (suc c)).0 e)))
        | inr e ↦ rw (inside, e) (beside k (ground arith))
      ]

  roll_rows-IsRow :
      (i : ℕ) (row0 row1 : Row) → IsRow i m (roll_rows f g m i (first_row m row0, row1)).0
  unfolding roll_rows IsRow lev
  roll_rows-IsRow zero row0 row1 k below = first_row_lem m row0 k small below
  roll_rows-IsRow (suc i) row0 row1 k below =
      fill_cells-IsRow i m _ _ (omega arith) (roll_rows-IsRow i row0 row1)
        (set_cell_same (roll_rows f g m i (first_row m row0, row1)).1 0 (suc i) (omega arith)) k
        below

-- Whichever sequence is the longer, and whatever the arrays held, the kernel's distance is the
-- least cost of a script that turns the first sequence into the second, when the lengths are below
-- 2 ^ 31 and one of them is at most 256.
pub pair_distance-IsLeast :
    (row0 row1 : Row) (a : ℕ → ℕ) (la : ℕ) (b : ℕ → ℕ) (lb : ℕ)
    → la < 2 ^ 31
    → lb < 2 ^ 31
    → least la lb ≤ 256
    → IsLeast a b la lb (pair_distance row0 row1 a la b lb)
unfolding pair_distance IsRow
pair_distance-IsLeast row0 row1 a la b lb small_a small_b bound =
    let rounds_a : int_rounds 0 la ≡ la = omega (arith, small_a) in
    let rounds_b : int_rounds 0 lb ≡ lb = omega (arith, small_b) in
    let test_a : ltb la (2 ^ 31) ≡ true = lt→ltb _ _ small_a in
    let test_b : ltb lb (2 ^ 31) ≡ true = lt→ltb _ _ small_b in
    let same = signed_ltb-small la lb small_a small_b in
    elim (Bool-cases (ltb la lb)) [
      | inr e ↦
          rw (same ∙ e, rounds_a, rounds_b, test_b, pair_distance)
            (subst (IsLeast a b la lb)
              (sym
                (roll_rows-IsRow a b lb (ground (arith, e, bound)) la row0 row1 lb (omega arith)))
              (lev-IsLeast a b la lb))
      | inl e ↦
          rw (same ∙ e, rounds_a, rounds_b, test_a, pair_distance)
            (IsLeast-flip (
              subst (IsLeast b a lb la)
                (sym
                  (roll_rows-IsRow b a la (ground (arith, e, bound)) lb row0 row1 la (omega arith)))
                (lev-IsLeast b a lb la)))
    ]
