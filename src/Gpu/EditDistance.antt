-- ===== src/Gpu/EditDistance.antt =====
-- src/gpu/gpu_kernels.cu: edit_distance_batch_kernel and nimblecas_gpu_edit_distance_batch.
-- The distances stay below 2 ^ 31, so that no `int` of the kernel wraps; a symbol is its bit
-- pattern, since it is only compared.
pub mod Buffers
pub mod Result
pub mod Rows
pub mod Script
use nimble_cas.Prelude.{
  ℕ, zero, suc, ◌+◌, ◌-◌, ◌*◌, List, [], ◌∷◌, ◌%◌, ◌^◌, ◌&&◌, ltb, ◌==◌, if◌then◌else◌, get_or,
}
use nimble_cas.Prelude.Int.{ℤ, pos_part}
use nimble_cas.Cuda.Calls.{extent_of, Memory, store, Call, Gpu, pure, ◌>>=◌, ◌>>◌, checked}
use nimble_cas.Cuda.Host.{HostBuffer, with_pinned, with_buffers, choose_blocks, launch_and_read}
use nimble_cas.Cuda.Wrap.{int_grid_stride, int_rounds, signed_ltb}

-- One of the two local arrays.
abbrev pub Row : Type 0
Row = ℕ → ℕ

-- kMaxEditLen + 1 cells: a store beyond them, which is undefined in C++, is lost.
abbrev pub set_cell : Row → ℕ → ℕ → Row
set_cell row j v k = if ltb j 257 && (k == j) then v else row k

abbrev pub least : ℕ → ℕ → ℕ
least a b = if ltb b a then b else a

-- for (int j = 0; j <= col_len; ++j) { prev[j] = j; }
unfoldable pub first_row : ℕ → Row → Row
first_row zero prev = set_cell prev 0 0
first_row (suc j) prev = set_cell (first_row j prev) (suc j) (suc j)

-- The cell j + 1 of a row, from the row above and the cell to its left.
unfoldable pub next_cell : ℕ → (ℕ → ℕ) → Row → Row → ℕ → ℕ
next_cell ri col_seq prev curr j =
    let cost = if ri == col_seq j then 0 else 1 in
    let del = prev (suc j) + 1 in
    let ins = curr j + 1 in let sub = prev j + cost in least (least del ins) sub

-- for (int j = 1; j <= col_len; ++j)
unfoldable pub fill_cells : ℕ → (ℕ → ℕ) → Row → ℕ → Row → Row
fill_cells ri col_seq prev zero curr = curr
fill_cells ri col_seq prev (suc j) curr =
    let left = fill_cells ri col_seq prev j curr in
    set_cell left (suc j) (next_cell ri col_seq prev left j)

-- for (int i = 1; i <= row_len; ++i), with the two rows swapped after each round.
unfoldable pub roll_rows : (ℕ → ℕ) → (ℕ → ℕ) → ℕ → ℕ → Row × Row → Row × Row
roll_rows row_seq col_seq col_len zero rows = rows
roll_rows row_seq col_seq col_len (suc i) rows =
    let (prev, curr) = roll_rows row_seq col_seq col_len i rows in
    (fill_cells (row_seq i) col_seq prev col_len (set_cell curr 0 (suc i)), prev)

-- The distance of a pair of sequences, given their lengths, which are bit patterns, and the arrays'
-- initial values.
unfoldable pub pair_distance : Row → Row → (ℕ → ℕ) → ℕ → (ℕ → ℕ) → ℕ → ℕ
pair_distance row0 row1 a a_raw b b_raw =
    let row_seq = if signed_ltb a_raw b_raw then b else a in
    let col_seq = if signed_ltb a_raw b_raw then a else b in
    let row_len = if signed_ltb a_raw b_raw then b_raw else a_raw in
    let col_len = if signed_ltb a_raw b_raw then a_raw else b_raw in
    let first = if ltb col_len (2 ^ 31) then first_row col_len row0 else row0 in
    (roll_rows row_seq col_seq (int_rounds 0 col_len) (int_rounds 0 row_len) (first, row1)).0
      col_len

-- The value that the thread of the pair p stores. The arrays' initial values do not matter.
unfoldable pub edit_distance_of : ℕ → ℕ → ℕ → ℕ → ℕ → Memory ℕ → ℕ
edit_distance_of a_flat a_off b_flat b_off p memory =
    let a_begin = memory a_off p in
    let a_raw = (memory a_off (suc p) + 2 ^ 32 - a_begin) % 2 ^ 32 in
    let b_begin = memory b_off p in
    let b_raw = (memory b_off (suc p) + 2 ^ 32 - b_begin) % 2 ^ 32 in
    pair_distance (λ j. 0) (λ j. 0) (λ k. memory a_flat (a_begin + k)) a_raw
      (λ k. memory b_flat (b_begin + k)) b_raw

unfoldable pub edit_distance_batch_kernel : ℕ → ℕ → ℕ → ℕ → ℕ → ℕ → ℕ → ℕ → Memory ℕ → Memory ℕ
edit_distance_batch_kernel a_flat a_off b_flat b_off pairs out stride =
    int_grid_stride stride pairs
      λ p memory. store out p (edit_distance_of a_flat a_off b_flat b_off p memory) memory

-- A zero-length flattened array still needs a valid device allocation.
abbrev pub or_one : ℕ → ℕ
or_one count = if count == 0 then 1 else count

unfoldable pub edit_distance_body : List ℕ → List ℕ → List ℕ → List ℕ → ℕ → List ℕ → Gpu ℕ (List ℕ)
edit_distance_body a_flat a_off b_flat b_off pairs pointers = do
  let dev_a = get_or pointers 0 0
  let dev_aoff = get_or pointers 1 0
  let dev_b = get_or pointers 2 0
  let dev_boff = get_or pointers 3 0
  let dev_out = get_or pointers 4 0
  checked (Call.copy_in dev_a 0 a_flat (extent_of (get_or a_off pairs 0) 4))
  checked (Call.copy_in dev_aoff 0 a_off (extent_of (pairs + 1) 4))
  checked (Call.copy_in dev_b 0 b_flat (extent_of (get_or b_off pairs 0) 4))
  checked (Call.copy_in dev_boff 0 b_off (extent_of (pairs + 1) 4))
  blocks ← choose_blocks pairs 256
  launch_and_read blocks 256 (blocks * 256)
      (edit_distance_batch_kernel dev_a dev_aoff dev_b dev_boff pairs dev_out (blocks * 256))
      dev_out (extent_of pairs 4)

unfoldable pub edit_distance_on_device :
    HostBuffer ℕ → List ℕ → HostBuffer ℕ → List ℕ → ℕ → ℕ → Gpu ℕ (List ℕ)
edit_distance_on_device a_flat a_off b_flat b_off pairs out =
    let a_flat_len = get_or a_off pairs 0 in
    let b_flat_len = get_or b_off pairs 0 in
    with_pinned a_flat.address (extent_of a_flat_len 4) (
      with_pinned b_flat.address (extent_of b_flat_len 4) (
        with_pinned out (extent_of pairs 4) (
          with_buffers
            (extent_of (or_one a_flat_len) 4
              ∷ extent_of (pairs + 1) 4
              ∷ extent_of (or_one b_flat_len) 4
              ∷ extent_of (pairs + 1) 4
              ∷ extent_of pairs 4
              ∷ [])
            (edit_distance_body a_flat.content a_off b_flat.content b_off pairs))))

-- The cells written to `out`, whose address is the last argument.
unfoldable pub edit_distance_batch :
    HostBuffer ℕ → List ℕ → HostBuffer ℕ → List ℕ → ℤ → ℕ → Gpu ℕ (List ℕ)
edit_distance_batch a_flat a_off b_flat b_off pairs out =
    if pos_part pairs == 0
    then pure []
    else edit_distance_on_device a_flat a_off b_flat b_off (pos_part pairs) out
