-- ===== src/Gpu/Bfs.antt =====
-- src/gpu/gpu_kernels.cu: bfs_kernel and nimblecas_gpu_bfs.
pub mod Buffers
use nimble_cas.Prelude.{
  ℕ, zero, suc, ◌+◌, ◌-◌, ◌*◌, List, [], ◌∷◌, Bool, true, false, ◌&&◌, leb, ltb, ◌==◌,
  if◌then◌else◌, get_or,
}
use nimble_cas.Prelude.Int.{ℤ, pos_part, neg_part}
use nimble_cas.Cuda.Calls.{extent_of, Memory, store, Call, Gpu, pure, ◌>>=◌, ◌>>◌, call, checked}
use nimble_cas.Cuda.Host.{HostBuffer, with_pinned, with_buffers, choose_blocks}
use nimble_cas.Cuda.Wrap.{int_grid_stride, int_rounds, int_suc}

-- The `int` -1: an unvisited vertex.
abbrev pub unvisited : ℕ
unvisited = 4294967295

-- atomicCAS(&dist[nbr], -1, level + 1), and `*changed = 1` when the claim succeeded.
unfoldable pub claim : ℕ → ℕ → ℕ → ℕ → Memory ℕ → Memory ℕ
claim dist changed level nbr memory =
    if memory dist nbr == unvisited
    then store changed 0 1 (store dist nbr (level + 1) memory)
    else memory

-- for (int e = begin; e < end; ++e)
unfoldable pub relax_edges : ℕ → ℕ → ℕ → ℕ → ℕ → ℕ → Memory ℕ → Memory ℕ
relax_edges col_indices dist changed level e zero memory = memory
relax_edges col_indices dist changed level e (suc edges) memory =
    relax_edges col_indices dist changed level (int_suc e) edges
      (claim dist changed level (memory col_indices e) memory)

unfoldable pub bfs_vertex : ℕ → ℕ → ℕ → ℕ → ℕ → ℕ → Memory ℕ → Memory ℕ
bfs_vertex row_offsets col_indices level dist changed v memory =
    if memory dist v == level
    then (let begin = memory row_offsets v in
        relax_edges col_indices dist changed level begin
          (int_rounds begin (memory row_offsets (suc v))) memory)
    else memory

unfoldable pub bfs_kernel : ℕ → ℕ → ℕ → ℕ → ℕ → ℕ → ℕ → ℕ → Memory ℕ → Memory ℕ
bfs_kernel row_offsets col_indices num_vertices level dist changed stride =
    int_grid_stride stride num_vertices (bfs_vertex row_offsets col_indices level dist changed)

-- The host loop over the levels, with the levels that are left.
unfoldable pub bfs_levels : ℕ → ℕ → ℕ → ℕ → ℕ → ℕ → ℕ → ℕ → Gpu ℕ (Unit {0})
bfs_levels row_offsets col_indices num_vertices dist changed blocks level zero = pure tt
bfs_levels row_offsets col_indices num_vertices dist changed blocks level (suc left) = do
  checked (Call.copy_in changed 0 (0 ∷ []) (extent_of 1 4))
  call (
      Call.launch blocks 256 (blocks * 256)
        (bfs_kernel row_offsets col_indices num_vertices level dist changed (blocks * 256)))
  checked Call.get_last_error
  checked Call.synchronize
  reply ← checked (Call.copy_out changed (extent_of 1 4))
  if get_or reply.cells 0 0 == 0
      then pure tt
      else bfs_levels row_offsets col_indices num_vertices dist changed blocks (suc level) left

-- An out-of-range source leaves the graph unreachable.
unfoldable pub seed_source : ℤ → ℕ → ℕ → Gpu ℕ (Unit {0})
seed_source source num_vertices dist =
    if ((neg_part source == 0) && ltb (pos_part source) num_vertices)
    then (do checked (Call.copy_in dist (pos_part source) (0 ∷ []) (extent_of 1 4)); pure tt)
    else pure tt

unfoldable pub copy_edges : ℕ → List ℕ → ℕ → Gpu ℕ (Unit {0})
copy_edges col_indices cells num_edges =
    if ltb 0 num_edges
    then (do checked (Call.copy_in col_indices 0 cells (extent_of num_edges 4)); pure tt)
    else pure tt

unfoldable pub bfs_body : List ℕ → List ℕ → ℕ → ℕ → ℤ → List ℕ → Gpu ℕ (List ℕ)
bfs_body row_offsets col_indices num_vertices num_edges source pointers = do
  let dev_row = get_or pointers 0 0
  let dev_col = get_or pointers 1 0
  let dev_dist = get_or pointers 2 0
  let dev_changed = get_or pointers 3 0
  checked (Call.copy_in dev_row 0 row_offsets (extent_of (num_vertices + 1) 4))
  copy_edges dev_col col_indices num_edges
  checked (Call.memset dev_dist unvisited (extent_of num_vertices 4))
  seed_source source num_vertices dev_dist
  blocks ← choose_blocks num_vertices 256
  bfs_levels dev_row dev_col num_vertices dev_dist dev_changed blocks 0 num_vertices
  reply ← checked (Call.copy_out dev_dist (extent_of num_vertices 4))
  pure reply.cells

-- The cells written to `dist`, whose address is the last argument. The number of edges is not
-- negative.
unfoldable pub bfs : HostBuffer ℕ → HostBuffer ℕ → ℤ → ℕ → ℤ → ℕ → Gpu ℕ (List ℕ)
bfs row_offsets col_indices num_vertices num_edges source dist =
    let vertices = pos_part num_vertices in
    if vertices == 0
    then pure []
    else with_pinned row_offsets.address (extent_of (vertices + 1) 4) (
        with_pinned col_indices.address (extent_of num_edges 4) (
          with_pinned dist (extent_of vertices 4) (
            with_buffers
              (extent_of (vertices + 1) 4
                ∷ extent_of (if num_edges == 0 then 1 else num_edges) 4
                ∷ extent_of vertices 4
                ∷ extent_of 1 4
                ∷ [])
              (bfs_body row_offsets.content col_indices.content vertices num_edges source))))
