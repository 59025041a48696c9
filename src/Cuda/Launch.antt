-- ===== src/Cuda/Launch.antt =====
-- What the checked calls of a host function leave in device memory, and what it reads back.
use nimble_cas.Prelude.{
  ltb, lt→ltb, true, if◌then◌else◌, ◌≤◌, ◌<◌, ◌+◌, ◌-◌, ◌^◌, ◌*◌, Bool-cases, inl, inr, arith,
  length, get_or, ◌==◌, ==_iff, ℕ, ◌≡◌, refl, sym, ap, subst, ◌∙◌, List, take,
}
use nimble_cas.Cuda.Calls.{
  extent_of, store, Extent, Memory, Call, Reply, Trace, Runtime, Gpu, checked, call, ◌>>=◌,
}
use nimble_cas.Cuda.Host.{launch_and_read, choose_blocks}
use nimble_cas.Cuda.Memory.{
  contents, effect, overlay, fill, read, get_or-read, length-read, IsFaithful, store_same,
  store_beside,
}
use nimble_cas.Cuda.Grid.{run_units, grid_stride, IsSchedule, IsRound, grid_stride-covers}
use nimble_cas.Cuda.Wrap.{int_choose_blocks, int_grid_stride, run_int_units}
use nimble_cas.Cuda.Success.{
  Returns, >>=-Returns, pure-Returns, checked-Returns, choose_blocks-done, done_injective,
}

module _ {A : Type 0} (initial : Memory A) {cuda : Runtime A} {log : Trace A} where
  pub checked-effect :
      (c : Call A) {r : Reply A}
      → Returns (checked c) cuda log r
      → contents initial (checked c cuda log).1 ≡ effect c (cuda log c) (contents initial log)
  unfolding contents
  checked-effect c e = let (_, _, same) = checked-Returns e in ap (contents initial) same

module _ {A : Type 0} (initial : Memory A) {cuda : Runtime A} {log : Trace A} where
  -- A copy to the device, and the rest of the function.
  pub copy_in-Returns :
      {B : Type 0} (p offset : ℕ) (cells : List A) (extent : Extent) {next : Reply A → Gpu A B}
      {v : B}
      → Returns (checked (Call.copy_in p offset cells extent) >>= next) cuda log v
      → (reply : Reply A) × (after : Trace A) × Returns (next reply) cuda after v
        × (contents initial after
            ≡ overlay p offset (take extent.count cells) (contents initial log))
  copy_in-Returns p offset cells extent e =
      let (reply, first, rest) = >>=-Returns e in (reply, _, rest, checked-effect initial _ first)

  pub memset-Returns :
      {B : Type 0} (p : ℕ) (v : A) (extent : Extent) {next : Reply A → Gpu A B} {u : B}
      → Returns (checked (Call.memset p v extent) >>= next) cuda log u
      → (reply : Reply A) × (after : Trace A) × Returns (next reply) cuda after u
        × (contents initial after ≡ fill p v extent.count (contents initial log))
  memset-Returns p v extent e =
      let (reply, first, rest) = >>=-Returns e in (reply, _, rest, checked-effect initial _ first)

  -- A checked call, and the rest of the function.
  pub checked->>=-Returns :
      {B : Type 0} (c : Call A) {next : Reply A → Gpu A B} {v : B}
      → Returns (checked c >>= next) cuda log v
      → (reply : Reply A) × (after : Trace A) × Returns (next reply) cuda after v
        × (contents initial after ≡ effect c (cuda log c) (contents initial log))
  checked->>=-Returns c e =
      let (reply, first, rest) = >>=-Returns e in (reply, _, rest, checked-effect initial _ first)

  -- A launch, and the rest of the function.
  pub launch-Returns :
      {B : Type 0} (blocks threads units : ℕ) (kernel : ℕ → Memory A → Memory A)
      {next : Reply A → Gpu A B} {v : B}
      → IsFaithful initial cuda
      → Returns (call (Call.launch blocks threads units kernel) >>= next) cuda log v
      → (reply : Reply A) × (after : Trace A) × (order : List ℕ) × Returns (next reply) cuda after v
        × IsSchedule units order
        × (contents initial after ≡ run_units kernel order (contents initial log))
  unfolding call contents
  launch-Returns blocks threads units kernel faithful e =
      let (reply, first, rest) = >>=-Returns e in
      (
        reply,
        _,
        (cuda log (Call.launch blocks threads units kernel)).order,
        rest,
        faithful.schedule log blocks threads units kernel,
        refl,
      )

  -- A copy to the host, and the rest of the function.
  pub copy_out-Returns :
      {B : Type 0} (p : ℕ) (extent : Extent) {next : Reply A → Gpu A B} {v : B}
      → IsFaithful initial cuda
      → Returns (checked (Call.copy_out p extent) >>= next) cuda log v
      → (reply : Reply A) × (after : Trace A) × Returns (next reply) cuda after v
        × (contents initial after ≡ contents initial log)
        × (reply.cells ≡ read (contents initial log) p 0 extent.count)
  copy_out-Returns p extent faithful e =
      let (reply, first, rest) = >>=-Returns e in
      let (good, same, _) = checked-Returns first in
      (
        reply,
        _,
        rest,
        checked-effect initial _ first,
        ap (λ (r : Reply A). r.cells) (sym same) ∙ faithful.copied log p extent good,
      )

  -- The grid is chosen, and the rest of the function.
  pub choose_blocks-Returns :
      {B : Type 0} (work threads : ℕ) {next : ℕ → Gpu A B} {v : B}
      → Returns (choose_blocks work threads >>= next) cuda log v
      → (blocks : ℕ) × (after : Trace A) × Returns (next blocks) cuda after v
        × (1 ≤ blocks)
        × (contents initial after ≡ contents initial log)
  choose_blocks-Returns work threads {next} {v} e =
      let (chosen, first, rest) = >>=-Returns e in
      let (blocks, after, same, kept, pos, _) = choose_blocks-done work threads cuda log in
      let agree : blocks ≡ chosen = done_injective (sym (ap (λ t. t.0) same) ∙ first.result) in
      (
        chosen,
        (choose_blocks work threads cuda log).1,
        rest,
        subst (λ t. 1 ≤ t) agree pos,
        ap (λ t. contents initial t.1) same ∙ kept initial,
      )

  -- A grid of blocks of 256 threads has fewer than 256 threads beyond the work.
  pub choose_blocks-fits :
      {B : Type 0} (work : ℕ) {next : ℕ → Gpu A B} {v : B}
      → Returns (choose_blocks work 256 >>= next) cuda log v
      → (blocks : ℕ) × (after : Trace A) × Returns (next blocks) cuda after v
        × (1 ≤ blocks)
        × (blocks * 256 ≤ work + 256)
        × (contents initial after ≡ contents initial log)
  choose_blocks-fits work {next} {v} e =
      let (chosen, first, rest) = >>=-Returns e in
      let (blocks, after, same, kept, pos, fits) = choose_blocks-done work 256 cuda log in
      let agree : blocks ≡ chosen = done_injective (sym (ap (λ t. t.0) same) ∙ first.result) in
      (
        chosen,
        (choose_blocks work 256 cuda log).1,
        rest,
        subst (λ t. 1 ≤ t) agree pos,
        subst (λ t. t * 256 ≤ work + 256) agree (ground (arith, fits)),
        ap (λ t. contents initial t.1) same ∙ kept initial,
      )

  pub int_choose_blocks-fits :
      {B : Type 0} (work : ℕ) {next : ℕ → Gpu A B} {v : B}
      → 2 * work + 256 ≤ 2 ^ 31
      → Returns (int_choose_blocks work 256 >>= next) cuda log v
      → (blocks : ℕ) × (after : Trace A) × Returns (next blocks) cuda after v
        × (1 ≤ blocks)
        × (blocks * 256 ≤ work + 256)
        × (contents initial after ≡ contents initial log)
  int_choose_blocks-fits work {next} {v} room e =
      let no_wrap : ltb (work + 256 - 1) (2 ^ 31) ≡ true = lt→ltb _ _ (omega (arith, room)) in
      choose_blocks-fits work (
        subst (λ t. Returns (choose_blocks (if t then work else 0) 256 >>= next) cuda log v) no_wrap
          e)

  -- What is read back is what the kernel's units have left, run in an order of the runtime's.
  pub launch_and_read-Returns :
      (blocks threads units : ℕ) (kernel : ℕ → Memory A → Memory A) (out : ℕ) (extent : Extent)
      {v : List A}
      → IsFaithful initial cuda
      → Returns (launch_and_read blocks threads units kernel out extent) cuda log v
      → (order : List ℕ) × IsSchedule units order
        × (v ≡ read (run_units kernel order (contents initial log)) out 0 extent.count)
  unfolding launch_and_read call contents
  launch_and_read-Returns blocks threads units kernel out extent faithful e =
      let launch = Call.launch blocks threads units kernel in
      let (_, _, e1) = >>=-Returns e in
      let (_, f2, e2) = >>=-Returns e1 in
      let (_, f3, e3) = >>=-Returns e2 in
      let (reply, f4, e4) = >>=-Returns e3 in
      let (good, same, _) = checked-Returns f4 in
      (
        (cuda log launch).order,
        faithful.schedule log blocks threads units kernel,
        sym (pure-Returns e4)
            ∙ ap (λ (r : Reply A). r.cells) (sym same)
            ∙ faithful.copied _ out extent good
            ∙ ap (λ memory. read memory out 0 extent.count)
                (checked-effect initial _ f3 ∙ checked-effect initial _ f2),
      )

-- A kernel that stores one cell for each index of its loop.
module _ {A : Type 0} (out n : ℕ) (value : ℕ → Memory A → A) (Good : ℕ → A → Type 0)
    {Kept : Memory A → Type 0} where
  store-IsRound :
      ((i : ℕ) (v : A) (memory : Memory A) → Kept memory → Kept (store out i v memory))
      → ((i : ℕ) (memory : Memory A) → i < n → Kept memory → Good i (value i memory))
      → IsRound n
          (λ i memory. store out i (value i memory) memory)
          Kept
          (λ i memory. Good i (memory out i))
  store-IsRound stable right = record {
    keeps = λ i memory below k. stable i (value i memory) memory k;
    does = λ i memory below k.
        subst (Good i) (sym (store_same out i (value i memory) memory)) (right i memory below k);
    undoes_none = λ i j memory below k d. elim (Bool-cases (j == i)) [
      | inl e ↦
          let same : j ≡ i = (==_iff j i).0 e in
          subst (λ t. Good t (store out i (value i memory) memory out t)) (sym same)
            (subst (Good i) (sym (store_same out i (value i memory) memory))
              (right i memory below k))
      | inr e ↦
          subst (Good j)
            (sym (
              store_beside out i (value i memory) memory j
                (λ same. absurd (ground (arith, e, same)))))
            d
    ];
  }

  -- A launch on a grid of threads that do the rounds of such a kernel.
  launched_store-Returns :
      {initial : Memory A} {cuda : Runtime A} {log : Trace A} (blocks threads width : ℕ)
      {v : List A} (kernel : ℕ → Memory A → Memory A)
      → ((order : List ℕ)
          → IsSchedule (blocks * threads) order
          → run_units kernel order (contents initial log)
            ≡ run_units
                (grid_stride (blocks * threads) n λ i memory. store out i (value i memory) memory)
                order
                (contents initial log))
      → IsFaithful initial cuda
      → ((i : ℕ) (v : A) (memory : Memory A) → Kept memory → Kept (store out i v memory))
      → ((i : ℕ) (memory : Memory A) → i < n → Kept memory → Good i (value i memory))
      → 0 < blocks * threads
      → Kept (contents initial log)
      → Returns
          (launch_and_read blocks threads (blocks * threads) kernel out (extent_of n width))
          cuda
          log
          v
      → (length v ≡ n) × ((i : ℕ) (d : A) → i < n → Good i (get_or v i d))
  launched_store-Returns {initial} {log} blocks threads width kernel same faithful stable right pos
        k e =
      let (order, schedule, read_back) =
        launch_and_read-Returns initial blocks threads (blocks * threads) _ out _ faithful e in
      let (_, all) =
        grid_stride-covers n (blocks * threads) (store-IsRound stable right) order
          (contents initial log) schedule pos k in
      (
        ap length read_back ∙ length-read _ out 0 n,
        λ i d below.
            subst (Good i)
              (sym (
                ap (λ cells. get_or cells i d) read_back
                ∙ get_or-read _ out 0 n i d below
                ∙ ap (run_units _ order (contents initial log) out) (omega arith)
                ∙ ap (λ (memory : Memory A). memory out i) (same order schedule)))
              (all i below),
      )

  -- Such a kernel, launched on a grid and read back.
  pub launch_store-Returns :
      {initial : Memory A} {cuda : Runtime A} {log : Trace A} (blocks threads width : ℕ)
      {v : List A}
      → IsFaithful initial cuda
      → ((i : ℕ) (v : A) (memory : Memory A) → Kept memory → Kept (store out i v memory))
      → ((i : ℕ) (memory : Memory A) → i < n → Kept memory → Good i (value i memory))
      → 0 < blocks * threads
      → Kept (contents initial log)
      → Returns
          (launch_and_read blocks threads
            (blocks * threads)
            (grid_stride (blocks * threads) n λ i memory. store out i (value i memory) memory)
            out
            (extent_of n width))
          cuda
          log
          v
      → (length v ≡ n) × ((i : ℕ) (d : A) → i < n → Good i (get_or v i d))
  launch_store-Returns blocks threads width =
      launched_store-Returns blocks threads width _ (λ order schedule. refl)

  -- The same, where the kernel's index is an `int`.
  pub launch_int_store-Returns :
      {initial : Memory A} {cuda : Runtime A} {log : Trace A} (blocks threads width : ℕ)
      {v : List A}
      → IsFaithful initial cuda
      → ((i : ℕ) (v : A) (memory : Memory A) → Kept memory → Kept (store out i v memory))
      → ((i : ℕ) (memory : Memory A) → i < n → Kept memory → Good i (value i memory))
      → 0 < blocks * threads
      → n + blocks * threads ≤ 2 ^ 31
      → Kept (contents initial log)
      → Returns
          (launch_and_read blocks threads
            (blocks * threads)
            (int_grid_stride (blocks * threads) n λ i memory. store out i (value i memory) memory)
            out
            (extent_of n width))
          cuda
          log
          v
      → (length v ≡ n) × ((i : ℕ) (d : A) → i < n → Good i (get_or v i d))
  launch_int_store-Returns blocks threads width faithful stable right pos room =
      launched_store-Returns blocks threads width _
        (λ order schedule. run_int_units n (blocks * threads) _ order _ room pos schedule.no_other)
        faithful stable right pos
