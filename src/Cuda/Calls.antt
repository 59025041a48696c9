-- ===== src/Cuda/Calls.antt =====
-- src/gpu/*.cu: the calls of the CUDA runtime, and the log of a run.
use nimble_cas.Prelude.{ℕ, ◌*◌, List, ◌∷◌, ◌==◌, if◌then◌else◌}

-- The byte count of a transfer: `static_cast<size_t>(count) * sizeof(T)`.
pub record Extent : Type 0 where
  pub count : ℕ
  pub width : ℕ

abbrev pub extent_of : ℕ → ℕ → Extent
extent_of count width = record { count = count; width = width }

abbrev pub bytes : Extent → ℕ
bytes e = e.count * e.width

-- Device memory: the cell at an offset from an allocation's pointer.
abbrev pub Memory : Type 0 → Type 0
Memory A = ℕ → ℕ → A

abbrev pub store : {A : Type 0} → ℕ → ℕ → A → Memory A → Memory A
store p i v mem q j = if p == q then (if i == j then v else mem q j) else mem q j

module _ (A : Type 0) where
  -- A launch names the blocks, the threads of a block, the units that its kernel runs (the
  -- threads of the grid, or its blocks), and what one of them does to the memory.
  pub data Call : Type 0 where
    malloc : Extent → Call
    free : ℕ → Call
    copy_in : ℕ → ℕ → List A → Extent → Call
    copy_out : ℕ → Extent → Call
    copy_device : ℕ → ℕ → Extent → Call
    memset : ℕ → A → Extent → Call
    launch : ℕ → ℕ → ℕ → (ℕ → Memory A → Memory A) → Call
    get_last_error synchronize get_device get_device_count : Call
    multi_processor_count : ℕ → Call
    host_register : ℕ → Extent → Call
    host_unregister : ℕ → Call

  -- What comes back: the cudaError_t, a pointer or an int written through an argument, the
  -- cells copied out, and the order in which a launch ran its units.
  pub record Reply : Type 0 where
    pub status : ℕ
    pub pointer : ℕ
    pub number : ℕ
    pub cells : List A
    pub order : List ℕ

  -- The newest call first.
  abbrev pub Trace : Type 0
  Trace = List (Call × Reply)

  abbrev pub Runtime : Type 0
  Runtime = Trace → Call → Reply

-- A run ends with a value, or with the code of the first call that failed.
pub data Attempt (B : Type 0) : Type 0 where
  done : B → Attempt B
  failed : ℕ → Attempt B

abbrev pub Gpu : Type 0 → Type 0 → Type 0
Gpu A B = Runtime A → Trace A → Attempt B × Trace A

module _ {A : Type 0} where
  unfoldable pub pure : {B : Type 0} → B → Gpu A B
  pure v cuda log = (done v, log)

  unfoldable pub fail : {B : Type 0} → ℕ → Gpu A B
  fail code cuda log = (failed code, log)

  abbrev pub continue_with :
      {B C : Type 0} → (B → Gpu A C) → Runtime A → Attempt B × Trace A → Attempt C × Trace A
  continue_with next cuda (done v, log) = next v cuda log
  continue_with next cuda (failed code, log) = (failed code, log)

  infixl 5 ◌>>=◌ ◌>>◌
  unfoldable pub ◌>>=◌ : {B C : Type 0} → Gpu A B → (B → Gpu A C) → Gpu A C
  ◌>>=◌ first next cuda log = continue_with next cuda (first cuda log)

  abbrev pub ◌>>◌ : {B C : Type 0} → Gpu A B → Gpu A C → Gpu A C
  first >> next = first >>= λ _. next

  -- A call, whatever it answers.
  unfoldable pub call : Call A → Gpu A (Reply A)
  call c cuda log = (done (cuda log c), (c, cuda log c) ∷ log)

  -- `if ((err = call) != cudaSuccess) { rc = static_cast<int>(err); } else ...`
  unfoldable pub checked : Call A → Gpu A (Reply A)
  checked c cuda log = (
    if (cuda log c).status == 0 then done (cuda log c) else failed (cuda log c).status,
    (c, cuda log c) ∷ log,
  )
