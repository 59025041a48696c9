-- ===== src/Cuda/Memory.antt =====
-- src/gpu/*.cu: what device memory holds after the calls of a log.
use nimble_cas.Prelude.{
  ℕ, zero, suc, ◌+◌, ◌≤◌, ◌<◌, ◌≡◌, ◌≢◌, refl, ap, ◌∙◌, List, [], ◌∷◌, Bool, true, false, ◌==◌,
  if◌then◌else◌, arith, length, get_or, take, map, ap₂,
}
use nimble_cas.Cuda.Calls.{Extent, Memory, store, Call, Reply, Trace, Runtime}
use nimble_cas.Cuda.Grid.{run_units, IsSchedule}

module _ {A : Type 0} where
  -- Cells copied in from an offset on.
  unfoldable pub overlay : ℕ → ℕ → List A → Memory A → Memory A
  overlay p offset [] memory = memory
  overlay p offset (x ∷ xs) memory = overlay p (suc offset) xs (store p offset x memory)

  unfoldable pub fill : ℕ → A → ℕ → Memory A → Memory A
  fill p v zero memory = memory
  fill p v (suc count) memory = store p count v (fill p v count memory)

  -- The cells copied out, from an offset on.
  unfoldable pub read : Memory A → ℕ → ℕ → ℕ → List A
  read memory p offset zero = []
  read memory p offset (suc count) = memory p offset ∷ read memory p (suc offset) count

  abbrev pub effect : Call A → Reply A → Memory A → Memory A
  effect (Call.copy_in p offset cells extent) r memory =
      overlay p offset (take extent.count cells) memory
  effect (Call.copy_device p q extent) r memory = overlay p 0 (read memory q 0 extent.count) memory
  effect (Call.memset p v extent) r memory = fill p v extent.count memory
  effect (Call.launch blocks threads units kernel) r memory = run_units kernel r.order memory
  effect _ r memory = memory

  unfoldable pub contents : Memory A → Trace A → Memory A
  contents initial [] = initial
  contents initial ((c, r) ∷ log) = effect c r (contents initial log)

  -- Whether a pointer was allocated, and not freed since.
  unfoldable pub is_live : ℕ → Trace A → Bool
  is_live p [] = false
  is_live p ((Call.malloc extent, r) ∷ log) = if r.pointer == p then true else is_live p log
  is_live p ((Call.free q, r) ∷ log) = if q == p then false else is_live p log
  is_live p ((_, r) ∷ log) = is_live p log

  -- What the CUDA documentation promises of the runtime: an allocation is apart from the live ones,
  -- a launch runs each of its units once, and a copy to the host gives what the memory holds.
  pub record IsFaithful (initial : Memory A) (cuda : Runtime A) : Type 0 where
    pub fresh :
        (log : Trace A) (extent : Extent)
        → (cuda log (Call.malloc extent)).status ≡ 0
        → is_live (cuda log (Call.malloc extent)).pointer log ≡ false
    pub schedule :
        (log : Trace A) (blocks threads units : ℕ) (kernel : ℕ → Memory A → Memory A)
        → IsSchedule units (cuda log (Call.launch blocks threads units kernel)).order
    pub copied :
        (log : Trace A) (p : ℕ) (extent : Extent)
        → (cuda log (Call.copy_out p extent)).status ≡ 0
        → (cuda log (Call.copy_out p extent)).cells ≡ read (contents initial log) p 0 extent.count

  pub store_same : (p i : ℕ) (v : A) (memory : Memory A) → store p i v memory p i ≡ v
  store_same p i v memory = ground arith

  pub store_other :
      (p i : ℕ) (v : A) (memory : Memory A) (q j : ℕ) → q ≢ p → store p i v memory q j ≡ memory q j
  store_other p i v memory q j h = ground arith

  pub store_beside :
      (p i : ℕ) (v : A) (memory : Memory A) (j : ℕ) → j ≢ i → store p i v memory p j ≡ memory p j
  store_beside p i v memory j h = ground arith

  pub overlay_other :
      (p offset : ℕ) (cells : List A) (memory : Memory A) (q j : ℕ)
      → q ≢ p
      → overlay p offset cells memory q j ≡ memory q j
  unfolding overlay
  overlay_other p offset [] memory q j h = refl
  overlay_other p offset (x ∷ xs) memory q j h =
      overlay_other p (suc offset) xs (store p offset x memory) q j h
      ∙ store_other p offset x memory q j h

  overlay_below :
      (p offset : ℕ) (cells : List A) (memory : Memory A) (j : ℕ)
      → j < offset
      → overlay p offset cells memory p j ≡ memory p j
  unfolding overlay
  overlay_below p offset [] memory j h = refl
  overlay_below p offset (x ∷ xs) memory j h =
      overlay_below p (suc offset) xs (store p offset x memory) j (omega arith)
      ∙ store_beside p offset x memory j (omega arith)

  pub overlay_at :
      (p offset : ℕ) (cells : List A) (memory : Memory A) (i : ℕ) (d : A)
      → i < length cells
      → overlay p offset cells memory p (offset + i) ≡ get_or cells i d
  unfolding overlay
  overlay_at p offset [] memory i d h = absurd (omega arith)
  overlay_at p offset (x ∷ xs) memory zero d h =
      ap (overlay p (suc offset) xs (store p offset x memory) p) (omega arith)
      ∙ overlay_below p (suc offset) xs (store p offset x memory) offset (omega arith)
      ∙ store_same p offset x memory
  overlay_at p offset (x ∷ xs) memory (suc i) d h =
      ap (overlay p (suc offset) xs (store p offset x memory) p) (omega arith)
      ∙ overlay_at p (suc offset) xs (store p offset x memory) i d (omega arith)

  pub get_or-take :
      (n i : ℕ) (xs : List A) (d : A)
      → i < n
      → i < length xs
      → (get_or (take n xs) i d ≡ get_or xs i d) × (i < length (take n xs))
  get_or-take zero i xs d h k = absurd (omega arith)
  get_or-take (suc n) i [] d h k = absurd (omega arith)
  get_or-take (suc n) zero (x ∷ xs) d h k = (refl, omega arith)
  get_or-take (suc n) (suc i) (x ∷ xs) d h k =
      let (e, l) = get_or-take n i xs d (omega arith) (omega arith) in (e, omega (arith, l))

  -- A buffer copied in whole.
  pub copied_cell :
      (p n i : ℕ) (cells : List A) (memory : Memory A) (d : A)
      → i < n
      → n ≤ length cells
      → overlay p 0 (take n cells) memory p i ≡ get_or cells i d
  copied_cell p n i cells memory d h k =
      let (e, l) = get_or-take n i cells d h (omega arith) in
      ap (overlay p 0 (take n cells) memory p) (omega arith)
      ∙ overlay_at p 0 (take n cells) memory i d l
      ∙ e

  pub get_or-read :
      (memory : Memory A) (p offset n i : ℕ) (d : A)
      → i < n
      → get_or (read memory p offset n) i d ≡ memory p (offset + i)
  unfolding read
  get_or-read memory p offset zero i d h = absurd (omega arith)
  get_or-read memory p offset (suc n) zero d h = ap (memory p) (omega arith)
  get_or-read memory p offset (suc n) (suc i) d h =
      get_or-read memory p (suc offset) n i d (omega arith) ∙ ap (memory p) (omega arith)

  pub length-read : (memory : Memory A) (p offset n : ℕ) → length (read memory p offset n) ≡ n
  unfolding read
  length-read memory p offset zero = refl
  length-read memory p offset (suc n) = ap suc (length-read memory p (suc offset) n)

-- A list that holds a function of another's elements.
pub map-get_or :
    {A B : Type 0} (f : B → A) (xs : List B) (d : B) (d' : A) (n : ℕ) (v : List A)
    → n ≤ length xs
    → length v ≡ n
    → ((i : ℕ) → i < n → get_or v i d' ≡ f (get_or xs i d))
    → v ≡ map f (take n xs)
map-get_or f xs d d' zero [] h len same = refl
map-get_or f xs d d' zero (y ∷ v) h len same = absurd (omega arith)
map-get_or f xs d d' (suc n) [] h len same = absurd (omega arith)
map-get_or f [] d d' (suc n) (y ∷ v) h len same = absurd (omega arith)
map-get_or f (x ∷ xs) d d' (suc n) (y ∷ v) h len same =
    ap₂ ◌∷◌ (same 0 (omega arith))
      (map-get_or f xs d d' n v (omega arith) (omega arith) λ i below. same (suc i) (omega arith))
