-- ===== src/Cuda/Wrap.antt =====
-- src/gpu/gpu_kernels.cu: loops over an `int`, which is its bit pattern, below 2 ^ 32. A sum that
-- passes 2 ^ 31 - 1 becomes negative and is compared as such.
use nimble_cas.Prelude.{
  ℕ, zero, suc, ◌+◌, ◌-◌, ◌%◌, ◌^◌, ◌≤◌, ◌<◌, ◌≡◌, refl, ap, ◌∙◌, List, [], ◌∷◌, Bool, ltb,
  if◌then◌else◌, Bool-cases, inl, inr, arith, ltb→lt, ltb→le,
}
use nimble_cas.Cuda.Calls.{Gpu}
use nimble_cas.Cuda.Host.{choose_blocks}
use nimble_cas.Cuda.Release.{occurrences}
use nimble_cas.Cuda.Grid.{strided, grid_stride, run_units}

-- a < b, as signed numbers.
abbrev pub signed_ltb : ℕ → ℕ → Bool
signed_ltb a b = ltb ((a + 2 ^ 31) % 2 ^ 32) ((b + 2 ^ 31) % 2 ^ 32)

-- The rounds of `for (int e = begin; e < end; ++e)`.
abbrev pub int_rounds : ℕ → ℕ → ℕ
int_rounds begin end = (end + 2 ^ 31) % 2 ^ 32 - (begin + 2 ^ 31) % 2 ^ 32

-- `++e`
abbrev pub int_suc : ℕ → ℕ
int_suc e = (e + 1) % 2 ^ 32

-- The grid that is chosen where n + threads - 1 is an `int`: a negative sum leaves one block, as no
-- work does.
abbrev pub int_choose_blocks : {A : Type 0} → ℕ → ℕ → Gpu A ℕ
int_choose_blocks n threads =
    choose_blocks (if ltb (n + threads - 1) (2 ^ 31) then n else 0) threads

pub signed_ltb-small : (i n : ℕ) → i < 2 ^ 31 → n < 2 ^ 31 → signed_ltb i n ≡ ltb i n
signed_ltb-small i n h k =
    ap (λ a. ltb a ((n + 2 ^ 31) % 2 ^ 32)) {y = i + 2 ^ 31} (omega arith)
    ∙ ap (ltb (i + 2 ^ 31)) {y = n + 2 ^ 31} (omega arith)
    ∙ ground arith

module _ {M : Type 0} where
  -- for (int i = thread; i < n; i += stride), on fuel: n rounds are enough while i does not wrap.
  unfoldable pub int_strided : ℕ → ℕ → ℕ → ℕ → (ℕ → M → M) → M → M
  int_strided zero i n stride body memory = memory
  int_strided (suc fuel) i n stride body memory =
      if signed_ltb i n
      then int_strided fuel ((i + stride) % 2 ^ 32) n stride body (body i memory)
      else memory

  abbrev pub int_grid_stride : ℕ → ℕ → (ℕ → M → M) → ℕ → M → M
  int_grid_stride stride n body thread memory = int_strided n thread n stride body memory

  -- No index wraps.
  int_strided-strided :
      (fuel i n stride : ℕ) (body : ℕ → M → M) (memory : M)
      → n + stride ≤ 2 ^ 31
      → 0 < stride
      → i < 2 ^ 31
      → int_strided fuel i n stride body memory ≡ strided fuel i n stride body memory
  unfolding int_strided strided
  int_strided-strided zero i n stride body memory room some small = refl
  int_strided-strided (suc fuel) i n stride body memory room some small =
      let same = signed_ltb-small i n small (omega arith) in
      elim (Bool-cases (ltb i n)) [
        | inr e ↦ rw (same, e) refl
        | inl e ↦
            let below = ltb→lt i n e in
            let next : (i + stride) % 2 ^ 32 ≡ i + stride = omega (arith, below) in
            rw (same, e, next)
              (int_strided-strided fuel (i + stride) n stride body (body i memory) room some
                (omega (arith, below)))
      ]

  pub run_int_units :
      (n stride : ℕ) (body : ℕ → M → M) (order : List ℕ) (memory : M)
      → n + stride ≤ 2 ^ 31
      → 0 < stride
      → ((u : ℕ) → stride ≤ u → occurrences u order ≡ 0)
      → run_units (int_grid_stride stride n body) order memory
        ≡ run_units (grid_stride stride n body) order memory
  unfolding run_units occurrences
  run_int_units n stride body [] memory room some small = refl
  run_int_units n stride body (u ∷ us) memory room some small =
      let below : u < stride = elim (Bool-cases (ltb u stride)) [
        | inl e ↦ ltb→lt u stride e
        | inr e ↦ absurd (ground (arith, small u (ltb→le u stride e)))
      ] in
      ap (run_units (int_grid_stride stride n body) us)
        (int_strided-strided n u n stride body memory room some (omega (arith, below)))
      ∙ run_int_units n stride body us (grid_stride stride n body u memory) room some
          (λ w h. omega (arith, small w h))
