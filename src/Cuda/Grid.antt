-- ===== src/Cuda/Grid.antt =====
-- src/gpu/*.cu: the grid-stride loop of the kernels, `for (i = id; i < n; i += stride)`, and
-- what a launch does when it has run every thread of its grid, in whatever order.
use nimble_cas.Prelude.{
  ℕ, zero, suc, ◌+◌, ◌*◌, ◌/◌, ◌%◌, ◌≤◌, ◌<◌, ◌≡◌, sym, subst, List, [], ◌∷◌, ltb, ◌==◌,
  if◌then◌else◌, Bool-cases, inl, inr, arith, ltb→lt, lt→ltb, ltb→le, ==_iff,
}
use native.Mathlib.Nat.{mod-lt, div-add-mod'}
use nimble_cas.Prelude.Arith.{mul_le_mul}
use nimble_cas.Cuda.Release.{occurrences}

module _ {M : Type 0} where
  -- On fuel: n rounds are enough, since the stride is not 0.
  unfoldable pub strided : ℕ → ℕ → ℕ → ℕ → (ℕ → M → M) → M → M
  strided zero i n stride body memory = memory
  strided (suc fuel) i n stride body memory =
      if ltb i n then strided fuel (i + stride) n stride body (body i memory) else memory

  -- The kernel of one thread of a grid of `stride` threads.
  abbrev pub grid_stride : ℕ → ℕ → (ℕ → M → M) → ℕ → M → M
  grid_stride stride n body thread memory = strided n thread n stride body memory

  -- The units of a launch, one after the other.
  unfoldable pub run_units : (ℕ → M → M) → List ℕ → M → M
  run_units kernel [] memory = memory
  run_units kernel (u ∷ us) memory = run_units kernel us (kernel u memory)

-- Each unit below the number runs exactly once, and no other runs.
pub record IsSchedule (units : ℕ) (order : List ℕ) : Type 0 where
  pub once : (u : ℕ) → u < units → occurrences u order ≡ 1
  pub no_other : (u : ℕ) → units ≤ u → occurrences u order ≡ 0

-- What the loop's body promises of its round i: it keeps the fact `Kept`, makes `Done i`, and
-- undoes no other round.
pub record IsRound {M : Type 0} (n : ℕ) (body : ℕ → M → M) (Kept : M → Type 0)
    (Done : ℕ → M → Type 0) : Type 0 where
  pub keeps : (i : ℕ) (memory : M) → i < n → Kept memory → Kept (body i memory)
  pub does : (i : ℕ) (memory : M) → i < n → Kept memory → Done i (body i memory)
  pub undoes_none :
      (i j : ℕ) (memory : M) → i < n → Kept memory → Done j memory → Done j (body i memory)

module _ {M : Type 0} (n stride : ℕ) {body : ℕ → M → M} {Kept : M → Type 0} {Done : ℕ → M → Type 0}
    (round : IsRound n body Kept Done) where
  record IsProgress (before after : M) : Type 0 where
    kept : Kept after
    stays : (j : ℕ) → Done j before → Done j after

  strided-IsProgress :
      (fuel i : ℕ) (memory : M)
      → Kept memory
      → IsProgress memory (strided fuel i n stride body memory)
  unfolding strided
  strided-IsProgress zero i memory k = record { kept = k; stays = λ j d. d }
  strided-IsProgress (suc fuel) i memory k = elim (Bool-cases (ltb i n)) [
    | inl e ↦ rw e (
        let h = ltb→lt i n e in
        let rest =
          strided-IsProgress fuel (i + stride) (body i memory) (round.keeps i memory h k) in
        record {
          kept = rest.kept;
          stays = λ j d. rest.stays j (round.undoes_none i j memory h k d);
        })
    | inr e ↦ rw e (record { kept = k; stays = λ j d. d })
  ]

  -- The round that is `steps` strides ahead is reached.
  strided-Done :
      (steps fuel i : ℕ) (memory : M)
      → Kept memory
      → steps < fuel
      → i + steps * stride < n
      → Done (i + steps * stride) (strided fuel i n stride body memory)
  unfolding strided
  strided-Done steps zero i memory k h below = absurd (omega arith)
  strided-Done zero (suc fuel) i memory k h below =
      let lt : i < n = omega (arith, below) in
      rw (lt→ltb i n lt) (
        subst (λ t. Done t (strided fuel (i + stride) n stride body (body i memory))) (omega arith)
          ((strided-IsProgress fuel (i + stride) (body i memory) (round.keeps i memory lt k)).stays
            i (round.does i memory lt k)))
  strided-Done (suc steps) (suc fuel) i memory k h below =
      let lt : i < n = omega (arith, below) in
      rw (lt→ltb i n lt) (
        subst (λ t. Done t (strided fuel (i + stride) n stride body (body i memory))) (omega arith)
          (strided-Done steps fuel (i + stride) (body i memory) (round.keeps i memory lt k)
            (omega arith) (omega (arith, below))))

  run_units-IsProgress :
      (order : List ℕ) (memory : M)
      → Kept memory
      → IsProgress memory (run_units (grid_stride stride n body) order memory)
  unfolding run_units
  run_units-IsProgress [] memory k = record { kept = k; stays = λ j d. d }
  run_units-IsProgress (u ∷ us) memory k =
      let first = strided-IsProgress n u memory k in
      let rest = run_units-IsProgress us (strided n u n stride body memory) first.kept in
      record { kept = rest.kept; stays = λ j d. rest.stays j (first.stays j d) }

  -- A thread that occurs in the order has run its rounds.
  run_units-Done :
      (thread steps : ℕ) (order : List ℕ) (memory : M)
      → 0 < stride
      → Kept memory
      → 0 < occurrences thread order
      → thread + steps * stride < n
      → Done (thread + steps * stride) (run_units (grid_stride stride n body) order memory)
  unfolding run_units occurrences
  run_units-Done thread steps [] memory pos k h below = absurd (omega (arith, h))
  run_units-Done thread steps (u ∷ us) memory pos k h below =
      let first = strided-IsProgress n u memory k in
      elim (Bool-cases (u == thread)) [
        | inl e ↦
            let same : u ≡ thread = (==_iff u thread).0 e in
            (run_units-IsProgress us (strided n u n stride body memory) first.kept).stays _ (
              subst (λ t. Done (t + steps * stride) (strided n u n stride body memory)) same
                (strided-Done steps n u memory k (steps-lt thread steps pos below)
                  (subst (λ t. t + steps * stride < n) (sym same) below)))
        | inr e ↦
            run_units-Done thread steps us (strided n u n stride body memory) pos first.kept
              (subst (λ t. 0 < t) (rw e (omega arith)) h) below
      ]
    where
      steps-lt : (thread steps : ℕ) → 0 < stride → thread + steps * stride < n → steps < n
      steps-lt thread steps pos below =
          omega (arith, mul_le_mul steps steps 1 stride (omega arith) pos, below)

  -- After the launch, every index below n has been worked on, and what the loop keeps still holds.
  pub grid_stride-covers :
      (order : List ℕ) (memory : M)
      → IsSchedule stride order
      → 0 < stride
      → Kept memory
      → Kept (run_units (grid_stride stride n body) order memory)
        × ((i : ℕ) → i < n → Done i (run_units (grid_stride stride n body) order memory))
  grid_stride-covers order memory schedule pos k = (
    (run_units-IsProgress order memory k).kept,
    λ i below.
        subst (λ t. Done t (run_units (grid_stride stride n body) order memory)) (split i)
          (run_units-Done (i % stride) (i / stride) order memory pos k
            (omega (arith, schedule.once (i % stride) (mod_lt i)))
            (subst (λ t. t < n) (sym (split i)) below)),
  )
    where
      mod_lt : (i : ℕ) → i % stride < stride
      mod_lt i = mod-lt i pos

      split : (i : ℕ) → i % stride + i / stride * stride ≡ i
      split i = omega (arith, div-add-mod' i stride)

-- A launch whose units are the rounds themselves, one block for each.
module _ {M : Type 0} (n : ℕ) {kernel : ℕ → M → M} {Kept : M → Type 0} {Done : ℕ → M → Type 0}
    (round : IsRound n kernel Kept Done) where
  record AreUnits (order : List ℕ) (memory : M) : Type 0 where
    kept : Kept (run_units kernel order memory)
    stays : (j : ℕ) → Done j memory → Done j (run_units kernel order memory)
    ran : (u : ℕ) → 0 < occurrences u order → Done u (run_units kernel order memory)

  run_units-AreUnits :
      (order : List ℕ) (memory : M)
      → ((u : ℕ) → n ≤ u → occurrences u order ≡ 0)
      → Kept memory
      → AreUnits order memory
  unfolding run_units occurrences
  run_units-AreUnits [] memory small k = record {
    kept = k;
    stays = λ j d. d;
    ran = λ u h. absurd (omega arith);
  }
  run_units-AreUnits (u ∷ us) memory small k =
      let below : u < n = elim (Bool-cases (ltb u n)) [
        | inl e ↦ ltb→lt u n e
        | inr e ↦ absurd (ground (arith, small u (ltb→le u n e)))
      ] in
      let rest =
        run_units-AreUnits us (kernel u memory) (λ w h. omega (arith, small w h))
          (round.keeps u memory below k) in
      record {
        kept = rest.kept;
        stays = λ j d. rest.stays j (round.undoes_none u j memory below k d);
        ran = λ w h. elim (Bool-cases (u == w)) [
          | inl e ↦
              subst (λ t. Done t (run_units kernel us (kernel u memory))) ((==_iff u w).0 e)
                (rest.stays u (round.does u memory below k))
          | inr e ↦ rest.ran w (subst (λ t. 0 < t) (rw e (omega arith)) h)
        ];
      }

  -- After the launch, every unit has run.
  pub units-cover :
      (order : List ℕ) (memory : M)
      → IsSchedule n order
      → Kept memory
      → (u : ℕ) → u < n
      → Done u (run_units kernel order memory)
  units-cover order memory schedule k u below =
      (run_units-AreUnits order memory schedule.no_other k).ran u
        (omega (arith, schedule.once u below))

  -- What the launch keeps.
  pub units-kept :
      (order : List ℕ) (memory : M)
      → IsSchedule n order
      → Kept memory
      → Kept (run_units kernel order memory)
  units-kept order memory schedule k = (run_units-AreUnits order memory schedule.no_other k).kept
