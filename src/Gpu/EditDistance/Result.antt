-- ===== src/Gpu/EditDistance/Result.antt =====
-- nimblecas_gpu_edit_distance_batch: the distances it returns.
use nimble_cas.Prelude.{ℕ, suc, ◌+◌, ◌-◌, ◌*◌, ◌^◌, ◌≤◌, ◌<◌, ◌≡◌, List, length, get_or}
use nimble_cas.Cuda.Calls.{Memory, Runtime}
use nimble_cas.Cuda.Memory.{IsFaithful}
use nimble_cas.Gpu.EditDistance.{least}
use nimble_cas.Gpu.EditDistance.Script.{IsLeast}

-- Offsets into a flattened array: one more than there are sequences, in order, and within it. Its
-- length is an `int`.
pub record IsOffsets (flat off : List ℕ) (n : ℕ) : Type 0 where
  pub one_more : n < length off
  pub in_order : (p q : ℕ) → p ≤ q → q ≤ n → get_or off p 0 ≤ get_or off q 0
  pub is_int : get_or off n 0 < 2 ^ 31
  pub within : get_or off n 0 ≤ length flat

-- The symbols of one sequence, and their number.
abbrev pub symbol : List ℕ → List ℕ → ℕ → ℕ → ℕ
symbol flat off p k = get_or flat (get_or off p 0 + k) 0

abbrev pub symbols : List ℕ → ℕ → ℕ
symbols off p = get_or off (suc p) 0 - get_or off p 0

-- One flattened input on the device.
record IsHeld (flat off : List ℕ) (n p_flat p_off : ℕ) (memory : Memory ℕ) : Type 0 where
  flat_at : (k : ℕ) → k < get_or off n 0 → memory p_flat k ≡ get_or flat k 0
  off_at : (p : ℕ) → p < n + 1 → memory p_off p ≡ get_or off p 0

module _ (a_flat a_off b_flat b_off : List ℕ) (n : ℕ) where
  -- The distance of the pair p.
  abbrev pub IsDistance : ℕ → ℕ → Type 0
  IsDistance p =
      IsLeast (symbol a_flat a_off p) (symbol b_flat b_off p) (symbols a_off p) (symbols b_off p)

  -- What was asked of each pair.
  abbrev HasDistances : List ℕ → Type 0
  HasDistances v = (length v ≡ n) × ((p : ℕ) → p < n → IsDistance p (get_or v p 0))

module _ (a_flat a_off b_flat b_off : List ℕ) (n : ℕ) {initial : Memory ℕ} {cuda : Runtime ℕ}
    (ua : IsOffsets a_flat a_off n) (ub : IsOffsets b_flat b_off n)
    (bound : (p : ℕ) → p < n → least (symbols a_off p) (symbols b_off p) ≤ 256)
    (room : 2 * n + 256 ≤ 2 ^ 31) (faithful : IsFaithful initial cuda) where
  record IsReady (p_a p_aoff p_b p_boff : ℕ) (memory : Memory ℕ) : Type 0 where
    a_held : IsHeld a_flat a_off n p_a p_aoff memory
    b_held : IsHeld b_flat b_off n p_b p_boff memory
