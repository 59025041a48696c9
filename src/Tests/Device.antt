-- ===== src/Tests/Device.antt =====
-- A device that keeps what the CUDA documentation promises, for the tests.
use nimble_cas.Prelude.{ℕ, zero, suc, ◌<◌, ◌≡◌, refl, List, [], ◌∷◌, false, arith, max}
use nimble_cas.Cuda.Calls.{Call, Trace, Runtime, Memory}
use nimble_cas.Cuda.Memory.{contents, is_live, read, IsFaithful}
use nimble_cas.Cuda.Grid.{IsSchedule}
use nimble_cas.Cuda.Healthy.{IsHealthy}
use nimble_cas.Cuda.Release.{occurrences}
use nimble_cas.Gpu.Probe.Buffers.{IsNullOnFailure}

unfoldable pub up_to : ℕ → List ℕ
up_to zero = []
up_to (suc n) = n ∷ up_to n

module _ {A : Type 0} (blank : A) where
  -- A number above every pointer of the log.
  unfoldable pub highest : Trace A → ℕ
  highest [] = 0
  highest ((c, r) ∷ log) = max r.pointer (highest log)

  abbrev pub blank_memory : Memory A
  blank_memory p i = blank

  abbrev pub cells_of : Trace A → Call A → List A
  cells_of log (Call.copy_out p extent) = read (contents blank_memory log) p 0 extent.count
  cells_of log _ = []

  abbrev pub order_of : Call A → List ℕ
  order_of (Call.launch blocks threads units kernel) = up_to units
  order_of _ = []

  unfoldable pub device : Runtime A
  device log c = record {
    status = 0;
    pointer = suc (highest log);
    number = 2;
    cells = cells_of log c;
    order = order_of c;
  }

  is_live-highest : (log : Trace A) (p : ℕ) → highest log < p → is_live p log ≡ false
  unfolding is_live highest
  is_live-highest [] p h = refl
  is_live-highest ((Call.malloc e, r) ∷ log) p h = ground (arith, is_live-highest log p)
  is_live-highest ((Call.free q, r) ∷ log) p h = ground (arith, is_live-highest log p)
  is_live-highest ((Call.copy_in q o xs e, r) ∷ log) p h = is_live-highest log p (omega arith)
  is_live-highest ((Call.copy_out q e, r) ∷ log) p h = is_live-highest log p (omega arith)
  is_live-highest ((Call.copy_device q s e, r) ∷ log) p h = is_live-highest log p (omega arith)
  is_live-highest ((Call.memset q v e, r) ∷ log) p h = is_live-highest log p (omega arith)
  is_live-highest ((Call.launch b t u k, r) ∷ log) p h = is_live-highest log p (omega arith)
  is_live-highest ((Call.get_last_error, r) ∷ log) p h = is_live-highest log p (omega arith)
  is_live-highest ((Call.synchronize, r) ∷ log) p h = is_live-highest log p (omega arith)
  is_live-highest ((Call.get_device, r) ∷ log) p h = is_live-highest log p (omega arith)
  is_live-highest ((Call.get_device_count, r) ∷ log) p h = is_live-highest log p (omega arith)
  is_live-highest ((Call.multi_processor_count d, r) ∷ log) p h =
      is_live-highest log p (omega arith)
  is_live-highest ((Call.host_register q e, r) ∷ log) p h = is_live-highest log p (omega arith)
  is_live-highest ((Call.host_unregister q, r) ∷ log) p h = is_live-highest log p (omega arith)

  pub up_to-IsSchedule : (n : ℕ) → IsSchedule n (up_to n)
  unfolding up_to occurrences
  up_to-IsSchedule zero = record { once = λ u h. absurd (omega arith); no_other = λ u h. refl }
  up_to-IsSchedule (suc n) =
      let rest = up_to-IsSchedule n in
      record {
        once = λ u h. ground (arith, rest.once u, rest.no_other u);
        no_other = λ u h. ground (arith, rest.no_other u);
      }

  pub device-IsFaithful : IsFaithful blank_memory device
  unfolding device
  device-IsFaithful = record {
    fresh = λ log extent e. is_live-highest log (suc (highest log)) (omega arith);
    schedule = λ log blocks threads units kernel. up_to-IsSchedule units;
    copied = λ log p extent e. refl;
  }

  pub device-IsHealthy : IsHealthy device
  unfolding device
  device-IsHealthy = record { succeeds = λ log c. refl }

  pub device-IsNullOnFailure : IsNullOnFailure device
  unfolding device
  device-IsNullOnFailure = record { null = λ log extent h. absurd (h refl) }
