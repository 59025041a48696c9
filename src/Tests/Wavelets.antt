-- ===== src/Tests/Wavelets.antt =====
-- The theorems on the wavelet transforms, run on a device of the tests.
use nimble_cas.Prelude.{ℕ, ◌+◌, ◌*◌, ◌≡◌, refl, [], ◌∷◌, arith}
use nimble_cas.Prelude.Int.{pos}
use nimble_cas.Cuda.Calls.{done, failed, ◌>>=◌, pure, fail, call, checked}
use nimble_cas.Cuda.Host.{
  HostBuffer, host_register, host_unregister, with_pinned, with_buffers, unpin, allocate, free_all,
  release, launch_and_read,
}
use nimble_cas.Cuda.Device as CurrentDevice
use nimble_cas.Cuda.Memory.{contents, read, overlay}
use nimble_cas.Cuda.Grid.{strided, run_units}
use nimble_cas.Gpu.Wavelet.{
  filtered, dwt_pair, dwt_batch_kernel, dwt_body, dwt_on_device, dwt_batch, swt_pair,
  swt_batch_kernel, swt_body, swt_on_device, swt_batch,
}
use nimble_cas.Gpu.Wavelet.Result.{IsFiltered, dwt_batch-IsFiltered, swt_batch-IsFiltered}
use nimble_cas.Tests.Device.{device, device-IsFaithful, up_to, highest}

abbrev mul_add : ℕ → ℕ → ℕ → ℕ
mul_add c x s = c * x + s

abbrev samples : HostBuffer ℕ
samples = record { address = 30; content = 1 ∷ 2 ∷ 3 ∷ 4 ∷ [] }

abbrev low_pass : HostBuffer ℕ
low_pass = record { address = 31; content = 1 ∷ 1 ∷ [] }

abbrev high_pass : HostBuffer ℕ
high_pass = record { address = 32; content = 5 ∷ 0 ∷ [] }

abbrev nowhere : HostBuffer ℕ
nowhere = record { address = 0; content = [] }

dwt_run :
    (dwt_batch 0 mul_add samples (pos 1) (pos 4) low_pass high_pass (pos 2) 33 (device 0) []).0
    ≡ done (3 ∷ 7 ∷ 5 ∷ 15 ∷ [])
unfolding dwt_batch dwt_on_device dwt_body dwt_batch_kernel dwt_pair filtered ◌>>=◌ pure fail call
    checked host_register host_unregister with_pinned with_buffers unpin allocate free_all release
    CurrentDevice.choose_blocks launch_and_read contents read overlay strided run_units device up_to
    highest
dwt_run = refl

swt_run :
    (swt_batch 0 mul_add samples (pos 1) (pos 4) low_pass high_pass (pos 2) 33 (device 0) []).0
    ≡ done (3 ∷ 5 ∷ 7 ∷ 5 ∷ 5 ∷ 10 ∷ 15 ∷ 20 ∷ [])
unfolding swt_batch swt_on_device swt_body swt_batch_kernel swt_pair filtered ◌>>=◌ pure fail call
    checked host_register host_unregister with_pinned with_buffers unpin allocate free_all release
    CurrentDevice.choose_blocks launch_and_read contents read overlay strided run_units device up_to
    highest
swt_run = refl

-- A null filter is refused.
dwt_null_run :
    (dwt_batch 0 mul_add samples (pos 1) (pos 4) nowhere high_pass (pos 2) 33 (device 0) []).0
    ≡ failed 1
unfolding dwt_batch fail
dwt_null_run = refl

dwt_batch-IsFiltered_example :
    IsFiltered 0 mul_add
      (1 ∷ 2 ∷ 3 ∷ 4 ∷ [])
      (1 ∷ 1 ∷ [])
      (5 ∷ 0 ∷ [])
      1
      2
      4
      2
      (λ k. 2 * k)
      (3 ∷ 7 ∷ 5 ∷ 15 ∷ [])
dwt_batch-IsFiltered_example =
    dwt_batch-IsFiltered 0 mul_add samples low_pass high_pass 1 2 2 33 (device 0) []
      (device-IsFaithful 0) (omega arith) (omega arith) (omega arith) (omega arith) (omega arith)
      (omega arith) dwt_run

swt_batch-IsFiltered_example :
    IsFiltered 0 mul_add
      (1 ∷ 2 ∷ 3 ∷ 4 ∷ [])
      (1 ∷ 1 ∷ [])
      (5 ∷ 0 ∷ [])
      1
      2
      4
      4
      (λ k. k)
      (3 ∷ 5 ∷ 7 ∷ 5 ∷ 5 ∷ 10 ∷ 15 ∷ 20 ∷ [])
swt_batch-IsFiltered_example =
    swt_batch-IsFiltered 0 mul_add samples low_pass high_pass 1 4 2 33 (device 0) []
      (device-IsFaithful 0) (omega arith) (omega arith) (omega arith) (omega arith) (omega arith)
      (omega arith) swt_run
