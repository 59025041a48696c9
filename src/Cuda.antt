-- ===== src/Cuda.antt =====
-- The CUDA runtime as the host functions under src/gpu/ use it: the calls, a log of them and
-- their replies, and the shapes of code that those functions share. The runtime itself is a
-- parameter: any function that answers a call, given everything that happened before.
-- An `int` or an `unsigned` is its bit pattern, a number.
pub mod Calls
pub mod Choice
pub mod Device
pub mod Host
pub mod Memory
pub mod Fresh
pub mod Healthy
pub mod Launch
pub mod Ledger
pub mod Release
pub mod Grid
pub mod Success
pub mod Wrap
