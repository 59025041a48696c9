-- ===== src/Gpu.antt =====
-- src/gpu/: the CUDA kernels and the host functions that launch them.
pub mod Bfs
pub mod BlackScholes
pub mod Cg
pub mod EditDistance
pub mod Haar
pub mod Matmul
pub mod Options
pub mod Pairs
pub mod PolyEval
pub mod Probe
pub mod Qmc
pub mod Reduce
pub mod Sweep
pub mod Wavelet
