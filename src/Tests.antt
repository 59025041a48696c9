-- ===== src/Tests.antt =====
-- Runs at concrete values: the data, and the theorems applied to them.
pub mod Data
pub mod Device
mod Kernels
mod Integers
mod Fractions
mod Numbers
mod Texts
mod Wavelets
mod Prices
mod Solvers
