-- ===== src/Lib.antt =====
-- Two parts of NimbleCAS, a computer algebra system in C++23. The exact number tower:
-- src/core/core.cppm, src/bigint/bigint.cppm, src/bigrational/bigrational.cppm and, in part,
-- src/numbertheory/numbertheory.cppm. The GPU kernels with their host functions, in part:
-- src/gpu/gpu_kernels.cu, src/gpu/gpu_logic_kernels.cu, src/gpu/gpu_sweep_kernels.cu,
-- src/gpu/gpu_wavelet_kernels.cu and src/gpu/gpu_pricing_kernels.cu.
--
-- The parts and how they interact. `BigInt` keeps a sign and a magnitude, a vector of 32-bit limbs,
-- and its operations are sign rules around the magnitude routines of the same file, the hardest of
-- which is Knuth's Algorithm D. `BigRational` keeps two BigInts in lowest terms and restores that
-- with BigInt's gcd and division. The number theory calls BigInt's operations only. Failures are
-- `Result`s with a `MathError`. A GPU host function allocates device buffers, copies its arguments
-- in, launches a kernel, copies the result out and frees the buffers, through the CUDA runtime; its
-- failure is the code of the first call that failed.
--
-- Which file models which part:
--   Prelude, Prelude/*     Boolean tests, lists, integers over the native numbers.
--   Core                   MathError and Result (src/core/core.cppm).
--   Magnitude              trim, mag_cmp, mag_add, mag_sub, mag_mul, mul_small, add_small,
--                          divmod_small, limbs_from_u64 (src/bigint/bigint.cppm). The children
--                          Value, Order, Sum, Product, Small prove them against `value`.
--   Knuth                  divmod_knuth and mag_divmod. The children follow the algorithm: Shift
--                          (D1, D8), Estimate (D3), Subtract (D4, D6), Step (the loop), Correct.
--   BigInt                 the class: factories, sign, comparison, arithmetic, divmod, pow, gcd,
--                          modpow. The children Value, Arith, Order, Division, Power, Gcd, Modulus,
--                          Modular (with Residues) are about each group and the integer that a value
--                          stands for, `to_ℤ`.
--   Text                   from_string and to_string of BigInt. The children are Parse (from_string
--                          reads decimal numbers) and RoundTrip (it reads what to_string writes).
--   BigRational            the class (src/bigrational/bigrational.cppm). The children are Exact
--                          (coprime numbers and exact quotients), Reduced (normalise and make),
--                          Field, Power, Compare.
--   NumberTheory           is_even, halve, mod_floor, extended_gcd, mod_inverse
--                          (src/numbertheory/numbertheory.cppm). The children are Integers (laws),
--                          Floor, Euclid, Inverse.
--   Cuda                   the CUDA runtime's calls as a log of calls and replies, the runtime being
--                          a parameter (Calls); host_register, host_unregister, choose_blocks and the
--                          allocate-and-free shape of the host functions (Host, from
--                          src/gpu/gpu_kernels.cu). The other children: device memory after a log
--                          (Memory), the grid-stride loop and the order of the threads (Grid), what
--                          is allocated and freed (Ledger, Release), and what is known of a run that
--                          succeeded (Success, Fresh, Launch) or in which no call fails (Healthy).
--                          Wrap is the same loop over an `int`, which wraps, and when it does not.
--                          Device is the choose_blocks that asks the current device
--                          (src/gpu/gpu_sweep_kernels.cu and the files that repeat it), Choice what
--                          the choices of a grid have in common.
--   Gpu/PolyEval           poly_eval_kernel, nimblecas_gpu_poly_eval (src/gpu/gpu_kernels.cu).
--   Gpu/Cg                 csr_spmv_kernel, dot_partials_kernel, axpy_kernel, xpby_kernel, cg_device_dot
--                          and nimblecas_gpu_cg_csr (the same file).
--   Gpu/EditDistance       edit_distance_batch_kernel, nimblecas_gpu_edit_distance_batch (the same
--                          file). Script is the independent description: scripts of edits.
--   Gpu/Bfs                bfs_kernel, nimblecas_gpu_bfs (the same file).
--   Gpu/BlackScholes       the formulas and host functions of black_scholes_batch (the same file),
--                          bs_greeks_batch and bs_extended_greeks_batch
--                          (src/gpu/gpu_pricing_kernels.cu), on Gpu/Options, which has what host
--                          functions share that compute one value for each option.
--   Gpu/Haar               haar_dwt_batch_kernel, nimblecas_gpu_haar_dwt_batch (the same file).
--   Gpu/Matmul             batched_matmul_kernel, nimblecas_gpu_batched_matmul (the same file). Index
--                          is about the index arithmetic.
--   Gpu/Probe              index_probe_kernel, nimblecas_gpu_index_probe_batch
--                          (src/gpu/gpu_logic_kernels.cu). Bits is about its ballots, Batch about
--                          the bits of the result.
--   Gpu/Qmc                qmc_poly_integrate_kernel, nimblecas_gpu_qmc_poly_integrate
--                          (src/gpu/gpu_kernels.cu).
--   Gpu/Reduce             sums over a grid in two stages, reduce_partials_kernel (the same file).
--   Gpu/Sweep              strategy_grid_kernel, futures_grid_kernel and their host functions
--                          (src/gpu/gpu_sweep_kernels.cu, src/gpu/gpu_bridge.h). Result is about
--                          what the two share, Grids about the values.
--   Gpu/Wavelet            dwt_batch_kernel, swt_batch_kernel and their host functions
--                          (src/gpu/gpu_wavelet_kernels.cu). Gpu/Pairs is about kernels whose
--                          threads store pairs of cells, which these and Gpu/Haar are.
--   Tests                  runs and the theorems at concrete values.
--
-- State and operations. A value is immutable in the source, so an operation is a function. A vector
-- is a list, the least significant limb first; a loop up the limbs is a recursion on the list, a loop
-- down them handles the tail first. Unsigned 64-bit arithmetic wraps (`u64`); signed 64-bit arithmetic
-- inside Algorithm D is over the integers. The invariant of BigInt is
-- `IsValid` (limbs below 2^32, no leading zero limb, no negative zero), that of BigRational
-- `IsReduced` (valid parts, a denominator above zero, coprime parts).
--
-- A GPU host function is a state-passing computation on the log of the CUDA calls. A call's reply
-- may depend on everything before it, so any failure at any call is covered. Device memory is a
-- function from pointers and offsets to cells; an `int` or `unsigned` cell is its bit pattern, and a
-- `double` is a parameter with the operations that the kernels use, each
-- applied where the source writes it: a product and a sum that nvcc may contract into one rounding are
-- one operation of the parameter in Gpu/PolyEval, Gpu/Matmul and
-- Gpu/BlackScholes. The threads of a launch run one after the other in an order that the runtime chooses. A thread's loads and stores are not
-- interleaved with another's, which matters in bfs_kernel alone: its atomicCAS is one step here too.
-- The local arrays of a thread have 257 cells: a store beyond them, undefined in C++, is lost.
--
-- An index that is an `int` in the source is a 32-bit pattern: its steps wrap, and it is compared as a
-- signed number (Cuda/Wrap). An overflow is undefined in C++, and the theorems on results exclude it
-- by their premises on the sizes. Products of dimensions inside a kernel wrap at 32 bits too.
--
-- Bounds and fuel. The grid-stride loop has as many rounds as there are indices, which is enough since
-- the grid is not empty. pow's loop has 64 rounds, one per bit of its exponent. The loop of D3 has 2: each
-- round adds the top limb, at least 2^31, to rhat, and the loop ends when that reaches 2^32. gcd's loop
-- has one round more than the value of the second magnitude, which falls in each round, and so has
-- extended_gcd's and the loop of to_string over its chunks; a chunk has at most 10 digits. No
-- theorem listed below has a premise on the fuel.
--
-- Assertions. divide_checked returns `none` where its assertion fails. The assertions of mag_sub and
-- mag_divmod are premises of their theorems.
--
-- Not modelled: from_string, to_string and to_double of BigRational; primality, the Chinese
-- remainder, the Jacobi symbol and RSA; CowPtr, which only counts references; the rest of the tower
-- (ratpoly, polynomials, expressions), the solvers, the numerical and financial modules, which
-- compute in floating point, and the other GPU kernels, most of which do so, and the code around them that prints, stores or distributes.
pub mod BigInt
pub mod BigRational
pub mod Core
pub mod Cuda
pub mod Gpu
pub mod Knuth
pub mod Magnitude
pub mod NumberTheory
pub mod Prelude
pub mod Tests
pub mod Text
