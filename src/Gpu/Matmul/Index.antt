-- ===== src/Gpu/Matmul/Index.antt =====
-- The indices of batched_matmul_kernel stay within the three arrays, and name one entry each.
use native.Mathlib.Nat.{div-lt_iff_lt-mul, mod-lt, div-add-mod', mul-add-div_right, div-eq_of_lt}
use nimble_cas.Prelude.{ℕ, ◌+◌, ◌-◌, ◌*◌, ◌/◌, ◌<◌, ◌≡◌, ap, ◌∙◌, arith}
use nimble_cas.Prelude.Arith.{mul_le_mul}

-- An index below rows * width is a row and a place in it.
pub place-lt :
    (row place rows width : ℕ) → row < rows → place < width → row * width + place < rows * width
place-lt row place rows width h k =
    omega (arith, mul_le_mul (row + 1) rows width width (omega arith) (omega arith), k)

pub row-lt : (i rows width : ℕ) → 0 < width → i < rows * width → i / width < rows
row-lt i rows width pos h = (div-lt_iff_lt-mul {k = width} pos).1 h

pub rest-lt : (i width : ℕ) → 0 < width → i - i / width * width < width
rest-lt i width pos = omega (arith, div-add-mod' i width, mod-lt i pos)

pub row_of_place : (row place width : ℕ) → place < width → (row * width + place) / width ≡ row
row_of_place row place width h =
    mul-add-div_right {m = width} (omega arith) row place
    ∙ ap (λ t. row + t) (div-eq_of_lt h)
    ∙ omega arith
