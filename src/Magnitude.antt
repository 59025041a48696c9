-- ===== src/Magnitude.antt =====
-- src/bigint/bigint.cppm: the magnitude routines of BigInt. A magnitude is a little-endian list of
-- 32-bit limbs (`std::vector<std::uint32_t>`), the least significant first. A loop that walks the
-- limbs up is a recursion on the list; one that walks them down handles the tail first.
-- Arithmetic in `std::uint64_t` wraps (`u64`); a shift by 32 and a mask are a quotient and a
-- remainder, and `(x << 32) | y` with a limb y is the sum of the two.
pub mod Value
pub mod Order
pub mod Sum
pub mod Product
pub mod Small
use nimble_cas.Prelude.{
  ℕ, zero, suc, ◌+◌, ◌-◌, ◌*◌, ◌/◌, ◌%◌, ◌^◌, compare, Ordering, List, [], ◌∷◌, ltb, ◌==◌,
  if◌then◌else◌, length, replicate,
}

-- constexpr std::uint64_t limb_base
abbrev pub limb_base : ℕ
limb_base = 2 ^ 32

-- The result of an operation on `std::uint64_t`.
abbrev pub u64 : ℕ → ℕ
u64 n = n % 2 ^ 64

-- `static_cast<std::uint32_t>(n)`, and `n & limb_mask`.
abbrev pub low32 : ℕ → ℕ
low32 n = n % 2 ^ 32

-- `n >> 32U`
abbrev pub high32 : ℕ → ℕ
high32 n = n / 2 ^ 32

-- `(hi << 32U) | lo`, for a limb lo.
abbrev pub join32 : ℕ → ℕ → ℕ
join32 hi lo = u64 (hi * 2 ^ 32) + lo

abbrev pub Limbs : Type 0
Limbs = List ℕ

-- One limb kept or popped, with the limbs above it trimmed.
abbrev pub trim_cons : ℕ → Limbs → Limbs
trim_cons zero [] = []
trim_cons x xs = x ∷ xs

-- trim, and the loop of `normalise`: zero limbs are popped off the significant end.
unfoldable pub trim : Limbs → Limbs
trim [] = []
trim (x ∷ xs) = trim_cons x (trim xs)

-- The loop of `mag_cmp` over two vectors of one size: the highest limbs that differ decide.
unfoldable pub limbs_cmp : Limbs → Limbs → Ordering
limbs_cmp (x ∷ xs) (y ∷ ys) = elim (limbs_cmp xs ys) [
  | Ordering.eq ↦ compare x y
  | Ordering.lt ↦ Ordering.lt
  | Ordering.gt ↦ Ordering.gt
]
limbs_cmp _ _ = Ordering.eq

unfoldable pub mag_cmp : Limbs → Limbs → Ordering
unfolding limbs_cmp
mag_cmp a b = elim (compare (length a) (length b)) [
  | Ordering.eq ↦ limbs_cmp a b
  | Ordering.lt ↦ Ordering.lt
  | Ordering.gt ↦ Ordering.gt
]

-- `if (carry != 0) r.push_back(carry)`
abbrev pub push_carry : ℕ → Limbs
push_carry carry = if carry == 0 then [] else low32 carry ∷ []

-- The loop of `mag_add`; past the end of one vector the other's limbs are added alone.
unfoldable pub add_loop : ℕ → Limbs → Limbs → Limbs
add_loop carry [] [] = push_carry carry
add_loop carry (x ∷ xs) [] = let sum = u64 (carry + x) in low32 sum ∷ add_loop (high32 sum) xs []
add_loop carry [] (y ∷ ys) = let sum = u64 (carry + y) in low32 sum ∷ add_loop (high32 sum) [] ys
add_loop carry (x ∷ xs) (y ∷ ys) =
    let sum = u64 (u64 (carry + x) + y) in low32 sum ∷ add_loop (high32 sum) xs ys

unfoldable pub mag_add : Limbs → Limbs → Limbs
unfolding add_loop
mag_add a b = add_loop 0 a b

-- One limb of `mag_sub`: x - borrow - y, with the base added where that is negative.
abbrev pub sub_limb : ℕ → ℕ → ℕ → ℕ
sub_limb borrow x y = if ltb x (borrow + y) then x + limb_base - (borrow + y) else x - (borrow + y)

abbrev pub sub_borrow : ℕ → ℕ → ℕ → ℕ
sub_borrow borrow x y = if ltb x (borrow + y) then 1 else 0

-- The loop of `mag_sub` over the limbs of the minuend; past the end of b its limb counts as 0.
unfoldable pub sub_loop : ℕ → Limbs → Limbs → Limbs
sub_loop borrow [] b = []
sub_loop borrow (x ∷ xs) [] = sub_limb borrow x 0 ∷ sub_loop (sub_borrow borrow x 0) xs []
sub_loop borrow (x ∷ xs) (y ∷ ys) = sub_limb borrow x y ∷ sub_loop (sub_borrow borrow x y) xs ys

unfoldable pub mag_sub : Limbs → Limbs → Limbs
unfolding sub_loop trim
mag_sub a b = trim (sub_loop 0 a b)

-- The inner loop of `mag_mul` at one limb ai, over the part of r from index i up. The limb behind
-- the last one is overwritten by the carry.
unfoldable pub mul_row : ℕ → Limbs → ℕ → Limbs → Limbs
mul_row ai b carry [] = []
mul_row ai [] carry (r ∷ rs) = low32 carry ∷ rs
mul_row ai (y ∷ ys) carry (r ∷ rs) =
    let cur = u64 (u64 (r + u64 (ai * y)) + carry) in low32 cur ∷ mul_row ai ys (high32 cur) rs

-- What the outer loop leaves in r from index i up: a row, and then the next limb one place up.
unfoldable pub mul_rows : Limbs → Limbs → Limbs → Limbs
mul_rows [] b r = r
mul_rows (x ∷ xs) b r = elim (mul_row x b 0 r) [ [] ↦ [] | h ∷ t ↦ h ∷ mul_rows xs b t ]

unfoldable pub mag_mul : Limbs → Limbs → Limbs
unfolding mul_rows mul_row trim
mag_mul [] b = []
mag_mul (x ∷ xs) [] = []
mag_mul (x ∷ xs) (y ∷ ys) =
    trim (mul_rows (x ∷ xs) (y ∷ ys) (replicate (length (x ∷ xs) + length (y ∷ ys)) 0))

unfoldable pub mul_small_loop : ℕ → Limbs → ℕ → Limbs
mul_small_loop carry [] m = push_carry carry
mul_small_loop carry (x ∷ xs) m =
    let cur = u64 (u64 (x * m) + carry) in low32 cur ∷ mul_small_loop (high32 cur) xs m

unfoldable pub mul_small : Limbs → ℕ → Limbs
unfolding mul_small_loop
mul_small [] m = []
mul_small (x ∷ xs) m = if m == 0 then [] else mul_small_loop 0 (x ∷ xs) m

-- The loop of `add_small` stops at the first limb that takes in no carry.
unfoldable pub add_small : Limbs → ℕ → Limbs
add_small [] carry = push_carry carry
add_small (x ∷ xs) carry =
    let cur = u64 (x + carry) in
    if carry == 0 then x ∷ xs else low32 cur ∷ add_small xs (high32 cur)

-- The loop of `divmod_small`, from the most significant limb down: quotient limbs and remainder.
unfoldable pub div_loop : Limbs → ℕ → Limbs × ℕ
div_loop [] d = ([], 0)
div_loop (x ∷ xs) d =
    let (q, rem) = div_loop xs d in let cur = join32 rem x in (low32 (cur / d) ∷ q, cur % d)

unfoldable pub divmod_small : Limbs → ℕ → Limbs × ℕ
unfolding div_loop trim
divmod_small u d = let (q, rem) = div_loop u d in (trim q, low32 rem)

unfoldable pub limbs_from_u64 : ℕ → Limbs
limbs_from_u64 v =
    if high32 v == 0
    then (if low32 v == 0 then [] else low32 v ∷ [])
    else low32 v ∷ low32 (high32 v) ∷ []
