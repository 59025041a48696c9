-- ===== src/Magnitude/Sum.antt =====
-- `mag_add` and `mag_sub` are addition and subtraction.
use nimble_cas.Prelude.{ℕ, ◌+◌, ◌*◌, ◌/◌, ◌^◌, ◌≤◌, ◌<◌, ◌≡◌, [], ◌∷◌, arith}
use nimble_cas.Magnitude.{
  Limbs, limb_base, u64, add_loop, mag_add, sub_limb, sub_borrow, sub_loop, mag_sub,
}
use nimble_cas.Magnitude.Value.{
  value, IsLimbs, value-trim, trim-IsLimbs, value-push_carry, push_carry-IsLimbs,
}

value-add_loop :
    (c : ℕ) (a b : Limbs)
    → c ≤ 1
    → IsLimbs a
    → IsLimbs b
    → value (add_loop c a b) ≡ c + value a + value b
unfolding add_loop
value-add_loop c [] [] h ha hb = omega (arith, value-push_carry c)
value-add_loop c (x ∷ xs) [] h ha hb =
    omega (arith, value-add_loop (u64 (c + x) / 2 ^ 32) xs [] (omega arith) ha.1 tt)
value-add_loop c [] (y ∷ ys) h ha hb =
    omega (arith, value-add_loop (u64 (c + y) / 2 ^ 32) [] ys (omega arith) tt hb.1)
value-add_loop c (x ∷ xs) (y ∷ ys) h ha hb =
    omega (arith, value-add_loop (u64 (u64 (c + x) + y) / 2 ^ 32) xs ys (omega arith) ha.1 hb.1)

add_loop-IsLimbs : (c : ℕ) (a b : Limbs) → IsLimbs (add_loop c a b)
unfolding add_loop
add_loop-IsLimbs c [] [] = push_carry-IsLimbs c
add_loop-IsLimbs c (x ∷ xs) [] = (omega arith, add_loop-IsLimbs (u64 (c + x) / 2 ^ 32) xs [])
add_loop-IsLimbs c [] (y ∷ ys) = (omega arith, add_loop-IsLimbs (u64 (c + y) / 2 ^ 32) [] ys)
add_loop-IsLimbs c (x ∷ xs) (y ∷ ys) =
    (omega arith, add_loop-IsLimbs (u64 (u64 (c + x) + y) / 2 ^ 32) xs ys)

-- For magnitudes of 32-bit limbs, the value of mag_add is the sum of the values.
pub value-mag_add : (a b : Limbs) → IsLimbs a → IsLimbs b → value (mag_add a b) ≡ value a + value b
unfolding mag_add
value-mag_add a b ha hb = omega (arith, value-add_loop 0 a b (omega arith) ha hb)

pub mag_add-IsLimbs : (a b : Limbs) → IsLimbs (mag_add a b)
unfolding mag_add
mag_add-IsLimbs a b = add_loop-IsLimbs 0 a b

sub_limb_lem :
    (c x y : ℕ)
    → c ≤ 1
    → x < limb_base
    → y < limb_base
    → (sub_limb c x y + c + y ≡ x + limb_base * sub_borrow c x y)
      × (sub_limb c x y < limb_base)
      × (sub_borrow c x y ≤ 1)
sub_limb_lem c x y h hx hy = (ground arith, ground arith, ground arith)

sub_loop_lem :
    (c : ℕ) (a b : Limbs)
    → c ≤ 1
    → IsLimbs a
    → IsLimbs b
    → c + value b ≤ value a
    → (value (sub_loop c a b) + c + value b ≡ value a) × IsLimbs (sub_loop c a b)
unfolding sub_loop
sub_loop_lem c [] [] h ha hb le = (omega arith, tt)
sub_loop_lem c [] (y ∷ ys) h ha hb le = (omega arith, tt)
sub_loop_lem c (x ∷ xs) [] h ha hb le =
    let l = sub_limb_lem c x 0 h ha.0 (omega arith) in
    let ih = sub_loop_lem (sub_borrow c x 0) xs [] l.2 ha.1 tt (omega arith) in
    (omega arith, (l.1, ih.1))
sub_loop_lem c (x ∷ xs) (y ∷ ys) h ha hb le =
    let l = sub_limb_lem c x y h ha.0 hb.0 in
    let ih = sub_loop_lem (sub_borrow c x y) xs ys l.2 ha.1 hb.1 (omega arith) in
    (omega arith, (l.1, ih.1))

-- For magnitudes of 32-bit limbs with value b at most value a, the value of mag_sub plus value b
-- is value a.
pub value-mag_sub :
    (a b : Limbs)
    → IsLimbs a
    → IsLimbs b
    → value b ≤ value a
    → value (mag_sub a b) + value b ≡ value a
unfolding mag_sub
value-mag_sub a b ha hb h =
    omega
      (arith, value-trim (sub_loop 0 a b), (sub_loop_lem 0 a b (omega arith) ha hb (omega arith)).0)

pub mag_sub-IsLimbs :
    (a b : Limbs) → IsLimbs a → IsLimbs b → value b ≤ value a → IsLimbs (mag_sub a b)
unfolding mag_sub
mag_sub-IsLimbs a b ha hb h =
    trim-IsLimbs _ (sub_loop_lem 0 a b (omega arith) ha hb (omega arith)).1
