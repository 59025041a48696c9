-- ===== src/Gpu/EditDistance/Script.antt =====
-- Levenshtein's distance, as the least cost of a script of edits.
use nimble_cas.Prelude.{
  ltb, ℕ, zero, suc, ◌+◌, ◌≤◌, ◌<◌, ◌≡◌, sym, ap₂, subst, arith, ◌==◌, if◌then◌else◌, Bool-cases,
  inl, inr,
}
use nimble_cas.Gpu.EditDistance.{least}

abbrev pub cost : ℕ → ℕ → ℕ
cost x y = if x == y then 0 else 1

-- The ways to turn the first i symbols of one sequence into the first j of another, with what they
-- cost.
pub data Script (f g : ℕ → ℕ) : ℕ → ℕ → ℕ → Type 0 where
  start : Script f g 0 0 0
  delete : {i j n : ℕ} → Script f g i j n → Script f g (suc i) j (n + 1)
  insert : {i j n : ℕ} → Script f g i j n → Script f g i (suc j) (n + 1)
  replace : {i j n : ℕ} → Script f g i j n → Script f g (suc i) (suc j) (n + cost (f i) (g j))

-- The recurrence of the table.
unfoldable pub lev : (ℕ → ℕ) → (ℕ → ℕ) → ℕ → ℕ → ℕ
lev f g zero j = j
lev f g (suc i) zero = suc i
lev f g (suc i) (suc j) =
    least (least (lev f g i (suc j) + 1) (lev f g (suc i) j + 1)) (lev f g i j + cost (f i) (g j))

-- A cost that a script has, and that no script is below.
pub record IsLeast (f g : ℕ → ℕ) (i j d : ℕ) : Type 0 where
  pub script : Script f g i j d
  pub no_less : (n : ℕ) → Script f g i j n → d ≤ n

least-Script :
    {f g : ℕ → ℕ} {i j : ℕ} (a b : ℕ)
    → Script f g i j a
    → Script f g i j b
    → Script f g i j (least a b)
least-Script a b u v = elim (Bool-cases (ltb b a)) [ inl e ↦ rw e v | inr e ↦ rw e u ]

module _ (f g : ℕ → ℕ) where
  lev-Script : (i j : ℕ) → Script f g i j (lev f g i j)
  unfolding lev
  lev-Script zero zero = Script.start
  lev-Script zero (suc j) =
      subst (Script f g 0 (suc j)) (omega arith) (Script.insert (lev-Script zero j))
  lev-Script (suc i) zero =
      subst (Script f g (suc i) 0) (omega arith) (Script.delete (insert_none i))
    where
      insert_none : (i : ℕ) → Script f g i 0 i
      insert_none zero = Script.start
      insert_none (suc i) =
          subst (Script f g (suc i) 0) (omega arith) (Script.delete (insert_none i))
  lev-Script (suc i) (suc j) =
      least-Script _ _
        (least-Script _ _ (Script.delete (lev-Script i (suc j)))
          (Script.insert (lev-Script (suc i) j)))
        (Script.replace (lev-Script i j))

  lev-delete : (i j : ℕ) → lev f g (suc i) j ≤ lev f g i j + 1
  unfolding lev
  lev-delete i zero = lev-delete_first i
    where
      lev-delete_first : (i : ℕ) → suc i ≤ lev f g i 0 + 1
      lev-delete_first zero = omega arith
      lev-delete_first (suc i) = omega arith
  lev-delete i (suc j) = ground arith

  lev-insert : (i j : ℕ) → lev f g i (suc j) ≤ lev f g i j + 1
  unfolding lev
  lev-insert zero j = omega arith
  lev-insert (suc i) j = ground arith

  lev-replace : (i j : ℕ) → lev f g (suc i) (suc j) ≤ lev f g i j + cost (f i) (g j)
  unfolding lev
  lev-replace i j = ground arith

  lev-no_less : {i j n : ℕ} → Script f g i j n → lev f g i j ≤ n
  unfolding lev
  lev-no_less Script.start = omega arith
  lev-no_less (Script.delete {i} {j} s) = omega (arith, lev-delete i j, lev-no_less s)
  lev-no_less (Script.insert {i} {j} s) = omega (arith, lev-insert i j, lev-no_less s)
  lev-no_less (Script.replace {i} {j} s) = omega (arith, lev-replace i j, lev-no_less s)

  pub lev-IsLeast : (i j : ℕ) → IsLeast f g i j (lev f g i j)
  lev-IsLeast i j = record { script = lev-Script i j; no_less = λ n s. lev-no_less s }

-- The other direction costs the same.
flip : {f g : ℕ → ℕ} {i j n : ℕ} → Script f g i j n → Script g f j i n
flip Script.start = Script.start
flip (Script.delete s) = Script.insert (flip s)
flip (Script.insert s) = Script.delete (flip s)
flip {f} {g} (Script.replace {i} {j} {n} s) =
    subst (Script g f _ _) (cost_comm (f i) (g j) n) (Script.replace (flip s))
  where
    cost_comm : (x y n : ℕ) → n + cost y x ≡ n + cost x y
    cost_comm x y n = ground arith

pub IsLeast-flip : {f g : ℕ → ℕ} {i j d : ℕ} → IsLeast f g i j d → IsLeast g f j i d
IsLeast-flip u = record { script = flip u.script; no_less = λ n s. u.no_less n (flip s) }

-- Only the symbols before the two ends matter.
Script-ext :
    {f g f' g' : ℕ → ℕ} {i j n : ℕ}
    → ((k : ℕ) → k < i → f k ≡ f' k)
    → ((k : ℕ) → k < j → g k ≡ g' k)
    → Script f g i j n
    → Script f' g' i j n
Script-ext u v Script.start = Script.start
Script-ext u v (Script.delete s) = Script.delete (Script-ext (λ k h. u k (omega arith)) v s)
Script-ext u v (Script.insert s) = Script.insert (Script-ext u (λ k h. v k (omega arith)) s)
Script-ext {f} {g} {f'} {g'} u v (Script.replace {i} {j} {n} s) =
    subst (Script f' g' _ _)
      (ap₂ (λ x y. n + cost x y) (sym (u i (omega arith))) (sym (v j (omega arith))))
      (Script.replace (Script-ext (λ k h. u k (omega arith)) (λ k h. v k (omega arith)) s))

pub IsLeast-ext :
    {f g f' g' : ℕ → ℕ} {i j d : ℕ}
    → ((k : ℕ) → k < i → f k ≡ f' k)
    → ((k : ℕ) → k < j → g k ≡ g' k)
    → IsLeast f g i j d
    → IsLeast f' g' i j d
IsLeast-ext u v least = record {
  script = Script-ext u v least.script;
  no_less = λ n s. least.no_less n (Script-ext (λ k h. sym (u k h)) (λ k h. sym (v k h)) s);
}
