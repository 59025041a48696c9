-- ===== src/Gpu/Probe/Bits.antt =====
-- The bits of the masks that index_probe_kernel builds.
use native.Mathlib.Nat.{pow-succ', pow-zero, div-one, div-div-eq-div-mul}
use mathlib.Core.Path.{fun_ext}
use nimble_cas.Prelude.{
  ℕ, zero, suc, ◌+◌, ◌*◌, ◌/◌, ◌%◌, ◌^◌, ◌<◌, ◌≡◌, refl, sym, ap, ap₂, ◌∙◌, Bool, if◌then◌else◌,
  ltb, ltb→lt, inl, inr, Bool-cases, arith,
}
use nimble_cas.Gpu.Probe.{candidate, may_match, ballot, probe_word}

abbrev pub bit_of : Bool → ℕ
bit_of b = if b then 1 else 0

ballot-low :
    (n : ℕ) (p : ℕ → Bool) → ballot (suc n) p ≡ bit_of (p 0) + 2 * ballot n (λ k. p (suc k))
unfolding ballot
ballot-low zero p = ground (arith, pow-zero 2)
ballot-low (suc n) p = elim (Bool-cases (p (suc n))) [
  | inl e ↦ rw e (omega (arith, ballot-low n p, pow-succ' 2 n))
  | inr e ↦ rw e (omega (arith, ballot-low n p))
]

-- Bit i of a ballot is the predicate of lane i.
pub ballot-bit : (n i : ℕ) (p : ℕ → Bool) → i < n → ballot n p / 2 ^ i % 2 ≡ bit_of (p i)
ballot-bit zero i p h = absurd (omega arith)
ballot-bit (suc n) zero p h = ap (λ t. t % 2) (div-one (ballot (suc n) p)) ∙ low
  where
    low : ballot (suc n) p % 2 ≡ bit_of (p 0)
    low = ground (arith, ballot-low n p)
ballot-bit (suc n) (suc i) p h =
    ap (λ t. ballot (suc n) p / t % 2) (pow-succ' 2 i)
    ∙ ap (λ t. t % 2) (sym (div-div-eq-div-mul (ballot (suc n) p) 2 (2 ^ i)))
    ∙ ap (λ t. t / 2 ^ i % 2) half
    ∙ ballot-bit n i (λ k. p (suc k)) (omega arith)
  where
    half : ballot (suc n) p / 2 ≡ ballot n (λ k. p (suc k))
    half = ground (arith, ballot-low n p)

two_pow_add : (m n : ℕ) → 2 ^ (m + n) ≡ 2 ^ n * 2 ^ m
two_pow_add m zero = ap (λ t. 2 ^ t) {x = m + 0} {y = m} (omega arith) ∙ omega (arith, pow-zero 2)
two_pow_add m (suc n) =
    ap (λ t. 2 ^ t) {x = m + suc n} {y = suc (m + n)} (omega arith)
    ∙ pow-succ' 2 (m + n)
    ∙ ap (λ t. 2 * t) (two_pow_add m n)
    ∙ middle
    ∙ ap (λ t. t * 2 ^ m) (sym (pow-succ' 2 n))
  where
    middle : 2 * (2 ^ n * 2 ^ m) ≡ 2 * 2 ^ n * 2 ^ m
    middle = grind arith

-- Two ballots side by side are one.
ballot-append :
    (m n : ℕ) (p : ℕ → Bool) → ballot (m + n) p ≡ ballot m p + ballot n (λ k. p (m + k)) * 2 ^ m
unfolding ballot
ballot-append m zero p = ap (λ t. ballot t p) {x = m + 0} {y = m} (omega arith) ∙ omega arith
ballot-append m (suc n) p =
    ap (λ t. ballot t p) {x = m + suc n} {y = suc (m + n)} (omega arith)
    ∙ elim (Bool-cases (p (m + n))) [
      | inl e ↦ rw e (grind (arith, ballot-append m n p, two_pow_add m n))
      | inr e ↦ rw e (grind (arith, ballot-append m n p))
    ]

pub candidate_ext :
    (f g : ℕ → ℕ) (count gk index : ℕ)
    → ((k : ℕ) → k < count → f k ≡ g k)
    → candidate f count gk index ≡ candidate g count gk index
unfolding candidate
candidate_ext f g count gk index same = elim (Bool-cases (ltb index count)) [
  | inl e ↦ rw e (ap (may_match gk) (same index (ltb→lt index count e)))
  | inr e ↦ rw e refl
]

pub probe_word_ext :
    (f g : ℕ → ℕ) (count gk base : ℕ)
    → ((k : ℕ) → k < count → f k ≡ g k)
    → probe_word f count gk base ≡ probe_word g count gk base
unfolding probe_word
probe_word_ext f g count gk base same =
    ap₂ (λ p q. ballot 32 p + ballot 32 q * 2 ^ 32)
      (fun_ext λ lane. candidate_ext f g count gk (base + lane) same)
      (fun_ext λ lane. candidate_ext f g count gk (base + 32 + lane) same)

-- Bit i of a word is the candidate of clause base + i.
pub probe_word-bit :
    (f : ℕ → ℕ) (count gk base i : ℕ)
    → i < 64
    → probe_word f count gk base / 2 ^ i % 2 ≡ bit_of (candidate f count gk (base + i))
unfolding probe_word
probe_word-bit f count gk base i h =
    ap (λ t. t / 2 ^ i % 2) whole ∙ ballot-bit 64 i (λ k. candidate f count gk (base + k)) h
  where
    whole : probe_word f count gk base ≡ ballot 64 (λ k. candidate f count gk (base + k))
    whole =
        ap (λ q. ballot 32 (λ k. candidate f count gk (base + k)) + ballot 32 q * 2 ^ 32)
          (fun_ext λ lane. ap (candidate f count gk) (omega arith))
        ∙ sym (ballot-append 32 32 λ k. candidate f count gk (base + k))
