-- ===== src/BitwiseUtils/HighBit.antt =====
-- The highest bit: the cascade of shifts fills in all lower bits.
use native.Mathlib.Nat.{div-div-eq-div-mul, div-one, zero-div, one-le-pow}
use esp_misc.Common.{
  ℕ, zero, suc, ◌+◌, ◌-◌, ◌*◌, ◌/◌, ◌%◌, ◌^◌, ◌<◌, ◌≤◌, ◌≡◌, refl, sym, ◌∙◌, ap, some, bit_or,
  arith, ltb, true, false, ==-false, ◌==◌,
}
use esp_misc.Common.Tables.{holds_below, table_holds}
use esp_misc.Common.Masks.{bit_or_sum, pow_double, div_pow_suc}
use esp_misc.Common.Ors.{bit_or_zero, bit_or_comm, bit_or_assoc, bit_or-shift, bit_or_ones}
use esp_misc.BitwiseUtils.{or_shifted, hibit32, hibit8_loop, hibit8}

-- The bits of `n` and of its first `s - 1` shifts, put together.
abbrev smeared : (s n : ℕ) → ℕ
smeared zero n = 0
smeared (suc s) n = bit_or n (smeared s (n / 2))

smeared_add : (s t n : ℕ) → smeared (s + t) n ≡ bit_or (smeared s n) (smeared t (n / 2 ^ s))
smeared_add zero t n =
    ap (λ k. smeared k n) (let e : 0 + t ≡ t = omega arith in e)
    ∙ ap (smeared t) (sym (div-one n))
    ∙ sym (bit_or_comm 0 (smeared t (n / 1)) ∙ bit_or_zero (smeared t (n / 1)))
smeared_add (suc s) t n =
    ap (λ k. smeared k n) (let e : suc s + t ≡ suc (s + t) = omega arith in e)
    ∙ ap (bit_or n) (smeared_add s t (n / 2))
    ∙ sym (bit_or_assoc n (smeared s (n / 2)) (smeared t (n / 2 / 2 ^ s)))
    ∙ ap (λ m. bit_or (smeared (suc s) n) (smeared t m)) (sym (div_pow_suc s n))

half_of_shift : (s n : ℕ) → n / 2 / 2 ^ s ≡ n / 2 ^ s / 2
half_of_shift s n =
    div-div-eq-div-mul n 2 (2 ^ s)
    ∙ ap (λ t. n / t) (let e : 2 * 2 ^ s ≡ 2 ^ s * 2 = omega arith in e)
    ∙ sym (div-div-eq-div-mul n (2 ^ s) 2)

smeared-shift : (s t n : ℕ) → smeared t n / 2 ^ s ≡ smeared t (n / 2 ^ s)
smeared-shift s zero n = zero-div (2 ^ s)
smeared-shift s (suc t) n =
    bit_or-shift s n (smeared t (n / 2))
    ∙ ap (bit_or (n / 2 ^ s)) (smeared-shift s t (n / 2) ∙ ap (smeared t) (half_of_shift s n))

doubled : (s n : ℕ) → or_shifted s (smeared s n) ≡ smeared (s + s) n
doubled s n = ap (bit_or (smeared s n)) (smeared-shift s s n) ∙ sym (smeared_add s s n)

smeared-zero : (t : ℕ) → smeared t 0 ≡ 0
smeared-zero zero = refl
smeared-zero (suc t) = ap (bit_or 0) (smeared-zero t)

-- Behind the highest bit, all bits are filled in.
smeared_full : (k t n : ℕ) → 2 ^ k ≤ n → n < 2 ^ suc k → k < t → smeared t n ≡ 2 ^ suc k - 1
smeared_full k zero n low high lt = absurd (omega arith)
smeared_full zero (suc t) n low high lt =
    ap (smeared (suc t)) (let e : n ≡ 1 = omega arith in e) ∙ ap (bit_or 1) (smeared-zero t)
smeared_full (suc k) (suc t) n low high lt =
    let pow = 2 ^ suc k in
    let rest : n - pow < pow = omega (arith, pow_double (suc k)) in
    ap (bit_or n) (
      smeared_full k t (n / 2) (omega (arith, pow_double k)) (omega (arith, pow_double (suc k)))
        (omega arith))
    ∙ ap (λ m. bit_or m (pow - 1))
        ((let e : n ≡ 1 * pow + (n - pow) = omega arith in e)
          ∙ sym (bit_or_sum (suc k) 1 (n - pow) rest))
    ∙ bit_or_assoc (1 * pow) (n - pow) (pow - 1)
    ∙ ap (bit_or (1 * pow)) (bit_or_ones (suc k) (n - pow) rest)
    ∙ bit_or_sum (suc k) 1 (pow - 1) (omega arith)
    ∙ omega (arith, pow_double (suc k))

cascade :
    (n : ℕ)
    → or_shifted 16 (or_shifted 8 (or_shifted 4 (or_shifted 2 (or_shifted 1 n)))) ≡ smeared 32 n
cascade n =
    ap (λ m. or_shifted 16 (or_shifted 8 (or_shifted 4 (or_shifted 2 (or_shifted 1 m)))))
      (sym (bit_or_zero n))
    ∙ ap (λ m. or_shifted 16 (or_shifted 8 (or_shifted 4 (or_shifted 2 m)))) (doubled 1 n)
    ∙ ap (λ m. or_shifted 16 (or_shifted 8 (or_shifted 4 m))) (doubled 2 n)
    ∙ ap (λ m. or_shifted 16 (or_shifted 8 m)) (doubled 4 n)
    ∙ ap (or_shifted 16) (doubled 8 n)
    ∙ doubled 16 n

pow_fits : (k : ℕ) → k < 32 → ltb (2 ^ k) (2 ^ 32) ≡ true
unfolding holds_below
pow_fits = table_holds 32 (λ k. ltb (2 ^ k) (2 ^ 32)) refl

hibit32_lem : (k n : ℕ) → k < 32 → 2 ^ k ≤ n → n < 2 ^ suc k → hibit32 n ≡ 2 ^ k
unfolding hibit32
hibit32_lem k n lt low high =
    ap (λ m. (m + 2 ^ 32 - m / 2) % 2 ^ 32) (cascade n ∙ smeared_full k 32 n low high lt)
    ∙ (let fits : 2 ^ k < 4294967296 = ground (arith, pow_fits k lt) in
        let half : (2 ^ suc k - 1) / 2 ≡ 2 ^ k - 1 = omega (arith, pow_double k) in
        ap (λ h. (2 ^ suc k - 1 + 4294967296 - h) % 4294967296) half ∙ omega (arith, pow_double k))

hibit8_loop_lem :
    (fuel k n output : ℕ)
    → 2 ^ k ≤ n
    → n < 2 ^ suc k
    → k < fuel
    → output + k < 256
    → hibit8_loop fuel n output ≡ some (output + k)
unfolding hibit8_loop
hibit8_loop_lem zero k n output low high lt fits = absurd (omega arith)
hibit8_loop_lem (suc fuel) zero n output low high lt fits = ground arith
hibit8_loop_lem (suc fuel) (suc k) n output low high lt fits =
    let some_left : (n / 2 == 0) ≡ false =
      ==-false (n / 2) 0 (omega (arith, pow_double k, one-le-pow k 2)) in
    rw some_left (
      hibit8_loop_lem fuel k (n / 2) ((output + 1) % 256) (omega (arith, pow_double k))
        (omega (arith, pow_double (suc k))) (omega arith) (omega arith)
      ∙ ap some (let e : (output + 1) % 256 + k ≡ output + suc k = omega arith in e))

-- For a word whose highest bit is bit `k`, `hibit32` returns the word with that bit alone; for a byte,
-- `hibit8` returns `k`, and 8 rounds of its loop are enough.
pub high_bit :
    (k n : ℕ)
    → k < 32
    → 2 ^ k ≤ n
    → n < 2 ^ suc k
    → (hibit32 n ≡ 2 ^ k) × (k < 8 → hibit8 8 n ≡ some k)
unfolding hibit8
high_bit k n lt low high = (
  hibit32_lem k n lt low high,
  λ small.
      hibit8_loop_lem 8 k n 0 low high small (omega arith)
      ∙ ap some (let e : 0 + k ≡ k = omega arith in e),
)
