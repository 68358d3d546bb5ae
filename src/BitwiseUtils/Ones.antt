-- ===== src/BitwiseUtils/Ones.antt =====
-- The number of bits: each round of the loop takes the lowest 1 out of the word.
use esp_misc.Common.{
  ℕ, zero, suc, ◌+◌, ◌-◌, ◌*◌, ◌/◌, ◌%◌, ◌^◌, ◌<◌, ◌≤◌, ◌≡◌, ◌⊎◌, inl, inr, refl, sym, ◌∙◌, ap,
  some, bit_and, min, arith, ==-false,
}
use esp_misc.Common.Bits.{bit_and_step}
use esp_misc.Common.Masks.{pow_double, bit_and_comm, bit_and-zero}
use esp_misc.BitwiseUtils.{total_loop, total_bits_set32}

-- The number of ones among the lowest `w` bits.
abbrev pub ones : (w v : ℕ) → ℕ
ones zero v = 0
ones (suc w) v = v % 2 + ones w (v / 2)

ones-zero : (w : ℕ) → ones w 0 ≡ 0
ones-zero zero = refl
ones-zero (suc w) = omega (arith, ones-zero w)

ones-le : (w v : ℕ) → ones w v ≤ w
ones-le zero v = omega arith
ones-le (suc w) v = omega (arith, ones-le w (v / 2))

bit_and-le_below : (n a b : ℕ) → a ≤ n → bit_and a b ≤ a
bit_and-le_below n zero b h = omega (arith, bit_and_comm 0 b, bit_and-zero b)
bit_and-le_below zero (suc a) b h = absurd (omega arith)
bit_and-le_below (suc n) (suc a) b h =
    omega (arith, bit_and_step (suc a) b, bit_and-le_below n (suc a / 2) (b / 2) (omega arith))

bit_and_self_below : (n a : ℕ) → a ≤ n → bit_and a a ≡ a
bit_and_self_below zero zero h = refl
bit_and_self_below zero (suc a) h = absurd (omega arith)
bit_and_self_below (suc n) a h =
    omega (arith, bit_and_step a a, bit_and_self_below n (a / 2) (omega arith))

parity : (v : ℕ) → (v % 2 ≡ 0) ⊎ (v % 2 ≡ 1)
parity v = ground arith

-- `v & (v - 1)` of an odd word drops bit 0; of an even one it works on the half.
drop_odd : (v : ℕ) → v % 2 ≡ 1 → bit_and v (v - 1) ≡ v / 2 * 2
drop_odd v e =
    let half : (v - 1) / 2 ≡ v / 2 = omega arith in
    bit_and_step v (v - 1)
    ∙ ap (λ t. bit_and (v / 2) t * 2 + min (v % 2) ((v - 1) % 2)) half
    ∙ omega (arith, bit_and_self_below (v / 2) (v / 2) (omega arith))

drop_even : (v : ℕ) → v % 2 ≡ 0 → 0 < v → bit_and v (v - 1) ≡ bit_and (v / 2) (v / 2 - 1) * 2
drop_even v e pos =
    let half : (v - 1) / 2 ≡ v / 2 - 1 = omega arith in
    bit_and_step v (v - 1)
    ∙ ap (λ t. bit_and (v / 2) t * 2 + min (v % 2) ((v - 1) % 2)) half
    ∙ omega arith

ones_drop : (w v : ℕ) → 0 < v → v < 2 ^ w → ones w v ≡ suc (ones w (bit_and v (v - 1)))
ones_drop zero v pos h = absurd (omega arith)
ones_drop (suc w) v pos h = elim (parity v) [
  | inl e ↦
      (let shorter : ones w (v / 2) ≡ suc (ones w (bit_and (v / 2) (v / 2 - 1))) =
          ones_drop w (v / 2) (omega arith) (omega (arith, pow_double w)) in
        let half : bit_and (v / 2) (v / 2 - 1) * 2 / 2 ≡ bit_and (v / 2) (v / 2 - 1) =
          omega arith in
        omega (arith, shorter, ap (ones w) half)
        ∙ ap (λ t. suc (ones (suc w) t)) (sym (drop_even v e pos)))
  | inr e ↦
      (let half : v / 2 * 2 / 2 ≡ v / 2 = omega arith in
        omega (arith, ap (ones w) half) ∙ ap (λ t. suc (ones (suc w) t)) (sym (drop_odd v e)))
]

total_loop_lem :
    (fuel v c : ℕ)
    → v < 2 ^ 32
    → ones 32 v < fuel
    → c + ones 32 v < 2 ^ 32
    → total_loop fuel v c ≡ some (c + ones 32 v)
unfolding total_loop
total_loop_lem zero v c low enough fits = absurd (omega arith)
total_loop_lem (suc fuel) zero c low enough fits = ap some (let e : c ≡ c + 0 = omega arith in e)
total_loop_lem (suc fuel) (suc v) c low enough fits =
    let left = bit_and (suc v) (suc v - 1) in
    let drop : ones 32 (suc v) ≡ suc (ones 32 left) = ones_drop 32 (suc v) (omega arith) low in
    let le : left ≤ suc v = bit_and-le_below (suc v) (suc v) (suc v - 1) (omega arith) in
    rw (==-false (suc v) 0 (omega arith)) (
      total_loop_lem fuel left ((c + 1) % 2 ^ 32) (omega arith) (omega arith) (omega arith)
      ∙ ap some
          (let e : (c + 1) % 4294967296 + ones 32 left ≡ c + ones 32 (suc v) = omega arith in e))

-- `totalBitsSet32` returns the number of ones of a 32-bit word; 33 rounds are enough.
pub total_bits_set32_lem :
    (fuel v : ℕ) → v < 2 ^ 32 → 32 < fuel → total_bits_set32 fuel v ≡ some (ones 32 v)
unfolding total_bits_set32
total_bits_set32_lem fuel v low enough =
    total_loop_lem fuel v 0 low (omega (arith, ones-le 32 v)) (omega (arith, ones-le 32 v))
    ∙ ap some (let e : 0 + ones 32 v ≡ ones 32 v = omega arith in e)
