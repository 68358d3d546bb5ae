-- ===== src/Crc/Detect.antt =====
-- What the checksums guarantee: a shift can be undone, so a change of one byte always shows; and a
-- message followed by its checksum checks to 0.
use mathlib.Core.Path.{ap₂}
use native.Mathlib.Nat.{pow-suc}
use esp_misc.Common.{
  ℕ, zero, suc, ◌+◌, ◌*◌, ◌/◌, ◌%◌, ◌^◌, ◌<◌, ◌≤◌, ◌≡◌, sym, ◌∙◌, ap, List, [], ◌∷◌, ◌++◌, bit_xor,
  ◌==◌, if◌then◌else◌, arith, ◌⊎◌, inl, inr, All,
}
use esp_misc.Common.Masks.{bit_xor-lt, bit_xor-shift, bit_xor_twice, bit_xor_comm}
use esp_misc.Crc.Bitwise.{IsByte, shift_bit-even, shift_bit-odd, shift_bit-lt, shift_bits-lt}
use esp_misc.Crc.{shift_bit, shift_bits}

-- The check of a buffer by eight shifts a byte.
unfoldable pub bits_loop : ℕ → ℕ → List ℕ → ℕ
bits_loop p crc [] = crc
bits_loop p crc (b ∷ buf) = bits_loop p (shift_bits p 8 (bit_xor crc b)) buf

bit_cases : (a : ℕ) → (a % 2 ≡ 0) ⊎ (a % 2 ≡ 1)
bit_cases a = omega arith

-- Words have `k + 1` bits, and the polynomial has the top one.
module _ (k p : ℕ) (top : p / 2 ^ k ≡ 1) (fits : p < 2 ^ suc k) where
  -- Whether a 1 fell out is seen at the top bit.
  unshift_bit : ℕ → ℕ
  unshift_bit r = if r / 2 ^ k == 1 then bit_xor r p * 2 + 1 else r * 2

  unshift_bit-shift_bit : (a : ℕ) → a < 2 ^ suc k → unshift_bit (shift_bit p a) ≡ a
  unfolding unshift_bit
  unshift_bit-shift_bit a h = elim (bit_cases a) [
    | inl even ↦
        let low : a / 2 / 2 ^ k ≡ 0 = grind (arith, pow-suc 2 k) in
        ground (arith, shift_bit-even p a even, low)
    | inr odd ↦
        let low : a / 2 / 2 ^ k ≡ 0 = grind (arith, pow-suc 2 k) in
        let high : bit_xor (a / 2) p / 2 ^ k ≡ 1 =
          bit_xor-shift k (a / 2) p ∙ ap₂ bit_xor low top in
        ground (arith, shift_bit-odd p a odd, high, bit_xor_twice (a / 2) p)
  ]

  shift_bits-injective :
      (n a b : ℕ) → a < 2 ^ suc k → b < 2 ^ suc k → shift_bits p n a ≡ shift_bits p n b → a ≡ b
  unfolding shift_bits
  shift_bits-injective zero a b ha hb e = e
  shift_bits-injective (suc n) a b ha hb e =
      sym (unshift_bit-shift_bit a ha)
      ∙ ap unshift_bit (
          shift_bits-injective n (shift_bit p a) (shift_bit p b) (shift_bit-lt (suc k) p a fits ha)
            (shift_bit-lt (suc k) p b fits hb) e)
      ∙ unshift_bit-shift_bit b hb

  xor_cancel : (c x y : ℕ) → bit_xor c x ≡ bit_xor c y → x ≡ y
  xor_cancel c x y e =
      sym (bit_xor_twice x c)
      ∙ ap (λ t. bit_xor t c) (bit_xor_comm x c ∙ e ∙ bit_xor_comm c y)
      ∙ bit_xor_twice y c

  module _ (wide : 256 ≤ 2 ^ suc k) where
    update-lt : (c b : ℕ) → c < 2 ^ suc k → b < 256 → shift_bits p 8 (bit_xor c b) < 2 ^ suc k
    update-lt c b hc hb =
        shift_bits-lt (suc k) p 8 (bit_xor c b) fits (bit_xor-lt (suc k) c b hc (omega arith))

    bits_loop-injective :
        (buf : List ℕ) (c d : ℕ)
        → All IsByte buf
        → c < 2 ^ suc k
        → d < 2 ^ suc k
        → bits_loop p c buf ≡ bits_loop p d buf
        → c ≡ d
    unfolding bits_loop
    bits_loop-injective [] c d h hc hd e = e
    bits_loop-injective (b ∷ buf) c d (hb, h) hc hd e = xor_cancel b c d (
        bit_xor_comm b c
        ∙ shift_bits-injective 8 (bit_xor c b) (bit_xor d b)
            (bit_xor-lt (suc k) c b hc (omega arith)) (bit_xor-lt (suc k) d b hd (omega arith))
            (bits_loop-injective buf _ _ h (update-lt c b hc hb) (update-lt d b hd hb) e)
        ∙ bit_xor_comm d b)

    pub one_byte :
        (pre post : List ℕ) (x y c : ℕ)
        → All IsByte pre
        → All IsByte post
        → x < 256
        → y < 256
        → c < 2 ^ suc k
        → bits_loop p c (pre ++ (x ∷ post)) ≡ bits_loop p c (pre ++ (y ∷ post))
        → x ≡ y
    unfolding bits_loop
    one_byte [] post x y c hpre hpost hx hy hc e = xor_cancel c x y (
        shift_bits-injective 8 (bit_xor c x) (bit_xor c y) (bit_xor-lt (suc k) c x hc (omega arith))
          (bit_xor-lt (suc k) c y hc (omega arith))
          (bits_loop-injective post _ _ hpost (update-lt c x hc hx) (update-lt c y hc hy) e))
    one_byte (b ∷ pre) post x y c (hb, hpre) hpost hx hy hc e =
        one_byte pre post x y (shift_bits p 8 (bit_xor c b)) hpre hpost hx hy (update-lt c b hc hb)
          e
