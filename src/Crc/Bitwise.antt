-- ===== src/Crc/Bitwise.antt =====
-- The table-driven checks against their bit-by-bit definitions.
use mathlib.Core.Path.{ap₂}
use native.Mathlib.Nat.{pow-suc}
use esp_misc.Common.{
  ℕ, zero, suc, ◌*◌, ◌/◌, ◌%◌, ◌^◌, ◌<◌, ◌≡◌, refl, sym, ◌∙◌, ap, List, [], ◌∷◌, ◌++◌, bit_and,
  bit_xor, get_or, arith, ◌⊎◌, inl, inr, All,
}
use esp_misc.Common.Masks.{
  bit_xor-lt, bit_xor-half, bit_xor_assoc, bit_xor_sum, bit_and_low, bit_xor-zero, bit_xor_comm,
  bit_xor_twice, bit_xor-shift,
}
use esp_misc.Common.Bits.{bit_xor_step}
use esp_misc.Common.Tables.{holds_below, table_eq}
use esp_misc.Crc.Tables.{crc_table, dscrc_table}
use esp_misc.Crc.{
  crc32_update8, crc32_loop, crc32_compute_buf, shift_bit, shift_bits, crc8_compute_buf,
  onewire_crc8_loop, onewire_crc8,
}

abbrev pub IsByte : ℕ → Type 0
IsByte b = b < 256

abbrev pub IsWord : ℕ → Type 0
IsWord w = w < 2 ^ 32

-- The reversed polynomial of CRC-32.
abbrev pub poly32 : ℕ
poly32 = 0xedb88320

-- CRC-32 bit by bit.
unfoldable pub crc32_bits : ℕ → List ℕ → ℕ
crc32_bits crc [] = crc
crc32_bits crc (b ∷ buf) = crc32_bits (shift_bits poly32 8 (bit_xor crc b)) buf

crc_table_lem : (i : ℕ) → i < 256 → get_or crc_table i 0 ≡ shift_bits poly32 8 i
unfolding holds_below crc_table shift_bits shift_bit
crc_table_lem = table_eq 256 (λ i. get_or crc_table i 0) (shift_bits poly32 8) refl

dscrc_table_lem : (i : ℕ) → i < 256 → get_or dscrc_table i 0 ≡ shift_bits 0x8c 8 i
unfolding holds_below dscrc_table shift_bits shift_bit
dscrc_table_lem = table_eq 256 (λ i. get_or dscrc_table i 0) (shift_bits 0x8c 8) refl

pub shift_bit-even : (p a : ℕ) → a % 2 ≡ 0 → shift_bit p a ≡ a / 2
unfolding shift_bit
shift_bit-even p a e = ground (arith, bit_and_low 1 a 1)

pub shift_bit-odd : (p a : ℕ) → a % 2 ≡ 1 → shift_bit p a ≡ bit_xor (a / 2) p
unfolding shift_bit
shift_bit-odd p a e = ground (arith, bit_and_low 1 a 1)

pub shift_bit-lt : (k p a : ℕ) → p < 2 ^ k → a < 2 ^ k → shift_bit p a < 2 ^ k
unfolding shift_bit
shift_bit-lt k p a hp ha = ground (arith, bit_xor-lt k (a / 2) p)

pub shift_bits-lt : (k p n a : ℕ) → p < 2 ^ k → a < 2 ^ k → shift_bits p n a < 2 ^ k
unfolding shift_bits
shift_bits-lt k p zero a hp ha = ha
shift_bits-lt k p (suc n) a hp ha =
    shift_bits-lt k p n (shift_bit p a) hp (shift_bit-lt k p a hp ha)

xor_swap : (a b c : ℕ) → bit_xor (bit_xor a b) c ≡ bit_xor (bit_xor a c) b
xor_swap a b c = bit_xor_assoc a b c ∙ ap (bit_xor a) (bit_xor_comm b c) ∙ sym (bit_xor_assoc a c b)

-- A shift takes an even part along, and treats the rest as it would alone.
shift_bit-xor :
    (p h s : ℕ) → h % 2 ≡ 0 → shift_bit p (bit_xor h s) ≡ bit_xor (h / 2) (shift_bit p s)
shift_bit-xor p h s e = elim (bit s (s % 2) refl) [
  | inl z ↦
      shift_bit-even p (bit_xor h s) (omega (arith, bit_xor_step h s))
      ∙ bit_xor-half h s
      ∙ ap (bit_xor (h / 2)) (sym (shift_bit-even p s z))
  | inr o ↦
      shift_bit-odd p (bit_xor h s) (omega (arith, bit_xor_step h s))
      ∙ ap (λ t. bit_xor t p) (bit_xor-half h s)
      ∙ bit_xor_assoc (h / 2) (s / 2) p
      ∙ ap (bit_xor (h / 2)) (sym (shift_bit-odd p s o))
]
  where
    bit : (s r : ℕ) → s % 2 ≡ r → (s % 2 ≡ 0) ⊎ (s % 2 ≡ 1)
    bit s r e = omega arith

-- Eight shifts move the high part down and mix in what the low byte gives.
pub shift_bits-fields :
    (p n h s : ℕ) → shift_bits p n (bit_xor (h * 2 ^ n) s) ≡ bit_xor h (shift_bits p n s)
unfolding shift_bits
shift_bits-fields p zero h s = ap (λ t. bit_xor t s) (omega arith)
shift_bits-fields p (suc n) h s =
    ap (λ t. shift_bits p n (shift_bit p (bit_xor t s))) (regroup h n)
    ∙ ap (shift_bits p n) (shift_bit-xor p (2 * (h * 2 ^ n)) s (omega arith))
    ∙ ap (λ t. shift_bits p n (bit_xor t (shift_bit p s))) (omega arith)
    ∙ shift_bits-fields p n h (shift_bit p s)
  where
    regroup : (h n : ℕ) → h * 2 ^ suc n ≡ 2 * (h * 2 ^ n)
    regroup h n = omega (arith, ap (λ (t : ℕ). h * t) (pow-suc 2 n))

shift_byte : (p w : ℕ) → shift_bits p 8 w ≡ bit_xor (w / 256) (shift_bits p 8 (w % 256))
shift_byte p w =
    ap (shift_bits p 8) (omega (arith, bit_xor_sum 8 (w / 256) (w % 256)))
    ∙ shift_bits-fields p 8 (w / 256) (w % 256)

byte_high : (w b : ℕ) → b < 256 → bit_xor w b / 256 ≡ w / 256
byte_high w b h =
    bit_xor-shift 8 w b
    ∙ ap (bit_xor (w / 256)) (omega arith)
    ∙ bit_xor_comm (w / 256) 0
    ∙ bit_xor-zero (w / 256)

pub crc32_update8_lem :
    (crc b : ℕ) → b < 256 → crc32_update8 crc b ≡ shift_bits poly32 8 (bit_xor crc b)
unfolding crc32_update8
crc32_update8_lem crc b h =
    let low : bit_and (bit_xor crc b) 0xff ≡ bit_xor crc b % 256 =
      bit_and_low 8 (bit_xor crc b) 0xff refl in
    ap₂ bit_xor (sym (byte_high crc b h))
      (ap (λ i. get_or crc_table i 0) low ∙ crc_table_lem (bit_xor crc b % 256) (omega arith))
    ∙ sym (shift_byte poly32 (bit_xor crc b))

crc32_loop-bits :
    (buf : List ℕ) (crc : ℕ) → All IsByte buf → crc32_loop crc buf ≡ crc32_bits crc buf
unfolding crc32_loop crc32_bits
crc32_loop-bits [] crc h = refl
crc32_loop-bits (b ∷ buf) crc (hb, h) =
    ap (λ c. crc32_loop c buf) (crc32_update8_lem crc b hb)
    ∙ crc32_loop-bits buf (shift_bits poly32 8 (bit_xor crc b)) h

-- On bytes the table-driven `Crc32_ComputeBuf` is the bit-by-bit CRC-32 with the reversed polynomial
-- 0xEDB88320, all bits flipped before and after, whatever word it goes on from.
pub crc32_compute_buf-bits :
    (in_crc : ℕ) (buf : List ℕ)
    → All IsByte buf
    → crc32_compute_buf in_crc buf ≡ bit_xor (crc32_bits (bit_xor in_crc 0xffffffff) buf) 0xffffffff
unfolding crc32_compute_buf
crc32_compute_buf-bits in_crc buf h =
    ap (λ c. bit_xor c 0xffffffff) (crc32_loop-bits buf (bit_xor in_crc 0xffffffff) h)

crc32_loop-append :
    (xs ys : List ℕ) (crc : ℕ) → crc32_loop crc (xs ++ ys) ≡ crc32_loop (crc32_loop crc xs) ys
unfolding crc32_loop
crc32_loop-append [] ys crc = refl
crc32_loop-append (x ∷ xs) ys crc = crc32_loop-append xs ys (crc32_update8 crc x)

-- The checksum of two buffers one after the other is that of the second, going on from that of the
-- first.
pub crc32_compute_buf-append :
    (in_crc : ℕ) (xs ys : List ℕ)
    → crc32_compute_buf (crc32_compute_buf in_crc xs) ys ≡ crc32_compute_buf in_crc (xs ++ ys)
unfolding crc32_compute_buf
crc32_compute_buf-append in_crc xs ys =
    let mid = crc32_loop (bit_xor in_crc 0xffffffff) xs in
    ap (λ c. bit_xor (crc32_loop c ys) 0xffffffff) (bit_xor_twice mid 0xffffffff)
    ∙ ap (λ c. bit_xor c 0xffffffff) (sym (crc32_loop-append xs ys (bit_xor in_crc 0xffffffff)))

onewire_crc8_loop-bits :
    (addr : List ℕ) (crc : ℕ)
    → crc < 256
    → All IsByte addr
    → onewire_crc8_loop crc addr ≡ crc8_compute_buf crc addr
unfolding onewire_crc8_loop crc8_compute_buf
onewire_crc8_loop-bits [] crc hc h = refl
onewire_crc8_loop-bits (b ∷ addr) crc hc (hb, h) =
    ap (λ c. onewire_crc8_loop c addr) (dscrc_table_lem (bit_xor crc b) (bit_xor-lt 8 crc b hc hb))
    ∙ onewire_crc8_loop-bits addr (shift_bits 0x8c 8 (bit_xor crc b))
        (shift_bits-lt 8 0x8c 8 (bit_xor crc b) (omega arith) (bit_xor-lt 8 crc b hc hb)) h

-- On bytes the table-driven `onewire_crc8` is `Crc8_ComputeBuf` from 0.
pub onewire_crc8_lem :
    (addr : List ℕ) → All IsByte addr → onewire_crc8 addr ≡ crc8_compute_buf 0 addr
unfolding onewire_crc8
onewire_crc8_lem addr h = onewire_crc8_loop-bits addr 0 (omega arith) h
