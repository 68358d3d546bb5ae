-- ===== src/Crc/Tests.antt =====
-- Known check values, and the theorems at concrete messages.
use esp_misc.Common.{ℕ, ◌^◌, ◌<◌, ◌≡◌, ◌≢◌, refl, List, [], ◌∷◌, bit_xor, arith}
use esp_misc.Crc.Tables.{crc_table}
use esp_misc.Crc.{
  crc32_update8, crc32_loop, crc32_compute_buf, shift_bit, shift_bits, crc16_update8,
  crc16_compute_buf, onewire_crc8,
}
use esp_misc.Crc.Bitwise.{crc32_bits, crc32_compute_buf-bits}
use esp_misc.Crc.Guarantees.{one_byte_detected}

-- The digits 1 to 9 in ASCII.
abbrev digits : List ℕ
digits = 0x31 ∷ 0x32 ∷ 0x33 ∷ 0x34 ∷ 0x35 ∷ 0x36 ∷ 0x37 ∷ 0x38 ∷ 0x39 ∷ []

crc32_digits : crc32_compute_buf 0 digits ≡ 0xcbf43926
unfolding crc32_compute_buf crc32_loop crc32_update8 crc_table
crc32_digits = refl

crc16_digits : crc16_compute_buf 0xffff digits ≡ 0x4b37
unfolding crc16_compute_buf crc16_update8 shift_bits shift_bit
crc16_digits = refl

onewire_digits : onewire_crc8 digits ≡ 0xa1
unfolding onewire_crc8
onewire_digits = refl

crc32_compute_buf-bits_example :
    crc32_compute_buf 0 digits ≡ bit_xor (crc32_bits (bit_xor 0 0xffffffff) digits) 0xffffffff
crc32_compute_buf-bits_example = crc32_compute_buf-bits 0 digits (omega arith)

one_byte_detected_example :
    (onewire_crc8 (1 ∷ 2 ∷ 3 ∷ []) ≢ onewire_crc8 (1 ∷ 9 ∷ 3 ∷ []))
    × ((c : ℕ)
        → c < 2 ^ 16
        → crc16_compute_buf c (1 ∷ 2 ∷ 3 ∷ []) ≢ crc16_compute_buf c (1 ∷ 9 ∷ 3 ∷ []))
    × ((c : ℕ)
        → c < 2 ^ 32
        → crc32_compute_buf c (1 ∷ 2 ∷ 3 ∷ []) ≢ crc32_compute_buf c (1 ∷ 9 ∷ 3 ∷ []))
one_byte_detected_example =
    one_byte_detected (1 ∷ []) (3 ∷ []) 2 9 (omega arith) (omega arith) (omega arith) (omega arith)
      (omega arith)
