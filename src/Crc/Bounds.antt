-- ===== src/Crc/Bounds.antt =====
-- The CRCs of 16 and 8 bits stay within their words.
use esp_misc.Common.{ℕ, ◌^◌, ◌<◌, List, [], ◌∷◌, All, bit_xor, arith}
use esp_misc.Common.Masks.{bit_xor-lt}
use esp_misc.Crc.{crc8_compute_buf, crc16_compute_buf, crc16_update8, shift_bits}
use esp_misc.Crc.Bitwise.{IsByte, shift_bits-lt}

pub crc16-lt :
    (buf : List ℕ) (c : ℕ) → c < 2 ^ 16 → All IsByte buf → crc16_compute_buf c buf < 2 ^ 16
unfolding crc16_compute_buf crc16_update8
crc16-lt [] c h hs = h
crc16-lt (b ∷ buf) c h (hb, hs) =
    crc16-lt buf (shift_bits 0xa001 8 (bit_xor c b))
      (shift_bits-lt 16 0xa001 8 (bit_xor c b) (omega arith) (bit_xor-lt 16 c b h (omega arith))) hs

pub crc8-lt : (buf : List ℕ) (c : ℕ) → c < 2 ^ 8 → All IsByte buf → crc8_compute_buf c buf < 2 ^ 8
unfolding crc8_compute_buf
crc8-lt [] c h hs = h
crc8-lt (b ∷ buf) c h (hb, hs) =
    crc8-lt buf (shift_bits 0x8c 8 (bit_xor c b))
      (shift_bits-lt 8 0x8c 8 (bit_xor c b) (omega arith) (bit_xor-lt 8 c b h hb)) hs
