-- ===== src/Crc.antt =====
-- app_common/util/crc.c: CRC-32 by table, CRC-16 and CRC-8 bit by bit, and the Dallas CRC-8 by table.
-- A buffer and its length are the list of the bytes that the loop reads.
pub mod Bitwise
pub mod Bounds
pub mod Detect
pub mod Guarantees
mod Tests
pub mod Tables
use esp_misc.Common.{
  ℕ, zero, suc, ◌+◌, ◌/◌, ◌%◌, ◌^◌, Bool, true, false, List, [], ◌∷◌, bit_and, bit_xor, ◌==◌,
  if◌then◌else◌, get_or,
}
use Tables.{crc_table, dscrc_table}

-- One round of `Crc32_ComputeBuf`.
pub crc32_update8 : ℕ → ℕ → ℕ
crc32_update8 crc b = bit_xor (crc / 2 ^ 8) (get_or crc_table (bit_and (bit_xor crc b) 0xff) 0)

pub crc32_loop : ℕ → List ℕ → ℕ
crc32_loop crc [] = crc
crc32_loop crc (b ∷ buf) = crc32_loop (crc32_update8 crc b) buf

pub crc32_compute_buf : ℕ → List ℕ → ℕ
crc32_compute_buf in_crc buf = bit_xor (crc32_loop (bit_xor in_crc 0xffffffff) buf) 0xffffffff

-- One shift by a bit, with the polynomial `poly` mixed in when a 1 falls out.
pub shift_bit : ℕ → ℕ → ℕ
shift_bit poly crc = if bit_and crc 1 == 0 then crc / 2 else bit_xor (crc / 2) poly

-- `n` shifts.
pub shift_bits : ℕ → ℕ → ℕ → ℕ
shift_bits poly zero crc = crc
shift_bits poly (suc n) crc = shift_bits poly n (shift_bit poly crc)

pub crc16_update8 : ℕ → ℕ → ℕ
crc16_update8 crc a = shift_bits 0xa001 8 (bit_xor crc a)

pub crc16_compute_buf : ℕ → List ℕ → ℕ
crc16_compute_buf in_crc [] = in_crc
crc16_compute_buf in_crc (b ∷ buf) = crc16_compute_buf (crc16_update8 in_crc b) buf

pub crc8_compute_buf : ℕ → List ℕ → ℕ
crc8_compute_buf crc [] = crc
crc8_compute_buf crc (b ∷ buf) = crc8_compute_buf (shift_bits 0x8c 8 (bit_xor crc b)) buf

pub onewire_crc8_loop : ℕ → List ℕ → ℕ
onewire_crc8_loop crc [] = crc
onewire_crc8_loop crc (b ∷ addr) = onewire_crc8_loop (get_or dscrc_table (bit_xor crc b) 0) addr

unfoldable pub onewire_crc8 : List ℕ → ℕ
unfolding onewire_crc8_loop dscrc_table
onewire_crc8 addr = onewire_crc8_loop 0 addr
