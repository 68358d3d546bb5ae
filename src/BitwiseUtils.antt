-- ===== src/BitwiseUtils.antt =====
-- bitwise_utils.c: the highest bit of a word, the number of its bits, and words read from bytes.
pub mod Endian
pub mod HighBit
pub mod Ones
mod Tests
use esp_misc.Common.{
  ℕ, zero, suc, ◌+◌, ◌-◌, ◌*◌, ◌/◌, ◌%◌, ◌^◌, Bool, Option, none, some, List, get_or, bit_and,
  bit_or, ltb, ◌==◌, if◌then◌else◌,
}

-- The loop of `hibit8`; `none` is out of fuel.
unfoldable pub hibit8_loop : (fuel input output : ℕ) → Option ℕ
hibit8_loop zero input output = none
hibit8_loop (suc fuel) input output =
    let rest = hibit8_loop fuel (input / 2) ((output + 1) % 256) in
    if input / 2 == 0 then some output else rest

-- `hibit8`
unfoldable pub hibit8 : (fuel input : ℕ) → Option ℕ
hibit8 fuel input = hibit8_loop fuel input 0

-- `n |= (n >> s)`
abbrev pub or_shifted : (s n : ℕ) → ℕ
or_shifted s n = bit_or n (n / 2 ^ s)

-- `hibit32`
unfoldable pub hibit32 : ℕ → ℕ
hibit32 n =
    let m = or_shifted 16 (or_shifted 8 (or_shifted 4 (or_shifted 2 (or_shifted 1 n)))) in
    (m + 2 ^ 32 - m / 2) % 2 ^ 32

-- The loop of `totalBitsSet32`; `none` is out of fuel.
unfoldable pub total_loop : (fuel v c : ℕ) → Option ℕ
total_loop zero v c = none
total_loop (suc fuel) v c =
    let rest = total_loop fuel (bit_and v (v - 1)) ((c + 1) % 2 ^ 32) in
    if v == 0 then some c else rest

-- `totalBitsSet32`
unfoldable pub total_bits_set32 : (fuel v : ℕ) → Option ℕ
total_bits_set32 fuel v = total_loop fuel v 0

-- `if (len > 4) len = 4`; a negative length is none.
abbrev pub capped : ℕ → ℕ
capped len = if ltb 4 len then 4 else len

-- The loop of `bigEndianULong`, `left` rounds from `i` on.
unfoldable pub big_endian_loop : (left i out_num : ℕ) → List ℕ → ℕ
big_endian_loop zero i out_num buf = out_num
big_endian_loop (suc left) i out_num buf =
    big_endian_loop left (i + 1) (bit_or out_num (get_or buf i 0 * 2 ^ (24 - i * 8) % 2 ^ 32)) buf

-- `bigEndianULong`
unfoldable pub big_endian_ulong : List ℕ → (len : ℕ) → ℕ
big_endian_ulong buf len = big_endian_loop (capped len) 0 0 buf

-- The loop of `littleEndianULong`.
unfoldable pub little_endian_loop : (left i out_num : ℕ) → List ℕ → ℕ
little_endian_loop zero i out_num buf = out_num
little_endian_loop (suc left) i out_num buf =
    little_endian_loop left (i + 1) (bit_or out_num (get_or buf i 0 * 2 ^ (i * 8) % 2 ^ 32)) buf

-- `littleEndianULong`
unfoldable pub little_endian_ulong : List ℕ → (len : ℕ) → ℕ
little_endian_ulong buf len = little_endian_loop (capped len) 0 0 buf
