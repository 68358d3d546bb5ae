-- ===== src/BitwiseUtils/Tests.antt =====
-- Concrete words.
use esp_misc.Common.{◌<◌, ◌≡◌, [], ◌∷◌, some, arith}
use esp_misc.BitwiseUtils.{hibit8, hibit32, big_endian_ulong, little_endian_ulong}
use esp_misc.BitwiseUtils.HighBit.{high_bit}
use esp_misc.BitwiseUtils.Endian.{endian_roundtrip}

high_bit_example : (hibit32 100 ≡ 64) × (6 < 8 → hibit8 8 100 ≡ some 6)
high_bit_example = high_bit 6 100 (omega arith) (omega arith) (omega arith)

endian_roundtrip_example :
    (big_endian_ulong (0x12 ∷ 0x34 ∷ 0x56 ∷ 0x78 ∷ 9 ∷ []) 5 ≡ 0x12345678)
    × (little_endian_ulong (0x78 ∷ 0x56 ∷ 0x34 ∷ 0x12 ∷ 9 ∷ []) 5 ≡ 0x12345678)
endian_roundtrip_example = endian_roundtrip 0x12345678 5 (9 ∷ []) (omega arith) (omega arith)
