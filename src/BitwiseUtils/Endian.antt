-- ===== src/BitwiseUtils/Endian.antt =====
-- Words from bytes: the two orders mirror each other.
use esp_misc.Common.{
  ℕ, ◌+◌, ◌*◌, ◌/◌, ◌%◌, ◌^◌, ◌<◌, ◌≤◌, ◌≡◌, ◌∙◌, ap, List, [], ◌∷◌, ◌++◌, bit_or, arith,
}
use esp_misc.Common.Masks.{bit_or_sum}
use esp_misc.Common.Ors.{bit_or_zero, bit_or_comm}
use esp_misc.BitwiseUtils.{
  big_endian_loop, big_endian_ulong, little_endian_loop, little_endian_ulong, capped,
}

module _ (a b c d : ℕ) (ha : a < 256) (hb : b < 256) (hc : c < 256) (hd : d < 256) where
  abbrev word : ℕ
  word = a * 2 ^ 24 + b * 2 ^ 16 + c * 2 ^ 8 + d

  four_big : (rest : List ℕ) → big_endian_loop 4 0 0 (a ∷ b ∷ c ∷ d ∷ rest) ≡ word
  unfolding big_endian_loop
  four_big rest =
      ap
        (λ n.
          bit_or (bit_or (bit_or n (b * 65536 % 4294967296)) (c * 256 % 4294967296))
            (d * 1 % 4294967296))
        (bit_or_comm 0 (a * 16777216 % 4294967296)
          ∙ bit_or_zero (a * 16777216 % 4294967296)
          ∙ (let e : a * 16777216 % 4294967296 ≡ a * 16777216 = omega arith in e))
      ∙ ap (λ n. bit_or (bit_or n (c * 256 % 4294967296)) (d * 1 % 4294967296))
          (ap (bit_or (a * 16777216)) (omega arith)
            ∙ bit_or_sum 24 a (b * 65536) (omega arith)
            ∙ (let e : a * 16777216 + b * 65536 ≡ (a * 256 + b) * 65536 = omega arith in e))
      ∙ ap (λ n. bit_or n (d * 1 % 4294967296))
          (ap (bit_or ((a * 256 + b) * 65536)) (omega arith)
            ∙ bit_or_sum 16 (a * 256 + b) (c * 256) (omega arith)
            ∙ (let e : (a * 256 + b) * 65536 + c * 256 ≡ (a * 65536 + b * 256 + c) * 256 =
                  omega arith in
                e))
      ∙ ap (bit_or ((a * 65536 + b * 256 + c) * 256)) (omega arith)
      ∙ bit_or_sum 8 (a * 65536 + b * 256 + c) d (omega arith)
      ∙ omega arith

  four_little : (rest : List ℕ) → little_endian_loop 4 0 0 (d ∷ c ∷ b ∷ a ∷ rest) ≡ word
  unfolding little_endian_loop
  four_little rest =
      ap
        (λ n.
          bit_or (bit_or (bit_or n (c * 256 % 4294967296)) (b * 65536 % 4294967296))
            (a * 16777216 % 4294967296))
        (bit_or_comm 0 (d * 1 % 4294967296)
          ∙ bit_or_zero (d * 1 % 4294967296)
          ∙ (let e : d * 1 % 4294967296 ≡ d = omega arith in e))
      ∙ ap (λ n. bit_or (bit_or n (b * 65536 % 4294967296)) (a * 16777216 % 4294967296))
          (ap (bit_or d) (omega arith) ∙ bit_or_comm d (c * 256) ∙ bit_or_sum 8 c d (omega arith))
      ∙ ap (λ n. bit_or n (a * 16777216 % 4294967296))
          (ap (bit_or (c * 256 + d)) (omega arith)
            ∙ bit_or_comm (c * 256 + d) (b * 65536)
            ∙ bit_or_sum 16 b (c * 256 + d) (omega arith))
      ∙ ap (bit_or (b * 65536 + (c * 256 + d))) (omega arith)
      ∙ bit_or_comm (b * 65536 + (c * 256 + d)) (a * 16777216)
      ∙ bit_or_sum 24 a (b * 65536 + (c * 256 + d)) (omega arith)
      ∙ omega arith

-- Byte `k` of a word.
abbrev pub byte_of : (k w : ℕ) → ℕ
byte_of k w = w / 2 ^ (8 * k) % 256

abbrev pub high_first : ℕ → List ℕ
high_first w = byte_of 3 w ∷ byte_of 2 w ∷ byte_of 1 w ∷ byte_of 0 w ∷ []

abbrev pub low_first : ℕ → List ℕ
low_first w = byte_of 0 w ∷ byte_of 1 w ∷ byte_of 2 w ∷ byte_of 3 w ∷ []

whole :
    (w : ℕ)
    → w < 2 ^ 32
    → byte_of 3 w * 2 ^ 24 + byte_of 2 w * 2 ^ 16 + byte_of 1 w * 2 ^ 8 + byte_of 0 w ≡ w
whole w h = omega arith

-- The four bytes of a 32-bit word, whatever follows them, are read back as that word: by
-- `bigEndianULong` when the highest is first, and by `littleEndianULong` when the lowest is, for a
-- length of four or more.
pub endian_roundtrip :
    (w len : ℕ) (rest : List ℕ)
    → w < 2 ^ 32
    → 4 ≤ len
    → (big_endian_ulong (high_first w ++ rest) len ≡ w)
      × (little_endian_ulong (low_first w ++ rest) len ≡ w)
unfolding big_endian_ulong little_endian_ulong
endian_roundtrip w len rest low long =
    let four : capped len ≡ 4 = ground arith in
    (
      ap (λ n. big_endian_loop n 0 0 (high_first w ++ rest)) four
          ∙ four_big (byte_of 3 w) (byte_of 2 w) (byte_of 1 w) (byte_of 0 w) (omega arith)
              (omega arith) (omega arith) (omega arith) rest
          ∙ whole w low,
      ap (λ n. little_endian_loop n 0 0 (low_first w ++ rest)) four
          ∙ four_little (byte_of 3 w) (byte_of 2 w) (byte_of 1 w) (byte_of 0 w) (omega arith)
              (omega arith) (omega arith) (omega arith) rest
          ∙ whole w low,
    )
