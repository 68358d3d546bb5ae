-- ===== src/Crc/Guarantees.antt =====
-- The guarantees of the four checksums of crc.c.
use esp_misc.Common.{
  ℕ, ◌*◌, ◌/◌, ◌%◌, ◌^◌, ◌<◌, ◌≡◌, ◌≢◌, refl, sym, ◌∙◌, ap, List, [], ◌∷◌, ◌++◌, bit_xor, arith,
  All, All-append,
}
use esp_misc.Common.Masks.{
  bit_xor-lt, bit_xor_twice, bit_xor_comm, bit_xor-zero, bit_xor_self, bit_xor_sum,
}
use esp_misc.Crc.Bitwise.{
  IsByte, poly32, crc32_bits, shift_bits-fields, crc32_compute_buf-bits, onewire_crc8_lem,
}
use esp_misc.Crc.Detect.{bits_loop, one_byte}
use esp_misc.Crc.{
  crc32_compute_buf, shift_bit, shift_bits, crc8_compute_buf, crc16_compute_buf, crc16_update8,
  onewire_crc8,
}

crc8-bits_loop : (buf : List ℕ) (c : ℕ) → crc8_compute_buf c buf ≡ bits_loop 0x8c c buf
unfolding crc8_compute_buf bits_loop
crc8-bits_loop [] c = refl
crc8-bits_loop (b ∷ buf) c = crc8-bits_loop buf (shift_bits 0x8c 8 (bit_xor c b))

crc16-bits_loop : (buf : List ℕ) (c : ℕ) → crc16_compute_buf c buf ≡ bits_loop 0xa001 c buf
unfolding crc16_compute_buf bits_loop crc16_update8
crc16-bits_loop [] c = refl
crc16-bits_loop (b ∷ buf) c = crc16-bits_loop buf (shift_bits 0xa001 8 (bit_xor c b))

crc32-bits_loop : (buf : List ℕ) (c : ℕ) → crc32_bits c buf ≡ bits_loop poly32 c buf
unfolding crc32_bits bits_loop
crc32-bits_loop [] c = refl
crc32-bits_loop (b ∷ buf) c = crc32-bits_loop buf (shift_bits poly32 8 (bit_xor c b))

-- Two messages of bytes that differ in one byte only.
module _ (pre post : List ℕ) (x y : ℕ) (hpre : All IsByte pre) (hpost : All IsByte post)
    (hx : x < 256) (hy : y < 256) (ne : x ≢ y) where
  bytes : (z : ℕ) → z < 256 → All IsByte (pre ++ (z ∷ post))
  bytes z hz = All-append IsByte pre (z ∷ post) hpre (hz, hpost)

  pub onewire_crc8_detects : onewire_crc8 (pre ++ (x ∷ post)) ≢ onewire_crc8 (pre ++ (y ∷ post))
  onewire_crc8_detects e = ne (
      one_byte 7 0x8c refl (omega arith) (omega arith) pre post x y 0 hpre hpost hx hy (omega arith)
        (sym (crc8-bits_loop (pre ++ (x ∷ post)) 0)
          ∙ sym (onewire_crc8_lem (pre ++ (x ∷ post)) (bytes x hx))
          ∙ e
          ∙ onewire_crc8_lem (pre ++ (y ∷ post)) (bytes y hy)
          ∙ crc8-bits_loop (pre ++ (y ∷ post)) 0))

  pub crc16_detects :
      (c : ℕ)
      → c < 2 ^ 16
      → crc16_compute_buf c (pre ++ (x ∷ post)) ≢ crc16_compute_buf c (pre ++ (y ∷ post))
  crc16_detects c hc e = ne (
      one_byte 15 0xa001 refl (omega arith) (omega arith) pre post x y c hpre hpost hx hy hc
        (sym (crc16-bits_loop (pre ++ (x ∷ post)) c) ∙ e ∙ crc16-bits_loop (pre ++ (y ∷ post)) c))

  pub crc32_detects :
      (c : ℕ)
      → c < 2 ^ 32
      → crc32_compute_buf c (pre ++ (x ∷ post)) ≢ crc32_compute_buf c (pre ++ (y ∷ post))
  crc32_detects c hc e =
      let start = bit_xor c 0xffffffff in
      ne (
        one_byte 31 poly32 refl (omega arith) (omega arith) pre post x y start hpre hpost hx hy
          (bit_xor-lt 32 c 0xffffffff hc (omega arith))
          (sym (crc32-bits_loop (pre ++ (x ∷ post)) start)
            ∙ sym (bit_xor_twice (crc32_bits start (pre ++ (x ∷ post))) 0xffffffff)
            ∙ ap (λ t. bit_xor t 0xffffffff)
                (sym (crc32_compute_buf-bits c (pre ++ (x ∷ post)) (bytes x hx))
                  ∙ e
                  ∙ crc32_compute_buf-bits c (pre ++ (y ∷ post)) (bytes y hy))
            ∙ bit_xor_twice (crc32_bits start (pre ++ (y ∷ post))) 0xffffffff
            ∙ crc32-bits_loop (pre ++ (y ∷ post)) start))

  -- Two messages of bytes that differ in exactly one byte have different checksums by
  -- `onewire_crc8`, and by `Crc16_ComputeBuf` and `Crc32_ComputeBuf` from any start word.
  pub one_byte_detected :
      (onewire_crc8 (pre ++ (x ∷ post)) ≢ onewire_crc8 (pre ++ (y ∷ post)))
      × ((c : ℕ)
          → c < 2 ^ 16
          → crc16_compute_buf c (pre ++ (x ∷ post)) ≢ crc16_compute_buf c (pre ++ (y ∷ post)))
      × ((c : ℕ)
          → c < 2 ^ 32
          → crc32_compute_buf c (pre ++ (x ∷ post)) ≢ crc32_compute_buf c (pre ++ (y ∷ post)))
  one_byte_detected = (onewire_crc8_detects, crc16_detects, crc32_detects)

pub crc8-append :
    (xs ys : List ℕ) (c : ℕ)
    → crc8_compute_buf c (xs ++ ys) ≡ crc8_compute_buf (crc8_compute_buf c xs) ys
unfolding crc8_compute_buf
crc8-append [] ys c = refl
crc8-append (x ∷ xs) ys c = crc8-append xs ys (shift_bits 0x8c 8 (bit_xor c x))

pub crc16-append :
    (xs ys : List ℕ) (c : ℕ)
    → crc16_compute_buf c (xs ++ ys) ≡ crc16_compute_buf (crc16_compute_buf c xs) ys
unfolding crc16_compute_buf
crc16-append [] ys c = refl
crc16-append (x ∷ xs) ys c = crc16-append xs ys (crc16_update8 c x)

crc8_self : (r : ℕ) → crc8_compute_buf r (r ∷ []) ≡ 0
unfolding crc8_compute_buf
crc8_self r = ap (shift_bits 0x8c 8) (bit_xor_self r) ∙ (unfold shift_bits shift_bit in refl)

strip_low : (r : ℕ) → bit_xor r (r % 256) ≡ r / 256 * 2 ^ 8
strip_low r =
    ap (λ t. bit_xor t (r % 256)) (omega (arith, bit_xor_sum 8 (r / 256) (r % 256)))
    ∙ bit_xor_twice (r / 256 * 2 ^ 8) (r % 256)

shift_bits_zero : shift_bits 0xa001 8 0 ≡ 0
unfolding shift_bits shift_bit
shift_bits_zero = refl

crc16_low : (r : ℕ) → crc16_update8 r (r % 256) ≡ r / 256
unfolding crc16_update8
crc16_low r =
    ap (shift_bits 0xa001 8) (strip_low r ∙ sym (bit_xor_comm (r / 256 * 2 ^ 8) 0 ∙ bit_xor-zero _))
    ∙ shift_bits-fields 0xa001 8 (r / 256) 0
    ∙ ap (bit_xor (r / 256)) shift_bits_zero
    ∙ bit_xor_comm (r / 256) 0
    ∙ bit_xor-zero (r / 256)

crc16_self : (r : ℕ) → crc16_update8 r r ≡ 0
unfolding crc16_update8
crc16_self r = ap (shift_bits 0xa001 8) (bit_xor_self r) ∙ shift_bits_zero

crc16_bytes : (r : ℕ) → crc16_compute_buf r (r % 256 ∷ r / 256 ∷ []) ≡ 0
unfolding crc16_compute_buf
crc16_bytes r = ap (λ t. crc16_update8 t (r / 256)) (crc16_low r) ∙ crc16_self (r / 256)

-- A message followed by its own check value, the low byte of a 16-bit one first, checks to 0 by
-- `Crc8_ComputeBuf` and by `Crc16_ComputeBuf`, whatever they start from.
pub residue_zero :
    (c : ℕ) (buf : List ℕ)
    → let r8 = crc8_compute_buf c buf in
      let r16 = crc16_compute_buf c buf in
      (crc8_compute_buf c (buf ++ (r8 ∷ [])) ≡ 0)
      × (crc16_compute_buf c (buf ++ (r16 % 256 ∷ r16 / 256 ∷ [])) ≡ 0)
residue_zero c buf =
    let r8 = crc8_compute_buf c buf in
    let r16 = crc16_compute_buf c buf in
    (
      crc8-append buf (r8 ∷ []) c ∙ crc8_self r8,
      crc16-append buf (r16 % 256 ∷ r16 / 256 ∷ []) c ∙ crc16_bytes r16,
    )
