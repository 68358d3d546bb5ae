-- ===== src/OneWire/Decode.antt =====
-- The temperature: what the callback of a read makes of the nine bytes.
use esp_misc.Common.{
  ℕ, zero, suc, ◌+◌, ◌-◌, ◌*◌, ◌%◌, ◌/◌, ◌^◌, ◌<◌, ◌≤◌, ◌≡◌, ◌≢◌, refl, sym, ◌∙◌, ap, true, false,
  List, [], ◌∷◌, ◌++◌, arith, get_or, length, take, replicate, All, ◌==◌, ltb, if◌then◌else◌,
  bit_or, bit_and, bit_xor, ==_self, ==-false, order_cases, inl, inr,
}
use esp_misc.Common.Masks.{bit_or_sum, bit_and_bit, bit_and_low, bit_xor_ones}
use esp_misc.Crc.{onewire_crc8}
use esp_misc.Crc.Guarantees.{onewire_crc8_detects}
use esp_misc.Crc.Bitwise.{IsByte}
use esp_misc.OneWire.Sensor.{
  Temperature, Sensor, hw_timer_disarm, os_timer_disarm, os_timer_arm, publish, plus_sign,
  minus_sign, reading_of, decode, temperature_of, read_temp_done_cb, ds_seq_next_read,
}

-- The two's complement number of 16 bits as a sign and a magnitude, in sixteenths of a degree.
abbrev pub sign_of : ℕ → ℕ
sign_of raw = if ltb raw 0x8000 then plus_sign else minus_sign

abbrev pub magnitude_of : ℕ → ℕ
magnitude_of raw = if ltb raw 0x8000 then raw else 2 ^ 16 - raw

-- Hundredths of a degree, rounded towards zero.
abbrev pub hundredths : Temperature → ℕ
hundredths t = t.val * 100 + t.fract

reading_lem : (lo hi : ℕ) → lo < 256 → hi < 256 → bit_or (hi * 2 ^ 8) lo % 2 ^ 16 ≡ hi * 256 + lo
reading_lem lo hi h k = ap (λ n. n % 65536) (bit_or_sum 8 hi lo h) ∙ omega arith

sign_bit : (raw : ℕ) → raw < 65536 → (bit_and raw 0x8000 == 0) ≡ ltb raw 0x8000
sign_bit raw h = ground (arith, bit_and_bit 15 raw)

hundredths_lem : (sign m : ℕ) → hundredths (temperature_of sign m) ≡ m * 100 / 16
hundredths_lem sign m =
    ap (λ n. m / 16 * 100 + n * 100 / 16) (bit_and_low 4 m 15 refl) ∙ omega arith

decode_low : (raw : ℕ) → raw < 0x8000 → decode raw ≡ temperature_of plus_sign raw
decode_low raw h =
    ap
      (λ b.
        if b
        then temperature_of plus_sign raw
        else temperature_of minus_sign ((bit_xor raw 0xffff + 1) % 2 ^ 16))
      (sign_bit raw (omega arith) ∙ (let e : ltb raw 0x8000 ≡ true = ground arith in e))

decode_high :
    (raw : ℕ) → 0x8000 ≤ raw → raw < 65536 → decode raw ≡ temperature_of minus_sign (2 ^ 16 - raw)
decode_high raw low h =
    ap
      (λ b.
        if b
        then temperature_of plus_sign raw
        else temperature_of minus_sign ((bit_xor raw 0xffff + 1) % 2 ^ 16))
      (sign_bit raw h ∙ (let e : ltb raw 0x8000 ≡ false = ground arith in e))
    ∙ ap (temperature_of minus_sign)
        (ap (λ n. (n + 1) % 65536) (bit_xor_ones 16 raw 0xffff h refl) ∙ omega arith)

-- The temperature that a number of sixteenths stands for.
abbrev pub IsTemperature : ℕ → Temperature → Type 0
IsTemperature raw t =
    (t.sign ≡ sign_of raw) × ((hundredths t ≡ magnitude_of raw * 100 / 16) × (t.available ≡ 1))

decode_lem : (raw : ℕ) → raw < 65536 → IsTemperature raw (decode raw)
decode_lem raw h = elim (order_cases raw 0x8000) [
  | inl lt ↦
      (let e : ltb raw 0x8000 ≡ true = ground arith in
        (
          ap (λ (t : Temperature). t.sign) (decode_low raw lt)
              ∙ ap (λ b. if b then plus_sign else minus_sign) (sym e),
          (
            ap hundredths (decode_low raw lt)
                ∙ hundredths_lem plus_sign raw
                ∙ ap (λ b. (if b then raw else 2 ^ 16 - raw) * 100 / 16) (sym e),
            ap (λ (t : Temperature). t.available) (decode_low raw lt),
          ),
        ))
  | inr ge ↦
      (let e : ltb raw 0x8000 ≡ false = ground arith in
        (
          ap (λ (t : Temperature). t.sign) (decode_high raw ge h)
              ∙ ap (λ b. if b then plus_sign else minus_sign) (sym e),
          (
            ap hundredths (decode_high raw ge h)
                ∙ hundredths_lem minus_sign (2 ^ 16 - raw)
                ∙ ap (λ b. (if b then raw else 2 ^ 16 - raw) * 100 / 16) (sym e),
            ap (λ (t : Temperature). t.available) (decode_high raw ge h),
          ),
        ))
]

-- Behind a read without an error.
abbrev pub read_over : Temperature → Sensor → Sensor
read_over t s = record s {
  driver = record s.driver { spad_buf = replicate 9 0 };
  timer_arg = ds_seq_next_read;
  latest_temp = t;
}

good_read :
    (s : Sensor)
    → (s.driver.error == 0) ≡ true
    → (onewire_crc8 (take 8 s.driver.spad_buf) == get_or s.driver.spad_buf 8 0) ≡ true
    → read_temp_done_cb s ≡ (
      read_over (decode (reading_of s.driver.spad_buf)) s,
      hw_timer_disarm
          ∷ publish (decode (reading_of s.driver.spad_buf))
          ∷ os_timer_disarm
          ∷ os_timer_arm 2431
          ∷ [],
    )
unfolding read_temp_done_cb
good_read s e ok = rw (e, ok)

bad_read :
    (s : Sensor)
    → (s.driver.error == 0) ≡ true
    → (onewire_crc8 (take 8 s.driver.spad_buf) == get_or s.driver.spad_buf 8 0) ≡ false
    → read_temp_done_cb s
      ≡ (read_over s.latest_temp s, hw_timer_disarm ∷ os_timer_disarm ∷ os_timer_arm 2431 ∷ [])
unfolding read_temp_done_cb
bad_read s e ok = rw (e, ok)

reading_eq :
    (spad : List ℕ) (lo hi : ℕ) (rest : List ℕ)
    → spad ≡ lo ∷ hi ∷ rest
    → lo < 256
    → hi < 256
    → reading_of spad ≡ hi * 256 + lo
reading_eq spad lo hi rest room low high = ap reading_of room ∙ reading_lem lo hi low high

-- When the nine bytes of the scratchpad carry the CRC of the first eight, and no error is pending, the
-- callback stores and publishes the temperature of the first two: the sign and the magnitude of the
-- two's complement number they spell, in hundredths of a degree rounded towards zero. The scratchpad is
-- cleared and the timer armed for the next conversion.
pub temperature_read :
    (s : Sensor) (lo hi : ℕ) (rest : List ℕ)
    → s.driver.spad_buf ≡ lo ∷ hi ∷ rest
    → lo < 256
    → hi < 256
    → s.driver.error ≡ 0
    → onewire_crc8 (take 8 s.driver.spad_buf) ≡ get_or s.driver.spad_buf 8 0
    → (t : Temperature) × (IsTemperature (hi * 256 + lo) t
        × (read_temp_done_cb s ≡ (
          read_over t s,
          hw_timer_disarm ∷ publish t ∷ os_timer_disarm ∷ os_timer_arm 2431 ∷ [],
        )))
temperature_read s lo hi rest room low high fine crc = (
  decode (hi * 256 + lo),
  (
    decode_lem (hi * 256 + lo) (omega arith),
    good_read s (ap (λ n. n == 0) fine)
          (ap (λ n. n == get_or s.driver.spad_buf 8 0) crc ∙ ==_self (get_or s.driver.spad_buf 8 0))
        ∙ ap
            (λ raw. (
              read_over (decode raw) s,
              hw_timer_disarm ∷ publish (decode raw) ∷ os_timer_disarm ∷ os_timer_arm 2431 ∷ [],
            ))
            (reading_eq s.driver.spad_buf lo hi rest room low high),
  ),
)

take_front : (xs ys : List ℕ) (n : ℕ) → length xs ≡ n → take n (xs ++ ys) ≡ xs
take_front [] ys zero e = refl
take_front [] ys (suc n) e = absurd (omega arith)
take_front (x ∷ xs) ys zero e = absurd (omega arith)
take_front (x ∷ xs) ys (suc n) e = ap (λ zs. x ∷ zs) (take_front xs ys n (omega arith))

get_or_behind : (xs : List ℕ) (c n : ℕ) → length xs ≡ n → get_or (xs ++ (c ∷ [])) n 0 ≡ c
get_or_behind [] c zero e = refl
get_or_behind [] c (suc n) e = absurd (omega arith)
get_or_behind (x ∷ xs) c zero e = absurd (omega arith)
get_or_behind (x ∷ xs) c (suc n) e = get_or_behind xs c n (omega arith)

-- When one of the first eight bytes was changed on the way, whichever and however, and the ninth is the
-- CRC of what was sent, the temperature stays as it was and nothing is published; the scratchpad is
-- cleared and the timer armed for the next conversion all the same.
pub damaged_read :
    (s : Sensor) (pre post : List ℕ) (x y : ℕ)
    → s.driver.error ≡ 0
    → s.driver.spad_buf ≡ (pre ++ (y ∷ post)) ++ (onewire_crc8 (pre ++ (x ∷ post)) ∷ [])
    → length (pre ++ (y ∷ post)) ≡ 8
    → All IsByte pre
    → All IsByte post
    → x < 256
    → y < 256
    → x ≢ y
    → read_temp_done_cb s
      ≡ (read_over s.latest_temp s, hw_timer_disarm ∷ os_timer_disarm ∷ os_timer_arm 2431 ∷ [])
damaged_read s pre post x y fine room long hpre hpost hx hy ne =
    let sent = onewire_crc8 (pre ++ (x ∷ post)) in
    bad_read s (ap (λ n. n == 0) fine) (
      ap (λ xs. onewire_crc8 (take 8 xs) == get_or xs 8 0) room
      ∙ ap (λ xs. onewire_crc8 xs == get_or ((pre ++ (y ∷ post)) ++ (sent ∷ [])) 8 0)
          (take_front (pre ++ (y ∷ post)) (sent ∷ []) 8 long)
      ∙ ap (λ n. onewire_crc8 (pre ++ (y ∷ post)) == n)
          (get_or_behind (pre ++ (y ∷ post)) sent 8 long)
      ∙ ==-false (onewire_crc8 (pre ++ (y ∷ post))) sent
          (onewire_crc8_detects pre post y x hpre hpost hy hx (λ e. ne (sym e))))
