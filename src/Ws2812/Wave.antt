-- ===== src/Ws2812/Wave.antt =====
-- ws2812.c: the colours on the wire.
use mathlib.Core.List.{append_assoc}
use esp_misc.Common.{
  ℕ, zero, suc, ◌+◌, ◌*◌, ◌/◌, ◌%◌, ◌^◌, ◌<◌, ◌≡◌, refl, ◌∙◌, ap, true, false, List, [], ◌∷◌, ◌++◌,
  bit_and, leb, ◌==◌, if◌then◌else◌, arith, order_cases, inl, inr,
}
use esp_misc.Common.Masks.{bit_and_bit}
use esp_misc.Ws2812.{
  Strip, StripAction, spi_write, os_delay_us, intr_lock, intr_unlock, hw_timer_arm, os_timer_disarm,
  os_timer_arm, send_bits, send_byte, send_pixels,
}

-- The levels on the wire while the high bits of `out` are sent first; a bit takes 50 ns.
abbrev pub levels : (bits out : ℕ) → List ℕ
levels zero out = []
levels (suc n) out = (out / 2 ^ n % 2) ∷ levels n out

abbrev pub high_time : List ℕ → ℕ
high_time [] = 0
high_time (level ∷ more) = if level == 1 then 50 + high_time more else 0

-- An LED takes a pulse for a one when it is long.
abbrev pub led_bit : (bits out : ℕ) → ℕ
led_bit bits out = if leb 550 (high_time (levels bits out)) then 1 else 0

-- The bits that an LED takes from the wire.
abbrev pub led_bits : List StripAction → List ℕ
led_bits [] = []
led_bits (spi_write bits out ∷ acts) = led_bit bits out ∷ led_bits acts
led_bits (os_delay_us t ∷ acts) = led_bits acts
led_bits (intr_lock ∷ acts) = led_bits acts
led_bits (intr_unlock ∷ acts) = led_bits acts
led_bits (hw_timer_arm t ∷ acts) = led_bits acts
led_bits (os_timer_disarm ∷ acts) = led_bits acts
led_bits (os_timer_arm t ∷ acts) = led_bits acts

-- The bits of a number, the high one first.
abbrev pub high_first : (bits x : ℕ) → List ℕ
high_first zero x = []
high_first (suc n) x = (x / 2 ^ n % 2) ∷ high_first n x

-- One bit of a byte: a long pulse for a one, a short one for a zero.
bit_sent :
    (n y z v : ℕ) (l : List ℕ)
    → y / 2 ^ 7 % 2 ≡ v
    → y * 2 % 2 ^ 8 ≡ z
    → led_bits (send_bits n z) ≡ l
    → led_bits (send_bits (suc n) y) ≡ v ∷ l
unfolding send_bits
bit_sent n y z v l high next rest = elim (order_cases 0 (y / 2 ^ 7 % 2)) [
  | inl one ↦
      (let set_bit : (bit_and y (2 ^ 7) == 0) ≡ false = ground (arith, bit_and_bit 7 y, one) in
        let v_one : v ≡ 1 = omega (arith, high, one) in
        rw (set_bit, if◌then◌else◌, next, v_one) (ap (λ k. 1 ∷ k) rest))
  | inr none_set ↦
      (let clear_bit : (bit_and y (2 ^ 7) == 0) ≡ true =
          ground (arith, bit_and_bit 7 y, none_set) in
        let v_zero : v ≡ 0 = omega (arith, high, none_set) in
        rw (clear_bit, if◌then◌else◌, next, v_zero) (ap (λ k. 0 ∷ k) rest))
]

byte_sent : (x : ℕ) → led_bits (send_byte x) ≡ high_first 8 x
unfolding send_bits
byte_sent x =
    bit_sent 7 x (x * 2 ^ 1 % 2 ^ 8) (x / 2 ^ 7 % 2) (high_first 7 x) (omega arith) (omega arith) (
      bit_sent 6 (x * 2 ^ 1 % 2 ^ 8) (x * 2 ^ 2 % 2 ^ 8) (x / 2 ^ 6 % 2) (high_first 6 x)
        (omega arith) (omega arith)
        (bit_sent 5 (x * 2 ^ 2 % 2 ^ 8) (x * 2 ^ 3 % 2 ^ 8) (x / 2 ^ 5 % 2) (high_first 5 x)
          (omega arith) (omega arith)
          (bit_sent 4 (x * 2 ^ 3 % 2 ^ 8) (x * 2 ^ 4 % 2 ^ 8) (x / 2 ^ 4 % 2) (high_first 4 x)
            (omega arith) (omega arith)
            (bit_sent 3 (x * 2 ^ 4 % 2 ^ 8) (x * 2 ^ 5 % 2 ^ 8) (x / 2 ^ 3 % 2) (high_first 3 x)
              (omega arith) (omega arith)
              (bit_sent 2 (x * 2 ^ 5 % 2 ^ 8) (x * 2 ^ 6 % 2 ^ 8) (x / 2 ^ 2 % 2) (high_first 2 x)
                (omega arith) (omega arith)
                (bit_sent 1 (x * 2 ^ 6 % 2 ^ 8) (x * 2 ^ 7 % 2 ^ 8) (x / 2 ^ 1 % 2) (high_first 1 x)
                  (omega arith) (omega arith)
                  (bit_sent 0 (x * 2 ^ 7 % 2 ^ 8) (x * 2 ^ 8 % 2 ^ 8) (x / 2 ^ 0 % 2)
                    (high_first 0 x) (omega arith) (omega arith) refl)))))))

led_bits-append : (xs ys : List StripAction) → led_bits (xs ++ ys) ≡ led_bits xs ++ led_bits ys
led_bits-append [] ys = refl
led_bits-append (spi_write bits out ∷ xs) ys =
    ap (λ l. led_bit bits out ∷ l) (led_bits-append xs ys)
led_bits-append (os_delay_us t ∷ xs) ys = led_bits-append xs ys
led_bits-append (intr_lock ∷ xs) ys = led_bits-append xs ys
led_bits-append (intr_unlock ∷ xs) ys = led_bits-append xs ys
led_bits-append (hw_timer_arm t ∷ xs) ys = led_bits-append xs ys
led_bits-append (os_timer_disarm ∷ xs) ys = led_bits-append xs ys
led_bits-append (os_timer_arm t ∷ xs) ys = led_bits-append xs ys

sent_first :
    (x : ℕ) (acts : List StripAction)
    → led_bits (send_byte x ++ acts) ≡ high_first 8 x ++ led_bits acts
sent_first x acts = led_bits-append (send_byte x) acts ∙ ap (λ l. l ++ led_bits acts) (byte_sent x)

-- The bytes that LEDs make of the bits.
abbrev pub led_bytes : List ℕ → List ℕ
led_bytes [] = []
led_bytes (b7 ∷ b6 ∷ b5 ∷ b4 ∷ b3 ∷ b2 ∷ b1 ∷ b0 ∷ bits) =
    (b7 * 128 + b6 * 64 + b5 * 32 + b4 * 16 + b3 * 8 + b2 * 4 + b1 * 2 + b0) ∷ led_bytes bits
led_bytes (b ∷ bits) = []

byte_taken :
    (x : ℕ) (bits : List ℕ) → x < 256 → led_bytes (high_first 8 x ++ bits) ≡ x ∷ led_bytes bits
byte_taken x bits small = ap (λ k. k ∷ led_bytes bits) (omega (arith, small))

-- The colours of a strip are bytes.
abbrev pub IsBytes : Strip → Type 0
IsBytes ws = (ws.r < 256) × ((ws.g < 256) × (ws.b < 256))

pixel_sent :
    (ws : Strip) (acts : List StripAction)
    → led_bits (send_pixels ws ++ acts)
      ≡ high_first 8 ws.g ++ (high_first 8 ws.r ++ (high_first 8 ws.b ++ led_bits acts))
unfolding send_pixels
pixel_sent ws acts =
    ap led_bits (
      append_assoc (send_byte ws.g) (send_byte ws.r ++ (send_byte ws.b ++ (intr_unlock ∷ []))) acts)
    ∙ sent_first ws.g ((send_byte ws.r ++ (send_byte ws.b ++ (intr_unlock ∷ []))) ++ acts)
    ∙ ap (λ l. high_first 8 ws.g ++ l)
        (ap led_bits (append_assoc (send_byte ws.r) (send_byte ws.b ++ (intr_unlock ∷ [])) acts)
          ∙ sent_first ws.r ((send_byte ws.b ++ (intr_unlock ∷ [])) ++ acts)
          ∙ ap (λ l. high_first 8 ws.r ++ l)
              (ap led_bits (append_assoc (send_byte ws.b) (intr_unlock ∷ []) acts)
                ∙ sent_first ws.b (intr_unlock ∷ acts)))

-- What is sent for a pixel is received as its green, red and blue byte, in this order.
pub pixel_received :
    (ws : Strip) (acts : List StripAction)
    → IsBytes ws
    → led_bytes (led_bits (send_pixels ws ++ acts)) ≡ ws.g ∷ ws.r ∷ ws.b ∷ led_bytes (led_bits acts)
pixel_received ws acts (red, (green, blue)) =
    ap led_bytes (pixel_sent ws acts)
    ∙ byte_taken ws.g (high_first 8 ws.r ++ (high_first 8 ws.b ++ led_bits acts)) green
    ∙ ap (λ l. ws.g ∷ l)
        (byte_taken ws.r (high_first 8 ws.b ++ led_bits acts) red
          ∙ ap (λ l. ws.r ∷ l) (byte_taken ws.b (led_bits acts) blue))
