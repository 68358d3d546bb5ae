-- ===== src/OneWire/Wave.antt =====
-- The write slots: the waveform that a byte makes on the line.
use native.Mathlib.Nat.{pow-suc, div-div-eq-div-mul}
use esp_misc.Common.{
  ℕ, zero, suc, ◌+◌, ◌*◌, ◌%◌, ◌/◌, ◌^◌, ◌<◌, ◌≡◌, refl, sym, ◌∙◌, ap, Bool, false, List, [], ◌∷◌,
  ◌++◌, arith, get_or, length, ◌==◌, if◌then◌else◌, bit_and,
}
use esp_misc.Common.Masks.{bit_and_bit, bit_and_comm}
use esp_misc.OneWire.Driver.{
  seq_state_started, seq_state_transition, op_write, write_op_write_first, write_op_wait_first,
  write_op_finally, Action, output, release, Driver, inc8, shl8,
}
use esp_misc.OneWire.Machine.{doit_write, doit, on_event, run}
use esp_misc.OneWire.Bytes.{shl8_pow, pow_ne_zero}
use esp_misc.OneWire.Runs.{armed, run_chain, run_one, next_op}

-- The levels at the six events of a slot, and at the one that ends it: a write does not look at them.
pub record Ticks : Type 0 where
  pub a : ℕ
  pub b : ℕ
  pub c : ℕ
  pub d : ℕ
  pub e : ℕ
  pub f : ℕ
  pub end : ℕ

abbrev pub six : Ticks → List ℕ
six t = t.a ∷ t.b ∷ t.c ∷ t.d ∷ t.e ∷ t.f ∷ []

abbrev pub ticks_of : List Ticks → List ℕ
ticks_of [] = []
ticks_of (t ∷ ts) = six t ++ ((t.end ∷ []) ++ ticks_of ts)

-- The lowest `n` bits, the lowest first.
abbrev pub bits_of : ℕ → ℕ → List ℕ
bits_of zero n = []
bits_of (suc k) n = n % 2 ∷ bits_of k (n / 2)

-- Six events of a slot: a 0 keeps the line low up to the last, a 1 up to the first.
abbrev pub slot_wave : ℕ → List (List Action)
slot_wave zero = armed ∷ armed ∷ armed ∷ armed ∷ armed ∷ (output 1 ∷ armed) ∷ []
slot_wave (suc n) = (output 1 ∷ armed) ∷ armed ∷ armed ∷ armed ∷ armed ∷ armed ∷ []

abbrev pub pull_low : List Action
pull_low = output 0 ∷ armed

-- What ends a byte: with `USE_P_PWR` the line is let go and then driven to 0.
abbrev pub byte_end : Bool → List Action
byte_end p = if p then release ∷ output 0 ∷ armed else armed

abbrev pub wave : Bool → List ℕ → List (List Action)
wave p [] = []
wave p (b ∷ []) = slot_wave b ++ (byte_end p ∷ [])
wave p (b ∷ c ∷ bits) = slot_wave b ++ ((pull_low ∷ []) ++ wave p (c ∷ bits))

-- In the write machine.
abbrev pub writing : (op mask byte delay : ℕ) → Driver → Driver
writing op mask byte delay d = record d {
  op_type = op_write;
  seq_state = seq_state_started;
  cur_op = op;
  delay_count = delay;
  write_mask = mask;
  write_data = byte;
}

-- The slot has begun: the line is low.
abbrev slot_op : ℕ → ℕ
slot_op zero = write_op_wait_first
slot_op (suc n) = write_op_write_first

zero_times : (r pow : ℕ) → 0 < pow → (r * pow == 0) ≡ (r == 0)
zero_times zero pow h = ground arith
zero_times (suc r) pow h = ground arith

tested_bit : (k byte : ℕ) → 0 < 2 ^ k → (bit_and (2 ^ k) byte == 0) ≡ (byte / 2 ^ k % 2 == 0)
tested_bit k byte h =
    ap (λ n. n == 0) (bit_and_comm (2 ^ k) byte ∙ bit_and_bit k byte)
    ∙ zero_times (byte / 2 ^ k % 2) (2 ^ k) h

pow_positive : (k : ℕ) → 0 < 2 ^ k
pow_positive zero = omega arith
pow_positive (suc k) = omega (arith, pow-suc 2 k, pow_positive k)

next_bits : (k byte : ℕ) → byte / 2 ^ k / 2 ≡ byte / 2 ^ suc k
next_bits k byte =
    div-div-eq-div-mul byte (2 ^ k) 2 ∙ ap (λ t. byte / t) (omega (arith, pow-suc 2 k))

module _ (p : Bool) (byte : ℕ) (d : Driver) where
  run-six :
      (b mask : ℕ) (t : Ticks)
      → run p (six t) (writing (slot_op b) mask byte 6 d)
        ≡ (writing write_op_finally mask byte 0 d, slot_wave b)
  unfolding run on_event doit doit_write
  run-six zero mask t = refl
  run-six (suc n) mask t = refl

  low_op :
      (mask b : ℕ)
      → (bit_and mask byte == 0) ≡ (b == 0)
      → (if bit_and mask byte == 0 then write_op_wait_first else write_op_write_first) ≡ slot_op b
  low_op mask zero h = ground arith
  low_op mask (suc b) h = ground arith

  slot_end :
      (mask b line : ℕ)
      → (shl8 mask == 0) ≡ false
      → (bit_and (shl8 mask) byte == 0) ≡ (b == 0)
      → on_event p line (writing write_op_finally mask byte 0 d)
        ≡ (writing (slot_op b) (shl8 mask) byte 6 d, pull_low)
  unfolding on_event doit doit_write
  slot_end mask b line more h = ground (arith, low_op (shl8 mask) b h)

  byte_done :
      (line : ℕ)
      → inc8 d.seq_pos < d.seq_len
      → on_event p line (writing write_op_finally 128 byte 0 d)
        ≡ (next_op (writing 0 0 byte 0 d), byte_end p)
  unfolding on_event doit doit_write
  byte_done line fits = ground arith

  begin :
      (first second b : ℕ)
      → d.op_type ≡ op_write
      → d.seq_state ≡ seq_state_transition
      → byte ≡ get_or d.arg_arr d.seq_pos 0
      → (bit_and 1 byte == 0) ≡ (b == 0)
      → run p (first ∷ second ∷ []) d ≡ (writing (slot_op b) 1 byte 6 d, armed ∷ pull_low ∷ [])
  unfolding run on_event doit doit_write
  begin first second b e s asked h = ground (arith, low_op 1 b h)

  next_slot :
      (k line : ℕ)
      → k < 7
      → on_event p line (writing write_op_finally (2 ^ k) byte 0 d)
        ≡ (writing (slot_op (byte / 2 ^ suc k % 2)) (2 ^ suc k) byte 6 d, pull_low)
  next_slot k line h =
      slot_end (2 ^ k) (byte / 2 ^ suc k % 2) line (pow_ne_zero k h) (
        ap (λ m. bit_and m byte == 0) (shl8_pow k h)
        ∙ tested_bit (suc k) byte (pow_positive (suc k)))
      ∙ ap (λ m. (writing (slot_op (byte / 2 ^ suc k % 2)) m byte 6 d, pull_low)) (shl8_pow k h)

  last_slot :
      (k line : ℕ)
      → k ≡ 7
      → inc8 d.seq_pos < d.seq_len
      → on_event p line (writing write_op_finally (2 ^ k) byte 0 d)
        ≡ (next_op (writing 0 0 byte 0 d), byte_end p)
  last_slot k line e fits =
      ap (λ n. on_event p line (writing write_op_finally (2 ^ n) byte 0 d)) e ∙ byte_done line fits

  bits_run :
      (t : Ticks) (ts : List Ticks) (k : ℕ)
      → k + suc (length ts) ≡ 8
      → inc8 d.seq_pos < d.seq_len
      → run p (ticks_of (t ∷ ts)) (writing (slot_op (byte / 2 ^ k % 2)) (2 ^ k) byte 6 d)
        ≡ (next_op (writing 0 0 byte 0 d), wave p (bits_of (suc (length ts)) (byte / 2 ^ k)))
  bits_run t [] k e fits =
      run_chain _ p (six t) _ (run-six (byte / 2 ^ k % 2) (2 ^ k) t)
        (run_one _ p t.end (last_slot k t.end (omega arith) fits))
  bits_run t (u ∷ ts) k e fits = run_chain _ p (six t) _ (run-six (byte / 2 ^ k % 2) (2 ^ k) t) (
      run_chain _ p (t.end ∷ []) _ (run_one _ p t.end (next_slot k t.end (omega arith))) (
        bits_run u ts (suc k) (omega arith) fits
        ∙ ap (λ n. (next_op (writing 0 0 byte 0 d), wave p (bits_of (suc (length ts)) n)))
            (sym (next_bits k byte))))

-- A write operation, from its first event, of a byte that is not the last operation of the sequence:
-- after one event that only reads the byte, the line is pulled low, and each bit, the lowest first, takes
-- six events, in which a 1 raises the line at the first and a 0 at the last; one more event begins the
-- next bit by pulling the line low, or ends the byte (with parasitic power the line is then released and
-- driven to 0) and sets up the next operation. The timer is armed at every event, and the levels on the
-- line do not matter.
pub write_waveform :
    (p : Bool) (d : Driver) (first second : ℕ) (t : Ticks) (ts : List Ticks)
    → d.op_type ≡ op_write
    → d.seq_state ≡ seq_state_transition
    → inc8 d.seq_pos < d.seq_len
    → length (t ∷ ts) ≡ 8
    → run p ((first ∷ second ∷ []) ++ ticks_of (t ∷ ts)) d ≡ (
      next_op (writing 0 0 (get_or d.arg_arr d.seq_pos 0) 0 d),
      (armed ∷ pull_low ∷ []) ++ wave p (bits_of 8 (get_or d.arg_arr d.seq_pos 0)),
    )
write_waveform p d first second t ts e s fits long =
    let byte = get_or d.arg_arr d.seq_pos 0 in
    run_chain d p (first ∷ second ∷ []) _
      (begin p byte d first second (byte / 1 % 2) e s refl (tested_bit 0 byte (omega arith)))
      (bits_run p byte d t ts 0 (omega arith) fits
        ∙ ap (λ n. (next_op (writing 0 0 byte 0 d), wave p (bits_of n (byte / 1)))) long
        ∙ ap (λ n. (next_op (writing 0 0 byte 0 d), wave p (bits_of 8 n))) (omega arith))
