-- ===== src/OneWire/Bytes.antt =====
-- A whole read operation: eight slots make a byte, and the bytes fill the scratchpad.
use native.Mathlib.Nat.{pow-suc}
use esp_misc.Common.{
  ℕ, zero, suc, ◌+◌, ◌*◌, ◌^◌, ◌<◌, ◌≤◌, ◌≡◌, refl, ◌∙◌, ap, Bool, true, false, not, List, [], ◌∷◌,
  ◌++◌, arith, length, ◌==◌,
}
use esp_misc.Common.Tables.{holds_below, table_eq, table_holds}
use esp_misc.OneWire.Driver.{Driver, shl8}
use esp_misc.OneWire.Machine.{run}
use esp_misc.OneWire.Read.{
  Slot, slot_events, bit, value_of, events_of, sampling, mix, mix-bit, run_state, slot_run,
}

pub shl8_pow : (k : ℕ) → k < 7 → shl8 (2 ^ k) ≡ 2 ^ suc k
unfolding holds_below
shl8_pow = table_eq 7 (λ k. shl8 (2 ^ k)) (λ k. 2 ^ suc k) refl

pub pow_ne_zero : (k : ℕ) → k < 7 → (shl8 (2 ^ k) == 0) ≡ false
pow_ne_zero k h =
    negated (shl8 (2 ^ k) == 0)
      (table_holds 7 (λ k. not (shl8 (2 ^ k) == 0)) (unfold holds_below in refl) k h)
  where
    negated : (b : Bool) → not b ≡ true → b ≡ false
    negated b e = ground arith

-- The slots of a byte: seven, and the last.
pub record ByteSlots : Type 0 where
  pub front : List Slot
  pub last : Slot

abbrev pub IsByteSlots : ByteSlots → Type 0
IsByteSlots b = length b.front ≡ 7

abbrev pub byte_value : ByteSlots → ℕ
byte_value b = value_of b.front + 128 * bit b.last

abbrev pub byte_events : ByteSlots → List ℕ
byte_events b = events_of b.front ++ slot_events b.last

-- The wait count is 0 behind a slot.
abbrev pub delay_after : List Slot → ℕ → ℕ
delay_after [] delay = delay
delay_after (s ∷ slots) delay = 0

pub value_of-lt : (slots : List Slot) → value_of slots < 2 ^ length slots
value_of-lt [] = omega arith
value_of-lt (s ∷ slots) = ground (arith, value_of-lt slots, pow-suc 2 (length slots))

bit-le : (s : Slot) → bit s ≤ 1
bit-le s = ground arith

mixed-lt : (b k partial pow : ℕ) → b ≤ 1 → partial < pow → partial + b * pow < 2 * pow
mixed-lt zero k partial pow le h = omega arith
mixed-lt (suc zero) k partial pow le h = omega arith
mixed-lt (suc (suc b)) k partial pow le h = absurd (omega arith)

delay_after_zero : (slots : List Slot) → delay_after slots 0 ≡ 0
delay_after_zero [] = refl
delay_after_zero (s ∷ slots) = refl

value_step :
    (b v k partial : ℕ) → partial + b * 2 ^ k + v * 2 ^ suc k ≡ partial + (b + 2 * v) * 2 ^ k
value_step b v k partial = ap (λ n. partial + b * 2 ^ k + v * n) (pow-suc 2 k) ∙ omega (arith, ◌*◌)

pub bits_run :
    (p : Bool) (left count : ℕ) (spad : List ℕ) (d : Driver) (slots : List Slot)
    (k partial delay : ℕ)
    → partial < 2 ^ k
    → k + length slots ≤ 7
    → (run p (events_of slots) (sampling (2 ^ k) partial left count delay spad d)).0
      ≡ sampling
          (2 ^ (k + length slots))
          (partial + value_of slots * 2 ^ k)
          left
          count
          (delay_after slots delay)
          spad
          d
unfolding run
bits_run p left count spad d [] k partial delay h fits =
    ap (λ n. sampling (2 ^ n) partial left count delay spad d) (omega arith)
    ∙ ap (λ n. sampling (2 ^ (k + 0)) n left count delay spad d) (omega arith)
bits_run p left count spad d (s ∷ slots) k partial delay h fits =
    run_state p (slot_events s) (events_of slots) _
    ∙ ap (λ e. (run p (events_of slots) e).0)
        (slot_run p left count spad d s (2 ^ k) partial delay (pow_ne_zero k (omega arith)))
    ∙ ap
        (λ m.
          (run p (events_of slots)
            (sampling m (mix s.level partial (2 ^ k)) left count 0 spad d)).0)
        (shl8_pow k (omega arith))
    ∙ ap (λ m. (run p (events_of slots) (sampling (2 ^ suc k) m left count 0 spad d)).0)
        (mix-bit s k partial h)
    ∙ bits_run p left count spad d slots (suc k) (partial + bit s * 2 ^ k) 0
        (omega (arith, mixed-lt (bit s) k partial (2 ^ k) (bit-le s) h, pow-suc 2 k)) (omega arith)
    ∙ ap
        (λ n.
          sampling (2 ^ n) (partial + bit s * 2 ^ k + value_of slots * 2 ^ suc k) left count
            (delay_after slots 0) spad d)
        (omega arith)
    ∙ ap (λ n. sampling (2 ^ (k + suc (length slots))) n left count (delay_after slots 0) spad d)
        (value_step (bit s) (value_of slots) k partial)
    ∙ ap
        (λ n.
          sampling (2 ^ (k + suc (length slots))) (partial + value_of (s ∷ slots) * 2 ^ k) left
            count n spad d)
        (delay_after_zero slots)
