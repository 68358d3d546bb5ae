-- ===== src/OneWire/Read.antt =====
-- The read slots: how the levels sampled become bytes of the scratchpad.
use esp_misc.Common.{
  ℕ, ◌+◌, ◌*◌, ◌^◌, ◌<◌, ◌≡◌, ap, Bool, false, List, [], ◌∷◌, ◌++◌, arith, ◌==◌, leb, if◌then◌else◌,
  bit_or, set,
}
use esp_misc.Common.Masks.{bit_or_next}
use esp_misc.OneWire.Driver.{
  seq_state_started, op_read, read_op_sample, Action, Driver, inc8, dec8, shl8,
}
use esp_misc.OneWire.Machine.{doit_read, doit, on_event, run}
use esp_misc.OneWire.Runs.{run-append, next_op}

-- The level sampled in one slot, and those at the four events of the wait, which are not looked at.
pub record Slot : Type 0 where
  pub level : ℕ
  pub idle_a : ℕ
  pub idle_b : ℕ
  pub idle_c : ℕ
  pub idle_d : ℕ

abbrev pub slot_events : Slot → List ℕ
slot_events s = s.level ∷ s.idle_a ∷ s.idle_b ∷ s.idle_c ∷ s.idle_d ∷ []

abbrev pub bit : Slot → ℕ
bit s = if s.level == 0 then 0 else 1

-- The number that a row of slots spells, the lowest bit first.
abbrev pub value_of : List Slot → ℕ
value_of [] = 0
value_of (s ∷ slots) = bit s + 2 * value_of slots

abbrev pub events_of : List Slot → List ℕ
events_of [] = []
events_of (s ∷ slots) = slot_events s ++ events_of slots

-- About to sample a bit.
abbrev pub sampling : (mask partial left count delay : ℕ) → List ℕ → Driver → Driver
sampling mask partial left count delay spad d = record d {
  op_type = op_read;
  seq_state = seq_state_started;
  cur_op = read_op_sample;
  delay_count = delay;
  spad_buf = spad;
  read_mask = mask;
  reads_left = left;
  read_count = count;
  read_data = partial;
}

abbrev pub mix : ℕ → ℕ → ℕ → ℕ
mix line partial mask = if line == 0 then partial else bit_or partial mask

pub mix-bit :
    (s : Slot) (k partial : ℕ)
    → partial < 2 ^ k
    → mix s.level partial (2 ^ k) ≡ partial + bit s * 2 ^ k
mix-bit s k partial h = ground (arith, bit_or_next k partial h)

pub run_state :
    (p : Bool) (xs ys : List ℕ) (d : Driver) → (run p (xs ++ ys) d).0 ≡ (run p ys (run p xs d).0).0
run_state p xs ys d = ap (λ (r : Driver × List (List Action)). r.0) (run-append p xs ys d)

module _ (p : Bool) (left count : ℕ) (spad : List ℕ) (d : Driver) where
  -- A bit that is not the last of its byte.
  pub slot_run :
      (s : Slot) (mask partial delay : ℕ)
      → (shl8 mask == 0) ≡ false
      → (run p (slot_events s) (sampling mask partial left count delay spad d)).0
        ≡ sampling (shl8 mask) (mix s.level partial mask) left count 0 spad d
  unfolding run on_event doit doit_read
  slot_run s mask partial delay h = rw h

  pub last_slot_more :
      (s : Slot) (partial delay : ℕ)
      → (dec8 left == 0) ≡ false
      → (run p (slot_events s) (sampling 128 partial left count delay spad d)).0
        ≡ sampling 1 0 (dec8 left) (inc8 count) 0 (set spad count (mix s.level partial 128)) d
  unfolding run on_event doit doit_read
  last_slot_more s partial delay h = rw h

  pub last_slot_end :
      (s : Slot) (partial delay : ℕ)
      → inc8 d.seq_pos < d.seq_len
      → (run p (slot_events s) (sampling 128 partial 1 count delay spad d)).0
        ≡ next_op (sampling 1 0 0 (inc8 count) 0 (set spad count (mix s.level partial 128)) d)
  unfolding run on_event doit doit_read
  last_slot_end s partial delay fits =
      let f : leb d.seq_len (inc8 d.seq_pos) ≡ false = ground arith in rw f
