-- ===== src/OneWire/Safety.antt =====
-- onewire_nb.c: what the driver's arrays and counters keep from one event to the next.
use mathlib.Core.Path.{subst}
use esp_misc.Common.{
  ℕ, zero, suc, ◌+◌, ◌-◌, ◌*◌, ◌%◌, ◌<◌, ◌≤◌, ◌≡◌, ◌≢◌, ◌⊎◌, inl, inr, refl, sym, ◌∙◌, ap, Bool,
  true, false, List, [], ◌∷◌, ◌++◌, Bool-cases, ==-false, eq_of_==, bit_and, bit_or, leb, ◌==◌,
  if◌then◌else◌, get_or, set, length, length-set, arith,
}
use esp_misc.OneWire.Driver.{
  seq_state_init, seq_state_started, seq_state_transition, seq_state_done, op_reset, op_read,
  op_write, op_end, read_op_init, read_op_line_low, read_op_sample, read_op_wait_50, read_op_done,
  write_op_init, Driver, Action, dec8, inc8, shl8,
}
use esp_misc.OneWire.Machine.{
  Effect, read_byte_done, read_wait_50, doit_reset, doit_read, doit_write, start_op, run_op,
  next_state, doit, on_event, run,
}
pub mod Events
pub mod Switch
pub mod Sequence

-- The bytes that a running read still has to store fit into the scratchpad.
abbrev pub Fits : Driver → Type 0
Fits d =
    d.op_type ≡ op_read → (1 ≤ d.reads_left) × (d.read_count + d.reads_left ≤ length d.spad_buf)

-- The sequence, its arguments and the size of the scratchpad stay.
pub record IsSame (d e : Driver) : Type 0 where
  pub same_seq : e.seq_arr ≡ d.seq_arr
  pub same_arg : e.arg_arr ≡ d.arg_arr
  pub same_len : e.seq_len ≡ d.seq_len
  pub same_spad : length e.spad_buf ≡ length d.spad_buf
  pub same_type : e.op_type ≡ d.op_type

-- How one event of an operation may leave the driver.
abbrev pub Ended : Driver → Driver → Type 0
Ended d e =
    ((e.seq_state ≡ d.seq_state) × ((e.seq_pos ≡ d.seq_pos) × Fits e))
    ⊎ (((e.seq_state ≡ seq_state_transition) × (e.seq_pos ≡ inc8 d.seq_pos))
        ⊎ ((e.seq_state ≡ seq_state_done) × ((e.seq_pos ≡ d.seq_pos) × (e.op_type ≢ op_read))))

pub reset-IsSame : (line : ℕ) (d : Driver) → IsSame d (doit_reset line d).0
unfolding doit_reset
reset-IsSame line d = ground arith

pub reset-Ended : (line : ℕ) (d : Driver) → d.op_type ≡ op_reset → Ended d (doit_reset line d).0
unfolding doit_reset
reset-Ended line d e = ground arith

pub write-IsSame : (p : Bool) (d : Driver) → IsSame d (doit_write p d).0
unfolding doit_write
write-IsSame p d = ground arith

pub write-Ended : (p : Bool) (d : Driver) → d.op_type ≡ op_write → Ended d (doit_write p d).0
unfolding doit_write
write-Ended p d e = ground arith

pub read-IsSame : (line : ℕ) (d : Driver) → IsSame d (doit_read line d).0
unfolding doit_read
read-IsSame line d = ground (arith, length-set d.spad_buf d.read_count d.read_data)

pub read-Ended :
    (line : ℕ) (d : Driver)
    → d.op_type ≡ op_read
    → length d.spad_buf < 256
    → (d.cur_op ≢ read_op_init → Fits d)
    → (d.cur_op ≡ read_op_init
        → (1 ≤ get_or d.arg_arr d.seq_pos 0) × (get_or d.arg_arr d.seq_pos 0 ≤ length d.spad_buf))
    → Ended d (doit_read line d).0
unfolding doit_read
read-Ended line d e small running starting =
    ground (arith, length-set d.spad_buf d.read_count d.read_data)

-- The sequence has an argument for each operation, and no read asks for more than the scratchpad holds.
pub record IsTable (d : Driver) : Type 0 where
  pub args : length d.arg_arr ≡ d.seq_len
  pub ops : length d.seq_arr ≡ d.seq_len
  pub some_ops : 0 < d.seq_len
  pub few_ops : d.seq_len < 256
  pub small : length d.spad_buf < 256
  pub reads :
      (i : ℕ)
      → i < d.seq_len
      → get_or d.seq_arr i 0 ≡ op_read
      → (1 ≤ get_or d.arg_arr i 0) × (get_or d.arg_arr i 0 ≤ length d.spad_buf)

-- The operation is the one of the sequence.
abbrev pub IsCurrent : Driver → Type 0
IsCurrent d = (d.seq_pos < d.seq_len) × (d.op_type ≡ get_or d.seq_arr d.seq_pos 0)

abbrev pub IsOver : Driver → Type 0
IsOver d = (d.op_type ≢ op_read) × ((d.op_type ≡ op_end) ⊎ (d.seq_pos < d.seq_len))

-- Where the driver may stand between two events.
pub record IsSafe (d : Driver) : Type 0 where
  pub table : IsTable d
  pub moving : d.seq_state ≡ seq_state_transition → IsCurrent d
  pub running : d.seq_state ≡ seq_state_started → IsCurrent d × Fits d
  pub over : d.seq_state ≡ seq_state_done → IsOver d
  pub known : (2 ≤ d.seq_state) × (d.seq_state ≤ 4)

module _ (d e : Driver) (t : IsTable d) (same_seq : e.seq_arr ≡ d.seq_arr)
    (same_arg : e.arg_arr ≡ d.arg_arr) (same_len : e.seq_len ≡ d.seq_len)
    (same_spad : length e.spad_buf ≡ length d.spad_buf) where
  pub same-IsTable : IsTable e
  same-IsTable = record {
    args = ap length same_arg ∙ t.args ∙ sym same_len;
    ops = ap length same_seq ∙ t.ops ∙ sym same_len;
    some_ops = omega (arith, t.some_ops, same_len);
    few_ops = omega (arith, t.few_ops, same_len);
    small = omega (arith, t.small, same_spad);
    reads = λ i lt r.
        (let (low, high) =
            t.reads i (omega (arith, same_len)) (ap (λ xs. get_or xs i 0) (sym same_seq) ∙ r) in
          let e : get_or e.arg_arr i 0 ≡ get_or d.arg_arr i 0 = ap (λ xs. get_or xs i 0) same_arg in
          (omega (arith, e, low), omega (arith, e, high, same_spad)));
  }

pub IsTable-IsSame : (d e : Driver) → IsTable d → IsSame d e → IsTable e
IsTable-IsSame d e t s = same-IsTable d e t s.same_seq s.same_arg s.same_len s.same_spad
