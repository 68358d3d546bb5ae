-- ===== src/OneWire/Safety/Sequence.antt =====
-- onewire_nb.c: the sequences that `OW_init_seq` sets up, run for any number of events.
use mathlib.Core.Path.{subst}
use esp_misc.Common.{
  ℕ, zero, suc, ◌+◌, ◌<◌, ◌≤◌, ◌≡◌, ◌⊎◌, inl, inr, refl, sym, ◌∙◌, ap, Bool, List, [], ◌∷◌, get_or,
  length, arith,
}
use esp_misc.OneWire.Driver.{
  seq_state_started, seq_state_transition, op_reset, op_read, op_write, op_end, Driver,
}
use esp_misc.OneWire.Machine.{run}
use esp_misc.OneWire.Sensor.{Sensor, ds_seq_uuid, ds_seq_conv, ds_seq_read, init_seq}
use esp_misc.OneWire.Safety.Events.{IsReady, run-IsReady}

-- The read of the two long sequences is their fourth operation.
long_reads :
    (a b n i : ℕ)
    → n ≡ 9
    → i < 5
    → get_or (op_reset ∷ op_write ∷ op_write ∷ op_read ∷ op_end ∷ []) i 0 ≡ op_read
    → (1 ≤ get_or (0 ∷ a ∷ b ∷ 9 ∷ 0 ∷ []) i 0) × (get_or (0 ∷ a ∷ b ∷ 9 ∷ 0 ∷ []) i 0 ≤ n)
long_reads a b n zero size lt r = omega (arith, r)
long_reads a b n (suc zero) size lt r = omega (arith, r)
long_reads a b n (suc (suc zero)) size lt r = omega (arith, r)
long_reads a b n (suc (suc (suc zero))) size lt r = (omega arith, omega (arith, size))
long_reads a b n (suc (suc (suc (suc i)))) size lt r = ground (arith, lt)

short_reads :
    (a b n i : ℕ)
    → i < 4
    → get_or (op_reset ∷ op_write ∷ op_write ∷ op_end ∷ []) i 0 ≡ op_read
    → (1 ≤ get_or (0 ∷ a ∷ b ∷ 0 ∷ []) i 0) × (get_or (0 ∷ a ∷ b ∷ 0 ∷ []) i 0 ≤ n)
short_reads a b n zero lt r = omega (arith, r)
short_reads a b n (suc zero) lt r = omega (arith, r)
short_reads a b n (suc (suc zero)) lt r = omega (arith, r)
short_reads a b n (suc (suc (suc i))) lt r = ground (arith, lt)

one_two_three : (n : ℕ) → 1 ≤ n → n ≤ 3 → (n ≡ 1) ⊎ ((n ≡ 2) ⊎ (n ≡ 3))
one_two_three n low high = ground (arith, low, high)

module _ (s : Sensor) (size : length s.driver.spad_buf ≡ 9) where
  uuid-IsReady : IsReady (init_seq ds_seq_uuid s).0.driver
  unfolding init_seq
  uuid-IsReady = inl (
    refl,
    record {
      args = refl;
      ops = refl;
      some_ops = omega arith;
      few_ops = omega arith;
      small = omega (arith, size);
      reads = λ i lt r. long_reads 0x33 0xbe (length s.driver.spad_buf) i size lt r;
    },
  )

  conv-IsReady : IsReady (init_seq ds_seq_conv s).0.driver
  unfolding init_seq
  conv-IsReady = inl (
    refl,
    record {
      args = refl;
      ops = refl;
      some_ops = omega arith;
      few_ops = omega arith;
      small = omega (arith, size);
      reads = λ i lt r. short_reads 0xcc 0x44 (length s.driver.spad_buf) i lt r;
    },
  )

  read-IsReady : IsReady (init_seq ds_seq_read s).0.driver
  unfolding init_seq
  read-IsReady = inl (
    refl,
    record {
      args = refl;
      ops = refl;
      some_ops = omega arith;
      few_ops = omega arith;
      small = omega (arith, size);
      reads = λ i lt r. long_reads 0xcc 0xbe (length s.driver.spad_buf) i size lt r;
    },
  )

  init_seq_spad : (seq : ℕ) → (init_seq seq s).0.driver.spad_buf ≡ s.driver.spad_buf
  unfolding init_seq
  init_seq_spad seq = ground arith

  init_seq-IsReady : (seq : ℕ) → 1 ≤ seq → seq ≤ 3 → IsReady (init_seq seq s).0.driver
  init_seq-IsReady seq low high = elim (one_two_three seq low high) [
    | inl e ↦ subst (λ n. IsReady (init_seq n s).0.driver) (sym e) uuid-IsReady
    | inr (inl e) ↦ subst (λ n. IsReady (init_seq n s).0.driver) (sym e) conv-IsReady
    | inr (inr e) ↦ subst (λ n. IsReady (init_seq n s).0.driver) (sym e) read-IsReady
  ]

ready_position :
    (e : Driver)
    → IsReady e
    → (e.seq_state ≡ seq_state_started) ⊎ (e.seq_state ≡ seq_state_transition)
    → (e.seq_pos < length e.seq_arr) × (e.seq_pos < length e.arg_arr)
ready_position e (inl (state, t)) busy = ground (arith, state, busy)
ready_position e (inr s) (inl started) =
    let at = (s.running started).0.0 in
    (omega (arith, at, s.table.ops), omega (arith, at, s.table.args))
ready_position e (inr s) (inr moving) =
    let at = (s.moving moving).0 in
    (omega (arith, at, s.table.ops), omega (arith, at, s.table.args))

ready_store :
    (e : Driver)
    → IsReady e
    → e.seq_state ≡ seq_state_started
    → e.op_type ≡ op_read
    → (e.read_count < length e.spad_buf) × (e.read_count + e.reads_left ≤ length e.spad_buf)
ready_store e (inl (state, t)) started reading = omega (arith, state, started)
ready_store e (inr s) started reading =
    let (some_left, fits) = (s.running started).1 reading in (omega (arith, some_left, fits), fits)

-- The sequence `seq` set up and run for one event for each level of `lines`.
abbrev pub after : Bool → ℕ → List ℕ → Sensor → Driver
after p seq lines s = (run p lines (init_seq seq s).0.driver).0

module _ (p : Bool) (seq : ℕ) (lines : List ℕ) (s : Sensor) (low : 1 ≤ seq) (high : seq ≤ 3)
    (size : length s.driver.spad_buf ≡ 9) where
  after_facts : IsReady (after p seq lines s) × (length (after p seq lines s).spad_buf ≡ 9)
  after_facts =
      let (ready, same) =
        run-IsReady p lines (init_seq seq s).0.driver (init_seq-IsReady s size seq low high) in
      (ready, same ∙ ap length (init_seq_spad s size seq) ∙ size)

  -- After one of the sequences 1 to 3 was set up on a driver whose scratchpad has nine bytes, whatever the levels on the
  -- line at any number of events: while an operation waits to begin or is under way, its position lies
  -- in the sequence and in its arguments.
  pub position_in_bounds :
      ((after p seq lines s).seq_state ≡ seq_state_started)
        ⊎ ((after p seq lines s).seq_state ≡ seq_state_transition)
      → ((after p seq lines s).seq_pos < length (after p seq lines s).seq_arr)
        × ((after p seq lines s).seq_pos < length (after p seq lines s).arg_arr)
  position_in_bounds busy = ready_position (after p seq lines s) after_facts.0 busy

  -- After one of the sequences 1 to 3 was set up on a driver whose scratchpad has nine bytes, whatever the levels on the
  -- line at any number of events: while a read is under way, the byte that it is to store next, and all
  -- that it has still to store, lie in the scratchpad.
  pub store_in_bounds :
      (after p seq lines s).seq_state ≡ seq_state_started
      → (after p seq lines s).op_type ≡ op_read
      → ((after p seq lines s).read_count < 9)
        × ((after p seq lines s).read_count + (after p seq lines s).reads_left ≤ 9)
  store_in_bounds started reading =
      let (here, more) = ready_store (after p seq lines s) after_facts.0 started reading in
      (omega (arith, here, after_facts.1), omega (arith, more, after_facts.1))
