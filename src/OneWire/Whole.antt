-- ===== src/OneWire/Whole.antt =====
-- The sequences that read the scratchpad, from the first event to the callback: a reset, two commands
-- and nine bytes.
use mathlib.Core.List.{map}
use mathlib.Core.Path.{subst}
use esp_misc.Common.{
  ℕ, suc, ◌<◌, ◌≡◌, refl, sym, ◌∙◌, ap, Bool, List, [], ◌∷◌, ◌++◌, arith, get_or, length, All,
}
use esp_misc.OneWire.Driver.{
  seq_state_init, seq_state_transition, seq_state_done, op_reset, op_end, op_write, op_read, Action,
  Driver, inc8,
}
use esp_misc.OneWire.Machine.{Effect, make_call, doit, on_event, run}
use esp_misc.OneWire.Runs.{next_op}
use esp_misc.OneWire.Read.{run_state, sampling}
use esp_misc.OneWire.Bytes.{ByteSlots, IsByteSlots, byte_value}
use esp_misc.OneWire.Fill.{all_events, read_fills_scratchpad}
use esp_misc.OneWire.Reset.{IsHigh, reset_presence}
use esp_misc.OneWire.Wave.{Ticks, ticks_of, write_waveform, writing}

-- The levels at the events of a reset that finds a device.
pub record Presence : Type 0 where
  pub first : ℕ
  pub low : List ℕ
  pub high : List ℕ
  pub wait : List ℕ
  pub last : ℕ

abbrev pub IsPresence : Presence → Type 0
IsPresence r =
    (length r.low ≡ 47) × (All IsHigh r.high × ((length r.high < 6) × (length r.wait ≡ 47)))

abbrev pub presence_events : Presence → List ℕ
presence_events r = (r.first ∷ []) ++ (r.low ++ (r.high ++ ((0 ∷ []) ++ (r.wait ++ (r.last ∷ [])))))

-- The levels at the events of a written byte.
pub record Written : Type 0 where
  pub first : ℕ
  pub second : ℕ
  pub tick : Ticks
  pub ticks : List Ticks

abbrev pub IsWritten : Written → Type 0
IsWritten w = length (w.tick ∷ w.ticks) ≡ 8

abbrev pub written_events : Written → List ℕ
written_events w = (w.first ∷ w.second ∷ []) ++ ticks_of (w.tick ∷ w.ticks)

-- A driver whose sequence has been set up.
abbrev pub IsReading : Driver → Type 0
IsReading d =
    (d.seq_state ≡ seq_state_init)
    × ((d.seq_arr ≡ op_reset ∷ op_write ∷ op_write ∷ op_read ∷ op_end ∷ [])
        × ((d.seq_len ≡ 5) × (get_or d.arg_arr 3 0 ≡ 9)))

abbrev pub begun : Driver → Driver
begun d = record d {
  seq_state = seq_state_transition;
  op_type = get_or d.seq_arr 0 0;
  cur_op = 0;
  seq_pos = 0;
}

-- The callback is due, with these bytes in the scratchpad.
abbrev pub IsRead : List ℕ → Driver → Driver → Type 0
IsRead bytes d e =
    (e.seq_state ≡ seq_state_done)
    × ((e.spad_buf ≡ bytes) × ((e.callback ≡ d.callback) × (e.error ≡ d.error)))

begin_lem :
    (p : Bool) (line : ℕ) (d : Driver)
    → d.seq_state ≡ seq_state_init
    → on_event p line d ≡ on_event p line (begun d)
unfolding on_event
begin_lem p line d e = rw e

pub begin_run :
    (p : Bool) (line : ℕ) (lines : List ℕ) (d : Driver)
    → d.seq_state ≡ seq_state_init
    → run p (line ∷ lines) d ≡ run p (line ∷ lines) (begun d)
unfolding run
begin_run p line lines d e =
    ap (λ (r : Effect). ((run p lines r.0).0, r.1 ∷ (run p lines r.0).1)) (begin_lem p line d e)

-- The end of a sequence.
end_lem :
    (p : Bool) (line : ℕ) (d : Driver)
    → d.op_type ≡ op_end
    → d.seq_state ≡ seq_state_transition
    → on_event p line d ≡ (record d { seq_state = seq_state_done }, make_call d.callback)
unfolding on_event doit
end_lem p line d e s = ground arith

-- Behind the reset and the two commands.
abbrev commanded : Driver → Driver
commanded d = next_op (
    writing 0 0 (get_or d.arg_arr 2 0) 0 (
      next_op
        (writing 0 0 (get_or d.arg_arr 1 0) 0 (record (next_op (begun d)) { delay_count = 0 }))))

append_nil : (xs : List ℕ) → xs ≡ xs ++ []
append_nil [] = refl
append_nil (x ∷ xs) = ap (λ ys. x ∷ ys) (append_nil xs)

module _ (p : Bool) where
  reset_state :
      (r : Presence) (d : Driver)
      → IsPresence r
      → d.op_type ≡ op_reset
      → d.seq_state ≡ seq_state_transition
      → inc8 d.seq_pos < d.seq_len
      → (run p (presence_events r) d).0 ≡ record (next_op d) { delay_count = 0 }
  reset_state r d (el, (hi, (lt, ew))) e s fits =
      ap (λ (r : Driver × List (List Action)). r.0)
        (reset_presence p d r.first r.last r.low r.high r.wait e s fits el hi lt ew)

  write_state :
      (w : Written) (d : Driver)
      → IsWritten w
      → d.op_type ≡ op_write
      → d.seq_state ≡ seq_state_transition
      → inc8 d.seq_pos < d.seq_len
      → (run p (written_events w) d).0 ≡ next_op (writing 0 0 (get_or d.arg_arr d.seq_pos 0) 0 d)
  write_state w d long e s fits =
      ap (λ (r : Driver × List (List Action)). r.0)
        (write_waveform p d w.first w.second w.tick w.ticks e s fits long)

  commands_run :
      (r : Presence) (v w : Written) (d : Driver)
      → IsPresence r
      → IsWritten v
      → IsWritten w
      → IsReading d
      → (run p (presence_events r ++ (written_events v ++ written_events w)) d).0 ≡ commanded d
  commands_run r v w d hr hv hw (hs, (ha, (hl, hg))) =
      ap (λ (r : Driver × List (List Action)). r.0)
        (begin_run p r.first
          ((r.low ++ (r.high ++ ((0 ∷ []) ++ (r.wait ++ (r.last ∷ [])))))
            ++ (written_events v ++ written_events w))
          d hs)
      ∙ run_state p (presence_events r) (written_events v ++ written_events w) (begun d)
      ∙ ap (λ e. (run p (written_events v ++ written_events w) e).0)
          (reset_state r (begun d) hr (ap (λ xs. get_or xs 0 0) ha) refl (omega arith))
      ∙ run_state p (written_events v) (written_events w) _
      ∙ ap (λ e. (run p (written_events w) e).0)
          (write_state v (record (next_op (begun d)) { delay_count = 0 }) hv
            (ap (λ xs. get_or xs 1 0) ha) refl (omega arith))
      ∙ write_state w
          (next_op
            (writing 0 0 (get_or d.arg_arr 1 0) 0 (record (next_op (begun d)) { delay_count = 0 })))
          hw (ap (λ xs. get_or xs 2 0) ha) refl (omega arith)

  -- Behind the nine bytes.
  bytes_state :
      (line : ℕ) (b : ByteSlots) (bs : List ByteSlots) (d : Driver)
      → IsReading d
      → All IsByteSlots (b ∷ bs)
      → length bs ≡ 8
      → length d.spad_buf ≡ 9
      → (run p (line ∷ all_events (b ∷ bs)) (commanded d)).0
        ≡ next_op (sampling 1 0 0 (suc (length bs)) 0 (map byte_value (b ∷ bs) ++ []) (commanded d))
  bytes_state line b bs d (_, (ha, (hl, hg))) es long room =
      read_fills_scratchpad p (commanded d) line b bs d.spad_buf [] (ap (λ xs. get_or xs 3 0) ha)
        refl (omega arith) (hg ∙ omega arith) (omega arith) (append_nil d.spad_buf) (omega arith) es

  last_event :
      (b : ByteSlots) (bs : List ByteSlots) (last : ℕ) (d : Driver)
      → IsReading d
      → let e =
          next_op
            (sampling 1 0 0 (suc (length bs)) 0 (map byte_value (b ∷ bs) ++ []) (commanded d)) in
        IsRead (map byte_value (b ∷ bs)) d (on_event p last e).0
        × ((on_event p last e).1 ≡ make_call d.callback)
  last_event b bs last d (_, (ha, _)) =
      subst (λ (r : Effect). IsRead (map byte_value (b ∷ bs)) d r.0 × (r.1 ≡ make_call d.callback))
        (sym (end_lem p last _ (ap (λ xs. get_or xs 4 0) ha) refl))
        ((refl, (sym (append_nil (map byte_value (b ∷ bs))), (refl, refl))), refl)

  -- From a driver that has a sequence of reset, write, write, read and end set up, with nine bytes asked
  -- for: if a device answers the reset, then whatever the levels at the events of the written bytes, the
  -- nine bytes sampled fill the scratchpad in order, the sequence is done without a new error, and the
  -- last event makes the sequence's callback.
  pub sequence_reads :
      (r : Presence) (v w : Written) (line last : ℕ) (b : ByteSlots) (bs : List ByteSlots)
      (d : Driver)
      → IsPresence r
      → IsWritten v
      → IsWritten w
      → IsReading d
      → All IsByteSlots (b ∷ bs)
      → length bs ≡ 8
      → length d.spad_buf ≡ 9
      → let before =
          (run p
            ((presence_events r ++ (written_events v ++ written_events w))
              ++ (line ∷ all_events (b ∷ bs)))
            d).0 in
        IsRead (map byte_value (b ∷ bs)) d (on_event p last before).0
        × ((on_event p last before).1 ≡ make_call d.callback)
  sequence_reads r v w line last b bs d hr hv hw hd es long room =
      subst
        (λ e.
          IsRead (map byte_value (b ∷ bs)) d (on_event p last e).0
          × ((on_event p last e).1 ≡ make_call d.callback))
        (sym (
          run_state p (presence_events r ++ (written_events v ++ written_events w))
            (line ∷ all_events (b ∷ bs)) d
          ∙ ap (λ e. (run p (line ∷ all_events (b ∷ bs)) e).0) (commands_run r v w d hr hv hw hd)
          ∙ bytes_state line b bs d hd es long room))
        (last_event b bs last d hd)
