-- ===== src/OneWire/Machine.antt =====
-- onewire_nb.c: the reset, read and write machines and `OW_doit`, which runs one of them for one event.
-- `line` is the level of the pin at that event; no event reads it twice.
use esp_misc.Common.{
  ℕ, Bool, List, [], ◌∷◌, ◌++◌, bit_and, bit_or, leb, ◌==◌, if◌then◌else◌, get_or, set,
}
use esp_misc.OneWire.Driver.{
  seq_state_init, seq_state_started, seq_state_transition, seq_state_done, op_reset, op_read,
  op_write, op_end, read_op_init, read_op_line_low, read_op_sample, read_op_wait_50, read_op_done,
  write_op_init, write_op_line_low, write_op_write_first, write_op_wait_first, write_op_finally,
  write_op_done, reset_op_init, reset_op_wait_480_low, reset_op_wait_60_resp, reset_op_wait_480,
  reset_op_done, error_invalid_op, error_reset_resp_timeout, Callback, no_callback, Action, output,
  release, delay_us, hw_timer_arm, call, Driver, dec8, inc8, shl8,
}

abbrev pub Effect : Type 0
Effect = Driver × List Action

-- `OW_doit_reset`
unfoldable pub doit_reset : ℕ → Driver → Effect
doit_reset line d =
    if d.cur_op == reset_op_init
    then (record d { delay_count = 47; cur_op = reset_op_wait_480_low }, output 0 ∷ [])
    else if d.cur_op == reset_op_wait_480_low
    then (if dec8 d.delay_count == 0
        then (record d { cur_op = reset_op_wait_60_resp; delay_count = 6 }, release ∷ [])
        else (record d { delay_count = dec8 d.delay_count }, []))
    else if d.cur_op == reset_op_wait_60_resp
    then (if line == 0
        then (record d { delay_count = 47; cur_op = reset_op_wait_480 }, [])
        else if dec8 d.delay_count == 0
        then (
          record d {
            delay_count = dec8 d.delay_count;
            error = error_reset_resp_timeout;
            seq_state = seq_state_done;
          },
          release ∷ [],
        )
        else (record d { delay_count = dec8 d.delay_count }, []))
    else if d.cur_op == reset_op_wait_480
    then (if dec8 d.delay_count == 0
        then (record d { delay_count = dec8 d.delay_count; cur_op = reset_op_done }, [])
        else (record d { delay_count = dec8 d.delay_count }, []))
    else if d.cur_op == reset_op_done
    then (record d { seq_pos = inc8 d.seq_pos; seq_state = seq_state_transition }, [])
    else (record d { error = error_invalid_op }, [])

-- `case OW_READ_OP_LINE_LOW`
abbrev pub read_line_low : Driver → Effect
read_line_low d = (record d { cur_op = read_op_sample }, output 0 ∷ delay_us 1 ∷ release ∷ [])

-- `case OW_READ_OP_INIT`, which goes on to the next case.
abbrev pub read_init : Driver → Effect
read_init d = read_line_low (record d {
  read_mask = 1;
  read_count = 0;
  read_data = 0;
  reads_left = get_or d.arg_arr d.seq_pos 0;
  cur_op = read_op_line_low;
})

-- `case OW_READ_OP_SAMPLE`
abbrev pub read_take_sample : ℕ → Driver → Effect
read_take_sample line d = (
  record d {
    read_data = if line == 0 then d.read_data else bit_or d.read_data d.read_mask;
    read_mask = shl8 d.read_mask;
    delay_count = 4;
    cur_op = read_op_wait_50;
  },
  [],
)

-- A byte is complete: store it, and go on while reads are left.
abbrev pub read_byte_done : Driver → Effect
read_byte_done d =
    let e = record d {
      spad_buf = set d.spad_buf d.read_count d.read_data;
      read_count = inc8 d.read_count;
      read_data = 0;
      read_mask = 1;
      reads_left = dec8 d.reads_left;
    } in
    if dec8 d.reads_left == 0
    then (record e { cur_op = read_op_done }, [])
    else read_line_low (record e { cur_op = read_op_line_low })

-- `case OW_READ_OP_WAIT_50`
abbrev pub read_wait_50 : Driver → Effect
read_wait_50 d =
    let e = record d { delay_count = dec8 d.delay_count } in
    if dec8 d.delay_count == 0
    then (if d.read_mask == 0
        then read_byte_done e
        else read_line_low (record e { cur_op = read_op_line_low }))
    else (e, [])

-- The operation is finished: `seq_state` and `seq_pos` tell the main machine.
abbrev pub finish : ℕ → Effect → Effect
finish done (d, acts) = (
  if d.cur_op == done
      then record d { seq_state = seq_state_transition; seq_pos = inc8 d.seq_pos }
      else d,
  acts,
)

-- `OW_doit_read`
unfoldable pub doit_read : ℕ → Driver → Effect
doit_read line d = finish read_op_done (
    if d.cur_op == read_op_init
    then read_init d
    else if d.cur_op == read_op_line_low
    then read_line_low d
    else if d.cur_op == read_op_sample
    then read_take_sample line d
    else if d.cur_op == read_op_wait_50
    then read_wait_50 d
    else (d, []))

-- `case OW_WRITE_OP_LINE_LOW`: a 1 is written at once, a 0 is waited for.
abbrev pub write_line_low : Driver → Effect
write_line_low d = (
  record d {
    cur_op =
        if bit_and d.write_mask d.write_data == 0
        then write_op_wait_first
        else write_op_write_first;
    delay_count = 6;
  },
  output 0 ∷ [],
)

-- `case OW_WRITE_OP_WRITE_FIRST`
abbrev pub write_first : Driver → Effect
write_first d = (
  record d {
    delay_count = dec8 d.delay_count;
    cur_op = if dec8 d.delay_count == 0 then write_op_finally else d.cur_op;
  },
  if d.delay_count == 6 then output 1 ∷ [] else [],
)

-- `case OW_WRITE_OP_WAIT_FIRST`
abbrev pub write_wait_first : Driver → Effect
write_wait_first d =
    if dec8 d.delay_count == 0
    then (record d { delay_count = dec8 d.delay_count; cur_op = write_op_finally }, output 1 ∷ [])
    else (record d { delay_count = dec8 d.delay_count }, [])

-- `case OW_WRITE_OP_FINALLY`; `p_pwr` is the build option `USE_P_PWR`.
abbrev pub write_finally : Bool → Driver → Effect
write_finally p_pwr d =
    let e = record d { write_mask = shl8 d.write_mask } in
    if shl8 d.write_mask == 0
    then (record e { cur_op = write_op_done }, if p_pwr then release ∷ output 0 ∷ [] else [])
    else write_line_low (record e { cur_op = write_op_line_low })

-- `OW_doit_write`
unfoldable pub doit_write : Bool → Driver → Effect
doit_write p_pwr d = finish write_op_done (
    if d.cur_op == write_op_init
    then (
      record d {
        write_data = get_or d.arg_arr d.seq_pos 0;
        write_mask = 1;
        cur_op = write_op_line_low;
      },
      [],
    )
    else if d.cur_op == write_op_line_low
    then write_line_low d
    else if d.cur_op == write_op_write_first
    then write_first d
    else if d.cur_op == write_op_wait_first
    then write_wait_first d
    else if d.cur_op == write_op_finally
    then write_finally p_pwr d
    else (d, []))

-- The first event of an operation.
abbrev pub start_op : ℕ → Driver → Driver
start_op init d =
    if d.seq_state == seq_state_transition
    then record d { seq_state = seq_state_started; cur_op = init }
    else d

-- The first switch of `OW_doit`.
abbrev pub run_op : Bool → ℕ → Driver → Effect
run_op p_pwr line d =
    if d.op_type == op_read
    then doit_read line (start_op read_op_init d)
    else if d.op_type == op_write
    then doit_write p_pwr (start_op write_op_init d)
    else if d.op_type == op_reset
    then doit_reset line (start_op reset_op_init d)
    else (record d { seq_state = seq_state_done }, [])

abbrev pub make_call : Callback → List Action
make_call no_callback = []
make_call cb = call cb ∷ []

-- The second switch of `OW_doit`.
abbrev pub next_state : Driver → Effect
next_state d =
    if d.seq_state == seq_state_init
    then (record d { seq_state = seq_state_started }, hw_timer_arm 10 ∷ [])
    else if d.seq_state == seq_state_started
    then (d, hw_timer_arm 10 ∷ [])
    else if d.seq_state == seq_state_transition
    then (if leb d.seq_len d.seq_pos
        then (record d { op_type = op_end; seq_state = seq_state_done }, [])
        else (
          record d { op_type = get_or d.seq_arr d.seq_pos 0; cur_op = 0 },
          hw_timer_arm 10 ∷ [],
        ))
    else if d.seq_state == seq_state_done
    then (d, make_call d.callback)
    else (d, [])

-- `OW_doit`
unfoldable pub doit : Bool → ℕ → Driver → Effect
doit p_pwr line d =
    let (e, acts) = run_op p_pwr line d in let (f, more) = next_state e in (f, acts ++ more)

-- The event task's `MSG_IFACE_ONE_WIRE`: a sequence in its initial state is started.
unfoldable pub on_event : Bool → ℕ → Driver → Effect
on_event p_pwr line d = doit p_pwr line (
    if d.seq_state == seq_state_init
    then record d {
      seq_state = seq_state_transition;
      op_type = get_or d.seq_arr 0 0;
      cur_op = 0;
      seq_pos = 0;
    }
    else d)

-- One event for each level in the list.
unfoldable pub run : Bool → List ℕ → Driver → Driver × List (List Action)
run p_pwr [] d = (d, [])
run p_pwr (line ∷ lines) d =
    let (e, acts) = on_event p_pwr line d in let (f, more) = run p_pwr lines e in (f, acts ∷ more)
