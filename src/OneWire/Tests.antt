-- ===== src/OneWire/Tests.antt =====
-- Concrete runs of the 1-Wire driver.
use mathlib.Core.List.{map}
use mathlib.Core.Path.{subst}
use esp_misc.Common.{
  ℕ, ◌≡◌, ◌≢◌, ◌<◌, ◌≤◌, ◌+◌, inl, length, refl, true, false, List, [], ◌∷◌, ◌++◌, arith, get_or,
  All, replicate,
}
use esp_misc.Crc.{onewire_crc8}
use esp_misc.OneWire.Driver.{
  seq_state_init, seq_state_transition, seq_state_done, error_none, error_reset_resp_timeout,
  Action, Callback, no_callback, read_temp_done, conv_t_done, output, release, call, Driver,
  ds_seqs, ds_seq_args,
}
use esp_misc.OneWire.Machine.{on_event, run, doit, doit_reset, doit_write, doit_read}
use esp_misc.OneWire.Runs.{armed, next_op}
use esp_misc.OneWire.Read.{Slot, sampling}
use esp_misc.OneWire.Bytes.{ByteSlots, IsByteSlots}
use esp_misc.OneWire.Fill.{all_events, read_fills_scratchpad}
use esp_misc.OneWire.Reset.{IsHigh, resetting, reset_presence, reset_timeout}
use esp_misc.OneWire.Wave.{Ticks, ticks_of, wave, pull_low, writing, write_waveform}
use esp_misc.OneWire.Whole.{
  Presence, presence_events, Written, written_events, IsRead, sequence_reads,
}
use esp_misc.OneWire.Sensor.{
  Sensor, Temperature, hw_timer_disarm, publish, os_timer_disarm, os_timer_arm, read_temp_done_cb,
  seq_timer_cb, call_back, init_seq,
}
use esp_misc.OneWire.Decode.{IsTemperature, read_over, temperature_read, damaged_read}
use esp_misc.OneWire.Safety.Sequence.{after, position_in_bounds, store_in_bounds}
use esp_misc.OneWire.Missed.{silent_events, Stops, missed_presence}
use esp_misc.OneWire.Cycle.{Continues, Pauses, sequence-Continues}

-- A driver at operation `pos` of the read sequence.
abbrev at : ℕ → Driver
at pos = record {
  seq_arr = get_or ds_seqs 3 [];
  arg_arr = get_or ds_seq_args 3 [];
  seq_len = 5;
  seq_state = seq_state_transition;
  seq_pos = pos;
  op_type = get_or (get_or ds_seqs 3 []) pos 0;
  cur_op = 0;
  delay_count = 0;
  spad_buf = replicate 9 0;
  uuid = replicate 8 0;
  error = error_none;
  callback = read_temp_done;
  read_mask = 0;
  reads_left = 0;
  read_count = 0;
  read_data = 0;
  write_mask = 0;
  write_data = 0;
}

two-IsHigh : All IsHigh (1 ∷ 1 ∷ [])
two-IsHigh = (omega arith, (omega arith, tt))

five-IsHigh : All IsHigh (replicate 5 1)
five-IsHigh = (omega arith, (omega arith, (omega arith, (omega arith, (omega arith, tt)))))

reset_presence_example :
    run false
      ((1 ∷ []) ++ (replicate 47 0 ++ ((1 ∷ 1 ∷ []) ++ ((0 ∷ []) ++ (replicate 47 1 ++ (1 ∷ []))))))
      (at 0)
    ≡ (
      record (next_op (at 0)) { delay_count = 0 },
      ((output 0 ∷ armed) ∷ [])
          ++ ((replicate 46 armed ++ ((release ∷ armed) ∷ []))
              ++ (replicate 2 armed ++ ((armed ∷ []) ++ (replicate 47 armed ++ (armed ∷ []))))),
    )
reset_presence_example =
    reset_presence false (at 0) 1 1 (replicate 47 0) (1 ∷ 1 ∷ []) (replicate 47 1) refl refl
      (omega arith) refl two-IsHigh (omega arith) refl

reset_timeout_example :
    run false ((1 ∷ []) ++ (replicate 47 0 ++ (replicate 5 1 ++ (1 ∷ [])))) (at 0) ≡ (
      record (resetting 3 0 (at 0)) {
        error = error_reset_resp_timeout;
        seq_state = seq_state_done;
      },
      ((output 0 ∷ armed) ∷ [])
          ++ ((replicate 46 armed ++ ((release ∷ armed) ∷ []))
              ++ (replicate 5 armed ++ ((release ∷ call read_temp_done ∷ []) ∷ []))),
    )
reset_timeout_example =
    reset_timeout false (at 0) 1 (replicate 47 0) (replicate 5 1) 1 refl refl refl five-IsHigh
      (omega arith) refl

abbrev ticks : Ticks
ticks = record { a = 0; b = 0; c = 1; d = 1; e = 1; f = 0; end = 1 }

write_waveform_example : run true ((1 ∷ 0 ∷ []) ++ ticks_of (replicate 8 ticks)) (at 1) ≡ (
  next_op (writing 0 0 0xcc 0 (at 1)),
  (armed ∷ pull_low ∷ []) ++ wave true (0 ∷ 0 ∷ 1 ∷ 1 ∷ 0 ∷ 0 ∷ 1 ∷ 1 ∷ []),
)
write_waveform_example =
    write_waveform true (at 1) 1 0 ticks (replicate 7 ticks) refl refl (omega arith) refl

abbrev slot : ℕ → Slot
slot n = record { level = n; idle_a = 0; idle_b = 0; idle_c = 1; idle_d = 1 }

-- 0xfe, 0x05 and others.
abbrev sampled : List ℕ → ℕ → ByteSlots
sampled low high = record { front = map slot low; last = slot high }

abbrev first_byte : ByteSlots
first_byte = sampled (1 ∷ 0 ∷ 1 ∷ 0 ∷ 0 ∷ 0 ∷ 0 ∷ []) 1

abbrev other_bytes : List ByteSlots
other_bytes = replicate 8 (sampled (0 ∷ 1 ∷ 1 ∷ 0 ∷ 0 ∷ 0 ∷ 0 ∷ []) 0)

All-sampled : All IsByteSlots (first_byte ∷ other_bytes)
All-sampled = (refl, (refl, (refl, (refl, (refl, (refl, (refl, (refl, (refl, tt)))))))))

read_fills_scratchpad_example :
    (run false (1 ∷ all_events (first_byte ∷ other_bytes)) (at 3)).0
    ≡ next_op (sampling 1 0 0 9 0 (0x85 ∷ 6 ∷ 6 ∷ 6 ∷ 6 ∷ 6 ∷ 6 ∷ 6 ∷ 6 ∷ []) (at 3))
read_fills_scratchpad_example =
    read_fills_scratchpad false (at 3) 1 first_byte other_bytes (replicate 9 0) [] refl refl
      (omega arith) refl (omega arith) refl refl All-sampled

abbrev set_up : Driver
set_up = record (at 0) { seq_state = seq_state_init }

abbrev answered : Presence
answered = record {
  first = 1;
  low = replicate 47 0;
  high = 1 ∷ 1 ∷ [];
  wait = replicate 47 1;
  last = 1;
}

abbrev command : Written
command = record { first = 1; second = 0; tick = ticks; ticks = replicate 7 ticks }

sequence_reads_example :
    let before =
      (run false
        ((presence_events answered ++ (written_events command ++ written_events command))
          ++ (1 ∷ all_events (first_byte ∷ other_bytes)))
        set_up).0 in
    IsRead (0x85 ∷ 6 ∷ 6 ∷ 6 ∷ 6 ∷ 6 ∷ 6 ∷ 6 ∷ 6 ∷ []) set_up (on_event false 1 before).0
    × ((on_event false 1 before).1 ≡ call read_temp_done ∷ [])
sequence_reads_example =
    sequence_reads false answered command command 1 1 first_byte other_bytes set_up
      (refl, (two-IsHigh, (omega arith, refl))) refl refl (refl, (refl, (refl, refl))) All-sampled
      refl refl

-- -10.125 degrees: 0xff5e.
abbrev sensor : List ℕ → Sensor
sensor spad = record {
  driver = record (at 4) { seq_state = seq_state_done; spad_buf = spad };
  timer_arg = 3;
  latest_temp = record { sign = 0; val = 0; fract = 0; available = 0 };
}

abbrev cold : List ℕ
cold = 0x5e ∷ 0xff ∷ 0x4b ∷ 0x46 ∷ 0x7f ∷ 0xff ∷ 2 ∷ 0x10 ∷ []

abbrev cold_crc : ℕ
cold_crc = onewire_crc8 cold

abbrev cold_sensor : Sensor
cold_sensor = sensor (cold ++ (cold_crc ∷ []))

temperature_read_example :
    (t : Temperature) × (IsTemperature 0xff5e t
      × (read_temp_done_cb cold_sensor ≡ (
        read_over t cold_sensor,
        hw_timer_disarm ∷ publish t ∷ os_timer_disarm ∷ os_timer_arm 2431 ∷ [],
      )))
temperature_read_example =
    temperature_read cold_sensor 0x5e 0xff (0x4b ∷ 0x46 ∷ 0x7f ∷ 0xff ∷ 2 ∷ 0x10 ∷ cold_crc ∷ [])
      refl (omega arith) (omega arith) refl refl

-- The sign was lost on the way.
abbrev damaged_sensor : Sensor
damaged_sensor =
    sensor
      (((0x5e ∷ []) ++ (0x0f ∷ (0x4b ∷ 0x46 ∷ 0x7f ∷ 0xff ∷ 2 ∷ 0x10 ∷ []))) ++ (cold_crc ∷ []))

damaged_read_example : read_temp_done_cb damaged_sensor ≡ (
  read_over damaged_sensor.latest_temp damaged_sensor,
  hw_timer_disarm ∷ os_timer_disarm ∷ os_timer_arm 2431 ∷ [],
)
damaged_read_example =
    damaged_read damaged_sensor (0x5e ∷ []) (0x4b ∷ 0x46 ∷ 0x7f ∷ 0xff ∷ 2 ∷ 0x10 ∷ []) 0xff 0x0f
      refl refl refl (omega arith, tt)
      (omega arith, (omega arith, (omega arith, (omega arith, (omega arith, (omega arith, tt))))))
      (omega arith) (omega arith) (omega arith)

IsInstalled : (cb : Callback) → Type 0
IsInstalled no_callback = ⊥
IsInstalled cb = Unit

conv_t_some : conv_t_done ≢ no_callback
unfolding IsInstalled
conv_t_some e = subst IsInstalled e tt

sequence-Continues_example :
    Pauses conv_t_done (call_back conv_t_done cold_sensor).1
    × Continues conv_t_done
        (call_back conv_t_done cold_sensor).0
        (seq_timer_cb (call_back conv_t_done cold_sensor).0)
sequence-Continues_example = sequence-Continues cold_sensor conv_t_done conv_t_some refl

-- A conversion was set up.
abbrev unanswered : Sensor
unanswered = record cold_sensor {
  driver = record (at 0) { seq_state = seq_state_init; callback = conv_t_done };
}

missed_presence_example :
    (acts : List (List Action)) × (((run false
          (silent_events 1 (replicate 47 0) (replicate 5 1) 1)
          unanswered.driver).1
        ≡ acts ++ ((release ∷ call conv_t_done ∷ []) ∷ []))
      × Stops conv_t_done unanswered
          (run false (silent_events 1 (replicate 47 0) (replicate 5 1) 1) unanswered.driver).0)
missed_presence_example =
    missed_presence false unanswered 1 (replicate 47 0) (replicate 5 1) 1 refl refl conv_t_some refl
      five-IsHigh (omega arith) refl

-- A sensor whose temperature was just converted; the levels run into the read of the second byte.
abbrev read_levels : List ℕ
read_levels =
    presence_events answered
    ++ (written_events command ++ (written_events command ++ (1 ∷ all_events (first_byte ∷ []))))

abbrev second_byte : Driver
second_byte = after false 3 read_levels cold_sensor

store_in_bounds_example :
    (second_byte.read_count < 9) × (second_byte.read_count + second_byte.reads_left ≤ 9)
unfolding run on_event init_seq doit doit_reset doit_write doit_read
store_in_bounds_example =
    store_in_bounds false 3 read_levels cold_sensor (omega arith) (omega arith) refl refl refl

position_in_bounds_example :
    (second_byte.seq_pos < length second_byte.seq_arr)
    × (second_byte.seq_pos < length second_byte.arg_arr)
unfolding run on_event init_seq doit doit_reset doit_write doit_read
position_in_bounds_example =
    position_in_bounds false 3 read_levels cold_sensor (omega arith) (omega arith) refl (inl refl)
