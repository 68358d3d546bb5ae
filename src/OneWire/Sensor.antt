-- ===== src/OneWire/Sensor.antt =====
-- onewire_nb.c: the sequences, their callbacks and the timer between them. Printing is left out; what goes
-- to the system, the timers and the publisher is recorded as requests, in order.
use esp_misc.Common.{
  ℕ, ◌+◌, ◌*◌, ◌/◌, ◌%◌, ◌^◌, List, [], ◌∷◌, ◌++◌, bit_and, bit_or, bit_xor, ◌==◌, if◌then◌else◌,
  get_or, take, replicate,
}
use esp_misc.Crc.{onewire_crc8}
use esp_misc.OneWire.Driver.{
  seq_state_init, error_none, Callback, no_callback, read_uuid_done, conv_t_done, read_temp_done,
  Driver, ds_seqs, ds_seq_args, ds_seq_lens,
}

-- `DS_SEQ_T`
abbrev pub ds_seq_invalid : ℕ
ds_seq_invalid = 0

abbrev pub ds_seq_uuid : ℕ
ds_seq_uuid = 1

abbrev pub ds_seq_conv : ℕ
ds_seq_conv = 2

abbrev pub ds_seq_read : ℕ
ds_seq_read = 3

abbrev pub ds_seq_next_read : ℕ
ds_seq_next_read = 4

-- `DS_FAMILY_CODE` of the MAX31820
abbrev pub ds_family_code : ℕ
ds_family_code = 0x28

abbrev pub plus_sign : ℕ
plus_sign = 43

abbrev pub minus_sign : ℕ
minus_sign = 45

-- `Temperature`, without its padding.
pub record Temperature : Type 0 where
  pub sign : ℕ
  pub val : ℕ
  pub fract : ℕ
  pub available : ℕ

-- The file's static variables.
pub record Sensor : Type 0 where
  pub driver : Driver
  pub timer_arg : ℕ
  pub latest_temp : Temperature

-- What a function asks of the system.
pub data Request : Type 0 where
  hw_timer_disarm : Request
  hw_timer_arm : ℕ → Request
  os_timer_disarm : Request
  os_timer_arm : ℕ → Request
  post_one_wire : Request
  publish : Temperature → Request

abbrev pub Outcome : Type 0
Outcome = Sensor × List Request

-- `OW_init_seq`
unfoldable pub init_seq : ℕ → Sensor → Outcome
init_seq seq s =
    let e = record s.driver {
      seq_arr = get_or ds_seqs seq [];
      arg_arr = get_or ds_seq_args seq [];
      seq_len = get_or ds_seq_lens seq 0;
      seq_state = seq_state_init;
      error = error_none;
    } in
    if seq == ds_seq_uuid
    then (
      record s { driver = record e { callback = read_uuid_done }; timer_arg = seq },
      post_one_wire ∷ [],
    )
    else if seq == ds_seq_conv
    then (
      record s { driver = record e { callback = conv_t_done }; timer_arg = seq },
      post_one_wire ∷ [],
    )
    else if seq == ds_seq_read
    then (
      record s { driver = record e { callback = read_temp_done }; timer_arg = seq },
      post_one_wire ∷ [],
    )
    else (record s { driver = record e { callback = no_callback }; timer_arg = 0 }, [])

-- `OW_handle_error`
unfoldable pub handle_error : Sensor → Outcome
handle_error s =
    (record s { driver = record s.driver { error = error_none } }, hw_timer_disarm ∷ [])

-- `onewire_seq_timer_cb`
unfoldable pub seq_timer_cb : Sensor → Outcome
seq_timer_cb s =
    if s.timer_arg == ds_seq_uuid
    then init_seq ds_seq_conv s
    else if s.timer_arg == ds_seq_conv
    then init_seq ds_seq_read s
    else if s.timer_arg == ds_seq_read
    then (s, [])
    else if s.timer_arg == ds_seq_next_read
    then (let (t, asked) = init_seq ds_seq_conv s in (t, asked ++ (hw_timer_arm 10 ∷ [])))
    else (s, [])

-- The reading as a temperature.
abbrev pub reading_of : List ℕ → ℕ
reading_of spad = bit_or (get_or spad 1 0 * 2 ^ 8) (get_or spad 0 0) % 2 ^ 16

abbrev pub temperature_of : ℕ → ℕ → Temperature
temperature_of s reading = record {
  sign = s;
  val = reading / 2 ^ 4;
  fract = bit_and reading 0xf * 100 / 16;
  available = 1;
}

abbrev pub decode : ℕ → Temperature
decode reading =
    if bit_and reading 0x8000 == 0
    then temperature_of plus_sign reading
    else temperature_of minus_sign ((bit_xor reading 0xffff + 1) % 2 ^ 16)

-- `read_temp_done_cb`
unfoldable pub read_temp_done_cb : Sensor → Outcome
read_temp_done_cb s =
    if s.driver.error == 0
    then (let spad = s.driver.spad_buf in
        let ok = onewire_crc8 (take 8 spad) == get_or spad 8 0 in
        let temp = decode (reading_of spad) in
        (
          record s {
            driver = record s.driver { spad_buf = replicate 9 0 };
            timer_arg = ds_seq_next_read;
            latest_temp = if ok then temp else s.latest_temp;
          },
          (hw_timer_disarm ∷ [])
              ++ ((if ok then publish temp ∷ [] else [])
                  ++ (os_timer_disarm ∷ os_timer_arm 2431 ∷ [])),
        ))
    else (let (t, asked) = handle_error s in (t, hw_timer_disarm ∷ asked))

-- `conv_t_done_cb`
unfoldable pub conv_t_done_cb : Sensor → Outcome
conv_t_done_cb s =
    if s.driver.error == 0
    then (record s { timer_arg = ds_seq_conv }, os_timer_arm 750 ∷ [])
    else handle_error s

-- `read_uuid_done_cb`
unfoldable pub read_uuid_done_cb : Sensor → Outcome
read_uuid_done_cb s =
    if s.driver.error == 0
    then (
      record s {
        driver = record s.driver { uuid = ds_family_code ∷ take 7 s.driver.spad_buf };
        timer_arg = ds_seq_uuid;
      },
      os_timer_disarm ∷ os_timer_arm 15 ∷ [],
    )
    else handle_error s

-- The call through `one_driver->callback`.
unfoldable pub call_back : Callback → Sensor → Outcome
call_back no_callback s = (s, [])
call_back read_uuid_done s = read_uuid_done_cb s
call_back conv_t_done s = conv_t_done_cb s
call_back read_temp_done s = read_temp_done_cb s
