-- ===== src/OneWire/Driver.antt =====
-- onewire_nb.h and maxim28.h: the driver's record, its enumerations and the sequences.
use esp_misc.Common.{ℕ, ◌+◌, ◌*◌, ◌%◌, List, [], ◌∷◌}

-- `OW_SEQ_STATE_T`
abbrev pub seq_state_init : ℕ
seq_state_init = 1

abbrev pub seq_state_started : ℕ
seq_state_started = 2

abbrev pub seq_state_transition : ℕ
seq_state_transition = 3

abbrev pub seq_state_done : ℕ
seq_state_done = 4

-- `OW_OP_T`
abbrev pub op_reset : ℕ
op_reset = 1

abbrev pub op_read : ℕ
op_read = 2

abbrev pub op_write : ℕ
op_write = 3

abbrev pub op_end : ℕ
op_end = 4

-- `OW_READ_OP_T`
abbrev pub read_op_init : ℕ
read_op_init = 1

abbrev pub read_op_line_low : ℕ
read_op_line_low = 2

abbrev pub read_op_sample : ℕ
read_op_sample = 3

abbrev pub read_op_wait_50 : ℕ
read_op_wait_50 = 4

abbrev pub read_op_done : ℕ
read_op_done = 5

-- `OW_WRITE_OP_T`
abbrev pub write_op_init : ℕ
write_op_init = 1

abbrev pub write_op_line_low : ℕ
write_op_line_low = 2

abbrev pub write_op_write_first : ℕ
write_op_write_first = 3

abbrev pub write_op_wait_first : ℕ
write_op_wait_first = 4

abbrev pub write_op_finally : ℕ
write_op_finally = 5

abbrev pub write_op_done : ℕ
write_op_done = 6

-- `OW_RESET_OP_T`
abbrev pub reset_op_init : ℕ
reset_op_init = 1

abbrev pub reset_op_wait_480_low : ℕ
reset_op_wait_480_low = 2

abbrev pub reset_op_wait_60_resp : ℕ
reset_op_wait_60_resp = 3

abbrev pub reset_op_wait_480 : ℕ
reset_op_wait_480 = 4

abbrev pub reset_op_done : ℕ
reset_op_done = 5

-- `OW_ERROR_T`
abbrev pub error_none : ℕ
error_none = 0

abbrev pub error_invalid_op : ℕ
error_invalid_op = 2

abbrev pub error_reset_resp_timeout : ℕ
error_reset_resp_timeout = 3

-- The callbacks that `OW_init_seq` installs; `no_callback` is NULL.
pub data Callback : Type 0 where
  no_callback read_uuid_done conv_t_done read_temp_done : Callback

-- What a call does to the world, in order: the pin driven or released, a busy wait, the hardware timer
-- armed, the callback made.
pub data Action : Type 0 where
  output : ℕ → Action
  release : Action
  delay_us : ℕ → Action
  hw_timer_arm : ℕ → Action
  call : Callback → Action

-- `onewire_driver_t`, with the static variables of `OW_doit_read` (but `sample`, which is written before
-- each use) and of `OW_doit_write`.
pub record Driver : Type 0 where
  pub seq_arr : List ℕ
  pub arg_arr : List ℕ
  pub seq_len : ℕ
  pub seq_state : ℕ
  pub seq_pos : ℕ
  pub op_type : ℕ
  pub cur_op : ℕ
  pub delay_count : ℕ
  pub spad_buf : List ℕ
  pub uuid : List ℕ
  pub error : ℕ
  pub callback : Callback
  pub read_mask : ℕ
  pub reads_left : ℕ
  pub read_count : ℕ
  pub read_data : ℕ
  pub write_mask : ℕ
  pub write_data : ℕ

-- `uint8_t` arithmetic.
abbrev pub dec8 : ℕ → ℕ
dec8 n = (n + 255) % 256

abbrev pub inc8 : ℕ → ℕ
inc8 n = (n + 1) % 256

abbrev pub shl8 : ℕ → ℕ
shl8 n = n * 2 % 256

-- `ds_seqs`, `ds_seq_args` and `ds_seq_lens`.
abbrev pub ds_seqs : List (List ℕ)
ds_seqs =
    []
    ∷ (op_reset ∷ op_write ∷ op_write ∷ op_read ∷ op_end ∷ [])
    ∷ (op_reset ∷ op_write ∷ op_write ∷ op_end ∷ [])
    ∷ (op_reset ∷ op_write ∷ op_write ∷ op_read ∷ op_end ∷ [])
    ∷ []

abbrev pub ds_seq_args : List (List ℕ)
ds_seq_args =
    []
    ∷ (0 ∷ 0x33 ∷ 0xbe ∷ 9 ∷ 0 ∷ [])
    ∷ (0 ∷ 0xcc ∷ 0x44 ∷ 0 ∷ [])
    ∷ (0 ∷ 0xcc ∷ 0xbe ∷ 9 ∷ 0 ∷ [])
    ∷ []

abbrev pub ds_seq_lens : List ℕ
ds_seq_lens = 0 ∷ 5 ∷ 4 ∷ 5 ∷ []
