-- ===== src/CircBuf.antt =====
-- app_common/util/cbuff.c and cbuff.h: one circular buffer of bytes behind a handle.
-- The caller's memory is a function from addresses to bytes, so a buffer, the byte that a call is
-- given through a pointer and other data share one memory and may overlap.
pub mod Deque
pub mod Slots
pub mod Steps
pub mod Refine
pub mod Numbers
pub mod Registry
pub mod Chain
pub mod Handles
pub mod Clients
pub mod PutArray
pub mod GetArray
mod Tests
pub mod Valid
use esp_misc.Common.{
  ℕ, zero, suc, ◌+◌, ◌-◌, ◌%◌, ◌^◌, Bool, true, false, Option, none, some, ltb, ◌==◌, if◌then◌else◌,
}

abbrev pub Memory : Type 0
Memory = ℕ → ℕ

-- `*p = v`
abbrev pub store : Memory → ℕ → ℕ → Memory
store mem p v a = if a == p then v else mem a

-- `struct CBUFFTYPE`. Pointers are addresses; `local_flag` is its three bits.
pub record CbuffObj : Type 0 where
  pub start_of_buffer : ℕ
  pub end_of_buffer : ℕ
  pub in_pointer : ℕ
  pub out_pointer : ℕ
  pub buffer_number : ℕ
  pub cbuff_full : Bool
  pub cbuff_empty : Bool
  pub cbuff_open : Bool
  pub next_circ_buffer_obj : ℕ

-- The memory and the object that a handle points at.
pub record Ring : Type 0 where
  pub mem : Memory
  pub obj : CbuffObj
  pub open obj use *

abbrev pub put_ok : ℕ
put_ok = 1

abbrev pub put_fail : ℕ
put_fail = 0

abbrev pub get_ok : ℕ
get_ok = 1

abbrev pub get_fail : ℕ
get_fail = 0

-- `unsigned int` differences wrap.
abbrev pub sub32 : ℕ → ℕ → ℕ
sub32 a b = (a + 2 ^ 32 - b) % 2 ^ 32

-- The number of bytes from the start to the end, both included.
abbrev pub size : Ring → ℕ
size s = sub32 (s.end_of_buffer + 1) s.start_of_buffer

-- The pointer one past `p`, taken back to the start behind the end.
abbrev pub next_pointer : CbuffObj → ℕ → ℕ
next_pointer o p = if ltb o.end_of_buffer (p + 1) then o.start_of_buffer else p + 1

-- The pointer before `p`, taken to the end in front of the start.
abbrev pub prev_pointer : CbuffObj → ℕ → ℕ
prev_pointer o p = if p == o.start_of_buffer then o.end_of_buffer else p - 1

-- Store at the in pointer, advance and wrap it, and set the full flag when it meets the out pointer.
pub put_one : ℕ → Ring → Ring
put_one byte s =
    let p = next_pointer s.obj s.in_pointer in
    record s {
      mem = store s.mem s.in_pointer byte;
      obj = record s.obj {
        in_pointer = p;
        cbuff_full = if p == s.out_pointer then true else s.cbuff_full;
      };
    }

-- The buffer is no longer empty, and no longer full.
abbrev pub clear_empty : Ring → Ring
clear_empty s = record s { obj = record s.obj { cbuff_empty = false } }

abbrev pub clear_full : Ring → Ring
clear_full s = record s { obj = record s.obj { cbuff_full = false } }

pub put_byte : ℕ → Ring → ℕ × Ring
unfolding put_one
put_byte byte s = if s.cbuff_full then (put_fail, s) else (put_ok, clear_empty (put_one byte s))

-- Copy the byte at the out pointer to address `to`, advance and wrap the pointer, and set the empty
-- flag when it meets the in pointer.
pub get_one : ℕ → Ring → Ring
get_one to s =
    let p = next_pointer s.obj s.out_pointer in
    record s {
      mem = store s.mem to (s.mem s.out_pointer);
      obj = record s.obj {
        out_pointer = p;
        cbuff_empty = if p == s.in_pointer then true else s.cbuff_empty;
      };
    }

pub get_byte : ℕ → Ring → ℕ × Ring
unfolding get_one
get_byte to s = if s.cbuff_empty then (get_fail, s) else (get_ok, clear_full (get_one to s))

pub get_space : Ring → ℕ
get_space s =
    if s.cbuff_full
    then 0
    else if s.cbuff_empty
    then size s
    else if ltb s.out_pointer s.in_pointer
    then sub32 (size s) (sub32 s.in_pointer s.out_pointer)
    else sub32 s.out_pointer s.in_pointer

pub get_fill : Ring → ℕ
unfolding get_space
get_fill s = sub32 (size s) (get_space s)

-- Every flag is cleared, the open flag too, before the empty flag is set.
pub clear_buffer : Ring → Ring
clear_buffer s = record s {
  obj = record s.obj {
    in_pointer = s.start_of_buffer;
    out_pointer = s.start_of_buffer;
    cbuff_full = false;
    cbuff_empty = true;
    cbuff_open = false;
  };
}

pub peek_tail : ℕ → Ring → ℕ × Ring
peek_tail to s =
    if s.cbuff_empty
    then (get_fail, s)
    else (get_ok, record s { mem = store s.mem to (s.mem s.out_pointer) })

pub peek_head : ℕ → Ring → ℕ × Ring
peek_head to s =
    if s.cbuff_empty
    then (get_fail, s)
    else (get_ok, record s { mem = store s.mem to (s.mem (prev_pointer s.obj s.in_pointer)) })

-- Step the in pointer back, and set the empty flag when it meets the out pointer.
pub unput_one : Ring → Ring
unput_one s =
    let p = prev_pointer s.obj s.in_pointer in
    record s {
      obj = record s.obj {
        in_pointer = p;
        cbuff_empty = if p == s.out_pointer then true else s.cbuff_empty;
      };
    }

pub unput_byte : Ring → ℕ × Ring
unfolding unput_one
unput_byte s = if s.cbuff_empty then (1, s) else (0, clear_full (unput_one s))

-- Step the out pointer back, and set the full flag when it meets the in pointer.
pub unget_one : Ring → Ring
unget_one s =
    let p = prev_pointer s.obj s.out_pointer in
    record s {
      obj = record s.obj {
        out_pointer = p;
        cbuff_full = if p == s.in_pointer then true else s.cbuff_full;
      };
    }

pub unget_byte : Ring → ℕ × Ring
unfolding unget_one
unget_byte s = if s.cbuff_full then (1, s) else (0, clear_empty (unget_one s))

-- The loop of `cbuffPutArray` from `src` on, `written` bytes in; `none` is out of fuel.
pub put_loop : ℕ → ℕ → ℕ → ℕ → Ring → Option (ℕ × Ring)
put_loop zero src no_of_bytes written s = none
put_loop (suc fuel) src no_of_bytes written s =
    let t = put_one (s.mem src) s in
    let count = (written + 1) % 2 ^ 32 in
    let rest = put_loop fuel (src + 1) no_of_bytes count t in
    if s.cbuff_full
    then some (written, s)
    else if count == no_of_bytes
    then some (count, t)
    else rest

pub put_array : ℕ → ℕ → ℕ → Ring → Option (ℕ × Ring)
put_array fuel src no_of_bytes s =
    if s.cbuff_full then some (0, s) else elim (put_loop fuel src no_of_bytes 0 s) [
      | none ↦ none
      | some (written, t) ↦ some (written, clear_empty t)
    ]

-- The loop of `cbuffGetArray`.
pub get_loop : ℕ → ℕ → ℕ → ℕ → Ring → Option (ℕ × Ring)
get_loop zero dest no_of_bytes read s = none
get_loop (suc fuel) dest no_of_bytes read s =
    let t = get_one dest s in
    let count = (read + 1) % 2 ^ 32 in
    let rest = get_loop fuel (dest + 1) no_of_bytes count t in
    if s.cbuff_empty then some (read, s) else if count == no_of_bytes then some (count, t) else rest

pub get_array : ℕ → ℕ → ℕ → Ring → Option (ℕ × Ring)
get_array fuel dest no_of_bytes s =
    if s.cbuff_empty then some (0, s) else elim (get_loop fuel dest no_of_bytes 0 s) [
      | none ↦ none
      | some (read, t) ↦ some (read, clear_full t)
    ]
