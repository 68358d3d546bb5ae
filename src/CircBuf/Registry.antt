-- ===== src/CircBuf/Registry.antt =====
-- cbuff.c: the global list of buffer objects and their numbers.
use esp_misc.Common.{
  ℕ, zero, suc, ◌+◌, ◌-◌, ◌*◌, ◌%◌, ◌^◌, true, false, ◌==◌, if◌then◌else◌, bit_and, bit_or, bit_xor,
}
use esp_misc.CircBuf.{CbuffObj}

-- `startOfCbuffObjs`, `activeCbuffObjs` and the objects by their addresses; 0 is NULL.
pub record Registry : Type 0 where
  pub start_of_cbuff_objs : ℕ
  pub active_cbuff_objs : ℕ
  pub objs : ℕ → CbuffObj

abbrev pub destroy_fail : ℕ
destroy_fail = 0

abbrev pub destroy_ok : ℕ
destroy_ok = 1

-- `*p = o`
abbrev pub store_obj : (ℕ → CbuffObj) → ℕ → CbuffObj → ℕ → CbuffObj
store_obj objs p o a = if a == p then o else objs a

-- `cbuffInit`
abbrev pub init : Registry → Registry
init r = record r { start_of_cbuff_objs = 0; active_cbuff_objs = 0 }

-- `cbuffDeinit`
abbrev pub deinit : Registry → Registry
deinit r = record r { start_of_cbuff_objs = 0; active_cbuff_objs = 0 }

-- The object that `cbuffCreate` sets up; its number and flags `full` and `open` are given.
abbrev pub new_obj : (buffer size number next : ℕ) → CbuffObj
new_obj buffer size number next = record {
  start_of_buffer = buffer;
  end_of_buffer = buffer + (size - 1);
  in_pointer = buffer;
  out_pointer = buffer;
  buffer_number = number;
  cbuff_full = false;
  cbuff_empty = true;
  cbuff_open = false;
  next_circ_buffer_obj = next;
}

-- The search for a free number; 0 if there is none. 15 rounds shift the bit out.
unfoldable pub free_number : (fuel active circ_buff_num : ℕ) → ℕ
free_number zero active num = 0
free_number (suc fuel) active num =
    let next = bit_and (num * 2 % 2 ^ 32) 0xffff in
    let rest = free_number fuel active next in
    if bit_and active num == 0 then num else if next == 0 then 0 else rest

-- `cbuffCreate`
unfoldable pub create : (buffer size new : ℕ) → Registry → ℕ × Registry
create buffer size new r =
    if buffer == 0
    then (0, r)
    else if size == 0
    then (0, r)
    else if new == 0
    then (0, r)
    else if (if r.active_cbuff_objs == 0 then r.start_of_cbuff_objs == 0 else false)
    then (
      1,
      record {
        start_of_cbuff_objs = new;
        active_cbuff_objs = bit_or r.active_cbuff_objs 1;
        objs = store_obj r.objs new (new_obj buffer size 1 0);
      },
    )
    else if r.active_cbuff_objs == 0xffff
    then (0, r)
    else (let num = free_number 15 r.active_cbuff_objs 2 in
        (
          num,
          record {
            start_of_cbuff_objs = new;
            active_cbuff_objs = bit_or r.active_cbuff_objs num;
            objs = store_obj r.objs new (
                new_obj buffer size (if num == 0 then (r.objs new).buffer_number else num)
                  r.start_of_cbuff_objs);
          },
        ))

-- `x &= ~mask`
abbrev pub clear_bits : ℕ → ℕ → ℕ
clear_bits x mask = bit_xor x (bit_and x mask)

-- The loop of `cbuffDestroy` from `local` on, which `previous` points at.
unfoldable pub destroy_loop : (fuel buffer_number previous local : ℕ) → Registry → ℕ × Registry
destroy_loop zero number previous local r = (destroy_fail, r)
destroy_loop (suc fuel) number previous local r =
    let next = (r.objs local).next_circ_buffer_obj in
    let rest = destroy_loop fuel number local next r in
    if (r.objs local).buffer_number == number
    then (
      destroy_ok,
      record r {
        active_cbuff_objs = clear_bits r.active_cbuff_objs number;
        objs = store_obj r.objs previous (record (r.objs previous) { next_circ_buffer_obj = next });
      },
    )
    else if next == 0
    then (destroy_fail, r)
    else rest

-- `cbuffDestroy`
unfoldable pub destroy : (fuel buffer_number : ℕ) → Registry → ℕ × Registry
destroy fuel number r =
    let first = r.objs r.start_of_cbuff_objs in
    if r.start_of_cbuff_objs == 0
    then (destroy_fail, r)
    else if first.buffer_number == number
    then (
      destroy_ok,
      record r {
        start_of_cbuff_objs = first.next_circ_buffer_obj;
        active_cbuff_objs = clear_bits r.active_cbuff_objs number;
      },
    )
    else if first.next_circ_buffer_obj == 0
    then (destroy_fail, r)
    else destroy_loop fuel number r.start_of_cbuff_objs first.next_circ_buffer_obj r

-- The loop of `cbuffOpen` from `local` on: it reads the object before it looks at the pointer.
unfoldable pub open_loop : (fuel buffer_number local : ℕ) → Registry → ℕ × Registry
open_loop zero number local r = (0, r)
open_loop (suc fuel) number local r =
    let next = (r.objs local).next_circ_buffer_obj in
    let rest = open_loop fuel number next r in
    if (r.objs local).buffer_number == number
    then (if (r.objs local).cbuff_open then (0, r) else (
      local,
      record r { objs = store_obj r.objs local (record (r.objs local) { cbuff_open = true }) },
    ))
    else if next == 0
    then (0, r)
    else rest

-- `cbuffOpen`
unfoldable pub open_buffer : (fuel buffer_number : ℕ) → Registry → ℕ × Registry
open_buffer fuel number r = open_loop fuel number r.start_of_cbuff_objs r

-- `cbuffClose`
unfoldable pub close : (handle : ℕ) → Registry → ℕ × Registry
close handle r =
    if (r.objs handle).cbuff_open
    then (
      (r.objs handle).buffer_number,
      record r { objs = store_obj r.objs handle (record (r.objs handle) { cbuff_open = false }) },
    )
    else (0, r)
