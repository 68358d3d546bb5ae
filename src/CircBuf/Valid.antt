-- ===== src/CircBuf/Valid.antt =====
-- The invariant of a CBUFFOBJ between two calls, and the bytes that its buffer holds.
use esp_misc.Common.{
  ℕ, ◌+◌, ◌-◌, ◌^◌, ◌≤◌, ◌<◌, ◌≡◌, ◌⊎◌, true, false, List, arith, ltb, leb, if◌then◌else◌, tabulate,
}
use esp_misc.CircBuf.{CbuffObj, Ring, put_byte, get_byte, unput_byte, unget_byte, clear_buffer}

pub record IsValid (o : CbuffObj) : Type 0 where
  pub not_null : 0 < o.start_of_buffer
  pub ordered : o.start_of_buffer ≤ o.end_of_buffer
  pub fits : o.end_of_buffer < 2 ^ 32
  pub in_low : o.start_of_buffer ≤ o.in_pointer
  pub in_high : o.in_pointer ≤ o.end_of_buffer
  pub out_low : o.start_of_buffer ≤ o.out_pointer
  pub out_high : o.out_pointer ≤ o.end_of_buffer
  pub full_meets : o.cbuff_full ≡ true → o.in_pointer ≡ o.out_pointer
  pub empty_meets : o.cbuff_empty ≡ true → o.in_pointer ≡ o.out_pointer
  pub met : o.in_pointer ≡ o.out_pointer → (o.cbuff_full ≡ true) ⊎ (o.cbuff_empty ≡ true)
  pub not_both : o.cbuff_full ≡ true → o.cbuff_empty ≡ false

abbrev pub capacity : CbuffObj → ℕ
capacity o = o.end_of_buffer + 1 - o.start_of_buffer

-- How many bytes the buffer holds.
abbrev pub count : CbuffObj → ℕ
count o =
    if o.cbuff_full
    then capacity o
    else if o.cbuff_empty
    then 0
    else if ltb o.out_pointer o.in_pointer
    then o.in_pointer - o.out_pointer
    else capacity o - (o.out_pointer - o.in_pointer)

-- The address `k` places behind `p`, going round at the end.
abbrev pub slot : CbuffObj → ℕ → ℕ → ℕ
slot o p k = if leb (p + k) o.end_of_buffer then p + k else p + k - capacity o

-- The bytes held, the oldest first.
abbrev pub contents : Ring → List ℕ
contents s = tabulate (count s.obj) (λ k. s.mem (slot s.obj s.out_pointer k))

-- An address that is no byte of the buffer.
abbrev pub IsOutside : CbuffObj → ℕ → Type 0
IsOutside o a = (a < o.start_of_buffer) ⊎ (o.end_of_buffer < a)

pub put_byte-IsValid : (s : Ring) (x : ℕ) → IsValid s.obj → IsValid (put_byte x s).1.obj
unfolding put_byte
put_byte-IsValid s x v = ground arith

pub get_byte-IsValid : (s : Ring) (to : ℕ) → IsValid s.obj → IsValid (get_byte to s).1.obj
unfolding get_byte
get_byte-IsValid s to v = ground arith

pub unput_byte-IsValid : (s : Ring) → IsValid s.obj → IsValid (unput_byte s).1.obj
unfolding unput_byte
unput_byte-IsValid s v = ground arith

pub unget_byte-IsValid : (s : Ring) → IsValid s.obj → IsValid (unget_byte s).1.obj
unfolding unget_byte
unget_byte-IsValid s v = ground arith

pub clear_buffer-IsValid : (s : Ring) → IsValid s.obj → IsValid (clear_buffer s).obj
unfolding clear_buffer
clear_buffer-IsValid s v = ground arith
