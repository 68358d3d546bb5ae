-- ===== src/CircBuf/Slots.antt =====
-- The slots of a buffer: where the in pointer stands, and how the contents follow the pointers.
use esp_misc.Common.{
  ℕ, suc, ◌≤◌, ◌<◌, ◌≡◌, false, arith, ◌==◌, tabulate_cong, length, length-tabulate,
}
use esp_misc.CircBuf.{CbuffObj, Ring, store, next_pointer, prev_pointer}
use esp_misc.CircBuf.Valid.{IsValid, capacity, count, slot, contents, IsOutside}

pub length-contents : (s : Ring) → length (contents s) ≡ count s.obj
length-contents s = length-tabulate (count s.obj) _

module _ {o : CbuffObj} (v : IsValid o) where
  pub count-le : count o ≤ capacity o
  count-le = ground arith

  pub full_iff_count : (count o == capacity o) ≡ o.cbuff_full
  full_iff_count = ground arith

  pub empty_iff_count : (count o == 0) ≡ o.cbuff_empty
  empty_iff_count = ground arith

  -- Behind the bytes held stands the in pointer.
  pub slot-count : o.cbuff_full ≡ false → slot o o.out_pointer (count o) ≡ o.in_pointer
  slot-count h = ground arith

  -- A slot that holds a byte is not the one that is written next.
  pub slot_ne_in :
      (k : ℕ)
      → o.cbuff_full ≡ false
      → k < count o
      → (slot o o.out_pointer k == o.in_pointer) ≡ false
  slot_ne_in k h lt = ground arith

  -- Slots are bytes of the buffer.
  pub slot_bounds :
      (k : ℕ)
      → k < capacity o
      → (o.start_of_buffer ≤ slot o o.out_pointer k) × (slot o o.out_pointer k ≤ o.end_of_buffer)
  slot_bounds k lt = ground arith

  -- The slots behind the next pointer are those behind the pointer, one further.
  pub slot-next :
      (k : ℕ)
      → suc k ≤ capacity o
      → slot o (next_pointer o o.out_pointer) k ≡ slot o o.out_pointer (suc k)
  slot-next k lt = ground arith

  pub slot-zero : slot o o.out_pointer 0 ≡ o.out_pointer
  slot-zero = ground arith

  pub slot-prev_zero : slot o (prev_pointer o o.out_pointer) 0 ≡ prev_pointer o o.out_pointer
  slot-prev_zero = ground arith

  pub slot-prev :
      (k : ℕ)
      → suc k ≤ capacity o
      → slot o (prev_pointer o o.out_pointer) (suc k) ≡ slot o o.out_pointer k
  slot-prev k lt = ground arith

  -- The newest byte stands before the in pointer.
  pub slot_last : (n : ℕ) → count o ≡ suc n → slot o o.out_pointer n ≡ prev_pointer o o.in_pointer
  slot_last n e = ground arith

-- A write outside the buffer leaves the contents.
pub contents-store_outside :
    (s : Ring) (a x : ℕ)
    → IsValid s.obj
    → IsOutside s.obj a
    → contents (record s { mem = store s.mem a x }) ≡ contents s
contents-store_outside s a x v out =
    tabulate_cong (count s.obj) _ _
      (λ k lt. ground (arith, slot_bounds v k (omega (arith, count-le v)), count-le v))
