-- ===== src/CircBuf/Refine.antt =====
-- A valid buffer behaves as the bounded sequence of the bytes that it holds.
use esp_misc.Common.{
  ℕ, zero, suc, ◌+◌, ◌-◌, ◌≡◌, refl, sym, ◌∙◌, ap, inl, inr, false, [], ◌∷◌, arith, Bool-cases,
  tabulate, length,
}
use esp_misc.CircBuf.{
  clear_full, get_one, Ring, prev_pointer, put_byte, get_byte, unput_byte, unget_byte, peek_tail,
  peek_head, get_space, get_fill,
}
use esp_misc.CircBuf.Deque
use esp_misc.CircBuf.Deque.{last_or, init_of}
use esp_misc.CircBuf.Valid.{IsValid, capacity, count, slot, contents, IsOutside}
use esp_misc.CircBuf.Slots.{
  length-contents, count-le, full_iff_count, empty_iff_count, slot-zero, slot_last,
  contents-store_outside,
}
use esp_misc.CircBuf.Steps.{
  contents-put_one, contents-get_one, contents-unput_one, contents-unget_one, get_fill_lem,
  get_space_lem,
}

-- On a valid buffer `cbuffPutByte` answers as the bounded sequence does: it refuses a byte exactly
-- when the buffer holds as many bytes as it has places, and appends the byte otherwise.
pub put_byte_refines :
    (s : Ring) (x : ℕ)
    → IsValid s.obj
    → let (status, t) = put_byte x s in
      (status, contents t) ≡ Deque.put (capacity s.obj) x (contents s)
unfolding put_byte Deque.put
put_byte_refines s x v = elim (Bool-cases s.cbuff_full) [
  | inl full ↦ ground (arith, length-contents s, full_iff_count v)
  | inr room ↦ ground (arith, length-contents s, full_iff_count v, contents-put_one s v x room)
]

abbrev pub value : Ring → ℕ → ℕ
value s k = s.mem (slot s.obj s.out_pointer k)

last_or-tabulate : (n : ℕ) (f : ℕ → ℕ) → last_or (f 0) (tabulate n (λ k. f (suc k))) ≡ f n
unfolding last_or
last_or-tabulate zero f = refl
last_or-tabulate (suc n) f = last_or-tabulate n (λ k. f (suc k))

init_of-tabulate : (n : ℕ) (f : ℕ → ℕ) → init_of (f 0) (tabulate n (λ k. f (suc k))) ≡ tabulate n f
unfolding init_of
init_of-tabulate zero f = refl
init_of-tabulate (suc n) f = ap (λ l. f 0 ∷ l) (init_of-tabulate n (λ k. f (suc k)))

module _ (s : Ring) (v : IsValid s.obj) where
  pub contents_zero : count s.obj ≡ 0 → contents s ≡ []
  contents_zero e = ap (λ n. tabulate n (value s)) e

  pub contents-suc :
      (n : ℕ)
      → count s.obj ≡ suc n
      → contents s ≡ s.mem s.out_pointer ∷ tabulate n (λ k. value s (suc k))
  contents-suc n e =
      ap (λ m. tabulate m (value s)) e
      ∙ ap (λ p. s.mem p ∷ tabulate n (λ k. value s (suc k))) (slot-zero v)

  get_byte_by_count :
      (to n : ℕ)
      → IsOutside s.obj to
      → count s.obj ≡ n
      → let (status, t) = get_byte to s in
        (status, t.mem to, contents t) ≡ Deque.get (s.mem to) (contents s)
  unfolding get_byte Deque.get
  get_byte_by_count to zero out e =
      rw (contents_zero e) (ground (arith, contents_zero e, empty_iff_count v))
  get_byte_by_count to (suc n) out e =
      rw (contents-suc n e) (ground (arith, empty_iff_count v, contents-get_one s v to n out e))

  -- On a valid buffer `cbuffGetByte` into a variable outside it takes the oldest byte, and answers
  -- with a failure that changes nothing exactly when there is none.
  pub get_byte_refines :
      (to : ℕ)
      → IsOutside s.obj to
      → let (status, t) = get_byte to s in
        (status, t.mem to, contents t) ≡ Deque.get (s.mem to) (contents s)
  get_byte_refines to out = get_byte_by_count to (count s.obj) out refl

  unput_byte_by_count :
      (n : ℕ)
      → count s.obj ≡ n
      → let (status, t) = unput_byte s in (status, contents t) ≡ Deque.unput (contents s)
  unfolding unput_byte Deque.unput
  unput_byte_by_count zero e =
      rw (contents_zero e) (ground (arith, contents_zero e, empty_iff_count v))
  unput_byte_by_count (suc n) e = rw (contents-suc n e) (
      ground (
        arith,
        empty_iff_count v,
        contents-unput_one s v n e,
        slot-zero v,
        init_of-tabulate n (value s),
      ))

  -- On a valid buffer `cbuffUnputByte` drops the newest byte, and answers 1 exactly when there is
  -- none.
  pub unput_byte_refines :
      let (status, t) = unput_byte s in (status, contents t) ≡ Deque.unput (contents s)
  unput_byte_refines = unput_byte_by_count (count s.obj) refl

  peek_tail_by_count :
      (to n : ℕ)
      → count s.obj ≡ n
      → let (status, t) = peek_tail to s in (status, t.mem to) ≡ Deque.peek (s.mem to) (contents s)
  unfolding peek_tail Deque.peek
  peek_tail_by_count to zero e = rw (contents_zero e) (ground (arith, empty_iff_count v))
  peek_tail_by_count to (suc n) e = rw (contents-suc n e) (ground (arith, empty_iff_count v))

  peek_head_by_count :
      (to n : ℕ)
      → count s.obj ≡ n
      → let (status, t) = peek_head to s in
        (status, t.mem to) ≡ Deque.peek_last (s.mem to) (contents s)
  unfolding peek_head Deque.peek_last
  peek_head_by_count to zero e = rw (contents_zero e) (ground (arith, empty_iff_count v))
  peek_head_by_count to (suc n) e = rw (contents-suc n e) (
      ground (arith, empty_iff_count v, slot-zero v, slot_last v n e, last_or-tabulate n (value s)))

  contents-peek_tail : (to : ℕ) → IsOutside s.obj to → contents (peek_tail to s).1 ≡ contents s
  unfolding peek_tail
  contents-peek_tail to out = elim (Bool-cases s.cbuff_empty) [
    | inl e ↦ ground arith
    | inr e ↦ ground (arith, contents-store_outside s to (s.mem s.out_pointer) v out)
  ]

  contents-peek_head : (to : ℕ) → IsOutside s.obj to → contents (peek_head to s).1 ≡ contents s
  unfolding peek_head
  contents-peek_head to out = elim (Bool-cases s.cbuff_empty) [
    | inl e ↦ ground arith
    | inr e ↦
        ground (arith, contents-store_outside s to (s.mem (prev_pointer s.obj s.in_pointer)) v out)
  ]

  -- On a valid buffer `cbuffPeekTail` reads the oldest byte and `cbuffPeekHead` the newest one into a
  -- variable outside the buffer, or both fail on an empty buffer; what is held does not change.
  pub peek_refines :
      (to : ℕ)
      → IsOutside s.obj to
      → (((peek_tail to s).0, (peek_tail to s).1.mem to) ≡ Deque.peek (s.mem to) (contents s))
        × (contents (peek_tail to s).1 ≡ contents s)
        × (((peek_head to s).0, (peek_head to s).1.mem to)
            ≡ Deque.peek_last (s.mem to) (contents s))
        × (contents (peek_head to s).1 ≡ contents s)
  peek_refines to out = (
    peek_tail_by_count to (count s.obj) refl,
    contents-peek_tail to out,
    peek_head_by_count to (count s.obj) refl,
    contents-peek_head to out,
  )

  -- On a valid buffer `cbuffGetFill` is the number of bytes held, and `cbuffGetSpace` the number of
  -- places left.
  pub fill_space_refines :
      (get_fill s ≡ length (contents s)) × (get_space s + length (contents s) ≡ capacity s.obj)
  fill_space_refines =
      omega (arith, get_fill_lem s v, get_space_lem s v, length-contents s, count-le v)

  -- On a valid buffer that is not full, `cbuffUngetByte` puts back in front of the bytes held
  -- whatever stands in the place before the oldest one.
  pub unget_byte_lem :
      s.cbuff_full ≡ false
      → ((unget_byte s).0 ≡ 0)
        × (contents (unget_byte s).1 ≡ s.mem (prev_pointer s.obj s.out_pointer) ∷ contents s)
  unfolding unget_byte
  unget_byte_lem room = ground (arith, contents-unget_one s v room)

-- After a successful get the place before the oldest byte holds the byte that was taken.
module _ (s : Ring) (to : ℕ) (v : IsValid s.obj) (out : IsOutside s.obj to) where
  taken : Ring
  taken = clear_full (get_one to s)

  get_byte-taken : s.cbuff_empty ≡ false → get_byte to s ≡ (1, taken)
  unfolding get_byte taken
  get_byte-taken e = ground arith

  taken-IsValid : s.cbuff_empty ≡ false → IsValid taken.obj
  unfolding taken get_one
  taken-IsValid e = ground arith

  taken-before :
      (taken.cbuff_full ≡ false)
      × (taken.mem (prev_pointer taken.obj taken.out_pointer) ≡ s.mem s.out_pointer)
  unfolding taken get_one
  taken-before = ground arith

  contents-taken : (n : ℕ) → count s.obj ≡ suc n → s.mem s.out_pointer ∷ contents taken ≡ contents s
  unfolding taken
  contents-taken n e =
      ap (λ l. s.mem s.out_pointer ∷ l) (contents-get_one s v to n out e)
      ∙ sym (contents-suc s v n e)

  count_pos : (n : ℕ) → s.cbuff_empty ≡ false → count s.obj ≡ n → count s.obj ≡ suc (n - 1)
  count_pos n e c = ground (arith, empty_iff_count v)

  -- Taking a byte from a valid buffer that is not empty, into a variable outside the buffer, and then
  -- calling `cbuffUngetByte` restores what the buffer held.
  pub unget_byte-get_byte :
      s.cbuff_empty ≡ false → contents (unget_byte (get_byte to s).1).1 ≡ contents s
  unget_byte-get_byte e =
      ap (λ r. contents (unget_byte r.1).1) (get_byte-taken e)
      ∙ (unget_byte_lem taken (taken-IsValid e) taken-before.0).1
      ∙ ap (λ x. x ∷ contents taken) taken-before.1
      ∙ contents-taken (count s.obj - 1) (count_pos (count s.obj) e refl)
