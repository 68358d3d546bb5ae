-- ===== src/CircBuf/Clients.antt =====
-- Any sequence of calls on one valid buffer, against the bounded sequence.
use esp_misc.Common.{ℕ, ◌≡◌, refl, ◌∙◌, ap, List, [], ◌∷◌, arith}
use esp_misc.CircBuf.{
  Ring, put_byte, get_byte, unput_byte, clear_buffer, peek_tail, peek_head, get_space, get_fill,
}
use esp_misc.CircBuf.Deque
use esp_misc.CircBuf.Deque.{
  Op, put_op, get_op, unput_op, tail_op, head_op, clear_op, space_op, fill_op,
}
use esp_misc.CircBuf.Valid.{
  IsValid, capacity, contents, IsOutside, put_byte-IsValid, get_byte-IsValid, unput_byte-IsValid,
  clear_buffer-IsValid,
}
use esp_misc.CircBuf.Refine.{
  put_byte_refines, get_byte_refines, unput_byte_refines, peek_refines, fill_space_refines,
}

-- One call; bytes are read into address `to`.
unfoldable pub step : ℕ → Op → Ring → ℕ × Ring
step to (put_op x) s = put_byte x s
step to get_op s = get_byte to s
step to unput_op s = unput_byte s
step to tail_op s = peek_tail to s
step to head_op s = peek_head to s
step to clear_op s = (0, clear_buffer s)
step to space_op s = (get_space s, s)
step to fill_op s = (get_fill s, s)

-- What a client sees: each call's result, and the variable after it.
unfoldable pub run : ℕ → List Op → Ring → List (ℕ × ℕ)
run to [] s = []
run to (op ∷ ops) s = let (status, t) = step to op s in (status, t.mem to) ∷ run to ops t

step-IsValid : (to : ℕ) (op : Op) (s : Ring) → IsValid s.obj → IsValid (step to op s).1.obj
unfolding step
step-IsValid to (put_op x) s v = put_byte-IsValid s x v
step-IsValid to get_op s v = get_byte-IsValid s to v
step-IsValid to unput_op s v = unput_byte-IsValid s v
step-IsValid to tail_op s v = unfold peek_tail in ground arith
step-IsValid to head_op s v = unfold peek_head in ground arith
step-IsValid to clear_op s v = clear_buffer-IsValid s v
step-IsValid to space_op s v = v
step-IsValid to fill_op s v = v

step_bounds :
    (to : ℕ) (op : Op) (s : Ring)
    → ((step to op s).1.start_of_buffer ≡ s.start_of_buffer)
      × ((step to op s).1.end_of_buffer ≡ s.end_of_buffer)
unfolding step put_byte get_byte unput_byte peek_tail peek_head clear_buffer
step_bounds to (put_op x) s = ground arith
step_bounds to get_op s = ground arith
step_bounds to unput_op s = ground arith
step_bounds to tail_op s = ground arith
step_bounds to head_op s = ground arith
step_bounds to clear_op s = ground arith
step_bounds to space_op s = ground arith
step_bounds to fill_op s = ground arith

-- Calls that are given no variable leave it, since they write inside the buffer.
step_spares :
    (to x : ℕ) (s : Ring)
    → IsValid s.obj
    → IsOutside s.obj to
    → ((put_byte x s).1.mem to ≡ s.mem to) × ((unput_byte s).1.mem to ≡ s.mem to)
unfolding put_byte unput_byte
step_spares to x s v out = ground arith

pub step_refines :
    (to : ℕ) (op : Op) (s : Ring)
    → IsValid s.obj
    → IsOutside s.obj to
    → let (status, t) = step to op s in
      (status, t.mem to, contents t) ≡ Deque.step (capacity s.obj) (s.mem to) op (contents s)
unfolding step Deque.step
step_refines to (put_op x) s v out =
    ground (arith, put_byte_refines s x v, step_spares to x s v out)
step_refines to get_op s v out = get_byte_refines s v to out
step_refines to unput_op s v out = ground (arith, unput_byte_refines s v, step_spares to 0 s v out)
step_refines to tail_op s v out = ground (arith, peek_refines s v to out)
step_refines to head_op s v out = ground (arith, peek_refines s v to out)
step_refines to clear_op s v out = unfold clear_buffer in refl
step_refines to space_op s v out = ground (arith, fill_space_refines s v)
step_refines to fill_op s v out = ground (arith, fill_space_refines s v)

-- No sequence of `cbuffPutByte`, `cbuffGetByte`, `cbuffUnputByte`, the peeks, `cbuffClearBuffer`,
-- `cbuffGetSpace` and `cbuffGetFill` tells a valid buffer from the bounded sequence of its bytes,
-- where bytes are read into a variable outside the buffer.
pub run_refines :
    (to : ℕ) (ops : List Op) (s : Ring)
    → IsValid s.obj
    → IsOutside s.obj to
    → run to ops s ≡ Deque.run (capacity s.obj) (s.mem to) ops (contents s)
unfolding run Deque.run
run_refines to [] s v out = refl
run_refines to (op ∷ ops) s v out =
    let (status, t) = step to op s in
    let same : capacity t.obj ≡ capacity s.obj = omega (arith, step_bounds to op s) in
    let ih = run_refines to ops t (step-IsValid to op s v) (omega (arith, step_bounds to op s)) in
    rw (← step_refines to op s v out) (
      ap (λ r. (status, t.mem to) ∷ r)
        (ih ∙ ap (λ c. Deque.run c (t.mem to) ops (contents t)) same))
