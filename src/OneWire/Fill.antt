-- ===== src/OneWire/Fill.antt =====
-- A whole read operation: the bytes read fill the scratchpad.
use esp_misc.Common.{
  ℕ, suc, ◌+◌, ◌*◌, ◌^◌, ◌<◌, ◌≡◌, refl, sym, ◌∙◌, ap, Bool, false, List, [], ◌∷◌, ◌++◌, arith,
  get_or, length, All, ◌==◌, set,
}
use mathlib.Core.List.{map}
use mathlib.Core.Path.{subst}
use esp_misc.OneWire.Driver.{seq_state_transition, op_read, Driver, inc8, dec8}
use esp_misc.OneWire.Machine.{doit_read, doit, on_event, run}
use esp_misc.OneWire.Runs.{next_op}
use esp_misc.OneWire.Read.{
  slot_events, value_of, events_of, sampling, mix, mix-bit, run_state, last_slot_more,
  last_slot_end,
}
use esp_misc.OneWire.Bytes.{
  ByteSlots, IsByteSlots, byte_value, byte_events, delay_after, value_of-lt, bits_run,
}

abbrev pub all_events : List ByteSlots → List ℕ
all_events [] = []
all_events (b ∷ bs) = byte_events b ++ all_events bs

-- The buffer when the bytes are stored one behind the other.
abbrev pub fill : List ℕ → ℕ → List ByteSlots → List ℕ
fill spad count [] = spad
fill spad count (b ∷ bs) = fill (set spad count (byte_value b)) (suc count) bs

set_behind :
    (done rest : List ℕ) (old v : ℕ)
    → set (done ++ (old ∷ rest)) (length done) v ≡ (done ++ (v ∷ [])) ++ rest
set_behind [] rest old v = refl
set_behind (x ∷ done) rest old v = ap (λ xs. x ∷ xs) (set_behind done rest old v)

length_behind : (done : List ℕ) (v : ℕ) → length (done ++ (v ∷ [])) ≡ suc (length done)
length_behind [] v = refl
length_behind (x ∷ done) v = ap suc (length_behind done v)

append_behind : (done rest : List ℕ) (v : ℕ) → (done ++ (v ∷ [])) ++ rest ≡ done ++ (v ∷ rest)
append_behind [] rest v = refl
append_behind (x ∷ done) rest v = ap (λ xs. x ∷ xs) (append_behind done rest v)

fill_lem :
    (bs : List ByteSlots) (done old beyond : List ℕ)
    → length old ≡ length bs
    → fill (done ++ (old ++ beyond)) (length done) bs ≡ done ++ (map byte_value bs ++ beyond)
fill_lem [] done [] beyond e = refl
fill_lem [] done (o ∷ old) beyond e = absurd (omega arith)
fill_lem (b ∷ bs) done [] beyond e = absurd (omega arith)
fill_lem (b ∷ bs) done (o ∷ old) beyond e =
    ap (λ xs. fill xs (suc (length done)) bs) (set_behind done (old ++ beyond) o (byte_value b))
    ∙ ap (λ n. fill ((done ++ (byte_value b ∷ [])) ++ (old ++ beyond)) n bs)
        (sym (length_behind done (byte_value b)))
    ∙ fill_lem bs (done ++ (byte_value b ∷ [])) old beyond (omega arith)
    ∙ append_behind done (map byte_value bs ++ beyond) (byte_value b)

module _ (p : Bool) (d : Driver) where
  front_run :
      (b : ByteSlots) (left count delay : ℕ) (spad : List ℕ)
      → IsByteSlots b
      → (run p (byte_events b) (sampling 1 0 left count delay spad d)).0
        ≡ (run p
            (slot_events b.last)
            (sampling 128 (value_of b.front) left count (delay_after b.front delay) spad d)).0
  front_run b left count delay spad e =
      run_state p (events_of b.front) (slot_events b.last) _
      ∙ ap (λ e. (run p (slot_events b.last) e).0)
          (bits_run p left count spad d b.front 0 0 delay (omega arith) (omega arith)
            ∙ ap
                (λ n.
                  sampling (2 ^ n) (0 + value_of b.front * 1) left count (delay_after b.front delay)
                    spad d)
                (let l : 0 + length b.front ≡ 7 = omega (arith, e) in l)
            ∙ ap (λ n. sampling 128 n left count (delay_after b.front delay) spad d) (omega arith))

  value_lem :
      (b : ByteSlots) → IsByteSlots b → mix b.last.level (value_of b.front) 128 ≡ byte_value b
  value_lem b e =
      mix-bit b.last 7 (value_of b.front) (
        let h : value_of b.front < 2 ^ length b.front = value_of-lt b.front in
        subst (λ n. value_of b.front < 2 ^ n) e h)
      ∙ omega arith

  byte_more :
      (b : ByteSlots) (left count delay : ℕ) (spad : List ℕ)
      → IsByteSlots b
      → (dec8 left == 0) ≡ false
      → (run p (byte_events b) (sampling 1 0 left count delay spad d)).0
        ≡ sampling 1 0 (dec8 left) (inc8 count) 0 (set spad count (byte_value b)) d
  byte_more b left count delay spad e more =
      front_run b left count delay spad e
      ∙ last_slot_more p left count spad d b.last (value_of b.front) (delay_after b.front delay)
          more
      ∙ ap (λ v. sampling 1 0 (dec8 left) (inc8 count) 0 (set spad count v) d) (value_lem b e)

  byte_end :
      (b : ByteSlots) (count delay : ℕ) (spad : List ℕ)
      → IsByteSlots b
      → inc8 d.seq_pos < d.seq_len
      → (run p (byte_events b) (sampling 1 0 1 count delay spad d)).0
        ≡ next_op (sampling 1 0 0 (inc8 count) 0 (set spad count (byte_value b)) d)
  byte_end b count delay spad e fits =
      front_run b 1 count delay spad e
      ∙ last_slot_end p 1 count spad d b.last (value_of b.front) (delay_after b.front delay) fits
      ∙ ap (λ v. next_op (sampling 1 0 0 (inc8 count) 0 (set spad count v) d)) (value_lem b e)

  bytes_run :
      (b : ByteSlots) (bs : List ByteSlots) (count delay : ℕ) (spad : List ℕ)
      → All IsByteSlots (b ∷ bs)
      → inc8 d.seq_pos < d.seq_len
      → count + suc (length bs) < 256
      → (run p (all_events (b ∷ bs)) (sampling 1 0 (suc (length bs)) count delay spad d)).0
        ≡ next_op (sampling 1 0 0 (count + suc (length bs)) 0 (fill spad count (b ∷ bs)) d)
  unfolding run
  bytes_run b [] count delay spad (e, _) fits h =
      run_state p (byte_events b) [] _
      ∙ byte_end b count delay spad e fits
      ∙ ap (λ n. next_op (sampling 1 0 0 n 0 (fill spad count (b ∷ [])) d)) (omega arith)
  bytes_run b (c ∷ bs) count delay spad (e, es) fits h =
      run_state p (byte_events b) (all_events (c ∷ bs)) _
      ∙ ap (λ e. (run p (all_events (c ∷ bs)) e).0)
          (byte_more b (suc (suc (length bs))) count delay spad e (ground arith)
            ∙ ap (λ n. sampling 1 0 n (inc8 count) 0 (set spad count (byte_value b)) d)
                (omega arith)
            ∙ ap (λ n. sampling 1 0 (suc (length bs)) n 0 (set spad count (byte_value b)) d)
                (omega arith))
      ∙ bytes_run c bs (suc count) 0 (set spad count (byte_value b)) es fits (omega arith)
      ∙ ap (λ n. next_op (sampling 1 0 0 n 0 (fill spad count (b ∷ c ∷ bs)) d)) (omega arith)

  first_event :
      (line : ℕ)
      → d.op_type ≡ op_read
      → d.seq_state ≡ seq_state_transition
      → (on_event p line d).0
        ≡ sampling 1 0 (get_or d.arg_arr d.seq_pos 0) 0 d.delay_count d.spad_buf d
  unfolding on_event doit doit_read
  first_event line e s = ground arith

  -- A read operation, from its first event, of as many bytes as its argument asks for (at least one and
  -- at most 255), with any levels on the line: if the scratchpad has room, each byte's eight sampled
  -- levels, the lowest bit first, become one byte of it, in order, and what is behind them stays; then
  -- the next operation of the sequence is set up. The levels at the events between two samples do not
  -- matter.
  pub read_fills_scratchpad :
      (line : ℕ) (b : ByteSlots) (bs : List ByteSlots) (old beyond : List ℕ)
      → d.op_type ≡ op_read
      → d.seq_state ≡ seq_state_transition
      → inc8 d.seq_pos < d.seq_len
      → get_or d.arg_arr d.seq_pos 0 ≡ suc (length bs)
      → suc (length bs) < 256
      → d.spad_buf ≡ old ++ beyond
      → length old ≡ suc (length bs)
      → All IsByteSlots (b ∷ bs)
      → (run p (line ∷ all_events (b ∷ bs)) d).0
        ≡ next_op (sampling 1 0 0 (suc (length bs)) 0 (map byte_value (b ∷ bs) ++ beyond) d)
  unfolding run
  read_fills_scratchpad line b bs old beyond e s fits asked lt room long es =
      ap (λ e. (run p (all_events (b ∷ bs)) e).0)
        (first_event line e s
          ∙ ap (λ n. sampling 1 0 n 0 d.delay_count d.spad_buf d) asked
          ∙ ap (λ xs. sampling 1 0 (suc (length bs)) 0 d.delay_count xs d) room)
      ∙ bytes_run b bs 0 d.delay_count (old ++ beyond) es fits (omega arith)
      ∙ ap (λ n. next_op (sampling 1 0 0 n 0 (fill (old ++ beyond) 0 (b ∷ bs)) d)) (omega arith)
      ∙ ap (λ xs. next_op (sampling 1 0 0 (suc (length bs)) 0 xs d))
          (fill_lem (b ∷ bs) [] old beyond long)
