-- ===== src/Uart/Gather.antt =====
-- uart.c: a line is put together from the bytes of any number of interrupts.
use mathlib.Core.Path.{subst}
use mathlib.Core.List.{append_assoc, append-nil}
use esp_misc.Common.{
  ℕ, ◌+◌, ◌-◌, ◌<◌, ◌≤◌, ◌≡◌, ◌≢◌, refl, sym, ◌∙◌, ap, true, false, none, some, List, [], ◌∷◌, ◌++◌,
  length, length-append, length-set, get_or, set, take, take-append, get_or-append, ◌==◌, ltb,
  if◌then◌else◌, arith, ==-false,
}
use esp_misc.Uart.{newline, Receiver, IoMsg, recv_loop, last_byte, uart_recv_task}

-- The buffer begins with the bytes received so far.
pub record Holds (r : Receiver) (line : List ℕ) : Type 0 where
  pub count : r.received ≡ length line
  pub room : length r.buf ≡ 128
  pub front : (rest : List ℕ) × (r.buf ≡ line ++ rest)

set_behind :
    (line : List ℕ) (x : ℕ) (rest : List ℕ) (c n : ℕ)
    → n ≡ length line
    → set (line ++ (x ∷ rest)) n c ≡ (line ++ (c ∷ [])) ++ rest
set_behind [] x rest c n e = ap (λ k. set (x ∷ rest) k c) e
set_behind (y ∷ ys) x rest c n e =
    ap (λ k. set (y ∷ (ys ++ (x ∷ rest))) k c) e
    ∙ ap (λ l. y ∷ l) (set_behind ys x rest c (length ys) refl)

room_left :
    (r : Receiver) (line : List ℕ) (c : ℕ) (rest : List ℕ)
    → Holds r line
    → length line < 128
    → r.buf ≡ line ++ rest
    → (after : List ℕ) × (set r.buf r.received c ≡ (line ++ (c ∷ [])) ++ after)
room_left r line c [] h lt e =
    let full : 128 ≡ length line = sym h.room ∙ ap length e ∙ ap length (append-nil line) in
    absurd (omega (arith, full, lt))
room_left r line c (x ∷ rest) h lt e =
    (rest, ap (λ l. set l r.received c) e ∙ set_behind line x rest c r.received h.count)

-- A byte more.
Holds-set :
    (r : Receiver) (line : List ℕ) (c : ℕ)
    → Holds r line
    → length line < 128
    → Holds (record { buf = set r.buf r.received c; received = r.received + 1 }) (line ++ (c ∷ []))
Holds-set r line c h lt = record {
  count = omega (arith, h.count, length-append line (c ∷ []));
  room = length-set r.buf r.received c ∙ h.room;
  front = room_left r line c h.front.0 h lt h.front.1;
}

recv_all :
    (fifo : List ℕ) (r : Receiver) (line : List ℕ)
    → Holds r line
    → length line + length fifo ≤ 128
    → (s : Receiver) × ((recv_loop fifo r ≡ (s, [])) × Holds s (line ++ fifo))
unfolding recv_loop
recv_all [] r line h fits = (r, (refl, subst (Holds r) (sym (append-nil line)) h))
recv_all (c ∷ cs) r line h fits =
    let next : Receiver = record { buf = set r.buf r.received c; received = r.received + 1 } in
    let (s, (e, held)) =
      recv_all cs next (line ++ (c ∷ [])) (Holds-set r line c h (omega (arith, fits)))
        (omega (arith, fits, length-append line (c ∷ []))) in
    let room : ltb r.received 128 ≡ true = ground (arith, h.count, fits) in
    (s, (rw (room, if◌then◌else◌) e, subst (Holds s) (append_assoc line (c ∷ []) cs) held))

last-Holds :
    (before : ℕ) (s : Receiver) (line : List ℕ) (z : ℕ)
    → Holds s (line ++ (z ∷ []))
    → last_byte before s ≡ z
last-Holds before s line z h =
    let count : s.received ≡ length line + 1 =
      omega (arith, h.count, length-append line (z ∷ [])) in
    let some_received : (s.received == 0) ≡ false = ground (arith, count) in
    rw (some_received, if◌then◌else◌)
      (ap (λ l. get_or l (s.received - 1) 0) (h.front.1 ∙ append_assoc line (z ∷ []) h.front.0)
        ∙ ap (λ k. get_or (line ++ (z ∷ h.front.0)) k 0)
            (let e : s.received - 1 ≡ length line = omega (arith, count) in e)
        ∙ get_or-append line z h.front.0 0)

-- Bytes that do not end the line.
abbrev pub IsPart : List ℕ → Type 0
IsPart bytes = (front : List ℕ) × ((z : ℕ) × ((bytes ≡ front ++ (z ∷ [])) × (z ≢ newline)))

pub task_part :
    (before : ℕ) (bytes : List ℕ) (r : Receiver) (line : List ℕ)
    → IsPart bytes
    → Holds r line
    → length line + length bytes ≤ 128
    → (s : Receiver) × ((uart_recv_task before bytes r ≡ (none, (s, []))) × Holds s (line ++ bytes))
unfolding uart_recv_task
task_part before bytes r line (front, (z, (e, other))) h fits =
    let (s, (got, held)) = recv_all bytes r line h fits in
    let whole : line ++ bytes ≡ (line ++ front) ++ (z ∷ []) =
      ap (λ l. line ++ l) e ∙ sym (append_assoc line front (z ∷ [])) in
    let ends : last_byte before s ≡ z =
      last-Holds before s (line ++ front) z (subst (Holds s) whole held) in
    let no_line : (last_byte before s == newline) ≡ false =
      ==-false (last_byte before s) newline (λ k. other (sym ends ∙ k)) in
    (s, (rw (got, no_line, if◌then◌else◌), held))

-- The message of a line.
abbrev pub message : List ℕ → IoMsg
message line = record { text = line ++ (0 ∷ []); len = length line }

pub task_end :
    (before : ℕ) (front : List ℕ) (r : Receiver) (line : List ℕ)
    → Holds r line
    → length line + (length front + 1) ≤ 128
    → (s : Receiver) × ((uart_recv_task before (front ++ (newline ∷ [])) r
          ≡ (some (message (line ++ (front ++ (newline ∷ [])))), (s, [])))
        × Holds s [])
unfolding uart_recv_task
task_end before front r line h fits =
    let bytes = front ++ (newline ∷ []) in
    let (s, (got, held)) =
      recv_all bytes r line h (omega (arith, fits, length-append front (newline ∷ []))) in
    let whole : line ++ bytes ≡ (line ++ front) ++ (newline ∷ []) =
      sym (append_assoc line front (newline ∷ [])) in
    let ends : last_byte before s ≡ newline =
      last-Holds before s (line ++ front) newline (subst (Holds s) whole held) in
    let a_line : (last_byte before s == newline) ≡ true = ap (λ k. k == newline) ends in
    let front_of : take s.received s.buf ≡ line ++ bytes =
      ap (λ k. take k s.buf) held.count
      ∙ ap (take (length (line ++ bytes))) held.front.1
      ∙ take-append (line ++ bytes) held.front.0 in
    (
      record s { received = 0 },
      (
        rw (got, a_line, if◌then◌else◌, front_of, held.count),
        record { count = refl; room = held.room; front = (s.buf, refl) },
      ),
    )
