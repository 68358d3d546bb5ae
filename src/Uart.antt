-- ===== src/Uart.antt =====
-- app_setup/driver/uart.c: the interrupt that gathers what was typed, and the characters sent back. The
-- FIFO of the UART is the list of bytes that it holds while the interrupt is served. (uart.c of app_main
-- differs in names and in `uart_init`.)
pub mod Gather
pub mod Lines
pub mod Stuck
mod Tests
use esp_misc.Common.{
  ℕ, zero, suc, ◌+◌, ◌-◌, Bool, true, false, Option, none, some, List, [], ◌∷◌, ◌++◌, ltb, ◌==◌,
  if◌then◌else◌, get_or, set, take, length,
}

abbrev pub newline : ℕ
newline = 10

abbrev pub carriage_return : ℕ
carriage_return = 13

-- `buf` and the static `length` of `uart_recvTask`.
pub record Receiver : Type 0 where
  pub buf : List ℕ
  pub received : ℕ

-- `SETUP_IO_MSG_T`, as the receiver fills it in.
pub record IoMsg : Type 0 where
  pub text : List ℕ
  pub len : ℕ

-- The loop of `uart_recvTask`, and what stays in the FIFO.
unfoldable pub recv_loop : (fifo : List ℕ) → Receiver → Receiver × List ℕ
recv_loop [] r = (r, [])
recv_loop (c ∷ cs) r =
    let rest = recv_loop cs (record { buf = set r.buf r.received c; received = r.received + 1 }) in
    if ltb r.received 128 then rest else (r, c ∷ cs)

-- `buf[length - 1]`; with nothing received it is the byte in front of the buffer, `before`.
abbrev pub last_byte : (before : ℕ) → Receiver → ℕ
last_byte before r = if r.received == 0 then before else get_or r.buf (r.received - 1) 0

-- `uart_recvTask`: the message that it posts, if any, and what stays in the FIFO.
unfoldable pub uart_recv_task :
    (before : ℕ) (fifo : List ℕ) → Receiver → Option IoMsg × (Receiver × List ℕ)
uart_recv_task before fifo r =
    let (s, left) = recv_loop fifo r in
    if last_byte before s == newline
    then (
      some (record { text = take s.received s.buf ++ (0 ∷ []); len = s.received }),
      (record s { received = 0 }, left),
    )
    else (none, (s, left))

abbrev pub posted : Option IoMsg → List IoMsg → List IoMsg
posted none msgs = msgs
posted (some m) msgs = m ∷ msgs

-- The interrupts, each with the bytes that came in since the one before, and the messages posted.
unfoldable pub interrupts :
    (before : ℕ) → List (List ℕ) → (fifo : List ℕ) → Receiver → List IoMsg × (Receiver × List ℕ)
interrupts before [] fifo r = ([], (r, fifo))
interrupts before (bytes ∷ more) fifo r =
    let (msg, (s, left)) = uart_recv_task before (fifo ++ bytes) r in
    let (msgs, end) = interrupts before more left s in (posted msg msgs, end)

-- `uart0_write_char`, `uart1_write_char`: the characters handed to `uart_tx_one_char`.
unfoldable pub uart_write_char : ℕ → List ℕ
uart_write_char c =
    if c == newline
    then carriage_return ∷ newline ∷ []
    else if c == carriage_return
    then []
    else c ∷ []

-- `uart0_tx_buffer`
unfoldable pub uart0_tx_buffer : List ℕ → (len : ℕ) → List ℕ
uart0_tx_buffer buf len = take len buf

-- `uart0_sendStr`
unfoldable pub uart0_send_str : List ℕ → List ℕ
uart0_send_str [] = []
uart0_send_str (c ∷ cs) = let rest = uart0_send_str cs in if c == 0 then [] else c ∷ rest

-- `uart0_send_EOT`
abbrev pub uart0_send_eot : List ℕ
uart0_send_eot = 4 ∷ []
