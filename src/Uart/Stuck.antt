-- ===== src/Uart/Stuck.antt =====
-- uart.c: a line that is too long.
use esp_misc.Common.{
  ℕ, ◌≡◌, ◌≢◌, refl, sym, ◌∙◌, ap, false, none, List, [], ◌∷◌, ◌++◌, get_or, ◌==◌, if◌then◌else◌,
  ==-false,
}
use mathlib.Core.List.{append_assoc, append-nil}
use esp_misc.Uart.{newline, Receiver, recv_loop, last_byte, uart_recv_task, posted, interrupts}
use esp_misc.Uart.Lines.{concat}

recv_full : (fifo : List ℕ) (r : Receiver) → r.received ≡ 128 → recv_loop fifo r ≡ (r, fifo)
unfolding recv_loop
recv_full [] r full = refl
recv_full (c ∷ cs) r full = rw full

module _ (before : ℕ) (r : Receiver) (full : r.received ≡ 128)
    (open_line : get_or r.buf 127 0 ≢ newline) where
  task_full : (fifo : List ℕ) → uart_recv_task before fifo r ≡ (none, (r, fifo))
  unfolding uart_recv_task
  task_full fifo =
      let ends : last_byte before r ≡ get_or r.buf 127 0 = rw full in
      let no_line : (last_byte before r == newline) ≡ false =
        ==-false (last_byte before r) newline (λ k. open_line (sym ends ∙ k)) in
      rw (recv_full fifo r full, no_line, if◌then◌else◌)

  interrupts_full :
      (bytes : List ℕ) (more : List (List ℕ)) (fifo : List ℕ)
      → interrupts before (bytes ∷ more) fifo r ≡ interrupts before more (fifo ++ bytes) r
  unfolding interrupts
  interrupts_full bytes more fifo =
      ap
        (λ p.
          (let (msg, (t, left)) = p in
            let (msgs, end) = interrupts before more left t in (posted msg msgs, end)))
        (task_full (fifo ++ bytes))

  -- Once 128 characters were received and the last of them is no newline, whatever comes in at any
  -- number of interrupts stays in the FIFO: no message is posted, and the receiver stays as it is.
  pub full_buffer_stuck :
      (more : List (List ℕ)) (fifo : List ℕ)
      → interrupts before more fifo r ≡ ([], (r, fifo ++ concat more))
  unfolding interrupts
  full_buffer_stuck [] fifo = ap (λ l. ([], (r, l))) (sym (append-nil fifo))
  full_buffer_stuck (bytes ∷ more) fifo =
      interrupts_full bytes more fifo
      ∙ full_buffer_stuck more (fifo ++ bytes)
      ∙ ap (λ l. ([], (r, l))) (append_assoc fifo bytes (concat more))
