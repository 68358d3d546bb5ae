-- ===== src/EventTask/Typed.antt =====
-- From the UART to the command: a line that was typed is gathered by uart.c, posted, parsed and obeyed.
use mathlib.Core.List.{map}
use esp_misc.Common.{
  ℕ, ◌<◌, ◌≤◌, ◌≡◌, Option, none, All, refl, ◌∙◌, ap, Bool, false, some, List, [], ◌∷◌, ◌++◌,
  length, if◌then◌else◌, arith,
}
use esp_misc.Common.Int.{ℤ, is_negative}
use esp_misc.Cli.Shift.{IsText}
use esp_misc.Cli.Round.{tidied}
use esp_misc.Cli.Loop.{length-word}
use esp_misc.Cli.Parse.{chomp, length-chomp, parsed, setup_cli_parse_lem}
use esp_misc.Uart.{Receiver, IoMsg, interrupts}
use esp_misc.Uart.Gather.{Holds, message}
use esp_misc.Uart.Lines.{Line, line_text, all_events, IsLine, lines_posted}
use esp_misc.EventTask.{
  msg_iface_uart, OsEvent, TaskAction, free_data, free_msg, send_eot, cleanup, answer, cleaned,
  handle, obey, uart_arm, event_mon_task,
}

-- The event that `uart_recvTask` posts.
abbrev pub posted_event : IoMsg → OsEvent
posted_event m = record {
  sig = msg_iface_uart;
  par = some (record { text = some m.text; len = m.len });
}

abbrev pub after :
    List TaskAction → Option (List TaskAction × List ℕ) → Option (List TaskAction × List ℕ)
after acts none = none
after acts (some (more, rx)) = some (acts ++ more, rx)

abbrev pub serve_next :
    Option (List TaskAction × List ℕ)
    → (List ℕ → Option (List TaskAction × List ℕ))
    → Option (List TaskAction × List ℕ)
serve_next none rest = none
serve_next (some (acts, rx)) rest = after acts (rest rx)

-- The text of a line has room for the parser: no zero in it, more than two characters, and fuel for each.
abbrev pub IsCommandLine : ℕ → Line → Type 0
IsCommandLine fuel line =
    IsText (line_text line) × ((2 < length (line_text line)) × (length (line_text line) < fuel))

module _ (strstr : List ℕ → List ℕ → Bool) (fuel : ℕ) (junk : ℤ) where
  -- A parsed line is obeyed, and the message freed.
  abbrev pub obeyed : (len : ℕ) (mem rx : List ℕ) → List TaskAction × List ℕ
  obeyed len mem rx = (
    (obey strstr mem len rx).0 ++ (free_data ∷ free_msg ∷ send_eot ∷ []),
    (obey strstr mem len rx).1,
  )

  one_line_served :
      (line rx_buf : List ℕ)
      → IsText line
      → 2 < length line
      → length line < fuel
      → length line ≤ 128
      → is_negative junk ≡ false
      → (v : List ℕ) × (event_mon_task strstr fuel junk (posted_event (message line)) rx_buf
          ≡ some (
              obeyed
                (length line)
                (tidied 0 (chomp line) ++ (0 ∷ v))
                (parsed junk line v rx_buf).1.1))
  unfolding event_mon_task handle uart_arm cleanup
  one_line_served line rx_buf is_text long enough fits no_error =
      let (v, returned) =
        setup_cli_parse_lem line [] rx_buf fuel junk is_text long enough
          (omega (arith, length-word (chomp line), length-chomp line, fits)) in
      (
        v,
        ap
              (λ r.
                cleaned strstr msg_iface_uart (some (line ++ (0 ∷ [])))
                  (answer strstr (length line) r))
              returned
            ∙ rw (no_error, if◌then◌else◌),
      )

  -- The task handles the messages one after the other.
  abbrev pub serve : List IoMsg → (rx_buf : List ℕ) → Option (List TaskAction × List ℕ)
  serve [] rx_buf = some ([], rx_buf)
  serve (m ∷ msgs) rx_buf =
      serve_next (event_mon_task strstr fuel junk (posted_event m) rx_buf) (serve msgs)

  -- Each line is obeyed in its turn, tidied up, with the receive buffer that the lines before left; the
  -- memory behind the tidied line is any.
  abbrev pub AllObeyed :
      List Line → (rx_buf : List ℕ) → List TaskAction → (rx_end : List ℕ) → Type 0
  AllObeyed [] rx_buf acts rx_end = (acts ≡ []) × (rx_end ≡ rx_buf)
  AllObeyed (line ∷ lines) rx_buf acts rx_end =
      let text = line_text line in
      (v : List ℕ) × ((rest : List TaskAction) × (let (now, rx) =
            obeyed (length text) (tidied 0 (chomp text) ++ (0 ∷ v))
              (parsed junk text v rx_buf).1.1 in
          (acts ≡ now ++ rest) × AllObeyed lines rx rest rx_end))

  serve_lines :
      (lines : List Line) (rx_buf : List ℕ)
      → All IsLine lines
      → All (IsCommandLine fuel) lines
      → is_negative junk ≡ false
      → (acts : List TaskAction) × ((rx_end : List ℕ) × ((serve
                (map (λ line. message (line_text line)) lines)
                rx_buf
              ≡ some (acts, rx_end))
            × AllObeyed lines rx_buf acts rx_end))
  serve_lines [] rx_buf are h no_error = ([], (rx_buf, (refl, (refl, refl))))
  serve_lines (line ∷ lines) rx_buf ((parts, fits), are) ((is_text, (long, enough)), h) no_error =
      let text = line_text line in
      let (v, done) = one_line_served text rx_buf is_text long enough fits no_error in
      let (now, rx) =
        obeyed (length text) (tidied 0 (chomp text) ++ (0 ∷ v)) (parsed junk text v rx_buf).1.1 in
      let (rest, (rx_end, (served, all))) = serve_lines lines rx are h no_error in
      let others = map (λ l. message (line_text l)) lines in
      (
        now ++ rest,
        (
          rx_end,
          (
            ap (λ r. serve_next r (serve others)) done ∙ ap (after now) served,
            (v, (rest, (refl, all))),
          ),
        ),
      )

  -- Lines of three to 128 characters, none of them zero, each typed over any number of interrupts of which
  -- only the last ends with a newline, to an empty receiver, with fuel for each character, and where the
  -- value that the parser leaves unset is no error: of the messages that the UART posts the task obeys one
  -- for each line, in order, on the line tidied up as the parser does it, and after each frees its data
  -- and the message and sends an end of text; nothing else is done.
  pub typed_lines_obeyed :
      (before : ℕ) (lines : List Line) (r : Receiver) (rx_buf : List ℕ)
      → Holds r []
      → All IsLine lines
      → All (IsCommandLine fuel) lines
      → is_negative junk ≡ false
      → (acts : List TaskAction) × ((rx_end : List ℕ) × ((serve
                (interrupts before (all_events lines) [] r).0
                rx_buf
              ≡ some (acts, rx_end))
            × AllObeyed lines rx_buf acts rx_end))
  typed_lines_obeyed before lines r rx_buf ready are_lines are_commands no_error =
      let (s, (sent, held)) = lines_posted before lines r ready are_lines in
      let (acts, (rx_end, (served, all))) =
        serve_lines lines rx_buf are_lines are_commands no_error in
      (acts, (rx_end, (ap (λ p. serve p.0 rx_buf) sent ∙ served, all)))
