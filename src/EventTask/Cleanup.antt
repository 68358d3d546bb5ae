-- ===== src/EventTask/Cleanup.antt =====
-- setup_event.c: what becomes of a message.
use mathlib.Core.Path.{subst}
use esp_misc.Common.{
  ℕ, ◌<◌, ◌≤◌, ◌≡◌, ◌≢◌, refl, sym, ◌∙◌, ap, Bool, Bool-cases, true, false, Option, none, some,
  List, [], ◌∷◌, ◌++◌, All, length, ◌==◌, leb, if◌then◌else◌, ◌%◌, ◌^◌, arith, ==-false, inl, inr,
  order_cases,
}
use esp_misc.Common.Int.{ℤ, negsuc, is_negative}
use esp_misc.Cli.{rx_buf_len, setup_cli_parse, memset_zero, strlen}
use esp_misc.Cli.Commands.{setup_cli_get_cmd, setup_cli_rboot_cmd}
use esp_misc.Cli.Shift.{IsText}
use esp_misc.Cli.Loop.{word}
use esp_misc.Cli.Parse.{chomp, setup_cli_parse_lem, parsed, strlen_lem}
use esp_misc.EventTask.{
  msg_iface_uart, msg_iface_one_wire, Msg, TaskAction, one_wire_event, switch_rom, print, free_data,
  free_msg, send_eot, switches, cleanup, answer, cleaned, handle, obey, blink_word, rboot_word,
  show_word, flush_word, uart_arm, event_mon_task,
}

-- A command, which frees nothing and sends no end of text.
abbrev pub IsCommand : TaskAction → Type 0
IsCommand one_wire_event = Unit
IsCommand (switch_rom slot) = Unit
IsCommand (print shown) = Unit
IsCommand free_data = ⊥
IsCommand free_msg = ⊥
IsCommand send_eot = ⊥

-- The memory at `data` is a string: text and a zero behind it. Fuel for each character is given, and the
-- first word fits the receive buffer.
abbrev pub IsString : ℕ → Option (List ℕ) → Type 0
IsString fuel none = Unit
IsString fuel (some text) =
    (line : List ℕ) × ((t : List ℕ) × ((text ≡ line ++ (0 ∷ t))
        × (IsText line × ((length line < fuel) × (length (word (chomp line)) ≤ rx_buf_len)))))

-- What is due for a message: its data freed, if it has any, then itself, and an end of text for the UART.
abbrev pub data_freed : Option (List ℕ) → List TaskAction
data_freed none = []
data_freed (some text) = free_data ∷ []

abbrev pub due : (iface : ℕ) → Option (List ℕ) → List TaskAction
due iface text =
    data_freed text ++ (free_msg ∷ (if iface == msg_iface_uart then send_eot ∷ [] else []))

cleanup-due : (iface : ℕ) (text : Option (List ℕ)) → cleanup iface text ≡ due iface text
unfolding cleanup
cleanup-due iface none = refl
cleanup-due iface (some text) = refl

switches-IsCommand : (slots : List ℕ) → All IsCommand (switches slots)
switches-IsCommand [] = tt
switches-IsCommand (slot ∷ slots) = (tt, switches-IsCommand slots)

-- A line of at most two characters is refused.
pub short_line :
    (fuel : ℕ) (junk : ℤ) (line t rx_buf : List ℕ)
    → IsText line
    → length line ≤ 2
    → setup_cli_parse fuel junk (line ++ (0 ∷ t)) rx_buf
      ≡ some (negsuc 0, (line ++ (0 ∷ t), memset_zero rx_buf (strlen (line ++ (0 ∷ t)))))
unfolding setup_cli_parse
short_line fuel junk line t rx_buf text short =
    let few : leb (strlen (line ++ (0 ∷ t))) 2 ≡ true =
      ground (arith, strlen_lem line t text, short) in
    rw few

All-if :
    (b : Bool) (x y : List TaskAction × List ℕ)
    → All IsCommand x.0
    → All IsCommand y.0
    → All IsCommand (if b then x else y).0
All-if true x y h k = h
All-if false x y h k = k

module _ (strstr : List ℕ → List ℕ → Bool) (fuel : ℕ) (junk : ℤ) where
  obey-IsCommand :
      (text : List ℕ) (len : ℕ) (rx_buf : List ℕ) → All IsCommand (obey strstr text len rx_buf).0
  unfolding obey
  obey-IsCommand text len rx_buf =
      let flushed = if strstr text flush_word then ([], memset_zero rx_buf 128) else ([], rx_buf) in
      let shown =
        if strstr text show_word
        then (print (setup_cli_get_cmd strstr text) ∷ [], rx_buf)
        else flushed in
      let switched =
        if strstr text rboot_word
        then (switches (setup_cli_rboot_cmd strstr text len), rx_buf)
        else shown in
      All-if (strstr text blink_word) ([], rx_buf) switched tt
        (All-if (strstr text rboot_word) (switches (setup_cli_rboot_cmd strstr text len), rx_buf)
          shown (switches-IsCommand (setup_cli_rboot_cmd strstr text len))
          (All-if (strstr text show_word) (print (setup_cli_get_cmd strstr text) ∷ [], rx_buf)
            flushed (tt, tt)
            (All-if (strstr text flush_word) ([], memset_zero rx_buf 128) ([], rx_buf) tt tt)))

  abbrev Commands : Option (List TaskAction × List ℕ) → Type 0
  Commands r =
      (acts : List TaskAction) × ((rx : List ℕ) × ((r ≡ some (acts, rx)) × All IsCommand acts))

  answer-Commands :
      (len : ℕ) (status : ℤ) (text rx : List ℕ)
      → Commands (answer strstr len (some (status, (text, rx))))
  answer-Commands len status text rx = elim (Bool-cases (is_negative status)) [
    | inl e ↦ ([], (rx, (rw (e, if◌then◌else◌), tt)))
    | inr e ↦ (
      (obey strstr text len rx).0,
      ((obey strstr text len rx).1, (rw (e, if◌then◌else◌), obey-IsCommand text len rx)),
    )
  ]

  arm-Commands :
      (text : Option (List ℕ)) (len : ℕ) (rx_buf : List ℕ)
      → IsString fuel text
      → Commands (uart_arm strstr fuel junk text len rx_buf)
  unfolding uart_arm
  arm-Commands none len rx_buf s = ([], (rx_buf, (refl, tt)))
  arm-Commands (some text) len rx_buf (line, (t, (e, (is_text, (enough, fits))))) =
      subst (λ m. Commands (answer strstr len (setup_cli_parse fuel junk m rx_buf))) (sym e)
        (elim (order_cases 2 (length line)) [
          | inl long ↦
              (let (v, returned) =
                  setup_cli_parse_lem line t rx_buf fuel junk is_text long enough fits in
                subst (λ r. Commands (answer strstr len r)) (sym returned)
                  (answer-Commands len junk (parsed junk line v rx_buf).1.0
                    (parsed junk line v rx_buf).1.1))
          | inr short ↦
              subst (λ r. Commands (answer strstr len r))
                (sym (short_line fuel junk line t rx_buf is_text short))
                (answer-Commands len (negsuc 0) (line ++ (0 ∷ t))
                  (memset_zero rx_buf (strlen (line ++ (0 ∷ t)))))
        ])

  handle_message :
      (iface : ℕ) (msg : Msg) (rx_buf : List ℕ)
      → IsString fuel msg.text
      → (acts : List TaskAction) × ((rx : List ℕ) × ((handle strstr fuel junk iface
                (some msg)
                rx_buf
              ≡ some (acts ++ cleanup iface msg.text, rx))
            × All IsCommand acts))
  unfolding handle
  handle_message iface msg rx_buf s = elim (Bool-cases (iface == msg_iface_uart)) [
    | inl f ↦
        (let (acts, (rx, (done, commands))) = arm-Commands msg.text msg.len rx_buf s in
          (acts, (rx, (rw (f, if◌then◌else◌) (ap (cleaned strstr iface msg.text) done), commands))))
    | inr f ↦ ([], (rx_buf, (rw (f, if◌then◌else◌), tt)))
  ]

  -- Every message that does not come from the 1-Wire interface is handled to the end, where it is a
  -- string with fuel for each character and a first word that fits the receive buffer of 128 bytes, if it
  -- has data: after commands that free nothing, its data, if it has any, and the message are freed once
  -- each, in this order, and a message of the UART is answered by an end of text, last.
  pub message_freed :
      (sig : ℕ) (msg : Msg) (rx_buf : List ℕ)
      → sig % 2 ^ 8 ≢ msg_iface_one_wire
      → IsString fuel msg.text
      → (acts : List TaskAction) × ((rx : List ℕ) × ((event_mon_task strstr fuel junk
                (record { sig = sig; par = some msg })
                rx_buf
              ≡ some (acts ++ due (sig % 2 ^ 8) msg.text, rx))
            × All IsCommand acts))
  unfolding event_mon_task
  message_freed sig msg rx_buf other s =
      let iface = sig % 2 ^ 8 in
      let e : (iface == msg_iface_one_wire) ≡ false = ==-false iface msg_iface_one_wire other in
      let (acts, (rx, (done, commands))) = handle_message iface msg rx_buf s in
      (
        acts,
        (
          rx,
          (
            rw (e, if◌then◌else◌) done
                ∙ ap (λ l. some (acts ++ l, rx)) (cleanup-due iface msg.text),
            commands,
          ),
        ),
      )
