-- ===== src/EventTask.antt =====
-- app_setup/setup/setup_event.c: the task that handles the messages of the system's queue, built with the
-- temperature sensor. (main_event.c of app_main hands a line of the UART to the MQTT client instead.)
pub mod Cleanup
mod Tests
pub mod Typed
use esp_misc.Common.{
  ℕ, ◌%◌, ◌^◌, Bool, true, false, Option, none, some, List, [], ◌∷◌, ◌++◌, ◌==◌, if◌then◌else◌,
}
use esp_misc.Common.Int.{ℤ, is_negative}
use esp_misc.Cli.{setup_cli_parse, memset_zero}
use esp_misc.Cli.Commands.{Shown, setup_cli_get_cmd, setup_cli_rboot_cmd}

abbrev pub msg_iface_mqtt : ℕ
msg_iface_mqtt = 1

abbrev pub msg_iface_uart : ℕ
msg_iface_uart = 2

abbrev pub msg_iface_http : ℕ
msg_iface_http = 3

abbrev pub msg_iface_internal : ℕ
msg_iface_internal = 4

abbrev pub msg_iface_one_wire : ℕ
msg_iface_one_wire = 5

-- `SETUP_IO_MSG_T`, with the memory at `data`, if it is not NULL.
pub record Msg : Type 0 where
  pub text : Option (List ℕ)
  pub len : ℕ

-- `os_event_t`, with the message at `par`, if it is not NULL.
pub record OsEvent : Type 0 where
  pub sig : ℕ
  pub par : Option Msg

-- What the task does.
pub data TaskAction : Type 0 where
  one_wire_event : TaskAction
  switch_rom : ℕ → TaskAction
  print : Shown → TaskAction
  free_data free_msg : TaskAction
  send_eot : TaskAction

-- "blink", "rboot", "show" and "flush"
abbrev pub blink_word : List ℕ
blink_word = 98 ∷ 108 ∷ 105 ∷ 110 ∷ 107 ∷ []

abbrev pub rboot_word : List ℕ
rboot_word = 114 ∷ 98 ∷ 111 ∷ 111 ∷ 116 ∷ []

abbrev pub show_word : List ℕ
show_word = 115 ∷ 104 ∷ 111 ∷ 119 ∷ []

abbrev pub flush_word : List ℕ
flush_word = 102 ∷ 108 ∷ 117 ∷ 115 ∷ 104 ∷ []

abbrev pub switches : List ℕ → List TaskAction
switches [] = []
switches (slot ∷ slots) = switch_rom slot ∷ switches slots

-- Behind the switch: `cleanup`; `text` is what stands at `data`, if it is not NULL.
unfoldable pub cleanup : (iface : ℕ) → (text : Option (List ℕ)) → List TaskAction
cleanup iface none = free_msg ∷ (if iface == msg_iface_uart then send_eot ∷ [] else [])
cleanup iface (some text) =
    free_data ∷ free_msg ∷ (if iface == msg_iface_uart then send_eot ∷ [] else [])

module _ (strstr : List ℕ → List ℕ → Bool) where
  -- What follows `setup_cli_parse`, and the receive buffer.
  unfoldable pub obey : (text : List ℕ) (len : ℕ) (rx_buf : List ℕ) → List TaskAction × List ℕ
  obey text len rx_buf =
      if strstr text blink_word
      then ([], rx_buf)
      else if strstr text rboot_word
      then (switches (setup_cli_rboot_cmd strstr text len), rx_buf)
      else if strstr text show_word
      then (print (setup_cli_get_cmd strstr text) ∷ [], rx_buf)
      else if strstr text flush_word
      then ([], memset_zero rx_buf 128)
      else ([], rx_buf)

  -- What becomes of a parsed line.
  abbrev pub answer : (len : ℕ) → Option (ℤ × (List ℕ × List ℕ)) → Option (List TaskAction × List ℕ)
  answer len none = none
  answer len (some (status, (text, rx))) =
      if is_negative status then some ([], rx) else some (obey text len rx)

  -- `case MSG_IFACE_UART`; `none` is out of fuel.
  unfoldable pub uart_arm :
      (fuel : ℕ) (junk : ℤ) (text : Option (List ℕ)) (len : ℕ) (rx_buf : List ℕ)
      → Option (List TaskAction × List ℕ)
  uart_arm fuel junk none len rx_buf = some ([], rx_buf)
  uart_arm fuel junk (some text) len rx_buf = answer len (setup_cli_parse fuel junk text rx_buf)

  abbrev pub cleaned :
      (iface : ℕ)
      → Option (List ℕ)
      → Option (List TaskAction × List ℕ)
      → Option (List TaskAction × List ℕ)
  cleaned iface text none = none
  cleaned iface text (some (acts, rx)) = some (acts ++ cleanup iface text, rx)

  -- The switch over the interfaces, and what follows it.
  unfoldable pub handle :
      (fuel : ℕ) (junk : ℤ) (iface : ℕ)
      → Option Msg
      → (rx_buf : List ℕ) → Option (List TaskAction × List ℕ)
  handle fuel junk iface none rx_buf = some ([], rx_buf)
  handle fuel junk iface (some msg) rx_buf = cleaned iface msg.text (
      if iface == msg_iface_uart
      then uart_arm fuel junk msg.text msg.len rx_buf
      else some ([], rx_buf))

  -- `Event_Mon_Task`
  unfoldable pub event_mon_task :
      (fuel : ℕ) (junk : ℤ) → OsEvent → (rx_buf : List ℕ) → Option (List TaskAction × List ℕ)
  event_mon_task fuel junk event rx_buf =
      let iface = event.sig % 2 ^ 8 in
      if iface == msg_iface_one_wire
      then some (one_wire_event ∷ [], rx_buf)
      else handle fuel junk iface event.par rx_buf
