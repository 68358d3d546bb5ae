-- ===== src/EventTask/Tests.antt =====
-- Concrete messages.
use esp_misc.Common.{
  ℕ, ◌≡◌, refl, true, false, Bool, ◌==◌, ◌&&◌, ◌||◌, some, All, List, [], ◌∷◌, ◌++◌, replicate,
  arith,
}
use esp_misc.Common.Int.{pos}
use esp_misc.Uart.{Receiver, interrupts}
use esp_misc.Uart.Lines.{Line, all_events}
use esp_misc.EventTask.{Msg, TaskAction, event_mon_task}
use esp_misc.EventTask.Cleanup.{IsCommand, due, message_freed}
use esp_misc.EventTask.Typed.{serve, AllObeyed, typed_lines_obeyed}

abbrev starts_with : List ℕ → List ℕ → Bool
starts_with text [] = true
starts_with [] (k ∷ ks) = false
starts_with (c ∷ cs) (k ∷ ks) = (c == k) && starts_with cs ks

abbrev strstr : List ℕ → List ℕ → Bool
strstr [] key = starts_with [] key
strstr (c ∷ cs) key = starts_with (c ∷ cs) key || strstr cs key

-- "flush"
abbrev flush_msg : Msg
flush_msg = record { text = some (102 ∷ 108 ∷ 117 ∷ 115 ∷ 104 ∷ 0 ∷ []); len = 5 }

message_freed_example :
    (acts : List TaskAction) × ((rx : List ℕ) × ((event_mon_task strstr 10
            (pos 0)
            (record { sig = 2; par = some flush_msg })
            (replicate 128 9)
          ≡ some (acts ++ due 2 flush_msg.text, rx))
        × All IsCommand acts))
message_freed_example =
    message_freed strstr 10 (pos 0) 2 flush_msg (replicate 128 9) (omega arith) (
      102 ∷ 108 ∷ 117 ∷ 115 ∷ 104 ∷ [],
      (
        [],
        (
          refl,
          (
            (omega arith, (omega arith, (omega arith, (omega arith, (omega arith, tt))))),
            (omega arith, omega arith),
          ),
        ),
      ),
    )

-- "show id" and a newline, over two interrupts
abbrev typed : List Line
typed = record { parts = (115 ∷ 104 ∷ 111 ∷ 119 ∷ []) ∷ []; front = 32 ∷ 105 ∷ 100 ∷ [] } ∷ []

abbrev ready : Receiver
ready = record { buf = replicate 128 0; received = 0 }

typed_lines_obeyed_example :
    (acts : List TaskAction) × ((rx_end : List ℕ) × ((serve strstr 20
            (pos 0)
            (interrupts 0 (all_events typed) [] ready).0
            (replicate 128 9)
          ≡ some (acts, rx_end))
        × AllObeyed strstr 20 (pos 0) typed (replicate 128 9) acts rx_end))
typed_lines_obeyed_example =
    typed_lines_obeyed strstr 20 (pos 0) 0 typed ready (replicate 128 9)
      (record { count = refl; room = refl; front = (replicate 128 0, refl) })
      (((((115 ∷ 104 ∷ 111 ∷ []), (119, (refl, omega arith))), tt), omega arith), tt)
      (
        (
          (
            omega arith,
            (
              omega arith,
              (
                omega arith,
                (omega arith, (omega arith, (omega arith, (omega arith, (omega arith, tt))))),
              ),
            ),
          ),
          (omega arith, omega arith),
        ),
        tt,
      )
      refl
