-- ===== src/Uart/Tests.antt =====
-- Concrete lines.
use mathlib.Core.List.{map}
use esp_misc.Common.{◌≡◌, refl, List, [], ◌∷◌, replicate, arith}
use esp_misc.Uart.{Receiver, interrupts}
use esp_misc.Uart.Gather.{Holds, message}
use esp_misc.Uart.Lines.{Line, line_text, all_events, lines_posted}
use esp_misc.Uart.Stuck.{full_buffer_stuck}

abbrev ready : Receiver
ready = record { buf = replicate 128 0; received = 0 }

ready-Holds : Holds ready []
ready-Holds = record { count = refl; room = refl; front = (replicate 128 0, refl) }

-- "ab" and "c" with the newline; "d" with the newline at once.
abbrev typed : List Line
typed =
    record { parts = (97 ∷ 98 ∷ []) ∷ []; front = 99 ∷ [] }
    ∷ record { parts = []; front = 100 ∷ [] }
    ∷ []

lines_posted_example :
    (s : Receiver) × ((interrupts 0 (all_events typed) [] ready
        ≡ (map (λ line. message (line_text line)) typed, (s, [])))
      × Holds s [])
lines_posted_example =
    lines_posted 0 typed ready ready-Holds
      (((((97 ∷ []), (98, (refl, omega arith))), tt), omega arith), ((tt, omega arith), tt))

abbrev too_long : Receiver
too_long = record { buf = replicate 128 97; received = 128 }

full_buffer_stuck_example :
    interrupts 0 ((98 ∷ 10 ∷ []) ∷ (99 ∷ 10 ∷ []) ∷ []) [] too_long
    ≡ ([], (too_long, 98 ∷ 10 ∷ 99 ∷ 10 ∷ []))
full_buffer_stuck_example =
    full_buffer_stuck 0 too_long refl (omega arith) ((98 ∷ 10 ∷ []) ∷ (99 ∷ 10 ∷ []) ∷ []) []
