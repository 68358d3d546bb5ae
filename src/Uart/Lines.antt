-- ===== src/Uart/Lines.antt =====
-- uart.c: lines, one after the other.
use mathlib.Core.List.{append_assoc, map}
use esp_misc.Common.{
  ℕ, ◌+◌, ◌≤◌, ◌≡◌, refl, sym, ◌∙◌, ap, none, some, List, [], ◌∷◌, ◌++◌, All, length, length-append,
  arith,
}
use esp_misc.Uart.{newline, Receiver, IoMsg, uart_recv_task, posted, interrupts}
use esp_misc.Uart.Gather.{Holds, IsPart, message, task_part, task_end}

-- A typed line, as the bytes of one interrupt after the other; the last ends with the newline.
pub record Line : Type 0 where
  pub parts : List (List ℕ)
  pub front : List ℕ

abbrev pub concat : List (List ℕ) → List ℕ
concat [] = []
concat (bytes ∷ more) = bytes ++ concat more

abbrev pub line_text : Line → List ℕ
line_text line = concat line.parts ++ (line.front ++ (newline ∷ []))

abbrev pub line_events : Line → List (List ℕ)
line_events line = line.parts ++ ((line.front ++ (newline ∷ [])) ∷ [])

-- No part but the last ends with a newline, and the line has room in the buffer.
abbrev pub IsLine : Line → Type 0
IsLine line = All IsPart line.parts × (length (line_text line) ≤ 128)

abbrev pub all_events : List Line → List (List ℕ)
all_events [] = []
all_events (line ∷ lines) = line_events line ++ all_events lines

module _ (before : ℕ) where
  interrupts_part :
      (bytes : List ℕ) (more : List (List ℕ)) (r s : Receiver)
      → uart_recv_task before bytes r ≡ (none, (s, []))
      → interrupts before (bytes ∷ more) [] r ≡ interrupts before more [] s
  unfolding interrupts
  interrupts_part bytes more r s e =
      ap
        (λ p.
          (let (msg, (t, left)) = p in
            let (msgs, end) = interrupts before more left t in (posted msg msgs, end)))
        e

  interrupts_end :
      (bytes : List ℕ) (more : List (List ℕ)) (r s : Receiver) (m : IoMsg)
      → uart_recv_task before bytes r ≡ (some m, (s, []))
      → interrupts before (bytes ∷ more) [] r
        ≡ (let (msgs, end) = interrupts before more [] s in (m ∷ msgs, end))
  unfolding interrupts
  interrupts_end bytes more r s m e =
      ap
        (λ p.
          (let (msg, (t, left)) = p in
            let (msgs, end) = interrupts before more left t in (posted msg msgs, end)))
        e

  -- A line that was begun is finished.
  finish_line :
      (parts : List (List ℕ)) (front : List ℕ) (more : List (List ℕ)) (r : Receiver) (line : List ℕ)
      → Holds r line
      → All IsPart parts
      → length line + length (concat parts ++ (front ++ (newline ∷ []))) ≤ 128
      → (s : Receiver) × ((interrupts before
              ((parts ++ ((front ++ (newline ∷ [])) ∷ [])) ++ more)
              []
              r
            ≡ (let (msgs, end) = interrupts before more [] s in
                (message (line ++ (concat parts ++ (front ++ (newline ∷ [])))) ∷ msgs, end)))
          × Holds s [])
  finish_line [] front more r line h parts fits =
      let (s, (e, held)) =
        task_end before front r line h (omega (arith, fits, length-append front (newline ∷ []))) in
      (
        s,
        (
          interrupts_end (front ++ (newline ∷ [])) more r s
              (message (line ++ (front ++ (newline ∷ [])))) e,
          held,
        ),
      )
  finish_line (bytes ∷ parts) front more r line h (part, are_parts) fits =
      let tail = front ++ (newline ∷ []) in
      let whole : (bytes ++ concat parts) ++ tail ≡ bytes ++ (concat parts ++ tail) =
        append_assoc bytes (concat parts) tail in
      let long : length ((bytes ++ concat parts) ++ tail)
          ≡ length bytes + length (concat parts ++ tail) =
        ap length whole ∙ length-append bytes (concat parts ++ tail) in
      let (r1, (e, held)) = task_part before bytes r line part h (omega (arith, fits, long)) in
      let (s, (f, ready)) =
        finish_line parts front more r1 (line ++ bytes) held are_parts
          (omega (arith, fits, long, length-append line bytes)) in
      (
        s,
        (
          interrupts_part bytes ((parts ++ (tail ∷ [])) ++ more) r r1 e
              ∙ f
              ∙ ap (λ l. (let (msgs, end) = interrupts before more [] s in (message l ∷ msgs, end)))
                  (append_assoc line bytes (concat parts ++ tail)
                    ∙ ap (λ l. line ++ l) (sym whole)),
          ready,
        ),
      )

  -- Lines of at most 128 characters, each coming in over any number of interrupts of which only the last
  -- ends with a newline, are posted in order, one message for each, with its characters, a zero behind
  -- them and their number; nothing stays behind in the FIFO or waits in the buffer.
  pub lines_posted :
      (lines : List Line) (r : Receiver)
      → Holds r []
      → All IsLine lines
      → (s : Receiver) × ((interrupts before (all_events lines) [] r
            ≡ (map (λ line. message (line_text line)) lines, (s, [])))
          × Holds s [])
  unfolding interrupts
  lines_posted [] r h are_lines = (r, (refl, h))
  lines_posted (line ∷ lines) r h ((parts, fits), are_lines) =
      let (r1, (e, held)) =
        finish_line line.parts line.front (all_events lines) r [] h parts (omega (arith, fits)) in
      let (s, (f, ready)) = lines_posted lines r1 held are_lines in
      (s, (e ∙ ap (λ p. (let (msgs, end) = p in (message (line_text line) ∷ msgs, end))) f, ready))
