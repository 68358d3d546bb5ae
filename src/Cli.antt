-- ===== src/Cli.antt =====
-- setup_cli.c: a line of the serial port is rewritten where it stands, and its first word is kept. The
-- memory from the line on is a list of bytes, and positions count from the line. (main_cli.c is the same
-- code with other names.)
pub mod Commands
pub mod Loop
pub mod Parse
pub mod Round
pub mod Shift
mod Tests
use esp_misc.Common.{
  ℕ, zero, suc, ◌+◌, ◌-◌, Bool, true, false, Option, none, some, List, [], ◌∷◌, ◌++◌, ◌&&◌, ltb,
  leb, ◌==◌, if◌then◌else◌, get_or, set, take, drop, replicate,
}
use esp_misc.Common.Int.{ℤ, negsuc}

abbrev pub space : ℕ
space = 32

abbrev pub newline : ℕ
newline = 10

-- `isupper` and `tolower` of the C library
abbrev pub is_upper : ℕ → Bool
is_upper c = leb 65 c && leb c 90

abbrev pub to_lower : ℕ → ℕ
to_lower c = if is_upper c then c + 32 else c

-- `strlen`
abbrev pub strlen : List ℕ → ℕ
strlen [] = 0
strlen (c ∷ cs) = let rest = strlen cs in if c == 0 then 0 else suc rest

-- `memcpy(to, from, n)`
abbrev pub memcpy : List ℕ → List ℕ → ℕ → List ℕ
memcpy to from n = take n from ++ drop n to

-- `memset(to, 0, n)`
abbrev pub memset_zero : List ℕ → ℕ → List ℕ
memset_zero to n = memcpy to (replicate n 0) n

-- The loop of `setup_cli_shift`; `none` is out of fuel.
unfoldable pub shift_loop : (fuel : ℕ) → List ℕ → (pos ndx : ℕ) → Option (List ℕ)
shift_loop zero buf pos ndx = none
shift_loop (suc fuel) buf pos ndx =
    let c = get_or buf (pos + ndx) 0 in
    let rest = shift_loop fuel (set buf pos c) (pos + 1) ndx in
    if c == 0 then some (set buf pos 0) else rest

-- `setup_cli_shift`, with `str` at `pos`
unfoldable pub setup_cli_shift : (fuel : ℕ) → List ℕ → (pos ndx : ℕ) → Option (List ℕ)
setup_cli_shift fuel buf pos ndx = shift_loop fuel buf (pos - ndx) ndx

-- The variables of `setup_cli_parse`; `pos` is `str - head`.
pub record Scan : Type 0 where
  pub buf : List ℕ
  pub pos : ℕ
  pub num_ws : ℕ
  pub first : Bool
  pub rx_buf : List ℕ

-- The end of a round: a capital is made small, and `str` goes on.
abbrev pub advance : Scan → Scan
advance s =
    let c = get_or s.buf s.pos 0 in
    record s { buf = if is_upper c then set s.buf s.pos (to_lower c) else s.buf; pos = s.pos + 1 }

-- The size of the buffer that `rxBuf` points at.
abbrev pub rx_buf_len : ℕ
rx_buf_len = 128

-- `memcpy(rxBuf, head, n)`; `none` writes past the end of the buffer.
abbrev pub copy_word : (rx_buf head : List ℕ) (n : ℕ) → Option (List ℕ)
copy_word rx_buf head n = if ltb rx_buf_len n then none else some (memcpy rx_buf head n)

-- The receive buffer once the first word, if there is none yet, was copied.
abbrev pub keep_first : Scan → (head : List ℕ) → Option (List ℕ)
keep_first s head = if s.first then copy_word s.rx_buf head s.pos else some s.rx_buf

-- A round of the loop of `setup_cli_parse`; `none` is out of fuel, or past the end of the receive buffer.
unfoldable pub parse_round : (fuel : ℕ) → Scan → Option Scan
parse_round fuel s =
    if get_or s.buf s.pos 0 == space
    then elim (keep_first s s.buf) [
      | none ↦ none
      | some rx ↦ some (advance (record s { num_ws = s.num_ws + 1; rx_buf = rx; first = false }))
    ]
    else if ltb 1 s.num_ws
    then elim (setup_cli_shift fuel s.buf s.pos (s.num_ws - 1)) [
      | none ↦ none
      | some b ↦ some (advance (record s { buf = b; pos = s.pos - (s.num_ws - 1); num_ws = 0 }))
    ]
    else some (advance (record s { num_ws = 0 }))

-- The loop; `none` as in a round.
unfoldable pub parse_loop : (fuel : ℕ) → Scan → Option Scan
parse_loop zero s = none
parse_loop (suc fuel) s =
    if get_or s.buf s.pos 0 == 0
    then some s
    else elim (parse_round (suc fuel) s) [ none ↦ none | some t ↦ parse_loop fuel t ]

-- What follows the loop; `none` is past the end of the receive buffer.
unfoldable pub parse_end : Scan → Option (List ℕ × List ℕ)
parse_end s =
    let head = if s.num_ws == 0 then s.buf else set s.buf (s.pos - s.num_ws) 0 in
    elim (keep_first s head) [ none ↦ none | some rx ↦ some (head, rx) ]

abbrev pub returned : ℤ → Option (List ℕ × List ℕ) → Option (ℤ × (List ℕ × List ℕ))
returned status none = none
returned status (some memory) = some (status, memory)

-- `setup_cli_parse`: the result, the memory from the line on, and the receive buffer. On its last path
-- the function returns no value: `junk` stands for it. `none` is out of fuel, or past the end of the receive
-- buffer.
unfoldable pub setup_cli_parse :
    (fuel : ℕ) (junk : ℤ) → List ℕ → (rx_buf : List ℕ) → Option (ℤ × (List ℕ × List ℕ))
setup_cli_parse fuel junk buf rx_buf =
    let len = strlen buf in
    let cut = if get_or buf (len - 1) 0 == newline then set buf (len - 1) 0 else buf in
    if leb len 2
    then some (negsuc 0, (buf, memset_zero rx_buf len))
    else elim (parse_loop fuel (record {
      buf = cut;
      pos = 0;
      num_ws = 0;
      first = true;
      rx_buf = memset_zero rx_buf rx_buf_len;
    })) [ none ↦ none | some s ↦ returned junk (parse_end s) ]
