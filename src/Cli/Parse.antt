-- ===== src/Cli/Parse.antt =====
-- setup_cli.c: `setup_cli_parse`.
use mathlib.Core.Path.{subst, ap₂}
use mathlib.Core.List.{append-nil}
use esp_misc.Common.{
  ℕ, zero, suc, ◌-◌, ◌≡◌, ◌≤◌, ◌<◌, inl, inr, refl, sym, ◌∙◌, ap, true, false, Bool-cases, some,
  List, [], ◌∷◌, ◌++◌, ◌==◌, ==-false, leb, if◌then◌else◌, get_or, set, drop, length, replicate,
  arith,
}
use esp_misc.Common.Int.{ℤ}
use esp_misc.Cli.{
  strlen, memcpy, memset_zero, rx_buf_len, returned, space, newline, Scan, keep_first, parse_loop,
  parse_end, setup_cli_parse,
}
use esp_misc.Cli.Shift.{IsText, set_at}
use esp_misc.Cli.Round.{tidied, trailing, IsAt}
use esp_misc.Cli.Loop.{word, IsKept, copied, keep_fits, loop_lem}

-- The line without the newline that ends it.
abbrev pub chomp : List ℕ → List ℕ
chomp [] = []
chomp (c ∷ []) = if c == newline then [] else c ∷ []
chomp (c ∷ d ∷ cs) = c ∷ chomp (d ∷ cs)

chomp-IsText : (line : List ℕ) → IsText line → IsText (chomp line)
chomp-IsText [] text = tt
chomp-IsText (c ∷ []) (h, u) = elim (Bool-cases (c == newline)) [
  | inl e ↦ subst (λ b. IsText (if b then [] else c ∷ [])) (sym e) tt
  | inr e ↦ subst (λ b. IsText (if b then [] else c ∷ [])) (sym e) (h, tt)
]
chomp-IsText (c ∷ d ∷ cs) (h, text) = (h, chomp-IsText (d ∷ cs) text)

pub length-chomp : (line : List ℕ) → length (chomp line) ≤ length line
length-chomp [] = omega arith
length-chomp (c ∷ []) = ground arith
length-chomp (c ∷ d ∷ cs) = omega (arith, length-chomp (d ∷ cs))

pub strlen_lem : (line t : List ℕ) → IsText line → strlen (line ++ (0 ∷ t)) ≡ length line
strlen_lem [] t text = refl
strlen_lem (c ∷ cs) t (h, text) = rw (==-false c 0 h, if◌then◌else◌) (ap suc (strlen_lem cs t text))

abbrev cut : List ℕ → ℕ → List ℕ
cut buf n = if get_or buf n 0 == newline then set buf n 0 else buf

cut_cons : (c : ℕ) (xs : List ℕ) (n : ℕ) → cut (c ∷ xs) (suc n) ≡ c ∷ cut xs n
cut_cons c xs n = elim (Bool-cases (get_or xs n 0 == newline)) [
  | inl e ↦ rw (e, if◌then◌else◌)
  | inr e ↦ rw (e, if◌then◌else◌)
]

-- The newline is cut off.
cut_lem :
    (c : ℕ) (cs t : List ℕ)
    → (v : List ℕ) × (cut ((c ∷ cs) ++ (0 ∷ t)) (length cs) ≡ chomp (c ∷ cs) ++ (0 ∷ v))
cut_lem c [] t = elim (Bool-cases (c == newline)) [
  | inl e ↦ (0 ∷ t, rw (e, if◌then◌else◌))
  | inr e ↦ (t, rw (e, if◌then◌else◌))
]
cut_lem c (d ∷ cs) t =
    let (v, e) = cut_lem d cs t in
    (v, cut_cons c ((d ∷ cs) ++ (0 ∷ t)) (length cs) ∙ ap (λ l. c ∷ l) e)

-- What follows the loop.
end_lem :
    (u : Scan) (done : List ℕ) (n : ℕ) (v rx w : List ℕ)
    → IsAt u done n [] v
    → IsKept u done n [] rx w
    → length w ≤ rx_buf_len
    → (x : List ℕ) × (parse_end u ≡ some (done ++ (0 ∷ x), w ++ drop (length w) rx))
unfolding parse_end
end_lem u done zero v rx w i (inl (on, (none_yet, (e, before)))) fits =
    let none_wait : (u.num_ws == 0) ≡ true = ground (arith, i.waiting) in
    let k = keep_fits u u.buf done 0 [] v rx w i (inl (on, (none_yet, (e, before)))) refl fits in
    let copy : (if u.first then memcpy u.rx_buf u.buf u.pos else u.rx_buf)
        ≡ w ++ drop (length w) rx =
      ap (λ b. if b then memcpy u.rx_buf u.buf u.pos else u.rx_buf) on
      ∙ copied u done [] v rx w i (sym (append-nil done) ∙ e) before in
    (
      v,
      rw (parse_end, none_wait, k)
          (rw (none_wait, if◌then◌else◌) (ap₂ (λ x y. some (x, y)) i.memory copy)),
    )
end_lem u done zero v rx w i (inr (off, e)) fits =
    let none_wait : (u.num_ws == 0) ≡ true = ground (arith, i.waiting) in
    let k : keep_first u u.buf ≡ some u.rx_buf = rw (off, if◌then◌else◌) in
    (
      v,
      rw (parse_end, none_wait, k)
          (rw (none_wait, if◌then◌else◌) (ap₂ (λ x y. some (x, y)) i.memory e)),
    )
end_lem u done (suc n) v rx w i (inl (on, (none_yet, rest))) fits =
    (let bad : ⊥ = omega (arith, none_yet) in elim bad [ ])
end_lem u done (suc n) v rx w i (inr (off, e)) fits =
    let some_wait : (u.num_ws == 0) ≡ false = ground (arith, i.waiting) in
    let head = set u.buf (u.pos - u.num_ws) 0 in
    let k : keep_first u head ≡ some u.rx_buf = rw (off, if◌then◌else◌) in
    let put : head ≡ done ++ (0 ∷ (replicate n space ++ (0 ∷ v))) =
      ap (λ l. set l (u.pos - u.num_ws) 0) i.memory
      ∙ set_at done space (replicate n space ++ (0 ∷ v)) (u.pos - u.num_ws) 0
          (omega (arith, i.place, i.waiting)) in
    (
      replicate n space ++ (0 ∷ v),
      rw (parse_end, some_wait, k) (rw (some_wait, if◌then◌else◌) (ap₂ (λ x y. some (x, y)) put e)),
    )

abbrev started : List ℕ → List ℕ → Scan
started buf rx_buf = record {
  buf = buf;
  pos = 0;
  num_ws = 0;
  first = true;
  rx_buf = memset_zero rx_buf 128;
}

returns :
    (buf rx_buf b : List ℕ) (fuel : ℕ) (junk : ℤ) (u : Scan)
    → leb (strlen buf) 2 ≡ false
    → cut buf (strlen buf - 1) ≡ b
    → parse_loop fuel (started b rx_buf) ≡ some u
    → setup_cli_parse fuel junk buf rx_buf ≡ returned junk (parse_end u)
unfolding setup_cli_parse
returns buf rx_buf b fuel junk u long e ends = rw (long, e, ends)

-- What `setup_cli_parse` makes of a line.
abbrev pub parsed : ℤ → List ℕ → (v rx_buf : List ℕ) → ℤ × (List ℕ × List ℕ)
parsed junk line v rx_buf = (
  junk,
  (
    tidied 0 (chomp line) ++ (0 ∷ v),
    word (chomp line) ++ drop (length (word (chomp line))) (memset_zero rx_buf 128),
  ),
)

-- A line of more than two characters, none of them zero, in memory with a zero behind it, whose first
-- word has at most the 128 characters of the receive buffer: with fuel for each character and one round
-- more the function returns. The memory then holds the line without the newline at its end, each run of
-- spaces before a character made one, the spaces at the end dropped and the capitals made small, with a
-- zero behind it; and the receive buffer, cleared, begins with the first word.
pub setup_cli_parse_lem :
    (line t rx_buf : List ℕ) (fuel : ℕ) (junk : ℤ)
    → IsText line
    → 2 < length line
    → length line < fuel
    → length (word (chomp line)) ≤ rx_buf_len
    → (v : List ℕ) × (setup_cli_parse fuel junk (line ++ (0 ∷ t)) rx_buf
        ≡ some (parsed junk line v rx_buf))
unfolding setup_cli_parse
setup_cli_parse_lem [] t rx_buf fuel junk text long enough fits =
    (let bad : ⊥ = omega (arith, long) in elim bad [ ])
setup_cli_parse_lem (c ∷ cs) t rx_buf fuel junk text long enough fits =
    let (v0, chomped) = cut_lem c cs t in
    let (u, (v, (ends, (at, kept)))) =
      loop_lem (chomp (c ∷ cs)) (started (chomp (c ∷ cs) ++ (0 ∷ v0)) rx_buf) fuel [] 0 v0
        (memset_zero rx_buf 128) (word (chomp (c ∷ cs))) (chomp-IsText (c ∷ cs) text)
        (omega (arith, enough, length-chomp (c ∷ cs)))
        (record { memory = refl; place = refl; waiting = refl }) (inl (refl, (refl, (refl, refl))))
        fits in
    let (x, last) =
      end_lem u (tidied 0 (chomp (c ∷ cs))) (trailing 0 (chomp (c ∷ cs))) v (memset_zero rx_buf 128)
        (word (chomp (c ∷ cs))) at kept fits in
    let len : strlen (c ∷ (cs ++ (0 ∷ t))) ≡ suc (length cs) = strlen_lem (c ∷ cs) t text in
    let back : strlen (c ∷ (cs ++ (0 ∷ t))) - 1 ≡ length cs = omega (arith, len) in
    (
      x,
      returns (c ∷ (cs ++ (0 ∷ t))) rx_buf (chomp (c ∷ cs) ++ (0 ∷ v0)) fuel junk u
            (ground (arith, len, long)) (ap (λ n. cut (c ∷ (cs ++ (0 ∷ t))) n) back ∙ chomped) ends
          ∙ ap (returned junk) last,
    )
