-- ===== src/Cli/Loop.antt =====
-- setup_cli.c: the loop of `setup_cli_parse`.
use mathlib.Core.Path.{subst}
use mathlib.Core.List.{append_assoc, append-nil}
use esp_misc.Common.{
  ℕ, zero, suc, ◌≡◌, ◌≢◌, ◌<◌, ◌≤◌, ltb, ◌⊎◌, inl, inr, refl, sym, ◌∙◌, ap, true, false, Bool-cases,
  some, List, [], ◌∷◌, ◌++◌, ◌==◌, ==-false, eq_of_==, if◌then◌else◌, get_or, take, drop, length,
  replicate, arith,
}
use esp_misc.Cli.{space, to_lower, memcpy, rx_buf_len, Scan, keep_first, parse_round, parse_loop}
use esp_misc.Cli.Shift.{IsText, get_behind}
use esp_misc.Cli.Round.{
  pad, tidied, trailing, IsAt, length-replicate, here, space_round, snoc_char, char_round,
}

-- The first word, its capitals made small.
abbrev pub word : List ℕ → List ℕ
word [] = []
word (c ∷ cs) = if c == space then [] else to_lower c ∷ word cs

-- What the receive buffer holds: `w` is the first word, `rx` its contents before.
abbrev pub IsKept : Scan → (done : List ℕ) → (n : ℕ) → (rest rx w : List ℕ) → Type 0
IsKept s done n rest rx w =
    ((s.first ≡ true) × ((n ≡ 0) × ((done ++ word rest ≡ w) × (s.rx_buf ≡ rx))))
    ⊎ ((s.first ≡ false) × (s.rx_buf ≡ w ++ drop (length w) rx))

pub length-word : (line : List ℕ) → length (word line) ≤ length line
length-word [] = omega arith
length-word (c ∷ cs) = ground (arith, length-word cs)

take_front : (xs ys : List ℕ) → take (length xs) (xs ++ ys) ≡ xs
take_front [] ys = refl
take_front (x ∷ xs) ys = ap (λ l. x ∷ l) (take_front xs ys)

-- The copy of the first word.
pub copied :
    (s : Scan) (done rest t rx w : List ℕ)
    → IsAt s done 0 rest t
    → done ≡ w
    → s.rx_buf ≡ rx
    → memcpy s.rx_buf s.buf s.pos ≡ w ++ drop (length w) rx
copied s done rest t rx w i e same =
    let at : s.pos ≡ length done = omega (arith, i.place) in
    ap (λ l. memcpy l s.buf s.pos) same
    ∙ ap (λ l. memcpy rx l s.pos) i.memory
    ∙ ap (λ p. memcpy rx (done ++ (rest ++ (0 ∷ t))) p) at
    ∙ ap (λ l. l ++ drop (length done) rx) (take_front done (rest ++ (0 ∷ t)))
    ∙ ap (λ l. l ++ drop (length l) rx) e

-- The first word fits.
pub keep_fits :
    (s : Scan) (head done : List ℕ) (n : ℕ) (rest t rx w : List ℕ)
    → IsAt s done n rest t
    → IsKept s done n rest rx w
    → word rest ≡ []
    → length w ≤ rx_buf_len
    → keep_first s head ≡ some (if s.first then memcpy s.rx_buf head s.pos else s.rx_buf)
keep_fits s head done n rest t rx w i (inr (off, e)) ends fits = rw (off, if◌then◌else◌)
keep_fits s head done n rest t rx w i (inl (on, (none_yet, (e, before)))) ends fits =
    let whole : done ≡ w = sym (append-nil done) ∙ ap (λ l. done ++ l) (sym ends) ∙ e in
    let count : length done ≡ length w = ap length whole in
    let inside : ltb rx_buf_len s.pos ≡ false = ground (arith, i.place, none_yet, count, fits) in
    rw (on, inside, if◌then◌else◌)

space_keeps :
    (s u : Scan) (done : List ℕ) (n : ℕ) (cs t rx w : List ℕ)
    → IsAt s done n (space ∷ cs) t
    → u.first ≡ false
    → u.rx_buf ≡ (if s.first then memcpy s.rx_buf s.buf s.pos else s.rx_buf)
    → IsKept s done n (space ∷ cs) rx w
    → IsKept u done (suc n) cs rx w
space_keeps s u done n cs t rx w i off same (inl (f, (none_yet, (e, before)))) =
    let j : IsAt s done 0 (space ∷ cs) t = subst (λ m. IsAt s done m (space ∷ cs) t) none_yet i in
    inr (
      off,
      same
          ∙ rw (f, if◌then◌else◌)
              (copied s done (space ∷ cs) t rx w j (sym (append-nil done) ∙ e) before),
    )
space_keeps s u done n cs t rx w i off same (inr (f, e)) = inr (off, same ∙ rw (f, if◌then◌else◌) e)

char_keeps :
    (s u : Scan) (done : List ℕ) (n c : ℕ) (cs rx w : List ℕ)
    → c ≢ space
    → u.first ≡ s.first
    → u.rx_buf ≡ s.rx_buf
    → IsKept s done n (c ∷ cs) rx w
    → IsKept u (done ++ (pad n ++ (to_lower c ∷ []))) 0 cs rx w
char_keeps s u done (suc n) c cs rx w other f r (inl (on, (none_yet, (e, before)))) =
    (let bad : ⊥ = omega (arith, none_yet) in elim bad [ ])
char_keeps s u done zero c cs rx w other f r (inl (on, (none_yet, (e, before)))) =
    let same : word (c ∷ cs) ≡ to_lower c ∷ word cs = rw (==-false c space other, if◌then◌else◌) in
    inl (
      f ∙ on,
      (
        refl,
        (
          append_assoc done (to_lower c ∷ []) (word cs) ∙ ap (λ l. done ++ l) (sym same) ∙ e,
          r ∙ before,
        ),
      ),
    )
char_keeps s u done n c cs rx w other f r (inr (off, e)) = inr (f ∙ off, r ∙ e)

-- What the loop comes to.
abbrev pub Ends : ℕ → Scan → (done : List ℕ) → (n : ℕ) → (rest rx w : List ℕ) → Type 0
Ends fuel s done n rest rx w =
    (u : Scan) × ((v : List ℕ) × ((parse_loop fuel s ≡ some u)
        × (IsAt u (done ++ tidied n rest) (trailing n rest) [] v
            × IsKept u (done ++ tidied n rest) (trailing n rest) [] rx w)))

goes_on :
    (s u : Scan) (fuel c : ℕ)
    → get_or s.buf s.pos 0 ≡ c
    → c ≢ 0
    → parse_round (suc fuel) s ≡ some u
    → parse_loop (suc fuel) s ≡ parse_loop fuel u
unfolding parse_loop
goes_on s u fuel c look some_c round = rw (look, ==-false c 0 some_c, round)

-- The same end, seen from a round earlier.
carry :
    (s u : Scan) (fuel : ℕ) (done done2 : List ℕ) (n n2 : ℕ) (rest rest2 rx w : List ℕ)
    → parse_loop (suc fuel) s ≡ parse_loop fuel u
    → done2 ++ tidied n2 rest2 ≡ done ++ tidied n rest
    → trailing n2 rest2 ≡ trailing n rest
    → Ends fuel u done2 n2 rest2 rx w
    → Ends (suc fuel) s done n rest rx w
carry s u fuel done done2 n n2 rest rest2 rx w next e f (x, (v, (ends, (i, k)))) = (
  x,
  (
    v,
    (
      next ∙ ends,
      (
        subst (λ m. IsAt x (done ++ tidied n rest) m [] v) f
            (subst (λ l. IsAt x l (trailing n2 rest2) [] v) e i),
        subst (λ m. IsKept x (done ++ tidied n rest) m [] rx w) f
            (subst (λ l. IsKept x l (trailing n2 rest2) [] rx w) e k),
      ),
    ),
  ),
)

pub loop_lem :
    (rest : List ℕ) (s : Scan) (fuel : ℕ) (done : List ℕ) (n : ℕ) (t rx w : List ℕ)
    → IsText rest
    → length rest < fuel
    → IsAt s done n rest t
    → IsKept s done n rest rx w
    → length w ≤ rx_buf_len
    → Ends fuel s done n rest rx w
unfolding parse_loop
loop_lem rest s zero done n t rx w text enough i k fits =
    (let bad : ⊥ = omega (arith, enough) in elim bad [ ])
loop_lem [] s (suc fuel) done n t rx w text enough i k fits =
    let look : get_or s.buf s.pos 0 ≡ 0 =
      ap (λ l. get_or l s.pos 0) i.memory
      ∙ get_behind done (replicate n space) 0 t s.pos
          (omega (arith, i.place, length-replicate n space)) in
    (
      s,
      (
        t,
        (
          rw (look),
          (
            subst (λ l. IsAt s l n [] t) (sym (append-nil done)) i,
            subst (λ l. IsKept s l n [] rx w) (sym (append-nil done)) k,
          ),
        ),
      ),
    )
loop_lem (c ∷ cs) s (suc fuel) done n t rx w (some_c, text) enough i k fits =
    elim (Bool-cases (c == space)) [
      | inl e ↦
          (let is : c ≡ space = eq_of_== c space e in
            let j : IsAt s done n (space ∷ cs) t = subst (λ x. IsAt s done n (x ∷ cs) t) is i in
            let kept_now = subst (λ x. IsKept s done n (x ∷ cs) rx w) is k in
            let (u, (round, (at, (off, copy)))) =
              space_round s (suc fuel) done n cs t j
                (keep_fits s s.buf done n (space ∷ cs) t rx w j kept_now refl fits) in
            carry s u fuel done done n (suc n) (c ∷ cs) cs rx w
              (goes_on s u fuel c (here s done n c cs t i) some_c round)
              (sym (rw (e, if◌then◌else◌))) (sym (rw (e, if◌then◌else◌)))
              (loop_lem cs u fuel done (suc n) t rx w text (omega (arith, enough)) at
                (space_keeps s u done n cs t rx w j off copy kept_now) fits))
      | inr e ↦
          (let other : c ≢ space = ground (arith, e) in
            let (u, (v, (round, (at, (same, kept))))) =
              char_round s (suc fuel) done n c cs t i other some_c text (omega (arith, enough)) in
            let next = done ++ (pad n ++ (to_lower c ∷ [])) in
            carry s u fuel done next n 0 (c ∷ cs) cs rx w
              (goes_on s u fuel c (here s done n c cs t i) some_c round)
              (sym (
                rw (e, if◌then◌else◌)
                  (sym (append_assoc done (pad n) (to_lower c ∷ tidied 0 cs))
                    ∙ snoc_char done (pad n) (to_lower c) (tidied 0 cs))))
              (sym (rw (e, if◌then◌else◌)))
              (loop_lem cs u fuel next 0 v rx w text (omega (arith, enough)) at
                (char_keeps s u done n c cs rx w other same kept k) fits))
    ]
