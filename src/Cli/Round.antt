-- ===== src/Cli/Round.antt =====
-- setup_cli.c: a round of the loop of `setup_cli_parse`.
use mathlib.Core.List.{append_assoc}
use esp_misc.Common.{
  ℕ, zero, suc, ◌+◌, ◌-◌, ◌≡◌, ◌≢◌, ◌<◌, inl, inr, refl, sym, ◌∙◌, ap, true, false, Bool-cases,
  some, List, [], ◌∷◌, ◌++◌, ◌==◌, ==-false, ltb, if◌then◌else◌, get_or, set, length, length-append,
  replicate, arith,
}
use esp_misc.Cli.{
  space, is_upper, to_lower, memcpy, setup_cli_shift, shift_loop, Scan, advance, keep_first,
  parse_round,
}
use esp_misc.Cli.Shift.{IsText, get_at, set_at, get_behind, shift_lem}

-- The space that a run of spaces leaves.
abbrev pub pad : ℕ → List ℕ
pad zero = []
pad (suc n) = space ∷ []

-- The line with each run of spaces before a character made one, and capitals made small; `n` spaces are
-- waiting.
abbrev pub tidied : ℕ → List ℕ → List ℕ
tidied n [] = []
tidied n (c ∷ cs) = if c == space then tidied (suc n) cs else pad n ++ (to_lower c ∷ tidied 0 cs)

-- The spaces at the end.
abbrev pub trailing : ℕ → List ℕ → ℕ
trailing n [] = n
trailing n (c ∷ cs) = if c == space then trailing (suc n) cs else trailing 0 cs

-- The memory: what is done, the spaces that wait, and what is to come.
abbrev pub mem : List ℕ → ℕ → List ℕ → List ℕ
mem done n r = done ++ (replicate n space ++ r)

-- In the middle of the loop.
pub record IsAt (s : Scan) (done : List ℕ) (n : ℕ) (rest t : List ℕ) : Type 0 where
  pub memory : s.buf ≡ mem done n (rest ++ (0 ∷ t))
  pub place : s.pos ≡ length done + n
  pub waiting : s.num_ws ≡ n

pub length-replicate : (n c : ℕ) → length (replicate n c) ≡ n
length-replicate zero c = refl
length-replicate (suc n) c = ap suc (length-replicate n c)

-- The character under `str`.
pub here :
    (s : Scan) (done : List ℕ) (n c : ℕ) (cs t : List ℕ)
    → IsAt s done n (c ∷ cs) t
    → get_or s.buf s.pos 0 ≡ c
here s done n c cs t i =
    ap (λ l. get_or l s.pos 0) i.memory
    ∙ get_behind done (replicate n space) c (cs ++ (0 ∷ t)) s.pos
        (omega (arith, i.place, length-replicate n space))

snoc_space : (n : ℕ) (r : List ℕ) → replicate n space ++ (space ∷ r) ≡ replicate (suc n) space ++ r
snoc_space zero r = refl
snoc_space (suc n) r = ap (λ l. space ∷ l) (snoc_space n r)

-- A round over a space.
pub space_round :
    (s : Scan) (fuel : ℕ) (done : List ℕ) (n : ℕ) (cs t : List ℕ)
    → IsAt s done n (space ∷ cs) t
    → keep_first s s.buf ≡ some (if s.first then memcpy s.rx_buf s.buf s.pos else s.rx_buf)
    → (u : Scan) × ((parse_round fuel s ≡ some u)
        × (IsAt u done (suc n) cs t
            × ((u.first ≡ false)
                × (u.rx_buf ≡ (if s.first then memcpy s.rx_buf s.buf s.pos else s.rx_buf)))))
unfolding parse_round
space_round s fuel done n cs t i kept =
    let look = here s done n space cs t i in
    (
      record {
        buf = s.buf;
        pos = s.pos + 1;
        num_ws = s.num_ws + 1;
        first = false;
        rx_buf = if s.first then memcpy s.rx_buf s.buf s.pos else s.rx_buf;
      },
      (
        rw (look, kept) (rw (look) refl),
        (
          record {
            memory = i.memory ∙ ap (λ l. done ++ l) (snoc_space n (cs ++ (0 ∷ t)));
            place = omega (arith, i.place);
            waiting = omega (arith, i.waiting);
          },
          (refl, refl),
        ),
      ),
    )

-- The character is made small where it stands.
advance_char :
    (s : Scan) (pre : List ℕ) (c : ℕ) (r : List ℕ)
    → s.buf ≡ pre ++ (c ∷ r)
    → s.pos ≡ length pre
    → (advance s).buf ≡ pre ++ (to_lower c ∷ r)
advance_char s pre c r memory place =
    let look : get_or s.buf s.pos 0 ≡ c =
      ap (λ l. get_or l s.pos 0) memory ∙ get_at pre c r s.pos place in
    let put : set s.buf s.pos (c + 32) ≡ pre ++ ((c + 32) ∷ r) =
      ap (λ l. set l s.pos (c + 32)) memory ∙ set_at pre c r s.pos (c + 32) place in
    elim (Bool-cases (is_upper c)) [
      | inl e ↦ rw (look, e, if◌then◌else◌) put
      | inr e ↦ rw (look, e, if◌then◌else◌) memory
    ]

pub snoc_char :
    (done ps : List ℕ) (c : ℕ) (r : List ℕ)
    → (done ++ ps) ++ (c ∷ r) ≡ (done ++ (ps ++ (c ∷ []))) ++ r
snoc_char done ps c r =
    append_assoc done ps (c ∷ r)
    ∙ sym (append_assoc done (ps ++ (c ∷ [])) r ∙ ap (λ l. done ++ l) (append_assoc ps (c ∷ []) r))

-- After a character that is no space.
after_char :
    (s : Scan) (done : List ℕ) (n c : ℕ) (cs t : List ℕ)
    → s.buf ≡ (done ++ pad n) ++ (c ∷ (cs ++ (0 ∷ t)))
    → s.pos ≡ length (done ++ pad n)
    → s.num_ws ≡ 0
    → IsAt (advance s) (done ++ (pad n ++ (to_lower c ∷ []))) 0 cs t
after_char s done n c cs t memory place waiting = record {
  memory =
      advance_char s (done ++ pad n) c (cs ++ (0 ∷ t)) memory place
      ∙ snoc_char done (pad n) (to_lower c) (cs ++ (0 ∷ t));
  place = omega (
    arith,
    place,
    length-append done (pad n),
    length-append done (pad n ++ (to_lower c ∷ [])),
    length-append (pad n) (to_lower c ∷ []),
  );
  waiting = waiting;
}

-- A round that closes a gap.
wide_round :
    (s : Scan) (fuel : ℕ) (done : List ℕ) (k c : ℕ) (cs t v : List ℕ)
    → IsAt s done (suc (suc k)) (c ∷ cs) t
    → c ≢ space
    → shift_loop fuel
        ((done ++ (space ∷ [])) ++ ((space ∷ replicate k space) ++ ((c ∷ cs) ++ (0 ∷ t))))
        (length done + 1)
        (suc (length (replicate k space)))
      ≡ some ((done ++ (space ∷ [])) ++ ((c ∷ cs) ++ (0 ∷ v)))
    → parse_round fuel s
      ≡ some (
          advance (record s {
            buf = (done ++ (space ∷ [])) ++ ((c ∷ cs) ++ (0 ∷ v));
            pos = s.pos - (s.num_ws - 1);
            num_ws = 0;
          }))
unfolding parse_round setup_cli_shift
wide_round s fuel done k c cs t v i other shifted =
    let look = here s done (suc (suc k)) c cs t i in
    let memory : s.buf
        ≡ (done ++ (space ∷ [])) ++ ((space ∷ replicate k space) ++ ((c ∷ cs) ++ (0 ∷ t))) =
      i.memory
      ∙ sym
          (append_assoc done (space ∷ []) ((space ∷ replicate k space) ++ ((c ∷ cs) ++ (0 ∷ t)))) in
    let back : s.pos - (s.num_ws - 1) ≡ length done + 1 = omega (arith, i.place, i.waiting) in
    let gap : s.num_ws - 1 ≡ suc (length (replicate k space)) =
      omega (arith, i.waiting, length-replicate k space) in
    let shift : shift_loop fuel s.buf (s.pos - (s.num_ws - 1)) (s.num_ws - 1)
        ≡ some ((done ++ (space ∷ [])) ++ ((c ∷ cs) ++ (0 ∷ v))) =
      ap (λ l. shift_loop fuel l (s.pos - (s.num_ws - 1)) (s.num_ws - 1)) memory
      ∙ ap
          (λ p.
            shift_loop fuel
              ((done ++ (space ∷ [])) ++ ((space ∷ replicate k space) ++ ((c ∷ cs) ++ (0 ∷ t)))) p
              (s.num_ws - 1))
          back
      ∙ ap
          (λ n.
            shift_loop fuel
              ((done ++ (space ∷ [])) ++ ((space ∷ replicate k space) ++ ((c ∷ cs) ++ (0 ∷ t))))
              (length done + 1) n)
          gap
      ∙ shifted in
    let wide : ltb 1 s.num_ws ≡ true = ground (arith, i.waiting) in
    rw (look, ==-false c space other, wide, shift)

-- A round over a character that is no space.
pub char_round :
    (s : Scan) (fuel : ℕ) (done : List ℕ) (n c : ℕ) (cs t : List ℕ)
    → IsAt s done n (c ∷ cs) t
    → c ≢ space
    → c ≢ 0
    → IsText cs
    → length cs + 1 < fuel
    → (u : Scan) × ((v : List ℕ) × ((parse_round fuel s ≡ some u)
          × (IsAt u (done ++ (pad n ++ (to_lower c ∷ []))) 0 cs v
              × ((u.first ≡ s.first) × (u.rx_buf ≡ s.rx_buf)))))
unfolding parse_round
char_round s fuel done zero c cs t i other some_c text enough =
    let look = here s done 0 c cs t i in
    let s1 = record s { num_ws = 0 } in
    (
      advance s1,
      (
        t,
        (
          rw (look, ==-false c space other, i.waiting),
          (
            after_char s1 done 0 c cs t
                (i.memory ∙ sym (append_assoc done [] (c ∷ (cs ++ (0 ∷ t)))))
                (omega (arith, i.place, length-append done [])) refl,
            (refl, refl),
          ),
        ),
      ),
    )
char_round s fuel done (suc zero) c cs t i other some_c text enough =
    let look = here s done 1 c cs t i in
    let s1 = record s { num_ws = 0 } in
    (
      advance s1,
      (
        t,
        (
          rw (look, ==-false c space other, i.waiting),
          (
            after_char s1 done 1 c cs t
                (i.memory ∙ sym (append_assoc done (space ∷ []) (c ∷ (cs ++ (0 ∷ t)))))
                (omega (arith, i.place, length-append done (space ∷ []))) refl,
            (refl, refl),
          ),
        ),
      ),
    )
char_round s fuel done (suc (suc k)) c cs t i other some_c text enough =
    let look = here s done (suc (suc k)) c cs t i in
    let (v, shifted) =
      shift_lem (c ∷ cs) (done ++ (space ∷ [])) (replicate k space) t space fuel (length done + 1)
        (some_c, text) (omega (arith, length-append done (space ∷ []))) (omega (arith, enough)) in
    let s1 = record s {
      buf = (done ++ (space ∷ [])) ++ (c ∷ (cs ++ (0 ∷ v)));
      pos = s.pos - (s.num_ws - 1);
      num_ws = 0;
    } in
    (
      advance s1,
      (
        v,
        (
          wide_round s fuel done k c cs t v i other shifted,
          (
            after_char s1 done (suc (suc k)) c cs v refl
                (omega (arith, i.place, i.waiting, length-append done (space ∷ []))) refl,
            (refl, refl),
          ),
        ),
      ),
    )
