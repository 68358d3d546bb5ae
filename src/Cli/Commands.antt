-- ===== src/Cli/Commands.antt =====
-- setup_cli.c: `setup_cli_get_cmd` and `setup_cli_rboot_cmd`. `strstr` of the C library is an argument:
-- whether a text is found in another.
use esp_misc.Common.{
  ℕ, zero, suc, ◌+◌, ◌-◌, ◌≡◌, ◌≤◌, refl, ◌∙◌, ap, Bool, true, List, [], ◌∷◌, ◌&&◌, leb,
  if◌then◌else◌, get_or, take, drop, length, arith,
}

-- "show id", "show rboot", "show heap" and "rboot switch"
abbrev pub show_id : List ℕ
show_id = 115 ∷ 104 ∷ 111 ∷ 119 ∷ 32 ∷ 105 ∷ 100 ∷ []

abbrev pub show_rboot : List ℕ
show_rboot = 115 ∷ 104 ∷ 111 ∷ 119 ∷ 32 ∷ 114 ∷ 98 ∷ 111 ∷ 111 ∷ 116 ∷ []

abbrev pub show_heap : List ℕ
show_heap = 115 ∷ 104 ∷ 111 ∷ 119 ∷ 32 ∷ 104 ∷ 101 ∷ 97 ∷ 112 ∷ []

abbrev pub rboot_switch : List ℕ
rboot_switch = 114 ∷ 98 ∷ 111 ∷ 111 ∷ 116 ∷ 32 ∷ 115 ∷ 119 ∷ 105 ∷ 116 ∷ 99 ∷ 104 ∷ []

-- What `setup_cli_get_cmd` prints.
pub data Shown : Type 0 where
  chip_id : Shown
  rboot_config : Shown
  free_heap : Shown
  invalid_cmd : Shown

-- The loop of `setup_cli_rboot_cmd` for `n` rounds from `i`: the arguments of `rboot_switch`, in order.
unfoldable pub rboot_loop : (n : ℕ) → List ℕ → (i : ℕ) → List ℕ
rboot_loop zero cmd i = []
rboot_loop (suc n) cmd i =
    let c = get_or cmd i 0 in
    let rest = rboot_loop n cmd (i + 1) in if leb 48 c && leb c 51 then (c - 48) ∷ rest else rest

module _ (strstr : List ℕ → List ℕ → Bool) where
  unfoldable pub setup_cli_get_cmd : List ℕ → Shown
  setup_cli_get_cmd cmd =
      if strstr cmd show_id
      then chip_id
      else if strstr cmd show_rboot
      then rboot_config
      else if strstr cmd show_heap
      then free_heap
      else invalid_cmd

  unfoldable pub setup_cli_rboot_cmd : List ℕ → (len : ℕ) → List ℕ
  setup_cli_rboot_cmd cmd len = if strstr cmd rboot_switch then rboot_loop (len - 11) cmd 11 else []

-- The slots that a text names, in order: its digits from 0 to 3.
abbrev pub slots : List ℕ → List ℕ
slots [] = []
slots (c ∷ cs) = if leb 48 c && leb c 51 then (c - 48) ∷ slots cs else slots cs

loop_shift :
    (n : ℕ) (c : ℕ) (cs : List ℕ) (i : ℕ) → rboot_loop n (c ∷ cs) (suc i) ≡ rboot_loop n cs i
unfolding rboot_loop
loop_shift zero c cs i = refl
loop_shift (suc n) c cs i =
    ap
      (λ r.
        if leb 48 (get_or cs i 0) && leb (get_or cs i 0) 51 then (get_or cs i 0 - 48) ∷ r else r)
      (ap (λ p. rboot_loop n (c ∷ cs) p) (let e : suc i + 1 ≡ suc (i + 1) = omega arith in e)
        ∙ loop_shift n c cs (i + 1))

loop_start : (n : ℕ) (cs : List ℕ) → n ≤ length cs → rboot_loop n cs 0 ≡ slots (take n cs)
unfolding rboot_loop
loop_start zero cs fits = refl
loop_start (suc n) [] fits = (let bad : ⊥ = omega (arith, fits) in elim bad [ ])
loop_start (suc n) (c ∷ cs) fits =
    ap (λ r. if leb 48 c && leb c 51 then (c - 48) ∷ r else r)
      (loop_shift n c cs 0 ∙ loop_start n cs (omega (arith, fits)))

loop_drop :
    (i n : ℕ) (cs : List ℕ) → i + n ≤ length cs → rboot_loop n cs i ≡ slots (take n (drop i cs))
loop_drop zero n cs fits = loop_start n cs (omega (arith, fits))
loop_drop (suc i) zero [] fits = (let bad : ⊥ = omega (arith, fits) in elim bad [ ])
loop_drop (suc i) (suc n) [] fits = (let bad : ⊥ = omega (arith, fits) in elim bad [ ])
loop_drop (suc i) n (c ∷ cs) fits = loop_shift n c cs i ∙ loop_drop i n cs (omega (arith, fits))

-- For a text in which "rboot switch" is found, `setup_cli_rboot_cmd` switches to the slots named by the
-- digits from 0 to 3 among the characters from the eleventh on, counted from 0, up to the given length,
-- in order, and to no others; the length is at least 11 and within the memory.
pub setup_cli_rboot_cmd_lem :
    (strstr : List ℕ → List ℕ → Bool) (cmd : List ℕ) (len : ℕ)
    → strstr cmd rboot_switch ≡ true
    → 11 ≤ len
    → len ≤ length cmd
    → setup_cli_rboot_cmd strstr cmd len ≡ slots (take (len - 11) (drop 11 cmd))
unfolding setup_cli_rboot_cmd
setup_cli_rboot_cmd_lem strstr cmd len found long fits =
    rw (found, if◌then◌else◌) (loop_drop 11 (len - 11) cmd (omega (arith, long, fits)))
