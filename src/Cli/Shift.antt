-- ===== src/Cli/Shift.antt =====
-- setup_cli.c: `setup_cli_shift` closes a gap in a string.
use mathlib.Core.Path.{subst}
use mathlib.Core.List.{append_assoc}
use esp_misc.Common.{
  ℕ, zero, suc, ◌+◌, ◌≡◌, ◌≢◌, ◌<◌, refl, sym, ◌∙◌, ap, some, List, [], ◌∷◌, ◌++◌, ==-false, get_or,
  set, length, length-append, All, arith,
}
use esp_misc.Cli.{shift_loop}

abbrev pub IsText : List ℕ → Type 0
IsText = All (λ c. c ≢ 0)

pub get_at :
    (xs : List ℕ) (c : ℕ) (ys : List ℕ) (p : ℕ) → p ≡ length xs → get_or (xs ++ (c ∷ ys)) p 0 ≡ c
get_at [] c ys p e = subst (λ k. get_or (c ∷ ys) k 0 ≡ c) (sym e) refl
get_at (x ∷ xs) c ys p e =
    subst (λ k. get_or (x ∷ (xs ++ (c ∷ ys))) k 0 ≡ c) (sym e) (get_at xs c ys (length xs) refl)

pub set_at :
    (xs : List ℕ) (c : ℕ) (ys : List ℕ) (p v : ℕ)
    → p ≡ length xs
    → set (xs ++ (c ∷ ys)) p v ≡ xs ++ (v ∷ ys)
set_at [] c ys p v e = subst (λ k. set (c ∷ ys) k v ≡ v ∷ ys) (sym e) refl
set_at (x ∷ xs) c ys p v e =
    subst (λ k. set (x ∷ (xs ++ (c ∷ ys))) k v ≡ x ∷ (xs ++ (v ∷ ys))) (sym e)
      (ap (λ l. x ∷ l) (set_at xs c ys (length xs) v refl))

-- The character behind a gap.
pub get_behind :
    (b gap : List ℕ) (c : ℕ) (r : List ℕ) (p : ℕ)
    → p ≡ length b + length gap
    → get_or (b ++ (gap ++ (c ∷ r))) p 0 ≡ c
get_behind b gap c r p e =
    ap (λ l. get_or l p 0) (sym (append_assoc b gap (c ∷ r)))
    ∙ get_at (b ++ gap) c r p (e ∙ sym (length-append b gap))

-- The gap moves to the right by one character.
moved :
    (b gs : List ℕ) (c : ℕ) (r : List ℕ)
    → b ++ (c ∷ (gs ++ (c ∷ r))) ≡ (b ++ (c ∷ [])) ++ ((gs ++ (c ∷ [])) ++ r)
moved b gs c r = sym (
    append_assoc b (c ∷ []) ((gs ++ (c ∷ [])) ++ r)
    ∙ ap (λ l. b ++ (c ∷ l)) (append_assoc gs (c ∷ []) r))

-- The gap that is left when its first character was taken and `c` added.
abbrev head_of : List ℕ → ℕ → ℕ
head_of [] c = c
head_of (g ∷ gs) c = g

abbrev tail_of : List ℕ → ℕ → List ℕ
tail_of [] c = []
tail_of (g ∷ gs) c = gs ++ (c ∷ [])

gap_moves : (gs : List ℕ) (c : ℕ) → gs ++ (c ∷ []) ≡ head_of gs c ∷ tail_of gs c
gap_moves [] c = refl
gap_moves (g ∷ gs) c = refl

length-tail_of : (gs : List ℕ) (c : ℕ) → length (tail_of gs c) ≡ length gs
length-tail_of [] c = refl
length-tail_of (g ∷ gs) c = omega (arith, length-append gs (c ∷ []))

pub shift_lem :
    (rest b gs t : List ℕ) (g fuel p : ℕ)
    → IsText rest
    → p ≡ length b
    → length rest < fuel
    → (u : List ℕ) × (shift_loop fuel (b ++ ((g ∷ gs) ++ (rest ++ (0 ∷ t)))) p (suc (length gs))
        ≡ some (b ++ (rest ++ (0 ∷ u))))
unfolding shift_loop
shift_lem rest b gs t g zero p text e enough = (let bad : ⊥ = omega (arith, enough) in elim bad [ ])
shift_lem [] b gs t g (suc fuel) p text e enough = (
  gs ++ (0 ∷ t),
  (let look : get_or (b ++ (g ∷ (gs ++ (0 ∷ t)))) (p + suc (length gs)) 0 ≡ 0 =
        get_behind b (g ∷ gs) 0 t (p + suc (length gs)) (omega (arith, e)) in
      rw (look, set_at b g (gs ++ (0 ∷ t)) p 0 e)),
)
shift_lem (c ∷ cs) b gs t g (suc fuel) p (some_c, text) e enough =
    let (u, more) =
      shift_lem cs (b ++ (c ∷ [])) (tail_of gs c) t (head_of gs c) fuel (p + 1) text
        (omega (arith, e, length-append b (c ∷ []))) (omega (arith, enough)) in
    let look : get_or (b ++ (g ∷ (gs ++ (c ∷ (cs ++ (0 ∷ t)))))) (p + suc (length gs)) 0 ≡ c =
      get_behind b (g ∷ gs) c (cs ++ (0 ∷ t)) (p + suc (length gs)) (omega (arith, e)) in
    let next : shift_loop fuel (b ++ (c ∷ (gs ++ (c ∷ (cs ++ (0 ∷ t)))))) (p + 1) (suc (length gs))
        ≡ some (b ++ (c ∷ (cs ++ (0 ∷ u)))) =
      ap (λ l. shift_loop fuel l (p + 1) (suc (length gs)))
        (moved b gs c (cs ++ (0 ∷ t))
          ∙ ap (λ l. (b ++ (c ∷ [])) ++ (l ++ (cs ++ (0 ∷ t)))) (gap_moves gs c))
      ∙ ap
          (λ n.
            shift_loop fuel ((b ++ (c ∷ [])) ++ ((head_of gs c ∷ tail_of gs c) ++ (cs ++ (0 ∷ t))))
              (p + 1) (suc n))
          (sym (length-tail_of gs c))
      ∙ more
      ∙ ap some (append_assoc b (c ∷ []) (cs ++ (0 ∷ u))) in
    (u, rw (look, set_at b g (gs ++ (c ∷ (cs ++ (0 ∷ t)))) p c e, ==-false c 0 some_c) next)
