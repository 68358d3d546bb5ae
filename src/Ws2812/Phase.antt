-- ===== src/Ws2812/Phase.antt =====
-- ws2812.c: the course of the fading, one callback of the timer after the other.
use mathlib.Core.Path.{subst}
use esp_misc.Common.{
  ℕ, ◌+◌, ◌-◌, ◌%◌, ◌^◌, ◌<◌, ◌≤◌, ◌≡◌, ◌≢◌, refl, sym, ◌∙◌, ap, true, false, inl, inr, Bool, ltb,
  leb, ◌==◌, if◌then◌else◌, arith, order_cases, ==-false,
}
use esp_misc.Ws2812.{
  Colour, Fade, patterns, colour_at, wrap_pattern, turn_down, turn_up, turned, count_m,
}

abbrev pub next_pattern : ℕ → ℕ
next_pattern j = if j == 8 then 0 else j + 1

-- Up for 255 callbacks and down again for 255.
abbrev pub strength : ℕ → ℕ
strength i = if leb i 255 then i else 510 - i

-- Before callback `i` of the cycle in which pattern `j` is shown. At the turn from the last pattern to the
-- first the counter of the patterns is 9 for one callback.
pub data IsPhase : ℕ → ℕ → Fade → Type 0 where
  begun : IsPhase 0 0 (record { cur_m = 0; cur_pattern = 0; in_out = true })
  rising :
      {j i : ℕ}
      → j < 9
      → 0 < i
      → i ≤ 255
      → IsPhase j i (record { cur_m = i; cur_pattern = j; in_out = true })
  wrapped : IsPhase 0 1 (record { cur_m = 1; cur_pattern = 9; in_out = true })
  falling :
      {j i : ℕ}
      → j < 9
      → 255 < i
      → i < 510
      → IsPhase j i (record { cur_m = 510 - i; cur_pattern = j; in_out = false })
  dark :
      {j : ℕ}
      → j < 9
      → IsPhase (next_pattern j) 0 (record { cur_m = 0; cur_pattern = j; in_out = false })

-- The position after a callback.
abbrev pub after : ℕ × ℕ → ℕ × ℕ
after (j, i) = if i == 509 then (next_pattern j, 0) else (j, i + 1)

abbrev fade_at : (m p : ℕ) → Bool → Fade
fade_at m p up = record { cur_m = m; cur_pattern = p; in_out = up }

turned_rising :
    (j i : ℕ) → j < 9 → 0 < i → i ≤ 255 → turned (fade_at i j true) ≡ fade_at i j (ltb i 255)
unfolding wrap_pattern turn_down turn_up
turned_rising j i small pos low = ground arith

turned_falling : (j i : ℕ) → j < 9 → 0 < i → turned (fade_at i j false) ≡ fade_at i j false
unfolding wrap_pattern turn_down turn_up
turned_falling j i small pos = ground arith

turned_dark : (j : ℕ) → j < 9 → turned (fade_at 0 j false) ≡ fade_at 0 (j + 1) true
unfolding wrap_pattern turn_down turn_up
turned_dark j small = ground arith

step_rising :
    (j i : ℕ) → j < 9 → 0 < i → i ≤ 255 → IsPhase j (i + 1) (count_m (fade_at i j (ltb i 255)))
unfolding count_m
step_rising j i small pos low = elim (order_cases 254 i) [
  | inl top ↦
      (let off : ltb i 255 ≡ false = ground (arith, top, low) in
        let e : count_m (fade_at i j (ltb i 255)) ≡ fade_at (510 - (i + 1)) j false =
          ap (λ b. count_m (fade_at i j b)) off
          ∙ ap (λ m. fade_at m j false)
              (let m : (i + (2 ^ 8 - 1)) % 2 ^ 8 ≡ 510 - (i + 1) = omega (arith, top, low) in m) in
        subst (IsPhase j (i + 1)) (sym e) (falling small (omega (arith, top)) (omega (arith, low))))
  | inr below ↦
      (let on : ltb i 255 ≡ true = ground (arith, below) in
        let e : count_m (fade_at i j (ltb i 255)) ≡ fade_at (i + 1) j true =
          ap (λ b. count_m (fade_at i j b)) on
          ∙ ap (λ m. fade_at m j true)
              (let m : (i + 1) % 2 ^ 8 ≡ i + 1 = omega (arith, below) in m) in
        subst (IsPhase j (i + 1)) (sym e) (rising small (omega arith) (omega (arith, below))))
]

after_other : (j i : ℕ) → i ≢ 509 → after (j, i) ≡ (j, i + 1)
after_other j i other =
    let e : (i == 509) ≡ false = ==-false i 509 other in
    ap (λ b. if b then (next_pattern j, 0) else (j, i + 1)) e

abbrev pub Phase : ℕ × ℕ → Fade → Type 0
Phase (j, i) f = IsPhase j i f

step_falling :
    (j i : ℕ)
    → j < 9
    → 255 < i
    → i < 510
    → Phase (after (j, i)) (count_m (fade_at (510 - i) j false))
unfolding count_m
step_falling j i small high low = elim (order_cases 509 (i + 1)) [
  | inl last ↦
      (let e : i ≡ 509 = omega (arith, last, low) in
        subst (λ k. Phase (after (j, k)) (count_m (fade_at (510 - k) j false))) (sym e)
          (dark small))
  | inr more ↦
      subst (λ p. Phase p (count_m (fade_at (510 - i) j false)))
        (sym (after_other j i (λ e. omega (arith, e, more))))
        (subst (IsPhase j (i + 1))
          (ap (λ m. fade_at m j false)
            (let m : 510 - (i + 1) ≡ (510 - i + (2 ^ 8 - 1)) % 2 ^ 8 = omega (arith, high, more) in
              m))
          (falling small (omega (arith, high)) (omega (arith, more))))
]

dark_next : (j : ℕ) → j < 9 → IsPhase (next_pattern j) 1 (fade_at 1 (j + 1) true)
dark_next j small = elim (order_cases 7 j) [
  | inl last ↦
      (let e : j ≡ 8 = omega (arith, last, small) in
        subst (λ k. IsPhase (next_pattern k) 1 (fade_at 1 (k + 1) true)) (sym e) wrapped)
  | inr more ↦
      (let e : next_pattern j ≡ j + 1 = ground (arith, more) in
        subst (λ k. IsPhase k 1 (fade_at 1 (j + 1) true)) (sym e)
          (rising (omega (arith, more)) (omega arith) (omega arith)))
]

-- A callback leads to the next position.
pub step-Phase : (j i : ℕ) (f : Fade) → IsPhase j i f → Phase (after (j, i)) (count_m (turned f))
unfolding wrap_pattern turn_down turn_up count_m
step-Phase j i f begun = rising (omega arith) (omega arith) (omega arith)
step-Phase j i f (rising small pos low) =
    subst (λ p. Phase p (count_m (turned (fade_at i j true))))
      (sym (after_other j i (λ e. omega (arith, e, low))))
      (subst (λ g. IsPhase j (i + 1) (count_m g)) (sym (turned_rising j i small pos low))
        (step_rising j i small pos low))
step-Phase j i f wrapped = rising (omega arith) (omega arith) (omega arith)
step-Phase j i f (falling small high low) =
    subst (λ g. Phase (after (j, i)) (count_m g))
      (sym (turned_falling j (510 - i) small (omega (arith, low))))
      (step_falling j i small high low)
step-Phase j i f (dark small) =
    subst (λ g. IsPhase j 1 (count_m g)) (sym (turned_dark f.cur_pattern small))
      (dark_next f.cur_pattern small)

module _ (beyond : ℕ → Colour) (black : beyond 0 ≡ (0, (0, 0))) where
  colour_dark :
      (j : ℕ)
      → j < 9
      → colour_at beyond patterns (j + 1) 0 ≡ colour_at beyond patterns (next_pattern j) 0
  unfolding colour_at
  colour_dark j small = elim (order_cases 7 j) [
    | inl last ↦
        (let e : j ≡ 8 = omega (arith, last, small) in
          subst
            (λ k.
              colour_at beyond patterns (k + 1) 0 ≡ colour_at beyond patterns (next_pattern k) 0)
            (sym e) black)
    | inr more ↦
        (let e : j + 1 ≡ next_pattern j = ground (arith, more) in
          ap (λ k. colour_at beyond patterns k 0) e)
  ]

  -- The colour of a callback.
  pub colour_phase :
      (j i : ℕ) (f : Fade)
      → IsPhase j i f
      → colour_at beyond patterns (turned f).cur_pattern (turned f).cur_m
        ≡ colour_at beyond patterns j (strength i)
  unfolding wrap_pattern turn_down turn_up
  colour_phase j i f begun = refl
  colour_phase j i f (rising small pos low) =
      ap (λ g. colour_at beyond patterns g.cur_pattern g.cur_m) (turned_rising j i small pos low)
      ∙ ap (colour_at beyond patterns j) (let e : i ≡ strength i = ground (arith, low) in e)
  colour_phase j i f wrapped = refl
  colour_phase j i f (falling small high low) =
      ap (λ g. colour_at beyond patterns g.cur_pattern g.cur_m)
        (turned_falling j (510 - i) small (omega (arith, low)))
      ∙ ap (colour_at beyond patterns j) (let e : 510 - i ≡ strength i = ground (arith, high) in e)
  colour_phase j i f (dark small) =
      ap (λ g. colour_at beyond patterns g.cur_pattern g.cur_m) (turned_dark f.cur_pattern small)
      ∙ colour_dark f.cur_pattern small
