-- ===== src/CircBuf/GetArray.antt =====
-- `cbuffGetArray`. Inside its loop the full flag may be out of date, since it is cleared at the end:
-- the loop is followed on a state `g` with the flag as it should be, beside the real one.
use mathlib.Core.Path.{subst, ap₂}
use native.Mathlib.Decide.{dec_lt}
use esp_misc.Common.{
  ℕ, zero, suc, ◌+◌, ◌-◌, ◌%◌, ◌^◌, ◌≤◌, ◌<◌, ◌≡◌, ◌≢◌, refl, sym, ◌∙◌, ap, ◌⊎◌, inl, inr, Bool,
  true, false, Option, some, ◌∷◌, ◌++◌, arith, min, ◌==◌, Bool-cases, tabulate, tabulate_cong,
}
use esp_misc.CircBuf.{clear_full, get_one, Ring, get_loop, get_array}
use esp_misc.CircBuf.Valid.{IsValid, count, contents, IsOutside}
use esp_misc.CircBuf.Steps.{contents-get_one}
use esp_misc.CircBuf.Refine.{contents-suc}

abbrev with_full : Bool → Ring → Ring
with_full b s = record s { obj = record s.obj { cbuff_full = b } }

-- The first `n` bytes that `g` held stand at `dest` in `t`, which holds the others; all memory but
-- those `n` places is as it was.
pub record Took (g : Ring) (dest n : ℕ) (t : Ring) : Type 0 where
  pub valid : IsValid t.obj
  pub held : contents g ≡ tabulate n (λ k. t.mem (dest + k)) ++ contents t
  pub kept : (a : ℕ) → (a < dest) ⊎ (dest + n ≤ a) → t.mem a ≡ g.mem a

-- One round of the loop, with the flag cleared.
abbrev next : ℕ → Ring → Ring
next dest g = clear_full (get_one dest g)

abbrev Targets : Ring → ℕ → ℕ → Type 0
Targets g dest n = (k : ℕ) → k < n → IsOutside g.obj (dest + k)

Took-none : (g : Ring) (dest : ℕ) → IsValid g.obj → Took g dest 0 g
Took-none g dest v = record { valid = v; held = refl; kept = λ a h. refl }

clear_full_empty :
    (g : Ring) (b : Bool) → IsValid g.obj → g.cbuff_empty ≡ true → clear_full (with_full b g) ≡ g
clear_full_empty g b v h = ground arith

count_empty : (g : Ring) → IsValid g.obj → g.cbuff_empty ≡ true → count g.obj ≡ 0
count_empty g v h = ground arith

module _ (dest : ℕ) (g : Ring) (v : IsValid g.obj) (h : g.cbuff_empty ≡ false) where
  get_one-IsValid : IsValid (next dest g).obj
  unfolding get_one
  get_one-IsValid = ground arith

  count-get_one : count g.obj ≡ suc (count (next dest g).obj)
  unfolding get_one
  count-get_one = ground arith

  next-kept : (a : ℕ) → a ≢ dest → (next dest g).mem a ≡ g.mem a
  unfolding get_one
  next-kept a ne = ground arith

  next-copied : (next dest g).mem dest ≡ g.mem g.out_pointer
  unfolding get_one
  next-copied = ground arith

  contents-next : IsOutside g.obj dest → contents g ≡ g.mem g.out_pointer ∷ contents (next dest g)
  contents-next out =
      contents-suc g v (count (next dest g).obj) count-get_one
      ∙ ap (λ l. g.mem g.out_pointer ∷ l)
          (sym (contents-get_one g v dest (count (next dest g).obj) out count-get_one))

  Took-cons :
      (n : ℕ) (t : Ring)
      → IsOutside g.obj dest
      → Took (next dest g) (dest + 1) n t
      → Took g dest (suc n) t
  Took-cons n t out w = record {
    valid = w.valid;
    held =
        contents-next out
        ∙ ap₂ ◌∷◌ (sym next-copied ∙ sym (w.kept dest (inl (omega arith))) ∙ ap t.mem (omega arith))
            (w.held
              ∙ ap (λ l. l ++ contents t) (tabulate_cong n _ _ (λ k lt. ap t.mem (omega arith))));
    kept = λ a far. w.kept a (omega arith) ∙ next-kept a (omega arith);
  }

  Targets-next : (n : ℕ) → Targets g dest (suc n) → Targets (next dest g) (dest + 1) n
  unfolding get_one
  Targets-next n out k lt = ground (arith, out (suc k) (omega arith))

-- The loop ends with `w + m` bytes read, `m` of them since `g`.
abbrev Taken : ℕ → Ring → ℕ → ℕ → Option (ℕ × Ring) → Type 0
Taken w g dest m r = (t : Ring) × (r ≡ some (w + m, t)) × Took g dest m (clear_full t)

get_loop_empty :
    (fuel dest n w : ℕ) (s : Ring)
    → s.cbuff_empty ≡ true
    → get_loop (suc fuel) dest n w s ≡ some (w, s)
unfolding get_loop
get_loop_empty fuel dest n w s h = ground arith

get_loop_last :
    (fuel dest n w : ℕ) (s : Ring)
    → s.cbuff_empty ≡ false
    → (w + 1) % 2 ^ 32 ≡ n
    → get_loop (suc fuel) dest n w s ≡ some (n, get_one dest s)
unfolding get_loop
get_loop_last fuel dest n w s h e = ground arith

get_loop_more :
    (fuel dest n w : ℕ) (s : Ring)
    → s.cbuff_empty ≡ false
    → w + 1 < 2 ^ 32
    → w + 1 ≢ n
    → get_loop (suc fuel) dest n w s ≡ get_loop fuel (dest + 1) n (w + 1) (get_one dest s)
unfolding get_loop
get_loop_more fuel dest n w s h lt e =
    let c : (w + 1) % 2 ^ 32 ≡ w + 1 = omega arith in
    let d : ((w + 1) == n) ≡ false = ground arith in rw (h, c, d)

get_one-with_full :
    (dest : ℕ) (b : Bool) (g : Ring)
    → get_one dest (with_full b g) ≡ with_full b (clear_full (get_one dest g))
unfolding get_one
get_one-with_full dest b g = refl

module _ (dest w : ℕ) (b : Bool) (g : Ring) (v : IsValid g.obj) where
  Taken-empty :
      (fuel n : ℕ)
      → g.cbuff_empty ≡ true
      → Taken w g dest 0 (get_loop (suc fuel) dest n w (with_full b g))
  Taken-empty fuel n h = (
    with_full b g,
    get_loop_empty fuel dest n w (with_full b g) h
        ∙ ap (λ k. some (k, with_full b g)) (omega arith),
    rw (clear_full_empty g b v h) (Took-none g dest v),
  )

  Taken-last :
      (fuel n : ℕ)
      → g.cbuff_empty ≡ false
      → w + 1 ≡ n
      → n < 2 ^ 32
      → IsOutside g.obj dest
      → Taken w g dest 1 (get_loop (suc fuel) dest n w (with_full b g))
  Taken-last fuel n h e small out = (
    get_one dest (with_full b g),
    get_loop_last fuel dest n w (with_full b g) h (omega arith)
        ∙ ap (λ k. some (k, get_one dest (with_full b g))) (omega arith),
    rw (get_one-with_full dest b g) (
        Took-cons dest g v h 0 (next dest g) out
          (Took-none (next dest g) (dest + 1) (get_one-IsValid dest g v h))),
  )

  Taken-more :
      (fuel n m : ℕ)
      → g.cbuff_empty ≡ false
      → w + 1 < 2 ^ 32
      → w + 1 ≢ n
      → IsOutside g.obj dest
      → Taken
          (w + 1)
          (next dest g)
          (dest + 1)
          m
          (get_loop fuel (dest + 1) n (w + 1) (with_full b (next dest g)))
      → Taken w g dest (suc m) (get_loop (suc fuel) dest n w (with_full b g))
  Taken-more fuel n m h lt ne out (t, e, took) = (
    t,
    get_loop_more fuel dest n w (with_full b g) h lt ne
        ∙ ap (get_loop fuel (dest + 1) n (w + 1)) (get_one-with_full dest b g)
        ∙ e
        ∙ ap (λ k. some (k, t)) (omega arith),
    Took-cons dest g v h m (clear_full t) out took,
  )

get_loop_lem :
    (fuel dest n w : ℕ) (b : Bool) (g : Ring)
    → IsValid g.obj
    → count g.obj < fuel
    → w < n
    → n < 2 ^ 32
    → Targets g dest (n - w)
    → Taken w g dest (min (n - w) (count g.obj)) (get_loop fuel dest n w (with_full b g))
get_loop_lem zero dest n w b g v enough lt small out = absurd (omega arith)
get_loop_lem (suc fuel) dest n w b g v enough lt small out = elim (Bool-cases g.cbuff_empty) [
  | inl none_left ↦
      subst (λ m. Taken w g dest m (get_loop (suc fuel) dest n w (with_full b g)))
        (omega (arith, count_empty g v none_left)) (Taken-empty dest w b g v fuel n none_left)
  | inr h ↦
      let shrinks = count-get_one dest g v h in
      let here : IsOutside g.obj dest =
        subst (IsOutside g.obj) (omega arith) (out 0 (omega arith)) in
      let valid = get_one-IsValid dest g v h in
      elim (dec_lt (w + 1) n) [
        | yes more ↦
            subst (λ m. Taken w g dest m (get_loop (suc fuel) dest n w (with_full b g)))
              (omega arith)
              (Taken-more dest w b g v fuel n _ h (omega arith) (omega arith) here (
                get_loop_lem fuel (dest + 1) n (w + 1) b (next dest g) valid (omega arith) more
                  small (Targets-next dest g v h (n - (w + 1)) (λ k l. out k (omega arith)))))
        | no end ↦
            subst (λ m. Taken w g dest m (get_loop (suc fuel) dest n w (with_full b g)))
              (omega arith) (Taken-last dest w b g v fuel n h (omega arith) small here)
      ]
]

get_array_empty :
    (fuel dest n : ℕ) (s : Ring) → s.cbuff_empty ≡ true → get_array fuel dest n s ≡ some (0, s)
unfolding get_array
get_array_empty fuel dest n s h = ground arith

get_array-some :
    (fuel dest n r : ℕ) (s t : Ring)
    → s.cbuff_empty ≡ false
    → get_loop fuel dest n 0 s ≡ some (r, t)
    → get_array fuel dest n s ≡ some (r, clear_full t)
unfolding get_array
get_array-some fuel dest n r s t h e = ground arith

-- On a valid buffer `cbuffGetArray` of at least one and fewer than 2^32 bytes, into memory outside the
-- buffer, reads as many as it is asked for, or all that are held if these are fewer, returns their number, and copies the oldest of them in order: what was held
-- is the bytes copied followed by what is held afterwards. It writes nowhere else, and keeps the buffer
-- valid; fuel above the number of bytes held is enough.
pub get_array_lem :
    (fuel dest n : ℕ) (s : Ring)
    → IsValid s.obj
    → count s.obj < fuel
    → 0 < n
    → n < 2 ^ 32
    → Targets s dest n
    → (t : Ring) × (get_array fuel dest n s ≡ some (min n (count s.obj), t))
      × Took s dest (min n (count s.obj)) t
get_array_lem fuel dest n s v enough pos small out = elim (Bool-cases s.cbuff_empty) [
  | inl h ↦
      let none_held : 0 ≡ min n (count s.obj) = omega (arith, count_empty s v h) in
      (
        s,
        get_array_empty fuel dest n s h ∙ ap (λ k. some (k, s)) none_held,
        subst (λ m. Took s dest m s) none_held (Took-none s dest v),
      )
  | inr h ↦
      let (t, e, took) =
        subst (λ m. Taken 0 s dest m (get_loop fuel dest n 0 s)) (omega arith)
          (get_loop_lem fuel dest n 0 s.cbuff_full s v enough pos small
            (λ k l. out k (omega arith))) in
      (
        clear_full t,
        get_array-some fuel dest n _ s t h e ∙ ap (λ k. some (k, clear_full t)) (omega arith),
        took,
      )
]
