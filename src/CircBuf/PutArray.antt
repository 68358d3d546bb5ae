-- ===== src/CircBuf/PutArray.antt =====
-- `cbuffPutArray`. Inside its loop the empty flag may be out of date, since it is cleared at the end:
-- the loop is followed on a state `g` with the flag as it should be, beside the real one.
use mathlib.Core.Path.{subst}
use native.Mathlib.Decide.{dec_lt}
use mathlib.Core.List.{append_assoc, append-nil}
use esp_misc.Common.{
  ℕ, zero, suc, ◌+◌, ◌-◌, ◌%◌, ◌^◌, ◌≤◌, ◌<◌, ◌≡◌, ◌≢◌, refl, sym, ◌∙◌, ap, inl, inr, Bool, true,
  false, Option, some, [], ◌∷◌, ◌++◌, arith, min, ◌==◌, Bool-cases, tabulate, tabulate_cong,
}
use esp_misc.CircBuf.{clear_empty, put_one, Ring, put_loop, put_array}
use esp_misc.CircBuf.Valid.{IsValid, capacity, count, contents, IsOutside}
use esp_misc.CircBuf.Steps.{contents-put_one}

abbrev with_empty : Bool → Ring → Ring
with_empty b s = record s { obj = record s.obj { cbuff_empty = b } }

-- The places left.
abbrev pub room : Ring → ℕ
room s = capacity s.obj - count s.obj

-- `t` holds what `g` held, followed by the first `n` bytes at `src`.
pub record Wrote (g : Ring) (src n : ℕ) (t : Ring) : Type 0 where
  pub valid : IsValid t.obj
  pub held : contents t ≡ contents g ++ tabulate n (λ k. g.mem (src + k))

put_one-IsValid :
    (x : ℕ) (g : Ring)
    → IsValid g.obj
    → g.cbuff_full ≡ false
    → IsValid (clear_empty (put_one x g)).obj
unfolding put_one
put_one-IsValid x g v h = ground arith

room-put_one :
    (x : ℕ) (g : Ring)
    → IsValid g.obj
    → g.cbuff_full ≡ false
    → room g ≡ suc (room (clear_empty (put_one x g)))
unfolding put_one
room-put_one x g v h = ground arith

room_full : (g : Ring) → IsValid g.obj → g.cbuff_full ≡ true → room g ≡ 0
room_full g v h = ground arith

clear_empty_full :
    (g : Ring) (b : Bool) → IsValid g.obj → g.cbuff_full ≡ true → clear_empty (with_empty b g) ≡ g
clear_empty_full g b v h = ground arith

Wrote-none : (g : Ring) (src : ℕ) → IsValid g.obj → Wrote g src 0 g
Wrote-none g src v = record { valid = v; held = sym (append-nil (contents g)) }

-- One round of the loop, with the flag cleared.
abbrev next : ℕ → Ring → Ring
next src g = clear_empty (put_one (g.mem src) g)

module _ (src n : ℕ) (g : Ring) (v : IsValid g.obj) (h : g.cbuff_full ≡ false) where
  Wrote-one : Wrote g src 1 (next src g)
  Wrote-one = record {
    valid = put_one-IsValid (g.mem src) g v h;
    held =
        contents-put_one g v (g.mem src) h ∙ ap (λ a. contents g ++ (g.mem a ∷ [])) (omega arith);
  }

  -- Bytes outside the buffer are read unchanged after the write.
  source_kept :
      ((k : ℕ) → k < suc n → IsOutside g.obj (src + k))
      → tabulate n (λ k. (next src g).mem (src + 1 + k)) ≡ tabulate n (λ k. g.mem (src + suc k))
  unfolding put_one
  source_kept out = tabulate_cong n _ _ (λ k lt. ground (arith, out (suc k)))

  Wrote-cons :
      (t : Ring)
      → ((k : ℕ) → k < suc n → IsOutside g.obj (src + k))
      → Wrote (next src g) (src + 1) n t
      → Wrote g src (suc n) t
  Wrote-cons t out w = record {
    valid = w.valid;
    held =
        w.held
        ∙ ap (λ l. l ++ tabulate n (λ k. (next src g).mem (src + 1 + k))) Wrote-one.held
        ∙ ap (λ l. (contents g ++ (g.mem (src + 0) ∷ [])) ++ l) (source_kept out)
        ∙ append_assoc (contents g) (g.mem (src + 0) ∷ []) _;
  }

-- The loop ends with `w + m` bytes written, `m` of them since `g`.
abbrev Written : ℕ → Ring → ℕ → ℕ → Option (ℕ × Ring) → Type 0
Written w g src m r = (t : Ring) × (r ≡ some (w + m, t)) × Wrote g src m (clear_empty t)

put_loop_full :
    (fuel src n w : ℕ) (s : Ring)
    → s.cbuff_full ≡ true
    → put_loop (suc fuel) src n w s ≡ some (w, s)
unfolding put_loop
put_loop_full fuel src n w s h = rw h

put_loop_last :
    (fuel src n w : ℕ) (s : Ring)
    → s.cbuff_full ≡ false
    → (w + 1) % 2 ^ 32 ≡ n
    → put_loop (suc fuel) src n w s ≡ some (n, put_one (s.mem src) s)
unfolding put_loop
put_loop_last fuel src n w s h e = ground arith

put_loop_more :
    (fuel src n w : ℕ) (s : Ring)
    → s.cbuff_full ≡ false
    → w + 1 < 2 ^ 32
    → w + 1 ≢ n
    → put_loop (suc fuel) src n w s ≡ put_loop fuel (src + 1) n (w + 1) (put_one (s.mem src) s)
unfolding put_loop
put_loop_more fuel src n w s h lt e =
    let c : (w + 1) % 2 ^ 32 ≡ w + 1 = omega arith in
    let d : ((w + 1) == n) ≡ false = ground arith in rw (h, c, d)

put_one-with_empty :
    (x : ℕ) (b : Bool) (g : Ring)
    → put_one x (with_empty b g) ≡ with_empty b (clear_empty (put_one x g))
unfolding put_one
put_one-with_empty x b g = refl

abbrev Sources : Ring → ℕ → ℕ → Type 0
Sources g src n = (k : ℕ) → k < n → IsOutside g.obj (src + k)

module _ (src w : ℕ) (b : Bool) (g : Ring) (v : IsValid g.obj) where
  Written-full :
      (fuel n : ℕ)
      → g.cbuff_full ≡ true
      → Written w g src 0 (put_loop (suc fuel) src n w (with_empty b g))
  Written-full fuel n h = (
    with_empty b g,
    put_loop_full fuel src n w (with_empty b g) h
        ∙ ap (λ k. some (k, with_empty b g)) (omega arith),
    rw (clear_empty_full g b v h) (Wrote-none g src v),
  )

  Written-last :
      (fuel n : ℕ)
      → g.cbuff_full ≡ false
      → w + 1 ≡ n
      → n < 2 ^ 32
      → Written w g src 1 (put_loop (suc fuel) src n w (with_empty b g))
  Written-last fuel n h e small = (
    put_one (g.mem src) (with_empty b g),
    put_loop_last fuel src n w (with_empty b g) h (omega arith)
        ∙ ap (λ k. some (k, put_one (g.mem src) (with_empty b g))) (omega arith),
    rw (put_one-with_empty (g.mem src) b g) (Wrote-one src 0 g v h),
  )

  Written-more :
      (fuel n m : ℕ) (h : g.cbuff_full ≡ false)
      → w + 1 < 2 ^ 32
      → w + 1 ≢ n
      → Sources g src (suc m)
      → Written
          (w + 1)
          (next src g)
          (src + 1)
          m
          (put_loop fuel (src + 1) n (w + 1) (with_empty b (next src g)))
      → Written w g src (suc m) (put_loop (suc fuel) src n w (with_empty b g))
  Written-more fuel n m h lt ne out (t, e, wrote) = (
    t,
    put_loop_more fuel src n w (with_empty b g) h lt ne
        ∙ ap (put_loop fuel (src + 1) n (w + 1)) (put_one-with_empty (g.mem src) b g)
        ∙ e
        ∙ ap (λ k. some (k, t)) (omega arith),
    Wrote-cons src m g v h (clear_empty t) out wrote,
  )

Sources-next :
    (src m k : ℕ) (g : Ring) (v : IsValid g.obj) (h : g.cbuff_full ≡ false)
    → m ≤ k
    → Sources g src (suc k)
    → Sources (next src g) (src + 1) m
unfolding put_one
Sources-next src m k g v h le out j lt = ground (arith, out (suc j) (omega arith))

put_loop_lem :
    (fuel src n w : ℕ) (b : Bool) (g : Ring)
    → IsValid g.obj
    → room g < fuel
    → w < n
    → n < 2 ^ 32
    → Sources g src (n - w)
    → Written w g src (min (n - w) (room g)) (put_loop fuel src n w (with_empty b g))
put_loop_lem zero src n w b g v enough lt small out = absurd (omega arith)
put_loop_lem (suc fuel) src n w b g v enough lt small out = elim (Bool-cases g.cbuff_full) [
  | inl full ↦
      subst (λ m. Written w g src m (put_loop (suc fuel) src n w (with_empty b g)))
        (omega (arith, room_full g v full)) (Written-full src w b g v fuel n full)
  | inr h ↦
      let grows : room g ≡ suc (room (next src g)) = room-put_one (g.mem src) g v h in
      let valid : IsValid (next src g).obj = put_one-IsValid (g.mem src) g v h in
      elim (dec_lt (w + 1) n) [
        | yes more ↦
            subst (λ m. Written w g src m (put_loop (suc fuel) src n w (with_empty b g)))
              (omega arith)
              (Written-more src w b g v fuel n _ h (omega arith) (omega arith)
                (λ k l. out k (omega arith))
                (put_loop_lem fuel (src + 1) n (w + 1) b (next src g) valid (omega arith) more small
                  (Sources-next src (n - (w + 1)) (n - (w + 1)) g v h (omega arith)
                    (λ k l. out k (omega arith)))))
        | no end ↦
            subst (λ m. Written w g src m (put_loop (suc fuel) src n w (with_empty b g)))
              (omega arith) (Written-last src w b g v fuel n h (omega arith) small)
      ]
]

-- With a count of 0 the loop goes on until the buffer is full.
put_loop_zero :
    (fuel src w : ℕ) (b : Bool) (g : Ring)
    → IsValid g.obj
    → room g < fuel
    → w + room g < 2 ^ 32
    → Sources g src (room g)
    → Written w g src (room g) (put_loop fuel src 0 w (with_empty b g))
put_loop_zero zero src w b g v enough small out = absurd (omega arith)
put_loop_zero (suc fuel) src w b g v enough small out = elim (Bool-cases g.cbuff_full) [
  | inl full ↦
      subst (λ m. Written w g src m (put_loop (suc fuel) src 0 w (with_empty b g)))
        (omega (arith, room_full g v full)) (Written-full src w b g v fuel 0 full)
  | inr h ↦
      let grows : room g ≡ suc (room (next src g)) = room-put_one (g.mem src) g v h in
      subst (λ m. Written w g src m (put_loop (suc fuel) src 0 w (with_empty b g))) (sym grows)
        (Written-more src w b g v fuel 0 _ h (omega arith) (omega arith)
          (λ k l. out k (omega arith))
          (put_loop_zero fuel (src + 1) (w + 1) b (next src g) (put_one-IsValid (g.mem src) g v h)
            (omega arith) (omega arith)
            (Sources-next src (room (next src g)) (room (next src g)) g v h (omega arith)
              (λ k l. out k (omega arith)))))
]

put_array_full :
    (fuel src n : ℕ) (s : Ring) → s.cbuff_full ≡ true → put_array fuel src n s ≡ some (0, s)
unfolding put_array
put_array_full fuel src n s h = ground arith

put_array_room :
    (fuel src n w : ℕ) (s t : Ring)
    → s.cbuff_full ≡ false
    → put_loop fuel src n 0 s ≡ some (w, t)
    → put_array fuel src n s ≡ some (w, clear_empty t)
unfolding put_array
put_array_room fuel src n w s t h e = ground arith

-- On a valid buffer `cbuffPutArray` of at least one and fewer than 2^32 bytes, read from outside the
-- buffer, writes them all, or as many as there are places if these are fewer, returns their number,
-- appends exactly those bytes in order, and keeps the buffer valid; fuel above the places left is enough.
pub put_array_lem :
    (fuel src n : ℕ) (s : Ring)
    → IsValid s.obj
    → room s < fuel
    → 0 < n
    → n < 2 ^ 32
    → Sources s src n
    → (t : Ring) × (put_array fuel src n s ≡ some (min n (room s), t))
      × Wrote s src (min n (room s)) t
put_array_lem fuel src n s v enough pos small out = elim (Bool-cases s.cbuff_full) [
  | inl full ↦
      let none_left : 0 ≡ min n (room s) = omega (arith, room_full s v full) in
      (
        s,
        put_array_full fuel src n s full ∙ ap (λ k. some (k, s)) none_left,
        subst (λ m. Wrote s src m s) none_left (Wrote-none s src v),
      )
  | inr h ↦
      let (t, e, wrote) =
        subst (λ m. Written 0 s src m (put_loop fuel src n 0 s)) (omega arith)
          (put_loop_lem fuel src n 0 s.cbuff_empty s v enough pos small
            (λ k l. out k (omega arith))) in
      (
        clear_empty t,
        put_array_room fuel src n _ s t h e ∙ ap (λ k. some (k, clear_empty t)) (omega arith),
        wrote,
      )
]

-- Asked for 0 bytes, `cbuffPutArray` on a valid buffer that is not full does not return 0: it goes on
-- to copy as many bytes as there are places, which fills the buffer.
pub put_array_zero :
    (fuel src : ℕ) (s : Ring)
    → IsValid s.obj
    → room s < fuel
    → s.cbuff_full ≡ false
    → Sources s src (room s)
    → (t : Ring) × (put_array fuel src 0 s ≡ some (room s, t))
      × (0 < room s)
      × Wrote s src (room s) t
put_array_zero fuel src s v enough h out =
    let (t, e, wrote) = put_loop_zero fuel src 0 s.cbuff_empty s v enough (omega (arith, v)) out in
    (
      clear_empty t,
      put_array_room fuel src 0 _ s t h e ∙ ap (λ k. some (k, clear_empty t)) (omega arith),
      omega (arith, room-put_one (s.mem src) s v h),
      wrote,
    )
