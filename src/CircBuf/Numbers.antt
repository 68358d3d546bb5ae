-- ===== src/CircBuf/Numbers.antt =====
-- The numbers that `cbuffCreate` gives.
use mathlib.Core.Path.{subst}
use esp_misc.Common.{
  ℕ, zero, suc, ◌+◌, ◌*◌, ◌%◌, ◌/◌, ◌^◌, ◌<◌, ◌≤◌, ◌≡◌, ◌≢◌, ◌⊎◌, inl, inr, refl, sym, ◌∙◌, ap,
  Bool, true, false, ◌==◌, bit_and, bit_or, not, arith, order_cases, ==-false, ==_self,
}
use esp_misc.Common.Tables.{holds_below, table_eq, table_holds}
use esp_misc.Common.Masks.{bit_and_bit}
use esp_misc.CircBuf.Registry.{Registry, free_number, create, new_obj}

-- Bit `k` of `n`.
abbrev pub bit_at : ℕ → ℕ → ℕ
bit_at k n = n / 2 ^ k % 2

-- All bits from `k` up to `j` are taken.
abbrev pub AllTaken : (active k j : ℕ) → Type 0
AllTaken active k j = (i : ℕ) → k ≤ i → i < j → bit_at i active ≡ 1

-- The number is the lowest free bit from `k` on, or 0 when the 16 bits are taken.
abbrev pub IsLowestFree : (active k num : ℕ) → Type 0
IsLowestFree active k num =
    ((j : ℕ) × ((k ≤ j)
        × ((j < 16) × ((num ≡ 2 ^ j) × ((bit_at j active ≡ 0) × AllTaken active k j)))))
    ⊎ ((num ≡ 0) × AllTaken active k 16)

abbrev next_num : ℕ → ℕ
next_num num = bit_and (num * 2 % 2 ^ 32) 0xffff

next_num_lem : (k : ℕ) → k < 15 → next_num (2 ^ k) ≡ 2 ^ suc k
unfolding holds_below
next_num_lem = table_eq 15 (λ k. next_num (2 ^ k)) (λ k. 2 ^ suc k) refl

next_num-positive : (k : ℕ) → k < 15 → not (next_num (2 ^ k) == 0) ≡ true
unfolding holds_below
next_num-positive = table_holds 15 (λ k. not (next_num (2 ^ k) == 0)) refl

pow_below : (k : ℕ) → k < 16 → not (2 ^ k == 0) ≡ true
unfolding holds_below
pow_below = table_holds 16 (λ k. not (2 ^ k == 0)) refl

tested : (k active : ℕ) → k < 16 → (bit_and active (2 ^ k) == 0) ≡ (bit_at k active == 0)
tested k active h =
    ap (λ n. n == 0) (bit_and_bit k active)
    ∙ times (bit_at k active) (2 ^ k) (ground (arith, pow_below k h))
  where
    times : (r pow : ℕ) → 0 < pow → (r * pow == 0) ≡ (r == 0)
    times zero pow h = ground arith
    times (suc r) pow h = ground arith

not-true : (b : Bool) → not b ≡ true → b ≡ false
not-true b e = ground arith

-- One round of the search.
free_here :
    (fuel k active : ℕ)
    → k < 16
    → bit_at k active ≡ 0
    → free_number (suc fuel) active (2 ^ k) ≡ 2 ^ k
unfolding free_number
free_here fuel k active h e = rw (tested k active h, e)

free_next :
    (fuel k active : ℕ)
    → k < 15
    → bit_at k active ≡ 1
    → free_number (suc fuel) active (2 ^ k) ≡ free_number fuel active (2 ^ suc k)
unfolding free_number
free_next fuel k active h e =
    let p : (2 ^ suc k == 0) ≡ false =
      ap (λ n. n == 0) (sym (next_num_lem k h))
      ∙ not-true (next_num (2 ^ k) == 0) (next_num-positive k h) in
    rw (tested k active (omega arith), e, next_num_lem k h, p)

free_last : (fuel active : ℕ) → bit_at 15 active ≡ 1 → free_number (suc fuel) active (2 ^ 15) ≡ 0
unfolding free_number
free_last fuel active e = rw (tested 15 active (omega arith), e)

taken_more :
    (active k j : ℕ) → bit_at k active ≡ 1 → AllTaken active (suc k) j → AllTaken active k j
taken_more active k j e more i le lt = elim (order_cases k i) [
  | inl h ↦ more i h lt
  | inr h ↦ ap (λ n. bit_at n active) (omega arith) ∙ e
]

bit_cases : (k n : ℕ) → (bit_at k n ≡ 0) ⊎ (bit_at k n ≡ 1)
bit_cases k n = ground arith

further :
    (active k num : ℕ)
    → bit_at k active ≡ 1
    → IsLowestFree active (suc k) num
    → IsLowestFree active k num
further active k num e (inl (j, (le, (lt, (eq, (free, taken)))))) =
    inl (j, (omega arith, (lt, (eq, (free, taken_more active k j e taken)))))
further active k num e (inr (none_left, taken)) = inr (none_left, taken_more active k 16 e taken)

free_number_lem :
    (fuel k active : ℕ) → k + fuel ≡ 16 → IsLowestFree active k (free_number fuel active (2 ^ k))
unfolding free_number
free_number_lem zero k active e = inr (refl, λ i le lt. absurd (omega arith))
free_number_lem (suc fuel) k active e = elim (bit_cases k active) [
  | inl free ↦
      subst (IsLowestFree active k) (sym (free_here fuel k active (omega arith) free))
        (inl (k, (omega arith, (omega arith, (refl, (free, λ i le lt. absurd (omega arith)))))))
  | inr taken ↦ elim (order_cases k 15) [
    | inl h ↦ subst (IsLowestFree active k) (sym (free_next fuel k active h taken)) (
        further active k (free_number fuel active (2 ^ suc k)) taken
          (free_number_lem fuel (suc k) active (omega arith)))
    | inr h ↦
        let last : k ≡ 15 = omega arith in
        subst (IsLowestFree active k)
          (sym (
            ap (λ n. free_number (suc fuel) active (2 ^ n)) last
            ∙ free_last fuel active (ap (λ n. bit_at n active) (sym last) ∙ taken)))
          (inr (refl, taken_more active k 16 taken (λ i le lt. absurd (omega arith))))
  ]
]

-- When a buffer, a size and an object are given, other objects exist and not all 16 numbers are
-- active, `cbuffCreate` gives the object the lowest free number from 2 on, empties it, puts it in
-- front of the list and marks the number active; when those 15 numbers are all active, it returns 0.
pub create_number :
    (buffer size new : ℕ) (r : Registry)
    → buffer ≢ 0
    → size ≢ 0
    → new ≢ 0
    → r.active_cbuff_objs ≢ 0
    → r.active_cbuff_objs ≢ 0xffff
    → let (num, after) = create buffer size new r in
      IsLowestFree r.active_cbuff_objs 1 num
      × ((after.start_of_cbuff_objs ≡ new)
          × ((after.active_cbuff_objs ≡ bit_or r.active_cbuff_objs num)
              × (num ≢ 0 → after.objs new ≡ new_obj buffer size num r.start_of_cbuff_objs)))
unfolding create
create_number buffer size new r hb hs hn some room =
    rw
      (
        ==-false buffer 0 hb,
        ==-false size 0 hs,
        ==-false new 0 hn,
        ==-false r.active_cbuff_objs 0 some,
        ==-false r.active_cbuff_objs 0xffff room,
      )
      (
        free_number_lem 15 1 r.active_cbuff_objs (omega arith),
        (
          refl,
          (
            refl,
            λ given. rw (==_self new, ==-false (free_number 15 r.active_cbuff_objs 2) 0 given),
          ),
        ),
      )
