-- ===== src/CircBuf/Handles.antt =====
-- cbuff.c: `cbuffOpen` and `cbuffClose` on the list of objects.
use mathlib.Core.Path.{subst, ap₂}
use esp_misc.Common.{
  ℕ, zero, suc, ◌<◌, ◌≤◌, ◌≡◌, refl, sym, ◌∙◌, ap, Bool-cases, inl, inr, true, false, Option, none,
  some, List, [], ◌∷◌, length, ◌==◌, ==-false, ==_self, eq_of_==, if◌then◌else◌, arith,
}
use esp_misc.CircBuf.{CbuffObj}
use esp_misc.CircBuf.Registry.{Registry, store_obj, open_loop, open_buffer, close}
use esp_misc.CircBuf.Chain.{IsChain}

-- The first object with the number.
abbrev pub first_with : (ℕ → CbuffObj) → ℕ → List ℕ → Option ℕ
first_with objs number [] = none
first_with objs number (x ∷ xs) =
    if (objs x).buffer_number == number then some x else first_with objs number xs

abbrev opened : Registry → (z : ℕ) → Registry
opened r z = record r { objs = store_obj r.objs z (record (r.objs z) { cbuff_open = true }) }

abbrev open_found : Registry → Option ℕ → ℕ × Registry
open_found r none = (0, r)
open_found r (some z) = if (r.objs z).cbuff_open then (0, r) else (z, opened r z)

open_loop_lem :
    (fuel number x : ℕ) (xs : List ℕ) (r : Registry)
    → IsChain r.objs x (x ∷ xs)
    → length xs < fuel
    → open_loop fuel number x r ≡ open_found r (first_with r.objs number (x ∷ xs))
unfolding open_loop
open_loop_lem zero number x xs r h enough = absurd (omega (arith, enough))
open_loop_lem (suc fuel) number x [] r (at, (there, rest)) enough =
    let last : ((r.objs x).next_circ_buffer_obj == 0) ≡ true = ap (λ k. k == 0) rest in
    elim (Bool-cases ((r.objs x).buffer_number == number)) [
      | inl e ↦ rw (e, if◌then◌else◌)
      | inr e ↦ rw (e, last, if◌then◌else◌)
    ]
open_loop_lem (suc fuel) number x (y ∷ ys) r (at, (there, rest)) enough =
    let more : ((r.objs x).next_circ_buffer_obj == 0) ≡ false =
      ==-false (r.objs x).next_circ_buffer_obj 0 (λ e. rest.1.0 (sym rest.0 ∙ e)) in
    elim (Bool-cases ((r.objs x).buffer_number == number)) [
      | inl e ↦ rw (e, if◌then◌else◌)
      | inr e ↦
          rw (e, more, if◌then◌else◌)
            (ap (λ k. open_loop fuel number k r) rest.0
              ∙ open_loop_lem fuel number y ys r (refl, rest.1) (omega (arith, enough)))
    ]

-- Opening an object changes neither its number nor what comes next.
opened-field :
    {A : Type 0} (field : CbuffObj → A) (r : Registry) (z a : ℕ)
    → field (record (r.objs z) { cbuff_open = true }) ≡ field (r.objs z)
    → field ((opened r z).objs a) ≡ field (r.objs a)
opened-field field r z a same = elim (Bool-cases (a == z)) [
  | inl e ↦
      ap (λ b. field (if b then record (r.objs z) { cbuff_open = true } else r.objs a)) e
      ∙ same
      ∙ ap (λ k. field (r.objs k)) (sym (eq_of_== a z e))
  | inr e ↦ ap (λ b. field (if b then record (r.objs z) { cbuff_open = true } else r.objs a)) e
]

opened-IsChain :
    (r : Registry) (z p : ℕ) (xs : List ℕ) → IsChain r.objs p xs → IsChain (opened r z).objs p xs
opened-IsChain r z p [] h = h
opened-IsChain r z p (x ∷ xs) (at, (there, rest)) = (
  at,
  (
    there,
    subst (λ k. IsChain (opened r z).objs k xs)
        (sym (opened-field (λ o. o.next_circ_buffer_obj) r z x refl))
        (opened-IsChain r z (r.objs x).next_circ_buffer_obj xs rest),
  ),
)

opened-first_with :
    (r : Registry) (z number : ℕ) (xs : List ℕ)
    → first_with (opened r z).objs number xs ≡ first_with r.objs number xs
opened-first_with r z number [] = refl
opened-first_with r z number (x ∷ xs) =
    ap₂ (λ n rest. if n == number then some x else rest)
      (opened-field (λ o. o.buffer_number) r z x refl) (opened-first_with r z number xs)

abbrev HasNumber : (ℕ → CbuffObj) → ℕ → Option ℕ → Type 0
HasNumber objs number none = Unit
HasNumber objs number (some z) = (objs z).buffer_number ≡ number

first_with-HasNumber :
    (objs : ℕ → CbuffObj) (number : ℕ) (xs : List ℕ)
    → HasNumber objs number (first_with objs number xs)
first_with-HasNumber objs number [] = tt
first_with-HasNumber objs number (x ∷ xs) = elim (Bool-cases ((objs x).buffer_number == number)) [
  | inl e ↦
      subst (λ b. HasNumber objs number (if b then some x else first_with objs number xs)) (sym e)
        (eq_of_== (objs x).buffer_number number e)
  | inr e ↦
      subst (λ b. HasNumber objs number (if b then some x else first_with objs number xs)) (sym e)
        (first_with-HasNumber objs number xs)
]

open_lem :
    (fuel number x : ℕ) (xs : List ℕ) (r : Registry)
    → IsChain r.objs r.start_of_cbuff_objs (x ∷ xs)
    → length (x ∷ xs) ≤ fuel
    → open_buffer fuel number r ≡ open_found r (first_with r.objs number (x ∷ xs))
unfolding open_buffer
open_lem fuel number x xs r (start, (there, rest)) enough =
    ap (λ k. open_loop fuel number k r) start
    ∙ open_loop_lem fuel number x xs r (refl, (there, rest)) (omega (arith, enough))

opened_open : (r : Registry) (z : ℕ) → ((opened r z).objs z).cbuff_open ≡ true
opened_open r z = let e : (z == z) ≡ true = ==_self z in rw (e, if◌then◌else◌)

shut_again :
    (r : Registry) (z a : ℕ)
    → (r.objs z).cbuff_open ≡ false
    → store_obj (opened r z).objs z (record ((opened r z).objs z) { cbuff_open = false }) a
      ≡ r.objs a
shut_again r z a shut = elim (Bool-cases (a == z)) [
  | inl e ↦
      (let self : (opened r z).objs z ≡ record (r.objs z) { cbuff_open = true } =
          ap (λ b. if b then record (r.objs z) { cbuff_open = true } else r.objs z) (==_self z) in
        ap
          (λ b.
            if b then record ((opened r z).objs z) { cbuff_open = false } else (opened r z).objs a)
          e
        ∙ ap {A = CbuffObj} (λ o. record o { cbuff_open = false }) self
        ∙ ap (λ b. record (r.objs z) { cbuff_open = b }) (sym shut)
        ∙ ap (λ k. r.objs k) (sym (eq_of_== a z e)))
  | inr e ↦
      ap
        (λ b.
          if b then record ((opened r z).objs z) { cbuff_open = false } else (opened r z).objs a)
        e
      ∙ ap (λ b. if b then record (r.objs z) { cbuff_open = true } else r.objs a) e
]

close_opened :
    (r : Registry) (z : ℕ)
    → (r.objs z).cbuff_open ≡ false
    → ((close z (opened r z)).0 ≡ (r.objs z).buffer_number)
      × ((a : ℕ) → (close z (opened r z)).1.objs a ≡ r.objs a)
unfolding close
close_opened r z shut =
    let ran : close z (opened r z) ≡ (
      ((opened r z).objs z).buffer_number,
      record (opened r z) {
        objs = store_obj (opened r z).objs z (record ((opened r z).objs z) { cbuff_open = false });
      },
    ) =
      ap
        (λ b.
          if b
          then (
            ((opened r z).objs z).buffer_number,
            record (opened r z) {
              objs =
                  store_obj (opened r z).objs z
                    (record ((opened r z).objs z) { cbuff_open = false });
            },
          )
          else (0, opened r z))
        (opened_open r z) in
    (
      ap (λ p. p.0) ran ∙ opened-field (λ o. o.buffer_number) r z z refl,
      λ a. ap (λ p. p.1.objs a) ran ∙ shut_again r z a shut,
    )

-- On a list of objects, with a round of the loop for each: when the first object that has the number is not
-- open, `cbuffOpen` returns it, a second `cbuffOpen` of the number returns NULL, and `cbuffClose` of what was
-- returned returns the number and leaves every object as it was.
pub open_close :
    (fuel number x z : ℕ) (xs : List ℕ) (r : Registry)
    → IsChain r.objs r.start_of_cbuff_objs (x ∷ xs)
    → length (x ∷ xs) ≤ fuel
    → first_with r.objs number (x ∷ xs) ≡ some z
    → (r.objs z).cbuff_open ≡ false
    → let (handle, after) = open_buffer fuel number r in
      (handle ≡ z)
      × (((open_buffer fuel number after).0 ≡ 0)
          × (((close handle after).0 ≡ number)
              × ((a : ℕ) → (close handle after).1.objs a ≡ r.objs a)))
open_close fuel number x z xs r chain enough first shut =
    let found : open_buffer fuel number r ≡ (z, opened r z) =
      open_lem fuel number x xs r chain enough
      ∙ ap (open_found r) first
      ∙ ap (λ b. if b then (0, r) else (z, opened r z)) shut in
    let again : open_buffer fuel number (opened r z) ≡ (0, opened r z) =
      open_lem fuel number x xs (opened r z)
        (opened-IsChain r z r.start_of_cbuff_objs (x ∷ xs) chain) enough
      ∙ ap (open_found (opened r z)) (opened-first_with r z number (x ∷ xs) ∙ first)
      ∙ ap (λ b. if b then (0, opened r z) else (z, opened (opened r z) z)) (opened_open r z) in
    let numbered : (r.objs z).buffer_number ≡ number =
      subst (HasNumber r.objs number) first (first_with-HasNumber r.objs number (x ∷ xs)) in
    let (closes, restores) = close_opened r z shut in
    subst
      (λ p.
        (p.0 ≡ z)
        × (((open_buffer fuel number p.1).0 ≡ 0)
            × (((close p.0 p.1).0 ≡ number) × ((a : ℕ) → (close p.0 p.1).1.objs a ≡ r.objs a))))
      (sym found) (refl, (ap (λ p. p.0) again, (closes ∙ numbered, restores)))
