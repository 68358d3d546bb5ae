-- ===== src/CircBuf/Chain.antt =====
-- cbuff.c: `cbuffDestroy` on the list of objects.
use mathlib.Core.Path.{subst, ap₂}
use esp_misc.Common.{
  ℕ, zero, suc, ◌<◌, ◌≤◌, ◌≡◌, ◌≢◌, refl, sym, ◌∙◌, ap, Bool, Bool-cases, inl, inr, true, false,
  ◌||◌, Option, none, some, List, [], ◌∷◌, All, length, ◌==◌, ==-false, ==_self, if◌then◌else◌,
  arith,
}
use esp_misc.CircBuf.{CbuffObj}
use esp_misc.CircBuf.Registry.{
  Registry, destroy_fail, destroy_ok, store_obj, clear_bits, destroy_loop, destroy,
}

-- The objects from `p` on, by their addresses; the last has no next.
abbrev pub IsChain : (ℕ → CbuffObj) → ℕ → List ℕ → Type 0
IsChain objs p [] = p ≡ 0
IsChain objs p (x ∷ xs) = (p ≡ x) × ((x ≢ 0) × IsChain objs (objs x).next_circ_buffer_obj xs)

abbrev pub AllApart : List ℕ → Type 0
AllApart [] = Unit
AllApart (x ∷ xs) = All (λ y. x ≢ y) xs × AllApart xs

-- The first object with the number, and the one before it.
abbrev found : (ℕ → CbuffObj) → (number previous : ℕ) → List ℕ → Option (ℕ × ℕ)
found objs number previous [] = none
found objs number previous (x ∷ xs) =
    if (objs x).buffer_number == number then some (previous, x) else found objs number x xs

abbrev pub has_number : (ℕ → CbuffObj) → ℕ → List ℕ → Bool
has_number objs number [] = false
has_number objs number (x ∷ xs) = (objs x).buffer_number == number || has_number objs number xs

-- The list without the first object that has the number.
abbrev pub without : (ℕ → CbuffObj) → ℕ → List ℕ → List ℕ
without objs number [] = []
without objs number (x ∷ xs) =
    if (objs x).buffer_number == number then xs else x ∷ without objs number xs

abbrev outcome : Registry → ℕ → Option (ℕ × ℕ) → ℕ × Registry
outcome r number none = (destroy_fail, r)
outcome r number (some (previous, x)) = (
  destroy_ok,
  record r {
    active_cbuff_objs = clear_bits r.active_cbuff_objs number;
    objs =
        store_obj r.objs previous
          (record (r.objs previous) { next_circ_buffer_obj = (r.objs x).next_circ_buffer_obj });
  },
)

-- With a round for each object the loop ends with what is found.
destroy_loop_lem :
    (fuel number previous x : ℕ) (xs : List ℕ) (r : Registry)
    → IsChain r.objs x (x ∷ xs)
    → length xs < fuel
    → destroy_loop fuel number previous x r
      ≡ outcome r number (found r.objs number previous (x ∷ xs))
unfolding destroy_loop
destroy_loop_lem zero number previous x xs r h enough = absurd (omega (arith, enough))
destroy_loop_lem (suc fuel) number previous x [] r (at, (there, rest)) enough =
    let last : ((r.objs x).next_circ_buffer_obj == 0) ≡ true = ap (λ k. k == 0) rest in
    elim (Bool-cases ((r.objs x).buffer_number == number)) [
      | inl e ↦ rw (e, if◌then◌else◌)
      | inr e ↦ rw (e, last, if◌then◌else◌)
    ]
destroy_loop_lem (suc fuel) number previous x (y ∷ ys) r (at, (there, rest)) enough =
    let more : ((r.objs x).next_circ_buffer_obj == 0) ≡ false =
      ==-false (r.objs x).next_circ_buffer_obj 0 (λ e. rest.1.0 (sym rest.0 ∙ e)) in
    elim (Bool-cases ((r.objs x).buffer_number == number)) [
      | inl e ↦ rw (e, if◌then◌else◌)
      | inr e ↦
          rw (e, more, if◌then◌else◌)
            (ap (λ k. destroy_loop fuel number x k r) rest.0
              ∙ destroy_loop_lem fuel number x y ys r (refl, rest.1) (omega (arith, enough)))
    ]

-- A chain that does not hold the object written to stays.
store-IsChain :
    (objs : ℕ → CbuffObj) (q : ℕ) (o : CbuffObj) (p : ℕ) (xs : List ℕ)
    → All (λ y. q ≢ y) xs
    → IsChain objs p xs
    → IsChain (store_obj objs q o) p xs
store-IsChain objs q o p [] apart h = h
store-IsChain objs q o p (x ∷ xs) (other, apart) (at, (there, rest)) =
    let e : (x == q) ≡ false = ==-false x q (λ k. other (sym k)) in
    (
      at,
      (
        there,
        subst (λ k. IsChain (store_obj objs q o) k xs)
            (sym (
              let f : (store_obj objs q o x).next_circ_buffer_obj ≡ (objs x).next_circ_buffer_obj =
                rw (e, if◌then◌else◌) in
              f))
            (store-IsChain objs q o (objs x).next_circ_buffer_obj xs apart rest),
      ),
    )

abbrev unlinked : (ℕ → CbuffObj) → (q z : ℕ) → ℕ → CbuffObj
unlinked objs q z =
    store_obj objs q (record (objs q) { next_circ_buffer_obj = (objs z).next_circ_buffer_obj })

next_self :
    (objs : ℕ → CbuffObj) (q z : ℕ)
    → (unlinked objs q z q).next_circ_buffer_obj ≡ (objs z).next_circ_buffer_obj
next_self objs q z = let e : (q == q) ≡ true = ==_self q in rw (e, if◌then◌else◌)

next-other :
    (objs : ℕ → CbuffObj) (q z p : ℕ)
    → p ≢ q
    → (unlinked objs q z p).next_circ_buffer_obj ≡ (objs p).next_circ_buffer_obj
next-other objs q z p other = let e : (p == q) ≡ false = ==-false p q other in rw (e, if◌then◌else◌)

-- What is found behind `p`: with the object before it changed, the rest is the list without it.
abbrev Unlinks : (ℕ → CbuffObj) → (number p : ℕ) → List ℕ → Option (ℕ × ℕ) → Type 0
Unlinks objs number p xs none = (has_number objs number xs ≡ false) × (without objs number xs ≡ xs)
Unlinks objs number p xs (some (q, z)) =
    (has_number objs number xs ≡ true)
    × (IsChain (unlinked objs q z) p (p ∷ without objs number xs)
        × ((a : ℕ) → All (λ y. a ≢ y) (p ∷ xs) → a ≢ q))

Unlinks-later :
    (objs : ℕ → CbuffObj) (number p x : ℕ) (xs : List ℕ) (res : Option (ℕ × ℕ))
    → IsChain objs p (p ∷ x ∷ xs)
    → All (λ y. p ≢ y) (x ∷ xs)
    → ((objs x).buffer_number == number) ≡ false
    → Unlinks objs number x xs res
    → Unlinks objs number p (x ∷ xs) res
Unlinks-later objs number p x xs none h apart e (lacks, same) =
    (rw e lacks, rw (e, if◌then◌else◌) (ap (λ l. x ∷ l) same))
Unlinks-later objs number p x xs (some (q, z)) (at, (there, (next, rest))) apart e
      (has, (chain, away)) =
    (
      rw e has,
      (
        (
          refl,
          (
            there,
            subst (λ l. IsChain (unlinked objs q z) (unlinked objs q z p).next_circ_buffer_obj l)
                (sym (
                  let f : without objs number (x ∷ xs) ≡ x ∷ without objs number xs =
                    rw (e, if◌then◌else◌) in
                  f))
                (next-other objs q z p (away p apart) ∙ next, chain.1),
          ),
        ),
        λ a others. away a others.1,
      ),
    )

found-Unlinks :
    (objs : ℕ → CbuffObj) (number p : ℕ) (xs : List ℕ)
    → IsChain objs p (p ∷ xs)
    → AllApart (p ∷ xs)
    → Unlinks objs number p xs (found objs number p xs)
found-Unlinks objs number p [] h apart = (refl, refl)
found-Unlinks objs number p (x ∷ xs) (at, (there, (next, (x_there, rest)))) (apart, aparts) =
    elim (Bool-cases ((objs x).buffer_number == number)) [
      | inl e ↦
          subst
            (λ b.
              Unlinks objs number p (x ∷ xs) (if b then some (p, x) else found objs number x xs))
            (sym e)
            (
              rw e,
              (
                subst (λ l. IsChain (unlinked objs p x) p (p ∷ l))
                    (sym (let f : without objs number (x ∷ xs) ≡ xs = rw (e, if◌then◌else◌) in f))
                    (
                      refl,
                      (
                        there,
                        subst (λ k. IsChain (unlinked objs p x) k xs) (sym (next_self objs p x))
                            (store-IsChain objs p
                              (record (objs p) {
                                next_circ_buffer_obj = (objs x).next_circ_buffer_obj;
                              })
                              (objs x).next_circ_buffer_obj xs apart.1 rest),
                      ),
                    ),
                λ a others. others.0,
              ),
            )
      | inr e ↦
          subst
            (λ b.
              Unlinks objs number p (x ∷ xs) (if b then some (p, x) else found objs number x xs))
            (sym e)
            (Unlinks-later objs number p x xs (found objs number x xs)
              (at, (there, (next, (x_there, rest)))) apart e
              (found-Unlinks objs number x xs (refl, (x_there, rest)) aparts))
    ]

-- What `cbuffDestroy` is to return and to leave behind.
abbrev pub Destroys : Registry → ℕ → List ℕ → ℕ × Registry → Type 0
Destroys r number xs p =
    let (status, after) = p in
    let has = has_number r.objs number xs in
    (status ≡ (if has then destroy_ok else destroy_fail))
    × ((after.active_cbuff_objs
          ≡ (if has then clear_bits r.active_cbuff_objs number else r.active_cbuff_objs))
        × IsChain after.objs after.start_of_cbuff_objs (without r.objs number xs))

outcome-Destroys :
    (r : Registry) (number x : ℕ) (xs : List ℕ) (res : Option (ℕ × ℕ))
    → ((r.objs x).buffer_number == number) ≡ false
    → r.start_of_cbuff_objs ≡ x
    → IsChain r.objs x (x ∷ xs)
    → Unlinks r.objs number x xs res
    → Destroys r number (x ∷ xs) (outcome r number res)
outcome-Destroys r number x xs none e start h (lacks, same) = (
  rw (e, lacks, if◌then◌else◌),
  (
    rw (e, lacks, if◌then◌else◌),
    subst (λ l. IsChain r.objs r.start_of_cbuff_objs l)
        (sym (
          let f : without r.objs number (x ∷ xs) ≡ x ∷ xs =
            rw (e, if◌then◌else◌) (ap (λ l. x ∷ l) same) in
          f))
        (start, h.1),
  ),
)
outcome-Destroys r number x xs (some (q, z)) e start h (has, (chain, away)) = (
  rw (e, has, if◌then◌else◌),
  (
    rw (e, has, if◌then◌else◌),
    subst (λ l. IsChain (unlinked r.objs q z) r.start_of_cbuff_objs l)
        (sym (
          let f : without r.objs number (x ∷ xs) ≡ x ∷ without r.objs number xs =
            rw (e, if◌then◌else◌) in
          f))
        (start, chain.1),
  ),
)

first-Destroys :
    (fuel number x : ℕ) (xs : List ℕ) (r : Registry)
    → r.start_of_cbuff_objs ≡ x
    → IsChain r.objs x (x ∷ xs)
    → ((r.objs x).buffer_number == number) ≡ true
    → Destroys r number (x ∷ xs) (destroy fuel number r)
unfolding destroy
first-Destroys fuel number x xs r start (at, (there, rest)) e =
    let begun : (r.start_of_cbuff_objs == 0) ≡ false =
      ==-false r.start_of_cbuff_objs 0 (λ k. there (sym start ∙ k)) in
    let same : ((r.objs r.start_of_cbuff_objs).buffer_number == number) ≡ true =
      ap (λ k. (r.objs k).buffer_number == number) start ∙ e in
    let ran : destroy fuel number r ≡ (
      destroy_ok,
      record r {
        start_of_cbuff_objs = (r.objs r.start_of_cbuff_objs).next_circ_buffer_obj;
        active_cbuff_objs = clear_bits r.active_cbuff_objs number;
      },
    ) =
      rw (begun, same, if◌then◌else◌) in
    subst (Destroys r number (x ∷ xs)) (sym ran) (
      rw (e, if◌then◌else◌),
      (
        rw (e, if◌then◌else◌),
        subst (λ l. IsChain r.objs (r.objs r.start_of_cbuff_objs).next_circ_buffer_obj l)
            (sym (let f : without r.objs number (x ∷ xs) ≡ xs = rw (e, if◌then◌else◌) in f))
            (subst (λ k. IsChain r.objs (r.objs k).next_circ_buffer_obj xs) (sym start) rest),
      ),
    )

goes_on :
    (fuel number x : ℕ) (xs : List ℕ) (r : Registry)
    → r.start_of_cbuff_objs ≡ x
    → IsChain r.objs x (x ∷ xs)
    → ((r.objs x).buffer_number == number) ≡ false
    → length (x ∷ xs) ≤ fuel
    → destroy fuel number r ≡ outcome r number (found r.objs number x xs)
unfolding destroy
goes_on fuel number x [] r start (at, (there, rest)) e enough =
    let begun : (r.start_of_cbuff_objs == 0) ≡ false =
      ==-false r.start_of_cbuff_objs 0 (λ k. there (sym start ∙ k)) in
    let other : ((r.objs r.start_of_cbuff_objs).buffer_number == number) ≡ false =
      ap (λ k. (r.objs k).buffer_number == number) start ∙ e in
    let last : ((r.objs r.start_of_cbuff_objs).next_circ_buffer_obj == 0) ≡ true =
      ap (λ k. (r.objs k).next_circ_buffer_obj == 0) start ∙ ap (λ k. k == 0) rest in
    rw (begun, other, last, if◌then◌else◌)
goes_on fuel number x (y ∷ ys) r start (at, (there, rest)) e enough =
    let begun : (r.start_of_cbuff_objs == 0) ≡ false =
      ==-false r.start_of_cbuff_objs 0 (λ k. there (sym start ∙ k)) in
    let other : ((r.objs r.start_of_cbuff_objs).buffer_number == number) ≡ false =
      ap (λ k. (r.objs k).buffer_number == number) start ∙ e in
    let next : (r.objs r.start_of_cbuff_objs).next_circ_buffer_obj ≡ y =
      ap (λ k. (r.objs k).next_circ_buffer_obj) start ∙ rest.0 in
    let more : ((r.objs r.start_of_cbuff_objs).next_circ_buffer_obj == 0) ≡ false =
      ==-false (r.objs r.start_of_cbuff_objs).next_circ_buffer_obj 0
        (λ k. rest.1.0 (sym next ∙ k)) in
    rw (begun, other, more, if◌then◌else◌)
      (ap₂ (λ p l. destroy_loop fuel number p l r) start next
        ∙ destroy_loop_lem fuel number x y ys r (refl, rest.1) (omega (arith, enough)))

-- The list of the objects at different addresses, with a round of the loop for each: `cbuffDestroy` returns
-- whether an object of the list has the number; the first that has it is taken out, the other objects
-- stay in their order, and the number becomes inactive if and only if there was one.
pub destroy_lem :
    (fuel number : ℕ) (xs : List ℕ) (r : Registry)
    → IsChain r.objs r.start_of_cbuff_objs xs
    → AllApart xs
    → length xs ≤ fuel
    → Destroys r number xs (destroy fuel number r)
unfolding destroy
destroy_lem fuel number [] r h apart enough =
    let none_there : (r.start_of_cbuff_objs == 0) ≡ true = ap (λ k. k == 0) h in
    let ran : destroy fuel number r ≡ (destroy_fail, r) = rw (none_there, if◌then◌else◌) in
    subst (Destroys r number []) (sym ran) (refl, (refl, h))
destroy_lem fuel number (x ∷ xs) r (start, (there, rest)) apart enough =
    elim (Bool-cases ((r.objs x).buffer_number == number)) [
      | inl e ↦ first-Destroys fuel number x xs r start (refl, (there, rest)) e
      | inr e ↦
          subst (Destroys r number (x ∷ xs))
            (sym (goes_on fuel number x xs r start (refl, (there, rest)) e enough))
            (outcome-Destroys r number x xs (found r.objs number x xs) e start (refl, (there, rest))
              (found-Unlinks r.objs number x xs (refl, (there, rest)) apart))
    ]
