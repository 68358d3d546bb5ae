-- ===== src/LinkedList/Changes.antt =====
-- The calls at a position, and those that remove, next to the sequence of items.
use mathlib.Core.Path.{subst, ap₂}
use mathlib.Core.List.{append-nil}
use esp_misc.Common.{
  ℕ, suc, ◌-◌, ◌≤◌, ◌≡◌, ◌≢◌, refl, sym, ◌∙◌, ap, Bool-cases, true, false, some, List, [], ◌∷◌,
  ◌++◌, length, length-append, get_or, take, drop, ◌==◌, ==-false, leb, ltb, if◌then◌else◌, arith,
  inl, inr, order_cases, split_last, split_at, split_to, take-append, drop-append, drop-append_suc,
  get_or-append, take_all, drop_all, get_or_all,
}
use esp_misc.LinkedList.{LinkedList, add, remove, add_pos, remove_first, remove_last, remove_pos}
use esp_misc.Common.Int.{pos, negsuc}
use esp_misc.LinkedList.Linked.{IsList}
use esp_misc.LinkedList.Chain.{Without, get_or-snoc}
use esp_misc.LinkedList.Items.{items, items-append, length-items, IsListOf}
use esp_misc.LinkedList.Whole.{add_any, remove_first_any, remove_last_any, remove_any}
use esp_misc.LinkedList.Sequence.{at_op, remove_op, remove_first_op, remove_last_op, act}
use esp_misc.LinkedList.Calls.{call, Follows}

add_past :
    (new v position : ℕ) (l : LinkedList)
    → ltb l.size position ≡ true
    → add_pos new v position l ≡ l
unfolding add_pos
add_past new v position l e = rw e

abbrev inserted : ℕ → ℕ → List ℕ → List ℕ
inserted v position vs =
    if ltb (length vs) position then vs else take position vs ++ (v ∷ drop position vs)

inserted_past :
    (v position : ℕ) (vs : List ℕ) → ltb (length vs) position ≡ true → inserted v position vs ≡ vs
inserted_past v position vs e = rw (e, if◌then◌else◌)

inserted_at : (v n : ℕ) (us ws : List ℕ) → n ≡ length us → inserted v n (us ++ ws) ≡ us ++ (v ∷ ws)
inserted_at v n us ws e =
    let inside : ltb (length (us ++ ws)) n ≡ false = ground (arith, e, length-append us ws) in
    rw (inside, if◌then◌else◌)
      (ap (λ k. take k (us ++ ws) ++ (v ∷ drop k (us ++ ws))) e
        ∙ ap₂ (λ a b. a ++ (v ∷ b)) (take-append us ws) (drop-append us ws))

pub at_Follows :
    (new v position : ℕ) (l : LinkedList) (xs : List ℕ)
    → IsList l xs
    → new ≢ 0
    → Without new xs
    → Follows
        (call new (at_op v (pos position)) l)
        (act (at_op v (pos position)) (items l.nodes xs))
unfolding call act add remove
at_Follows new v position l xs h fresh apart = elim (order_cases (length xs) position) [
  | inl past ↦ (
    xs,
    (
      subst (λ m. IsListOf m xs (inserted v position (items l.nodes xs)))
          (sym (add_past new v position l (ground (arith, past, h.counted))))
          (
            h,
            sym (
                inserted_past v position (items l.nodes xs)
                  (ground (arith, past, length-items l.nodes xs))),
          ),
      refl,
    ),
  )
  | inr le ↦
      (let (front, (back, (e, len))) = split_to position xs le in
        let whole = items l.nodes front ++ items l.nodes back in
        let same : items l.nodes xs ≡ whole =
          ap (items l.nodes) e ∙ items-append l.nodes front back in
        let (list, kept) =
          add_any new v l front back (subst (IsList l) e h) fresh (subst (Without new) e apart) in
        (
          front ++ (new ∷ back),
          (
            subst
                (λ n.
                  IsListOf (add_pos new v n l) (front ++ (new ∷ back))
                    (inserted v n (items l.nodes xs)))
                len
                (
                  list,
                  kept
                      ∙ sym (
                          inserted_at v (length front) (items l.nodes front) (items l.nodes back)
                            (sym (length-items l.nodes front)))
                      ∙ ap (inserted v (length front)) (sym same),
                ),
            refl,
          ),
        ))
]

remove_past :
    (position : ℕ) (l : LinkedList) → leb l.size position ≡ true → remove_pos position l ≡ (0, l)
unfolding remove_pos
remove_past position l e = elim (Bool-cases (l.size == 0)) [
  | inl f ↦ rw (f, if◌then◌else◌)
  | inr f ↦ rw (f, e, if◌then◌else◌)
]

abbrev taken : ℕ → List ℕ → List ℕ
taken position vs = take position vs ++ drop (suc position) vs

taken_past : (position : ℕ) (vs : List ℕ) → length vs ≤ position → taken position vs ≡ vs
taken_past position vs few =
    ap₂ (λ a b. a ++ b) (take_all position vs few) (drop_all (suc position) vs (omega (arith, few)))
    ∙ append-nil vs

taken_at :
    (n : ℕ) (us : List ℕ) (w : ℕ) (ws : List ℕ)
    → n ≡ length us
    → taken n (us ++ (w ∷ ws)) ≡ us ++ ws
taken_at n us w ws e =
    ap (λ k. taken k (us ++ (w ∷ ws))) e
    ∙ ap₂ (λ a b. a ++ b) (take-append us (w ∷ ws)) (drop-append_suc us w ws)

pub remove_Follows :
    (new position : ℕ) (l : LinkedList) (xs : List ℕ)
    → IsList l xs
    → Follows
        (call new (remove_op (pos position)) l)
        (act (remove_op (pos position)) (items l.nodes xs))
unfolding call act add remove
remove_Follows new position l xs h = elim (order_cases position (length xs)) [
  | inl lt ↦
      (let (front, (n, (back, (e, len)))) = split_at position xs lt in
        let us = items l.nodes front in
        let ws = items l.nodes back in
        let same : items l.nodes xs ≡ us ++ ((l.nodes n).item ∷ ws) =
          ap (items l.nodes) e ∙ items-append l.nodes front (n ∷ back) in
        let at : position ≡ length us = sym len ∙ sym (length-items l.nodes front) in
        let (item, (list, freed)) = remove_any l front n back (subst (IsList l) e h) in
        (
          front ++ back,
          (
            subst
                (λ k.
                  IsListOf (remove_pos k l).1 (front ++ back) (taken position (items l.nodes xs)))
                len
                (
                  list.0,
                  list.1
                      ∙ sym
                          (ap (taken position) same ∙ taken_at position us (l.nodes n).item ws at),
                ),
            ap some (
                ap (λ k. (remove_pos k l).0) (sym len)
                ∙ item
                ∙ sym (
                    ap (λ vs. get_or vs position 0) same
                    ∙ ap (λ k. get_or (us ++ ((l.nodes n).item ∷ ws)) k 0) at
                    ∙ get_or-append us (l.nodes n).item ws 0)),
          ),
        ))
  | inr le ↦
      (let past : leb l.size position ≡ true = ground (arith, le, h.counted) in
        let few : length (items l.nodes xs) ≤ position =
          omega (arith, le, length-items l.nodes xs) in
        (
          xs,
          (
            subst (λ m. IsListOf m.1 xs (taken position (items l.nodes xs)))
                (sym (remove_past position l past))
                (h, sym (taken_past position (items l.nodes xs) few)),
            ap some (
                ap (λ r. r.0) (remove_past position l past)
                ∙ sym (get_or_all position (items l.nodes xs) 0 few)),
          ),
        ))
]

remove_first_empty : (l : LinkedList) → (l.head == 0) ≡ true → remove_first l ≡ (0, l)
unfolding remove_first
remove_first_empty l e = rw e

remove_last_empty : (l : LinkedList) → (l.size == 0) ≡ true → remove_last l ≡ (0, l)
unfolding remove_last
remove_last_empty l e = rw e

pub remove_first_Follows :
    (new : ℕ) (l : LinkedList) (xs : List ℕ)
    → IsList l xs
    → Follows (call new remove_first_op l) (act remove_first_op (items l.nodes xs))
unfolding call act
remove_first_Follows new l [] h =
    let none_left : remove_first l ≡ (0, l) = remove_first_empty l (ap (λ a. a == 0) h.linked) in
    ([], (subst (λ m. IsListOf m.1 [] []) (sym none_left) (h, refl), ap (λ r. some r.0) none_left))
remove_first_Follows new l (x ∷ xs) h =
    let (item, (list, freed)) = remove_first_any l x xs h in (xs, (list, ap some item))

pub remove_last_Follows :
    (new : ℕ) (l : LinkedList) (xs : List ℕ)
    → IsList l xs
    → Follows (call new remove_last_op l) (act remove_last_op (items l.nodes xs))
unfolding call act
remove_last_Follows new l [] h =
    let none_left : remove_last l ≡ (0, l) = remove_last_empty l (ap (λ n. n == 0) h.counted) in
    ([], (subst (λ m. IsListOf m.1 [] []) (sym none_left) (h, refl), ap (λ r. some r.0) none_left))
remove_last_Follows new l (x ∷ xs) h =
    let (front, (z, e)) = split_last x xs in
    let us = items l.nodes front in
    let w = (l.nodes z).item in
    let same : items l.nodes (x ∷ xs) ≡ us ++ (w ∷ []) =
      ap (items l.nodes) e ∙ items-append l.nodes front (z ∷ []) in
    let (item, (list, freed)) = remove_last_any l front z (subst (IsList l) e h) in
    let at : length (us ++ (w ∷ [])) - 1 ≡ length us = omega (arith, length-append us (w ∷ [])) in
    (
      front,
      (
        (
          list.0,
          list.1
              ∙ sym (
                  ap (λ vs. take (length vs - 1) vs) same
                  ∙ ap (λ k. take k (us ++ (w ∷ []))) at
                  ∙ take-append us (w ∷ [])),
        ),
        ap some (item ∙ sym (ap (λ vs. get_or vs (length vs - 1) 0) same ∙ get_or-snoc us w)),
      ),
    )

-- Adding in front of the head, where nothing is behind it to be linked to, crashes.
pub at_negative :
    (new v k : ℕ) (l : LinkedList) (xs : List ℕ)
    → IsList l xs
    → Follows (call new (at_op v (negsuc k)) l) (act (at_op v (negsuc k)) (items l.nodes xs))
unfolding call act add
at_negative new v k l [] h =
    let e : (l.head == 0) ≡ true = ap (λ a. a == 0) h.linked in rw (e, if◌then◌else◌) tt
at_negative new v k l (x ∷ xs) h =
    let (at, (there, (first, rest))) = h.linked in
    let e : (l.head == 0) ≡ false = ==-false l.head 0 (λ z. there (sym at ∙ z)) in
    let f : ((l.nodes l.head).prev == 0) ≡ true =
      ap (λ a. (l.nodes a).prev == 0) at ∙ ap (λ a. a == 0) first in
    rw (e, f, if◌then◌else◌) tt

pub remove_negative :
    (new k : ℕ) (l : LinkedList) (xs : List ℕ)
    → IsList l xs
    → Follows (call new (remove_op (negsuc k)) l) (act (remove_op (negsuc k)) (items l.nodes xs))
unfolding call act remove
remove_negative new k l [] h =
    let e : (l.size == 0) ≡ true = ap (λ n. n == 0) h.counted in
    rw (e, if◌then◌else◌) ([], ((h, refl), refl))
remove_negative new k l (x ∷ xs) h =
    let (at, (there, (first, rest))) = h.linked in
    let e : (l.size == 0) ≡ false = ground (arith, h.counted) in
    let f : ((l.nodes l.head).prev == 0) ≡ true =
      ap (λ a. (l.nodes a).prev == 0) at ∙ ap (λ a. a == 0) first in
    let g : (l.head == 0) ≡ false = ==-false l.head 0 (λ z. there (sym at ∙ z)) in
    rw (e, f, g, if◌then◌else◌) tt
