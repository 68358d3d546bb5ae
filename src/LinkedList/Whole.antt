-- ===== src/LinkedList/Whole.antt =====
-- The operations on a list of any length.
use mathlib.Core.Path.{subst, ap₂}
use mathlib.Core.List.{append-nil}
use esp_misc.Common.{
  ℕ, suc, ◌+◌, ◌≡◌, ◌≢◌, refl, sym, true, false, List, [], ◌∷◌, ◌++◌, All, length, length-append,
  ◌==◌, leb, ltb, arith, split_last,
}
use esp_misc.LinkedList.{
  LinkedList, add_first, add_last, add_pos, remove_first, remove_last, remove_pos,
}
use esp_misc.LinkedList.Linked.{IsList, add_first_lem}
use esp_misc.LinkedList.Chain.{Without}
use esp_misc.LinkedList.Items.{items, IsListOf}
use esp_misc.LinkedList.Insert.{add_first-empty, add_last-empty, add_last-snoc}
use esp_misc.LinkedList.Middle.{add_pos-middle}
use esp_misc.LinkedList.Remove.{Removed, remove_first-single, remove_last-snoc, remove_pos-middle}
use esp_misc.LinkedList.Removed.{remove_first_lem}

items_of :
    (l m : LinkedList) (xs : List ℕ)
    → All (λ y. (m.nodes y).item ≡ (l.nodes y).item) xs
    → items m.nodes xs ≡ items l.nodes xs
items_of l m [] same = refl
items_of l m (x ∷ xs) (e, same) = ap₂ (λ a b. a ∷ b) e (items_of l m xs same)

pub add_first_any :
    (new v : ℕ) (l : LinkedList) (xs : List ℕ)
    → IsList l xs
    → new ≢ 0
    → Without new xs
    → IsListOf (add_first new v l) (new ∷ xs) (v ∷ items l.nodes xs)
add_first_any new v l [] h some apart = add_first-empty new v l h some
add_first_any new v l (x ∷ xs) h some apart =
    let (list, (item, same)) = add_first_lem new v l x xs h some apart in
    (list, ap₂ (λ a b. a ∷ b) item (items_of l (add_first new v l) (x ∷ xs) same))

pub add_last_any :
    (new v : ℕ) (l : LinkedList) (xs : List ℕ)
    → IsList l xs
    → new ≢ 0
    → Without new xs
    → IsListOf (add_last new v l) (xs ++ (new ∷ [])) (items l.nodes xs ++ (v ∷ []))
add_last_any new v l [] h some apart = add_last-empty new v l h some
add_last_any new v l (x ∷ xs) h some apart =
    let (front, (z, e)) = split_last x xs in
    subst (λ ys. IsListOf (add_last new v l) (ys ++ (new ∷ [])) (items l.nodes ys ++ (v ∷ [])))
      (sym e)
      (add_last-snoc new v l front z (subst (IsList l) e h) some (subst (Without new) e apart))

-- `list_add` at a position of the list.
add_at :
    (new v : ℕ) (l : LinkedList) (position : ℕ)
    → ltb l.size position ≡ false
    → ((position == 0) ≡ true → add_pos new v position l ≡ add_first new v l)
      × ((position == 0) ≡ false
          → (position == l.size) ≡ true
          → add_pos new v position l ≡ add_last new v l)
unfolding add_pos
add_at new v l position e = ((λ f. rw (e, f)), λ f g. rw (e, f, g))

pub add_any :
    (new v : ℕ) (l : LinkedList) (front back : List ℕ)
    → IsList l (front ++ back)
    → new ≢ 0
    → Without new (front ++ back)
    → IsListOf
        (add_pos new v (length front) l)
        (front ++ (new ∷ back))
        (items l.nodes front ++ (v ∷ items l.nodes back))
add_any new v l [] back h some apart =
    subst (λ m. IsListOf m (new ∷ back) (v ∷ items l.nodes back))
      (sym ((add_at new v l 0 (ground arith)).0 refl)) (add_first_any new v l back h some apart)
add_any new v l (x ∷ xs) [] h some apart =
    let whole : (x ∷ xs) ++ [] ≡ x ∷ xs = append-nil (x ∷ xs) in
    let list = subst (IsList l) whole h in
    let count : l.size ≡ suc (length xs) = list.counted in
    subst (λ m. IsListOf m ((x ∷ xs) ++ (new ∷ [])) (items l.nodes (x ∷ xs) ++ (v ∷ [])))
      (sym (
        (add_at new v l (suc (length xs)) (ground (arith, count))).1 (ground arith)
          (ground (arith, count))))
      (add_last_any new v l (x ∷ xs) list some (subst (Without new) whole apart))
add_any new v l (x ∷ xs) (n ∷ ns) h some apart =
    let (front, (b, e)) = split_last x xs in
    subst
      (λ ys.
        IsListOf (add_pos new v (length ys) l) (ys ++ (new ∷ n ∷ ns))
          (items l.nodes ys ++ (v ∷ items l.nodes (n ∷ ns))))
      (sym e)
      (add_pos-middle new v l front b n ns (subst (λ ys. IsList l (ys ++ (n ∷ ns))) e h) some
        (subst (λ ys. Without new (ys ++ (n ∷ ns))) e apart))

pub remove_first_any :
    (l : LinkedList) (x : ℕ) (xs : List ℕ)
    → IsList l (x ∷ xs)
    → Removed l x xs (items l.nodes xs) (remove_first l)
remove_first_any l x [] h = remove_first-single l x h
remove_first_any l x (y ∷ ys) h =
    let (item, (list, (freed, same))) = remove_first_lem l x y ys h in
    (item, ((list, items_of l (remove_first l).1 (y ∷ ys) same), freed))

remove_last_one :
    (l : LinkedList) → (l.size == 0) ≡ false → (l.size == 1) ≡ true → remove_last l ≡ remove_first l
unfolding remove_last
remove_last_one l e f = rw (e, f)

pub remove_last_any :
    (l : LinkedList) (xs : List ℕ) (z : ℕ)
    → IsList l (xs ++ (z ∷ []))
    → Removed l z xs (items l.nodes xs) (remove_last l)
remove_last_any l [] z h =
    let count : l.size ≡ 1 = h.counted in
    subst (Removed l z [] [])
      (sym (remove_last_one l (ground (arith, count)) (ground (arith, count))))
      (remove_first_any l z [] h)
remove_last_any l (x ∷ xs) z h =
    let (front, (b, e)) = split_last x xs in
    subst (λ ys. Removed l z ys (items l.nodes ys) (remove_last l)) (sym e)
      (remove_last-snoc l front b z (subst (λ ys. IsList l (ys ++ (z ∷ []))) e h))

remove_at :
    (l : LinkedList) (position : ℕ)
    → (l.size == 0) ≡ false
    → leb l.size position ≡ false
    → ((position == 0) ≡ true → remove_pos position l ≡ remove_first l)
      × ((position == 0) ≡ false
          → (position + 1 == l.size) ≡ true
          → remove_pos position l ≡ remove_last l)
unfolding remove_pos
remove_at l position e f = ((λ g. rw (e, f, g)), λ g k. rw (e, f, g, k))

pub remove_any :
    (l : LinkedList) (front : List ℕ) (n : ℕ) (back : List ℕ)
    → IsList l (front ++ (n ∷ back))
    → Removed l n
        (front ++ back)
        (items l.nodes front ++ items l.nodes back)
        (remove_pos (length front) l)
remove_any l [] n back h =
    let count : l.size ≡ suc (length back) = h.counted in
    subst (Removed l n back (items l.nodes back))
      (sym ((remove_at l 0 (ground (arith, count)) (ground (arith, count))).0 refl))
      (remove_first_any l n back h)
remove_any l (x ∷ xs) n [] h =
    let count : l.size ≡ length xs + 2 =
      omega (arith, h.counted, length-append (x ∷ xs) (n ∷ [])) in
    subst (Removed l n ((x ∷ xs) ++ []) (items l.nodes (x ∷ xs) ++ []))
      (sym (
        (remove_at l (suc (length xs)) (ground (arith, count)) (ground (arith, count))).1
          (ground arith) (ground (arith, count))))
      (subst (λ ys. Removed l n ys (items l.nodes (x ∷ xs) ++ []) (remove_last l))
        (sym (append-nil (x ∷ xs)))
        (subst (λ vs. Removed l n (x ∷ xs) vs (remove_last l))
          (sym (append-nil (items l.nodes (x ∷ xs)))) (remove_last_any l (x ∷ xs) n h)))
remove_any l (x ∷ xs) n (c ∷ cs) h =
    let (front, (b, e)) = split_last x xs in
    subst
      (λ ys.
        Removed l n (ys ++ (c ∷ cs)) (items l.nodes ys ++ items l.nodes (c ∷ cs))
          (remove_pos (length ys) l))
      (sym e) (remove_pos-middle l front b n c cs (subst (λ ys. IsList l (ys ++ (n ∷ c ∷ cs))) e h))
