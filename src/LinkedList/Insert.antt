-- ===== src/LinkedList/Insert.antt =====
-- `list_add_first`, `list_add_last` and `list_add` on a row of nodes.
use mathlib.Core.Path.{subst, ap₂}
use mathlib.Core.List.{append-nil}
use esp_misc.Common.{
  ℕ, ◌+◌, ◌-◌, ◌<◌, ◌≡◌, ◌≢◌, refl, sym, ◌∙◌, ap, true, false, List, [], ◌∷◌, ◌++◌, length,
  length-append, get_or, ◌==◌, if◌then◌else◌, arith, ==-false, inl, inr,
}
use esp_misc.LinkedList.{Node, LinkedList, add_first, add_last}
use esp_misc.LinkedList.Linked.{Distinct, IsList, added_tail}
use esp_misc.LinkedList.Chain.{
  Nodes, put, next_to, prev_to, first, Chain, Without, Linked-Chain, put_same, put_other, last-snoc,
  Chain-join, Chain-put, Chain-next_to, All-split, Distinct-middle, Distinct-insert, get_or-snoc,
}
use esp_misc.LinkedList.Items.{
  items, items-append, SameItems, next_to-SameItems, prev_to-SameItems, items-SameItems, items-put,
  Chain-IsList, IsListOf,
}

abbrev pub fresh_node : ℕ → Node
fresh_node v = record { item = v; prev = 0; next = 0 }

-- The first node of a list.
alone :
    (first_or_last : LinkedList → LinkedList) (new v : ℕ) (l : LinkedList)
    → new ≢ 0
    → l.size ≡ 0
    → (l.tail ≡ 0)
    → first_or_last l
      ≡ record l { head = new; size = l.size + 1; nodes = put new (fresh_node v) l.nodes }
    → IsListOf (first_or_last l) (new ∷ []) (v ∷ [])
alone op new v l some empty ended e =
    let same : put new (fresh_node v) l.nodes new ≡ fresh_node v =
      put_same new (fresh_node v) l.nodes in
    subst (λ m. IsListOf m (new ∷ []) (v ∷ [])) (sym e)
      (
        record {
          linked = (refl, (some, (ap (λ (k : Node). k.prev) same, ap (λ (k : Node). k.next) same)));
          distinct = (tt, tt);
          counted = omega (arith, empty);
          ended = inr (ended, omega arith);
        },
        ap (λ (k : Node). k.item ∷ []) same,
      )

pub empty_head : (l : LinkedList) → IsList l [] → (l.head == 0) ≡ true
empty_head l h = ap (λ a. a == 0) h.linked

pub empty_tail : (l : LinkedList) → IsList l [] → l.tail ≡ 0
empty_tail l h = elim h.ended [ inl e ↦ e | inr (e, few) ↦ e ]

add_first_reduced :
    (new v : ℕ) (l : LinkedList)
    → (l.head == 0) ≡ true
    → add_first new v l
      ≡ record l { head = new; size = l.size + 1; nodes = put new (fresh_node v) l.nodes }
unfolding add_first
add_first_reduced new v l e = rw e

add_last_reduced :
    (new v : ℕ) (l : LinkedList)
    → (l.head == 0) ≡ true
    → add_last new v l
      ≡ record l { head = new; size = l.size + 1; nodes = put new (fresh_node v) l.nodes }
unfolding add_last
add_last_reduced new v l e = rw e

pub add_first-empty :
    (new v : ℕ) (l : LinkedList)
    → IsList l []
    → new ≢ 0
    → IsListOf (add_first new v l) (new ∷ []) (v ∷ [])
add_first-empty new v l h some =
    alone (λ m. add_first new v m) new v l some h.counted (empty_tail l h)
      (add_first_reduced new v l (empty_head l h))

pub add_last-empty :
    (new v : ℕ) (l : LinkedList)
    → IsList l []
    → new ≢ 0
    → IsListOf (add_last new v l) (new ∷ []) (v ∷ [])
add_last-empty new v l h some =
    alone (λ m. add_last new v m) new v l some h.counted (empty_tail l h)
      (add_last_reduced new v l (empty_head l h))

-- The nodes after `list_add_last` behind the node `z`.
abbrev added_last : (new v z : ℕ) → Nodes → Nodes
added_last new v z f = prev_to new z (next_to z new (put new (fresh_node v) f))

add_last_facts :
    (new v z : ℕ) (l : LinkedList)
    → (l.head == 0) ≡ false
    → (if l.tail == 0 then l.head else l.tail) ≡ z
    → add_last new v l
      ≡ record l { tail = new; size = l.size + 1; nodes = added_last new v z l.nodes }
unfolding add_last
add_last_facts new v z l e f = rw (e, f)

pub flip : (a b : ℕ) → a ≢ b → b ≢ a
flip a b other e = other (sym e)

-- The node that is added has the item, the others keep theirs.
pub added_items :
    (new v : ℕ) (f g : Nodes) (xs : List ℕ)
    → SameItems (put new (fresh_node v) f) g
    → Without new xs
    → (items g xs ≡ items f xs) × ((g new).item ≡ v)
added_items new v f g xs same apart = (
  items-SameItems (put new (fresh_node v) f) g xs same ∙ items-put new (fresh_node v) f xs apart,
  same new ∙ ap (λ (k : Node). k.item) (put_same new (fresh_node v) f),
)

added_last-Chain :
    (new v z : ℕ) (f : Nodes) (xs : List ℕ)
    → Chain f 0 (xs ++ (z ∷ [])) 0
    → new ≢ 0
    → Without new (xs ++ (z ∷ []))
    → Without z xs
    → Chain (added_last new v z f) 0 ((xs ++ (z ∷ [])) ++ (new ∷ [])) 0
added_last-Chain new v z f xs chain some apart before =
    let ys = xs ++ (z ∷ []) in
    let f1 = put new (fresh_node v) f in
    let f2 = next_to z new f1 in
    let other : new ≢ z = flip z new (All-split (λ y. y ≢ new) xs (z ∷ []) apart).1.0 in
    let c1 = Chain-put f new (fresh_node v) 0 ys 0 apart chain in
    let c2 = Chain-next_to f1 z new 0 xs 0 before c1 in
    let c3 = Chain-put f2 new (record (f2 new) { prev = z }) 0 ys new apart c2 in
    let now : added_last new v z f new ≡ record (f2 new) { prev = z } =
      put_same new (record (f2 new) { prev = z }) f2 in
    let was : f2 new ≡ fresh_node v =
      put_other z (record (f1 z) { next = new }) f1 new other ∙ put_same new (fresh_node v) f in
    Chain-join (added_last new v z f) 0 ys (new ∷ []) 0 c3 (
      some,
      (
        ap (λ (k : Node). k.prev) now ∙ sym (last-snoc 0 xs z),
        (ap (λ (k : Node). k.next) now ∙ ap (λ (k : Node). k.next) was, tt),
      ),
    )

pub first-snoc :
    (xs : List ℕ) (z : ℕ) (ys : List ℕ)
    → first ((xs ++ (z ∷ [])) ++ ys) 0 ≡ first (xs ++ (z ∷ [])) 0
first-snoc [] z ys = refl
first-snoc (x ∷ xs) z ys = refl

pub some_head : (l : LinkedList) (xs : List ℕ) → IsList l xs → 0 < length xs → (l.head == 0) ≡ false
some_head l [] h lt = absurd (omega (arith, lt))
some_head l (x ∷ xs) h lt = ==-false l.head 0 (λ e. h.linked.1.0 (sym h.linked.0 ∙ e))

pub last_of :
    (l : LinkedList) (xs : List ℕ)
    → IsList l xs
    → 0 < length xs
    → (if l.tail == 0 then l.head else l.tail) ≡ get_or xs (length xs - 1) 0
last_of l [] h lt = absurd (omega (arith, lt))
last_of l (x ∷ xs) h lt = added_tail l x xs h

pub add_last-snoc :
    (new v : ℕ) (l : LinkedList) (xs : List ℕ) (z : ℕ)
    → IsList l (xs ++ (z ∷ []))
    → new ≢ 0
    → Without new (xs ++ (z ∷ []))
    → IsListOf
        (add_last new v l)
        ((xs ++ (z ∷ [])) ++ (new ∷ []))
        (items l.nodes (xs ++ (z ∷ [])) ++ (v ∷ []))
add_last-snoc new v l xs z h some apart =
    let ys = xs ++ (z ∷ []) in
    let long : 0 < length ys = omega (arith, length-append xs (z ∷ [])) in
    let (head, chain) = Linked-Chain l 0 l.head ys h.linked in
    let before : Without z xs =
      (All-split (λ y. y ≢ z) xs [] (Distinct-middle xs z [] h.distinct).0).0 in
    let g = added_last new v z l.nodes in
    let (same, at_new) =
      added_items new v l.nodes g ys
        (λ y.
          prev_to-SameItems new z (next_to z new (put new (fresh_node v) l.nodes)) y
          ∙ next_to-SameItems z new (put new (fresh_node v) l.nodes) y)
        apart in
    subst (λ m. IsListOf m (ys ++ (new ∷ [])) (items l.nodes ys ++ (v ∷ [])))
      (sym
        (add_last_facts new v z l (some_head l ys h long) (last_of l ys h long ∙ get_or-snoc xs z)))
      (
        Chain-IsList (record l { tail = new; size = l.size + 1; nodes = g }) (ys ++ (new ∷ []))
            (head ∙ sym (first-snoc xs z (new ∷ [])))
            (added_last-Chain new v z l.nodes xs chain some apart before)
            (Distinct-insert ys new [] (subst (λ l. Without new l) (sym (append-nil ys)) apart)
              (subst Distinct (sym (append-nil ys)) h.distinct))
            (omega (arith, h.counted, length-append ys (new ∷ [])))
            (inl (sym (get_or-snoc ys new))),
        items-append g ys (new ∷ []) ∙ ap₂ (λ a b. a ++ (b ∷ [])) same at_new,
      )
