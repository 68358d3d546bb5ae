-- ===== src/LinkedList/Middle.antt =====
-- `list_add` between two nodes.
use mathlib.Core.Path.{subst, ap₂}
use mathlib.Core.List.{append_assoc}
use esp_misc.Common.{
  ℕ, ◌+◌, ◌≡◌, ◌≢◌, sym, ◌∙◌, ap, false, List, [], ◌∷◌, ◌++◌, length, length-append, ◌==◌, ltb,
  arith, inl,
}
use esp_misc.LinkedList.{Node, LinkedList, insert_before, add_pos, walk}
use esp_misc.LinkedList.Linked.{Distinct, IsList, last-IsList, walk-Linked}
use esp_misc.LinkedList.Chain.{
  Nodes, put, next_to, prev_to, last, Chain, Without, Linked-Chain, put_same, put_other, last-snoc,
  Chain-split, Chain-join, Chain-put, Chain-next_to, Chain-prev_to, All-split, Distinct-middle,
  Distinct-insert, get_or-middle, get_or-last,
}
use esp_misc.LinkedList.Items.{
  items, items-append, SameItems, next_to-SameItems, prev_to-SameItems, Chain-IsList, IsListOf,
}
use esp_misc.LinkedList.Insert.{fresh_node, flip, added_items, first-snoc}

-- The nodes after `list_insert_before` of a new node before `n`, behind `b`.
abbrev inserted : (new v n b : ℕ) → Nodes → Nodes
inserted new v n b f =
    prev_to new b (next_to b new (next_to new n (prev_to n new (put new (fresh_node v) f))))

add_facts :
    (new v position n b : ℕ) (l : LinkedList)
    → ltb l.size position ≡ false
    → (position == 0) ≡ false
    → (position == l.size) ≡ false
    → walk position l.head l ≡ n
    → (put new (fresh_node v) l.nodes n).prev ≡ b
    → add_pos new v position l ≡ record l { size = l.size + 1; nodes = inserted new v n b l.nodes }
unfolding add_pos insert_before
add_facts new v position n b l e f g at before = rw (e, f, g, at, before)

inserted-Chain :
    (new v n b : ℕ) (f : Nodes) (xs ns : List ℕ)
    → Chain f 0 ((xs ++ (b ∷ [])) ++ (n ∷ ns)) 0
    → new ≢ 0
    → Without new ((xs ++ (b ∷ [])) ++ (n ∷ ns))
    → Without b (xs ++ (n ∷ ns))
    → Without n ((xs ++ (b ∷ [])) ++ ns)
    → Chain (inserted new v n b f) 0 ((xs ++ (b ∷ [])) ++ (new ∷ n ∷ ns)) 0
inserted-Chain new v n b f xs ns chain some apart apart_b apart_n =
    let ys = xs ++ (b ∷ []) in
    let f1 = put new (fresh_node v) f in
    let f2 = prev_to n new f1 in
    let f3 = next_to new n f2 in
    let f4 = next_to b new f3 in
    let g = inserted new v n b f in
    let (new_left, new_right) = All-split (λ y. y ≢ new) ys (n ∷ ns) apart in
    let (b_left, b_right) = All-split (λ y. y ≢ b) xs (n ∷ ns) apart_b in
    let (n_left, n_right) = All-split (λ y. y ≢ n) ys ns apart_n in
    let (left, right) = Chain-split f 0 ys (n ∷ ns) 0 chain in
    let new_b : new ≢ b = flip b new (All-split (λ y. y ≢ new) xs (b ∷ []) new_left).1.0 in
    let new_n : new ≢ n = flip n new new_right.0 in
    let l1 = Chain-put f new (fresh_node v) 0 ys n new_left left in
    let l2 = Chain-put f1 n (record (f1 n) { prev = new }) 0 ys n n_left l1 in
    let l3 = Chain-put f2 new (record (f2 new) { next = n }) 0 ys n new_left l2 in
    let l4 = Chain-next_to f3 b new 0 xs n b_left l3 in
    let l5 = Chain-put f4 new (record (f4 new) { prev = b }) 0 ys new new_left l4 in
    let r1 = Chain-put f new (fresh_node v) (last 0 ys) (n ∷ ns) 0 new_right right in
    let r2 = Chain-prev_to f1 n new (last 0 ys) ns 0 n_right r1 in
    let r3 = Chain-put f2 new (record (f2 new) { next = n }) new (n ∷ ns) 0 new_right r2 in
    let r4 = Chain-put f3 b (record (f3 b) { next = new }) new (n ∷ ns) 0 b_right r3 in
    let r5 = Chain-put f4 new (record (f4 new) { prev = b }) new (n ∷ ns) 0 new_right r4 in
    let now : g new ≡ record (f4 new) { prev = b } =
      put_same new (record (f4 new) { prev = b }) f4 in
    let was : (f4 new).next ≡ n =
      ap (λ (k : Node). k.next) (put_other b (record (f3 b) { next = new }) f3 new new_b)
      ∙ ap (λ (k : Node). k.next) (put_same new (record (f2 new) { next = n }) f2) in
    Chain-join g 0 ys (new ∷ n ∷ ns) 0 l5 (
      some,
      (
        ap (λ (k : Node). k.prev) now ∙ sym (last-snoc 0 xs b),
        (ap (λ (k : Node). k.next) now ∙ was, r5),
      ),
    )

-- `list_add` before the node `n`, which stands behind the node `b`.
pub add_pos-middle :
    (new v : ℕ) (l : LinkedList) (xs : List ℕ) (b n : ℕ) (ns : List ℕ)
    → IsList l ((xs ++ (b ∷ [])) ++ (n ∷ ns))
    → new ≢ 0
    → Without new ((xs ++ (b ∷ [])) ++ (n ∷ ns))
    → IsListOf
        (add_pos new v (length (xs ++ (b ∷ []))) l)
        ((xs ++ (b ∷ [])) ++ (new ∷ n ∷ ns))
        (items l.nodes (xs ++ (b ∷ [])) ++ (v ∷ items l.nodes (n ∷ ns)))
add_pos-middle new v l xs b n ns h some apart =
    let ys = xs ++ (b ∷ []) in
    let f = l.nodes in
    let f1 = put new (fresh_node v) f in
    let f2 = prev_to n new f1 in
    let f3 = next_to new n f2 in
    let g = inserted new v n b f in
    let count : l.size ≡ length xs + (2 + length ns) =
      omega (arith, h.counted, length-append ys (n ∷ ns), length-append xs (b ∷ [])) in
    let long : length ys ≡ length xs + 1 = omega (arith, length-append xs (b ∷ [])) in
    let (head, chain) = Linked-Chain l 0 l.head (ys ++ (n ∷ ns)) h.linked in
    let (apart_n, distinct_n) = Distinct-middle ys n ns h.distinct in
    let (apart_b, _) =
      Distinct-middle xs b (n ∷ ns)
        (subst Distinct (append_assoc xs (b ∷ []) (n ∷ ns)) h.distinct) in
    let (new_left, new_right) = All-split (λ y. y ≢ new) ys (n ∷ ns) apart in
    let before : (f1 n).prev ≡ b =
      ap (λ (k : Node). k.prev) (put_other new (fresh_node v) f n new_right.0)
      ∙ (Chain-split f 0 ys (n ∷ ns) 0 chain).1.1.0
      ∙ last-snoc 0 xs b in
    let at : walk (length ys) l.head l ≡ n =
      walk-Linked (length ys) l 0 l.head (ys ++ (n ∷ ns)) h.linked
        (omega (arith, length-append ys (n ∷ ns)))
      ∙ get_or-middle ys n ns in
    let same : SameItems f1 g = λ y.
      prev_to-SameItems new b (next_to b new f3) y
      ∙ next_to-SameItems b new f3 y
      ∙ next_to-SameItems new n f2 y
      ∙ prev_to-SameItems n new f1 y in
    let (items_left, at_new) = added_items new v f g ys same new_left in
    let (items_right, _) = added_items new v f g (n ∷ ns) same new_right in
    subst (λ m. IsListOf m (ys ++ (new ∷ n ∷ ns)) (items f ys ++ (v ∷ items f (n ∷ ns))))
      (sym (
        add_facts new v (length ys) n b l (ground (arith, count, long)) (ground (arith, long))
          (ground (arith, count, long)) at before))
      (
        Chain-IsList (record l { size = l.size + 1; nodes = g }) (ys ++ (new ∷ n ∷ ns))
            (head ∙ first-snoc xs b (n ∷ ns) ∙ sym (first-snoc xs b (new ∷ n ∷ ns)))
            (inserted-Chain new v n b f xs ns chain some apart apart_b apart_n)
            (Distinct-insert ys new (n ∷ ns) apart h.distinct)
            (omega (arith, h.counted, length-append ys (n ∷ ns), length-append ys (new ∷ n ∷ ns)))
            (inl (
              last-IsList l (ys ++ (n ∷ ns)) h (omega (arith, length-append ys (n ∷ ns), long))
              ∙ get_or-last ys n ns
              ∙ sym (get_or-last ys new (n ∷ ns)))),
        items-append g ys (new ∷ n ∷ ns)
            ∙ ap₂ (λ a c. a ++ c) items_left (ap₂ (λ a c. a ∷ c) at_new items_right),
      )
