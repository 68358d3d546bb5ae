-- ===== src/LinkedList/Remove.antt =====
-- `list_remove_first`, `list_remove_last` and `list_remove` on a row of nodes.
use mathlib.Core.Path.{subst}
use mathlib.Core.List.{append_assoc, append-nil}
use esp_misc.Common.{
  ℕ, ◌+◌, ◌-◌, ◌≤◌, ◌≡◌, ◌≢◌, refl, sym, ◌∙◌, ap, Bool-cases, true, false, List, [], ◌∷◌, ◌++◌,
  length, length-append, get_or, ◌==◌, leb, if◌then◌else◌, arith, inl, inr, ◌⊎◌,
}
use esp_misc.LinkedList.{LinkedList, remove_first, remove_last, remove_pos, walk}
use esp_misc.LinkedList.Linked.{Distinct, IsList, last-IsList, walk-Linked}
use esp_misc.LinkedList.Chain.{
  next_to, prev_to, Chain, Without, Linked-Chain, last-snoc, Chain-split, Chain-join, Chain-put,
  Chain-next_to, Chain-prev_to, All-split, Distinct-middle, get_or-middle, get_or-snoc, get_or-last,
}
use esp_misc.LinkedList.Items.{
  items, items-append, SameItems, next_to-SameItems, prev_to-SameItems, items-SameItems,
  Chain-IsList, IsListOf,
}
use esp_misc.LinkedList.Insert.{first-snoc, some_head}

-- The item that was taken out, the list that is left, with its items, and the node that was freed.
abbrev pub Removed : LinkedList → ℕ → List ℕ → List ℕ → ℕ × LinkedList → Type 0
Removed l n xs vs r = (r.0 ≡ (l.nodes n).item) × (IsListOf r.1 xs vs × (r.1.freed ≡ n ∷ l.freed))

-- The only node.
remove_first_alone :
    (l : LinkedList)
    → (l.head == 0) ≡ false
    → ((l.nodes l.head).next == 0) ≡ true
    → leb (l.size - 1) 1 ≡ true
    → remove_first l ≡ (
      (l.nodes l.head).item,
      record l {
        head = (l.nodes l.head).next;
        size = l.size - 1;
        tail = 0;
        freed = l.head ∷ l.freed;
      },
    )
unfolding remove_first
remove_first_alone l e f g = rw (e, f, g)

pub remove_first-single :
    (l : LinkedList) (x : ℕ) → IsList l (x ∷ []) → Removed l x [] [] (remove_first l)
remove_first-single l x h =
    let next : (l.nodes l.head).next ≡ 0 = ap (λ a. (l.nodes a).next) h.linked.0 ∙ h.linked.1.1.1 in
    subst (λ r. Removed l x [] [] r)
      (sym (
        remove_first_alone l (some_head l (x ∷ []) h (omega arith)) (ap (λ a. a == 0) next)
          (ground (arith, h.counted))))
      (
        ap (λ a. (l.nodes a).item) h.linked.0,
        (
          (
            Chain-IsList
                (record l {
                  head = (l.nodes l.head).next;
                  size = l.size - 1;
                  tail = 0;
                  freed = l.head ∷ l.freed;
                })
                [] next tt tt (omega (arith, h.counted)) (inl refl),
            refl,
          ),
          ap (λ a. a ∷ l.freed) h.linked.0,
        ),
      )

remove_last_facts :
    (l : LinkedList) (b : ℕ)
    → (l.size == 0) ≡ false
    → (l.size == 1) ≡ false
    → (l.nodes l.tail).prev ≡ b
    → remove_last l ≡ (
      (l.nodes l.tail).item,
      record l {
        nodes = next_to b 0 l.nodes;
        size = l.size - 1;
        tail = if leb (l.size - 1) 1 then 0 else b;
        freed = l.tail ∷ l.freed;
      },
    )
unfolding remove_last
remove_last_facts l b e f before = rw (e, f, before)

-- The tail of a list of at least one node, as the code leaves it.
left_tail :
    (n t : ℕ) (xs : List ℕ)
    → n ≡ length xs
    → t ≡ get_or xs (length xs - 1) 0
    → ((if leb n 1 then 0 else t) ≡ get_or xs (length xs - 1) 0)
      ⊎ (((if leb n 1 then 0 else t) ≡ 0) × (length xs ≤ 1))
left_tail n t xs count e = elim (Bool-cases (leb n 1)) [
  | inl few ↦ inr (rw (few, if◌then◌else◌), ground (arith, few, count))
  | inr many ↦ inl (rw (many, if◌then◌else◌) e)
]

pub remove_last-snoc :
    (l : LinkedList) (xs : List ℕ) (b z : ℕ)
    → IsList l ((xs ++ (b ∷ [])) ++ (z ∷ []))
    → Removed l z (xs ++ (b ∷ [])) (items l.nodes (xs ++ (b ∷ []))) (remove_last l)
remove_last-snoc l xs b z h =
    let ys = xs ++ (b ∷ []) in
    let long : length ys ≡ length xs + 1 = omega (arith, length-append xs (b ∷ [])) in
    let count : l.size ≡ length xs + 2 =
      omega (arith, h.counted, length-append ys (z ∷ []), long) in
    let (head, chain) = Linked-Chain l 0 l.head (ys ++ (z ∷ [])) h.linked in
    let (left, right) = Chain-split l.nodes 0 ys (z ∷ []) 0 chain in
    let tail : l.tail ≡ z =
      last-IsList l (ys ++ (z ∷ [])) h (omega (arith, length-append ys (z ∷ []), long))
      ∙ get_or-snoc ys z in
    let distinct : Distinct ys =
      subst Distinct (append-nil ys) (Distinct-middle ys z [] h.distinct).1 in
    let apart : Without b xs =
      (All-split (λ y. y ≢ b) xs [] (Distinct-middle xs b [] distinct).0).0 in
    subst (λ r. Removed l z ys (items l.nodes ys) r)
      (sym (
        remove_last_facts l b (ground (arith, count)) (ground (arith, count))
          (ap (λ a. (l.nodes a).prev) tail ∙ right.1.0 ∙ last-snoc 0 xs b)))
      (
        ap (λ a. (l.nodes a).item) tail,
        (
          (
            Chain-IsList
                (record l {
                  nodes = next_to b 0 l.nodes;
                  size = l.size - 1;
                  tail = if leb (l.size - 1) 1 then 0 else b;
                  freed = l.tail ∷ l.freed;
                })
                ys (head ∙ first-snoc xs b (z ∷ [])) (Chain-next_to l.nodes b 0 0 xs z apart left)
                distinct (omega (arith, count, long))
                (left_tail (l.size - 1) b ys (omega (arith, count, long)) (sym (get_or-snoc xs b))),
            items-SameItems l.nodes (next_to b 0 l.nodes) ys (next_to-SameItems b 0 l.nodes),
          ),
          ap (λ a. a ∷ l.freed) tail,
        ),
      )

remove_facts :
    (position n b c : ℕ) (l : LinkedList)
    → (l.size == 0) ≡ false
    → leb l.size position ≡ false
    → (position == 0) ≡ false
    → (position + 1 == l.size) ≡ false
    → walk position l.head l ≡ n
    → (l.nodes n).prev ≡ b
    → (l.nodes n).next ≡ c
    → remove_pos position l ≡ (
      (l.nodes n).item,
      record l {
        nodes = prev_to c b (next_to b c l.nodes);
        size = l.size - 1;
        freed = n ∷ l.freed;
      },
    )
unfolding remove_pos
remove_facts position n b c l e f g k at before behind = rw (e, f, g, k, at, before, behind)

-- `list_remove` of the node `n` between the nodes `b` and `c`.
pub remove_pos-middle :
    (l : LinkedList) (xs : List ℕ) (b n c : ℕ) (cs : List ℕ)
    → IsList l ((xs ++ (b ∷ [])) ++ (n ∷ c ∷ cs))
    → Removed l n
        ((xs ++ (b ∷ [])) ++ (c ∷ cs))
        (items l.nodes (xs ++ (b ∷ [])) ++ items l.nodes (c ∷ cs))
        (remove_pos (length (xs ++ (b ∷ []))) l)
remove_pos-middle l xs b n c cs h =
    let ys = xs ++ (b ∷ []) in
    let f = l.nodes in
    let g = prev_to c b (next_to b c f) in
    let long : length ys ≡ length xs + 1 = omega (arith, length-append xs (b ∷ [])) in
    let count : l.size ≡ length xs + (3 + length cs) =
      omega (arith, h.counted, length-append ys (n ∷ c ∷ cs), long) in
    let (head, chain) = Linked-Chain l 0 l.head (ys ++ (n ∷ c ∷ cs)) h.linked in
    let (left, (some_n, (back_n, (on_n, right)))) = Chain-split f 0 ys (n ∷ c ∷ cs) 0 chain in
    let at : walk (length ys) l.head l ≡ n =
      walk-Linked (length ys) l 0 l.head (ys ++ (n ∷ c ∷ cs)) h.linked
        (omega (arith, length-append ys (n ∷ c ∷ cs)))
      ∙ get_or-middle ys n (c ∷ cs) in
    let (apart_n, distinct) = Distinct-middle ys n (c ∷ cs) h.distinct in
    let (apart_c, _) = Distinct-middle ys c cs distinct in
    let (apart_b, _) =
      Distinct-middle xs b (c ∷ cs) (subst Distinct (append_assoc xs (b ∷ []) (c ∷ cs)) distinct) in
    let (b_left, b_right) = All-split (λ y. y ≢ b) xs (c ∷ cs) apart_b in
    let (c_left, c_right) = All-split (λ y. y ≢ c) ys cs apart_c in
    let f1 = next_to b c f in
    let l1 = Chain-next_to f b c 0 xs n b_left left in
    let l2 = Chain-put f1 c (record (f1 c) { prev = b }) 0 ys c c_left l1 in
    let r1 = Chain-put f b (record (f b) { next = c }) n (c ∷ cs) 0 b_right right in
    let r2 = Chain-prev_to f1 c b n cs 0 c_right r1 in
    let same : SameItems f g = λ y. prev_to-SameItems c b f1 y ∙ next_to-SameItems b c f y in
    subst (λ r. Removed l n (ys ++ (c ∷ cs)) (items f ys ++ items f (c ∷ cs)) r)
      (sym (
        remove_facts (length ys) n b c l (ground (arith, count)) (ground (arith, count, long))
          (ground (arith, long)) (ground (arith, count, long)) at (back_n ∙ last-snoc 0 xs b) on_n))
      (
        refl,
        (
          (
            Chain-IsList (record l { nodes = g; size = l.size - 1; freed = n ∷ l.freed })
                (ys ++ (c ∷ cs))
                (head ∙ first-snoc xs b (n ∷ c ∷ cs) ∙ sym (first-snoc xs b (c ∷ cs)))
                (Chain-join g 0 ys (c ∷ cs) 0 l2
                  (subst (λ p. Chain g p (c ∷ cs) 0) (sym (last-snoc 0 xs b)) r2))
                distinct (omega (arith, count, length-append ys (c ∷ cs), long))
                (inl (
                  last-IsList l (ys ++ (n ∷ c ∷ cs)) h
                    (omega (arith, length-append ys (n ∷ c ∷ cs), long))
                  ∙ get_or-last ys n (c ∷ cs)
                  ∙ sym (get_or-last ys c cs))),
            items-SameItems f g (ys ++ (c ∷ cs)) same ∙ items-append f ys (c ∷ cs),
          ),
          refl,
        ),
      )
