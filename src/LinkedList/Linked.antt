-- ===== src/LinkedList/Linked.antt =====
-- The list as a row of nodes that point at each other.
use mathlib.Core.Path.{subst}
use esp_misc.Common.{
  ℕ, zero, suc, ◌+◌, ◌-◌, ◌<◌, ◌≤◌, ◌≡◌, ◌≢◌, refl, sym, ◌∙◌, ap, true, false, List, [], ◌∷◌, All,
  length, get_or, leb, ◌==◌, if◌then◌else◌, arith, Bool-cases, ◌⊎◌, inl, inr, ==-false, ==_self,
  eq_of_==,
}
use esp_misc.LinkedList.{Node, LinkedList, add_first, walk, get_first, get_last, get_pos}

-- From address `a` on, behind the node `p`, the nodes are those of the list.
abbrev pub Linked : LinkedList → ℕ → ℕ → List ℕ → Type 0
Linked l p a [] = a ≡ 0
Linked l p a (x ∷ xs) =
    (a ≡ x) × ((x ≢ 0) × (((l.nodes x).prev ≡ p) × Linked l x (l.nodes x).next xs))

abbrev pub Distinct : List ℕ → Type 0
Distinct [] = Unit
Distinct (x ∷ xs) = All (λ y. y ≢ x) xs × Distinct xs

-- The list has the nodes at these addresses, which are different, and its tail is the last, or NULL while
-- there is no second.
pub record IsList (l : LinkedList) (xs : List ℕ) : Type 0 where
  pub linked : Linked l 0 l.head xs
  pub distinct : Distinct xs
  pub counted : l.size ≡ length xs
  pub ended : (l.tail ≡ get_or xs (length xs - 1) 0) ⊎ ((l.tail ≡ 0) × (length xs ≤ 1))

pub walk-Linked :
    (k : ℕ) (l : LinkedList) (p a : ℕ) (xs : List ℕ)
    → Linked l p a xs
    → k < length xs
    → walk k a l ≡ get_or xs k 0
unfolding walk
walk-Linked k l p a [] h lt = absurd (omega arith)
walk-Linked zero l p a (x ∷ xs) (e, _) lt = e
walk-Linked (suc k) l p a (x ∷ xs) (e, (_, (_, h))) lt =
    ap (λ b. walk k (l.nodes b).next l) e ∙ walk-Linked k l x (l.nodes x).next xs h (omega arith)

pub head-Linked :
    (l : LinkedList) (p a : ℕ) (xs : List ℕ) → Linked l p a xs → 0 < length xs → a ≡ get_or xs 0 0
unfolding walk
head-Linked l p a xs h lt = walk-Linked 0 l p a xs h lt

pub last-IsList :
    (l : LinkedList) (xs : List ℕ)
    → IsList l xs
    → 1 < length xs
    → l.tail ≡ get_or xs (length xs - 1) 0
last-IsList l xs h more = elim h.ended [ inl e ↦ e | inr (e, few) ↦ absurd (omega arith) ]

pub some-Linked :
    (k : ℕ) (l : LinkedList) (p a : ℕ) (xs : List ℕ)
    → Linked l p a xs
    → k < length xs
    → get_or xs k 0 ≢ 0
some-Linked k l p a [] h lt = absurd (omega arith)
some-Linked zero l p a (x ∷ xs) (e, (some, _)) lt = some
some-Linked (suc k) l p a (x ∷ xs) (e, (_, (_, h))) lt =
    some-Linked k l x (l.nodes x).next xs h (omega arith)

module _ (position : ℕ) (l : LinkedList) where
  abbrev pub Found : ℕ → Type 0
  Found a = get_pos position l ≡ (l.nodes a).item

  get_front :
      (l.size == 0) ≡ false → leb l.size position ≡ false → (position == 0) ≡ true → Found l.head
  unfolding get_pos get_first
  get_front e f g = rw (e, f, g)

  get_back :
      (l.size == 0) ≡ false
      → leb l.size position ≡ false
      → (position == 0) ≡ false
      → (position + 1 == l.size) ≡ true
      → (l.size == 1) ≡ false
      → Found l.tail
  unfolding get_pos get_last
  get_back e f g h k = rw (e, f, g, h, k)

  get_middle :
      (l.size == 0) ≡ false
      → leb l.size position ≡ false
      → (position == 0) ≡ false
      → (position + 1 == l.size) ≡ false
      → Found (walk position l.head l)
  unfolding get_pos
  get_middle e f g h = rw (e, f, g, h)

  get_beyond : (l.size == 0) ≡ false → leb l.size position ≡ true → get_pos position l ≡ 0
  unfolding get_pos
  get_beyond e f = rw (e, f)

  get_empty : (l.size == 0) ≡ true → get_pos position l ≡ 0
  unfolding get_pos
  get_empty e = rw e

  get_inside : (xs : List ℕ) → IsList l xs → position < length xs → Found (get_or xs position 0)
  get_inside xs h lt =
      let count : l.size ≡ length xs = h.counted in
      let e : (l.size == 0) ≡ false = ground arith in
      let f : leb l.size position ≡ false = ground arith in
      elim (Bool-cases (position == 0)) [
        | inl g ↦
            get_front e f g
            ∙ ap (λ a. (l.nodes a).item)
                (head-Linked l 0 l.head xs h.linked (omega arith)
                  ∙ ap (λ n. get_or xs n 0) (sym (eq_of_== position 0 g)))
        | inr g ↦ elim (Bool-cases (position + 1 == l.size)) [
          | inl k ↦
              (let last : position + 1 ≡ l.size = eq_of_== (position + 1) l.size k in
                let some : position ≢ 0 = ground arith in
                get_back e f g k (ground arith)
                ∙ ap (λ a. (l.nodes a).item)
                    (last-IsList l xs h (omega arith) ∙ ap (λ n. get_or xs n 0) (omega arith)))
          | inr k ↦
              get_middle e f g k
              ∙ ap (λ a. (l.nodes a).item) (walk-Linked position l 0 l.head xs h.linked lt)
        ]
      ]

-- On a list of nodes, `list_get` returns the item of the node at the position, by whichever of its three
-- ways, and NULL from the end on.
pub get_lem :
    (position : ℕ) (l : LinkedList) (xs : List ℕ)
    → IsList l xs
    → (position < length xs → get_pos position l ≡ (l.nodes (get_or xs position 0)).item)
      × (length xs ≤ position → get_pos position l ≡ 0)
get_lem position l xs h =
    let count : l.size ≡ length xs = h.counted in
    (
      get_inside position l xs h,
      λ le. elim (Bool-cases (l.size == 0)) [
        | inl e ↦ get_empty position l e
        | inr e ↦ get_beyond position l e (ground arith)
      ],
    )

pub put_Linked :
    (l m : LinkedList) (p a : ℕ) (xs : List ℕ)
    → Linked l p a xs
    → All (λ x. m.nodes x ≡ l.nodes x) xs
    → Linked m p a xs
put_Linked l m p a [] h same = h
put_Linked l m p a (x ∷ xs) (e, (some, (back, h))) (e2, same) = (
  e,
  (
    some,
    (
      ap (λ (n : Node). n.prev) e2 ∙ back,
      subst (λ b. Linked m x b xs) (ap (λ (n : Node). n.next) (sym e2))
          (put_Linked l m x (l.nodes x).next xs h same),
    ),
  ),
)

module _ (new v : ℕ) (l : LinkedList) where
  added_new :
      (l.head == 0) ≡ false
      → (new == l.head) ≡ false
      → (add_first new v l).nodes new ≡ record { item = v; prev = 0; next = l.head }
  unfolding add_first
  added_new e f = rw (e, f, ==_self new)

  added_head :
      (l.head == 0) ≡ false
      → (l.head == new) ≡ false
      → (add_first new v l).nodes l.head ≡ record (l.nodes l.head) { prev = new }
  unfolding add_first
  added_head e f = rw (e, f, ==_self l.head)

  added_other :
      (y : ℕ)
      → (l.head == 0) ≡ false
      → (y == l.head) ≡ false
      → (y == new) ≡ false
      → (add_first new v l).nodes y ≡ l.nodes y
  unfolding add_first
  added_other y e f g = rw (e, f, g)

  added_others :
      (xs : List ℕ)
      → (l.head == 0) ≡ false
      → All (λ y. y ≢ l.head) xs
      → All (λ y. y ≢ new) xs
      → All (λ y. (add_first new v l).nodes y ≡ l.nodes y) xs
  added_others [] e f g = tt
  added_others (y ∷ ys) e (f, fs) (g, gs) =
      (added_other y e (==-false y l.head f) (==-false y new g), added_others ys e fs gs)

  added_front :
      (l.head == 0) ≡ false
      → ((add_first new v l).head ≡ new)
        × (((add_first new v l).size ≡ l.size + 1)
            × ((add_first new v l).tail ≡ (if l.tail == 0 then l.head else l.tail)))
  unfolding add_first
  added_front e = rw e (refl, (refl, refl))

pub items_same :
    (l m : LinkedList) (xs : List ℕ)
    → All (λ y. m.nodes y ≡ l.nodes y) xs
    → All (λ y. (m.nodes y).item ≡ (l.nodes y).item) xs
items_same l m [] same = tt
items_same l m (x ∷ xs) (e, same) = (ap (λ (n : Node). n.item) e, items_same l m xs same)

pub added_tail :
    (l : LinkedList) (x : ℕ) (xs : List ℕ)
    → IsList l (x ∷ xs)
    → (if l.tail == 0 then l.head else l.tail) ≡ get_or (x ∷ xs) (length (x ∷ xs) - 1) 0
added_tail l x xs h = elim h.ended [
  | inl e ↦
      ap (λ b. if b then l.head else l.tail)
        (==-false l.tail 0 (λ z.
          some-Linked (length (x ∷ xs) - 1) l 0 l.head (x ∷ xs) h.linked (omega arith) (sym e ∙ z)))
      ∙ e
  | inr (e, few) ↦
      ap (λ b. if b then l.head else l.tail) (ap (λ n. n == 0) e)
      ∙ h.linked.0
      ∙ ap (λ k. get_or (x ∷ xs) k 0) (let z : 0 ≡ length (x ∷ xs) - 1 = omega arith in z)
]

behind_front :
    (new n : ℕ) (ys : List ℕ) → get_or ys (suc n - 1) 0 ≡ get_or (new ∷ ys) (suc (suc n) - 1) 0
behind_front new n ys =
    ap (λ k. get_or ys k 0) (let e : suc n - 1 ≡ n = omega arith in e)
    ∙ ap (λ k. get_or (new ∷ ys) k 0) (let e : suc n ≡ suc (suc n) - 1 = omega arith in e)

-- `list_add_first` of a new node puts it in front of a list that has nodes, with the item, and leaves the
-- items of the others as they were.
pub add_first_lem :
    (new v : ℕ) (l : LinkedList) (x : ℕ) (xs : List ℕ)
    → IsList l (x ∷ xs)
    → new ≢ 0
    → All (λ y. y ≢ new) (x ∷ xs)
    → IsList (add_first new v l) (new ∷ x ∷ xs)
      × ((((add_first new v l).nodes new).item ≡ v)
          × All (λ y. ((add_first new v l).nodes y).item ≡ (l.nodes y).item) (x ∷ xs))
add_first_lem new v l x xs h some apart =
    let first : l.head ≡ x = h.linked.0 in
    let e : (l.head == 0) ≡ false =
      ==-false l.head 0 (subst (λ a. a ≢ 0) (sym first) h.linked.1.0) in
    let f : (l.head == new) ≡ false =
      ==-false l.head new (subst (λ a. a ≢ new) (sym first) apart.0) in
    let g : (new == l.head) ≡ false =
      ==-false new l.head (λ k. subst (λ a. a ≢ new) (sym first) apart.0 (sym k)) in
    let at_new : (add_first new v l).nodes new ≡ record { item = v; prev = 0; next = l.head } =
      added_new new v l e g in
    let at_head : (add_first new v l).nodes x ≡ record (l.nodes x) { prev = new } =
      subst (λ a. (add_first new v l).nodes a ≡ record (l.nodes a) { prev = new }) first
        (added_head new v l e f) in
    let others : All (λ y. (add_first new v l).nodes y ≡ l.nodes y) xs =
      added_others new v l xs e (subst (λ a. All (λ y. y ≢ a) xs) (sym first) h.distinct.0)
        apart.1 in
    let (front, (size, tail)) = added_front new v l e in
    (
      record {
        linked = (
          front,
          (
            some,
            (
              ap (λ (n : Node). n.prev) at_new,
              (
                ap (λ (n : Node). n.next) at_new ∙ first,
                (
                  h.linked.1.0,
                  (
                    ap (λ (n : Node). n.prev) at_head,
                    subst (λ b. Linked (add_first new v l) x b xs)
                        (ap (λ (n : Node). n.next) (sym at_head))
                        (put_Linked l (add_first new v l) x (l.nodes x).next xs h.linked.1.1.1
                          others),
                  ),
                ),
              ),
            ),
          ),
        );
        distinct = (apart, h.distinct);
        counted = size ∙ ap (λ n. n + 1) h.counted ∙ omega arith;
        ended = inl (tail ∙ added_tail l x xs h ∙ behind_front new (length xs) (x ∷ xs));
      },
      (
        ap (λ (n : Node). n.item) at_new,
        (ap (λ (n : Node). n.item) at_head, items_same l (add_first new v l) xs others),
      ),
    )
