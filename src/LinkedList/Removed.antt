-- ===== src/LinkedList/Removed.antt =====
-- Taking the first node out of a list.
use mathlib.Core.Path.{subst}
use esp_misc.Common.{
  ℕ, suc, ◌-◌, ◌≤◌, ◌≡◌, ◌≢◌, ◌⊎◌, refl, sym, ◌∙◌, ap, false, List, [], ◌∷◌, All, length, get_or,
  leb, ◌==◌, if◌then◌else◌, arith, Bool-cases, inl, inr, ==-false, ==_self,
}
use esp_misc.LinkedList.{Node, LinkedList, remove_first}
use esp_misc.LinkedList.Linked.{Linked, IsList, put_Linked, items_same, last-IsList}

module _ (l : LinkedList) (y : ℕ) (e : (l.head == 0) ≡ false) (n : (l.nodes l.head).next ≡ y)
    (f : (y == 0) ≡ false) where
  removed_next : (remove_first l).1.nodes y ≡ record (l.nodes y) { prev = 0 }
  unfolding remove_first
  removed_next = rw (e, n, f, ==_self y)

  removed_other : (z : ℕ) → (z == y) ≡ false → (remove_first l).1.nodes z ≡ l.nodes z
  unfolding remove_first
  removed_other z g = rw (e, n, f, g)

  removed_others :
      (xs : List ℕ) → All (λ z. z ≢ y) xs → All (λ z. (remove_first l).1.nodes z ≡ l.nodes z) xs
  removed_others [] g = tt
  removed_others (z ∷ zs) (g, gs) = (removed_other z (==-false z y g), removed_others zs gs)

  removed_front :
      ((remove_first l).0 ≡ (l.nodes l.head).item)
      × (((remove_first l).1.head ≡ y)
          × (((remove_first l).1.size ≡ l.size - 1)
              × (((remove_first l).1.tail ≡ (if leb (l.size - 1) 1 then 0 else l.tail))
                  × ((remove_first l).1.freed ≡ l.head ∷ l.freed))))
  unfolding remove_first
  removed_front = rw (e, n, f) (refl, (refl, (refl, (refl, refl))))

removed_tail :
    (l : LinkedList) (x y : ℕ) (ys : List ℕ)
    → IsList l (x ∷ y ∷ ys)
    → ((if leb (l.size - 1) 1 then 0 else l.tail) ≡ get_or (y ∷ ys) (length (y ∷ ys) - 1) 0)
      ⊎ (((if leb (l.size - 1) 1 then 0 else l.tail) ≡ 0) × (length (y ∷ ys) ≤ 1))
removed_tail l x y ys h =
    let count : l.size ≡ suc (suc (length ys)) = h.counted in
    elim (Bool-cases (leb (l.size - 1) 1)) [
      | inl few ↦ inr (
        ap (λ b. if b then 0 else l.tail) few,
        (let le : suc (length ys) ≤ 1 = ground arith in le),
      )
      | inr more ↦ inl (
          ap (λ b. if b then 0 else l.tail) more
          ∙ last-IsList l (x ∷ y ∷ ys) h (omega arith)
          ∙ ap (λ k. get_or (x ∷ y ∷ ys) k 0)
              (let k : suc (suc (length ys)) - 1 ≡ suc (length ys) = omega arith in k)
          ∙ ap (λ k. get_or (y ∷ ys) k 0)
              (let k : length ys ≡ suc (length ys) - 1 = omega arith in k))
    ]

-- `list_remove_first` on a list of at least two nodes returns the item of the first, frees its node, and
-- leaves the list of the others with their items.
pub remove_first_lem :
    (l : LinkedList) (x y : ℕ) (ys : List ℕ)
    → IsList l (x ∷ y ∷ ys)
    → let (item, after) = remove_first l in
      (item ≡ (l.nodes x).item)
      × (IsList after (y ∷ ys)
          × ((after.freed ≡ x ∷ l.freed)
              × All (λ z. (after.nodes z).item ≡ (l.nodes z).item) (y ∷ ys)))
remove_first_lem l x y ys h =
    let first : l.head ≡ x = h.linked.0 in
    let e : (l.head == 0) ≡ false =
      ==-false l.head 0 (subst (λ a. a ≢ 0) (sym first) h.linked.1.0) in
    let n : (l.nodes l.head).next ≡ y = ap (λ a. (l.nodes a).next) first ∙ h.linked.1.1.1.0 in
    let f : (y == 0) ≡ false = ==-false y 0 h.linked.1.1.1.1.0 in
    let at_next : (remove_first l).1.nodes y ≡ record (l.nodes y) { prev = 0 } =
      removed_next l y e n f in
    let others : All (λ z. (remove_first l).1.nodes z ≡ l.nodes z) ys =
      removed_others l y e n f ys h.distinct.1.0 in
    let (item, (head, (size, (tail, freed)))) = removed_front l y e n f in
    (
      item ∙ ap (λ a. (l.nodes a).item) first,
      (
        record {
          linked = (
            head,
            (
              h.linked.1.1.1.1.0,
              (
                ap (λ (k : Node). k.prev) at_next,
                subst (λ b. Linked (remove_first l).1 y b ys)
                    (ap (λ (k : Node). k.next) (sym at_next))
                    (put_Linked l (remove_first l).1 y (l.nodes y).next ys h.linked.1.1.1.1.1.1
                      others),
              ),
            ),
          );
          distinct = h.distinct.1;
          counted =
              size
              ∙ ap (λ k. k - 1) h.counted
              ∙ (let k : suc (suc (length ys)) - 1 ≡ suc (length ys) = omega arith in k);
          ended =
              subst
                (λ t.
                  (t ≡ get_or (y ∷ ys) (length (y ∷ ys) - 1) 0) ⊎ ((t ≡ 0) × (length (y ∷ ys) ≤ 1)))
                (sym tail) (removed_tail l x y ys h);
        },
        (
          freed ∙ ap (λ a. a ∷ l.freed) first,
          (ap (λ (k : Node). k.item) at_next, items_same l (remove_first l).1 ys others),
        ),
      ),
    )
