-- ===== src/LinkedList/Calls.antt =====
-- The calls on a list of nodes, and what those that only read return.
use esp_misc.Common.{
  ℕ, zero, suc, ◌-◌, ◌<◌, ◌≡◌, refl, sym, ◌∙◌, ap, true, false, Option, none, some, List, [], ◌∷◌,
  length, get_or, ◌==◌, arith, ==-false, inl, inr, order_cases, get_or_all,
}
use mathlib.Core.Option
use esp_misc.LinkedList.{
  LinkedList, add_first, add_last, add, get, get_pos, get_first, get_last, remove_first,
  remove_last, remove,
}
use esp_misc.Common.Int.{negsuc}
use esp_misc.LinkedList.Linked.{IsList, get_lem, last-IsList}
use esp_misc.LinkedList.Items.{items, length-items, IsListOf}
use esp_misc.LinkedList.Sequence.{
  ListOp, first_op, last_op, at_op, get_op, get_first_op, get_last_op, remove_op, remove_first_op,
  remove_last_op,
}

-- A call on the list of nodes; `new` is the address that `os_malloc` gives for a new node. `none`: the call
-- dereferences NULL.
unfoldable pub call : (new : ℕ) → ListOp → LinkedList → Option (Option ℕ × LinkedList)
call new (first_op v) l = some (none, add_first new v l)
call new (last_op v) l = some (none, add_last new v l)
call new (at_op v position) l = Option.map (λ m. (none, m)) (add new v position l)
call new (get_op position) l = some (some (get position l), l)
call new get_first_op l = some (some (get_first l), l)
call new get_last_op l = some (some (get_last l), l)
call new (remove_op position) l = Option.map (λ p. (some p.0, p.1)) (remove position l)
call new remove_first_op l = let (item, m) = remove_first l in some (some item, m)
call new remove_last_op l = let (item, m) = remove_last l in some (some item, m)

-- A call returns what the sequence returns, and leaves a list of the sequence that is left, or both crash.
abbrev pub Follows : Option (Option ℕ × LinkedList) → Option (Option ℕ × List ℕ) → Type 0
Follows none none = Unit
Follows none (some s) = ⊥
Follows (some r) none = ⊥
Follows (some r) (some s) = (ys : List ℕ) × (IsListOf r.1 ys s.1 × (r.0 ≡ s.0))

get_or-items :
    (l : LinkedList) (xs : List ℕ) (k : ℕ)
    → k < length xs
    → get_or (items l.nodes xs) k 0 ≡ (l.nodes (get_or xs k 0)).item
get_or-items l [] k lt = absurd (omega (arith, lt))
get_or-items l (x ∷ xs) zero lt = refl
get_or-items l (x ∷ xs) (suc k) lt = get_or-items l xs k (omega (arith, lt))

pub get_Follows :
    (position : ℕ) (l : LinkedList) (xs : List ℕ)
    → IsList l xs
    → get_pos position l ≡ get_or (items l.nodes xs) position 0
get_Follows position l xs h = elim (order_cases position (length xs)) [
  | inl lt ↦ (get_lem position l xs h).0 lt ∙ sym (get_or-items l xs position lt)
  | inr le ↦
      (get_lem position l xs h).1 le
      ∙ sym (get_or_all position (items l.nodes xs) 0 (omega (arith, le, length-items l.nodes xs)))
]

pub get_first_Follows :
    (l : LinkedList) (xs : List ℕ) → IsList l xs → get_first l ≡ get_or (items l.nodes xs) 0 0
unfolding get_first
get_first_Follows l [] h = rw h.counted
get_first_Follows l (x ∷ xs) h =
    rw (h.counted, ==-false (suc (length xs)) 0 (omega arith))
      (ap (λ a. (l.nodes a).item) h.linked.0)

get_last_one :
    (l : LinkedList) → (l.size == 0) ≡ false → (l.size == 1) ≡ true → get_last l ≡ get_first l
unfolding get_last
get_last_one l e f = rw (e, f)

get_last_more :
    (l : LinkedList)
    → (l.size == 0) ≡ false
    → (l.size == 1) ≡ false
    → get_last l ≡ (l.nodes l.tail).item
unfolding get_last
get_last_more l e f = rw (e, f)

pub get_last_Follows :
    (l : LinkedList) (xs : List ℕ)
    → IsList l xs
    → get_last l ≡ get_or (items l.nodes xs) (length (items l.nodes xs) - 1) 0
unfolding get_last
get_last_Follows l [] h = rw h.counted
get_last_Follows l (x ∷ []) h =
    get_last_one l (ap (λ n. n == 0) h.counted) (ap (λ n. n == 1) h.counted)
    ∙ get_first_Follows l (x ∷ []) h
get_last_Follows l (x ∷ y ∷ ys) h =
    let xs = x ∷ y ∷ ys in
    let count : l.size ≡ suc (suc (length ys)) = h.counted in
    get_last_more l (ground (arith, count)) (ground (arith, count))
    ∙ ap (λ a. (l.nodes a).item) (last-IsList l xs h (omega arith))
    ∙ sym (get_or-items l xs (length xs - 1) (omega arith))
    ∙ ap (λ n. get_or (items l.nodes xs) (n - 1) 0) (sym (length-items l.nodes xs))

-- A negative position to read from.
pub get_negative :
    (k : ℕ) (l : LinkedList) (xs : List ℕ)
    → IsList l xs
    → get (negsuc k) l ≡ get_or (items l.nodes xs) 0 0
unfolding get
get_negative k l [] h = rw h.counted
get_negative k l (x ∷ xs) h =
    rw (h.counted, ==-false (suc (length xs)) 0 (omega arith))
      (ap (λ a. (l.nodes a).item) h.linked.0)
