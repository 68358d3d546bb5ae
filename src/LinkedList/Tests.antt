-- ===== src/LinkedList/Tests.antt =====
-- A list of two nodes.
use mathlib.Core.Path.{subst}
use esp_misc.Common.{
  ℕ, zero, suc, ◌+◌, ◌≢◌, sym, ap, ◌∙◌, List, none, some, length, ◌<◌, ◌≡◌, refl, [], ◌∷◌, ◌==◌,
  if◌then◌else◌, arith, inl,
}
use esp_misc.Common.Int.{pos, negsuc}
use esp_misc.LinkedList.{LinkedList, add, get_first}
use esp_misc.LinkedList.Calls.{call}
use esp_misc.LinkedList.Chain.{Without}
use esp_misc.LinkedList.Sequence.{
  ListOp, last_op, at_op, get_op, get_first_op, get_last_op, remove_op, remove_first_op,
  remove_last_op, act, act_all,
}
use esp_misc.LinkedList.Refine.{call_all, call_all_refines}
use esp_misc.LinkedList.Linked.{Linked, IsList}

abbrev two_nodes : LinkedList
two_nodes = record {
  head = 10;
  tail = 20;
  size = 2;
  nodes = λ a.
      if a == 10
      then record { item = 7; prev = 0; next = 20 }
      else record { item = 8; prev = 10; next = 0 };
  freed = [];
}

two_nodes-IsList : IsList two_nodes (10 ∷ 20 ∷ [])
two_nodes-IsList = record {
  linked = (refl, (omega arith, (refl, (refl, (omega arith, (refl, refl))))));
  distinct = ((omega arith, tt), (tt, tt));
  counted = refl;
  ended = inl refl;
}

-- An allocator: one more than the sum of the addresses in the list.
abbrev total : ℕ → ℕ → LinkedList → ℕ
total zero a l = 0
total (suc k) a l = a + total k (l.nodes a).next l

abbrev sum : List ℕ → ℕ
sum [] = 0
sum (x ∷ xs) = x + sum xs

abbrev malloc : LinkedList → ℕ
malloc l = suc (total l.size l.head l)

total-Linked :
    (l : LinkedList) (p a : ℕ) (xs : List ℕ) → Linked l p a xs → total (length xs) a l ≡ sum xs
total-Linked l p a [] h = refl
total-Linked l p a (x ∷ xs) (e, (some_x, (back, h))) =
    ap (λ b. b + total (length xs) (l.nodes b).next l) e
    ∙ ap (λ n. x + n) (total-Linked l x (l.nodes x).next xs h)

below_sum : (xs : List ℕ) (n : ℕ) → sum xs < n → Without n xs
below_sum [] n lt = tt
below_sum (x ∷ xs) n lt = (omega (arith, lt), below_sum xs n (omega (arith, lt)))

malloc_fresh : (l : LinkedList) (xs : List ℕ) → IsList l xs → (malloc l ≢ 0) × Without (malloc l) xs
malloc_fresh l xs h =
    let same : malloc l ≡ suc (sum xs) =
      ap (λ n. suc (total n l.head l)) h.counted ∙ ap suc (total-Linked l 0 l.head xs h.linked) in
    (omega arith, subst (λ n. Without n xs) (sym same) (below_sum xs (suc (sum xs)) (omega arith)))

abbrev calls : List ListOp
calls =
    last_op 9
    ∷ at_op 5 (pos 1)
    ∷ get_op (pos 1)
    ∷ get_op (negsuc 0)
    ∷ remove_op (pos 2)
    ∷ remove_first_op
    ∷ remove_last_op
    ∷ get_last_op
    ∷ remove_last_op
    ∷ remove_last_op
    ∷ remove_op (negsuc 4)
    ∷ []

call_all_refines_example :
    call_all malloc calls two_nodes
    ≡ some (
        none
        ∷ none
        ∷ some 5
        ∷ some 7
        ∷ some 8
        ∷ some 7
        ∷ some 9
        ∷ some 5
        ∷ some 5
        ∷ some 0
        ∷ some 0
        ∷ [])
unfolding act_all act
call_all_refines_example =
    call_all_refines malloc malloc_fresh calls two_nodes (10 ∷ 20 ∷ []) two_nodes-IsList

-- Adding in front of the first item crashes.
negative_add : call_all malloc (get_first_op ∷ at_op 5 (negsuc 0) ∷ []) two_nodes ≡ none
unfolding call_all call add get_first
negative_add = refl
