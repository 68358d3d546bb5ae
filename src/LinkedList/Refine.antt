-- ===== src/LinkedList/Refine.antt =====
-- The list of nodes behaves as the sequence of its items.
use mathlib.Core.Path.{ap₂}
use esp_misc.Common.{ℕ, ◌≡◌, ◌≢◌, refl, ◌∙◌, ap, Option, none, some, List, [], ◌∷◌, ◌++◌}
use mathlib.Core.Option
use esp_misc.Common.Int.{pos, negsuc}
use esp_misc.LinkedList.{LinkedList, get, add, remove}
use esp_misc.LinkedList.Linked.{IsList}
use esp_misc.LinkedList.Chain.{Without}
use esp_misc.LinkedList.Items.{items}
use esp_misc.LinkedList.Whole.{add_first_any, add_last_any}
use esp_misc.LinkedList.Sequence.{
  ListOp, first_op, last_op, at_op, get_op, get_first_op, get_last_op, remove_op, remove_first_op,
  remove_last_op, act, act_rest, act_all,
}
use esp_misc.LinkedList.Calls.{
  call, Follows, get_Follows, get_negative, get_first_Follows, get_last_Follows,
}
use esp_misc.LinkedList.Changes.{
  at_Follows, at_negative, remove_Follows, remove_negative, remove_first_Follows,
  remove_last_Follows,
}

call_refines :
    (new : ℕ) (op : ListOp) (l : LinkedList) (xs : List ℕ)
    → IsList l xs
    → new ≢ 0
    → Without new xs
    → Follows (call new op l) (act op (items l.nodes xs))
unfolding call act get add remove
call_refines new (first_op v) l xs h fresh apart =
    (new ∷ xs, (add_first_any new v l xs h fresh apart, refl))
call_refines new (last_op v) l xs h fresh apart =
    (xs ++ (new ∷ []), (add_last_any new v l xs h fresh apart, refl))
call_refines new (at_op v (pos k)) l xs h fresh apart = at_Follows new v k l xs h fresh apart
call_refines new (at_op v (negsuc k)) l xs h fresh apart = at_negative new v k l xs h
call_refines new (get_op (pos k)) l xs h fresh apart =
    (xs, ((h, refl), ap some (get_Follows k l xs h)))
call_refines new (get_op (negsuc k)) l xs h fresh apart =
    (xs, ((h, refl), ap some (get_negative k l xs h)))
call_refines new get_first_op l xs h fresh apart =
    (xs, ((h, refl), ap some (get_first_Follows l xs h)))
call_refines new get_last_op l xs h fresh apart =
    (xs, ((h, refl), ap some (get_last_Follows l xs h)))
call_refines new (remove_op (pos k)) l xs h fresh apart = remove_Follows new k l xs h
call_refines new (remove_op (negsuc k)) l xs h fresh apart = remove_negative new k l xs h
call_refines new remove_first_op l xs h fresh apart = remove_first_Follows new l xs h
call_refines new remove_last_op l xs h fresh apart = remove_last_Follows new l xs h

-- The rest of a row of calls, after what the first did.
abbrev pub call_rest :
    Option (Option ℕ × LinkedList)
    → (LinkedList → Option (List (Option ℕ)))
    → Option (List (Option ℕ))
call_rest none rest = none
call_rest (some (result, l)) rest = Option.map (λ results. result ∷ results) (rest l)

-- What the calls return, in order; `none` when one of them dereferences NULL. `malloc` says what `os_malloc`
-- gives for a node.
unfoldable pub call_all :
    (malloc : LinkedList → ℕ) → List ListOp → LinkedList → Option (List (Option ℕ))
call_all malloc [] l = some []
call_all malloc (op ∷ ops) l = call_rest (call (malloc l) op l) (call_all malloc ops)

module _ (malloc : LinkedList → ℕ)
    (fresh : (l : LinkedList) (xs : List ℕ)
      → IsList l xs
      → (malloc l ≢ 0) × Without (malloc l) xs) where
  -- The rest of a row of calls, when the first follows the sequence.
  rest_refines :
      (r : Option (Option ℕ × LinkedList)) (s : Option (Option ℕ × List ℕ)) (ops : List ListOp)
      → Follows r s
      → ((l : LinkedList) (xs : List ℕ)
          → IsList l xs
          → call_all malloc ops l ≡ act_all ops (items l.nodes xs))
      → call_rest r (call_all malloc ops) ≡ act_rest s (act_all ops)
  rest_refines none none ops f h = refl
  rest_refines none (some s) ops f h = absurd f
  rest_refines (some r) none ops f h = absurd f
  rest_refines (some (result, l)) (some (item, vs)) ops (ys, ((list, kept), same)) h =
      ap₂ (λ a rest. Option.map (λ results. a ∷ results) rest) same
        (h l ys list ∙ ap (act_all ops) kept)

  -- As long as `os_malloc` gives an address that is not NULL and not that of a node of the list, any calls of
  -- `list_add_first`, `list_add_last`, `list_add`, `list_get`, `list_get_first`, `list_get_last`,
  -- `list_remove`, `list_remove_first` and `list_remove_last`, at positions that may be negative, return what
  -- they return on the sequence of the list's items, where a negative position reads the first item; and they
  -- dereference NULL just when `list_add` is called with a negative position, or `list_remove` on a
  -- sequence that is not empty.
  pub call_all_refines :
      (ops : List ListOp) (l : LinkedList) (xs : List ℕ)
      → IsList l xs
      → call_all malloc ops l ≡ act_all ops (items l.nodes xs)
  unfolding call_all act_all
  call_all_refines [] l xs h = refl
  call_all_refines (op ∷ ops) l xs h =
      let (some_new, apart) = fresh l xs h in
      rest_refines (call (malloc l) op l) (act op (items l.nodes xs)) ops
        (call_refines (malloc l) op l xs h some_new apart) (call_all_refines ops)
