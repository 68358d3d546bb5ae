-- ===== src/LinkedList/Sequence.antt =====
-- What a list promises: a sequence of items, without addresses.
use esp_misc.Common.{
  ℕ, suc, ◌-◌, Option, none, some, List, [], ◌∷◌, ◌++◌, length, get_or, take, drop, ltb,
  if◌then◌else◌,
}
use mathlib.Core.Option
use esp_misc.Common.Int.{ℤ, pos, negsuc}

-- A call of the list's functions.
pub data ListOp : Type 0 where
  first_op last_op : (item : ℕ) → ListOp
  at_op : (item : ℕ) (position : ℤ) → ListOp
  get_op : (position : ℤ) → ListOp
  get_first_op get_last_op : ListOp
  remove_op : (position : ℤ) → ListOp
  remove_first_op remove_last_op : ListOp

-- The item that a call returns, and the sequence after it; `none` when the call crashes, which adding and
-- removing do at a negative position. A negative position to read from is that of the first item.
unfoldable pub act : ListOp → List ℕ → Option (Option ℕ × List ℕ)
act (first_op v) vs = some (none, v ∷ vs)
act (last_op v) vs = some (none, vs ++ (v ∷ []))
act (at_op v (pos k)) vs =
    some (none, if ltb (length vs) k then vs else take k vs ++ (v ∷ drop k vs))
act (at_op v (negsuc k)) vs = none
act (get_op (pos k)) vs = some (some (get_or vs k 0), vs)
act (get_op (negsuc k)) vs = some (some (get_or vs 0 0), vs)
act get_first_op vs = some (some (get_or vs 0 0), vs)
act get_last_op vs = some (some (get_or vs (length vs - 1) 0), vs)
act (remove_op (pos k)) vs = some (some (get_or vs k 0), take k vs ++ drop (suc k) vs)
act (remove_op (negsuc k)) [] = some (some 0, [])
act (remove_op (negsuc k)) (v ∷ vs) = none
act remove_first_op vs = some (some (get_or vs 0 0), drop 1 vs)
act remove_last_op vs = some (some (get_or vs (length vs - 1) 0), take (length vs - 1) vs)

-- The rest of a row of calls, after what the first did.
abbrev pub act_rest :
    Option (Option ℕ × List ℕ) → (List ℕ → Option (List (Option ℕ))) → Option (List (Option ℕ))
act_rest none rest = none
act_rest (some (result, vs)) rest = Option.map (λ results. result ∷ results) (rest vs)

-- What the calls return, in order; `none` when one of them crashes.
unfoldable pub act_all : List ListOp → List ℕ → Option (List (Option ℕ))
act_all [] vs = some []
act_all (op ∷ ops) vs = act_rest (act op vs) (act_all ops)
