-- ===== src/LinkedList.antt =====
-- linked_list.c: the doubly linked list. A node is at the address that `os_malloc` gave for it, an argument
-- `new` of what creates one; what `os_free` was given is recorded. Positions are C's `int`, and may be negative.
pub mod Calls
pub mod Chain
pub mod Changes
pub mod Insert
pub mod Items
pub mod Linked
pub mod Middle
pub mod Remove
pub mod Refine
pub mod Removed
pub mod Sequence
mod Tests
pub mod Whole
use esp_misc.Common.{
  ℕ, zero, suc, ◌+◌, ◌-◌, List, [], ◌∷◌, Bool, ◌||◌, Option, none, some, ltb, leb, ◌==◌,
  if◌then◌else◌,
}
use esp_misc.Common.Int.{ℤ, pos, negsuc}

-- `node`
pub record Node : Type 0 where
  pub item : ℕ
  pub prev : ℕ
  pub next : ℕ

-- `linked_list`, with the nodes by their addresses; 0 is NULL.
pub record LinkedList : Type 0 where
  pub head : ℕ
  pub tail : ℕ
  pub size : ℕ
  pub nodes : ℕ → Node
  pub freed : List ℕ

-- `*a = n`
abbrev pub put_node : ℕ → Node → LinkedList → LinkedList
put_node a n l = record l { nodes = λ b. if b == a then n else l.nodes b }

abbrev pub set_next : ℕ → ℕ → LinkedList → LinkedList
set_next a b l = put_node a (record (l.nodes a) { next = b }) l

abbrev pub set_prev : ℕ → ℕ → LinkedList → LinkedList
set_prev a b l = put_node a (record (l.nodes a) { prev = b }) l

-- `list_create_node`
abbrev pub create_node : (new item : ℕ) → LinkedList → LinkedList
create_node new v l = put_node new (record { item = v; prev = 0; next = 0 }) l

abbrev pub free_node : ℕ → LinkedList → LinkedList
free_node a l = record l { freed = a ∷ l.freed }

-- `list_add_first`
unfoldable pub add_first : (new item : ℕ) → LinkedList → LinkedList
add_first new v l =
    let m = create_node new v l in
    if l.head == 0
    then record m { head = new; size = l.size + 1 }
    else record (set_prev l.head new (set_next new l.head m)) {
      head = new;
      tail = if l.tail == 0 then l.head else l.tail;
      size = l.size + 1;
    }

-- `list_add_last`
unfoldable pub add_last : (new item : ℕ) → LinkedList → LinkedList
add_last new v l =
    let m = create_node new v l in
    let last = if l.tail == 0 then l.head else l.tail in
    if l.head == 0
    then record m { head = new; size = l.size + 1 }
    else record (set_prev new last (set_next last new m)) { tail = new; size = l.size + 1 }

-- The node `k` steps behind `a`.
unfoldable pub walk : ℕ → ℕ → LinkedList → ℕ
walk zero a l = a
walk (suc k) a l = walk k (l.nodes a).next l

-- `list_insert_before`
unfoldable pub insert_before : (n new : ℕ) → LinkedList → LinkedList
insert_before n new l =
    let before = (l.nodes n).prev in
    set_prev new before (set_next before new (set_next new n (set_prev n new l)))

-- `list_add` at a position that is not negative
unfoldable pub add_pos : (new item position : ℕ) → LinkedList → LinkedList
add_pos new v position l =
    if ltb l.size position
    then l
    else if position == 0
    then add_first new v l
    else if position == l.size
    then add_last new v l
    else record (insert_before (walk position l.head l) new (create_node new v l)) {
      size = l.size + 1;
    }

-- `list_add`. A negative position is none of those that are tested for, and the loop to the position ends
-- at the head at once: the new node is put in front of the head, behind the node that the head's `prev`
-- points at. `none`: NULL was dereferenced.
unfoldable pub add : (new item : ℕ) (position : ℤ) → LinkedList → Option LinkedList
add new v (pos k) l = some (add_pos new v k l)
add new v (negsuc k) l =
    if l.head == 0
    then none
    else if (l.nodes l.head).prev == 0
    then none
    else some (record (insert_before l.head new (create_node new v l)) { size = l.size + 1 })

-- `list_get_first`
unfoldable pub get_first : LinkedList → ℕ
get_first l = if l.size == 0 then 0 else (l.nodes l.head).item

-- `list_get_last`
unfoldable pub get_last : LinkedList → ℕ
get_last l = if l.size == 0 then 0 else if l.size == 1 then get_first l else (l.nodes l.tail).item

-- `list_get` at a position that is not negative
unfoldable pub get_pos : (position : ℕ) → LinkedList → ℕ
get_pos position l =
    if l.size == 0
    then 0
    else if leb l.size position
    then 0
    else if position == 0
    then get_first l
    else if position + 1 == l.size
    then get_last l
    else (l.nodes (walk position l.head l)).item

-- `list_get`. The loop to a negative position ends at the head.
unfoldable pub get : (position : ℤ) → LinkedList → ℕ
get (pos k) l = get_pos k l
get (negsuc k) l = if l.size == 0 then 0 else (l.nodes l.head).item

-- `list_remove_node`
unfoldable pub remove_node : (n : ℕ) → LinkedList → ℕ × LinkedList
remove_node n l =
    let before = (l.nodes n).prev in
    let behind = (l.nodes n).next in
    let m = if before == 0 then record l { head = behind } else set_next before behind l in
    let k = if behind == 0 then record m { tail = before } else set_prev behind before m in
    if l.size == 0 then (0, l) else ((k.nodes n).item, record (free_node n k) { size = l.size - 1 })

-- `list_remove_first`
unfoldable pub remove_first : LinkedList → ℕ × LinkedList
remove_first l =
    let behind = (l.nodes l.head).next in
    let m = record l { head = behind } in
    let k = if behind == 0 then m else set_prev behind 0 m in
    if l.head == 0 then (0, l) else (
      (l.nodes l.head).item,
      record (free_node l.head k) {
        size = l.size - 1;
        tail = if leb (l.size - 1) 1 then 0 else l.tail;
      },
    )

-- `list_remove_last`
unfoldable pub remove_last : LinkedList → ℕ × LinkedList
remove_last l =
    let before = (l.nodes l.tail).prev in
    if l.size == 0 then (0, l) else if l.size == 1 then remove_first l else (
      (l.nodes l.tail).item,
      record (free_node l.tail (set_next before 0 l)) {
        size = l.size - 1;
        tail = if leb (l.size - 1) 1 then 0 else before;
      },
    )

-- `list_remove` at a position that is not negative
unfoldable pub remove_pos : (position : ℕ) → LinkedList → ℕ × LinkedList
remove_pos position l =
    let n = walk position l.head l in
    let before = (l.nodes n).prev in
    let behind = (l.nodes n).next in
    if l.size == 0
    then (0, l)
    else if leb l.size position
    then (0, l)
    else if position == 0
    then remove_first l
    else if position + 1 == l.size
    then remove_last l
    else (
      (l.nodes n).item,
      record (free_node n (set_prev behind before (set_next before behind l))) {
        size = l.size - 1;
      },
    )

-- `list_remove`. At a negative position the head is to be unlinked from the nodes on both sides of it.
-- `none`: NULL was dereferenced.
unfoldable pub remove : (position : ℤ) → LinkedList → Option (ℕ × LinkedList)
remove (pos k) l = some (remove_pos k l)
remove (negsuc k) l =
    let n = l.head in
    let before = (l.nodes n).prev in
    let behind = (l.nodes n).next in
    if l.size == 0
    then some (0, l)
    else if (n == 0) || ((before == 0) || (behind == 0))
    then none
    else some (
      (l.nodes n).item,
      record (free_node n (set_prev behind before (set_next before behind l))) {
        size = l.size - 1;
      },
    )

-- `init_linked_list`
abbrev pub init_linked_list : LinkedList → LinkedList
init_linked_list l = record l { head = 0; tail = 0; size = 0 }
