-- ===== src/CircBuf/Deque.antt =====
-- What a circular buffer promises: a bounded sequence of bytes, the oldest first. A call returns the
-- code's status, and the byte that the caller's variable holds afterwards.
use esp_misc.Common.{ℕ, ◌-◌, List, [], ◌∷◌, ◌++◌, ◌==◌, if◌then◌else◌, length}

abbrev pub Deque : Type 0
Deque = List ℕ

-- Append at the new end, refused at the capacity.
unfoldable pub put : ℕ → ℕ → Deque → ℕ × Deque
put cap x q = if length q == cap then (0, q) else (1, q ++ (x ∷ []))

-- Take from the old end; `old` is the byte in the variable before the call.
unfoldable pub get : ℕ → Deque → ℕ × ℕ × Deque
get old [] = (0, old, [])
get old (x ∷ q) = (1, x, q)

unfoldable pub peek : ℕ → Deque → ℕ × ℕ
peek old [] = (0, old)
peek old (x ∷ q) = (1, x)

-- The newest byte.
unfoldable pub last_or : ℕ → Deque → ℕ
last_or x [] = x
last_or x (y ∷ q) = last_or y q

unfoldable pub peek_last : ℕ → Deque → ℕ × ℕ
peek_last old [] = (0, old)
peek_last old (x ∷ q) = (1, last_or x q)

-- All but the newest byte.
unfoldable pub init_of : ℕ → Deque → Deque
init_of x [] = []
init_of x (y ∷ q) = x ∷ init_of y q

-- Take back the newest byte. The code answers 0 for success here.
unfoldable pub unput : Deque → ℕ × Deque
unput [] = (1, [])
unput (x ∷ q) = (0, init_of x q)

-- What a client can ask, with the variable that it reads bytes into kept fixed.
pub data Op : Type 0 where
  put_op : ℕ → Op
  get_op unput_op tail_op head_op clear_op space_op fill_op : Op

-- The status or number that a call returns, the variable and the sequence afterwards.
unfoldable pub step : ℕ → ℕ → Op → Deque → ℕ × ℕ × Deque
unfolding put get unput peek peek_last last_or init_of
step cap old (put_op x) q = let (status, r) = put cap x q in (status, old, r)
step cap old get_op q = get old q
step cap old unput_op q = let (status, r) = unput q in (status, old, r)
step cap old tail_op q = let (status, x) = peek old q in (status, x, q)
step cap old head_op q = let (status, x) = peek_last old q in (status, x, q)
step cap old clear_op q = (0, old, [])
step cap old space_op q = (cap - length q, old, q)
step cap old fill_op q = (length q, old, q)

unfoldable pub run : ℕ → ℕ → List Op → Deque → List (ℕ × ℕ)
run cap old [] q = []
run cap old (op ∷ ops) q = let (status, x, r) = step cap old op q in (status, x) ∷ run cap x ops r
