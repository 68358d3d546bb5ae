-- ===== src/LinkedList/Items.antt =====
-- The items of a row of nodes, and what leaves them as they are.
use mathlib.Core.Path.{ap₂}
use mathlib.Core.List.{map}
use esp_misc.Common.{
  ℕ, suc, ◌-◌, ◌≤◌, ◌≡◌, refl, sym, ap, Bool-cases, List, [], ◌∷◌, ◌++◌, length, get_or, ◌==◌,
  if◌then◌else◌, eq_of_==, inl, inr, ◌⊎◌,
}
use esp_misc.LinkedList.{Node, LinkedList}
use esp_misc.LinkedList.Linked.{Distinct, IsList}
use esp_misc.LinkedList.Chain.{
  Nodes, put, next_to, prev_to, first, Chain, Without, Chain-Linked, put_other,
}

abbrev pub items : Nodes → List ℕ → List ℕ
items f xs = map (λ x. (f x).item) xs

pub items-append : (f : Nodes) (xs ys : List ℕ) → items f (xs ++ ys) ≡ items f xs ++ items f ys
items-append f [] ys = refl
items-append f (x ∷ xs) ys = ap (λ l. (f x).item ∷ l) (items-append f xs ys)

pub length-items : (f : Nodes) (xs : List ℕ) → length (items f xs) ≡ length xs
length-items f [] = refl
length-items f (x ∷ xs) = ap suc (length-items f xs)

-- The two have the same items everywhere.
abbrev pub SameItems : Nodes → Nodes → Type 0
SameItems f g = (y : ℕ) → (g y).item ≡ (f y).item

pub next_to-SameItems : (a b : ℕ) (f : Nodes) → SameItems f (next_to a b f)
next_to-SameItems a b f y = elim (Bool-cases (y == a)) [
  | inl e ↦ rw (e, if◌then◌else◌) (ap (λ k. (f k).item) (sym (eq_of_== y a e)))
  | inr e ↦ rw (e, if◌then◌else◌)
]

pub prev_to-SameItems : (a b : ℕ) (f : Nodes) → SameItems f (prev_to a b f)
prev_to-SameItems a b f y = elim (Bool-cases (y == a)) [
  | inl e ↦ rw (e, if◌then◌else◌) (ap (λ k. (f k).item) (sym (eq_of_== y a e)))
  | inr e ↦ rw (e, if◌then◌else◌)
]

pub items-SameItems : (f g : Nodes) (xs : List ℕ) → SameItems f g → items g xs ≡ items f xs
items-SameItems f g [] same = refl
items-SameItems f g (x ∷ xs) same = ap₂ (λ a b. a ∷ b) (same x) (items-SameItems f g xs same)

pub items-put :
    (a : ℕ) (n : Node) (f : Nodes) (xs : List ℕ) → Without a xs → items (put a n f) xs ≡ items f xs
items-put a n f [] apart = refl
items-put a n f (x ∷ xs) (other, apart) =
    ap₂ (λ i l. i ∷ l) (ap (λ (k : Node). k.item) (put_other a n f x other))
      (items-put a n f xs apart)

-- A list from its row of nodes.
pub Chain-IsList :
    (l : LinkedList) (xs : List ℕ)
    → l.head ≡ first xs 0
    → Chain l.nodes 0 xs 0
    → Distinct xs
    → l.size ≡ length xs
    → (l.tail ≡ get_or xs (length xs - 1) 0) ⊎ ((l.tail ≡ 0) × (length xs ≤ 1))
    → IsList l xs
Chain-IsList l xs head chain distinct size tail = record {
  linked = Chain-Linked l 0 l.head xs head chain;
  distinct = distinct;
  counted = size;
  ended = tail;
}

-- A list with the items of a sequence.
abbrev pub IsListOf : LinkedList → List ℕ → List ℕ → Type 0
IsListOf l xs vs = IsList l xs × (items l.nodes xs ≡ vs)
