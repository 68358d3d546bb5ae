-- ===== src/LinkedList/Chain.antt =====
-- A row of nodes between two others, taken apart and put together.
use esp_misc.Common.{
  ℕ, suc, ◌+◌, ◌-◌, ◌≡◌, ◌≢◌, refl, sym, ◌∙◌, ap, List, [], ◌∷◌, ◌++◌, All, All-append, length,
  length-append, get_or, ◌==◌, if◌then◌else◌, arith, ==-false, ==_self,
}
use esp_misc.LinkedList.{Node, LinkedList}
use esp_misc.LinkedList.Linked.{Linked, Distinct}

abbrev pub Nodes : Type 0
Nodes = ℕ → Node

abbrev pub put : ℕ → Node → Nodes → Nodes
put a n f = λ b. if b == a then n else f b

abbrev pub next_to : ℕ → ℕ → Nodes → Nodes
next_to a b f = put a (record (f a) { next = b }) f

abbrev pub prev_to : ℕ → ℕ → Nodes → Nodes
prev_to a b f = put a (record (f a) { prev = b }) f

abbrev pub first : List ℕ → ℕ → ℕ
first [] q = q
first (x ∷ xs) q = x

abbrev pub last : ℕ → List ℕ → ℕ
last p [] = p
last p (x ∷ xs) = last x xs

-- The nodes of the row, behind the node `p` and before the node `q`.
abbrev pub Chain : Nodes → ℕ → List ℕ → ℕ → Type 0
Chain f p [] q = Unit
Chain f p (x ∷ xs) q = (x ≢ 0) × (((f x).prev ≡ p) × (((f x).next ≡ first xs q) × Chain f x xs q))

abbrev pub Without : ℕ → List ℕ → Type 0
Without a = All (λ y. y ≢ a)

pub put_same : (a : ℕ) (n : Node) (f : Nodes) → put a n f a ≡ n
put_same a n f = rw (==_self a)

pub put_other : (a : ℕ) (n : Node) (f : Nodes) (b : ℕ) → b ≢ a → put a n f b ≡ f b
put_other a n f b other = rw (==-false b a other)

pub first-append : (xs ys : List ℕ) (q : ℕ) → first (xs ++ ys) q ≡ first xs (first ys q)
first-append [] ys q = refl
first-append (x ∷ xs) ys q = refl

pub last-snoc : (p : ℕ) (xs : List ℕ) (z : ℕ) → last p (xs ++ (z ∷ [])) ≡ z
last-snoc p [] z = refl
last-snoc p (x ∷ xs) z = last-snoc x xs z

module _ (f : Nodes) where
  pub Chain-split :
      (p : ℕ) (xs ys : List ℕ) (q : ℕ)
      → Chain f p (xs ++ ys) q
      → Chain f p xs (first ys q) × Chain f (last p xs) ys q
  Chain-split p [] ys q h = (tt, h)
  Chain-split p (x ∷ xs) ys q (some, (back, (on, h))) =
      let (left, right) = Chain-split x xs ys q h in
      ((some, (back, (on ∙ first-append xs ys q, left))), right)

  pub Chain-join :
      (p : ℕ) (xs ys : List ℕ) (q : ℕ)
      → Chain f p xs (first ys q)
      → Chain f (last p xs) ys q
      → Chain f p (xs ++ ys) q
  Chain-join p [] ys q left right = right
  Chain-join p (x ∷ xs) ys q (some, (back, (on, left))) right =
      (some, (back, (on ∙ sym (first-append xs ys q), Chain-join x xs ys q left right)))

  -- A node that is not in the row may change.
  pub Chain-put :
      (a : ℕ) (n : Node) (p : ℕ) (xs : List ℕ) (q : ℕ)
      → Without a xs
      → Chain f p xs q
      → Chain (put a n f) p xs q
  Chain-put a n p [] q apart h = tt
  Chain-put a n p (x ∷ xs) q (other, apart) (some, (back, (on, h))) =
      let same : put a n f x ≡ f x = put_other a n f x other in
      (
        some,
        (
          ap (λ (k : Node). k.prev) same ∙ back,
          (ap (λ (k : Node). k.next) same ∙ on, Chain-put a n x xs q apart h),
        ),
      )

  -- The last node gets another behind it.
  pub Chain-next_to :
      (z r p : ℕ) (xs : List ℕ) (q : ℕ)
      → Without z xs
      → Chain f p (xs ++ (z ∷ [])) q
      → Chain (next_to z r f) p (xs ++ (z ∷ [])) r
  Chain-next_to z r p [] q apart (some, (back, (on, h))) =
      let same : next_to z r f z ≡ record (f z) { next = r } =
        put_same z (record (f z) { next = r }) f in
      (some, (ap (λ (k : Node). k.prev) same ∙ back, (ap (λ (k : Node). k.next) same, tt)))
  Chain-next_to z r p (x ∷ xs) q (other, apart) (some, (back, (on, h))) =
      let same : next_to z r f x ≡ f x = put_other z (record (f z) { next = r }) f x other in
      (
        some,
        (
          ap (λ (k : Node). k.prev) same ∙ back,
          (
            ap (λ (k : Node). k.next) same
                ∙ on
                ∙ first-append xs (z ∷ []) q
                ∙ sym (first-append xs (z ∷ []) r),
            Chain-next_to z r x xs q apart h,
          ),
        ),
      )

  -- The first node gets another before it.
  pub Chain-prev_to :
      (x r p : ℕ) (xs : List ℕ) (q : ℕ)
      → Without x xs
      → Chain f p (x ∷ xs) q
      → Chain (prev_to x r f) r (x ∷ xs) q
  Chain-prev_to x r p xs q apart (some, (back, (on, h))) =
      let same : prev_to x r f x ≡ record (f x) { prev = r } =
        put_same x (record (f x) { prev = r }) f in
      (
        some,
        (
          ap (λ (k : Node). k.prev) same,
          (
            ap (λ (k : Node). k.next) same ∙ on,
            Chain-put x (record (f x) { prev = r }) x xs q apart h,
          ),
        ),
      )

pub Linked-Chain :
    (l : LinkedList) (p a : ℕ) (xs : List ℕ)
    → Linked l p a xs
    → (a ≡ first xs 0) × Chain l.nodes p xs 0
Linked-Chain l p a [] h = (h, tt)
Linked-Chain l p a (x ∷ xs) (e, (some, (back, h))) =
    let (on, chain) = Linked-Chain l x (l.nodes x).next xs h in (e, (some, (back, (on, chain))))

pub Chain-Linked :
    (l : LinkedList) (p a : ℕ) (xs : List ℕ)
    → a ≡ first xs 0
    → Chain l.nodes p xs 0
    → Linked l p a xs
Chain-Linked l p a [] e h = e
Chain-Linked l p a (x ∷ xs) e (some, (back, (on, h))) =
    (e, (some, (back, Chain-Linked l x (l.nodes x).next xs on h)))

-- Different addresses, with one taken out or put in.
pub All-split : (P : ℕ → Type 0) (xs ys : List ℕ) → All P (xs ++ ys) → All P xs × All P ys
All-split P [] ys h = (tt, h)
All-split P (x ∷ xs) ys (p, h) = let (left, right) = All-split P xs ys h in ((p, left), right)

pub Distinct-middle :
    (xs : List ℕ) (n : ℕ) (ys : List ℕ)
    → Distinct (xs ++ (n ∷ ys))
    → Without n (xs ++ ys) × Distinct (xs ++ ys)
Distinct-middle [] n ys (apart, d) = (apart, d)
Distinct-middle (x ∷ xs) n ys (apart, d) =
    let (others, e) = Distinct-middle xs n ys d in
    let (left, (other, right)) = All-split (λ y. y ≢ x) xs (n ∷ ys) apart in
    (((λ z. other (sym z)), others), (All-append (λ y. y ≢ x) xs ys left right, e))

pub Distinct-insert :
    (xs : List ℕ) (n : ℕ) (ys : List ℕ)
    → Without n (xs ++ ys)
    → Distinct (xs ++ ys)
    → Distinct (xs ++ (n ∷ ys))
Distinct-insert [] n ys apart d = (apart, d)
Distinct-insert (x ∷ xs) n ys (other, apart) (others, d) =
    let (left, right) = All-split (λ y. y ≢ x) xs ys others in
    (
      All-append (λ y. y ≢ x) xs (n ∷ ys) left ((λ z. other (sym z)), right),
      Distinct-insert xs n ys apart d,
    )

pub get_or-middle : (xs : List ℕ) (z : ℕ) (ys : List ℕ) → get_or (xs ++ (z ∷ ys)) (length xs) 0 ≡ z
get_or-middle [] z ys = refl
get_or-middle (x ∷ xs) z ys = get_or-middle xs z ys

-- The last of a list that has one.
pub get_or-snoc :
    (xs : List ℕ) (z : ℕ) → get_or (xs ++ (z ∷ [])) (length (xs ++ (z ∷ [])) - 1) 0 ≡ z
get_or-snoc xs z =
    ap (λ k. get_or (xs ++ (z ∷ [])) k 0)
      (let e : length (xs ++ (z ∷ [])) - 1 ≡ length xs = omega (arith, length-append xs (z ∷ [])) in
        e)
    ∙ get_or-middle xs z []

get_or-length : (x : ℕ) (xs : List ℕ) → get_or (x ∷ xs) (length xs) 0 ≡ last x xs
get_or-length x [] = refl
get_or-length x (y ∷ ys) = get_or-length y ys

append_last :
    (xs : List ℕ) (n : ℕ) (ns : List ℕ)
    → get_or (xs ++ (n ∷ ns)) (length xs + length ns) 0 ≡ last n ns
append_last [] n ns =
    ap (λ k. get_or (n ∷ ns) k 0) (let e : 0 + length ns ≡ length ns = omega arith in e)
    ∙ get_or-length n ns
append_last (x ∷ xs) n ns =
    ap (λ k. get_or (x ∷ (xs ++ (n ∷ ns))) k 0)
      (let e : suc (length xs) + length ns ≡ suc (length xs + length ns) = omega arith in e)
    ∙ append_last xs n ns

pub get_or-last :
    (xs : List ℕ) (n : ℕ) (ns : List ℕ)
    → get_or (xs ++ (n ∷ ns)) (length (xs ++ (n ∷ ns)) - 1) 0 ≡ last n ns
get_or-last xs n ns =
    ap (λ k. get_or (xs ++ (n ∷ ns)) k 0)
      (let e : length (xs ++ (n ∷ ns)) - 1 ≡ length xs + length ns =
          omega (arith, length-append xs (n ∷ ns)) in
        e)
    ∙ append_last xs n ns
