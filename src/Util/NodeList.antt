-- ===== src/Util/NodeList.antt =====
-- The doubly linked list of includes/util/list.h: nodes at addresses, `none` where there is no node
-- or it was deleted. An access there makes the operation fail. `fresh` is what new returns.
pub mod Visits
use weird_os.Base.{
  ℕ, zero, suc, ◌<◌, ◌≡◌, ◌≢◌, refl, sym, ◌∙◌, arith, ◌==◌, if◌then◌else◌, Option, none, some, true,
  Option-cases, Bool-cases, inl, inr, ==_iff,
}

pub record Node : Type 0 where
  pub prev : ℕ
  pub next : ℕ
  pub value : ℕ

abbrev pub Nodes : Type 0
Nodes = ℕ → Option Node

pub record NodeList : Type 0 where
  pub first : ℕ
  pub nodes : Nodes

unfoldable pub put_node : Nodes → ℕ → Option Node → Nodes
put_node nodes p n a = if a == p then n else nodes a

-- list::at, from the node `p`.
unfoldable pub at_node : (idx p : ℕ) → Nodes → Option ℕ
at_node zero p nodes = elim (nodes p) [ none ↦ none | some n ↦ some n.value ]
at_node (suc idx) p nodes = elim (nodes p) [ none ↦ none | some n ↦ at_node idx n.next nodes ]

unfoldable pub at : (idx : ℕ) → NodeList → Option ℕ
at idx l = at_node idx l.first l.nodes

-- The old first node's `prev` is not set.
unfoldable pub push_front : (value fresh : ℕ) → NodeList → NodeList
push_front value fresh l = record {
  first = fresh;
  nodes = put_node l.nodes fresh (some (record { prev = 0; next = l.first; value = value }));
}

-- `while (last->next) last = last->next`
unfoldable pub last_node : ℕ → (p : ℕ) → Nodes → Option ℕ
last_node zero p nodes = none
last_node (suc fuel) p nodes = elim (nodes p) [
  | none ↦ none
  | some n ↦ if n.next == 0 then some p else last_node fuel n.next nodes
]

-- `last->next = node`
unfoldable pub set_next : Nodes → (p next : ℕ) → Option Nodes
set_next nodes p next = elim (nodes p) [
  | none ↦ none
  | some n ↦ some (put_node nodes p (some (record n { next = next })))
]

unfoldable pub push_back : ℕ → (value fresh : ℕ) → NodeList → Option NodeList
push_back fuel value fresh l =
    let alone : Node = record { prev = 0; next = 0; value = value } in
    let appended : Option NodeList = elim (last_node fuel l.first l.nodes) [
      | none ↦ none
      | some last ↦
          elim (set_next (put_node l.nodes fresh (some (record alone { prev = last }))) last
            fresh) [ none ↦ none | some nodes ↦ some (record l { nodes = nodes }) ]
    ] in
    if l.first == 0
    then some (record { first = fresh; nodes = put_node l.nodes fresh (some alone) })
    else appended

-- The new first node's `prev` is not cleared.
unfoldable pub pop_front : NodeList → Option (ℕ × NodeList)
pop_front l = elim (l.nodes l.first) [
  | none ↦ none
  | some old ↦ some (old.value, record { first = old.next; nodes = put_node l.nodes l.first none })
]

-- `if (last->prev) last->prev->next = nullptr; delete last`
unfoldable pub unlink_last : (last : ℕ) → Node → NodeList → Option (ℕ × NodeList)
unlink_last last n l =
    let alone = some (n.value, record l { nodes = put_node l.nodes last none }) in
    let behind : Option (ℕ × NodeList) = elim (set_next l.nodes n.prev 0) [
      | none ↦ none
      | some nodes ↦ some (n.value, record l { nodes = put_node nodes last none })
    ] in
    if n.prev == 0 then alone else behind

unfoldable pub pop_back : ℕ → NodeList → Option (ℕ × NodeList)
pop_back fuel l = elim (last_node fuel l.first l.nodes) [
  | none ↦ none
  | some last ↦ elim (l.nodes last) [ none ↦ none | some n ↦ unlink_last last n l ]
]

put_node-here : (nodes : Nodes) (p : ℕ) (n : Option Node) → put_node nodes p n p ≡ n
unfolding put_node
put_node-here nodes p n = ground arith

put_node-there :
    (nodes : Nodes) (p a : ℕ) (n : Option Node) → a ≢ p → put_node nodes p n a ≡ nodes a
unfolding put_node
put_node-there nodes p a n differ = ground arith

at_node-none : (idx p : ℕ) (nodes : Nodes) → nodes p ≡ none → at_node idx p nodes ≡ none
unfolding at_node
at_node-none zero p nodes e = rw (at_node, e) refl
at_node-none (suc idx) p nodes e = rw (at_node, e) refl

at_node-zero :
    (p : ℕ) (nodes : Nodes) {m : Node} → nodes p ≡ some m → at_node 0 p nodes ≡ some m.value
unfolding at_node
at_node-zero p nodes e = rw (at_node, e) refl

at_node-suc :
    (idx p : ℕ) (nodes : Nodes) {m : Node}
    → nodes p ≡ some m
    → at_node (suc idx) p nodes ≡ at_node idx m.next nodes
unfolding at_node
at_node-suc idx p nodes e = rw (at_node, e) refl

some_at :
    (idx p v : ℕ) (nodes : Nodes) → at_node idx p nodes ≡ some v → (m : Node) × (nodes p ≡ some m)
some_at idx p v nodes h = elim (Option-cases (nodes p)) [
  | inl e ↦ absurd (ground (arith, at_node-none idx p nodes e, h))
  | inr (m, e) ↦ (m, e)
]

at_node-put_node :
    (idx p fresh v : ℕ) (nodes : Nodes) (n : Node)
    → nodes fresh ≡ none
    → at_node idx p nodes ≡ some v
    → at_node idx p (put_node nodes fresh (some n)) ≡ some v
at_node-put_node zero p fresh v nodes n new h =
    let (m, e) = some_at 0 p v nodes h in
    let other : p ≢ fresh = λ same. ground (arith, same, e, new) in
    let e' = put_node-there nodes fresh p (some n) other ∙ e in
    at_node-zero p (put_node nodes fresh (some n)) e' ∙ sym (at_node-zero p nodes e) ∙ h
at_node-put_node (suc idx) p fresh v nodes n new h =
    let (m, e) = some_at (suc idx) p v nodes h in
    let other : p ≢ fresh = λ same. ground (arith, same, e, new) in
    let e' = put_node-there nodes fresh p (some n) other ∙ e in
    at_node-suc idx p (put_node nodes fresh (some n)) e'
    ∙ at_node-put_node idx m.next fresh v nodes n new (sym (at_node-suc idx p nodes e) ∙ h)

-- A node that is put at a new address and deleted again.
removed :
    (nodes : Nodes) (p a : ℕ) (n : Node)
    → nodes p ≡ none
    → put_node (put_node nodes p (some n)) p none a ≡ nodes a
unfolding put_node
removed nodes p a n new = elim (Bool-cases (a == p)) [
  | inl here ↦ rw (here, (==_iff a p).0 here) (sym new)
  | inr there ↦ rw there refl
]

-- push_front of a node at a new address puts the value in front: it stands at index 0, every value
-- that was in the list stands one index further on, and pop_front gives the value and the list back.
pub push_front-at :
    (value fresh idx v : ℕ) (l : NodeList)
    → l.nodes fresh ≡ none
    → at idx l ≡ some v
    → (at 0 (push_front value fresh l) ≡ some value)
      × (at (suc idx) (push_front value fresh l) ≡ some v)
      × ((l' : NodeList) × (pop_front (push_front value fresh l) ≡ some (value, l'))
          × (l'.first ≡ l.first)
          × ((a : ℕ) → l'.nodes a ≡ l.nodes a))
unfolding at push_front pop_front
push_front-at value fresh idx v l new h =
    let node : Node = record { prev = 0; next = l.first; value = value } in
    let here = put_node-here l.nodes fresh (some node) in
    let ns : Nodes = put_node l.nodes fresh (some node) in
    (
      at_node-zero fresh ns here,
      at_node-suc idx fresh ns here ∙ at_node-put_node idx l.first fresh v l.nodes node new h,
      (
        record { first = l.first; nodes = put_node ns fresh none },
        rw (pop_front, here) refl,
        refl,
        λ a. removed l.nodes fresh a node new,
      ),
    )

last_node-first :
    (fuel p : ℕ) (nodes : Nodes) {n : Node}
    → nodes p ≡ some n
    → n.next ≡ 0
    → 0 < fuel
    → last_node fuel p nodes ≡ some p
unfolding last_node
last_node-first zero p nodes held end enough = absurd (omega arith)
last_node-first (suc fuel) p nodes {n} held end enough =
    let stop : (n.next == 0) ≡ true = ground arith in rw (last_node, held, stop) refl

-- pop_back of a list of one node gives the value and deletes the node, but leaves `first` pointing
-- to it: every later access by index fails.
pub pop_back-dangles :
    (fuel idx : ℕ) (n : Node) (l : NodeList)
    → l.nodes l.first ≡ some n
    → n.next ≡ 0
    → n.prev ≡ 0
    → 0 < fuel
    → (l' : NodeList) × (pop_back fuel l ≡ some (n.value, l'))
      × (l'.first ≡ l.first)
      × (at idx l' ≡ none)
unfolding pop_back unlink_last at
pop_back-dangles fuel idx n l held end alone enough =
    let last = last_node-first fuel l.first l.nodes held end enough in
    let zero_prev : (n.prev == 0) ≡ true = ground arith in
    let gone = put_node-here l.nodes l.first none in
    (
      record l { nodes = put_node l.nodes l.first none },
      rw (pop_back, last, held, unlink_last, zero_prev) refl,
      refl,
      at_node-none idx l.first (put_node l.nodes l.first none) gone,
    )
