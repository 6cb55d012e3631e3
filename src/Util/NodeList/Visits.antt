-- ===== src/Util/NodeList/Visits.antt =====
-- The iterators and the destructor of includes/util/list.h.
use weird_os.Base.{
  ℕ, zero, suc, ◌<◌, ◌≡◌, ◌≢◌, refl, ◌∙◌, arith, ◌==◌, if◌then◌else◌, Option, none, some, false,
  List, [], ◌∷◌, length, get_elem?,
}
use weird_os.Util.NodeList.{
  Node, Nodes, NodeList, put_node, put_node-here, at_node, at_node-zero, at_node-suc, at,
}

-- The values that a loop from begin() to end() visits, from the node `p` on.
unfoldable pub visit : ℕ → (p : ℕ) → Nodes → Option (List ℕ)
visit zero p nodes = none
visit (suc fuel) p nodes = if p == 0 then some [] else elim (nodes p) [
  | none ↦ none
  | some n ↦ elim (visit fuel n.next nodes) [ none ↦ none | some vs ↦ some (n.value ∷ vs) ]
]

unfoldable pub each : ℕ → NodeList → Option (List ℕ)
unfolding visit
each fuel l = visit fuel l.first l.nodes

-- `delete node`, which does nothing for a null pointer.
abbrev delete : Nodes → ℕ → Nodes
delete nodes p = if p == 0 then nodes else put_node nodes p none

-- The loop of the destructor, which deletes the node behind `node`.
unfoldable pub destroy_loop : ℕ → (node : ℕ) → Nodes → Option Nodes
destroy_loop zero node nodes = none
destroy_loop (suc fuel) node nodes =
    if node == 0
    then some nodes
    else elim (nodes node) [ none ↦ none | some n ↦ destroy_loop fuel n.next (delete nodes n.next) ]

unfoldable pub destroy : ℕ → NodeList → Option Nodes
unfolding destroy_loop
destroy fuel l = destroy_loop fuel l.first l.nodes

-- The nodes from `p` on hold the values, and the last one has no next.
pub data Chain (nodes : Nodes) : (p : ℕ) → List ℕ → Type 0 where
  ends : {p : ℕ} → p ≡ 0 → Chain nodes p []
  goes_on :
      {p : ℕ} {n : Node} {vs : List ℕ}
      → p ≢ 0
      → nodes p ≡ some n
      → Chain nodes n.next vs
      → Chain nodes p (n.value ∷ vs)

visit-values :
    (fuel p : ℕ) (nodes : Nodes) (vs : List ℕ)
    → Chain nodes p vs
    → length vs < fuel
    → visit fuel p nodes ≡ some vs
unfolding visit
visit-values zero p nodes vs chain enough = absurd (omega arith)
visit-values (suc fuel) p nodes [] (ends e) enough = rw e refl
visit-values (suc fuel) p nodes (v ∷ vs) (goes_on {n = n} pos e chain) enough =
    let nz : (p == 0) ≡ false = ground arith in
    let rest = visit-values fuel n.next nodes vs chain (omega arith) in rw (nz, e, rest) refl

at_node-get_elem? :
    (idx p v : ℕ) (nodes : Nodes) (vs : List ℕ)
    → Chain nodes p vs
    → get_elem? vs idx ≡ some v
    → at_node idx p nodes ≡ some v
at_node-get_elem? idx p v nodes [] (ends e) found = ground (arith, found)
at_node-get_elem? zero p v nodes (w ∷ vs) (goes_on pos e chain) found =
    at_node-zero p nodes e ∙ found
at_node-get_elem? (suc idx) p v nodes (w ∷ vs) (goes_on {n = n} pos e chain) found =
    at_node-suc idx p nodes e ∙ at_node-get_elem? idx n.next v nodes vs chain found

-- On a list whose nodes hold the values, a loop from begin() to end() ends and visits exactly the values in
-- their order, with fuel beyond their number, and at gives every one of them at its index.
pub each-at :
    (fuel : ℕ) (l : NodeList) (vs : List ℕ)
    → Chain l.nodes l.first vs
    → length vs < fuel
    → (each fuel l ≡ some vs) × ((idx v : ℕ) → get_elem? vs idx ≡ some v → at idx l ≡ some v)
unfolding each at
each-at fuel l vs chain enough = (
  visit-values fuel l.first l.nodes vs chain enough,
  λ idx v found. at_node-get_elem? idx l.first v l.nodes vs chain found,
)

-- The destructor of a list of at least two values reads a node that it has deleted.
pub destroy-dangles :
    (fuel v w : ℕ) (vs : List ℕ) (l : NodeList)
    → Chain l.nodes l.first (v ∷ w ∷ vs)
    → destroy fuel l ≡ none
unfolding destroy destroy_loop
destroy-dangles zero v w vs l chain = refl
destroy-dangles (suc zero) v w vs l (goes_on pos e rest) =
    let nz : (l.first == 0) ≡ false = ground arith in rw (nz, e) refl
destroy-dangles (suc (suc fuel)) v w vs l (goes_on {n = n} pos e (goes_on pos' e' rest)) =
    let nz : (l.first == 0) ≡ false = ground arith in
    let nz' : (n.next == 0) ≡ false = ground arith in
    rw (nz, e, nz', put_node-here l.nodes n.next none) refl
