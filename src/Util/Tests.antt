-- ===== src/Util/Tests.antt =====
-- The theorems on includes/util at concrete keys and texts.
use weird_os.Base.{List, ℕ, ◌%◌, ◌≡◌, none, some, [], ◌∷◌, ◌==◌, ==_iff, if◌then◌else◌}
use weird_os.Util.NodeList.{NodeList, put_node}
use weird_os.Util.HashMap.{Key, hash_range, get, set, get-set}
use weird_os.Util.NodeList.Visits.{Chain, ends, goes_on, each, each-at}
use weird_os.Util.NodeList.{at}
use weird_os.Base.{get_elem?, refl, arith}
use mathlib.Core.Option.{or_else}

-- Numbers as keys, with the low byte as their hash.
abbrev number_key : Key ℕ
number_key = record { equal = λ a b. a == b; equal_iff = ==_iff; hash_of = λ k. k % hash_range }

abbrev chains : ℕ → List (ℕ × ℕ)
chains i = if i == 3 then (259, 7) ∷ [] else []

abbrev stored : ℕ
stored = 10

get-set_example :
    get ⦃key = number_key⦄ (set ⦃key = number_key⦄ chains 3 stored) 259
    ≡ or_else
        (get ⦃key = number_key⦄ chains 259)
        (if number_key.equal 259 3 then some stored else none)
get-set_example = get-set ⦃key = number_key⦄ chains 3 259 stored

-- The value 5 at 1 and the value 6 at 2.
abbrev two_values : NodeList
two_values = record {
  first = 1;
  nodes =
      put_node (put_node (λ _. none) 1 (some (record { prev = 0; next = 2; value = 5 }))) 2
        (some (record { prev = 1; next = 0; value = 6 }));
}

two_values-Chain : Chain two_values.nodes 1 (5 ∷ 6 ∷ [])
unfolding put_node
two_values-Chain =
    goes_on (λ e. ground (arith, e)) refl (goes_on (λ e. ground (arith, e)) refl (ends refl))

each-at_example :
    (each 3 two_values ≡ some (5 ∷ 6 ∷ []))
    × ((idx v : ℕ) → get_elem? (5 ∷ 6 ∷ []) idx ≡ some v → at idx two_values ≡ some v)
each-at_example = each-at 3 two_values (5 ∷ 6 ∷ []) two_values-Chain (omega arith)
