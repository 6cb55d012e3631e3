-- ===== src/Util/HashMap.antt =====
-- The hash map of includes/util/hashmap.h: 256 chains of nodes. Nodes are reached from the table
-- alone, so a chain is a list. Keys and their equality and hash are an interface.
use weird_os.Base.{
  ℕ, ◌+◌, ◌*◌, ◌%◌, ◌^◌, ◌≡◌, ◌↔◌, refl, ap, arith, ◌==◌, if◌then◌else◌, inl, inr, Bool-cases, List,
  [], ◌∷◌, ◌++◌, Bool, true, false, Option, none, some,
}
use mathlib.Core.Option.{or_else}

abbrev pub hash_range : ℕ
hash_range = 0x100

-- `while ((c = *str++)) hash = ((hash << 5) + hash) + c`, on the characters of a string.
unfoldable pub hash_loop : List ℕ → (hash : ℕ) → ℕ
hash_loop [] hash = hash
hash_loop (c ∷ cs) hash = hash_loop cs ((hash * 32 % 2 ^ 32 + hash + c) % 2 ^ 32)

unfoldable pub hash : List ℕ → ℕ
hash str = hash_loop str 5381 % hash_range

-- `==` and `hash` of the key type.
pub record Key {ℓ} (K : Type ℓ) : Type ℓ where
  pub equal : K → K → Bool
  pub equal_iff : (a b : K) → (equal a b ≡ true) ↔ (a ≡ b)
  pub hash_of : K → ℕ

module _ {ℓ} {K : Type ℓ} ⦃key : Key K⦄ where
  hash-differs : (j k : K) → (key.hash_of j == key.hash_of k) ≡ false → key.equal j k ≡ false
  hash-differs j k differ = elim (Bool-cases (key.equal j k)) [
    | inl same ↦ absurd (ground (arith, ap key.hash_of ((key.equal_iff j k).0 same)))
    | inr other ↦ other
  ]

module _ {ℓ} {K V : Type ℓ} ⦃key : Key K⦄ where
  -- `while (node && !(key == node->key)) node = node->next`
  unfoldable pub find : K → List (K × V) → Option V
  find k [] = none
  find k ((j, v) ∷ nodes) = if key.equal k j then some v else find k nodes

  unfoldable pub get : (ℕ → List (K × V)) → K → Option V
  get table k = find k (table (key.hash_of k))

  -- A new node behind the last one of the chain.
  unfoldable pub set : (ℕ → List (K × V)) → K → V → ℕ → List (K × V)
  set table k v i = if i == key.hash_of k then table i ++ ((k, v) ∷ []) else table i

  unfoldable pub empty : ℕ → List (K × V)
  empty i = []

  find-append : (k : K) (xs ys : List (K × V)) → find k (xs ++ ys) ≡ or_else (find k xs) (find k ys)
  unfolding find or_else
  find-append k [] ys = refl
  find-append k ((j, v) ∷ xs) ys = ground (arith, find-append k xs ys)

  -- After a store, every other key reads as before. The key itself reads as the value, but only
  -- if it was absent: a node is added behind one of the same key, which the search finds first.
  pub get-set :
      (table : ℕ → List (K × V)) (k j : K) (v : V)
      → get (set table k v) j ≡ or_else (get table j) (if key.equal j k then some v else none)
  unfolding get set or_else
  get-set table k j v = elim (Bool-cases (key.hash_of j == key.hash_of k)) [
    | inl same ↦
        rw (same, find-append j (table (key.hash_of j)) ((k, v) ∷ [])) (unfold find in refl)
    | inr differ ↦
        let other : key.equal j k ≡ false = hash-differs j k differ in
        rw (differ, other) (ground arith)
  ]
