-- ===== src/Kmalloc/Move.antt =====
-- krealloc of kernel/kmalloc.cpp where it moves the allocation, and its outcomes.
use weird_os.Base.{
  ℕ, suc, ◌+◌, ◌-◌, ◌≤◌, ◌<◌, ◌≡◌, refl, sym, ap, ◌∙◌, subst, true, false, ◌&&◌, List, ◌∷◌, ◌++◌,
  arith, length, leb, ltb, reverse_onto, length-reverse_onto, All, if◌then◌else◌,
}
use weird_os.Kmalloc.Memory.{
  Memory, Run, Cmd, pure, ◌>>=◌, ◌>>◌, and_then, load, ok, assert_failed, copy_bytes,
  no_unused_blocks, out_of_heap_space, header_size,
}
use weird_os.Kmalloc.Alloc.{free}
use weird_os.Kmalloc.Allocate.{Allocates, allocated, allocated_blocks}
use weird_os.Kmalloc.Candidates.{AllUsed}
use weird_os.Kmalloc.Coalesced.{Coalesced, allocated_blocks-Coalesced}
use weird_os.Kmalloc.Contract.{Inserts, Holds, free-Inserts}
use weird_os.Kmalloc.Find.{Located, still_in, live-Located, length-allocated_blocks}
use weird_os.Kmalloc.Layout.{Block, IsHeap, IsHeap-Focus, span}
use weird_os.Kmalloc.Live.{live, live-free_blocks, live-allocated_blocks}
use weird_os.Kmalloc.Returns.{Returns, returns, bind, load-ok}

-- The bytes with `n` of them copied.
abbrev copied : (dest src n : ℕ) → (ℕ → ℕ) → ℕ → ℕ
copied dest src n bytes a =
    if leb dest a && ltb a (dest + n) then bytes (a - dest + src) else bytes a

-- The outcomes of krealloc for an allocation of `old` bytes at `ptr`, for its caller.
pub data Resizes (sz ptr old : ℕ) (m : Memory) (start stop : ℕ) (bs : List Block)
    : Run ℕ → Type 0 where
  kept : sz ≤ old → Resizes sz ptr old m start stop bs (ok ptr m)
  grown :
      {m' : Memory} (n : ℕ) (xs ys : List (ℕ × ℕ))
      → sz ≤ n
      → live start bs ≡ xs ++ (ptr, old) ∷ ys
      → Holds m' start stop (xs ++ (ptr, n) ∷ ys)
      → m'.bytes ≡ m.bytes
      → Resizes sz ptr old m start stop bs (ok ptr m')
  moved :
      {p : ℕ} {m' : Memory} (n : ℕ) (both after : List (ℕ × ℕ))
      → sz ≤ n
      → Inserts (p, n) (live start bs) both
      → Inserts (ptr, old) after both
      → Holds m' start stop after
      → m'.bytes ≡ copied p ptr old m.bytes
      → Resizes sz ptr old m start stop bs (ok p m')
  exhausted : AllUsed bs → Resizes sz ptr old m start stop bs (assert_failed no_unused_blocks)
  too_small :
      All (λ c. c.used ≡ false → c.size < sz) bs
      → Resizes sz ptr old m start stop bs (assert_failed out_of_heap_space)

-- What follows the allocation of a new block.
abbrev pub move_rest : (fuel header ptr : ℕ) → ℕ → Cmd ℕ
move_rest fuel header ptr new_ptr = do
  h ← load header
  copy_bytes new_ptr ptr h.size
  free fuel ptr
  pure new_ptr

-- What the copy and the release leave, for an allocation whose header is at `k`.
abbrev Moves : (p start stop k old : ℕ) (both : List (ℕ × ℕ)) (bytes : ℕ → ℕ) → ℕ → Memory → Type 0
Moves p start stop k old both bytes a m' =
    (a ≡ p)
    × (after : List (ℕ × ℕ)) × Holds m' start stop after
    × Inserts (k + header_size, old) after both
    × (m'.bytes ≡ copied p (k + header_size) old bytes)

move_rest-Moves :
    (fuel p : ℕ) (m : Memory) (start stop : ℕ) (pre : List Block) (b : Block) (post : List Block)
    → IsHeap m.headers start stop (reverse_onto pre (b ∷ post))
    → Coalesced (reverse_onto pre (b ∷ post))
    → b.used ≡ true
    → length (reverse_onto pre (b ∷ post)) < fuel
    → Returns
        (Moves p start stop
          (start + span pre)
          b.size
          (live start (reverse_onto pre (b ∷ post)))
          m.bytes)
        (move_rest fuel (start + span pre) (start + span pre + header_size) p m)
unfolding copy_bytes
move_rest-Moves fuel p m start stop pre b post heap tidy used enough =
    let f = IsHeap-Focus pre b post heap in
    let short = length-reverse_onto pre (b ∷ post) in
    let m' : Memory = record m {
      bytes = copied p (start + span pre + header_size) b.size m.bytes;
    } in
    rw (load-ok m (omega (arith, f.low)) f.holds) (
      bind (free-Inserts fuel m' start stop pre b post heap tidy used (omega arith) (omega arith))
        λ _ _ (after, holds, removed, same). returns (refl, after, holds, removed, same))

-- The same for an allocation that is found among those of the heap.
Located-Moves :
    (fuel p k old : ℕ) (m : Memory) (start stop : ℕ) (blocks : List Block)
    → IsHeap m.headers start stop blocks
    → Coalesced blocks
    → length blocks < fuel
    → Located start blocks (k + header_size) old
    → Returns
        (Moves p start stop k old (live start blocks) m.bytes)
        (move_rest fuel k (k + header_size) p m)
Located-Moves fuel p k old m start stop blocks heap tidy enough l =
    let at : start + span l.pre ≡ k = omega (arith, l.address) in
    rw (← l.splits, ← l.size, ← at)
      (move_rest-Moves fuel p m start stop l.pre l.b l.post (rw l.splits heap) (rw l.splits tidy)
        l.used (rw l.splits enough))

from_Returns :
    (k : ℕ) {sz old p n : ℕ} {m : Memory} {start stop : ℕ} {bs : List Block} {both : List (ℕ × ℕ)}
    {r : Run ℕ}
    → sz ≤ n
    → Inserts (p, n) (live start bs) both
    → Returns (Moves p start stop k old both m.bytes) r
    → Resizes sz (k + header_size) old m start stop bs r
from_Returns k {n} {both} large added (returns (e, after, holds, removed, same)) =
    rw e (moved n both after large added removed holds same)

module _ (fuel sz : ℕ) {m : Memory} {start stop : ℕ} (pre : List Block) (b : Block)
    (post : List Block) (tidy : Coalesced (reverse_onto pre (b ∷ post))) (used : b.used ≡ true)
    (enough : suc (length (reverse_onto pre (b ∷ post))) < fuel) where
  -- Moving to a new block.
  pub move-Resizes :
      {r : Run ℕ}
      → Allocates sz m start stop (reverse_onto pre (b ∷ post)) r
      → Resizes sz
          (start + span pre + header_size)
          b.size
          m
          start
          stop
          (reverse_onto pre (b ∷ post))
          (and_then r (move_rest fuel (start + span pre) (start + span pre + header_size)))
  move-Resizes (Allocates.exhausted all) = Resizes.exhausted all
  move-Resizes (Allocates.too_small small) = Resizes.too_small small
  move-Resizes (allocated {p} {m' = m1} front c back at e unused fits best h same) =
      let k = start + span pre in
      let blocks = allocated_blocks sz front c back in
      let (n, xs, ys, large, before, after) =
        live-allocated_blocks sz start front c back unused fits in
      let (xs0, ys0, old_in, _) = live-free_blocks start pre b post used in
      let without : live start (reverse_onto pre (b ∷ post)) ≡ xs ++ ys =
        subst (λ t. live start t ≡ xs ++ ys) at before in
      let with_it : live start blocks ≡ xs ++ (p, n) ∷ ys = rw e after in
      let (xs1, ys1, still) =
        still_in xs ys xs0 ys0 (k + header_size, b.size) (p, n) (sym without ∙ old_in) in
      let l = live-Located start blocks xs1 ys1 (k + header_size) b.size (with_it ∙ still) in
      let short : length blocks < fuel =
        omega (arith, length-allocated_blocks sz front c back, ap length at) in
      from_Returns k large (record { front = xs; back = ys; without = without; with_it = with_it })
        (subst
          (λ bytes.
            Returns (Moves p start stop k b.size (live start blocks) bytes)
              (move_rest fuel k (k + header_size) p m1))
          same
          (Located-Moves fuel p k b.size m1 start stop blocks h
            (allocated_blocks-Coalesced sz front c back unused (subst Coalesced (sym at) tidy))
            short l))
