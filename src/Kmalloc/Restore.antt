-- ===== src/Kmalloc/Restore.antt =====
-- create_heap, and an allocation that is freed again: what kernel/kmalloc.cpp leaves in memory.
use weird_os.Base.{
  ℕ, suc, ◌+◌, ◌-◌, ◌≤◌, ◌<◌, ◌≡◌, ◌≢◌, refl, sym, ap, subst, false, List, [], ◌∷◌, ◌∙◌, arith,
  length, reverse_onto, length-reverse_onto, All, sub32-eq-sub,
}
use weird_os.Kmalloc.Memory.{
  Memory, Run, ok, and_then, ◌>>=◌, assert_failed, header_size, no_unused_blocks, out_of_heap_space,
  write,
}
use weird_os.Kmalloc.Blocks.{Heap, create_heap}
use weird_os.Kmalloc.Alloc.{alloc_internal, free}
use weird_os.Kmalloc.Allocate.{
  cut, allocated_blocks, Allocates, allocated, alloc_internal-Allocates,
}
use weird_os.Kmalloc.Candidates.{AllUsed}
use weird_os.Kmalloc.Coalesced.{Coalesced, free_blocks-allocated_blocks}
use weird_os.Kmalloc.Free.{free-free_blocks}
use weird_os.Kmalloc.Layout.{Block, IsHeap, block, last, span}
use weird_os.Kmalloc.Returns.{Returns, returns, weaken}

-- create_heap makes a well-formed heap of one free block that takes all the space behind its
-- header, if the space holds a header and lies between address 0 and the end of memory.
pub create_heap-IsHeap :
    (size start : ℕ) (m : Memory)
    → 0 < start
    → header_size ≤ size
    → start + size < 0x1_0000_0000
    → Returns
        (λ heap m'.
          (heap.first_block ≡ start)
          × (heap.size ≡ size)
          × IsHeap m'.headers start
              (start + size)
              (record { size = size - header_size; used = false } ∷ [])
          × (m'.bytes ≡ m.bytes))
        (create_heap size start m)
unfolding create_heap write
create_heap-IsHeap size start m low room high =
    let small = sub32-eq-sub size header_size room (omega arith) in
    returns (
      refl,
      refl,
      record {
        low = low;
        high = high;
        chain = block refl (ground arith) (last (omega arith) refl);
      },
      refl,
    )

-- Either the blocks and the data are as before, or no block fitted.
pub data Restores (size : ℕ) (m : Memory) (start stop : ℕ) (bs : List Block)
    : Run (Unit {0}) → Type 0 where
  restored :
      {m' : Memory}
      → IsHeap m'.headers start stop bs
      → m'.bytes ≡ m.bytes
      → Restores size m start stop bs (ok tt m')
  exhausted : AllUsed bs → Restores size m start stop bs (assert_failed no_unused_blocks)
  too_small :
      All (λ c. c.used ≡ false → c.size < size) bs
      → Restores size m start stop bs (assert_failed out_of_heap_space)

from_Returns :
    {size : ℕ} {m : Memory} {start stop : ℕ} {bs : List Block} {r : Run (Unit {0})}
    → Returns (λ _ m'. IsHeap m'.headers start stop bs × (m'.bytes ≡ m.bytes)) r
    → Restores size m start stop bs r
from_Returns (returns (h, same)) = restored h same

length-cut : (size : ℕ) (b : Block) (post : List Block) → length (cut size b post) ≤ 2 + length post
unfolding cut
length-cut size b post = ground arith

-- Freeing the block that an allocation took gives back the blocks, whatever the bytes are by then.
pub free-allocated_blocks :
    (fuel size : ℕ) (m : Memory) (start stop : ℕ) (bs pre : List Block) (b : Block)
    (post : List Block)
    → reverse_onto pre (b ∷ post) ≡ bs
    → Coalesced bs
    → length bs < fuel
    → b.used ≡ false
    → size ≤ b.size
    → IsHeap m.headers start stop (allocated_blocks size pre b post)
    → Returns
        (λ _ m'. IsHeap m'.headers start stop bs × (m'.bytes ≡ m.bytes))
        (free fuel (start + span pre + header_size) m)
unfolding allocated_blocks
free-allocated_blocks fuel size m start stop bs pre b post at tidy enough unused fits heap =
    let (c, rest, cuts, used, back) =
      free_blocks-allocated_blocks size pre b post unused fits (subst Coalesced (sym at) tidy) in
    let heap' : IsHeap m.headers start stop (reverse_onto pre (c ∷ rest)) =
      subst (λ t. IsHeap m.headers start stop (reverse_onto pre t)) cuts heap in
    let short : suc (length rest) ≤ 2 + length post =
      rw (← ap length cuts) (length-cut size b post) in
    let count : length bs ≡ length pre + suc (length post) =
      ap length (sym at) ∙ length-reverse_onto pre (b ∷ post) in
    weaken (free-free_blocks fuel m start stop pre c rest heap' used (omega arith) (omega arith))
      λ _ g (h, same). (subst (IsHeap g.headers start stop) (back ∙ at) h, same)

free-Restores :
    (fuel size : ℕ) (m : Memory) {start stop : ℕ} (bs : List Block)
    → Coalesced bs
    → length bs < fuel
    → {r : Run ℕ} → Allocates size m start stop bs r
    → Restores size m start stop bs (and_then r (free fuel))
free-Restores fuel size m {start} {stop} bs tidy enough (Allocates.exhausted used) = exhausted used
free-Restores fuel size m {start} {stop} bs tidy enough (Allocates.too_small small) =
    too_small small
free-Restores fuel size m {start} {stop} bs tidy enough
      (allocated {m'} pre b post at e unused fits best heap same) =
    rw e (
      from_Returns (
        weaken
          (free-allocated_blocks fuel size m' start stop bs pre b post at tidy enough unused fits
            heap)
          λ _ g (h, same'). (h, same' ∙ same)))

-- In a well-formed, coalesced heap with fuel for every block, allocating without page alignment
-- and then freeing gives back the blocks and the data as they were, unless the allocation stops at
-- the assertion that fits the blocks.
pub alloc_internal-free :
    (fuel size : ℕ) (m : Memory) (heap : Heap) {stop : ℕ} (bs : List Block)
    → IsHeap m.headers heap.first_block stop bs
    → bs ≢ []
    → Coalesced bs
    → length bs < fuel
    → Restores size m heap.first_block stop bs
        ((alloc_internal fuel size false heap >>= free fuel) m)
alloc_internal-free fuel size m heap bs h some_block tidy enough =
    free-Restores fuel size m bs tidy enough
      (alloc_internal-Allocates fuel size m heap bs h some_block enough)
