-- ===== src/Kmalloc/Contract.antt =====
-- What callers of alloc_internal and free in kernel/kmalloc.cpp rely on: the allocations in use
-- before and after.
use weird_os.Base.{
  ℕ, ◌+◌, ◌≤◌, ◌<◌, ◌≡◌, ◌≢◌, refl, sym, subst, true, false, List, [], ◌∷◌, ◌++◌, length,
  reverse_onto, All,
}
use weird_os.Kmalloc.Memory.{
  Memory, Run, ok, assert_failed, header_size, no_unused_blocks, out_of_heap_space,
}
use weird_os.Kmalloc.Blocks.{Heap}
use weird_os.Kmalloc.Alloc.{alloc_internal, free}
use weird_os.Kmalloc.Allocate.{allocated_blocks, Allocates, allocated, alloc_internal-Allocates}
use weird_os.Kmalloc.Candidates.{AllUsed}
use weird_os.Kmalloc.Coalesced.{Coalesced, free_blocks-Coalesced, allocated_blocks-Coalesced}
use weird_os.Kmalloc.Free.{free_blocks, free-free_blocks}
use weird_os.Kmalloc.Layout.{Block, IsHeap, After-span, span}
use weird_os.Kmalloc.Live.{live, Ascending, live-Ascending, live-free_blocks, live-allocated_blocks}
use weird_os.Kmalloc.Returns.{Returns, weaken}

-- The lists differ by one entry, which only the second has.
pub record Inserts {ℓ} {A : Type ℓ} (a : A) (before after : List A) : Type ℓ where
  pub front : List A
  pub back : List A
  pub without : before ≡ front ++ back
  pub with_it : after ≡ front ++ a ∷ back

-- A well-formed heap in which no two free blocks stand side by side, whose allocations are
-- `allocations`.
pub record Holds (m : Memory) (start stop : ℕ) (allocations : List (ℕ × ℕ)) : Type 0 where
  pub blocks : List Block
  pub heap : IsHeap m.headers start stop blocks
  pub tidy : Coalesced blocks
  pub in_use : live start blocks ≡ allocations

-- free, given the address of an allocation and fuel for every block, does not fail. It removes
-- this allocation and no other, keeps the heap well-formed and coalesced, and touches no data.
pub free-Inserts :
    (fuel : ℕ) (m : Memory) (start stop : ℕ) (pre : List Block) (b : Block) (post : List Block)
    → IsHeap m.headers start stop (reverse_onto pre (b ∷ post))
    → Coalesced (reverse_onto pre (b ∷ post))
    → b.used ≡ true
    → length pre < fuel
    → length post < fuel
    → Returns
        (λ _ m'.
          (after : List (ℕ × ℕ)) × Holds m' start stop after
          × Inserts
              (start + span pre + header_size, b.size)
              after
              (live start (reverse_onto pre (b ∷ post)))
          × (m'.bytes ≡ m.bytes))
        (free fuel (start + span pre + header_size) m)
free-Inserts fuel m start stop pre b post heap tidy used enough enough' =
    weaken (free-free_blocks fuel m start stop pre b post heap used enough enough')
      λ _ m' (h, same).
        let (xs, ys, before, after) = live-free_blocks start pre b post used in
        (
          live start (free_blocks pre b post),
          record {
            blocks = _;
            heap = h;
            tidy = free_blocks-Coalesced pre b post tidy;
            in_use = refl;
          },
          record { front = xs; back = ys; without = after; with_it = before },
          same,
        )

-- The outcomes of an allocation, for its caller.
pub data Grants (size : ℕ) (m : Memory) (start stop : ℕ) (bs : List Block) : Run ℕ → Type 0 where
  granted :
      {p : ℕ} {m' : Memory} (n : ℕ) (after : List (ℕ × ℕ))
      → size ≤ n
      → Holds m' start stop after
      → Inserts (p, n) (live start bs) after
      → m'.bytes ≡ m.bytes
      → Grants size m start stop bs (ok p m')
  exhausted : AllUsed bs → Grants size m start stop bs (assert_failed no_unused_blocks)
  too_small :
      All (λ c. c.used ≡ false → c.size < size) bs
      → Grants size m start stop bs (assert_failed out_of_heap_space)

grants :
    {size : ℕ} {m : Memory} {start stop : ℕ} {bs : List Block} {r : Run ℕ}
    → Coalesced bs
    → Allocates size m start stop bs r
    → Grants size m start stop bs r
grants tidy (Allocates.exhausted used) = exhausted used
grants tidy (Allocates.too_small small) = too_small small
grants {size} {m} {start} {bs} tidy (allocated {m'} pre b post at e unused fits best h same) =
    let (n, xs, ys, large, before, after) =
      live-allocated_blocks size start pre b post unused fits in
    let coalesced =
      allocated_blocks-Coalesced size pre b post unused (subst Coalesced (sym at) tidy) in
    granted n (live start (allocated_blocks size pre b post)) large
      (record { blocks = _; heap = h; tidy = coalesced; in_use = refl })
      (record {
        front = xs;
        back = ys;
        without = subst (λ t. live start t ≡ xs ++ ys) at before;
        with_it = rw e after;
      })
      same

-- alloc_internal without page alignment, in a well-formed, coalesced heap with fuel for every
-- block, either adds one allocation of at least the size asked for, at the address it returns,
-- keeps all others and the heap's invariants and touches no data; or it stops at the assertion for
-- no free block, and all blocks are used, or at the one for no free block that is large enough.
pub alloc_internal-Grants :
    (fuel size : ℕ) (m : Memory) (heap : Heap) {stop : ℕ} (bs : List Block)
    → IsHeap m.headers heap.first_block stop bs
    → Coalesced bs
    → bs ≢ []
    → length bs < fuel
    → Grants size m heap.first_block stop bs (alloc_internal fuel size false heap m)
alloc_internal-Grants fuel size m heap bs h tidy some_block enough =
    grants tidy (alloc_internal-Allocates fuel size m heap bs h some_block enough)

-- In a well-formed heap the allocations lie in the heap, in ascending order, and do not overlap
-- one another nor any header.
pub IsHeap-Ascending :
    (m : Memory) (start stop : ℕ) (bs : List Block)
    → IsHeap m.headers start stop bs
    → Ascending start stop (live start bs)
IsHeap-Ascending m start stop bs h =
    subst (λ e. Ascending start e (live start bs)) (After-span h.chain) (live-Ascending start bs)
