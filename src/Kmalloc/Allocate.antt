-- ===== src/Kmalloc/Allocate.antt =====
-- alloc_internal of kernel/kmalloc.cpp, without page alignment: what it makes of the blocks.
use weird_os.Base.{
  ℕ, ◌+◌, ◌-◌, ◌≤◌, ◌<◌, ◌≡◌, ◌≢◌, refl, sym, subst, true, false, List, [], ◌∷◌, arith, length, ltb,
  reverse_onto, All, Bool-cases, inl, inr, if◌then◌else◌, sub32, add32-eq-add, sub32-eq-sub,
}
use weird_os.Kmalloc.Memory.{
  Memory, Run, Cmd, pure, ◌>>=◌, ◌>>◌, and_then, load, ok, set_magic, set_used, magic_number,
  assert_failed, no_unused_blocks, out_of_heap_space, header_size, min_block_size,
}
use weird_os.Kmalloc.Alloc.{alloc_internal}
use weird_os.Kmalloc.Blocks.{Heap, get_memory_address, create_new_block_header}
use weird_os.Kmalloc.Candidates.{IsFreeAt, IsBestAmong, AllUsed}
use weird_os.Kmalloc.Choose.{Suits, get_suitable_block-Suits}
use weird_os.Kmalloc.Layout.{
  Block, After-span, Before-span, Focus, IsHeap, IsHeap-Focus, Focus-IsHeap, Focus-write, span,
}
use weird_os.Kmalloc.Returns.{Returns, returns, bind, load-ok, set_magic-ok}
use weird_os.Kmalloc.Split.{taken, remainder, create_new_block_header-Focus}

-- What allocating makes of a block: it is cut where the rest can hold a header and more than the
-- smallest block.
unfoldable pub cut : (size : ℕ) → Block → List Block → List Block
cut size b post =
    if ltb (header_size + min_block_size) (b.size - size)
    then taken size ∷ remainder b size ∷ post
    else taken b.size ∷ post

unfoldable pub allocated_blocks : (size : ℕ) (pre : List Block) → Block → List Block → List Block
allocated_blocks size pre b post = reverse_onto pre (cut size b post)

-- The three outcomes of an allocation.
pub data Allocates (size : ℕ) (m : Memory) (start stop : ℕ) (bs : List Block) : Run ℕ → Type 0 where
  allocated :
      {p : ℕ} {m' : Memory} (pre : List Block) (b : Block) (post : List Block)
      → reverse_onto pre (b ∷ post) ≡ bs
      → p ≡ start + span pre + header_size
      → b.used ≡ false
      → size ≤ b.size
      → IsBestAmong size b bs
      → IsHeap m'.headers start stop (allocated_blocks size pre b post)
      → m'.bytes ≡ m.bytes
      → Allocates size m start stop bs (ok p m')
  exhausted : AllUsed bs → Allocates size m start stop bs (assert_failed no_unused_blocks)
  too_small :
      All (λ c. c.used ≡ false → c.size < size) bs
      → Allocates size m start stop bs (assert_failed out_of_heap_space)

-- The end of alloc_internal, from the chosen block on.
abbrev take_block : ℕ → ℕ → Cmd ℕ
take_block size block = do
  b ← load block
  if ltb (header_size + min_block_size) (sub32 b.size size)
      then create_new_block_header block size
      else pure tt
  set_magic block (set_used magic_number)
  pure (get_memory_address block)

module _ (size : ℕ) {m : Memory} {start stop p : ℕ} {pre post : List Block} {b : Block}
    (f : Focus m.headers start stop p pre b post) (fits : size ≤ b.size) where
  take_block-cut :
      Returns
        (λ a m'.
          (a ≡ p + header_size)
          × IsHeap m'.headers start stop (allocated_blocks size pre b post)
          × (m'.bytes ≡ m.bytes))
        (take_block size p m)
  unfolding get_memory_address allocated_blocks cut
  take_block-cut =
      let pos : 0 < p = omega (arith, Before-span f.before, f.low) in
      let bound = After-span f.after in
      let at = add32-eq-add p header_size (omega (arith, f.high)) in
      rw (load-ok m pos f.holds, sub32-eq-sub b.size size fits (omega (arith, f.high)), at)
        (elim (Bool-cases (ltb (header_size + min_block_size) (b.size - size))) [
          | inl large ↦ rw large (
              bind (create_new_block_header-Focus size f (ground arith)) λ _ m' (g, same).
                rw (set_magic-ok m' pos g.holds (set_used magic_number))
                  (returns (refl, Focus-IsHeap (Focus-write true g), same)))
          | inr whole ↦
              rw (whole, set_magic-ok m pos f.holds (set_used magic_number))
                (returns (refl, Focus-IsHeap (Focus-write true f), refl))
        ])

from_Returns :
    {size : ℕ} {m : Memory} {start stop p : ℕ} {bs : List Block} {b : Block} {r : Run ℕ}
    → (at : IsFreeAt bs start p b) → size ≤ b.size
    → IsBestAmong size b bs
    → Returns
        (λ a m'.
          (a ≡ start + span at.pre + header_size)
          × IsHeap m'.headers start stop (allocated_blocks size at.pre b at.post)
          × (m'.bytes ≡ m.bytes))
        r
    → Allocates size m start stop bs r
from_Returns {b} at fits best (returns (e, h, same)) =
    allocated at.pre b at.post at.splits e at.unused fits best h same

module _ (size : ℕ) (m : Memory) {start stop : ℕ} {bs : List Block}
    (heap : IsHeap m.headers start stop bs) where
  take-Allocates :
      {r : Run ℕ}
      → Suits size m start bs r
      → Allocates size m start stop bs (and_then r (take_block size))
  take-Allocates (Suits.found {p} b at fits best) =
      let f =
        IsHeap-Focus at.pre b at.post (subst (IsHeap m.headers start stop) (sym at.splits) heap) in
      rw at.address (from_Returns at fits best (take_block-cut size f fits))
  take-Allocates (Suits.exhausted used) = Allocates.exhausted used
  take-Allocates (Suits.too_small small) = Allocates.too_small small

-- alloc_internal without page alignment, in a well-formed heap with fuel for every block, returns
-- the data of the smallest free block that is large enough, marked used and cut if it is much
-- larger, in a well-formed heap, or it stops at the assertion that says why there is none. No data
-- changes.
pub alloc_internal-Allocates :
    (fuel size : ℕ) (m : Memory) (heap : Heap) {stop : ℕ} (bs : List Block)
    → IsHeap m.headers heap.first_block stop bs
    → bs ≢ []
    → length bs < fuel
    → Allocates size m heap.first_block stop bs (alloc_internal fuel size false heap m)
unfolding alloc_internal
alloc_internal-Allocates fuel size m heap bs h some_block enough =
    take-Allocates size m h (get_suitable_block-Suits fuel size m heap bs h some_block enough)
