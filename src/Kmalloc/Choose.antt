-- ===== src/Kmalloc/Choose.antt =====
-- get_suitable_block of kernel/kmalloc.cpp, without page alignment: the search for the smallest
-- free block that is large enough.
use weird_os.Base.{
  ℕ, ◌≤◌, ◌<◌, ◌≡◌, ◌≢◌, refl, subst, false, List, [], ◌∷◌, arith, length, leb, All, Bool-cases,
  inl, inr,
}
use weird_os.Kmalloc.Memory.{
  Cmd, pure, ◌>>=◌, ◌>>◌, and_then, assert, load, Memory, Run, ok, assert_failed, no_unused_blocks,
  out_of_heap_space,
}
use weird_os.Kmalloc.Alloc.{best_fit, get_suitable_block}
use weird_os.Kmalloc.Blocks.{Heap}
use weird_os.Kmalloc.Layout.{Block, Focus, IsHeap, IsHeap-Focus, span}
use weird_os.Kmalloc.Returns.{load-ok}
use weird_os.Kmalloc.Candidates.{
  IsFreeAt, IsBestAmong, AllUsed, FindsUnused, FindsBest, holds_at, first_unused-FindsUnused,
  best_fit-FindsBest,
}

-- The three outcomes of the search: the smallest free block that is large enough, or no free block
-- at all, or only free blocks that are too small.
pub data Suits (size : ℕ) (m : Memory) (start : ℕ) (bs : List Block) : Run ℕ → Type 0 where
  found :
      {p : ℕ} (b : Block)
      → IsFreeAt bs start p b
      → size ≤ b.size
      → IsBestAmong size b bs
      → Suits size m start bs (ok p m)
  exhausted : AllUsed bs → Suits size m start bs (assert_failed no_unused_blocks)
  too_small :
      All (λ c. c.used ≡ false → c.size < size) bs
      → Suits size m start bs (assert_failed out_of_heap_space)

All-small :
    (size : ℕ) (b : Block) (cs : List Block)
    → b.size < size
    → IsBestAmong size b cs
    → All (λ c. c.used ≡ false → c.size < size) cs
All-small size b [] small best = tt
All-small size b (c ∷ cs) small (h, best) =
    (λ free. grind (arith, h free), All-small size b cs small best)

abbrev check_size : ℕ → ℕ → Cmd ℕ
check_size size best = do b ← load best; assert (leb size b.size) out_of_heap_space; pure best

module _ (size : ℕ) (m : Memory) {start stop : ℕ} {bs : List Block}
    (heap : IsHeap m.headers start stop bs) where
  check_size-Suits :
      {r : Run ℕ}
      → FindsBest size m start bs r
      → Suits size m start bs (and_then r (check_size size))
  check_size-Suits (FindsBest.found b at best) =
      let (n, q, pos, h) = holds_at m heap at in
      rw (load-ok m pos h) (elim (Bool-cases (leb size b.size)) [
        | inl fits ↦ rw fits (Suits.found b at (ground arith) best)
        | inr small ↦ rw small (too_small (All-small size b bs (ground arith) best))
      ])

  best_fit-Suits :
      (fuel : ℕ) {r : Run ℕ}
      → FindsUnused m start bs bs r
      → length bs < fuel
      → Suits size m start bs
          (and_then r (λ best. best_fit fuel size start best >>= check_size size))
  unfolding span
  best_fit-Suits fuel (FindsUnused.found b at) enough =
      check_size-Suits
        (best_fit-FindsBest m heap fuel size [] bs heap.chain (omega arith) refl at tt enough)
  best_fit-Suits fuel (FindsUnused.exhausted used) enough = exhausted used

-- get_suitable_block without page alignment, with fuel for every block of a well-formed heap, finds
-- the smallest free block of at least the size and leaves memory as it is, or it stops at the
-- assertion for no free block, and all blocks are used, or at the one for no large enough block.
pub get_suitable_block-Suits :
    (fuel size : ℕ) (m : Memory) (heap : Heap) {stop : ℕ} (bs : List Block)
    → IsHeap m.headers heap.first_block stop bs
    → bs ≢ []
    → length bs < fuel
    → Suits size m heap.first_block bs (get_suitable_block fuel size false heap m)
unfolding get_suitable_block span
get_suitable_block-Suits fuel size m heap [] h some_block enough = absurd (some_block refl)
get_suitable_block-Suits fuel size m heap {stop} (c ∷ bs) h some_block enough =
    let f =
      subst (λ t. Focus m.headers heap.first_block stop t [] c bs) (omega arith)
        (IsHeap-Focus [] c bs h) in
    best_fit-Suits size m h fuel (first_unused-FindsUnused m h fuel [] c bs f refl (omega arith))
      (omega arith)
