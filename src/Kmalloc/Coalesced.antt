-- ===== src/Kmalloc/Coalesced.antt =====
-- No two free blocks stand side by side in the heap of kernel/kmalloc.cpp.
use weird_os.Base.{
  ℕ, ◌+◌, ◌-◌, ◌≤◌, ◌≡◌, refl, true, false, List, [], ◌∷◌, arith, ltb, reverse_onto, Bool-cases,
  inl, inr, ◌⊎◌,
}
use weird_os.Kmalloc.Memory.{header_size, min_block_size}
use weird_os.Kmalloc.Alloc.{free}
use weird_os.Kmalloc.Allocate.{cut, allocated_blocks}
use weird_os.Kmalloc.Free.{
  absorb, recede, released, free_blocks, absorb-nil, absorb-used, absorb-unused, recede-nil,
  recede-used, recede-unused,
}
use weird_os.Kmalloc.Layout.{Block}
use weird_os.Kmalloc.Merge.{join}
use weird_os.Kmalloc.Split.{taken, remainder}

abbrev pub Apart : Block → List Block → Type 0
Apart b [] = Unit
Apart b (c ∷ cs) = (b.used ≡ true) ⊎ (c.used ≡ true)

abbrev pub Coalesced : List Block → Type 0
Coalesced [] = Unit
Coalesced (b ∷ bs) = Apart b bs × Coalesced bs

-- Where a free block stood, any block may stand.
pub Coalesced-beside :
    (b c : Block) (cs : List Block) → b.used ≡ false → Coalesced (b ∷ cs) → Coalesced (c ∷ cs)
Coalesced-beside b c [] free h = (tt, tt)
Coalesced-beside b c (d ∷ cs) free h = (ground arith, h.1)

pub Coalesced-reverse_onto :
    (pre : List Block) (b : Block) (post : List Block)
    → Coalesced (b ∷ pre)
    → Coalesced (b ∷ post)
    → Coalesced (reverse_onto pre (b ∷ post))
Coalesced-reverse_onto [] b post p q = q
Coalesced-reverse_onto (c ∷ pre) b post (apart, p) q =
    Coalesced-reverse_onto pre c (b ∷ post) p (ground arith, q)

pub Coalesced-split :
    (pre : List Block) (b : Block) (post : List Block)
    → Coalesced (reverse_onto pre (b ∷ post))
    → Coalesced (b ∷ pre) × Coalesced (b ∷ post)
Coalesced-split [] b post h = ((tt, tt), h)
Coalesced-split (c ∷ pre) b post h =
    let (p, (apart, q)) = Coalesced-split pre c (b ∷ post) h in ((ground arith, p), q)

absorb-Coalesced :
    (b : Block) (post : List Block)
    → b.used ≡ false
    → Coalesced post
    → ((absorb b post).0.used ≡ false) × Coalesced ((absorb b post).0 ∷ (absorb b post).1)
absorb-Coalesced b [] free h = rw (absorb-nil b) (free, (tt, tt))
absorb-Coalesced b (c ∷ post) free h = elim (Bool-cases c.used) [
  | inl used ↦ rw (absorb-used b c post used) (free, (inr used, h))
  | inr unused ↦ rw (absorb-unused b c post unused) (absorb-Coalesced (join b c) post free h.1)
]

recede-Coalesced :
    (pre : List Block) (b : Block) (post : List Block)
    → b.used ≡ false
    → Coalesced pre
    → Coalesced (b ∷ post)
    → Coalesced (reverse_onto (recede pre b).0 ((recede pre b).1 ∷ post))
recede-Coalesced [] b post free p h = rw (recede-nil b) h
recede-Coalesced (c ∷ pre) b post free p h = elim (Bool-cases c.used) [
  | inl used ↦
      rw (recede-used c pre b used) (Coalesced-reverse_onto (c ∷ pre) b post (inr used, p) h)
  | inr unused ↦
      rw (recede-unused c pre b unused) (
        recede-Coalesced pre (join c b) post unused p.1 (Coalesced-beside b (join c b) post free h))
]

-- After free no two free blocks stand side by side, if none did before.
pub free_blocks-Coalesced :
    (pre : List Block) (b : Block) (post : List Block)
    → Coalesced (reverse_onto pre (b ∷ post))
    → Coalesced (free_blocks pre b post)
unfolding free_blocks
free_blocks-Coalesced pre b post h =
    let (p, q) = Coalesced-split pre b post h in
    let (free, r) = absorb-Coalesced (released b) post refl q.1 in
    recede-Coalesced pre _ _ free p.1 r

-- After alloc_internal no two free blocks stand side by side, if none did before.
pub allocated_blocks-Coalesced :
    (size : ℕ) (pre : List Block) (b : Block) (post : List Block)
    → b.used ≡ false
    → Coalesced (reverse_onto pre (b ∷ post))
    → Coalesced (allocated_blocks size pre b post)
unfolding allocated_blocks cut
allocated_blocks-Coalesced size pre b post free h =
    let (p, q) = Coalesced-split pre b post h in
    let other = λ (c : Block) (cs : List Block). Coalesced-beside b c cs free in
    elim (Bool-cases (ltb (header_size + min_block_size) (b.size - size))) [
      | inl large ↦ rw large (
          Coalesced-reverse_onto pre (taken size) (remainder b size ∷ post)
            (other (taken size) pre p) (inl refl, other (remainder b size) post q))
      | inr whole ↦ rw whole (
          Coalesced-reverse_onto pre (taken b.size) post (other (taken b.size) pre p)
            (other (taken b.size) post q))
    ]

absorb-next_used :
    (b : Block) (post : List Block)
    → b.used ≡ false
    → Coalesced (b ∷ post)
    → absorb b post ≡ (b, post)
absorb-next_used b [] free h = absorb-nil b
absorb-next_used b (c ∷ post) free h = absorb-used b c post (ground arith)

recede-next_used :
    (b : Block) (pre : List Block) → b.used ≡ false → Coalesced (b ∷ pre) → recede pre b ≡ (pre, b)
recede-next_used b [] free h = recede-nil b
recede-next_used b (c ∷ pre) free h = recede-used c pre b (ground arith)

-- Freeing what was just allocated gives the blocks back as they were.
pub free_blocks-allocated_blocks :
    (size : ℕ) (pre : List Block) (b : Block) (post : List Block)
    → b.used ≡ false
    → size ≤ b.size
    → Coalesced (reverse_onto pre (b ∷ post))
    → (c : Block) × (rest : List Block) × (cut size b post ≡ c ∷ rest)
      × (c.used ≡ true)
      × (free_blocks pre c rest ≡ reverse_onto pre (b ∷ post))
unfolding free_blocks cut
free_blocks-allocated_blocks size pre b post free fits h =
    let (p, q) = Coalesced-split pre b post h in
    elim (Bool-cases (ltb (header_size + min_block_size) (b.size - size))) [
      | inl large ↦
          let back : join (released (taken size)) (remainder b size) ≡ b = ground arith in
          rw large (
            taken size,
            remainder b size ∷ post,
            refl,
            refl,
            rw
                (
                  absorb-unused (released (taken size)) (remainder b size) post refl,
                  back,
                  absorb-next_used b post free q,
                  recede-next_used b pre free p,
                )
                refl,
          )
      | inr whole ↦
          let back : released (taken b.size) ≡ b = ground arith in
          rw whole (
            taken b.size,
            post,
            refl,
            refl,
            rw (back, absorb-next_used b post free q, recede-next_used b pre free p) refl,
          )
    ]
