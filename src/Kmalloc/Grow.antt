-- ===== src/Kmalloc/Grow.antt =====
-- krealloc of kernel/kmalloc.cpp where the allocation takes in the free block behind it.
use weird_os.Base.{
  ℕ, ◌+◌, ◌-◌, ◌≤◌, ◌≡◌, refl, true, false, List, [], ◌∷◌, ◌++◌, arith, ltb, reverse_onto,
  Bool-cases, inl, inr, if◌then◌else◌, sub32, sub32-eq-sub,
}
use weird_os.Kmalloc.Memory.{Memory, Run, Cmd, pure, ◌>>◌, header_size, min_block_size}
use weird_os.Kmalloc.Blocks.{create_new_block_header}
use weird_os.Kmalloc.Coalesced.{
  Coalesced, Coalesced-split, Coalesced-beside, Coalesced-reverse_onto,
}
use weird_os.Kmalloc.Layout.{Block, end_of, Focus-IsHeap, Focus, IsHeap, span, After-span}
use weird_os.Kmalloc.Live.{live, live-used, live-unused, live-reverse_onto}
use weird_os.Kmalloc.Merge.{join}
use weird_os.Kmalloc.Split.{taken, remainder, create_new_block_header-Focus}
use weird_os.Kmalloc.Returns.{Returns, returns, bind}
use weird_os.Kmalloc.Move.{Resizes, grown}

-- The end of the branch that takes in the next block.
abbrev pub grow_rest : (sz ptr header merge_size : ℕ) → Cmd ℕ
grow_rest sz ptr header merge_size = do
  (if ltb (min_block_size + header_size) (sub32 merge_size sz)
      then create_new_block_header header sz
      else pure tt)
  pure ptr

-- What is made of a used block and the free block behind it.
unfoldable pub grown_blocks : (sz : ℕ) → Block → List Block → List Block
grown_blocks sz b post =
    if ltb (min_block_size + header_size) (b.size - sz)
    then taken sz ∷ remainder b sz ∷ post
    else b ∷ post

pub grow_rest-grown :
    (sz : ℕ) {m : Memory} {start stop p : ℕ} {pre : List Block} (b : Block) {post : List Block}
    (ptr : ℕ)
    → Focus m.headers start stop p pre b post
    → sz ≤ b.size
    → Returns
        (λ a m'.
          (a ≡ ptr)
          × IsHeap m'.headers start stop (reverse_onto pre (grown_blocks sz b post))
          × (m'.bytes ≡ m.bytes))
        (grow_rest sz ptr p b.size m)
unfolding grown_blocks
grow_rest-grown sz b ptr f fits =
    let bound = After-span f.after in
    rw (sub32-eq-sub b.size sz fits (omega (arith, f.high)))
      (elim (Bool-cases (ltb (min_block_size + header_size) (b.size - sz))) [
        | inl large ↦ rw large (
            bind (create_new_block_header-Focus sz f (ground arith))
              λ _ m' (g, same). returns (refl, Focus-IsHeap g, same))
        | inr whole ↦ rw whole (returns (refl, Focus-IsHeap f, refl))
      ])

-- The allocation of a used block grows, and no other changes.
live-grown_blocks :
    (sz start : ℕ) (pre : List Block) (b c : Block) (post : List Block)
    → b.used ≡ true
    → c.used ≡ false
    → sz ≤ (join b c).size
    → (n : ℕ) × (xs ys : List (ℕ × ℕ)) × (sz ≤ n)
      × (live start (reverse_onto pre (b ∷ c ∷ post))
          ≡ xs ++ (start + span pre + header_size, b.size) ∷ ys)
      × (live start (reverse_onto pre (grown_blocks sz (join b c) post))
          ≡ xs ++ (start + span pre + header_size, n) ∷ ys)
unfolding grown_blocks
live-grown_blocks sz start pre b c post used unused fits =
    let q : ℕ = start + span pre in
    let xs = live start (reverse_onto pre []) in
    let ys = live (end_of q (join b c)) post in
    let all : end_of (end_of q b) c ≡ end_of q (join b c) = omega arith in
    let old : live start (reverse_onto pre (b ∷ c ∷ post)) ≡ xs ++ (q + header_size, b.size) ∷ ys =
      rw
        (
          live-reverse_onto start pre (b ∷ c ∷ post),
          live-used q b (c ∷ post) used,
          live-unused (end_of q b) c post unused,
          all,
        )
        refl in
    elim (Bool-cases (ltb (min_block_size + header_size) ((join b c).size - sz))) [
      | inl large ↦
          let whole : end_of (end_of q (taken sz)) (remainder (join b c) sz) ≡ end_of q (join b c) =
            ground arith in
          (
            sz,
            xs,
            ys,
            omega arith,
            old,
            rw
                (
                  large,
                  live-reverse_onto start pre (taken sz ∷ remainder (join b c) sz ∷ post),
                  live-used q (taken sz) (remainder (join b c) sz ∷ post) refl,
                  live-unused (end_of q (taken sz)) (remainder (join b c) sz) post refl,
                  whole,
                )
                refl,
          )
      | inr small ↦ (
        (join b c).size,
        xs,
        ys,
        fits,
        old,
        rw (small, live-reverse_onto start pre (join b c ∷ post), live-used q (join b c) post used)
            refl,
      )
    ]

used-Coalesced : (b : Block) (cs : List Block) → b.used ≡ true → Coalesced cs → Coalesced (b ∷ cs)
used-Coalesced b [] used h = (tt, tt)
used-Coalesced b (c ∷ cs) used h = (inl used, h)

grown_blocks-Coalesced :
    (sz : ℕ) (pre : List Block) (b c : Block) (post : List Block)
    → b.used ≡ true
    → c.used ≡ false
    → Coalesced (reverse_onto pre (b ∷ c ∷ post))
    → Coalesced (reverse_onto pre (grown_blocks sz (join b c) post))
unfolding grown_blocks
grown_blocks-Coalesced sz pre b c post used unused h =
    let (p, (_, q)) = Coalesced-split pre b (c ∷ post) h in
    elim (Bool-cases (ltb (min_block_size + header_size) ((join b c).size - sz))) [
      | inl large ↦ rw large (
          Coalesced-reverse_onto pre (taken sz) (remainder (join b c) sz ∷ post)
            (used-Coalesced (taken sz) pre refl p.1)
            (inl refl, Coalesced-beside c (remainder (join b c) sz) post unused q))
      | inr whole ↦ rw whole (
          Coalesced-reverse_onto pre (join b c) post (used-Coalesced (join b c) pre used p.1)
            (used-Coalesced (join b c) post used q.1))
    ]

pub grown_Returns :
    (sz start stop : ℕ) (m : Memory) (pre : List Block) (b c : Block) (post : List Block)
    {r : Run ℕ}
    → b.used ≡ true
    → c.used ≡ false
    → sz ≤ (join b c).size
    → Coalesced (reverse_onto pre (b ∷ c ∷ post))
    → Returns
        (λ a m'.
          (a ≡ start + span pre + header_size)
          × IsHeap m'.headers start stop (reverse_onto pre (grown_blocks sz (join b c) post))
          × (m'.bytes ≡ m.bytes))
        r
    → Resizes sz
        (start + span pre + header_size)
        b.size
        m
        start
        stop
        (reverse_onto pre (b ∷ c ∷ post))
        r
grown_Returns sz start stop m pre b c post used unused fits tidy (returns (e, heap, same)) =
    let (n, xs, ys, large, before, after) =
      live-grown_blocks sz start pre b c post used unused fits in
    rw e (
      grown n xs ys large before
        (record {
          blocks = _;
          heap = heap;
          tidy = grown_blocks-Coalesced sz pre b c post used unused tidy;
          in_use = after;
        })
        same)
