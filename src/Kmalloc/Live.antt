-- ===== src/Kmalloc/Live.antt =====
-- The allocations that are in use in the heap of kernel/kmalloc.cpp: addresses of data and sizes.
use weird_os.Base.{
  ℕ, ◌+◌, ◌-◌, ◌≤◌, ◌≡◌, refl, sym, ap, subst, true, false, List, [], ◌∷◌, ◌++◌, ◌∙◌, arith, ltb,
  reverse_onto, Bool-cases, inl, inr, if◌then◌else◌,
}
use weird_os.Kmalloc.Memory.{header_size, min_block_size}
use weird_os.Kmalloc.Allocate.{cut, allocated_blocks}
use weird_os.Kmalloc.Free.{
  absorb, recede, released, free_blocks, absorb-nil, absorb-used, absorb-unused, recede-nil,
  recede-used, recede-unused,
}
use weird_os.Kmalloc.Layout.{Block, end_of, span}
use weird_os.Kmalloc.Merge.{join}
use weird_os.Kmalloc.Split.{taken, remainder}
use mathlib.Core.List.{append_assoc}

unfoldable pub live : ℕ → List Block → List (ℕ × ℕ)
live p [] = []
live p (b ∷ bs) =
    if b.used then (p + header_size, b.size) ∷ live (end_of p b) bs else live (end_of p b) bs

pub live-used :
    (p : ℕ) (b : Block) (bs : List Block)
    → b.used ≡ true
    → live p (b ∷ bs) ≡ (p + header_size, b.size) ∷ live (end_of p b) bs
unfolding live
live-used p b bs h = ground arith

pub live-unused :
    (p : ℕ) (b : Block) (bs : List Block) → b.used ≡ false → live p (b ∷ bs) ≡ live (end_of p b) bs
unfolding live
live-unused p b bs h = ground arith

live-cons :
    (q : ℕ) (c : Block) (bs : List Block)
    → live q (c ∷ bs) ≡ live q (c ∷ []) ++ live (end_of q c) bs
unfolding live
live-cons q c bs = elim (Bool-cases c.used) [ inl h ↦ rw h | inr h ↦ rw h ]

live-nil : (q : ℕ) → live q [] ≡ []
unfolding live
live-nil q = refl

pub live-reverse_onto :
    (start : ℕ) (pre bs : List Block)
    → live start (reverse_onto pre bs)
      ≡ live start (reverse_onto pre []) ++ live (start + span pre) bs
unfolding span
live-reverse_onto start [] bs = rw (live-nil start) (ap (λ t. live t bs) (omega arith))
live-reverse_onto start (c ∷ pre) bs =
    let q : ℕ = start + span pre in
    let same : end_of q c ≡ start + span (c ∷ pre) = omega arith in
    rw (
      live-reverse_onto start pre (c ∷ bs),
      live-reverse_onto start pre (c ∷ []),
      live-cons q c bs,
      append_assoc,
      same,
    )

live-join :
    (p : ℕ) (b c : Block) (bs : List Block)
    → b.used ≡ false
    → c.used ≡ false
    → live p (join b c ∷ bs) ≡ live p (b ∷ c ∷ bs)
live-join p b c bs h k =
    rw (live-unused p (join b c) bs h, live-unused p b (c ∷ bs) h, live-unused (end_of p b) c bs k)
      (ap (λ t. live t bs) (omega arith))

live-absorb :
    (p : ℕ) (b : Block) (post : List Block)
    → b.used ≡ false
    → ((absorb b post).0.used ≡ false)
      × (live p ((absorb b post).0 ∷ (absorb b post).1) ≡ live p (b ∷ post))
live-absorb p b [] free = rw (absorb-nil b) (free, refl)
live-absorb p b (c ∷ post) free = elim (Bool-cases c.used) [
  | inl used ↦ rw (absorb-used b c post used) (free, refl)
  | inr unused ↦
      rw (absorb-unused b c post unused, ← live-join p b c post free unused)
        (live-absorb p (join b c) post free)
]

live-recede :
    (start : ℕ) (pre : List Block) (b : Block) (post : List Block)
    → b.used ≡ false
    → live start (reverse_onto (recede pre b).0 ((recede pre b).1 ∷ post))
      ≡ live start (reverse_onto pre (b ∷ post))
live-recede start [] b post free = rw (recede-nil b)
live-recede start (c ∷ pre) b post free = elim (Bool-cases c.used) [
  | inl used ↦ rw (recede-used c pre b used)
  | inr unused ↦
      let q : ℕ = start + span pre in
      rw (recede-unused c pre b unused) (
        live-recede start pre (join c b) post unused
        ∙ live-reverse_onto start pre (join c b ∷ post)
        ∙ ap (λ t. live start (reverse_onto pre []) ++ t) (live-join q c b post unused free)
        ∙ sym (live-reverse_onto start pre (c ∷ b ∷ post)))
]

-- free removes exactly one allocation, the freed one, and keeps the others in their places.
pub live-free_blocks :
    (start : ℕ) (pre : List Block) (b : Block) (post : List Block)
    → b.used ≡ true
    → (xs : List (ℕ × ℕ)) × (ys : List (ℕ × ℕ)) × (live start (reverse_onto pre (b ∷ post))
        ≡ xs ++ (start + span pre + header_size, b.size) ∷ ys)
      × (live start (free_blocks pre b post) ≡ xs ++ ys)
unfolding free_blocks
live-free_blocks start pre b post used =
    let q : ℕ = start + span pre in
    let (free, same) = live-absorb q (released b) post refl in
    (
      live start (reverse_onto pre []),
      live (end_of q b) post,
      rw (live-reverse_onto start pre (b ∷ post), live-used q b post used),
      live-recede start pre _ _ free
          ∙ live-reverse_onto start pre _
          ∙ rw (same, live-unused q (released b) post refl),
    )

-- alloc_internal adds exactly one allocation, of at least the size asked for, and keeps the others
-- in their places.
pub live-allocated_blocks :
    (size start : ℕ) (pre : List Block) (b : Block) (post : List Block)
    → b.used ≡ false
    → size ≤ b.size
    → (n : ℕ) × (xs : List (ℕ × ℕ)) × (ys : List (ℕ × ℕ)) × (size ≤ n)
      × (live start (reverse_onto pre (b ∷ post)) ≡ xs ++ ys)
      × (live start (allocated_blocks size pre b post)
          ≡ xs ++ (start + span pre + header_size, n) ∷ ys)
unfolding allocated_blocks cut
live-allocated_blocks size start pre b post free fits =
    let q : ℕ = start + span pre in
    let old = live-reverse_onto start pre (b ∷ post) in
    elim (Bool-cases (ltb (header_size + min_block_size) (b.size - size))) [
      | inl large ↦
          let whole : end_of (end_of q (taken size)) (remainder b size) ≡ end_of q b =
            ground arith in
          (
            size,
            live start (reverse_onto pre []),
            live (end_of q b) post,
            omega arith,
            rw (old, live-unused q b post free),
            rw (
              large,
              live-reverse_onto start pre (taken size ∷ remainder b size ∷ post),
              live-used q (taken size) (remainder b size ∷ post) refl,
              live-unused (end_of q (taken size)) (remainder b size) post refl,
              whole,
            ),
          )
      | inr small ↦ (
        b.size,
        live start (reverse_onto pre []),
        live (end_of q b) post,
        fits,
        rw (old, live-unused q b post free),
        rw (
          small,
          live-reverse_onto start pre (taken b.size ∷ post),
          live-used q (taken b.size) post refl,
        ),
      )
    ]

-- Allocations that follow one another between two addresses, each behind a header.
abbrev pub Ascending : (low high : ℕ) → List (ℕ × ℕ) → Type 0
Ascending low high [] = low ≤ high
Ascending low high ((a, n) ∷ rest) = (low + header_size ≤ a) × Ascending (a + n) high rest

Ascending-lower :
    (low mid high : ℕ) (xs : List (ℕ × ℕ))
    → low ≤ mid
    → Ascending mid high xs
    → Ascending low high xs
Ascending-lower low mid high [] h p = omega arith
Ascending-lower low mid high ((a, n) ∷ rest) h (q, p) = (omega arith, p)

-- The allocations of a heap do not overlap, neither one another nor the headers, and lie within
-- the heap.
pub live-Ascending : (p : ℕ) (bs : List Block) → Ascending p (p + span bs) (live p bs)
unfolding live span
live-Ascending p [] = omega arith
live-Ascending p (b ∷ bs) =
    let rest =
      subst (λ t. Ascending (end_of p b) t (live (end_of p b) bs)) (omega arith)
        (live-Ascending (end_of p b) bs) in
    elim (Bool-cases b.used) [
      | inl used ↦ simp used (omega arith, rest)
      | inr unused ↦ simp unused (Ascending-lower p (end_of p b) _ _ (omega arith) rest)
    ]
