-- ===== src/Kmalloc/Layout.antt =====
-- The abstract heap: the sizes and states of the blocks in address order, and what it means that
-- the doubly linked headers in memory represent them.
use weird_os.Base.{
  ℕ, ◌+◌, ◌≤◌, ◌<◌, ◌≡◌, refl, subst, Bool, true, false, Option, some, List, [], ◌∷◌, arith,
  reverse_onto,
}
use weird_os.Kmalloc.Memory.{BlockHeader, magic_number, header_size, write}

pub record Block : Type 0 where
  pub size : ℕ
  pub used : Bool

abbrev pub magic_of : Bool → ℕ
magic_of true = magic_number + 1
magic_of false = magic_number

abbrev pub header_of : Block → (next previous : ℕ) → BlockHeader
header_of b n p = record { magic = magic_of b.used; size = b.size; next = n; previous = p }

-- The bytes that blocks take, their headers included.
unfoldable pub span : List Block → ℕ
span [] = 0
span (b ∷ bs) = header_size + b.size + span bs

-- The address behind a block.
abbrev pub end_of : ℕ → Block → ℕ
end_of p b = p + header_size + b.size

module _ (hs : ℕ → Option BlockHeader) where
  -- The blocks below address `p`, the nearest first; `prev` is the `previous` pointer at `p`.
  pub data Before (start : ℕ) : (p prev : ℕ) → List Block → Type 0 where
    first : {p prev : ℕ} → p ≡ start → prev ≡ 0 → Before start p prev []
    behind :
        {p prev q : ℕ} {b : Block} {bs : List Block}
        → 0 < prev
        → p ≡ end_of prev b
        → hs prev ≡ some (header_of b p q)
        → Before start prev q bs
        → Before start p prev (b ∷ bs)

  -- The blocks from address `p` up to `stop`; `next` is the `next` pointer to the first of them.
  pub data After (stop : ℕ) : (p next prev : ℕ) → List Block → Type 0 where
    last : {p next prev : ℕ} → p ≡ stop → next ≡ 0 → After stop p next prev []
    block :
        {p next prev q : ℕ} {b : Block} {bs : List Block}
        → next ≡ p
        → hs p ≡ some (header_of b q prev)
        → After stop (end_of p b) q p bs
        → After stop p next prev (b ∷ bs)

  -- Block `b` at address `p`, between the blocks before it (reversed) and those after it.
  pub record Focus (start stop p : ℕ) (pre : List Block) (b : Block) (post : List Block)
      : Type 0 where
    pub prev : ℕ
    pub next : ℕ
    pub low : 0 < start
    pub high : stop < 0x1_0000_0000
    pub holds : hs p ≡ some (header_of b next prev)
    pub before : Before start p prev pre
    pub after : After stop (end_of p b) next p post

  -- The whole heap, which holds at least one block.
  pub record IsHeap (start stop : ℕ) (bs : List Block) : Type 0 where
    pub low : 0 < start
    pub high : stop < 0x1_0000_0000
    pub chain : After stop start start 0 bs

module _ {hs : ℕ → Option BlockHeader} where
  pub Before-span :
      {start p prev : ℕ} {bs : List Block} → Before hs start p prev bs → start + span bs ≡ p
  unfolding span
  Before-span (first e z) = omega arith
  Before-span (behind pos e h rest) = omega (arith, Before-span rest)

  pub After-span :
      {stop p next prev : ℕ} {bs : List Block} → After hs stop p next prev bs → p + span bs ≡ stop
  unfolding span
  After-span (last e z) = omega arith
  After-span (block e h rest) = omega (arith, After-span rest)

  -- Changes elsewhere do not matter.
  pub Before-frame :
      {gs : ℕ → Option BlockHeader} {start p prev : ℕ} {bs : List Block}
      → Before hs start p prev bs
      → ((a : ℕ) → a < p → gs a ≡ hs a)
      → Before gs start p prev bs
  Before-frame (first e z) same = first e z
  Before-frame (behind {prev} pos e h rest) same =
      behind pos e (ground (arith, same prev)) (Before-frame rest (λ a l. same a (omega arith)))

  pub After-frame :
      {gs : ℕ → Option BlockHeader} {stop p next prev : ℕ} {bs : List Block}
      → After hs stop p next prev bs
      → ((a : ℕ) → p ≤ a → gs a ≡ hs a)
      → After gs stop p next prev bs
  After-frame (last e z) same = last e z
  After-frame (block {p} e h rest) same =
      block e (ground (arith, same p)) (After-frame rest (λ a l. same a (omega arith)))

  pub After-cons :
      {stop p next prev : ℕ} {b : Block} {bs : List Block}
      → After hs stop p next prev (b ∷ bs)
      → (q : ℕ) × (next ≡ p)
        × (hs p ≡ some (header_of b q prev))
        × After hs stop (end_of p b) q p bs
  After-cons (block {q} e h rest) = (q, e, h, rest)

  pub After-nil : {stop p next prev : ℕ} → After hs stop p next prev [] → (p ≡ stop) × (next ≡ 0)
  After-nil (last e z) = (e, z)

  pub Before-nil : {start p prev : ℕ} → Before hs start p prev [] → (p ≡ start) × (prev ≡ 0)
  Before-nil (first e z) = (e, z)

  pub Before-cons :
      {start p prev : ℕ} {b : Block} {bs : List Block}
      → Before hs start p prev (b ∷ bs)
      → (q : ℕ) × (0 < prev)
        × (p ≡ end_of prev b)
        × (hs prev ≡ some (header_of b p q))
        × Before hs start prev q bs
  Before-cons (behind {q} pos e h rest) = (q, pos, e, h, rest)

  -- From the middle to the whole, and back.
  zip :
      {start stop p prev : ℕ} {pre : List Block} (b : Block) (post : List Block)
      → Before hs start p prev pre
      → After hs stop p p prev (b ∷ post)
      → After hs stop start start 0 (reverse_onto pre (b ∷ post))
  zip b post (first e z) rest = rw (← e, ← z) rest
  zip {stop} b post (behind {p} {prev} {b = c} pos e h before) rest =
      zip c (b ∷ post) before (block refl h (subst (λ t. After hs stop t p prev (b ∷ post)) e rest))

  pub Focus-IsHeap :
      {start stop p : ℕ} {pre : List Block} {b : Block} {post : List Block}
      → Focus hs start stop p pre b post
      → IsHeap hs start stop (reverse_onto pre (b ∷ post))
  Focus-IsHeap {b} {post} f = record {
    low = f.low;
    high = f.high;
    chain = zip b post f.before (block refl f.holds f.after);
  }

  pub Focus-step :
      {start stop p : ℕ} {pre : List Block} {b c : Block} {post : List Block}
      → Focus hs start stop p pre b (c ∷ post)
      → Focus hs start stop (end_of p b) (b ∷ pre) c post
  Focus-step {p} {b} f =
      let (q, e, h, rest) = After-cons f.after in
      record {
        prev = p;
        next = q;
        low = f.low;
        high = f.high;
        holds = h;
        before =
            behind (omega (arith, Before-span f.before, f.low)) refl
              (subst (λ t. hs p ≡ some (header_of b t f.prev)) e f.holds) f.before;
        after = rest;
      }

  pub Focus-back :
      {start stop p : ℕ} {pre : List Block} {b c : Block} {post : List Block}
      → (f : Focus hs start stop p (c ∷ pre) b post)
      → Focus hs start stop f.prev pre c (b ∷ post) × (p ≡ end_of f.prev c)
  Focus-back {stop} {p} {b} {post} f =
      let (q, pos, e, h, rest) = Before-cons f.before in
      (
        record {
          prev = q;
          next = p;
          low = f.low;
          high = f.high;
          holds = h;
          before = rest;
          after = subst (λ t. After hs stop t p f.prev (b ∷ post)) e (block refl f.holds f.after);
        },
        e,
      )

  -- The magic number of the middle block may change.
  pub Focus-write :
      {start stop p : ℕ} {pre : List Block} {b : Block} {post : List Block} (u : Bool)
      → (f : Focus hs start stop p pre b post)
      → Focus
          (write hs p (header_of (record b { used = u }) f.next f.prev))
          start
          stop
          p
          pre
          (record b { used = u })
          post
  unfolding write
  Focus-write u f = record {
    prev = f.prev;
    next = f.next;
    low = f.low;
    high = f.high;
    holds = ground arith;
    before = Before-frame f.before (ground arith);
    after = After-frame f.after (ground arith);
  }

  pub IsHeap-Focus :
      {start stop : ℕ} (pre : List Block) (b : Block) (post : List Block)
      → IsHeap hs start stop (reverse_onto pre (b ∷ post))
      → Focus hs start stop (start + span pre) pre b post
  unfolding span
  IsHeap-Focus {start} {stop} [] b post h =
      let (q, e, holds, rest) = After-cons h.chain in
      subst (λ t. Focus hs start stop t [] b post) (omega arith)
        (record {
          prev = 0;
          next = q;
          low = h.low;
          high = h.high;
          holds = holds;
          before = first refl refl;
          after = rest;
        })
  IsHeap-Focus {start} {stop} (c ∷ pre) b post h =
      subst (λ t. Focus hs start stop t (c ∷ pre) b post) (omega arith)
        (Focus-step (IsHeap-Focus pre c (b ∷ post) h))
