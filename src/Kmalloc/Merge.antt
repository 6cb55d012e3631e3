-- ===== src/Kmalloc/Merge.antt =====
-- merge_blocks and the merging loops of free.
use weird_os.Base.{
  ℕ, ◌+◌, ◌<◌, ◌≡◌, refl, subst, false, some, List, ◌∷◌, arith, add32-eq-add, ◌==◌, ==_iff,
}
use weird_os.Kmalloc.Memory.{Memory, write, header_size}
use weird_os.Kmalloc.Blocks.{link_back, merge_blocks}
use weird_os.Kmalloc.Layout.{
  Block, header_of, end_of, After, last, block, After-cons, After-frame, After-span, Before-frame,
  Before-span, Focus, span,
}
use weird_os.Kmalloc.Returns.{
  Returns, returns, bind, load-ok, set_size-ok, set_next-ok, set_previous-ok,
}

-- Giving the block at `next` a new `previous` pointer.
pub record Relinked (m : Memory) (p : ℕ) (m' : Memory) : Type 0 where
  pub below : (a : ℕ) → a < p → m'.headers a ≡ m.headers a
  pub bytes : m'.bytes ≡ m.bytes

pub link_back-After :
    {m : Memory} {stop p next old : ℕ} {bs : List Block} (new : ℕ)
    → 0 < p
    → After m.headers stop p next old bs
    → Returns (λ _ m'. After m'.headers stop p next new bs × Relinked m p m') (link_back next new m)
unfolding link_back write
link_back-After new pos (last e z) =
    rw z (returns (last e refl, record { below = λ a l. refl; bytes = refl }))
link_back-After {m} {p} new pos (block {b} e h rest) =
    let nz : (p == 0) ≡ false = ground arith in
    rw (e, nz, set_previous-ok m pos h new)
      (returns (
        block refl (ground arith) (After-frame rest (ground arith)),
        record { below = ground arith; bytes = refl },
      ))

-- A block that takes its successor in.
abbrev pub join : Block → Block → Block
join b c = record { size = b.size + (c.size + header_size); used = b.used }

-- merge_blocks, on a block and the one that follows it, makes them one block, linked with its
-- neighbours in both directions. It does not fail and touches no data.
pub merge_blocks-Focus :
    {m : Memory} {start stop p : ℕ} {pre post : List Block} {b c : Block}
    → Focus m.headers start stop p pre b (c ∷ post)
    → Returns
        (λ _ m'. Focus m'.headers start stop p pre (join b c) post × (m'.bytes ≡ m.bytes))
        (merge_blocks p (end_of p b) m)
unfolding merge_blocks span write
merge_blocks-Focus {m} {stop} {p} {post} {b} {c} f =
    let (q, e, hc, rest) = After-cons f.after in
    let pos : 0 < p = omega (arith, Before-span f.before, f.low) in
    let hb = subst (λ t. m.headers p ≡ some (header_of b t f.prev)) e f.holds in
    let fits = After-span rest in
    rw
      (
        load-ok m pos hb,
        (==_iff (end_of p b) (end_of p b)).1 refl,
        load-ok m (omega arith) hc,
        set_next-ok m pos hb q,
      )
      (bind (link_back-After p (omega arith) (After-frame rest (ground arith))) λ _ m' (after, r).
        let hb' : m'.headers p ≡ some (header_of b q f.prev) = ground (arith, r.below p) in
        let hc' : m'.headers (end_of p b) ≡ some (header_of c q p) =
          ground (arith, r.below (end_of p b)) in
        rw
          (
            load-ok m' pos hb',
            load-ok m' (omega arith) hc',
            add32-eq-add c.size header_size (omega (arith, f.high)),
            add32-eq-add b.size (c.size + header_size) (omega (arith, f.high)),
            set_size-ok m' pos hb' (b.size + (c.size + header_size)),
          )
          (returns (
            record {
              prev = f.prev;
              next = q;
              low = f.low;
              high = f.high;
              holds = ground arith;
              before = Before-frame f.before (λ a l. ground (arith, r.below a));
              after =
                  After-frame (subst (λ t. After m'.headers stop t q p post) (omega arith) after)
                    (ground arith);
            },
            r.bytes,
          )))
