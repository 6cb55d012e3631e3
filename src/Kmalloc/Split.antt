-- ===== src/Kmalloc/Split.antt =====
-- create_new_block_header of kernel/kmalloc.cpp: cutting a block in two.
use weird_os.Base.{
  ℕ, ◌+◌, ◌-◌, ◌≤◌, ◌<◌, ◌≡◌, refl, subst, true, false, some, List, ◌∷◌, Bool, arith, add32, sub32,
}
use weird_os.Kmalloc.Memory.{Memory, write, header_size, set_used}
use weird_os.Kmalloc.Blocks.{create_new_block_header}
use weird_os.Kmalloc.Layout.{
  Block, magic_of, header_of, After, block, After-frame, After-span, Before-frame, Before-span,
  Focus,
}
use weird_os.Kmalloc.Merge.{link_back-After}
use weird_os.Kmalloc.Returns.{
  Returns, returns, bind, load-ok, set_size-ok, set_next-ok, set_magic-ok, stored, write_self,
}

set_used-magic_of : (u : Bool) → set_used (magic_of u) ≡ magic_of true
set_used-magic_of true = refl
set_used-magic_of false = refl

new_block_address :
    (p size : ℕ)
    → p + header_size + size < 0x1_0000_0000
    → add32 (add32 p size) header_size ≡ p + header_size + size
unfolding add32
new_block_address p size h = omega arith

remainder_size :
    (total size : ℕ)
    → size + header_size ≤ total
    → total < 0x1_0000_0000
    → sub32 (sub32 total size) header_size ≡ total - size - header_size
unfolding sub32
remainder_size total size h small = omega arith

-- The two parts: the first is in use, the rest is free.
abbrev pub taken : ℕ → Block
taken size = record { size = size; used = true }

abbrev pub remainder : Block → ℕ → Block
remainder b size = record { size = b.size - size - header_size; used = false }

-- create_new_block_header, on a block that has room for the size and one more header, cuts it into
-- a used block of the size and a free block of the rest, both linked with their neighbours in both
-- directions. It touches no data.
pub create_new_block_header-Focus :
    {m : Memory} {start stop p : ℕ} {pre post : List Block} {b : Block} (size : ℕ)
    → Focus m.headers start stop p pre b post
    → size + header_size ≤ b.size
    → Returns
        (λ _ m'.
          Focus m'.headers start stop p pre (taken size) (remainder b size ∷ post)
          × (m'.bytes ≡ m.bytes))
        (create_new_block_header p size m)
unfolding create_new_block_header write
create_new_block_header-Focus {m} {stop} {p} {post} {b} size f room =
    let fits = After-span f.after in
    let pos : 0 < p = omega (arith, Before-span f.before, f.low) in
    let new : ℕ = p + header_size + size in
    let h = header_of b f.next f.prev in
    rw (new_block_address p size (omega (arith, f.high)), load-ok m pos f.holds)
      (bind (link_back-After new (omega arith) f.after) λ _ m₁ (after, r).
        let h₁ : m₁.headers p ≡ some h = ground (arith, r.below p) in
        let m₂ = stored m₁ new (header_of (remainder b size) f.next p) in
        let h₂ : m₂.headers p ≡ some h = ground arith in
        let m₃ = stored m₂ p (record h { next = new }) in
        let h₃ = write_self m₂.headers p (record h { next = new }) in
        let m₄ = stored m₃ p (record h { next = new; size = size }) in
        let h₄ = write_self m₃.headers p (record h { next = new; size = size }) in
        rw
          (
            load-ok m₁ pos h₁,
            remainder_size b.size size room (omega (arith, f.high)),
            set_next-ok m₂ pos h₂ new,
            set_size-ok m₃ pos h₃ size,
            load-ok m₄ pos h₄,
            set_magic-ok m₄ pos h₄ (set_used (magic_of b.used)),
            set_used-magic_of b.used,
          )
          (returns (
            record {
              prev = f.prev;
              next = new;
              low = f.low;
              high = f.high;
              holds = ground arith;
              before = Before-frame f.before (λ a l. ground (arith, r.below a));
              after = block refl (ground arith) (
                  After-frame
                    (subst (λ t. After m₁.headers stop t f.next new post) (omega arith) after)
                    (ground arith));
            },
            r.bytes,
          )))
