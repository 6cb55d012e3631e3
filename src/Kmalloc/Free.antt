-- ===== src/Kmalloc/Free.antt =====
-- free of kernel/kmalloc.cpp: what it makes of the blocks.
use weird_os.Base.{
  ℕ, inl, inr, zero, suc, ◌+◌, ◌<◌, ◌≡◌, refl, subst, Bool, true, false, some, List, [], ◌∷◌, ◌∙◌,
  arith, length, if◌then◌else◌, Bool-cases, sub32, ◌==◌, ==_iff, reverse_onto, sub32-eq-sub,
}
use weird_os.Kmalloc.Memory.{Memory, is_used, is_valid, header_size, magic_number}
use weird_os.Kmalloc.Alloc.{merge_forwards, merge_backward, free}
use weird_os.Kmalloc.Layout.{
  Block, magic_of, header_of, end_of, After-nil, Before-nil, Before-cons, Focus-back, Focus-write,
  After-cons, After-span, Before-span, Focus, IsHeap, IsHeap-Focus, Focus-IsHeap, span,
}
use weird_os.Kmalloc.Merge.{join, merge_blocks-Focus}
use weird_os.Kmalloc.Returns.{Returns, returns, bind, weaken, load-ok, set_magic-ok}

pub is_valid-magic_of : (u : Bool) → is_valid (magic_of u) ≡ true
unfolding is_valid
is_valid-magic_of true = refl
is_valid-magic_of false = refl

pub is_used-magic_of : (u : Bool) → is_used (magic_of u) ≡ u
unfolding is_used
is_used-magic_of true = refl
is_used-magic_of false = refl

-- A block that takes in the free blocks behind it, and those that are left.
unfoldable pub absorb : Block → List Block → Block × List Block
absorb b [] = (b, [])
absorb b (c ∷ cs) = if c.used then (b, c ∷ cs) else absorb (join b c) cs

-- The free blocks before a block take it in; these lists are reversed.
unfoldable pub recede : List Block → Block → List Block × Block
recede [] b = ([], b)
recede (c ∷ cs) b = if c.used then (c ∷ cs, b) else recede cs (join c b)

pub absorb-nil : (b : Block) → absorb b [] ≡ (b, [])
unfolding absorb
absorb-nil b = refl

pub absorb-used : (b c : Block) (cs : List Block) → c.used ≡ true → absorb b (c ∷ cs) ≡ (b, c ∷ cs)
unfolding absorb
absorb-used b c cs h = ground arith

pub absorb-unused :
    (b c : Block) (cs : List Block) → c.used ≡ false → absorb b (c ∷ cs) ≡ absorb (join b c) cs
unfolding absorb
absorb-unused b c cs h = ground arith

pub recede-nil : (b : Block) → recede [] b ≡ ([], b)
unfolding recede
recede-nil b = refl

pub recede-used :
    (c : Block) (cs : List Block) (b : Block) → c.used ≡ true → recede (c ∷ cs) b ≡ (c ∷ cs, b)
unfolding recede
recede-used c cs b h = ground arith

pub recede-unused :
    (c : Block) (cs : List Block) (b : Block)
    → c.used ≡ false
    → recede (c ∷ cs) b ≡ recede cs (join c b)
unfolding recede
recede-unused c cs b h = ground arith

pub merge_forwards-absorb :
    (fuel : ℕ) {m : Memory} {start stop p : ℕ} {pre : List Block} (b : Block) (post : List Block)
    → Focus m.headers start stop p pre b post
    → length post < fuel
    → Returns
        (λ _ m'.
          Focus m'.headers start stop p pre (absorb b post).0 (absorb b post).1
          × (m'.bytes ≡ m.bytes))
        (merge_forwards fuel p m)
unfolding merge_forwards
merge_forwards-absorb zero b post f enough = absurd (omega arith)
merge_forwards-absorb (suc fuel) {m} {p} b [] f enough =
    let pos : 0 < p = omega (arith, Before-span f.before, f.low) in
    let z : (f.next == 0) ≡ true = (==_iff f.next 0).1 (After-nil f.after).1 in
    rw (load-ok m pos f.holds, z, absorb-nil b) (returns (f, refl))
merge_forwards-absorb (suc fuel) {m} {p} b (c ∷ post) f enough =
    let (q, e, hc, rest) = After-cons f.after in
    let pos : 0 < p = omega (arith, Before-span f.before, f.low) in
    let hb = subst (λ t. m.headers p ≡ some (header_of b t f.prev)) e f.holds in
    let nz : (end_of p b == 0) ≡ false = ground arith in
    rw (load-ok m pos hb, nz, load-ok m (omega arith) hc, is_valid-magic_of c.used)
      (elim (Bool-cases c.used) [
        | inl taken ↦
            rw (is_used-magic_of c.used ∙ taken, absorb-used b c post taken) (returns (f, refl))
        | inr unused ↦
            rw (is_used-magic_of c.used ∙ unused, absorb-unused b c post unused)
              (bind (merge_blocks-Focus f) λ _ m' (f', same).
                weaken (merge_forwards-absorb fuel (join b c) post f' (omega arith))
                  λ _ _ (g, same'). (g, same' ∙ same))
      ])

pub merge_backward-recede :
    (fuel : ℕ) {m : Memory} {start stop p : ℕ} (pre : List Block) (b : Block) {post : List Block}
    → Focus m.headers start stop p pre b post
    → length pre < fuel
    → Returns
        (λ _ m'.
          IsHeap m'.headers start stop (reverse_onto (recede pre b).0 ((recede pre b).1 ∷ post))
          × (m'.bytes ≡ m.bytes))
        (merge_backward fuel p m)
unfolding merge_backward
merge_backward-recede zero pre b f enough = absurd (omega arith)
merge_backward-recede (suc fuel) {m} {p} [] b f enough =
    let pos : 0 < p = omega (arith, Before-span f.before, f.low) in
    let z : (f.prev == 0) ≡ true = (==_iff f.prev 0).1 (Before-nil f.before).1 in
    rw (load-ok m pos f.holds, z, recede-nil b) (returns (Focus-IsHeap f, refl))
merge_backward-recede (suc fuel) {m} {p} (c ∷ pre) b f enough =
    let (f', e) = Focus-back f in
    let (_, pos', _, hc, _) = Before-cons f.before in
    let pos : 0 < p = omega (arith, Before-span f.before, f.low) in
    let nz : (f.prev == 0) ≡ false = ground arith in
    rw (load-ok m pos f.holds, nz, load-ok m pos' hc, is_valid-magic_of c.used)
      (elim (Bool-cases c.used) [
        | inl taken ↦
            rw (is_used-magic_of c.used ∙ taken, recede-used c pre b taken)
              (returns (Focus-IsHeap f, refl))
        | inr unused ↦
            rw (is_used-magic_of c.used ∙ unused, recede-unused c pre b unused, e)
              (bind (merge_blocks-Focus f') λ _ m' (g, same).
                weaken (merge_backward-recede fuel pre (join c b) g (omega arith))
                  λ _ _ (h, same'). (h, same' ∙ same))
      ])

-- What free does to the blocks: the block is marked unused and merged with its free neighbours.
abbrev pub released : Block → Block
released b = record b { used = false }

unfoldable pub free_blocks : (pre : List Block) (b : Block) (post : List Block) → List Block
free_blocks pre b post =
    let (b', post') = absorb (released b) post in
    let (pre', b'') = recede pre b' in reverse_onto pre' (b'' ∷ post')

-- free at the data of a used block does not fail, given fuel for every block. It leaves a
-- well-formed heap whose blocks are those of `free_blocks`, and it touches no data.
pub free-free_blocks :
    (fuel : ℕ) (m : Memory) (start stop : ℕ) (pre : List Block) (b : Block) (post : List Block)
    → IsHeap m.headers start stop (reverse_onto pre (b ∷ post))
    → b.used ≡ true
    → length pre < fuel
    → length post < fuel
    → Returns
        (λ _ m'. IsHeap m'.headers start stop (free_blocks pre b post) × (m'.bytes ≡ m.bytes))
        (free fuel (start + span pre + header_size) m)
unfolding free free_blocks
free-free_blocks fuel m start stop pre b post heap used enough enough' =
    let f = IsHeap-Focus pre b post heap in
    let p : ℕ = start + span pre in
    let pos : 0 < p = omega (arith, f.low) in
    let back : sub32 (p + header_size) header_size ≡ p =
      sub32-eq-sub (p + header_size) header_size (omega arith)
        (omega (arith, After-span f.after, f.high))
      ∙ omega arith in
    rw
      (
        back,
        load-ok m pos f.holds,
        used,
        is_valid-magic_of true,
        is_used-magic_of true,
        set_magic-ok m pos f.holds magic_number,
      )
      (bind (merge_forwards-absorb fuel (released b) post (Focus-write false f) enough')
        λ _ m' (g, same).
          weaken (merge_backward-recede fuel pre _ g enough) λ _ _ (h, same'). (h, same' ∙ same))
