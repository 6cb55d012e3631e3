-- ===== src/Kmalloc/Find.antt =====
-- Finding the block of an allocation in the heap of kernel/kmalloc.cpp.
use weird_os.Base.{
  ℕ, suc, ◌+◌, ◌-◌, ◌≤◌, ◌≡◌, refl, sym, ap, ◌∙◌, true, List, [], ◌∷◌, ◌++◌, arith, length,
  length-reverse_onto, drop, get_or, ltb, reverse_onto, Bool-cases, inl, inr,
}
use weird_os.Kmalloc.Memory.{header_size, min_block_size}
use weird_os.Kmalloc.Allocate.{cut, allocated_blocks}
use weird_os.Kmalloc.Layout.{Block, end_of, span}
use weird_os.Kmalloc.Live.{live, live-used, live-unused}
use weird_os.Kmalloc.Split.{taken, remainder}

-- The allocation `(q, n)` is that of block `b`, behind the blocks `pre`.
pub record Located (start : ℕ) (bs : List Block) (q n : ℕ) : Type 0 where
  pub pre : List Block
  pub b : Block
  pub post : List Block
  pub splits : reverse_onto pre (b ∷ post) ≡ bs
  pub address : q ≡ start + span pre + header_size
  pub size : b.size ≡ n
  pub used : b.used ≡ true

module _ {ℓ} {A : Type ℓ} where
  heads : {x y : A} {xs ys : List A} → x ∷ xs ≡ y ∷ ys → x ≡ y
  heads {x} e = ap (λ l. get_or l 0 x) e

  tails : {x y : A} {xs ys : List A} → x ∷ xs ≡ y ∷ ys → xs ≡ ys
  tails e = ap (drop 1) e

  -- An element of a list stays in it when another one is inserted.
  pub still_in :
      (front back xs ys : List A) (a e : A)
      → front ++ back ≡ xs ++ a ∷ ys
      → (xs' : List A) × (ys' : List A) × (front ++ e ∷ back ≡ xs' ++ a ∷ ys')
  still_in [] back xs ys a e same = (e ∷ xs, ys, ap (λ t. e ∷ t) same)
  still_in (f ∷ front) back [] ys a e same =
      ([], front ++ e ∷ back, ap (λ t. t ∷ (front ++ e ∷ back)) (heads same))
  still_in (f ∷ front) back (x ∷ xs) ys a e same =
      let (xs', ys', e') = still_in front back xs ys a e (tails same) in
      (f ∷ xs', ys', ap (λ t. f ∷ t) e')

live-Located_behind :
    (start p : ℕ) (front bs : List Block) (xs ys : List (ℕ × ℕ)) (q n : ℕ)
    → p ≡ start + span front
    → live p bs ≡ xs ++ (q, n) ∷ ys
    → Located start (reverse_onto front bs) q n
unfolding live span
live-Located_behind start p front [] [] ys q n at e = absurd (ground (arith, e))
live-Located_behind start p front [] (x ∷ xs) ys q n at e = absurd (ground (arith, e))
live-Located_behind start p front (c ∷ bs) [] ys q n at e = elim (Bool-cases c.used) [
  | inl used ↦
      let here = sym (live-used p c bs used) ∙ e in
      record {
        pre = front;
        b = c;
        post = bs;
        splits = refl;
        address = omega (arith, ap (λ (t : ℕ × ℕ). t.0) (heads here));
        size = ap (λ (t : ℕ × ℕ). t.1) (heads here);
        used = used;
      }
  | inr unused ↦
      live-Located_behind start (end_of p c) (c ∷ front) bs [] ys q n (omega arith)
        (sym (live-unused p c bs unused) ∙ e)
]
live-Located_behind start p front (c ∷ bs) (x ∷ xs) ys q n at e = elim (Bool-cases c.used) [
  | inl used ↦
      live-Located_behind start (end_of p c) (c ∷ front) bs xs ys q n (omega arith)
        (tails (sym (live-used p c bs used) ∙ e))
  | inr unused ↦
      live-Located_behind start (end_of p c) (c ∷ front) bs (x ∷ xs) ys q n (omega arith)
        (sym (live-unused p c bs unused) ∙ e)
]

pub live-Located :
    (start : ℕ) (bs : List Block) (xs ys : List (ℕ × ℕ)) (q n : ℕ)
    → live start bs ≡ xs ++ (q, n) ∷ ys
    → Located start bs q n
unfolding span
live-Located start bs xs ys q n e = live-Located_behind start start [] bs xs ys q n (omega arith) e

-- Allocating adds one block at most.
pub length-allocated_blocks :
    (size : ℕ) (pre : List Block) (b : Block) (post : List Block)
    → length (allocated_blocks size pre b post) ≤ suc (length (reverse_onto pre (b ∷ post)))
unfolding allocated_blocks cut
length-allocated_blocks size pre b post =
    elim (Bool-cases (ltb (header_size + min_block_size) (b.size - size))) [
      | inl large ↦ rw large (
          omega (
            arith,
            length-reverse_onto pre (taken size ∷ remainder b size ∷ post),
            length-reverse_onto pre (b ∷ post),
          ))
      | inr whole ↦ rw whole (
          omega (
            arith,
            length-reverse_onto pre (taken b.size ∷ post),
            length-reverse_onto pre (b ∷ post),
          ))
    ]
