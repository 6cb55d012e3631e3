-- ===== src/Util/Strings/Concat.antt =====
-- operator+ of includes/util/string.h: what the new string reads.
use weird_os.Base.{
  ℕ, suc, ◌+◌, ◌≤◌, ◌<◌, ◌≡◌, ◌≢◌, refl, sym, ap, ◌∙◌, subst, arith, true, false, ◌==◌, List, [],
  ◌∷◌, ◌++◌, length, add32, add32-eq-add, ==_iff, All,
}
use weird_os.Kmalloc.Alloc.{alloc_internal}
use weird_os.Kmalloc.Blocks.{Heap}
use weird_os.Kmalloc.Candidates.{AllUsed}
use weird_os.Kmalloc.Coalesced.{Coalesced}
use weird_os.Kmalloc.Contract.{Inserts, Holds, Grants, granted, alloc_internal-Grants}
use weird_os.Kmalloc.Layout.{Block, IsHeap}
use weird_os.Kmalloc.Live.{live, Ascending}
use weird_os.Kmalloc.Contract.{IsHeap-Ascending}
use weird_os.Kmalloc.Memory.{
  Memory, Run, Cmd, ok, pure, ◌>>=◌, ◌>>◌, and_then, assert_failed, wild, overlap, out_of_fuel,
  copy_bytes, no_unused_blocks, out_of_heap_space,
}
use weird_os.Util.Strings.{Str, put, kmalloc, with_length, concat}
use weird_os.Util.Strings.Apart.{In, Ascending-apart}
use weird_os.Util.Strings.Joined.{Text, Beside, joined-Text, joined-Text_new}

-- The outcomes of operator+ for strings with the characters `xs` and `ys`.
pub data Concats (m : Memory) (start stop : ℕ) (bs : List Block) (s o : Str) (xs ys : List ℕ)
    : Run Str → Type 0 where
  made :
      {t : Str} {m' : Memory} (n : ℕ) (after : List (ℕ × ℕ))
      → t.length < n
      → Holds m' start stop after
      → Inserts (t.chars, n) (live start bs) after
      → Text m'.bytes t (xs ++ ys)
      → m'.bytes (t.chars + t.length) ≡ 0
      → Text m'.bytes s xs
      → Text m'.bytes o ys
      → Concats m start stop bs s o xs ys (ok t m')
  exhausted : AllUsed bs → Concats m start stop bs s o xs ys (assert_failed no_unused_blocks)
  too_small :
      All (λ c. c.used ≡ false → c.size < suc (length xs + length ys)) bs
      → Concats m start stop bs s o xs ys (assert_failed out_of_heap_space)

-- What follows the allocation.
abbrev ended : (s o : Str) → ℕ → Cmd Str
ended s o p = do
  put p 0
  put (p + add32 s.length o.length) 0
  pure (record { chars = p; length = add32 s.length o.length })

abbrev both_copied : (s o : Str) → Str → Cmd Str
both_copied s o out = do
  copy_bytes out.chars s.chars s.length
  copy_bytes (out.chars + s.length) o.chars o.length
  put (out.chars + out.length) 0
  pure out

abbrev concat_rest : (s o : Str) → ℕ → Cmd Str
concat_rest s o p = ended s o p >>= both_copied s o

and_then_assoc :
    {A B C : Type 0} (r : Run A) (f : A → Cmd B) (g : B → Cmd C)
    → and_then (and_then r f) g ≡ and_then r (λ a. f a >>= g)
and_then_assoc (ok a m) f g = refl
and_then_assoc (assert_failed e) f g = refl
and_then_assoc wild f g = refl
and_then_assoc overlap f g = refl
and_then_assoc out_of_fuel f g = refl

module _ (m : Memory) (start stop : ℕ) (bs : List Block) (s o : Str) (xs ys : List ℕ) (i j : ℕ)
    (reads_s : Text m.bytes s xs) (reads_o : Text m.bytes o ys)
    (in_s : In s.chars i (live start bs)) (in_o : In o.chars j (live start bs))
    (fits_s : s.length ≤ i) (fits_o : o.length ≤ j)
    (small : suc (s.length + o.length) < 0x1_0000_0000) where
  rest-Concats :
      {r : Run ℕ}
      → Grants (suc (s.length + o.length)) m start stop bs r
      → Concats m start stop bs s o xs ys (and_then r (concat_rest s o))
  unfolding put copy_bytes
  rest-Concats (Grants.exhausted all) = Concats.exhausted all
  rest-Concats (Grants.too_small few) = Concats.too_small (
      subst (λ z. All (λ c. c.used ≡ false → c.size < z) bs)
        (omega (arith, reads_s.size, reads_o.size)) few)
  rest-Concats (granted {p} {m' = m1} n after large holds added same) =
      let fresh : Ascending start stop (added.front ++ (p, n) ∷ added.back) =
        subst (Ascending start stop) (holds.in_use ∙ added.with_it)
          (IsHeap-Ascending m1 start stop holds.blocks holds.heap) in
      let apart_s =
        Ascending-apart added.front added.back start stop p n s.chars i fresh
          (subst (In s.chars i) added.without in_s) in
      let apart_o =
        Ascending-apart added.front added.back start stop p n o.chars j fresh
          (subst (In o.chars j) added.without in_o) in
      let beside_s : Beside p (s.length + o.length) s.chars s.length = ground arith in
      let beside_o : Beside p (s.length + o.length) o.chars o.length = ground arith in
      rw (add32-eq-add s.length o.length (omega arith), same)
        (made n after large
          (record {
            blocks = holds.blocks;
            heap = holds.heap;
            tidy = holds.tidy;
            in_use = holds.in_use;
          })
          added (joined-Text_new p s o m.bytes xs ys beside_s beside_o reads_s reads_o)
          (let h : (p + (s.length + o.length) == p + (s.length + o.length)) ≡ true =
              (==_iff (p + (s.length + o.length)) (p + (s.length + o.length))).1 refl in
            rw h refl)
          (joined-Text p s.chars s.length o.chars o.length m.bytes s xs
            (let e = reads_s.size in ground arith) reads_s)
          (joined-Text p s.chars s.length o.chars o.length m.bytes o ys
            (let e = reads_o.size in ground arith) reads_o))

-- operator+ of two strings that lie in allocations of a well-formed, coalesced heap, and may be the
-- same string, where the sum of their lengths fits a word. It allocates room for both and a final 0;
-- the new string reads as the one followed by the other, both operands read as before, and the heap
-- gains that allocation alone. Or it stops at an assertion of alloc_internal, which tells why no
-- free block serves.
pub concat-Concats :
    (fuel : ℕ) (m : Memory) (heap : Heap) (stop : ℕ) (bs : List Block) (s o : Str) (xs ys : List ℕ)
    (i j : ℕ)
    → IsHeap m.headers heap.first_block stop bs
    → Coalesced bs
    → bs ≢ []
    → length bs < fuel
    → Text m.bytes s xs
    → Text m.bytes o ys
    → In s.chars i (live heap.first_block bs)
    → In o.chars j (live heap.first_block bs)
    → s.length ≤ i
    → o.length ≤ j
    → suc (s.length + o.length) < 0x1_0000_0000
    → Concats m heap.first_block stop bs s o xs ys (concat fuel heap s o m)
unfolding concat with_length kmalloc
concat-Concats fuel m heap stop bs s o xs ys i j h tidy some_block enough reads_s reads_o in_s in_o
      fits_s fits_o small =
    let size : add32 (add32 s.length o.length) 1 ≡ suc (s.length + o.length) =
      ap (λ z. add32 z 1) (add32-eq-add s.length o.length (omega arith))
      ∙ (add32-eq-add (s.length + o.length) 1 (omega arith) ∙ omega arith) in
    let rest =
      rest-Concats m heap.first_block stop bs s o xs ys i j reads_s reads_o in_s in_o fits_s fits_o
        small
        (alloc_internal-Grants fuel (suc (s.length + o.length)) m heap bs h tidy some_block
          enough) in
    rw size (
      subst (Concats m heap.first_block stop bs s o xs ys)
        (sym (
          and_then_assoc (alloc_internal fuel (suc (s.length + o.length)) false heap m) (ended s o)
            (both_copied s o)))
        rest)
