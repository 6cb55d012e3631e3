-- ===== src/Kmalloc/Candidates.antt =====
-- The two loops of get_suitable_block of kernel/kmalloc.cpp: the first free block, and the best one.
use weird_os.Base.{
  ℕ, zero, suc, ◌+◌, ◌≤◌, ◌<◌, ◌≡◌, sym, subst, true, false, some, Option, List, [], ◌∷◌, ◌∙◌, Bool,
  arith, length, reverse_onto, All, All-reverse_onto, Bool-cases, inl, inr, ◌⊎◌, ◌==◌, ==_iff,
}
use weird_os.Kmalloc.Memory.{BlockHeader, Memory, Run, ok, assert_failed, no_unused_blocks}
use weird_os.Kmalloc.Alloc.{first_unused, is_better, best_fit}
use weird_os.Kmalloc.Free.{is_used-magic_of}
use weird_os.Kmalloc.Layout.{
  Block, header_of, end_of, After, After-cons, After-nil, Before-span, Focus, IsHeap, IsHeap-Focus,
  Focus-step, span,
}
use weird_os.Kmalloc.Returns.{load-ok}

-- `p` is the address of the free block `b`, one of the blocks `bs`.
pub record IsFreeAt (bs : List Block) (start p : ℕ) (b : Block) : Type 0 where
  pub pre : List Block
  pub post : List Block
  pub splits : reverse_onto pre (b ∷ post) ≡ bs
  pub address : p ≡ start + span pre
  pub unused : b.used ≡ false

-- No free block of at least the required size is smaller than `b`, and `b` has that size if any
-- free block has.
abbrev pub IsBestAmong : (required : ℕ) → Block → List Block → Type 0
IsBestAmong required b =
    All (λ c. c.used ≡ false → required ≤ c.size → (required ≤ b.size) × (b.size ≤ c.size))

abbrev pub AllUsed : List Block → Type 0
AllUsed = All (λ c. c.used ≡ true)

-- The first free block is found, or all the blocks `rest` are in use and the assertion fails.
pub data FindsUnused (m : Memory) (start : ℕ) (bs rest : List Block) : Run ℕ → Type 0 where
  found : {p : ℕ} (b : Block) → IsFreeAt bs start p b → FindsUnused m start bs rest (ok p m)
  exhausted : AllUsed rest → FindsUnused m start bs rest (assert_failed no_unused_blocks)

-- A best block is found, and memory is as before.
pub data FindsBest (required : ℕ) (m : Memory) (start : ℕ) (bs : List Block) : Run ℕ → Type 0 where
  found :
      {p : ℕ} (b : Block)
      → IsFreeAt bs start p b
      → IsBestAmong required b bs
      → FindsBest required m start bs (ok p m)

FindsUnused-cons :
    {m : Memory} {start : ℕ} {bs rest : List Block} {b : Block} {r : Run ℕ}
    → b.used ≡ true
    → FindsUnused m start bs rest r
    → FindsUnused m start bs (b ∷ rest) r
FindsUnused-cons used (found c at) = found c at
FindsUnused-cons used (exhausted all) = exhausted (used, all)

free_at :
    {hs : ℕ → Option BlockHeader} {start stop p : ℕ} {bs pre : List Block} {b : Block}
    {post : List Block}
    → Focus hs start stop p pre b post
    → reverse_onto pre (b ∷ post) ≡ bs
    → b.used ≡ false
    → IsFreeAt bs start p b
free_at f at unused = record {
  pre = _;
  post = _;
  splits = at;
  address = sym (Before-span f.before);
  unused = unused;
}

is_better-true :
    (u : Bool) (c b required : ℕ)
    → is_better u c b required ≡ true
    → (u ≡ false) × (required ≤ c) × ((c < b) ⊎ (b < required))
unfolding is_better
is_better-true u c b required h = ground arith

is_better-false :
    (u : Bool) (c b required : ℕ)
    → is_better u c b required ≡ false
    → u ≡ false
    → required ≤ c
    → (required ≤ b) × (b ≤ c)
unfolding is_better
is_better-false u c b required h free large = ground arith

-- The choice that the loop body makes keeps the candidate the best so far.
IsBestAmong-weaken :
    (required : ℕ) (b c : Block) (cs : List Block)
    → required ≤ c.size
    → ((c.size < b.size) ⊎ (b.size < required))
    → IsBestAmong required b cs
    → IsBestAmong required c cs
IsBestAmong-weaken required b c [] fits less best = tt
IsBestAmong-weaken required b c (d ∷ cs) fits less (h, best) = (
  λ free large. let (x, y) = h free large in (omega arith, omega arith),
  IsBestAmong-weaken required b c cs fits less best,
)

module _ (m : Memory) {start stop : ℕ} {bs : List Block}
    (heap : IsHeap m.headers start stop bs) where
  pub holds_at :
      {p : ℕ} {b : Block}
      → IsFreeAt bs start p b
      → (n : ℕ) × (q : ℕ) × (0 < p) × (m.headers p ≡ some (header_of b n q))
  holds_at {b} at =
      let f =
        IsHeap-Focus at.pre b at.post (subst (IsHeap m.headers start stop) (sym at.splits) heap) in
      (f.next, f.prev, omega (arith, at.address, f.low), rw at.address f.holds)

  pub first_unused-FindsUnused :
      (fuel : ℕ) {p : ℕ} (pre : List Block) (b : Block) (post : List Block)
      → Focus m.headers start stop p pre b post
      → reverse_onto pre (b ∷ post) ≡ bs
      → length post < fuel
      → FindsUnused m start bs (b ∷ post) (first_unused fuel p m)
  unfolding first_unused
  first_unused-FindsUnused zero pre b post f at enough = absurd (omega arith)
  first_unused-FindsUnused (suc fuel) {p} pre b [] f at enough =
      let pos : 0 < p = omega (arith, Before-span f.before, f.low) in
      let z : (f.next == 0) ≡ true = (==_iff f.next 0).1 (After-nil f.after).1 in
      rw (load-ok m pos f.holds) (elim (Bool-cases b.used) [
        | inr unused ↦
            rw (is_used-magic_of b.used ∙ unused) (FindsUnused.found b (free_at f at unused))
        | inl used ↦ rw (is_used-magic_of b.used ∙ used, z) (exhausted (used, tt))
      ])
  first_unused-FindsUnused (suc fuel) {p} pre b (c ∷ post) f at enough =
      let (q, e, hc, rest) = After-cons f.after in
      let pos : 0 < p = omega (arith, Before-span f.before, f.low) in
      let hb = subst (λ t. m.headers p ≡ some (header_of b t f.prev)) e f.holds in
      let nz : (end_of p b == 0) ≡ false = ground arith in
      rw (load-ok m pos hb) (elim (Bool-cases b.used) [
        | inr unused ↦
            rw (is_used-magic_of b.used ∙ unused) (FindsUnused.found b (free_at f at unused))
        | inl used ↦
            rw (is_used-magic_of b.used ∙ used, nz)
              (FindsUnused-cons used
                (first_unused-FindsUnused fuel (b ∷ pre) c post (Focus-step f) at (omega arith)))
      ])

  pub best_fit-FindsBest :
      (fuel required : ℕ) {p cur prev best : ℕ} (pre post : List Block) {b : Block}
      → After m.headers stop p cur prev post
      → p ≡ start + span pre
      → reverse_onto pre post ≡ bs
      → IsFreeAt bs start best b
      → IsBestAmong required b pre
      → length post < fuel
      → FindsBest required m start bs (best_fit fuel required cur best m)
  unfolding best_fit span
  best_fit-FindsBest zero required pre post after here at free sofar enough = absurd (omega arith)
  best_fit-FindsBest (suc fuel) required {cur} pre [] {b} after here at free sofar enough =
      let z : (cur == 0) ≡ true = (==_iff cur 0).1 (After-nil after).1 in
      let all = subst (IsBestAmong required b) at (All-reverse_onto _ pre [] sofar tt) in
      rw z (FindsBest.found b free all)
  best_fit-FindsBest (suc fuel) required {p} {best} pre (c ∷ post) {b} after here at free sofar
        enough =
      let (q, e, hc, rest) = After-cons after in
      let (n, o, posb, hb) = holds_at free in
      let pos : 0 < p = omega (arith, heap.low) in
      let nz : (p == 0) ≡ false = ground arith in
      let next : end_of p c ≡ start + span (c ∷ pre) = omega arith in
      rw (e, nz, load-ok m pos hc, load-ok m posb hb, is_used-magic_of c.used)
        (elim (Bool-cases (is_better c.used c.size b.size required)) [
          | inl better ↦
              let (unused, fits, less) = is_better-true c.used c.size b.size required better in
              let here_free : IsFreeAt bs start p c = record {
                pre = pre;
                post = post;
                splits = at;
                address = here;
                unused = unused;
              } in
              let best_now : IsBestAmong required c (c ∷ pre) = (
                (λ _ _. (fits, omega arith)),
                IsBestAmong-weaken required b c pre fits less sofar,
              ) in
              rw better (
                best_fit-FindsBest fuel required (c ∷ pre) post {b = c} rest next at here_free
                  best_now (omega arith))
          | inr worse ↦ rw worse (
              best_fit-FindsBest fuel required (c ∷ pre) post {b = b} rest next at free
                (is_better-false c.used c.size b.size required worse, sofar) (omega arith))
        ])
