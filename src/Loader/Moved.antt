-- ===== src/Loader/Moved.antt =====
-- What the loader of includes/kernel/elf.h reads depends on the file alone, not on the place where
-- it lies in memory.
use weird_os.Base.{ℕ, zero, suc, ◌+◌, ◌*◌, ◌≤◌, ◌<◌, ◌≡◌, refl, ap, ◌∙◌, arith, List, [], ◌∷◌}
use weird_os.Clib.Memory.{Bytes}
use weird_os.Loader.{word_at, half_at, header, Program, program_size, program_header, is_elf}

-- The program headers from the `i`-th on.
unfoldable pub programs : (addr n i : ℕ) → Bytes → List Program
programs addr zero i m = []
programs addr (suc n) i m = program_header addr i m ∷ programs addr n (i + 1) m

-- `size` bytes at `p` in `m` are those at `q` in `l`.
module _ (m l : Bytes) (p q size : ℕ) (same : (a : ℕ) → a < size → m (p + a) ≡ l (q + a)) where
  behind : (a k : ℕ) → a + k < size → m (p + a + k) ≡ l (q + a + k)
  behind a k h = ap m (omega arith) ∙ (same (a + k) h ∙ ap l (omega arith))

  half_at-moved : (a : ℕ) → a + 2 ≤ size → half_at m (p + a) ≡ half_at l (q + a)
  half_at-moved a h =
      let b0 = same a (omega arith) in let b1 = behind a 1 (omega arith) in omega arith

  word_at-moved : (a : ℕ) → a + 4 ≤ size → word_at m (p + a) ≡ word_at l (q + a)
  word_at-moved a h =
      let b0 = same a (omega arith) in
      let b1 = behind a 1 (omega arith) in
      let b2 = behind a 2 (omega arith) in let b3 = behind a 3 (omega arith) in omega arith

  word_at-first : 4 ≤ size → word_at m p ≡ word_at l q
  word_at-first h =
      ap (word_at m) (omega arith) ∙ (word_at-moved 0 (omega arith) ∙ ap (word_at l) (omega arith))

  pub header-moved : 52 ≤ size → header p m ≡ header q l
  unfolding header
  header-moved fits = cc (
    word_at-first (omega arith),
    word_at-moved 20 (omega arith),
    word_at-moved 24 (omega arith),
    word_at-moved 28 (omega arith),
    half_at-moved 40 (omega arith),
    half_at-moved 42 (omega arith),
    half_at-moved 44 (omega arith),
    half_at-moved 46 (omega arith),
  )

  pub is_elf-moved : 52 ≤ size → is_elf p m ≡ is_elf q l
  unfolding is_elf
  is_elf-moved fits = rw (header-moved fits) refl

  pub program_header-moved :
      (i : ℕ)
      → 52 ≤ size
      → (header q l).phoff + (i + 1) * program_size ≤ size
      → program_header p i m ≡ program_header q i l
  unfolding program_header
  program_header-moved i fits inside =
      let o = (header q l).phoff in
      let word : (k : ℕ)
          → k + 4 ≤ 32
          → word_at m (p + o + i * program_size + k) ≡ word_at l (q + o + i * program_size + k) =
        λ k h.
          ap (word_at m) (omega arith)
          ∙ (word_at-moved (o + i * program_size + k) (omega arith)
              ∙ ap (word_at l) (omega arith)) in
      let first : word_at m (p + o + i * program_size) ≡ word_at l (q + o + i * program_size) =
        ap (word_at m) (omega arith)
        ∙ (word_at-moved (o + i * program_size) (omega arith) ∙ ap (word_at l) (omega arith)) in
      rw (header-moved fits) (
        cc (
          first,
          word 4 (omega arith),
          word 8 (omega arith),
          word 12 (omega arith),
          word 16 (omega arith),
          word 20 (omega arith),
          word 24 (omega arith),
          word 28 (omega arith),
        ))

  pub programs-moved :
      (n i : ℕ)
      → 52 ≤ size
      → (header q l).phoff + (i + n) * program_size ≤ size
      → programs p n i m ≡ programs q n i l
  unfolding programs
  programs-moved zero i fits inside = refl
  programs-moved (suc n) i fits inside =
      cc (program_header-moved i fits (omega arith), programs-moved n (i + 1) fits (omega arith))
