-- ===== src/Process/Image.antt =====
-- A program's file in the heap, as exec_process of kernel/process.cpp reads it, for the loader of
-- includes/kernel/elf.h.
use weird_os.Base.{
  ℕ, ◌+◌, ◌-◌, ◌*◌, ◌≤◌, ◌<◌, ◌≡◌, ◌⊎◌, inl, inr, refl, ap, ◌∙◌, arith, true, ◌==◌, leb, ltb, List,
  [], ◌∷◌, length, get_or, All, Bool-cases, ==_iff,
}
use mathlib.Core.Path.{fun_ext}
use weird_os.Clib.Memory.{Bytes}
use weird_os.Fs.Syscalls.RamDisk.{store}
use weird_os.Loader.{ElfHeader, header, Program, program_size, is_elf}
use weird_os.Loader.Moved.{programs, header-moved, is_elf-moved, programs-moved}
use weird_os.Loader.Segments.{copied, placed, LoadsWell, IsProgram}

-- The bytes of a file, from address 0 on.
abbrev pub bytes_of : List ℕ → Bytes
bytes_of content a = get_or content a 0

abbrev pub segments_of : List ℕ → List Program
segments_of content = programs 0 (header 0 (bytes_of content)).phnum 0 (bytes_of content)

-- A segment lies in the file, and its target lies below 2 ^ 32 and does not touch the heap.
pub record FitsBeside (size start stop : ℕ) (ph : Program) : Type 0 where
  pub inside : ph.offset + ph.filesz ≤ size
  pub low : ph.vaddr + ph.filesz ≤ 0x1_0000_0000
  pub apart : (ph.vaddr + ph.filesz ≤ start) ⊎ (stop ≤ ph.vaddr)

-- The file is a program that the loader takes, and its segments keep clear of the heap.
pub record IsExecutable (content : List ℕ) (start stop : ℕ) : Type 0 where
  pub elf : is_elf 0 (bytes_of content) ≡ true
  pub header_fits : 52 ≤ length content
  pub some_segment : 0 < (header 0 (bytes_of content)).phnum
  pub sixteen_bits : (header 0 (bytes_of content)).phnum < 0x1_0000
  pub table_fits :
      (header 0 (bytes_of content)).phoff + (header 0 (bytes_of content)).phnum * program_size
      ≤ length content
  pub segments :
      All (λ ph. ph.p_type ≡ 1 → FitsBeside (length content) start stop ph) (segments_of content)

-- A segment's target does not depend on where the file lies.
pub placed-moved :
    (m l : Bytes) (p q size start stop : ℕ)
    → ((a : ℕ) → a < size → m (p + a) ≡ l (q + a))
    → (phs : List Program) (x : Bytes)
    → All (λ ph. ph.p_type ≡ 1 → FitsBeside size start stop ph) phs
    → placed p m phs x ≡ placed q l phs x
unfolding placed
placed-moved m l p q size start stop same [] x fits = refl
placed-moved m l p q size start stop same (ph ∷ phs) x (fit, fits) =
    elim (Bool-cases (ph.p_type == 1)) [
      | inl kind ↦
          let h = fit ((==_iff ph.p_type 1).0 kind) in
          let here : copied p m ph x ≡ copied q l ph x = fun_ext λ a.
            let moved : a - ph.vaddr + ph.offset < size
                → m (a - ph.vaddr + (p + ph.offset)) ≡ l (a - ph.vaddr + (q + ph.offset)) =
              λ low. ap m (omega arith) ∙ (same _ low ∙ ap l (omega arith)) in
            let inside = h.inside in ground (arith, moved) in
          rw (kind, here) (placed-moved m l p q size start stop same phs (copied q l ph x) fits)
      | inr other ↦ rw other (placed-moved m l p q size start stop same phs x fits)
    ]

-- Outside the heap, what the heap holds does not matter.
pub placed-outside :
    (file : Bytes) (phs : List Program) (x y : Bytes) (a : ℕ)
    → x a ≡ y a
    → placed 0 file phs x a ≡ placed 0 file phs y a
unfolding placed
placed-outside file [] x y a same = same
placed-outside file (ph ∷ phs) x y a same = elim (Bool-cases (ph.p_type == 1)) [
  | inl kind ↦ rw kind (placed-outside file phs _ _ a (rw same refl))
  | inr other ↦ rw other (placed-outside file phs x y a same)
]

-- The segments keep clear of the heap.
pub placed_in_heap :
    (file : Bytes) (size start stop : ℕ) (phs : List Program) (x : Bytes) (a : ℕ)
    → start ≤ a
    → a < stop
    → All (λ ph. ph.p_type ≡ 1 → FitsBeside size start stop ph) phs
    → placed 0 file phs x a ≡ x a
unfolding placed
placed_in_heap file size start stop [] x a low high fits = refl
placed_in_heap file size start stop (ph ∷ phs) x a low high (fit, fits) =
    elim (Bool-cases (ph.p_type == 1)) [
      | inl kind ↦
          let apart = (fit ((==_iff ph.p_type 1).0 kind)).apart in
          rw kind (placed_in_heap file size start stop phs _ a low high fits ∙ ground arith)
      | inr other ↦ rw other (placed_in_heap file size start stop phs x a low high fits)
    ]

module _ (content : List ℕ) (p : ℕ) (m : Bytes) where
  pub store-inside :
      (a : ℕ) → a < length content → store content p m (p + a) ≡ bytes_of content (0 + a)
  unfolding store
  store-inside a l =
      let e : p + a - p ≡ 0 + a = omega arith in
      let low : leb p (p + a) ≡ true = ground arith in
      let high : ltb (p + a) (p + length content) ≡ true = ground arith in rw (low, high, e) refl

  pub store-outside : (a : ℕ) → (a < p) ⊎ (p + length content ≤ a) → store content p m a ≡ m a
  unfolding store
  store-outside a l = ground arith

-- The file is a program where it lies in the heap, too.
module _ (content : List ℕ) (p : ℕ) (m : Bytes) (start stop : ℕ)
    (x : IsExecutable content start stop) where
  abbrev pub there : Bytes
  there = store content p m

  pub header_there : header p there ≡ header 0 (bytes_of content)
  header_there =
      header-moved there (bytes_of content) p 0 (length content) (store-inside content p m)
        x.header_fits

  pub elf_there : is_elf p there ≡ true
  elf_there =
      is_elf-moved there (bytes_of content) p 0 (length content) (store-inside content p m)
        x.header_fits
      ∙ x.elf

  pub segments_there : programs p (header p there).phnum 0 there ≡ segments_of content
  segments_there =
      ap (λ (h : ElfHeader). programs p h.phnum 0 there) header_there
      ∙ programs-moved there (bytes_of content) p 0 (length content) (store-inside content p m) _ 0
          x.header_fits (let t = x.table_fits in omega arith)

  segments_LoadsWell :
      start ≤ p
      → p + length content ≤ stop
      → (phs : List Program)
      → All (λ ph. ph.p_type ≡ 1 → FitsBeside (length content) start stop ph) phs
      → All (LoadsWell p (length content)) phs
  segments_LoadsWell low high [] fits = tt
  segments_LoadsWell low high (ph ∷ phs) (fit, fits) = (
    (λ kind. record {
      inside = (fit kind).inside;
      low = (fit kind).low;
      apart = (let apart = (fit kind).apart in omega arith);
    }),
    segments_LoadsWell low high phs fits,
  )

  pub there-IsProgram :
      start ≤ p
      → p + length content ≤ stop
      → stop < 0x1_0000_0000
      → IsProgram p (length content) there
  there-IsProgram low high bounded = record {
    file_low = omega arith;
    header_fits = x.header_fits;
    some_segment = rw header_there x.some_segment;
    sixteen_bits = rw header_there x.sixteen_bits;
    table_fits = rw header_there x.table_fits;
    segments = rw segments_there (segments_LoadsWell low high (segments_of content) x.segments);
  }
