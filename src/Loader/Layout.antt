-- ===== src/Loader/Layout.antt =====
-- What loading a program does as a whole: elf_loader::load of includes/kernel/elf.h.
use weird_os.Base.{
  ℕ, zero, suc, ◌+◌, ◌*◌, ◌≤◌, ◌<◌, ◌≡◌, inl, inr, refl, sym, ap, ◌∙◌, arith, true, false, ◌==◌,
  ltb, ==_iff, Bool-cases, List, [], ◌∷◌, All, Option,
}
use weird_os.Clib.Memory.{Bytes}
use weird_os.Loader.{
  ElfHeader, header, Program, program_size, program_header, Machine, ElfLayout, loaded, and_then,
  is_writable, load_loop, load,
}
use weird_os.Loader.Moved.{programs, header-moved, program_header-moved}
use weird_os.Page.Frames.{Frames}
use weird_os.Page.Directory
use weird_os.Page.Directory.{PageDirectory, Mapped}
use weird_os.Page.Present.{map_pages, TablesFor, Tables-Keeps, map_pages-KeepsAll}
use weird_os.Kmalloc.Kernel.{Kernel}
use weird_os.Kmalloc.Memory.{BlockHeader}
use weird_os.Loader.Segments.{
  copied, placed, map_segments, map_program, with_memory, LoadsWell, IsProgram, Agrees,
  offset-Agrees, copied-Agrees, bind-with_memory, allocate_pages-with_memory, load_segment-loads,
  load_segment-skips, AllTables, AllTables-Keeps, map_segments-KeepsAll,
}

module _ (addr size : ℕ) where
  -- The abstract description, by the type of the first segment.
  first_load :
      (fuel : ℕ) (hs : ℕ → Option BlockHeader) (file m : Bytes) (ph : Program) (phs : List Program)
      (frames : Frames) (dir : PageDirectory)
      → ph.p_type == 1 ≡ true
      → with_memory hs tt (placed addr file (ph ∷ phs) m) (map_segments fuel (ph ∷ phs) frames dir)
        ≡ with_memory hs tt (placed addr file phs (copied addr file ph m)) (
            Directory.and_then
              (map_pages fuel ph.vaddr ph.memsz false (is_writable ph) frames dir)
              (map_segments fuel phs))
  unfolding placed map_segments
  first_load fuel hs file m ph phs frames dir kind = rw kind refl

  first_skip :
      (fuel : ℕ) (hs : ℕ → Option BlockHeader) (file m : Bytes) (ph : Program) (phs : List Program)
      (frames : Frames) (dir : PageDirectory)
      → ph.p_type == 1 ≡ false
      → with_memory hs tt (placed addr file (ph ∷ phs) m) (map_segments fuel (ph ∷ phs) frames dir)
        ≡ with_memory hs tt (placed addr file phs m) (map_segments fuel phs frames dir)
  unfolding placed map_segments
  first_skip fuel hs file m ph phs frames dir kind = rw kind refl

  load_loop-loads :
      (fuel : ℕ) (k : Kernel) (file : Bytes) (rounds n i : ℕ) (s : Machine)
      → n < rounds
      → i + n ≡ (header addr file).phnum
      → 52 ≤ size
      → (header addr file).phoff + (header addr file).phnum * program_size ≤ size
      → addr + size < 0x1_0000_0000
      → All (LoadsWell addr size) (programs addr n i file)
      → AllTables s.directory (programs addr n i file)
      → Agrees addr size file s.memory
      → load_loop fuel k addr rounds i s
        ≡ with_memory s.headers tt
            (placed addr file (programs addr n i file) s.memory)
            (map_segments fuel (programs addr n i file) s.frames s.directory)
  unfolding load_loop programs placed map_segments
  load_loop-loads fuel k file zero n i s enough at fits table low wells there same =
      absurd (omega arith)
  load_loop-loads fuel k file (suc rounds) zero i s enough at fits table low wells there same =
      let header_same =
        header-moved s.memory file addr addr size (offset-Agrees addr size same) fits in
      let end : ltb i (header addr file).phnum ≡ false = ground arith in rw (header_same, end) refl
  load_loop-loads fuel k file (suc rounds) (suc n) i s enough at fits table low (well, wells)
        (here, there) same =
      let header_same =
        header-moved s.memory file addr addr size (offset-Agrees addr size same) fits in
      let more : ltb i (header addr file).phnum ≡ true = ground arith in
      let ph = program_header addr i file in
      let phs = programs addr n (i + 1) file in
      let read =
        program_header-moved s.memory file addr addr size (offset-Agrees addr size same) i fits
          (omega arith) in
      rw (header_same, more, read)
        (elim (Bool-cases (ph.p_type == 1)) [
          | inl kind ↦
              let h = well ((==_iff ph.p_type 1).0 kind) in
              let tables = here ((==_iff ph.p_type 1).0 kind) in
              rw (load_segment-loads addr size fuel k file ph s kind h low tables same) (
                bind-with_memory s.headers tt tt (copied addr file ph s.memory)
                  (placed addr file phs (copied addr file ph s.memory)) s.directory _
                  (map_pages-KeepsAll fuel ph.vaddr ph.memsz false (is_writable ph) s.frames
                    s.directory)
                  _ (map_segments fuel phs)
                  λ frames dir keep.
                    load_loop-loads fuel k file rounds n (i + 1) _ (omega arith) (omega arith) fits
                      table low wells (AllTables-Keeps s.directory dir phs keep there)
                      (copied-Agrees addr size file s.memory ph h same))
              ∙ sym (first_load fuel s.headers file s.memory ph phs s.frames s.directory kind)
          | inr other ↦
              rw (load_segment-skips addr fuel k ph s other) (
                load_loop-loads fuel k file rounds n (i + 1) s (omega arith) (omega arith) fits
                  table low wells there same)
              ∙ sym (first_skip fuel s.headers file s.memory ph phs s.frames s.directory other)
        ])

  then-layout :
      (hs : ℕ → Option BlockHeader) (m : Bytes) (g : Bytes → ElfLayout) (x : ElfLayout)
      → g m ≡ x
      → (r : Mapped)
      → and_then {A = Unit {0}} (with_memory hs tt m r) (λ _ u. loaded (g u.memory) u)
        ≡ with_memory hs x m r
  then-layout hs m g x e (Mapped.done frames dir) = rw e refl
  then-layout hs m g x e Mapped.failed = refl
  then-layout hs m g x e Mapped.out_of_fuel = refl

  placed-Agrees :
      (file : Bytes) (phs : List Program) (m : Bytes)
      → All (LoadsWell addr size) phs
      → Agrees addr size file m
      → Agrees addr size file (placed addr file phs m)
  unfolding placed
  placed-Agrees file [] m wells same = same
  placed-Agrees file (ph ∷ phs) m (well, wells) same = elim (Bool-cases (ph.p_type == 1)) [
    | inl kind ↦ rw kind (
        placed-Agrees file phs _ wells
          (copied-Agrees addr size file m ph (well ((==_iff ph.p_type 1).0 kind)) same))
    | inr other ↦ rw other (placed-Agrees file phs m wells same)
  ]

  pub load-places :
      (fuel : ℕ) (k : Kernel) (s : Machine)
      → IsProgram addr size s.memory
      → AllTables s.directory (programs addr (header addr s.memory).phnum 0 s.memory)
      → TablesFor 0 0x2000 s.directory
      → let phs = programs addr (header addr s.memory).phnum 0 s.memory in
        load fuel k addr s
        ≡ with_memory s.headers
            (record { entry = (header addr s.memory).entry; stack = 0x2000 })
            (placed addr s.memory phs s.memory)
            (map_program fuel phs s.frames s.directory)
  unfolding load
  load-places fuel k s h tables stack_tables =
      let n = (header addr s.memory).phnum in
      let phs = programs addr n 0 s.memory in
      let m = placed addr s.memory phs s.memory in
      let same : Agrees addr size s.memory s.memory = λ a low high. refl in
      let some_segment : (n == 0) ≡ false = let positive = h.some_segment in ground arith in
      let bits = h.sixteen_bits in
      let run =
        load_loop-loads fuel k s.memory 0x1_0001 n 0 s (omega arith) (omega arith) h.header_fits
          h.table_fits h.file_low h.segments tables same in
      let after = placed-Agrees s.memory phs s.memory h.segments same in
      rw (load, some_segment, run)
        (bind-with_memory s.headers tt _ m m s.directory
          (map_segments fuel phs s.frames s.directory)
          (map_segments-KeepsAll fuel phs s.frames s.directory) _ _
          λ frames dir keep.
            rw
              (allocate_pages-with_memory fuel k 0 0x2000 false true
                (record { frames = frames; directory = dir; headers = s.headers; memory = m })
                (Tables-Keeps s.directory dir keep stack_tables))
              (then-layout s.headers m
                (λ u. record { entry = (header addr u).entry; stack = 0x2000 }) _
                (ap (λ (e : ElfHeader). record { entry = e.entry; stack = 0x2000 })
                  (header-moved m s.memory addr addr size (offset-Agrees addr size after)
                    h.header_fits))
                (map_pages fuel 0 0x2000 false true frames dir)))
