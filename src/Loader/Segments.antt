-- ===== src/Loader/Segments.antt =====
-- The abstract description of loading a program, and one segment: elf_loader::load of
-- includes/kernel/elf.h.
use weird_os.Base.{
  ℕ, ◌+◌, ◌-◌, ◌*◌, ◌≤◌, ◌<◌, ◌≡◌, ◌⊎◌, inl, inr, refl, ap, ◌∙◌, arith, Bool, true, false, ◌&&◌,
  ◌==◌, leb, ltb, if◌then◌else◌, List, [], ◌∷◌, All, Option, Bool-cases, add32, add32-eq-add,
}
use weird_os.Clib.Memory.{Bytes, memcpy}
use weird_os.Clib.MemoryLaws.{memcpy-copies}
use mathlib.Core.Path.{fun_ext}
use weird_os.Loader.{
  header, Program, program_size, Machine, Loaded, loaded, load_failed, and_then, after_allocate,
  allocate_pages, is_writable, load_segment,
}
use weird_os.Loader.Moved.{programs}
use weird_os.Page.Frames.{Frames}
use weird_os.Page.Directory
use weird_os.Page.Directory.{PageDirectory, Mapped}
use weird_os.Page.Present.{
  map_pages, TablesFor, Keeps, KeepsAll, keeps, Tables-Keeps, and_then-KeepsAll, map_pages-KeepsAll,
  allocate-map_pages,
}
use weird_os.Kmalloc.Kernel.{Kernel}
use weird_os.Kmalloc.Memory.{BlockHeader, Memory, Run}

-- A segment of the file at `addr` in place.
abbrev pub copied : (addr : ℕ) (file : Bytes) → Program → Bytes → Bytes
copied addr file ph m a =
    if leb ph.vaddr a && ltb a (ph.vaddr + ph.filesz)
    then file (a - ph.vaddr + (addr + ph.offset))
    else m a

-- All segments of type PT_LOAD in place, a later one over an earlier one.
unfoldable pub placed : (addr : ℕ) (file : Bytes) → List Program → Bytes → Bytes
placed addr file [] m = m
placed addr file (ph ∷ phs) m =
    placed addr file phs (if ph.p_type == 1 then copied addr file ph m else m)

-- The pages for all segments of type PT_LOAD.
unfoldable pub map_segments : ℕ → List Program → Frames → PageDirectory → Mapped
map_segments fuel [] frames dir = Mapped.done frames dir
map_segments fuel (ph ∷ phs) frames dir =
    let mapped =
      Directory.and_then (map_pages fuel ph.vaddr ph.memsz false (is_writable ph) frames dir)
        (map_segments fuel phs) in
    if ph.p_type == 1 then mapped else map_segments fuel phs frames dir

-- Those pages, and the stack's.
abbrev pub map_program : ℕ → List Program → Frames → PageDirectory → Mapped
map_program fuel phs frames dir =
    Directory.and_then (map_segments fuel phs frames dir) (map_pages fuel 0 0x2000 false true)

-- Loading with the result `a`, and the heap's headers and the memory `m` behind it, if the pages can
-- be mapped.
abbrev pub with_memory :
    {A : Type 0} → (headers : ℕ → Option BlockHeader) → A → Bytes → Mapped → Loaded A
with_memory hs a m (Mapped.done frames dir) =
    loaded a (record { frames = frames; directory = dir; headers = hs; memory = m })
with_memory hs a m Mapped.failed = load_failed
with_memory hs a m Mapped.out_of_fuel = load_failed

pub bind-with_memory :
    {A B : Type 0} (hs : ℕ → Option BlockHeader) (x : A) (y : B) (m m' : Bytes)
    (dir : PageDirectory) (r : Mapped)
    → KeepsAll dir r
    → (next : A → Machine → Loaded B) (pages : Frames → PageDirectory → Mapped)
    → ((frames : Frames) (dir' : PageDirectory)
        → Keeps dir dir'
        → next x (record { frames = frames; directory = dir'; headers = hs; memory = m })
          ≡ with_memory hs y m' (pages frames dir'))
    → and_then (with_memory hs x m r) next ≡ with_memory hs y m' (Directory.and_then r pages)
bind-with_memory hs x y m m' dir (Mapped.done frames dir') (keeps keep) next pages h =
    h frames dir' keep
bind-with_memory hs x y m m' dir Mapped.failed kept next pages h = refl
bind-with_memory hs x y m m' dir Mapped.out_of_fuel kept next pages h = refl

then-memory :
    (hs : ℕ → Option BlockHeader) (m m' : Bytes) (f : Bytes → Bytes)
    → f m ≡ m'
    → (r : Mapped)
    → and_then {B = Unit {0}}
        (with_memory hs (tt {0}) m r)
        (λ _ t. loaded tt (record t { memory = f t.memory }))
      ≡ with_memory hs tt m' r
then-memory hs m m' f e (Mapped.done frames dir) =
    ap (λ n. with_memory hs tt n (Mapped.done frames dir)) e
then-memory hs m m' f e Mapped.failed = refl
then-memory hs m m' f e Mapped.out_of_fuel = refl

mapped-with_memory :
    (hs : ℕ → Option BlockHeader) (m : Bytes) (r : Mapped)
    → after_allocate (Run.ok r (record { headers = hs; bytes = m })) ≡ with_memory hs tt m r
mapped-with_memory hs m (Mapped.done frames dir) = refl
mapped-with_memory hs m Mapped.failed = refl
mapped-with_memory hs m Mapped.out_of_fuel = refl

pub allocate_pages-with_memory :
    (fuel : ℕ) (k : Kernel) (virt_addr n : ℕ) (is_kernel w : Bool) (s : Machine)
    → TablesFor virt_addr n s.directory
    → allocate_pages fuel k virt_addr n is_kernel w s
      ≡ with_memory s.headers tt s.memory
          (map_pages fuel virt_addr n is_kernel w s.frames s.directory)
unfolding allocate_pages
allocate_pages-with_memory fuel k virt_addr n is_kernel w s there =
    let m : Memory = record { headers = s.headers; bytes = s.memory } in
    ap after_allocate
      (allocate-map_pages fuel k m virt_addr n is_kernel w s.frames s.directory there)
    ∙ mapped-with_memory s.headers s.memory
        (map_pages fuel virt_addr n is_kernel w s.frames s.directory)

pub load_segment-skips :
    (addr fuel : ℕ) (k : Kernel) (ph : Program) (s : Machine)
    → ph.p_type == 1 ≡ false
    → load_segment fuel k addr ph s ≡ loaded tt s
unfolding load_segment
load_segment-skips addr fuel k ph s kind = rw (load_segment, kind) refl

module _ (addr size : ℕ) where
  -- A segment lies in the file, and its target lies below 2 ^ 32 and does not touch the file.
  pub record IsSegment (ph : Program) : Type 0 where
    pub inside : ph.offset + ph.filesz ≤ size
    pub low : ph.vaddr + ph.filesz ≤ 0x1_0000_0000
    pub apart : (ph.vaddr + ph.filesz ≤ addr) ⊎ (addr + size ≤ ph.vaddr)

  abbrev pub LoadsWell : Program → Type 0
  LoadsWell ph = ph.p_type ≡ 1 → IsSegment ph

  -- The header, the table of program headers and the segments lie in the file at `addr`, which lies
  -- below 2 ^ 32.
  pub record IsProgram (m : Bytes) : Type 0 where
    pub file_low : addr + size < 0x1_0000_0000
    pub header_fits : 52 ≤ size
    pub some_segment : 0 < (header addr m).phnum
    pub sixteen_bits : (header addr m).phnum < 0x1_0000
    pub table_fits : (header addr m).phoff + (header addr m).phnum * program_size ≤ size
    pub segments : All LoadsWell (programs addr (header addr m).phnum 0 m)

  abbrev pub Agrees : (file m : Bytes) → Type 0
  Agrees file m = (a : ℕ) → addr ≤ a → a < addr + size → m a ≡ file a

  pub offset-Agrees :
      {file m : Bytes} → Agrees file m → (a : ℕ) → a < size → m (addr + a) ≡ file (addr + a)
  offset-Agrees same a l = same (addr + a) (omega arith) (omega arith)

  -- The segment's copy leaves the file as it is.
  pub copied-Agrees :
      (file m : Bytes) (ph : Program)
      → IsSegment ph
      → Agrees file m
      → Agrees file (copied addr file ph m)
  copied-Agrees file m ph h same a low high = elim h.apart [
    | inl below ↦ ground (arith, same a low high)
    | inr above ↦ ground (arith, same a low high)
  ]

  memcpy-copied :
      (file m : Bytes) (ph : Program)
      → IsSegment ph
      → Agrees file m
      → addr + size < 0x1_0000_0000
      → memcpy ph.vaddr (add32 addr ph.offset) ph.filesz m ≡ copied addr file ph m
  memcpy-copied file m ph h same file_low =
      rw (add32-eq-add addr ph.offset (let inside = h.inside in omega arith)) (
        fun_ext λ a.
          let order : (ph.vaddr ≤ addr + ph.offset) ⊎ (addr + ph.offset + ph.filesz ≤ ph.vaddr) =
            let apart = h.apart in let inside = h.inside in omega arith in
          memcpy-copies ph.vaddr (addr + ph.offset) ph.filesz m a order
          ∙ (let inside = h.inside in
              let there = same (a - ph.vaddr + (addr + ph.offset)) in ground arith))

  pub load_segment-loads :
      (fuel : ℕ) (k : Kernel) (file : Bytes) (ph : Program) (s : Machine)
      → ph.p_type == 1 ≡ true
      → IsSegment ph
      → addr + size < 0x1_0000_0000
      → TablesFor ph.vaddr ph.memsz s.directory
      → Agrees file s.memory
      → load_segment fuel k addr ph s
        ≡ with_memory s.headers tt
            (copied addr file ph s.memory)
            (map_pages fuel ph.vaddr ph.memsz false (is_writable ph) s.frames s.directory)
  unfolding load_segment
  load_segment-loads fuel k file ph s kind h file_low there same =
      rw
        (
          load_segment,
          kind,
          allocate_pages-with_memory fuel k ph.vaddr ph.memsz false (is_writable ph) s there,
        )
        (then-memory s.headers s.memory (copied addr file ph s.memory)
          (memcpy ph.vaddr (add32 addr ph.offset) ph.filesz)
          (memcpy-copied file s.memory ph h same file_low)
          (map_pages fuel ph.vaddr ph.memsz false (is_writable ph) s.frames s.directory))

-- The directory has the page tables of all segments of type PT_LOAD.
abbrev pub AllTables : PageDirectory → List Program → Type 0
AllTables dir phs = All (λ ph. ph.p_type ≡ 1 → TablesFor ph.vaddr ph.memsz dir) phs

pub AllTables-Keeps :
    (dir dir' : PageDirectory) (phs : List Program)
    → Keeps dir dir'
    → AllTables dir phs
    → AllTables dir' phs
AllTables-Keeps dir dir' [] keep there = tt
AllTables-Keeps dir dir' (ph ∷ phs) keep (here, there) =
    ((λ kind. Tables-Keeps dir dir' keep (here kind)), AllTables-Keeps dir dir' phs keep there)

pub map_segments-KeepsAll :
    (fuel : ℕ) (phs : List Program) (frames : Frames) (dir : PageDirectory)
    → KeepsAll dir (map_segments fuel phs frames dir)
unfolding map_segments
map_segments-KeepsAll fuel [] frames dir = keeps λ j t e. (t, e)
map_segments-KeepsAll fuel (ph ∷ phs) frames dir = elim (Bool-cases (ph.p_type == 1)) [
  | inl kind ↦ rw kind (
      and_then-KeepsAll dir _ (map_segments fuel phs)
        (map_pages-KeepsAll fuel ph.vaddr ph.memsz false (is_writable ph) frames dir)
        (map_segments-KeepsAll fuel phs))
  | inr other ↦ rw other (map_segments-KeepsAll fuel phs frames dir)
]
