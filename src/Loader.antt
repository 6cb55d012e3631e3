-- ===== src/Loader.antt =====
-- The program loader of includes/kernel/elf.h, on the page allocator and the kernel's memcpy. The
-- file lies in memory at `addr`; numbers are read from it in the processor's byte order.
pub mod Layout
pub mod Moved
pub mod Segments
pub mod Tests
use weird_os.Base.{
  Option, add32, ℕ, zero, suc, ◌+◌, ◌-◌, ◌*◌, ◌/◌, ◌%◌, ◌≤◌, ◌<◌, ◌≡◌, ◌⊎◌, inl, inr, refl, arith,
  Bool, true, false, ◌&&◌, ◌==◌, not, leb, ltb, if◌then◌else◌, ==_iff,
}
use weird_os.Clib.Memory.{Bytes, memcpy}
use weird_os.Clib.MemoryLaws.{memcpy-copies}
use weird_os.Page.Frames.{Frames}
use weird_os.Kmalloc.Kernel.{Kernel}
use weird_os.Kmalloc.Memory.{BlockHeader, Run}
use weird_os.Page.Directory.{PageDirectory, Mapped}
use weird_os.Page.Tables.{allocate}

abbrev pub word_at : Bytes → ℕ → ℕ
word_at m a = m a + 256 * m (a + 1) + 65536 * m (a + 2) + 16777216 * m (a + 3)

abbrev pub half_at : Bytes → ℕ → ℕ
half_at m a = m a + 256 * m (a + 1)

-- The fields that the loader reads.
pub record ElfHeader : Type 0 where
  pub magic : ℕ
  pub version : ℕ
  pub entry : ℕ
  pub phoff : ℕ
  pub ehsize : ℕ
  pub phentsize : ℕ
  pub phnum : ℕ
  pub shentsize : ℕ

unfoldable pub header : (addr : ℕ) → Bytes → ElfHeader
header addr m = record {
  magic = word_at m addr;
  version = word_at m (addr + 20);
  entry = word_at m (addr + 24);
  phoff = word_at m (addr + 28);
  ehsize = half_at m (addr + 40);
  phentsize = half_at m (addr + 42);
  phnum = half_at m (addr + 44);
  shentsize = half_at m (addr + 46);
}

pub record Program : Type 0 where
  pub p_type : ℕ
  pub offset : ℕ
  pub vaddr : ℕ
  pub paddr : ℕ
  pub filesz : ℕ
  pub memsz : ℕ
  pub flags : ℕ
  pub align : ℕ

abbrev pub program_size : ℕ
program_size = 32

unfoldable pub program_header : (addr i : ℕ) → Bytes → Program
program_header addr i m =
    let p = addr + (header addr m).phoff + i * program_size in
    record {
      p_type = word_at m p;
      offset = word_at m (p + 4);
      vaddr = word_at m (p + 8);
      paddr = word_at m (p + 12);
      filesz = word_at m (p + 16);
      memsz = word_at m (p + 20);
      flags = word_at m (p + 24);
      align = word_at m (p + 28);
    }

-- The assertions of the constructor: the sizes are those of elf_header_t, program_t and
-- section_header_t.
unfoldable pub is_elf : (addr : ℕ) → Bytes → Bool
is_elf addr m =
    let h = header addr m in
    h.magic == 0x464c457f
    && (h.version == 1 && (h.ehsize == 52 && (h.phentsize == program_size && h.shentsize == 40)))

-- What loading changes: `headers` are those of the kernel heap.
pub record Machine : Type 0 where
  pub frames : Frames
  pub directory : PageDirectory
  pub headers : ℕ → Option BlockHeader
  pub memory : Bytes

pub record ElfLayout : Type 0 where
  pub entry : ℕ
  pub stack : ℕ

pub data Loaded (A : Type 0) : Type 0 where
  loaded : A → Machine → Loaded A
  load_failed : Loaded A

abbrev pub and_then : {A B : Type 0} → Loaded A → (A → Machine → Loaded B) → Loaded B
and_then (loaded a s) k = k a s
and_then load_failed k = load_failed

-- What page_allocator::allocate did; `load_failed` is a failed assertion or a fault in it.
abbrev pub after_allocate : Run Mapped → Loaded (Unit {0})
after_allocate (Run.ok (Mapped.done frames directory) m) =
    loaded tt
      (record { frames = frames; directory = directory; headers = m.headers; memory = m.bytes })
after_allocate (Run.ok Mapped.failed m) = load_failed
after_allocate (Run.ok Mapped.out_of_fuel m) = load_failed
after_allocate (Run.assert_failed e) = load_failed
after_allocate Run.wild = load_failed
after_allocate Run.overlap = load_failed
after_allocate Run.out_of_fuel = load_failed

unfoldable pub allocate_pages :
    ℕ
    → (k : Kernel) (virt_addr size : ℕ) (is_kernel is_writable : Bool) → Machine
    → Loaded (Unit {0})
unfolding allocate
allocate_pages fuel k virt_addr size is_kernel w s = after_allocate (
    allocate fuel virt_addr size is_kernel w k s.frames s.directory
      (record { headers = s.headers; bytes = s.memory }))

-- `ph->flags & PF_W`
abbrev pub is_writable : Program → Bool
is_writable ph = ph.flags / 2 % 2 == 1

-- The body of the loop of load, for the program header `ph`.
unfoldable pub load_segment : ℕ → (k : Kernel) (addr : ℕ) → Program → Machine → Loaded (Unit {0})
load_segment fuel k addr ph s =
    if not (ph.p_type == 1)
    then loaded tt s
    else and_then (allocate_pages fuel k ph.vaddr ph.memsz false (is_writable ph) s) (λ _ t.
      loaded tt (record t { memory = memcpy ph.vaddr (add32 addr ph.offset) ph.filesz t.memory }))

-- `for (i = 0; i < header()->phnum; i++)`. The headers are read from memory in every round; phnum
-- has 16 bits, so 2 ^ 16 + 1 rounds are enough.
unfoldable pub load_loop : ℕ → (k : Kernel) (addr rounds i : ℕ) → Machine → Loaded (Unit {0})
load_loop fuel k addr zero i s = load_failed
load_loop fuel k addr (suc rounds) i s =
    if ltb i (header addr s.memory).phnum
    then and_then (load_segment fuel k addr (program_header addr i s.memory) s)
        (λ _ t. load_loop fuel k addr rounds (i + 1) t)
    else loaded tt s

unfoldable pub load : ℕ → (k : Kernel) (addr : ℕ) → Machine → Loaded ElfLayout
load fuel k addr s =
    if (header addr s.memory).phnum == 0
    then load_failed
    else and_then (load_loop fuel k addr 0x1_0001 0 s) (λ _ t.
      and_then (allocate_pages fuel k 0 0x2000 false true t)
        (λ _ u. loaded (record { entry = (header addr u.memory).entry; stack = 0x2000 }) u))
