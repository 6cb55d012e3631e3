-- ===== src/Process.antt =====
-- Processes and threads: kernel/process.cpp. The memory holds the heap and the program's bytes; a
-- write through a segment into the heap's headers is not seen by the heap. The file's virtual
-- method `read` and its size are parameters.
pub mod Paging
pub mod Threads
pub mod ThreadLaws
pub mod Image
pub mod Starting
pub mod Exec
pub mod Tests
use weird_os.Base.{ℕ, ◌+◌, ◌%◌, ◌^◌, true, ◌==◌, if◌then◌else◌, Option, none, some, List, [], ◌∷◌}
use weird_os.Fs.Syscalls.RamDisk.{store}
use weird_os.Kmalloc.Alloc.{free}
use weird_os.Kmalloc.Kernel.{Kernel, kmalloc}
use weird_os.Kmalloc.Memory.{Memory, Assertion, Run, ok, assert_failed, wild, overlap, out_of_fuel}
use weird_os.Loader.{ElfLayout, Machine, Loaded, loaded, load_failed, is_elf, load}
use weird_os.Page.Directory.{PageDirectory}
use weird_os.Page.Frames.{Frames}

pub record State : Type 0 where
  pub memory : Memory
  pub frames : Frames
  pub directory : PageDirectory

-- `started` is the jump to the program's entry; `not_elf` and `unmapped` are assertions of the loader
-- and of the page allocator, `stopped` one of the heap; the others are faults.
pub data Executed : Type 0 where
  started : ElfLayout → State → Executed
  not_elf : Executed
  unmapped : Executed
  stopped : Assertion → Executed
  heap_fault : Executed
  device_fault : Executed

abbrev pub on_heap : {A : Type 0} → Run A → (A → Memory → Executed) → Executed
on_heap (ok a m) next = next a m
on_heap (assert_failed e) next = stopped e
on_heap wild next = heap_fault
on_heap overlap next = heap_fault
on_heap out_of_fuel next = heap_fault

abbrev pub on_loaded : Loaded ElfLayout → (ElfLayout → Machine → Executed) → Executed
on_loaded (loaded layout t) next = next layout t
on_loaded load_failed next = unmapped

-- `ino->read(data, ino->size, 0)`: the result, and the bytes written to `data`.
abbrev pub Reads : Type 0
Reads = (nbyte offset : ℕ) → Option (ℕ × List ℕ)

-- From the loader's constructor on: the file lies at `data`.
unfoldable pub run_file : (fuel : ℕ) → Kernel → (data_addr : ℕ) → State → Executed
run_file fuel k data_addr s =
    if is_elf data_addr s.memory.bytes
    then on_loaded
        (load fuel k data_addr (record {
          frames = s.frames;
          directory = s.directory;
          headers = s.memory.headers;
          memory = s.memory.bytes;
        }))
        (λ layout t.
          on_heap (free fuel data_addr (record { headers = t.headers; bytes = t.memory })) λ _ m.
            started layout (record { memory = m; frames = t.frames; directory = t.directory }))
    else not_elf

unfoldable pub exec_process : (fuel : ℕ) → Kernel → (size : ℕ) → Reads → State → Executed
unfolding kmalloc store
exec_process fuel k size read s = on_heap (kmalloc fuel size k s.memory) λ placed m.
    elim (read size 0) [
      | none ↦ device_fault
      | some (n, bs) ↦
          run_file fuel k placed.address
            (record s { memory = record m { bytes = store bs placed.address m.bytes } })
    ]
