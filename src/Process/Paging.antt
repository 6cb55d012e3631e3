-- ===== src/Process/Paging.antt =====
-- Paging switched on: initialise_paging of kernel/page.cpp, from the placement address to the
-- kernel's process. The load of CR3 is not here.
pub mod Ready
use weird_os.Base.{ℕ, ◌+◌, ◌/◌, Option, none, some, if◌then◌else◌, replicate, List, []}
use weird_os.Kmalloc.Blocks.{Heap, create_heap}
use weird_os.Kmalloc.Kernel.{Kernel, Placed, kmalloc, kmalloc_ap, operator_new}
use weird_os.Kmalloc.Memory.{Memory, Run, Cmd, ok, pure, ◌>>=◌, ◌>>◌}
use weird_os.Page.Directory.{PageDirectory}
use weird_os.Page.Directory
use weird_os.Page.Frames.{Frames, index_from_bit, initial_frames}
use weird_os.Process.Threads
use weird_os.Process.Threads.{Processes}

-- KHEAP_START and KHEAP_SIZE
abbrev pub kheap_start : ℕ
kheap_start = 0xd000_0000

abbrev pub kheap_size : ℕ
kheap_size = 0x40_0000

-- sizeof(page_directory): two arrays of 1024 words and one word, packed.
abbrev page_directory_size : ℕ
page_directory_size = 8196

-- sizeof(process_t) and sizeof(thread_t)
abbrev process_size : ℕ
process_size = 2076

abbrev thread_size : ℕ
thread_size = 16

-- sizeof(rc_counter)
abbrev rc_counter_size : ℕ
rc_counter_size = 8

-- init_kernal_heap
unfoldable pub init_kernal_heap : (size start : ℕ) → Kernel → Cmd Kernel
init_kernal_heap size start k = do
  heap ← create_heap size start
  pure (record k { kheap = some heap })

-- The memory that `new process_t(directory)` takes: the process, the counter that the default
-- constructor of its member `parent` makes, its thread and the thread's stack.
unfoldable pub new_process : (fuel : ℕ) → Kernel → Cmd ℕ
new_process fuel k = do
  process ← operator_new fuel process_size k
  counter ← operator_new fuel rc_counter_size k
  thread ← operator_new fuel thread_size k
  stack ← kmalloc fuel 0x2000 k
  pure stack.address

-- init_kernel_process, with the thread's trap frame written to memory.
unfoldable pub init_kernel_process : (fuel directory : ℕ) → Kernel → Processes → Cmd Processes
unfolding Threads.init_kernel_process
init_kernel_process fuel directory k ps = do
  stack ← new_process fuel k
  λ m.
      let ps' = Threads.init_kernel_process directory stack (record ps { memory = m.bytes }) in
      ok ps' (record m { bytes = ps'.memory })

abbrev or_zero : Option ℕ → ℕ
or_zero none = 0
or_zero (some a) = a

-- fork_page, and the placement address behind the directory.
unfoldable pub fork_page : (fuel : ℕ) → Kernel → Cmd (PageDirectory × ℕ)
fork_page fuel k = do
  dir ← kmalloc_ap fuel page_directory_size k
  pure (Directory.fork_page (or_zero dir.phys), dir.placement_address)

pub record Paged : Type 0 where
  pub kernel : Kernel
  pub frames_at : ℕ
  pub frames : Frames
  pub processes : Processes

-- The set takes as many bytes as it has words; `behind` is what stands in the words after them.
unfoldable pub initialise_paging : (fuel : ℕ) (behind : Frames) → Processes → Kernel → Cmd Paged
unfolding init_kernal_heap
initialise_paging fuel behind ps k = do
  let k0 = record k { placement_address = 0xc020_0000 }
  bits ← kmalloc fuel (index_from_bit (0x400_0000 / 0x1000)) k0
  (directory, placed) ← fork_page fuel (record k0 { placement_address = bits.placement_address })
  k1 ←
      init_kernal_heap kheap_size kheap_start
        (record k0 { placement_address = placed; kernel_directory = directory })
  ps' ← init_kernel_process fuel directory.physical_addr k1 ps
  pure (record {
    kernel = k1;
    frames_at = bits.address;
    frames = initial_frames behind;
    processes = ps';
  })
