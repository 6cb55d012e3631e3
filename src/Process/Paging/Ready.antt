-- ===== src/Process/Paging/Ready.antt =====
-- What initialise_paging of kernel/page.cpp sets up: the map, the frames, the heap and the process.
use weird_os.Base.{
  ℕ, suc, ◌+◌, ◌*◌, ◌≤◌, ◌<◌, ◌≡◌, ◌%◌, ◌^◌, refl, arith, true, false, add32, sub32, ◌==◌, ==_iff,
  ◌∙◌, leb, ltb, ◌&&◌, if◌then◌else◌, some, none, List, [], ◌∷◌,
}
use weird_os.Kmalloc.Alloc.{first_unused, is_better, best_fit, get_suitable_block, alloc_internal}
use weird_os.Kmalloc.Blocks.{create_heap, link_back, get_memory_address, create_new_block_header}
use weird_os.Kmalloc.Kernel.{
  Kernel, kmalloc, kmalloc_ap, kmalloc_internal, write_phys, operator_new, placement,
}
use weird_os.Kmalloc.Layout.{Block, IsHeap, block, last}
use weird_os.Kmalloc.Memory.{
  Memory, write, load, set_magic, set_size, set_next, set_previous, is_used, is_valid,
}
use weird_os.Kmalloc.Returns.{Returns, returns}
use weird_os.Page.Directory
use weird_os.Page.Directory.{get_phys}
use weird_os.Page.DirectoryLaws.{get_phys-fork_page}
use weird_os.Page.Frames.{
  Frames, first_frame, first_frame_from, first_clear, all_ones, initial_frames, lock_words,
}
use weird_os.Process.Paging.{
  Paged, initialise_paging, fork_page, new_process, init_kernal_heap, init_kernel_process,
  kheap_start, kheap_size,
}
use weird_os.Process.Threads
use weird_os.Process.Threads.{Processes, new, trap_frame, poke_word, trap_frame_size}
use weird_os.Clib.Memory.{Bytes, memset}
use weird_os.Clib.MemoryLaws.{memset-fills}
use weird_os.Process.ThreadLaws.{IsConsistent, init_kernel_process-IsConsistent}

-- The process, the counter of its parent, its thread, the thread's stack, and the rest of the heap.
abbrev pub first_blocks : List Block
first_blocks =
    record { size = 2076; used = true }
    ∷ record { size = 8; used = true }
    ∷ record { size = 16; used = true }
    ∷ record { size = 0x2000; used = true }
    ∷ record { size = 4183932; used = false }
    ∷ []

abbrev pub heap_end : ℕ
heap_end = 0xd040_0000

-- The first address of the fourth block's data.
abbrev pub stack_address : ℕ
stack_address = 0xd000_0874

pub record Ready (ps : Processes) (old : Memory) (b : Paged) (m : Memory) : Type 0 where
  pub heap : b.kernel.kheap ≡ some (record { first_block = kheap_start; size = kheap_size })
  pub well_formed : IsHeap m.headers kheap_start heap_end first_blocks
  pub kernel_mapped :
      (a : ℕ) → a < 0x40_0000 → get_phys (0xc000_0000 + a) b.kernel.kernel_directory ≡ some a
  pub heap_mapped :
      (a : ℕ)
      → a < kheap_size
      → get_phys (kheap_start + a) b.kernel.kernel_directory ≡ some (0x40_0000 + a)
  pub apart : b.frames_at + 4 * 0x200 ≤ b.kernel.kernel_directory.physical_addr + 0xc000_0000
  pub free_frame : first_frame b.frames ≡ 0x800
  pub consistent : IsConsistent b.processes
  pub runs_process : b.processes.current_running_process ≡ some ps.next_pid
  pub runs_thread : b.processes.current_running_thread ≡ some ps.next_tid
  pub stack :
      b.processes.threads ps.next_tid
      ≡ some (record { state = new; esp = stack_address; parent = ps.next_pid })
  pub bytes_below : (a : ℕ) → a < 0xc020_0000 → m.bytes a ≡ old.bytes a

free_frame-initial_frames : (behind : Frames) → first_frame (initial_frames behind) ≡ 0x800
unfolding first_frame first_frame_from first_clear all_ones initial_frames lock_words
free_frame-initial_frames behind = refl

with_memory-IsConsistent :
    (ps : Processes) (m : ℕ → ℕ) → IsConsistent ps → IsConsistent (record ps { memory = m })
with_memory-IsConsistent ps m h = record {
  has_process = h.has_process;
  has_thread = h.has_thread;
  runs = h.runs;
}

poke_word-below : (m : Bytes) (p v a : ℕ) → a < p → poke_word m p v a ≡ m a
poke_word-below m p v a below = ground arith

trap_frame-below : (esp : ℕ) (m : Bytes) (a : ℕ) → a < esp → trap_frame esp m a ≡ m a
unfolding trap_frame
trap_frame-below esp m a below =
    let m0 = memset esp 0 trap_frame_size m in
    let m1 = poke_word m0 (esp + 28) 0xeaf in
    let m2 = poke_word m1 (esp + 16) 0xebf in
    let m3 = poke_word m2 (esp + 24) 0xecf in
    let outside : (if leb esp a && ltb a (esp + trap_frame_size) then 0 % 256 else m a) ≡ m a =
      ground arith in
    poke_word-below m3 (esp + 20) 0xedf a (omega arith)
    ∙ (poke_word-below m2 (esp + 24) 0xecf a (omega arith)
        ∙ (poke_word-below m1 (esp + 16) 0xebf a (omega arith)
            ∙ (poke_word-below m0 (esp + 28) 0xeaf a (omega arith)
                ∙ (memset-fills esp 0 trap_frame_size m a ∙ outside))))

new_thread :
    (directory esp : ℕ) (ps : Processes)
    → (Threads.init_kernel_process directory esp ps).threads ps.next_tid
      ≡ some (record { state = new; esp = esp; parent = ps.next_pid })
unfolding Threads.init_kernel_process Threads.process_t Threads.thread_t
new_thread directory esp ps =
    let here : (ps.next_tid == ps.next_tid) ≡ true = (==_iff ps.next_tid ps.next_tid).1 refl in
    rw here refl

-- initialise_paging, with fuel for five blocks, no heap yet, consistent processes and counters that do
-- not wrap around, returns. The heap is well-formed at 0xd0000000 and holds the kernel process, the
-- counter of its parent, its thread, the thread's stack and one free block. The 4 MB of the kernel and those of the heap have their physical
-- addresses, whatever the words behind the cleared part of the frame set hold the first free frame is
-- 2048, and the set, though it is allocated for a quarter of its bytes, ends before the page directory.
-- The processes are consistent, the new process and thread are the running ones, the thread's stack
-- pointer is the lowest address of its stack, and the bytes below the placement address are as before.
pub initialise_paging-Ready :
    (fuel : ℕ) (behind : Frames) (ps : Processes) (k : Kernel) (m : Memory)
    → k.kheap ≡ none
    → IsConsistent ps
    → ps.next_tid + 1 < 2 ^ 32
    → ps.next_pid + 1 < 2 ^ 32
    → Returns (Ready ps m) (initialise_paging (suc (suc (suc (suc (suc fuel))))) behind ps k m)
unfolding Threads.init_kernel_process initialise_paging fork_page new_process init_kernal_heap
    init_kernel_process create_heap link_back get_memory_address create_new_block_header
    first_unused is_better best_fit get_suitable_block alloc_internal write load set_magic set_size
    set_next set_previous is_used is_valid kmalloc kmalloc_ap kmalloc_internal write_phys
    operator_new placement sub32 add32 Directory.fork_page
initialise_paging-Ready fuel behind ps k m none_yet consistent tids pids =
    let made =
      init_kernel_process-IsConsistent 0x20_1000 0xd000_0874 (record ps { memory = m.bytes })
        (with_memory-IsConsistent ps m.bytes consistent) tids pids in
    rw none_yet (
      returns (record {
        heap = refl;
        well_formed = record {
          low = omega arith;
          high = omega arith;
          chain = block refl refl (
              block refl refl
                (block refl refl (block refl refl (block refl refl (last refl refl)))));
        };
        kernel_mapped = λ a l. (get_phys-fork_page 0x20_1000 a l).0;
        heap_mapped = λ a l. (get_phys-fork_page 0x20_1000 a l).1;
        apart = omega arith;
        free_frame = free_frame-initial_frames behind;
        consistent = made.0;
        runs_process = made.1;
        runs_thread = made.2;
        stack = new_thread 0x20_1000 stack_address (record ps { memory = m.bytes });
        bytes_below = λ a l. trap_frame-below stack_address m.bytes a (omega arith);
      }))
