-- ===== src/Process/Tests.antt =====
-- A program of one segment, executed with the heap of the tests on kernel/kmalloc.cpp.
use weird_os.Base.{refl, arith, inr, true, false, none, some, [], ◌∷◌, replicate}
use weird_os.Kmalloc.Kernel.{Kernel}
use weird_os.Kmalloc.Memory.{Memory}
use weird_os.Kmalloc.Returns.{Returns}
use weird_os.Process.Paging.{initialise_paging}
use weird_os.Process.Paging.Ready.{Ready, initialise_paging-Ready}
use weird_os.Kmalloc.Tests.{heap_memory, kheap}
use weird_os.Loader.{header, program_header, is_elf}
use weird_os.Loader.Moved.{programs}
use weird_os.Loader.Tests.{program_file, one_table, one_table-TablesFor}
use weird_os.Loader.Segments.{AllTables}
use weird_os.Page.Directory.{fork_page}
use weird_os.Process.Threads.{Processes}
use weird_os.Process.ThreadLaws.{IsConsistent}
use weird_os.Process.{State, Reads}
use weird_os.Process.Image.{IsExecutable, segments_of}

abbrev pub kernel : Kernel
kernel = record { kheap = some kheap; placement_address = 0; kernel_directory = fork_page 0 }

abbrev pub state : State
state = record {
  memory = heap_memory;
  frames = (true ∷ replicate 31 false) ∷ [];
  directory = one_table;
}

abbrev reads : Reads
reads nbyte offset = some (88, program_file)

pub program_file-IsExecutable : IsExecutable program_file 0x1000 0x10c4
unfolding is_elf header programs program_header
program_file-IsExecutable = record {
  elf = refl;
  header_fits = omega arith;
  some_segment = omega arith;
  sixteen_bits = omega arith;
  table_fits = omega arith;
  segments =
      ((λ kind. record { inside = omega arith; low = omega arith; apart = inr (omega arith) }), tt);
}

pub program_file-AllTables : AllTables one_table (segments_of program_file)
unfolding header programs program_header
program_file-AllTables = ((λ kind. one_table-TablesFor 0x5000 0x1000 (omega arith)), tt)

-- No process yet.
abbrev pub nobody : Processes
nobody = record {
  next_tid = 0;
  next_pid = 0;
  threads = λ i. none;
  processes = λ i. none;
  current_running_process = none;
  current_running_thread = none;
  memory = λ a. 7;
}

pub nobody-IsConsistent : IsConsistent nobody
nobody-IsConsistent = record {
  has_process = λ i t e. ground (arith, e);
  has_thread = λ i p e. ground (arith, e);
  runs = λ i e. ground (arith, e);
}

-- No heap yet.
abbrev pub early_kernel : Kernel
early_kernel = record { kheap = none; placement_address = 0; kernel_directory = fork_page 0 }

abbrev pub early_memory : Memory
early_memory = record { headers = λ a. none; bytes = λ a. a }

initialise_paging-Ready_example :
    Returns (Ready nobody early_memory) (initialise_paging 12 [] nobody early_kernel early_memory)
initialise_paging-Ready_example =
    initialise_paging-Ready 7 [] nobody early_kernel early_memory refl nobody-IsConsistent
      (omega arith) (omega arith)
