-- ===== src/Loader/Tests.antt =====
-- A program of one segment in a file at 0x8000, loaded at 0x5000.
use weird_os.Base.{
  ◌≤◌, ◌+◌, ◌/◌, ◌==◌, if◌then◌else◌, none, some, refl, add32, ◌-◌, ◌≡◌, arith, true, false, ℕ,
  List, [], ◌∷◌, ◌++◌, get_or, replicate,
}
use weird_os.Page.Directory.{PageDirectory, fork_page, empty_page, round_up}
use weird_os.Page.Present.{Tables, TablesFor, first_page, end_page}
use weird_os.Kmalloc.Kernel.{Kernel}
use weird_os.Loader.{Machine}

-- A directory with a table for the first 4 MB.
abbrev pub one_table : PageDirectory
one_table = record (fork_page 0) { tables = λ j. if j == 0 then some (λ i. empty_page) else none }

pub one_table-Tables : (i end : ℕ) → end ≤ 0x40_0000 → Tables i end one_table
one_table-Tables i end low a above below =
    let first : (a / 0x1000 / 1024 == 0) ≡ true = ground arith in ((λ i. empty_page), rw first refl)

pub one_table-TablesFor :
    (virt_addr size : ℕ)
    → virt_addr + size + 0x1000 ≤ 0x40_0000
    → TablesFor virt_addr size one_table
unfolding round_up add32
one_table-TablesFor virt_addr size low =
    one_table-Tables (first_page virt_addr) (end_page virt_addr size) (ground arith)

-- No heap.
abbrev no_heap : Kernel
no_heap = record { kheap = none; placement_address = 0; kernel_directory = fork_page 0 }

abbrev machine : Machine
machine = record {
  frames = (true ∷ replicate 31 false) ∷ [];
  directory = one_table;
  headers = λ a. none;
  memory = λ a. a;
}

-- A file with one segment of four bytes, behind its header and its table.
abbrev pub program_file : List ℕ
program_file =
    (0x7f ∷ 0x45 ∷ 0x4c ∷ 0x46 ∷ replicate 16 0)
    ++ (1 ∷ 0 ∷ 0 ∷ 0 ∷ 0 ∷ 0x50 ∷ 0 ∷ 0 ∷ 52 ∷ 0 ∷ 0 ∷ 0 ∷ replicate 8 0)
    ++ (52 ∷ 0 ∷ 32 ∷ 0 ∷ 1 ∷ 0 ∷ 40 ∷ 0 ∷ 0 ∷ 0 ∷ 0 ∷ 0 ∷ [])
    ++ (1 ∷ 0 ∷ 0 ∷ 0 ∷ 84 ∷ 0 ∷ 0 ∷ 0 ∷ 0 ∷ 0x50 ∷ 0 ∷ 0 ∷ 0 ∷ 0 ∷ 0 ∷ 0 ∷ [])
    ++ (4 ∷ 0 ∷ 0 ∷ 0 ∷ 0 ∷ 0x10 ∷ 0 ∷ 0 ∷ 5 ∷ 0 ∷ 0 ∷ 0 ∷ 0 ∷ 0x10 ∷ 0 ∷ 0 ∷ [])
    ++ (10 ∷ 20 ∷ 30 ∷ 40 ∷ [])

abbrev loaded_machine : Machine
loaded_machine = record machine { memory = λ a. get_or program_file (a - 0x8000) 0 }
