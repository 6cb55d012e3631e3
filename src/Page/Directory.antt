-- ===== src/Page/Directory.antt =====
-- Page directories of kernel/page.cpp: fork_page, get_phys, and what a page allocation comes to.
use weird_os.Base.{ℕ, ◌-◌, ◌/◌, ◌%◌, ◌^◌, false, Option, none, some, ◌==◌, if◌then◌else◌, add32}
use weird_os.Page.Frames.{Frames, Page}

abbrev pub PageTable : Type 0
PageTable = ℕ → Page

pub record PageDirectory : Type 0 where
  pub tables_physical : ℕ → ℕ
  pub tables : ℕ → Option PageTable
  pub physical_addr : ℕ

-- A write of one entry of an array.
abbrev pub update {ℓ} : {A : Type ℓ} → (ℕ → A) → ℕ → A → ℕ → A
update f i v j = if i == j then v else f j

abbrev pub empty_page : Page
empty_page = record {
  present = false;
  rw_bit = false;
  user = false;
  accessed = false;
  dirty = false;
  frame = 0;
}

-- KERNEL_PAGE_NUMBER and KHEAP_PAGE_NUMBER; the higher half starts at 0xc0000000.
abbrev pub kernel_page_number : ℕ
kernel_page_number = 0xc000_0000 / 2 ^ 22

abbrev pub kheap_page_number : ℕ
kheap_page_number = 0xd000_0000 / 2 ^ 22

unfoldable pub fork_page : (phys : ℕ) → PageDirectory
fork_page phys = record {
  tables_physical = update (update (λ _. 0) kernel_page_number 0x83) kheap_page_number 0x40_0083;
  tables = λ _. none;
  physical_addr = phys;
}

-- `none` is the failed assertion about pages of 4 kB.
unfoldable pub get_phys : (address : ℕ) → PageDirectory → Option ℕ
get_phys address dir =
    let table_idx = address / 0x1000 / 0x400 in
    let entry = dir.tables_physical table_idx in
    if entry / 0x80 % 2 == 1
    then some (add32 (entry - entry % 0x1000) (address % 0x40_0000))
    else none

-- Writing the page back through the pointer.
unfoldable pub set_page : PageDirectory → (table_idx idx : ℕ) → Page → PageDirectory
set_page dir table_idx idx page = elim (dir.tables table_idx) [
  | none ↦ dir
  | some table ↦ record dir { tables = update dir.tables table_idx (some (update table idx page)) }
]

pub data Mapped : Type 0 where
  done : Frames → PageDirectory → Mapped
  failed : Mapped
  out_of_fuel : Mapped

abbrev pub and_then : Mapped → (Frames → PageDirectory → Mapped) → Mapped
and_then (done frames dir) k = k frames dir
and_then failed k = failed
and_then out_of_fuel k = out_of_fuel

-- `size & 0xfff ? (size & 0xfffff000) + 0x1000 : size`
unfoldable pub round_up : ℕ → ℕ
round_up size = if size % 0x1000 == 0 then size else add32 (size - size % 0x1000) 0x1000
