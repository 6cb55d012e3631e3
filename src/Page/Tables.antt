-- ===== src/Page/Tables.antt =====
-- get_page and page_allocator::allocate of kernel/page.cpp. A new page table comes from the kernel
-- heap: kmalloc_ap changes the heap's headers, may stop at an assertion, and the table's bytes are
-- cleared. The directory is the kernel's only one, so kmalloc_ap reads physical addresses from it.
use weird_os.Base.{
  ℕ, zero, suc, ◌+◌, ◌-◌, ◌/◌, ◌%◌, Bool, true, Option, none, some, ◌==◌, ltb, if◌then◌else◌, add32,
}
use weird_os.Clib.Memory.{memset}
use weird_os.Kmalloc.Kernel.{Kernel, kmalloc_ap}
use weird_os.Kmalloc.Memory.{Cmd, ok, pure, ◌>>=◌}
use weird_os.Page.Directory.{
  PageDirectory, Mapped, done, failed, out_of_fuel, update, empty_page, set_page, round_up,
}
use weird_os.Page.Frames.{Frames, Page, Framed, alloc_frame}

-- The page that get_page finds, as its table and its place there, in a directory that may have a
-- new table.
pub data Got : Type 0 where
  page_at : (dir : PageDirectory) (table_idx idx : ℕ) (page : Page) → Got
  null : Got
  misaligned : Got

-- sizeof(page_table)
abbrev page_table_size : ℕ
page_table_size = 0x1000

abbrev or_zero : Option ℕ → ℕ
or_zero none = 0
or_zero (some a) = a

-- The branch of get_page that makes a table. `addr | 0x7` is `addr + 7`, since the assertion says that
-- the low bits are clear; a failed one is `misaligned`.
unfoldable pub new_table : (fuel table_idx idx : ℕ) → Kernel → PageDirectory → Cmd Got
unfolding memset
new_table fuel table_idx idx k dir = do
  placed ← kmalloc_ap fuel page_table_size (record k { kernel_directory = dir })
  let addr = or_zero placed.phys
  if addr % 0x1000 == 0
      then (λ m.
          ok
            (page_at
              (record dir {
                tables = update dir.tables table_idx (some (λ _. empty_page));
                tables_physical = update dir.tables_physical table_idx (addr + 7);
              })
              table_idx idx empty_page)
            (record m { bytes = memset placed.address 0 0x1000 m.bytes }))
      else pure misaligned

unfoldable pub get_page : (fuel address : ℕ) (make : Bool) → Kernel → PageDirectory → Cmd Got
unfolding new_table
get_page fuel address make k dir =
    let number = address / 0x1000 in
    let table_idx = number / 1024 in
    elim (dir.tables table_idx) [
      | some table ↦ pure (page_at dir table_idx (number % 1024) (table (number % 1024)))
      | none ↦ if make then new_table fuel table_idx (number % 1024) k dir else pure null
    ]

-- `alloc_frame(get_page(i, 1, directory), ...)`
unfoldable pub allocate_page :
    (fuel i : ℕ) (is_kernel is_writable : Bool) → Kernel → Frames → PageDirectory → Cmd Mapped
unfolding get_page
allocate_page fuel i is_kernel is_writable k frames dir = do
  got ← get_page fuel i true k dir
  pure (elim got [
    | null ↦ failed
    | misaligned ↦ failed
    | page_at dir' table_idx idx page ↦ elim (alloc_frame frames page is_kernel is_writable) [
      | Framed.out_of_bounds ↦ failed
      | Framed.ok frames' page' ↦ done frames' (set_page dir' table_idx idx page')
    ]
  ])

abbrev pub on_done : Mapped → (Frames → PageDirectory → Cmd Mapped) → Cmd Mapped
on_done (done frames dir) next = next frames dir
on_done failed next = pure failed
on_done out_of_fuel next = pure out_of_fuel

-- `for (i = virt_addr; i < virt_addr + size; i += 0x1000)`, with wrapping sums.
unfoldable pub allocate_loop :
    (rounds fuel i end : ℕ) (is_kernel is_writable : Bool)
    → Kernel
    → Frames
    → PageDirectory
    → Cmd Mapped
unfolding allocate_page
allocate_loop zero fuel i end is_kernel w k frames dir = pure out_of_fuel
allocate_loop (suc n) fuel i end is_kernel w k frames dir =
    if ltb i end
    then allocate_page fuel i is_kernel w k frames dir >>= (λ mapped.
      on_done mapped
        (λ frames' dir'. allocate_loop n fuel (add32 i 0x1000) end is_kernel w k frames' dir'))
    else pure (done frames dir)

unfoldable pub allocate :
    (fuel virt_addr size : ℕ) (is_kernel is_writable : Bool)
    → Kernel
    → Frames
    → PageDirectory
    → Cmd Mapped
unfolding round_up allocate_loop
allocate fuel virt_addr size is_kernel is_writable k frames dir =
    let start = virt_addr - virt_addr % 0x1000 in
    allocate_loop fuel fuel start (add32 start (round_up size)) is_kernel is_writable k frames dir
