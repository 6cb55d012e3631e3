-- ===== src/Page/Present.antt =====
-- page_allocator::allocate of kernel/page.cpp where all page tables are there: the pages of an area get
-- frames, and the kernel heap is not used.
use weird_os.Base.{
  ℕ, zero, suc, ◌-◌, ◌/◌, ◌%◌, ◌^◌, ◌≤◌, ◌<◌, ◌≡◌, refl, arith, Bool, none, some, ◌==◌, ltb,
  if◌then◌else◌, add32, Bool-cases, Option-cases, inl, inr,
}
use weird_os.Kmalloc.Kernel.{Kernel}
use weird_os.Kmalloc.Memory.{Memory, ok}
use weird_os.Page.Directory.{
  PageDirectory, PageTable, Mapped, done, failed, out_of_fuel, update, set_page, round_up,
}
use weird_os.Page.Directory
use weird_os.Page.Frames.{Frames, Page, Framed, alloc_frame}
use weird_os.Page.Tables.{get_page, allocate_page, on_done, allocate_loop, allocate}

-- The page of address `i` gets a frame, if it has none.
unfoldable pub map_page : (i : ℕ) (is_kernel is_writable : Bool) → Frames → PageDirectory → Mapped
map_page i is_kernel w frames dir = elim (dir.tables (i / 0x1000 / 1024)) [
  | none ↦ failed
  | some table ↦ elim (alloc_frame frames (table (i / 0x1000 % 1024)) is_kernel w) [
    | Framed.out_of_bounds ↦ failed
    | Framed.ok frames' page' ↦
        done frames' (set_page dir (i / 0x1000 / 1024) (i / 0x1000 % 1024) page')
  ]
]

-- The pages from `i` up to `end`.
unfoldable pub map_loop :
    (rounds i end : ℕ) (is_kernel is_writable : Bool) → Frames → PageDirectory → Mapped
unfolding map_page
map_loop zero i end is_kernel w frames dir = out_of_fuel
map_loop (suc n) i end is_kernel w frames dir =
    if ltb i end
    then Directory.and_then (map_page i is_kernel w frames dir)
        (λ frames' dir'. map_loop n (add32 i 0x1000) end is_kernel w frames' dir')
    else done frames dir

abbrev pub first_page : (virt_addr : ℕ) → ℕ
first_page virt_addr = virt_addr - virt_addr % 0x1000

abbrev pub end_page : (virt_addr size : ℕ) → ℕ
end_page virt_addr size = add32 (first_page virt_addr) (round_up size)

unfoldable pub map_pages :
    (fuel virt_addr size : ℕ) (is_kernel is_writable : Bool) → Frames → PageDirectory → Mapped
unfolding map_loop
map_pages fuel virt_addr size is_kernel w frames dir =
    map_loop fuel (first_page virt_addr) (end_page virt_addr size) is_kernel w frames dir

-- The directory has the tables of all addresses from `i` up to `end`, and of an area.
abbrev pub Tables : (i end : ℕ) → PageDirectory → Type 0
Tables i end dir =
    (a : ℕ) → i ≤ a → a < end → (t : PageTable) × (dir.tables (a / 0x1000 / 1024) ≡ some t)

abbrev pub TablesFor : (virt_addr size : ℕ) → PageDirectory → Type 0
TablesFor virt_addr size dir = Tables (first_page virt_addr) (end_page virt_addr size) dir

-- Tables that were there are there.
abbrev pub Keeps : PageDirectory → PageDirectory → Type 0
Keeps dir dir' =
    (j : ℕ) (t : PageTable) → dir.tables j ≡ some t → (t' : PageTable) × (dir'.tables j ≡ some t')

pub data KeepsAll (dir : PageDirectory) : Mapped → Type 0 where
  keeps :
      {frames : Frames} {dir' : PageDirectory} → Keeps dir dir' → KeepsAll dir (done frames dir')
  fails : KeepsAll dir failed
  ends : KeepsAll dir out_of_fuel

pub Tables-Keeps :
    {i end : ℕ} (dir dir' : PageDirectory) → Keeps dir dir' → Tables i end dir → Tables i end dir'
Tables-Keeps dir dir' keep there a low high =
    let (t, e) = there a low high in keep (a / 0x1000 / 1024) t e

set_page-Keeps :
    (dir : PageDirectory) (i idx : ℕ) (page : Page) → Keeps dir (set_page dir i idx page)
unfolding set_page
set_page-Keeps dir i idx page j t e = elim (Option-cases (dir.tables i)) [
  | inl no_table ↦ (t, rw (set_page, no_table) e)
  | inr (table, there) ↦ elim (Bool-cases (i == j)) [
    | inl same ↦ (update table idx page, rw (set_page, there, same) refl)
    | inr other ↦ (t, rw (set_page, there, other) e)
  ]
]

framed-KeepsAll :
    (i idx : ℕ) (dir : PageDirectory) (r : Framed)
    → KeepsAll dir (elim r [
      | Framed.out_of_bounds ↦ failed
      | Framed.ok frames' page' ↦ done frames' (set_page dir i idx page')
    ])
framed-KeepsAll i idx dir Framed.out_of_bounds = fails
framed-KeepsAll i idx dir (Framed.ok frames' page') = keeps (set_page-Keeps dir i idx page')

map_page-KeepsAll :
    (i : ℕ) (is_kernel w : Bool) (frames : Frames) (dir : PageDirectory)
    → KeepsAll dir (map_page i is_kernel w frames dir)
unfolding map_page
map_page-KeepsAll i is_kernel w frames dir = elim (Option-cases (dir.tables (i / 0x1000 / 1024))) [
  | inl no_table ↦ rw (map_page, no_table) fails
  | inr (table, there) ↦
      rw (map_page, there)
        (framed-KeepsAll (i / 0x1000 / 1024) (i / 0x1000 % 1024) dir
          (alloc_frame frames (table (i / 0x1000 % 1024)) is_kernel w))
]

pub and_then-KeepsAll :
    (dir : PageDirectory) (r : Mapped) (next : Frames → PageDirectory → Mapped)
    → KeepsAll dir r
    → ((frames : Frames) (dir' : PageDirectory) → KeepsAll dir' (next frames dir'))
    → KeepsAll dir (Directory.and_then r next)
and_then-KeepsAll dir (done frames dir') next (keeps k) h =
    then-KeepsAll dir dir' (next frames dir') k (h frames dir')
  where
    then-KeepsAll :
        (d d' : PageDirectory) (r' : Mapped) → Keeps d d' → KeepsAll d' r' → KeepsAll d r'
    then-KeepsAll d d' (done f d'') first (keeps second) =
        keeps λ j t e. let (t', e') = first j t e in second j t' e'
    then-KeepsAll d d' failed first fails = fails
    then-KeepsAll d d' out_of_fuel first ends = ends
and_then-KeepsAll dir failed next k h = fails
and_then-KeepsAll dir out_of_fuel next k h = ends

map_loop-KeepsAll :
    (n i end : ℕ) (is_kernel w : Bool) (frames : Frames) (dir : PageDirectory)
    → KeepsAll dir (map_loop n i end is_kernel w frames dir)
unfolding map_loop
map_loop-KeepsAll zero i end is_kernel w frames dir = ends
map_loop-KeepsAll (suc n) i end is_kernel w frames dir = elim (Bool-cases (ltb i end)) [
  | inl more ↦ rw more (
      and_then-KeepsAll dir (map_page i is_kernel w frames dir) _
        (map_page-KeepsAll i is_kernel w frames dir)
        (λ frames' dir'. map_loop-KeepsAll n (add32 i 0x1000) end is_kernel w frames' dir'))
  | inr over ↦ rw over (keeps λ j t e. (t, e))
]

pub map_pages-KeepsAll :
    (fuel virt_addr size : ℕ) (is_kernel w : Bool) (frames : Frames) (dir : PageDirectory)
    → KeepsAll dir (map_pages fuel virt_addr size is_kernel w frames dir)
unfolding map_pages
map_pages-KeepsAll fuel virt_addr size is_kernel w frames dir =
    map_loop-KeepsAll fuel (first_page virt_addr) (end_page virt_addr size) is_kernel w frames dir

aligned : (virt_addr size : ℕ) → end_page virt_addr size % 0x1000 ≡ 0
unfolding add32 round_up
aligned virt_addr size = ground arith

small : (virt_addr size : ℕ) → end_page virt_addr size < 2 ^ 32
unfolding add32
small virt_addr size = omega arith

module _ (fuel : ℕ) (k : Kernel) (m : Memory) where
  allocate_page-map_page :
      (i : ℕ) (is_kernel w : Bool) (frames : Frames) (dir : PageDirectory) {table : PageTable}
      → dir.tables (i / 0x1000 / 1024) ≡ some table
      → allocate_page fuel i is_kernel w k frames dir m ≡ ok (map_page i is_kernel w frames dir) m
  unfolding allocate_page get_page map_page
  allocate_page-map_page i is_kernel w frames dir there =
      rw (allocate_page, get_page, map_page, there) refl

  allocate_loop-map_loop :
      (n i end : ℕ) (is_kernel w : Bool) (frames : Frames) (dir : PageDirectory)
      → i % 0x1000 ≡ 0
      → end % 0x1000 ≡ 0
      → end < 2 ^ 32
      → Tables i end dir
      → allocate_loop n fuel i end is_kernel w k frames dir m
        ≡ ok (map_loop n i end is_kernel w frames dir) m
  unfolding allocate_loop map_loop add32
  allocate_loop-map_loop zero i end is_kernel w frames dir a b c there = refl
  allocate_loop-map_loop (suc n) i end is_kernel w frames dir a b c there =
      elim (Bool-cases (ltb i end)) [
        | inr over ↦ rw over refl
        | inl more ↦
            let (table, e) = there i (omega arith) (ground arith) in
            let on : i < end = ground arith in
            let step : (x : ℕ) → add32 i 0x1000 ≤ x → i ≤ x = λ x low. omega arith in
            rw (more, allocate_page-map_page i is_kernel w frames dir e)
              (next (map_page i is_kernel w frames dir) (map_page-KeepsAll i is_kernel w frames dir)
                λ frames' dir' keep.
                  allocate_loop-map_loop n (add32 i 0x1000) end is_kernel w frames' dir'
                    (omega arith) b c
                    (λ x low high. Tables-Keeps dir dir' keep there x (step x low) high))
      ]
    where
      next :
          (r : Mapped)
          → KeepsAll dir r
          → ((frames' : Frames) (dir' : PageDirectory)
              → Keeps dir dir'
              → allocate_loop n fuel (add32 i 0x1000) end is_kernel w k frames' dir' m
                ≡ ok (map_loop n (add32 i 0x1000) end is_kernel w frames' dir') m)
          → on_done r
              (λ frames' dir'. allocate_loop n fuel (add32 i 0x1000) end is_kernel w k frames' dir')
              m
            ≡ ok
                (Directory.and_then r
                  (λ frames' dir'. map_loop n (add32 i 0x1000) end is_kernel w frames' dir'))
                m
      next (done frames' dir') (keeps keep) h = h frames' dir' keep
      next failed fails h = refl
      next out_of_fuel ends h = refl

  pub allocate-map_pages :
      (virt_addr size : ℕ) (is_kernel w : Bool) (frames : Frames) (dir : PageDirectory)
      → TablesFor virt_addr size dir
      → allocate fuel virt_addr size is_kernel w k frames dir m
        ≡ ok (map_pages fuel virt_addr size is_kernel w frames dir) m
  unfolding allocate map_pages
  allocate-map_pages virt_addr size is_kernel w frames dir there =
      allocate_loop-map_loop fuel (first_page virt_addr) (end_page virt_addr size) is_kernel w
        frames dir (omega arith) (aligned virt_addr size) (small virt_addr size) there
