-- ===== src/Kmalloc/Kernel.antt =====
-- kmalloc and its variants, operator new and operator delete of kernel/kmalloc.cpp. Before the heap
-- is there, memory is handed out from the placement address upwards.
use weird_os.Base.{
  ℕ, ◌+◌, ◌-◌, ◌%◌, ◌≤◌, ◌<◌, ◌≡◌, ◌≢◌, refl, arith, Bool, true, false, ◌&&◌, not, Option, none,
  some, List, [], ◌==◌, if◌then◌else◌, add32, sub32, add32-eq-add, sub32-eq-sub, length,
}
use weird_os.Kmalloc.Memory.{
  Memory, Run, Cmd, ok, pure, ◌>>=◌, ◌>>◌, and_then, assert, page_of_4kb, heap_not_initialized,
  new_error, assert_failed, wild, overlap, out_of_fuel,
}
use weird_os.Kmalloc.Blocks.{Heap}
use weird_os.Kmalloc.Alloc.{alloc_internal, free}
use weird_os.Kmalloc.Allocate.{Allocates, allocated, alloc_internal-Allocates}
use weird_os.Kmalloc.Layout.{Block, IsHeap}
use weird_os.Page.Directory.{PageDirectory, get_phys}

-- kheap, _internal_placement_address and kernel_directory.
pub record Kernel : Type 0 where
  pub kheap : Option Heap
  pub placement_address : ℕ
  pub kernel_directory : PageDirectory

-- The address, what is written to `*phys`, and the placement address behind.
pub record Placed : Type 0 where
  pub address : ℕ
  pub phys : Option ℕ
  pub placement_address : ℕ

abbrev pub asked : Bool → ℕ → Option ℕ
asked true a = some a
asked false a = none

-- `if (phys != 0) *phys = get_phys(addr, kernel_directory)`
unfoldable pub write_phys : (has_phys : Bool) (addr : ℕ) → Kernel → Cmd (Option ℕ)
write_phys has_phys addr k =
    if has_phys
    then elim (get_phys addr k.kernel_directory) [
      | none ↦ λ _. assert_failed page_of_4kb
      | some a ↦ pure (some a)
    ]
    else pure none

-- The placement address after `if (align == 1 && ...)`.
unfoldable pub placement : (align : Bool) → ℕ → ℕ
placement align a = if align && not (a - a % 0x1000 == 0) then add32 (a - a % 0x1000) 0x1000 else a

unfoldable pub kmalloc_internal : ℕ → (sz : ℕ) (align has_phys : Bool) → Kernel → Cmd Placed
kmalloc_internal fuel sz align has_phys k = elim k.kheap [
  | some heap ↦ do
    addr ← alloc_internal fuel sz align heap
    phys ← write_phys has_phys addr k
    pure (record { address = addr; phys = phys; placement_address = k.placement_address })
  | none ↦
      let a = placement align k.placement_address in
      pure (record {
        address = a;
        phys = asked has_phys (sub32 a 0xc000_0000);
        placement_address = add32 a sz;
      })
]

unfoldable pub kmalloc_a : ℕ → (sz : ℕ) → Kernel → Cmd Placed
kmalloc_a fuel sz k = kmalloc_internal fuel sz true false k

unfoldable pub kmalloc_p : ℕ → (sz : ℕ) → Kernel → Cmd Placed
kmalloc_p fuel sz k = kmalloc_internal fuel sz false true k

unfoldable pub kmalloc_ap : ℕ → (sz : ℕ) → Kernel → Cmd Placed
kmalloc_ap fuel sz k = kmalloc_internal fuel sz true true k

unfoldable pub kmalloc : ℕ → (sz : ℕ) → Kernel → Cmd Placed
kmalloc fuel sz k = kmalloc_internal fuel sz false false k

abbrev pub has_heap : Kernel → Bool
has_heap k = elim k.kheap [ none ↦ false | some heap ↦ true ]

unfoldable pub operator_new : ℕ → (sz : ℕ) → Kernel → Cmd ℕ
operator_new fuel sz k = do
  assert (has_heap k) heap_not_initialized
  placed ← kmalloc fuel (if sz == 0 then sz + 1 else sz) k
  assert (not (placed.address == 0)) new_error
  pure placed.address

unfoldable pub operator_delete : ℕ → (ptr : ℕ) → Kernel → Cmd (Unit {0})
operator_delete fuel ptr k = do
  assert (has_heap k) heap_not_initialized
  if ptr == 0 then pure tt else free fuel ptr

-- What operator_new does with the result of alloc_internal.
abbrev checked : ℕ → Cmd ℕ
checked p = do assert (not (p == 0)) new_error; pure p

checked-Allocates :
    {size : ℕ} {m : Memory} {start stop : ℕ} {bs : List Block} {r : Run ℕ}
    → Allocates size m start stop bs r
    → Allocates size m start stop bs (and_then r checked)
checked-Allocates (Allocates.exhausted used) = Allocates.exhausted used
checked-Allocates (Allocates.too_small small) = Allocates.too_small small
checked-Allocates {size} {m} {start} {stop} {bs}
      (allocated {p} {m'} pre b post at e unused fits best h same) =
    let nz : (p == 0) ≡ false = ground arith in
    rw nz (allocated pre b post at e unused fits best h same)

abbrev placed_at : ℕ → ℕ → Placed
placed_at addr a = record { address = addr; phys = none; placement_address = a }

-- kmalloc passes the address on.
place-checked :
    (r : Run ℕ) (placement_address : ℕ)
    → and_then
        (and_then r (λ addr. pure (placed_at addr placement_address)))
        (λ placed. assert (not (placed.address == 0)) new_error >> pure placed.address)
      ≡ and_then r checked
place-checked (ok a m) q = refl
place-checked (assert_failed e) q = refl
place-checked wild q = refl
place-checked overlap q = refl
place-checked out_of_fuel q = refl

-- operator new, with a well-formed heap and fuel for every block, returns the data of the smallest
-- free block that holds the size, or one byte for size 0, or it stops at an assertion of
-- alloc_internal; its own assertions do not fail.
pub operator_new-Allocates :
    (fuel size : ℕ) (m : Memory) (k : Kernel) (heap : Heap) {stop : ℕ} (bs : List Block)
    → k.kheap ≡ some heap
    → IsHeap m.headers heap.first_block stop bs
    → bs ≢ []
    → length bs < fuel
    → Allocates
        (if size == 0 then size + 1 else size)
        m
        heap.first_block
        stop
        bs
        (operator_new fuel size k m)
unfolding operator_new kmalloc kmalloc_internal write_phys
operator_new-Allocates fuel size m k heap bs there h some_block enough =
    let size' : ℕ = if size == 0 then size + 1 else size in
    rw (there, place-checked (alloc_internal fuel size' false heap m) k.placement_address)
      (checked-Allocates (alloc_internal-Allocates fuel size' m heap bs h some_block enough))

placement-above :
    (align : Bool) (a : ℕ)
    → 0xc000_0000 ≤ a
    → a + 0x1000 < 0x1_0000_0000
    → (a ≤ placement align a)
      × (placement align a ≤ a + 0x1000)
      × (align ≡ true → placement align a % 0x1000 ≡ 0)
unfolding placement add32
placement-above true a high room =
    let nz : (a - a % 0x1000 == 0) ≡ false = ground arith in
    (rw nz (omega arith), rw nz (omega arith), λ e. rw nz (omega arith))
placement-above false a high room = (omega arith, omega arith, λ e. ground arith)

-- Before the heap is there, a request from a placement address in the higher half gives an area
-- behind everything placed before, at a page boundary if alignment is asked for; its physical
-- address is the offset in the higher half, and the next area lies behind it.
pub kmalloc_internal-placement :
    (fuel sz : ℕ) (align : Bool) (k : Kernel) (m : Memory)
    → k.kheap ≡ none
    → 0xc000_0000 ≤ k.placement_address
    → k.placement_address + 0x1000 + sz < 0x1_0000_0000
    → (a : ℕ) × (kmalloc_internal fuel sz align true k m
        ≡ ok (record { address = a; phys = some (a - 0xc000_0000); placement_address = a + sz }) m)
      × (k.placement_address ≤ a)
      × (a ≤ k.placement_address + 0x1000)
      × (align ≡ true → a % 0x1000 ≡ 0)
unfolding kmalloc_internal
kmalloc_internal-placement fuel sz align k m none_yet high room =
    let a : ℕ = placement align k.placement_address in
    let bound : (k.placement_address ≤ a)
        × (a ≤ k.placement_address + 0x1000)
        × (align ≡ true → a % 0x1000 ≡ 0) =
      placement-above align k.placement_address high (omega arith) in
    (
      a,
      rw
          (
            none_yet,
            sub32-eq-sub a 0xc000_0000 (omega arith) (omega arith),
            add32-eq-add a sz (omega arith),
          )
          refl,
      bound.0,
      bound.1,
      bound.2,
    )
