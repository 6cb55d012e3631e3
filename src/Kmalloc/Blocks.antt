-- ===== src/Kmalloc/Blocks.antt =====
-- The operations of kernel/kmalloc.cpp on single headers: creating, splitting, merging, moving.
use weird_os.Base.{ℕ, ◌+◌, ◌-◌, ◌%◌, ◌&&◌, ◌==◌, ltb, if◌then◌else◌, add32, sub32}
use weird_os.Kmalloc.Memory.{
  magic_number, header_size, headers_adjacent, overlap, Cmd, pure, ◌>>=◌, ◌>>◌, assert, load, store,
  set_magic, set_size, set_next, set_previous, clear_used, set_used,
}

pub record Heap : Type 0 where
  pub first_block : ℕ
  pub size : ℕ

-- The header is stored whole: every field is assigned.
unfoldable pub create_heap : (size start : ℕ) → Cmd Heap
create_heap size start = do
  store start (record {
    magic = clear_used magic_number;
    size = sub32 size header_size;
    next = 0;
    previous = 0;
  })
  pure (record { first_block = start; size = size })

-- `if (next) next->previous = block`
unfoldable pub link_back : (next block : ℕ) → Cmd (Unit {0})
link_back next block = if next == 0 then pure tt else set_previous next block

unfoldable pub merge_blocks : (first second : ℕ) → Cmd (Unit {0})
merge_blocks first second = do
  f ← load first
  assert (f.next == second) headers_adjacent
  s ← load second
  set_next first s.next
  link_back s.next first
  f' ← load first
  s' ← load second
  set_size first (add32 f'.size (add32 s'.size header_size))

unfoldable pub get_memory_address : ℕ → ℕ
get_memory_address block = add32 block header_size

unfoldable pub get_distance_to_next_page : ℕ → ℕ
get_distance_to_next_page addr = 0x1000 - addr % 0x1000

unfoldable pub get_next_page : ℕ → ℕ
get_next_page addr = add32 (addr - addr % 0x1000) 0x1000

-- memcpy of a header. It copies upwards, so an overlap with the target would corrupt the copy.
unfoldable pub copy_header : (dest src : ℕ) → Cmd (Unit {0})
copy_header dest src = do
  h ← load src
  if ltb dest (src + header_size) && ltb src (dest + header_size)
      then (λ _. overlap)
      else store dest h

unfoldable pub make_aligned_block : (size block : ℕ) → Cmd ℕ
unfolding get_memory_address get_distance_to_next_page get_next_page copy_header
make_aligned_block size block = do
  let mem_address = get_memory_address block
  let distance = get_distance_to_next_page mem_address
  let nearest = get_next_page mem_address
  let header_pos = sub32 nearest header_size
  b ← load block
  set_size block (sub32 b.size distance)
  set_next b.previous header_pos
  p ← load b.previous
  set_size b.previous (add32 p.size distance)
  copy_header header_pos block
  pure header_pos

unfoldable pub create_new_block_header : (block size : ℕ) → Cmd (Unit {0})
create_new_block_header block size = do
  let new_block = add32 (add32 block size) header_size
  b ← load block
  link_back b.next new_block
  b ← load block
  store new_block (record {
    magic = clear_used magic_number;
    size = sub32 (sub32 b.size size) header_size;
    next = b.next;
    previous = block;
  })
  set_next block new_block
  set_size block size
  b ← load block
  set_magic block (set_used b.magic)
