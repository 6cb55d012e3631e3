-- ===== src/Kmalloc/Alloc.antt =====
-- alloc_internal, free and krealloc of kernel/kmalloc.cpp. Loops run on fuel, one unit for each
-- header that they visit.
use weird_os.Base.{
  ℕ, zero, suc, ◌+◌, ◌%◌, Bool, false, ◌&&◌, ◌||◌, not, ◌==◌, leb, ltb, if◌then◌else◌, add32, sub32,
}
use weird_os.Kmalloc.Memory.{
  magic_number, min_block_size, header_size, no_unused_blocks, out_of_heap_space_aligned,
  out_of_heap_space, heap_block_invalid, realloc_error, out_of_fuel, Cmd, pure, ◌>>=◌, ◌>>◌, assert,
  load, set_magic, copy_bytes, is_used, is_valid, clear_used, set_used,
}
use weird_os.Kmalloc.Blocks.{
  Heap, merge_blocks, get_memory_address, make_aligned_block, create_new_block_header,
}

-- `while (is_used(best->magic)) best = best->next`
unfoldable pub first_unused : ℕ → (best : ℕ) → Cmd ℕ
first_unused zero best = λ _. out_of_fuel
first_unused (suc fuel) best = do
  b ← load best
  if is_used b.magic
      then (do assert (not (b.next == 0)) no_unused_blocks; first_unused fuel b.next)
      else pure best

-- The test of the loop: `current` is unused, large enough, and smaller than `best` or `best` is
-- too small.
unfoldable pub is_better : (used : Bool) (current_size best_size required : ℕ) → Bool
is_better used current_size best_size required =
    not used
    && (leb required current_size && (ltb current_size best_size || ltb best_size required))

-- `while (current)`
unfoldable pub best_fit : ℕ → (required current best : ℕ) → Cmd ℕ
best_fit zero required current best = λ _. out_of_fuel
best_fit (suc fuel) required current best = if current == 0 then pure best else do
  c ← load current
  b ← load best
  best_fit fuel required c.next
      (if is_better (is_used c.magic) c.size b.size required then current else best)

unfoldable pub get_suitable_block : ℕ → (size : ℕ) (page_align : Bool) → Heap → Cmd ℕ
unfolding get_memory_address
get_suitable_block fuel size page_align heap = do
  best ← first_unused fuel heap.first_block
  let distance = get_memory_address heap.first_block % 0x1000
  let required_size = if page_align then add32 size distance else size
  best ← best_fit fuel required_size heap.first_block best
  b ← load best
  if page_align
      then (do
        assert (leb size (add32 b.size (get_memory_address best % 0x1000)))
            out_of_heap_space_aligned
        make_aligned_block size best)
      else (do assert (leb size b.size) out_of_heap_space; pure best)

unfoldable pub alloc_internal : ℕ → (size : ℕ) (page_align : Bool) → Heap → Cmd ℕ
unfolding get_memory_address
alloc_internal fuel size page_align heap = do
  block ← get_suitable_block fuel size page_align heap
  b ← load block
  if ltb (header_size + min_block_size) (sub32 b.size size)
      then create_new_block_header block size
      else pure tt
  set_magic block (set_used magic_number)
  pure (get_memory_address block)

unfoldable pub merge_forwards : ℕ → (header : ℕ) → Cmd (Unit {0})
merge_forwards zero header = λ _. out_of_fuel
merge_forwards (suc fuel) header = do
  h ← load header
  if h.next == 0 then pure tt else do
    n ← load h.next
    assert (is_valid n.magic) heap_block_invalid
    if is_used n.magic then pure tt else (merge_blocks header h.next >> merge_forwards fuel header)

unfoldable pub merge_backward : ℕ → (current : ℕ) → Cmd (Unit {0})
merge_backward zero current = λ _. out_of_fuel
merge_backward (suc fuel) current = do
  c ← load current
  if c.previous == 0 then pure tt else do
    p ← load c.previous
    assert (is_valid p.magic) heap_block_invalid
    if is_used p.magic
        then pure tt
        else (merge_blocks c.previous current >> merge_backward fuel c.previous)

unfoldable pub free : ℕ → (mem : ℕ) → Cmd (Unit {0})
free fuel mem = do
  let header = sub32 mem header_size
  h ← load header
  assert (is_valid h.magic) heap_block_invalid
  if not (is_used h.magic) then pure tt else do
    set_magic header (clear_used h.magic)
    merge_forwards fuel header
    merge_backward fuel header

unfoldable pub krealloc : ℕ → Heap → (ptr sz : ℕ) → Cmd ℕ
krealloc fuel heap ptr sz = do
  let header = sub32 ptr header_size
  h ← load header
  assert (is_valid h.magic) heap_block_invalid
  if leb sz h.size then pure ptr else do
    n ← (if h.next == 0 then pure h else load h.next)
    let merge_size = add32 (add32 n.size h.size) header_size
    if h.next == 0 || (is_used n.magic || ltb merge_size sz)
        then (do
          new_ptr ← alloc_internal fuel sz false heap
          h ← load header
          copy_bytes new_ptr ptr h.size
          free fuel ptr
          pure new_ptr)
        else (do
          assert (leb sz merge_size) realloc_error
          merge_blocks header h.next
          (if ltb (min_block_size + header_size) (sub32 merge_size sz)
              then create_new_block_header header sz
              else pure tt)
          pure ptr)
