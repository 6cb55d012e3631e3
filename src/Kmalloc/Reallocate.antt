-- ===== src/Kmalloc/Reallocate.antt =====
-- krealloc of kernel/kmalloc.cpp: what it makes of an allocation.
use weird_os.Base.{ℕ, false, ◌==◌, leb, ltb, if◌then◌else◌, add32, ◌||◌}
use weird_os.Kmalloc.Memory.{
  BlockHeader, assert, realloc_error, is_used, Memory, Cmd, pure, ◌>>=◌, ◌>>◌, load, header_size,
}
use weird_os.Kmalloc.Alloc.{alloc_internal}
use weird_os.Kmalloc.Blocks.{Heap, merge_blocks}
use weird_os.Kmalloc.Coalesced.{Coalesced}
use weird_os.Kmalloc.Move.{move_rest}
use weird_os.Kmalloc.Grow.{grow_rest}

-- krealloc of a block that is too small.
abbrev resize : ℕ → Heap → (ptr sz header : ℕ) → BlockHeader → Cmd ℕ
resize fuel heap ptr sz header h = do
  n ← (if h.next == 0 then pure h else load h.next)
  let merge_size = add32 (add32 n.size h.size) header_size
  if h.next == 0 || (is_used n.magic || ltb merge_size sz)
      then (alloc_internal fuel sz false heap >>= move_rest fuel header ptr)
      else (do
        assert (leb sz merge_size) realloc_error
        merge_blocks header h.next
        grow_rest sz ptr header merge_size)
