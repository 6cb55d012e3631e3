-- ===== src/Kmalloc/Tests.antt =====
-- A heap of three blocks, a used one of 16 bytes, a free one of 100 and a used one of 32, on which
-- the theorems on kernel/kmalloc.cpp are applied.
use weird_os.Base.{ℕ, ◌+◌, ◌≡◌, ◌≢◌, refl, true, false, none, List, [], ◌∷◌, arith, inl, inr}
use weird_os.Kmalloc.Memory.{Memory, header_size, write, ◌>>=◌}
use weird_os.Kmalloc.Blocks.{Heap}
use weird_os.Kmalloc.Alloc.{alloc_internal, free}
use weird_os.Kmalloc.Allocate.{Allocates, alloc_internal-Allocates}
use weird_os.Kmalloc.Coalesced.{Coalesced}
use weird_os.Kmalloc.Contract.{Inserts, Holds, Grants, free-Inserts, alloc_internal-Grants}
use weird_os.Kmalloc.Layout.{Block, header_of, IsHeap, block, last, span}
use weird_os.Kmalloc.Live.{live}
use weird_os.Kmalloc.Restore.{Restores, alloc_internal-free}
use weird_os.Kmalloc.Returns.{Returns}
use weird_os.Kmalloc.Info.{done, title, lines, heap_info, heap_info-Shows}
use weird_os.Vga.Console.{Console}
use weird_os.Vga.Console.Shows.{Shows}
use weird_os.Vga.Console.Tests.{console, console-IsConsole}
use weird_os.Base.{codes, ◌++◌}

abbrev pub low_block : Block
low_block = record { size = 16; used = true }

abbrev pub free_block : Block
free_block = record { size = 100; used = false }

abbrev pub high_block : Block
high_block = record { size = 32; used = true }

abbrev pub three : List Block
three = low_block ∷ free_block ∷ high_block ∷ []

abbrev pub heap_memory : Memory
heap_memory = record {
  headers =
      write
        (write (write (λ _. none) 0x1000 (header_of low_block 0x1020 0)) 0x1020
          (header_of free_block 0x1094 0x1000))
        0x1094 (header_of high_block 0 0x1020);
  bytes = λ a. a;
}

abbrev pub kheap : Heap
kheap = record { first_block = 0x1000; size = 0xc4 }

pub three-IsHeap : IsHeap heap_memory.headers 0x1000 0x10c4 three
unfolding write
three-IsHeap = record {
  low = omega arith;
  high = omega arith;
  chain = block refl refl (block refl refl (block refl refl (last refl refl)));
}

pub three-Coalesced : Coalesced three
three-Coalesced = (inl refl, (inr refl, (tt, tt)))

pub three_not_nil : three ≢ []
three_not_nil e = ground (arith, e)

free-Inserts_example :
    Returns
      (λ _ m'.
        (after : List (ℕ × ℕ)) × Holds m' 0x1000 0x10c4 after
        × Inserts
            (0x1000 + span (free_block ∷ low_block ∷ []) + header_size, 32)
            after
            (live 0x1000 three)
        × (m'.bytes ≡ heap_memory.bytes))
      (free 4 (0x1000 + span (free_block ∷ low_block ∷ []) + header_size) heap_memory)
free-Inserts_example =
    free-Inserts 4 heap_memory 0x1000 0x10c4 (free_block ∷ low_block ∷ []) high_block []
      three-IsHeap three-Coalesced refl (omega arith) (omega arith)

alloc_internal-Grants_example :
    Grants 40 heap_memory 0x1000 0x10c4 three (alloc_internal 4 40 false kheap heap_memory)
alloc_internal-Grants_example =
    alloc_internal-Grants 4 40 heap_memory kheap three three-IsHeap three-Coalesced three_not_nil
      (omega arith)

alloc_internal-free_example :
    Restores 40 heap_memory 0x1000 0x10c4 three
      ((alloc_internal 4 40 false kheap >>= free 4) heap_memory)
alloc_internal-free_example =
    alloc_internal-free 4 40 heap_memory kheap three three-IsHeap three_not_nil three-Coalesced
      (omega arith)

alloc_internal-Allocates_example :
    Allocates 40 heap_memory 0x1000 0x10c4 three (alloc_internal 4 40 false kheap heap_memory)
alloc_internal-Allocates_example =
    alloc_internal-Allocates 4 40 heap_memory kheap three three-IsHeap three_not_nil (omega arith)

heap_info-Shows_example :
    (f' : Console) × (heap_info 4096 2 (codes "stdio.cpp") heap_memory 4 kheap console ≡ done f')
    × Shows 4096 console (title ++ lines 0x1000 three) f'
heap_info-Shows_example =
    heap_info-Shows 4096 2 (codes "stdio.cpp") heap_memory 4 0x10c4 kheap three console
      (omega arith) three-IsHeap (omega arith) console-IsConsole
