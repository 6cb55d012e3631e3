-- ===== src/Page/Tests.antt =====
-- The theorems on kernel/page.cpp at concrete frames and directories.
use weird_os.Base.{ℕ, ◌<◌, ◌≡◌, refl, true, false, some, [], ◌∷◌, arith, replicate}
use weird_os.Page.Frames.{Frames, ok, alloc_frame}
use weird_os.Page.FrameLaws.{bit_at, bit_of, Writes}
use weird_os.Page.FrameOps.{mapped, alloc_frame-lowest}
use weird_os.Page.Directory.{PageDirectory, fork_page, empty_page}
use weird_os.Kmalloc.Kernel.{Kernel}
use weird_os.Kmalloc.Memory.{Memory}
use weird_os.Base.{◌==◌, if◌then◌else◌, none}

-- The first 33 frames are in use.
abbrev some_frames : Frames
some_frames = replicate 32 true ∷ (true ∷ replicate 31 false) ∷ []

alloc_frame-lowest_example :
    (f : ℕ) × (frames' : Frames) × (alloc_frame some_frames empty_page true false
      ≡ ok frames' (mapped empty_page true false f))
    × (bit_at some_frames f ≡ some false)
    × ((j : ℕ) → j < f → bit_at some_frames j ≡ some true)
    × Writes some_frames f true frames'
unfolding bit_at bit_of
alloc_frame-lowest_example =
    alloc_frame-lowest some_frames empty_page true false 40 (refl, (refl, tt)) (omega arith) refl
      (omega arith) refl

-- A directory with a table for the first 4 MB, and no heap.
abbrev one_table : PageDirectory
one_table = record (fork_page 0) { tables = λ j. if j == 0 then some (λ i. empty_page) else none }

abbrev no_heap : Kernel
no_heap = record { kheap = none; placement_address = 0; kernel_directory = fork_page 0 }

abbrev no_memory : Memory
no_memory = record { headers = λ a. none; bytes = λ a. 0 }
