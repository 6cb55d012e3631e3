-- ===== src/Process/Starting.antt =====
-- What exec_process of kernel/process.cpp comes to, and run_file of a file in place: the loader and the jump.
use weird_os.Base.{
  ℕ, ◌+◌, ◌≤◌, ◌<◌, ◌≡◌, ◌≢◌, ◌⊎◌, refl, sym, ap, ◌∙◌, arith, false, List, length, All,
}
use weird_os.Clib.Memory.{Bytes}
use weird_os.Fs.Syscalls.RamDisk.{store}
use weird_os.Kmalloc.Alloc.{free}
use weird_os.Kmalloc.Candidates.{AllUsed}
use weird_os.Kmalloc.Live.{live}
use weird_os.Util.Strings.Apart.{In}
use weird_os.Kmalloc.Layout.{Block, IsHeap}
use weird_os.Kmalloc.Memory.{Memory, Run, no_unused_blocks, out_of_heap_space}
use weird_os.Loader.{load, header, ElfLayout}
use weird_os.Loader.Layout.{load-places}
use weird_os.Loader.Segments.{placed, map_program, with_memory, AllTables}
use weird_os.Page.Present.{TablesFor}
use weird_os.Kmalloc.Kernel.{Kernel}
use weird_os.Kmalloc.Memory.{BlockHeader}
use weird_os.Base.{Option}
use weird_os.Page.Directory.{PageDirectory, Mapped}
use weird_os.Page.Frames.{Frames}
use weird_os.Kmalloc.Returns.{Returns, returns}
use weird_os.Process.{State, Executed, started, unmapped, stopped, on_heap, on_loaded, run_file}
use weird_os.Process.Image.{
  bytes_of, segments_of, IsExecutable, placed-moved, placed-outside, placed_in_heap, store-inside,
  store-outside, header_there, elf_there, segments_there, there-IsProgram,
}

-- What exec_process comes to, for a file that is a program.
pub data Starts (fuel : ℕ) (content : List ℕ) (start stop : ℕ) (bs : List Block) (s : State)
    : Executed → Type 0 where
  starts :
      {s' : State}
      → map_program fuel (segments_of content) s.frames s.directory
        ≡ Mapped.done s'.frames s'.directory
      → IsHeap s'.memory.headers start stop bs
      → ((a : ℕ)
          → (a < start) ⊎ (stop ≤ a)
          → s'.memory.bytes a ≡ placed 0 (bytes_of content) (segments_of content) s.memory.bytes a)
      → ((q n a : ℕ)
          → In q n (live start bs)
          → q ≤ a
          → a < q + n
          → s'.memory.bytes a ≡ s.memory.bytes a)
      → Starts fuel content start stop bs s
          (started (record { entry = (header 0 (bytes_of content)).entry; stack = 0x2000 }) s')
  no_pages :
      ((frames : Frames) (dir : PageDirectory)
        → map_program fuel (segments_of content) s.frames s.directory ≢ Mapped.done frames dir)
      → Starts fuel content start stop bs s unmapped
  exhausted : AllUsed bs → Starts fuel content start stop bs s (stopped no_unused_blocks)
  too_small :
      All (λ c. c.used ≡ false → c.size < length content) bs
      → Starts fuel content start stop bs s (stopped out_of_heap_space)

module _ (fuel : ℕ) (k : Kernel) (content : List ℕ) (start stop : ℕ) (bs : List Block) (s : State)
    (x : IsExecutable content start stop) (bounded : stop < 0x1_0000_0000)
    (tables : AllTables s.directory (segments_of content))
    (stack_tables : TablesFor 0 0x2000 s.directory) where
  -- The memory that the loader leaves, for the file at `p`.
  abbrev image : ℕ → Bytes
  image p =
      placed p (store content p s.memory.bytes) (segments_of content)
        (store content p s.memory.bytes)

  abbrev layout : ElfLayout
  layout = record { entry = (header 0 (bytes_of content)).entry; stack = 0x2000 }

  image-outside :
      (p a : ℕ)
      → start ≤ p
      → p + length content ≤ stop
      → (a < start) ⊎ (stop ≤ a)
      → image p a ≡ placed 0 (bytes_of content) (segments_of content) s.memory.bytes a
  image-outside p a low high out =
      ap (λ (m : Bytes). m a)
        (placed-moved _ (bytes_of content) p 0 (length content) start stop
          (store-inside content p s.memory.bytes) (segments_of content) _ x.segments)
      ∙ placed-outside (bytes_of content) (segments_of content) _ _ a
          (store-outside content p s.memory.bytes a (omega arith))

  image_in_heap :
      (p a : ℕ)
      → start ≤ a
      → a < stop
      → (a < p) ⊎ (p + length content ≤ a)
      → image p a ≡ s.memory.bytes a
  image_in_heap p a low high out =
      ap (λ (m : Bytes). m a)
        (placed-moved _ (bytes_of content) p 0 (length content) start stop
          (store-inside content p s.memory.bytes) (segments_of content) _ x.segments)
      ∙ (placed_in_heap (bytes_of content) (length content) start stop (segments_of content) _ a low
            high x.segments
          ∙ store-outside content p s.memory.bytes a out)

  -- The jump, once the file's memory is free again.
  freed-Starts :
      (p : ℕ) (frames : Frames) (dir : PageDirectory) {r : Run (Unit {0})}
      → start ≤ p
      → p + length content ≤ stop
      → ((q n : ℕ)
          → In q n (live start bs)
          → (start ≤ q) × (q + n ≤ stop) × ((q + n ≤ p) ⊎ (p + length content ≤ q)))
      → map_program fuel (segments_of content) s.frames s.directory ≡ Mapped.done frames dir
      → Returns (λ _ m. IsHeap m.headers start stop bs × (m.bytes ≡ image p)) r
      → Starts fuel content start stop bs s (
          on_heap r
            (λ _ m. started layout (record { memory = m; frames = frames; directory = dir })))
  freed-Starts p frames dir low high apart mapped (returns (heap, same)) =
      starts mapped heap (λ a out. ap (λ (m : Bytes). m a) same ∙ image-outside p a low high out)
        λ q n a i le lt.
          let (above, below, beside) = apart q n i in
          ap (λ (m : Bytes). m a) same ∙ image_in_heap p a (omega arith) (omega arith) (omega arith)

  -- Whether the pages can be mapped or not.
  mapped-Starts :
      (p : ℕ) (free_data : Memory → Run (Unit {0})) (m : Memory) (mapped : Mapped)
      → start ≤ p
      → p + length content ≤ stop
      → ((q n : ℕ)
          → In q n (live start bs)
          → (start ≤ q) × (q + n ≤ stop) × ((q + n ≤ p) ⊎ (p + length content ≤ q)))
      → map_program fuel (segments_of content) s.frames s.directory ≡ mapped
      → Returns
          (λ _ m'. IsHeap m'.headers start stop bs × (m'.bytes ≡ image p))
          (free_data (record m { bytes = image p }))
      → Starts fuel content start stop bs s (
          on_loaded (with_memory m.headers layout (image p) mapped) λ lay t.
            on_heap (free_data (record { headers = t.headers; bytes = t.memory })) λ _ m'.
              started lay (record { memory = m'; frames = t.frames; directory = t.directory }))
  mapped-Starts p free_data m (Mapped.done frames dir) low high apart mapped freed =
      freed-Starts p frames dir low high apart mapped freed
  mapped-Starts p free_data m Mapped.failed low high apart mapped freed =
      no_pages λ frames dir e. ground (arith, sym mapped ∙ e)
  mapped-Starts p free_data m Mapped.out_of_fuel low high apart mapped freed =
      no_pages λ frames dir e. ground (arith, sym mapped ∙ e)

  load_there :
      (hs : ℕ → Option BlockHeader) (p : ℕ)
      → start ≤ p
      → p + length content ≤ stop
      → load fuel k p (record {
        frames = s.frames;
        directory = s.directory;
        headers = hs;
        memory = store content p s.memory.bytes;
      })
        ≡ with_memory hs layout
            (image p)
            (map_program fuel (segments_of content) s.frames s.directory)
  load_there hs p low high =
      let bytes = s.memory.bytes in
      load-places p (length content) fuel k _
        (there-IsProgram content p bytes start stop x low high bounded)
        (rw (segments_there content p bytes start stop x) tables) stack_tables
      ∙ rw (segments_there content p bytes start stop x, header_there content p bytes start stop x)
          refl

  pub run_file-Starts :
      (p : ℕ) (m : Memory)
      → m.bytes ≡ s.memory.bytes
      → start ≤ p
      → p + length content ≤ stop
      → ((q n : ℕ)
          → In q n (live start bs)
          → (start ≤ q) × (q + n ≤ stop) × ((q + n ≤ p) ⊎ (p + length content ≤ q)))
      → ((bytes : Bytes)
          → Returns
              (λ _ m'. IsHeap m'.headers start stop bs × (m'.bytes ≡ bytes))
              (free fuel p (record m { bytes = bytes })))
      → Starts fuel content start stop bs s
          (run_file fuel k p (record s { memory = record m { bytes = store content p m.bytes } }))
  unfolding run_file
  run_file-Starts p m same low high apart freed =
      let bytes = s.memory.bytes in
      rw (run_file, same, elf_there content p bytes start stop x)
        (rw (load_there m.headers p low high)
          (mapped-Starts p (free fuel p) m _ low high apart refl (freed (image p))))
