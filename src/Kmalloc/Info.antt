-- ===== src/Kmalloc/Info.antt =====
-- heap_info of kernel/kmalloc.cpp, which prints the blocks of the kernel heap on the standard output.
use weird_os.Base.{
  ℕ, zero, suc, ◌+◌, ◌<◌, ◌≡◌, refl, ap, ◌∙◌, subst, arith, Bool, true, false, ◌==◌, if◌then◌else◌,
  none, some, List, [], ◌∷◌, ◌++◌, length, codes, add32, add32-eq-add,
}
use weird_os.Clib.Printf
use weird_os.Clib.Printf.{Arg, int, string, Printed, convert, hex}
use weird_os.Kmalloc.Blocks.{Heap}
use weird_os.Kmalloc.Layout.{Block, magic_of, header_of, After, last, block, IsHeap, After-span}
use weird_os.Kmalloc.Memory.{BlockHeader, Memory, header_size, is_used}
use weird_os.Vga.Console.{Console, Printing, printf}
use weird_os.Vga.Console.Laws.{ended, text, printf-Shows}
use weird_os.Vga.Console.Shows.{IsConsole, Shows, Shows-nil, Shows-append}

-- `wild` is a `next` pointer to no header, `stopped` a call of printf that does not return.
pub data Info : Type 0 where
  done : Console → Info
  stopped : Printing → Info
  wild : Info
  out_of_fuel : Info

abbrev after_printf : Printing → (Console → Info) → Info
after_printf (Printing.done f) next = next f
after_printf p next = stopped p

-- The arguments of printf for the block at `current`.
abbrev block_args : (current : ℕ) → BlockHeader → List Arg
block_args current h =
    int current
    ∷ int (add32 current header_size)
    ∷ string (if is_used h.magic then codes "used" else codes "free")
    ∷ int h.size
    ∷ int (add32 h.size header_size)
    ∷ []

abbrev pub title : List ℕ
title = codes "\nBlk Addr | Mem Addr | Stat | Size     | Space Taken\n"

abbrev block_format : List ℕ
block_format = codes "%x | %x | %s | %x | %x\n"

module _ (out_buffer print_fuel : ℕ) (file : List ℕ) (m : Memory) where
  -- `for (current = ...; current; current = current->next)`
  unfoldable pub info_loop : (fuel current : ℕ) → Console → Info
  unfolding printf is_used
  info_loop zero current f = out_of_fuel
  info_loop (suc fuel) current f = if current == 0 then done f else elim (m.headers current) [
    | none ↦ wild
    | some h ↦
        after_printf (printf out_buffer print_fuel file block_format (block_args current h) f)
          (info_loop fuel h.next)
  ]

  unfoldable pub heap_info : (fuel : ℕ) → Heap → Console → Info
  unfolding printf info_loop
  heap_info fuel heap f =
      after_printf (printf out_buffer print_fuel file title [] f) (info_loop fuel heap.first_block)

-- The line of a block, and the lines of the blocks from address `p` on.
abbrev status : Bool → List ℕ
status true = codes "used"
status false = codes "free"

abbrev line : (p : ℕ) → Block → List ℕ
line p b =
    hex p
    ++ (codes " | "
        ++ (hex (p + header_size)
            ++ (codes " | "
                ++ (status b.used
                    ++ (codes " | "
                        ++ (hex b.size
                            ++ (codes " | " ++ (hex (b.size + header_size) ++ codes "\n"))))))))

unfoldable pub lines : (p : ℕ) → List Block → List ℕ
lines p [] = []
lines p (b ∷ bs) = line p b ++ lines (p + header_size + b.size) bs

status-magic_of :
    (u : Bool) → (if is_used (magic_of u) then codes "used" else codes "free") ≡ status u
unfolding is_used
status-magic_of true = refl
status-magic_of false = refl

printed_title : Printf.vfprintf title [] ≡ Printed.ok title
unfolding Printf.vfprintf convert
printed_title = refl

printed_block :
    (a b d e : ℕ) (c : List ℕ)
    → Printf.vfprintf block_format (int a ∷ int b ∷ string c ∷ int d ∷ int e ∷ [])
      ≡ Printed.ok (
          hex a
          ++ (codes " | "
              ++ (hex b
                  ++ (codes " | "
                      ++ (c
                          ++ (codes " | " ++ (hex d ++ (codes " | " ++ (hex e ++ codes "\n")))))))))
unfolding Printf.vfprintf convert
printed_block a b d e c = refl

module _ (out_buffer print_fuel : ℕ) (file : List ℕ) (m : Memory) (enough : 1 < print_fuel) where
  -- A call of printf whose format prints `cs`, and what follows it.
  printf_then :
      (format : List ℕ) (args : List Arg) (cs : List ℕ) (f : Console) (next : Console → Info)
      → Printf.vfprintf format args ≡ Printed.ok cs
      → IsConsole out_buffer f
      → (g : Console) × Shows out_buffer f cs g
        × (after_printf (printf out_buffer print_fuel file format args f) next ≡ next g)
  printf_then format args cs f next e h =
      let (g, run, shows) = printf-Shows out_buffer print_fuel file format args f h enough in
      (
        g,
        subst (λ p. Shows out_buffer f (text out_buffer file p) g) e shows,
        ap (λ p. after_printf p next) (run ∙ ap (λ p. ended out_buffer p g) e),
      )

  printed_line :
      (p q prev : ℕ) (b : Block)
      → p + header_size < 0x1_0000_0000
      → b.size + header_size < 0x1_0000_0000
      → Printf.vfprintf block_format (block_args p (header_of b q prev)) ≡ Printed.ok (line p b)
  printed_line p q prev b small small' =
      rw
        (
          add32-eq-add p header_size small,
          add32-eq-add b.size header_size small',
          status-magic_of b.used,
        )
        (printed_block p (p + header_size) b.size (b.size + header_size) (status b.used))

  info_step :
      (fuel p : ℕ) (b : BlockHeader) (f : Console)
      → 0 < p
      → m.headers p ≡ some b
      → info_loop out_buffer print_fuel file m (suc fuel) p f
        ≡ after_printf
            (printf out_buffer print_fuel file block_format (block_args p b) f)
            (info_loop out_buffer print_fuel file m fuel b.next)
  unfolding info_loop
  info_step fuel p b f pos holds = let nz : (p == 0) ≡ false = ground arith in rw (nz, holds) refl

  info_loop-Shows :
      (fuel stop p next prev : ℕ) (bs : List Block) (f : Console)
      → 0 < p
      → stop < 0x1_0000_0000
      → After m.headers stop p next prev bs
      → length bs < fuel
      → IsConsole out_buffer f
      → (f' : Console) × (info_loop out_buffer print_fuel file m fuel next f ≡ done f')
        × Shows out_buffer f (lines p bs) f'
  unfolding info_loop lines
  info_loop-Shows zero stop p next prev bs f pos high chain more h = absurd (omega arith)
  info_loop-Shows (suc fuel) stop p next prev [] f pos high (last e z) more h =
      (f, rw z refl, Shows-nil out_buffer f h)
  info_loop-Shows (suc fuel) stop p next prev (b ∷ bs) f pos high (block {q = q} e holds rest) more
        h =
      let below = After-span rest in
      let (g, first, goes_on) =
        printf_then block_format (block_args p (header_of b q prev)) (line p b) f
          (info_loop out_buffer print_fuel file m fuel q)
          (printed_line p q prev b (omega arith) (omega arith)) h in
      let (f', run, others) =
        info_loop-Shows fuel stop (p + header_size + b.size) q p bs g (omega arith) high rest
          (omega arith) first.ready in
      (
        f',
        ap (λ a. info_loop out_buffer print_fuel file m (suc fuel) a f) e
            ∙ (info_step fuel p (header_of b q prev) f pos holds ∙ (goes_on ∙ run)),
        Shows-append out_buffer f g f' (line p b) (lines (p + header_size + b.size) bs) first
            others,
      )

-- heap_info of a well-formed heap, with fuel beyond the number of blocks and an empty buffer, returns. It
-- shows the title and a line for every block, from the lowest address up: in hexadecimal the addresses
-- of its header and of its data, its state, its size and the size with the header. The
-- buffer is empty again and the memory as before.
pub heap_info-Shows :
    (out_buffer print_fuel : ℕ) (file : List ℕ) (m : Memory) (fuel stop : ℕ) (heap : Heap)
    (bs : List Block) (f : Console)
    → 1 < print_fuel
    → IsHeap m.headers heap.first_block stop bs
    → length bs < fuel
    → IsConsole out_buffer f
    → (f' : Console) × (heap_info out_buffer print_fuel file m fuel heap f ≡ done f')
      × Shows out_buffer f (title ++ lines heap.first_block bs) f'
unfolding heap_info
heap_info-Shows out_buffer print_fuel file m fuel stop heap bs f enough h more ready =
    let first_block = heap.first_block in
    let (g, first, goes_on) =
      printf_then out_buffer print_fuel file m enough title [] title f
        (info_loop out_buffer print_fuel file m fuel first_block) printed_title ready in
    let (f', run, others) =
      info_loop-Shows out_buffer print_fuel file m enough fuel stop first_block first_block 0 bs g
        h.low h.high h.chain more first.ready in
    (f', goes_on ∙ run, Shows-append out_buffer f g f' title (lines first_block bs) first others)
