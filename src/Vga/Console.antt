-- ===== src/Vga/Console.antt =====
-- The kernel's standard output: kernel/drivers/vga/vga.cpp and the functions of
-- kernel/clib/stdio.cpp on stdout, printk, and __assert of kernel/assertk.cpp. `out_buffer` is the
-- buffer's address. The loop over the buffer runs on fuel.
pub mod Shows
pub mod Laws
pub mod Tests
use weird_os.Base.{
  ℕ, zero, suc, ◌+◌, ◌==◌, leb, if◌then◌else◌, List, [], ◌∷◌, length, Option, none, some, codes,
}
use weird_os.Clib.Itoa.{itoa}
use weird_os.Clib.Memory.{Bytes, memset}
use weird_os.Clib.Printf.{Arg, itoa_or}
use weird_os.Clib.Streams
use weird_os.Clib.Streams.{Stream, Run, returned, asserted, no_arg, waits, fputc, fputs, vfprintf}
use weird_os.Vga.{Screen, kputchar}

abbrev pub Console : Type 0
Console = Stream Screen

abbrev pub buffer_size : ℕ
buffer_size = 100

-- What a call of printf comes to: it returns; it stops in the endless loop of __assert; a number
-- did not fit the buffer of __assert; an argument was missing; a loop over the buffer did not end.
pub data Printing : Type 0 where
  done : Console → Printing
  halted : Console → Printing
  overflow : Console → Printing
  no_argument : Console → Printing
  endless : Printing

-- `for (i = 0; out_buffer[i] != 0; ++i)`
unfoldable pub flush_loop : ℕ → (out_buffer i : ℕ) → Bytes → Screen → Option Screen
unfolding kputchar
flush_loop zero out_buffer i m s = none
flush_loop (suc n) out_buffer i m s =
    let rest = flush_loop n out_buffer (i + 1) m (kputchar (m (out_buffer + i)) s) in
    if m (out_buffer + i) == 0 then some s else rest

-- The flush function is a parameter of the functions on streams.
unfoldable pub k_init_printk : (out_buffer : ℕ) → Console → Console
k_init_printk out_buffer f = record f { write_ptr = out_buffer }

module _ (out_buffer fuel : ℕ) where
  unfoldable pub io_flush_handler : Console → Option Console
  unfolding flush_loop memset
  io_flush_handler f = elim (flush_loop fuel out_buffer 0 f.memory f.device) [
    | none ↦ none
    | some s ↦ some (record f {
      memory = memset out_buffer 0 buffer_size f.memory;
      write_ptr = out_buffer;
      device = s;
    })
  ]

  unfoldable pub putchar : (c : ℕ) → Console → Option Console
  unfolding fputc io_flush_handler
  putchar c f = fputc io_flush_handler c f

  unfoldable pub puts : (str : List ℕ) → Console → Option Console
  unfolding fputs io_flush_handler
  puts str f = fputs io_flush_handler str f

  unfoldable pub printk : (text : List ℕ) → Console → Option Console
  unfolding puts
  printk text f = puts text f

  -- Calls of printk in turn.
  unfoldable pub printk_all : List (List ℕ) → Console → Option Console
  unfolding printk
  printk_all [] f = some f
  printk_all (t ∷ ts) f = elim (printk t f) [ none ↦ none | some f' ↦ printk_all ts f' ]

  -- `char buf[5]` has room for four characters and the final 0.
  unfoldable pub assert : (msg file : List ℕ) (line : ℕ) → Console → Printing
  assert msg file line f =
      let before =
        codes "Assertion failed: " ∷ msg ∷ codes ", file " ∷ file ∷ codes ", line " ∷ [] in
      let buf = itoa_or (itoa 11 line 10) in
      elim (printk_all before f) [
        | none ↦ endless
        | some f' ↦
            if leb 5 (length buf)
            then overflow f'
            else elim (printk_all (buf ∷ codes "\n" ∷ []) f') [
              | none ↦ endless
              | some f'' ↦ halted f''
            ]
      ]

  -- `file` is __FILE__ as the build passes it.
  unfoldable pub printf : (file format : List ℕ) → List Arg → Console → Printing
  unfolding vfprintf
  printf file format args f = elim (vfprintf io_flush_handler format args f) [
    | returned f' ↦ done f'
    | asserted f' ↦ assert (codes "next != 0 && \"Invalid printf argument\"") file 66 f'
    | no_arg f' ↦ no_argument f'
    | waits ↦ endless
  ]
