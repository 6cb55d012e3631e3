-- ===== src/Vga/Console/Shows.antt =====
-- Printing characters to the kernel's standard output shows them on the screen:
-- kernel/drivers/vga/vga.cpp and kernel/clib/stdio.cpp.
use weird_os.Base.{
  ℕ, zero, suc, ◌+◌, ◌-◌, ◌%◌, ◌<◌, ◌≡◌, refl, ◌∙◌, arith, ◌==◌, if◌then◌else◌, List, [], ◌∷◌, ◌++◌,
  some, Bool-cases, inl, inr,
}
use weird_os.Clib.Memory.{Bytes, memset, poke}
use weird_os.Clib.MemoryLaws.{memset-fills}
use weird_os.Clib.Streams.{fputc, fputs}
use weird_os.Vga.{Screen, kputchar, write}
use weird_os.Vga.Console.{Console, flush_loop, io_flush_handler, k_init_printk, putchar, printk_all}

-- The bytes that reach the screen: a 0 in the buffer ends it.
unfoldable pub shown : List ℕ → List ℕ
shown [] = []
shown (c ∷ cs) = if c % 256 == 0 then shown cs else c % 256 ∷ shown cs

-- Texts one after the other.
unfoldable pub joined : List (List ℕ) → List ℕ
joined [] = []
joined (t ∷ ts) = t ++ joined ts

shown-append : (cs ds : List ℕ) → shown (cs ++ ds) ≡ shown cs ++ shown ds
unfolding shown
shown-append [] ds = refl
shown-append (c ∷ cs) ds = elim (Bool-cases (c % 256 == 0)) [
  | inl nul ↦ rw (nul, shown-append cs ds)
  | inr char ↦ rw (char, shown-append cs ds)
]

write-append : (cs ds : List ℕ) (s : Screen) → (write (cs ++ ds) s).1 ≡ (write ds (write cs s).1).1
unfolding write
write-append [] ds s = refl
write-append (c ∷ cs) ds s = write-append cs ds (kputchar c s)

module _ (out_buffer : ℕ) where
  -- The buffer is empty and the write pointer is at its start.
  pub record IsConsole (f : Console) : Type 0 where
    pub start : f.write_ptr ≡ out_buffer
    pub empty : (i : ℕ) → i < 100 → f.memory (out_buffer + i) ≡ 0

  -- Printing `cs` showed its characters on the screen and left the memory and the buffer as they were.
  pub record Shows (f : Console) (cs : List ℕ) (f' : Console) : Type 0 where
    pub screen : f'.device ≡ (write (shown cs) f.device).1
    pub ready : IsConsole f'
    pub same : (a : ℕ) → f'.memory a ≡ f.memory a

  pub Shows-append :
      (f g h : Console) (cs ds : List ℕ) → Shows f cs g → Shows g ds h → Shows f (cs ++ ds) h
  Shows-append f g h cs ds first second = record {
    screen =
        second.screen
        ∙ rw (first.screen, shown-append cs ds, write-append (shown cs) (shown ds) f.device);
    ready = second.ready;
    same = λ a. second.same a ∙ first.same a;
  }

  pub Shows-nil : (f : Console) → IsConsole f → Shows f [] f
  unfolding shown write
  Shows-nil f h = record { screen = refl; ready = h; same = λ a. refl }

  poke-start :
      (v : ℕ) (f : Console) → IsConsole f → poke f.memory f.write_ptr v (out_buffer + 0) ≡ v
  poke-start v f h = ground (arith, h.start)

  poke-next : (v : ℕ) (f : Console) → IsConsole f → poke f.memory f.write_ptr v (out_buffer + 1) ≡ 0
  poke-next v f h = ground (arith, h.start, h.empty 1)

  flush_one :
      (fuel c : ℕ) (m : Bytes) (s : Screen)
      → m (out_buffer + 0) ≡ c % 256
      → m (out_buffer + 1) ≡ 0
      → 1 < fuel
      → flush_loop fuel out_buffer 0 m s ≡ some (write (shown (c ∷ [])) s).1
  unfolding flush_loop write shown
  flush_one zero c m s here next enough = absurd (omega arith)
  flush_one (suc zero) c m s here next enough = absurd (omega arith)
  flush_one (suc (suc fuel)) c m s here next enough = elim (Bool-cases (c % 256 == 0)) [
    | inl nul ↦ rw (here, nul) refl
    | inr char ↦ rw (here, char, next) refl
  ]

  memset-same :
      (c : ℕ) (f : Console) (a : ℕ)
      → IsConsole f
      → memset out_buffer 0 100 (poke f.memory f.write_ptr c) a ≡ f.memory a
  memset-same c f a h =
      memset-fills out_buffer 0 100 (poke f.memory f.write_ptr c) a
      ∙ ground (arith, h.start, h.empty (a - out_buffer))

  flush-done :
      (fuel : ℕ) (f : Console) (s : Screen)
      → flush_loop fuel out_buffer 0 f.memory f.device ≡ some s
      → io_flush_handler out_buffer fuel f
        ≡ some (record {
          memory = memset out_buffer 0 100 f.memory;
          write_ptr = out_buffer;
          device = s;
        })
  unfolding io_flush_handler
  flush-done fuel f s e = rw (io_flush_handler, e) refl

  putchar-Shows :
      (fuel c : ℕ) (f : Console)
      → IsConsole f
      → 1 < fuel
      → (f' : Console) × (putchar out_buffer fuel c f ≡ some f') × Shows f (c ∷ []) f'
  unfolding putchar fputc
  putchar-Shows fuel c f h enough =
      let m = poke f.memory f.write_ptr (c % 256) in
      let flush =
        flush_one fuel c m f.device (poke-start (c % 256) f h) (poke-next (c % 256) f h) enough in
      let same : (a : ℕ) → memset out_buffer 0 100 m a ≡ f.memory a =
        λ a. memset-same (c % 256) f a h in
      (
        record {
          memory = memset out_buffer 0 100 m;
          write_ptr = out_buffer;
          device = (write (shown (c ∷ [])) f.device).1;
        },
        flush-done fuel (record { memory = m; write_ptr = f.write_ptr + 1; device = f.device }) _
            flush,
        record {
          screen = refl;
          ready = record { start = refl; empty = λ i l. same (out_buffer + i) ∙ h.empty i l };
          same = same;
        },
      )

  pub fputs-Shows :
      (fuel : ℕ) (cs : List ℕ) (f : Console)
      → IsConsole f
      → 1 < fuel
      → (f' : Console) × (fputs (io_flush_handler out_buffer fuel) cs f ≡ some f') × Shows f cs f'
  unfolding fputs putchar
  fputs-Shows fuel [] f h enough = (f, refl, Shows-nil f h)
  fputs-Shows fuel (c ∷ cs) f h enough =
      let (g, put, first) = putchar-Shows fuel c f h enough in
      let (f', run, others) = fputs-Shows fuel cs g first.ready enough in
      (f', rw (fputs, put) run, Shows-append f g f' (c ∷ []) cs first others)

  pub printk_all-Shows :
      (fuel : ℕ) (ts : List (List ℕ)) (f : Console)
      → IsConsole f
      → 1 < fuel
      → (f' : Console) × (printk_all out_buffer fuel ts f ≡ some f') × Shows f (joined ts) f'
  unfolding printk_all joined
  printk_all-Shows fuel [] f h enough = (f, refl, Shows-nil f h)
  printk_all-Shows fuel (t ∷ ts) f h enough =
      let (g, put, first) = fputs-Shows fuel t f h enough in
      let (f', run, others) = printk_all-Shows fuel ts g first.ready enough in
      (f', rw (printk_all, put) run, Shows-append f g f' t (joined ts) first others)

  -- k_init_printk, with the buffer zero as a static array is at the start, makes the console ready.
  pub k_init_printk-IsConsole :
      (f : Console)
      → ((i : ℕ) → i < 100 → f.memory (out_buffer + i) ≡ 0)
      → IsConsole (k_init_printk out_buffer f)
  unfolding k_init_printk
  k_init_printk-IsConsole f zeroed = record { start = refl; empty = zeroed }
