-- ===== src/Vga/Console/Laws.antt =====
-- printf of kernel/clib/stdio.cpp and __assert of kernel/assertk.cpp on the kernel's standard output.
use weird_os.Base.{
  ℕ, ◌≤◌, ◌<◌, ◌≡◌, refl, arith, List, [], ◌∷◌, ◌++◌, some, false, leb, length, codes,
}
use weird_os.Clib.Itoa.{itoa, decimal, itoa-short}
use weird_os.Clib.Printf
use weird_os.Clib.Printf.{Arg, Printed, ok, invalid_format, bad_arg}
use weird_os.Clib.Streams.{returned, asserted, no_arg, waits}
use weird_os.Clib.Streams.Laws.{chars, outcome, vfprintf-prints}
use weird_os.Vga.Console.{
  Console, Printing, done, halted, no_argument, endless, io_flush_handler, assert, printf,
}
use weird_os.Vga.Console.Shows.{
  joined, IsConsole, Shows, Shows-append, fputs-Shows, printk_all-Shows,
}

module _ (out_buffer : ℕ) where
  -- The text of __assert before the line, and after it.
  abbrev pub assertion_text : (msg file digits : List ℕ) → List ℕ
  assertion_text msg file digits =
      joined (codes "Assertion failed: " ∷ msg ∷ codes ", file " ∷ file ∷ codes ", line " ∷ [])
      ++ joined (digits ∷ codes "\n" ∷ [])

  assert-halts :
      (fuel : ℕ) (msg file : List ℕ) (line : ℕ) (digits : List ℕ) (f : Console)
      → itoa 11 line 10 ≡ some digits
      → length digits ≤ 4
      → IsConsole out_buffer f
      → 1 < fuel
      → (f' : Console) × (assert out_buffer fuel msg file line f ≡ halted f')
        × Shows out_buffer f (assertion_text msg file digits) f'
  unfolding assert
  assert-halts fuel msg file line digits f itoa_line short h enough =
      let (g, run, first) =
        printk_all-Shows out_buffer fuel
          (codes "Assertion failed: " ∷ msg ∷ codes ", file " ∷ file ∷ codes ", line " ∷ []) f h
          enough in
      let (f', run', others) =
        printk_all-Shows out_buffer fuel (digits ∷ codes "\n" ∷ []) g first.ready enough in
      let fits : leb 5 (length digits) ≡ false = ground arith in
      (
        f',
        rw (assert, run, itoa_line, fits, run') refl,
        Shows-append out_buffer f g f' _ _ first others,
      )

  -- A failed assertion in a line below 10000 shows its expression, the file and the digits of the line on the screen and then
  -- stops for ever.
  pub assert-Shows :
      (fuel : ℕ) (msg file : List ℕ) (line : ℕ) (f : Console)
      → IsConsole out_buffer f
      → line < 10000
      → 1 < fuel
      → (digits : List ℕ) × (f' : Console) × (decimal digits 0 ≡ line)
        × (assert out_buffer fuel msg file line f ≡ halted f')
        × Shows out_buffer f (assertion_text msg file digits) f'
  assert-Shows fuel msg file line f h small enough =
      let (digits, run, read, short) =
        itoa-short 11 line 4 small (omega arith) (omega arith) (omega arith) in
      let (f', halts, shows) = assert-halts fuel msg file line digits f run short h enough in
      (digits, f', read, halts, shows)

  -- How a call of printf ends, and the text that it has shown then.
  abbrev pub ended : Printed → Console → Printing
  ended (ok cs) = done
  ended (invalid_format cs) = halted
  ended (bad_arg cs) = no_argument

  abbrev pub text : (file : List ℕ) → Printed → List ℕ
  text file (ok cs) = cs
  text file (invalid_format cs) =
      cs ++ assertion_text (codes "next != 0 && \"Invalid printf argument\"") file (codes "66")
  text file (bad_arg cs) = cs

  line_66 : itoa 11 66 10 ≡ some (codes "66")
  unfolding itoa weird_os.Clib.Itoa.itoa_loop weird_os.Clib.Itoa.digit_char
  line_66 = refl

  ended-Shows :
      (fuel : ℕ) (file : List ℕ) (p : Printed) (f g : Console)
      → 1 < fuel
      → Shows out_buffer f (chars p) g
      → (f' : Console) × (elim (outcome p g) [
        | returned f'' ↦ done f''
        | asserted f'' ↦
            assert out_buffer fuel (codes "next != 0 && \"Invalid printf argument\"") file 66 f''
        | no_arg f'' ↦ no_argument f''
        | waits ↦ endless
      ]
          ≡ ended p f')
        × Shows out_buffer f (text file p) f'
  ended-Shows fuel file (ok cs) f g enough shows = (g, refl, shows)
  ended-Shows fuel file (bad_arg cs) f g enough shows = (g, refl, shows)
  ended-Shows fuel file (invalid_format cs) f g enough shows =
      let (f', halts, message) =
        assert-halts fuel (codes "next != 0 && \"Invalid printf argument\"") file 66 (codes "66") g
          line_66 (omega arith) shows.ready enough in
      (f', halts, Shows-append out_buffer f g f' _ _ shows message)

  -- printf on the console, whose buffer is empty, ends as its format and arguments say: it returns, it meets a
  -- missing argument, or it stops in the failed assertion. It shows exactly the characters that
  -- vfprintf prints, up to the end or the failure, and behind them the message of the assertion. The
  -- buffer is empty again and the memory as before. Fuel 2 is enough.
  pub printf-Shows :
      (fuel : ℕ) (file format : List ℕ) (args : List Arg) (f : Console)
      → IsConsole out_buffer f
      → 1 < fuel
      → (f' : Console) × (printf out_buffer fuel file format args f
          ≡ ended (Printf.vfprintf format args) f')
        × Shows out_buffer f (text file (Printf.vfprintf format args)) f'
  unfolding printf
  printf-Shows fuel file format args f h enough =
      let p = Printf.vfprintf format args in
      let (g, run, shows) = fputs-Shows out_buffer fuel (chars p) f h enough in
      let (f', end, message) = ended-Shows fuel file p f g enough shows in
      (
        f',
        rw (printf, vfprintf-prints (io_flush_handler out_buffer fuel) format args f, run) end,
        message,
      )
