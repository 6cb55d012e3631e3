-- ===== src/Vga/Console/Tests.antt =====
-- The theorems on the console at a concrete format, and at the assertion that it fails.
use weird_os.Base.{ℕ, ◌≡◌, refl, arith, List, [], ◌∷◌, ltb, if◌then◌else◌, codes}
use weird_os.Clib.Itoa.{decimal}
use weird_os.Clib.Printf
use weird_os.Clib.Printf.{Arg, int}
use weird_os.Vga.{Screen}
use weird_os.Vga.Console.{Console, halted, assert, printf}
use weird_os.Vga.Console.Shows.{IsConsole, Shows}
use weird_os.Vga.Console.Laws.{assertion_text, ended, text, assert-Shows, printf-Shows}

abbrev blank : Screen
blank = record {
  line_number = 0;
  column_number = 0;
  vbuf = 0;
  video = λ a. 0;
  cursor_high = 0;
  cursor_low = 0;
}

-- The buffer is at 4096, and the memory below it is not zero.
abbrev pub console : Console
console = record { memory = λ a. if ltb a 4096 then 7 else 0; write_ptr = 4096; device = blank }

pub console-IsConsole : IsConsole 4096 console
console-IsConsole = record { start = refl; empty = λ i l. ground arith }

-- "at %x: %"
abbrev unfinished : List ℕ
unfinished = codes "at %x: %"

printf-Shows_example :
    (f' : Console) × (printf 4096 2 (codes "stdio.cpp") unfinished (int 255 ∷ []) console
      ≡ ended 4096 (Printf.vfprintf unfinished (int 255 ∷ [])) f')
    × Shows 4096 console
        (text 4096 (codes "stdio.cpp") (Printf.vfprintf unfinished (int 255 ∷ [])))
        f'
printf-Shows_example =
    printf-Shows 4096 2 (codes "stdio.cpp") unfinished (int 255 ∷ []) console console-IsConsole
      (omega arith)

assert-Shows_example :
    (digits : List ℕ) × (f' : Console) × (decimal digits 0 ≡ 1021)
    × (assert 4096 2 (codes "p != 0") (codes "main.c") 1021 console ≡ halted f')
    × Shows 4096 console (assertion_text 4096 (codes "p != 0") (codes "main.c") digits) f'
assert-Shows_example =
    assert-Shows 4096 2 (codes "p != 0") (codes "main.c") 1021 console console-IsConsole
      (omega arith) (omega arith)
